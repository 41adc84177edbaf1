-- ===== src/Db/Reads.antt =====
-- Calls that leave the table alone, and what a query returns.
use optimism_zkp.Prelude.{
  ℕ, suc, ◌≡◌, refl, Bool, true, false, Option, none, some, List, [], ◌∷◌, if◌then◌else◌, All,
  select,
}
use optimism_zkp.Prelude.Effects.{
  Error, Result, ok, err, pure, raise, gets, modify, ◌>>=◌, catch, db_failed,
}
use optimism_zkp.Prelude.Effects.Ensures.{
  Ends, Ensures, Keeps, Ensures-pure, Ensures-raise, Ensures-gets, Ensures-modify, Ensures-bind,
  Ensures-catch,
}
use optimism_zkp.Request.{Request, Status}
use optimism_zkp.World.{Env, World, M, ScansRows, call, statement, ask, answer, observe}
use optimism_zkp.Db.{query, get_number_of_requests_with_status, first_row, only_row}

-- A claim about the table alone: the next key and the rows.
abbrev pub On : (ℕ → List Request → Type 0) → World → Type 0
On P w = P w.next_id w.rows

-- A claim about the requests handed to goroutines too.
abbrev pub OnAll : (ℕ → List Request → List Request → Type 0) → World → Type 0
OnAll P w = P w.next_id w.rows w.spawned

-- A claim about the table, which says nothing of the requests handed over.
abbrev pub OnTable : (ℕ → List Request → Type 0) → ℕ → List Request → List Request → Type 0
OnTable P n rows spawned = P n rows

-- The call leaves the table and the requests handed over as they were, however it ends.
abbrev pub Reads : {A : Type 0} → M A → Type 1
Reads m = (P : ℕ → List Request → List Request → Type 0) → Keeps (OnAll P) m

module _ {A : Type 0} where
  pub Reads-pure : (a : A) → Reads (pure a)
  Reads-pure a P = Ensures-pure (OnAll P) (λ _. OnAll P) (OnAll P) a (λ s h. h)

  pub Reads-raise : (x : Error) → Reads (raise {A = A} x)
  Reads-raise x P = Ensures-raise (OnAll P) (λ _. OnAll P) (OnAll P) x (λ s h. h)

  pub Reads-gets : (f : World → A) → Reads (gets f)
  Reads-gets f P = Ensures-gets (OnAll P) (λ _. OnAll P) (OnAll P) f (λ s h. h)

  pub Reads-if : (b : Bool) (m n : M A) → Reads m → Reads n → Reads (if b then m else n)
  Reads-if true m n h k = h
  Reads-if false m n h k = k

  pub Reads-answer : (o : Option A) → Reads (answer o)
  Reads-answer none = Reads-raise _
  Reads-answer (some a) = Reads-pure a

module _ {A B : Type 0} where
  pub Reads-bind : (m : M A) (f : A → M B) → Reads m → ((a : A) → Reads (f a)) → Reads (m >>= f)
  Reads-bind m f h k P =
      Ensures-bind (OnAll P) (λ _. OnAll P) (λ _. OnAll P) (OnAll P) m f (h P) (λ a. k a P)

  pub Reads-catch :
      (m : M A) (f : Result A → M B) → Reads m → ((r : Result A) → Reads (f r)) → Reads (catch m f)
  Reads-catch m f h k P =
      Ensures-catch (OnAll P) (λ _. OnAll P) (λ _. OnAll P) (OnAll P) (OnAll P) m f (h P)
        (λ a. k (ok a) P) (λ x. k (err x) P)

pub Reads-call : Reads call
unfolding call
Reads-call P = record { at = λ s h. h }

pub Reads-statement : (e : Env) → Reads (statement e)
unfolding statement
Reads-statement e P = record { at = λ s h. after s h (e.fault s.calls) }
  where
    after :
        (s : World)
        → OnAll P s
        → (b : Bool)
        → Ends
            (λ _. OnAll P)
            (OnAll P)
            (if b then err db_failed else ok s.calls, record s { calls = suc s.calls })
    after s h true = h
    after s h false = h

pub Reads-ask : {A : Type 0} (f : ℕ → Option A) → Reads (ask f)
unfolding ask
Reads-ask f = Reads-bind call _ Reads-call (λ n. Reads-answer (f n))

pub Reads-observe : {A : Type 0} (f : ℕ → A) → Reads (observe f)
unfolding observe
Reads-observe f = Reads-bind call _ Reads-call (λ n. Reads-pure (f n))

answered :
    {A : Type 0} (P : ℕ → List Request → List Request → Type 0) (f : ℕ → Option A) (n : ℕ)
    (o : Option A)
    → f n ≡ o
    → Ensures (OnAll P) (answer o) (λ a w. OnAll P w × ((k : ℕ) × (f k ≡ some a))) (OnAll P)
answered P f n none h = Ensures-raise _ _ _ _ (λ s k. k)
answered P f n (some a) h = Ensures-pure _ _ _ a (λ s k. (k, (n, h)))

-- The value is one that the service gave.
pub Ensures-ask :
    {A : Type 0} (P : ℕ → List Request → List Request → Type 0) (f : ℕ → Option A)
    → Ensures (OnAll P) (ask f) (λ a w. OnAll P w × ((k : ℕ) × (f k ≡ some a))) (OnAll P)
unfolding ask
Ensures-ask P f = Ensures-bind _ _ _ _ _ _ (Reads-call P) (λ n. answered P f n (f n) refl)

pub Reads-modify :
    (f : World → World)
    → ((P : ℕ → List Request → List Request → Type 0) (s : World) → OnAll P s → OnAll P (f s))
    → Reads (modify f)
Reads-modify f h P = Ensures-modify (OnAll P) (λ _. OnAll P) (OnAll P) f (h P)

module _ (e : Env) where
  pub Reads-query : (p : Request → Bool) → Reads (query e p)
  unfolding query
  Reads-query p = Reads-bind (statement e) _ (Reads-statement e) (λ n. Reads-gets _)

  pub Reads-number : (s : Status) → Reads (get_number_of_requests_with_status e s)
  unfolding get_number_of_requests_with_status
  Reads-number s = Reads-bind (statement e) _ (Reads-statement e) (λ n. Reads-gets _)

  -- The rows that a query returns are rows of the table that pass its test.
  pub query-rows :
      (scans : ScansRows e) (p : Request → Bool) (P : ℕ → List Request → Type 0)
      (Q : ℕ → List Request → Request → Type 0)
      → ((n : ℕ) (rows : List Request) → P n rows → All (Q n rows) (select p rows))
      → Ensures (On P) (query e p) (λ l w. P w.next_id w.rows × All (Q w.next_id w.rows) l) (On P)
  unfolding query
  query-rows scans p P Q h =
      Ensures-bind (On P) (λ _. On P) _ (On P) (statement e) _ (Reads-statement e (OnTable P))
        (λ n.
          Ensures-gets (On P) _ (On P) _
            (λ s k. (k, scans.rows n (Q s.next_id s.rows) _ (h s.next_id s.rows k))))

pub Reads-first_row : (rows : List Request) → Reads (first_row rows)
Reads-first_row [] = Reads-raise _
Reads-first_row (r ∷ rows) = Reads-pure r

pub Reads-only_row : (rows : List Request) → Reads (only_row rows)
Reads-only_row [] = Reads-raise _
Reads-only_row (r ∷ []) = Reads-pure r
Reads-only_row (r ∷ r' ∷ rows) = Reads-raise _
