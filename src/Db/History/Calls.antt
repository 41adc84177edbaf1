-- ===== src/Db/History/Calls.antt =====
-- The calls of the database (db/db.go) on the rows that were there before.
use optimism_zkp.Prelude.{ℕ, ◌≡◌, refl, Bool, true, false, List, [], ◌∷◌, if◌then◌else◌, All}
use optimism_zkp.Prelude.Effects.{Error, Result, ok, err, pure, raise, ◌>>=◌, catch, for_each}
use optimism_zkp.Prelude.Effects.Ensures.{
  Keeps, Ensures-pure, Ensures-raise, Ensures-modify, Ensures-bind, Ensures-catch, Ensures-for_each,
}
use optimism_zkp.Request.{Bytes, Request, ProofType, Status}
use optimism_zkp.World.{Env, World, M, statement}
use optimism_zkp.Db.{update, new_entry, update_proof_status, set_prover_request_id}
use optimism_zkp.Db.Table.{insert, update_rows}
use optimism_zkp.Db.Reads.{On, OnTable, Reads, Reads-statement}
use optimism_zkp.Db.History.{Evolves, IsHistory, new_row-IsHistory, update_rows-IsHistory}

-- However the call ends, it leaves a later table.
abbrev pub Records : List Request → {A : Type 0} → M A → Type 0
Records past m = Keeps (On (IsHistory past)) m

module _ (past : List Request) where
  abbrev H : World → Type 0
  H = On (IsHistory past)

  module _ {A : Type 0} where
    pub Records-read : (m : M A) → Reads m → Records past m
    Records-read m h = h (OnTable (IsHistory past))

    pub Records-pure : (a : A) → Records past (pure a)
    Records-pure a = Ensures-pure _ _ _ a (λ w k. k)

    pub Records-raise : (x : Error) → Records past (raise {A = A} x)
    Records-raise x = Ensures-raise _ _ _ x (λ w k. k)

    pub Records-if :
        (b : Bool) (m n : M A) → Records past m → Records past n → Records past (if b then m else n)
    Records-if true m n h k = h
    Records-if false m n h k = k

  module _ {A B : Type 0} where
    pub Records-bind :
        (m : M A) (f : A → M B)
        → Records past m
        → ((a : A) → Records past (f a))
        → Records past (m >>= f)
    Records-bind m f h k = Ensures-bind _ (λ _. H) _ _ m f h k

    pub Records-catch :
        (m : M A) (f : Result A → M B)
        → Records past m
        → ((r : Result A) → Records past (f r))
        → Records past (catch m f)
    Records-catch m f h k = Ensures-catch _ (λ _. H) _ H _ m f h (λ a. k (ok a)) (λ x. k (err x))

  pub Records-for_each :
      {A : Type 0} (body : A → M (Unit {0}))
      → ((a : A) → Records past (body a))
      → (l : List A) → Records past (for_each l body)
  Records-for_each body h l = Ensures-for_each (λ _. H) H body (λ x xs. h x) l

  pub Records-write :
      (p : Request → Bool) (f : Request → Request)
      → ((r : Request) → Evolves r (f r))
      → (n : ℕ) (rows : List Request) → IsHistory past n rows
      → IsHistory past n (update_rows p f rows)
  Records-write p f h n rows k = update_rows-IsHistory past n p f rows (λ r. (h r).id) (all rows) k
    where
      all : (l : List Request) → All (λ r. p r ≡ true → Evolves r (f r)) l
      all [] = tt
      all (r ∷ l) = ((λ _. h r), all l)

  module _ (e : Env) where
    pub Records-update :
        (p : Request → Bool) (f : ℕ → Request → Request)
        → ((now : ℕ) (r : Request) → Evolves r (f now r))
        → Records past (update e p f)
    unfolding update
    Records-update p f h = Records-bind (statement e) _ (Records-read _ (Reads-statement e)) (λ n.
        Ensures-modify _ _ _ _
          (λ w k. Records-write p (f (e.now n)) (h (e.now n)) w.next_id w.rows k))

    pub Records-new_entry :
        (type : ProofType) (start end : ℕ) → Records past (new_entry e type start end)
    unfolding new_entry insert
    Records-new_entry type start end =
        Records-bind (statement e) _ (Records-read _ (Reads-statement e)) (λ n.
          Ensures-modify _ _ _ _
            (λ w k. new_row-IsHistory past w.next_id (e.now n) type start end w.rows k))

    pub Records-status :
        (key : ℕ) (status : Status) → Records past (update_proof_status e key status)
    unfolding update_proof_status
    Records-status key status = Records-update _ _ (λ now r. record {
      id = refl;
      type = refl;
      start = refl;
      end = refl;
      added = refl;
      proof = λ p h. h;
    })

    pub Records-prover_id : (key : ℕ) (id : Bytes) → Records past (set_prover_request_id e key id)
    unfolding set_prover_request_id
    Records-prover_id key id = Records-update _ _ (λ now r. record {
      id = refl;
      type = refl;
      start = refl;
      end = refl;
      added = refl;
      proof = λ p h. h;
    })
