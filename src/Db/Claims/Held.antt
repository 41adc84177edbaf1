-- ===== src/Db/Claims/Held.antt =====
-- A sound table together with requests that were read from it and still stand in it as they were.
use optimism_zkp.Prelude.{
  ℕ, suc, ◌+◌, ◌^◌, ◌≤◌, ◌<◌, ◌≡◌, ◌≢◌, ◌∙◌, true, false, some, List, [], ◌∷◌, inl, inr, Bool-cases,
  ◌==◌, one_if, All, All-map, All-both, arith,
}
use optimism_zkp.Prelude.Effects.Ensures.{Ensures, Ensures-modify, Ensures-bind}
use optimism_zkp.Request.{Request, ProofType, span, failed, same_type}
use optimism_zkp.World.{Env, World, statement}
use optimism_zkp.Db.Table.{new_row, insert, update_rows, find}
use optimism_zkp.Db.{id_is, has_status, update, new_entry}
use optimism_zkp.Db.Ids.{
  Ids, KeepsId, Ids-update_rows, count-update_rows, find-update_rows_ne, find-lt,
}
use optimism_zkp.Db.Reads.{On, OnTable, Reads-statement}
use optimism_zkp.Db.Claims.{
  claims, share, IsProper, IsWithin, insert-IsWithin, less_room, ranges-update_rows,
}

-- The stored row of the request is the request itself, and it has not failed.
abbrev pub IsStored : List Request → Request → Type 0
IsStored rows q = (find q.id rows ≡ some q) × (has_status q failed ≡ false)

-- No other request of the list has the key.
abbrev pub IsFresh : ℕ → List Request → Type 0
IsFresh key left = All (λ q. key ≢ q.id) left

-- The requests have keys of their own.
abbrev pub Distinct : List Request → Type 0
Distinct [] = Unit
Distinct (q ∷ left) = IsFresh q.id left × Distinct left

pub record Held (limit room : ℕ → ℕ) (left : List Request) (n : ℕ) (rows : List Request)
    : Type 0 where
  pub within : IsWithin limit room n rows
  pub stored : All (IsStored rows) left
  pub distinct : Distinct left

-- A row that stands in the table is still found beside a new one.
find-insert :
    (n now : ℕ) (type : ProofType) (start end : ℕ) (rows : List Request) (q : Request)
    → Ids n rows
    → IsStored rows q
    → IsStored (new_row n now type start end ∷ rows) q
unfolding find
find-insert n now type start end rows q k h = elim (Bool-cases (n == q.id)) [
  | inl e ↦ absurd (ground (arith, find-lt n q.id rows q k h.0))
  | inr e ↦ (rw e h.0, h.1)
]

module _ (limit room : ℕ → ℕ) (left : List Request) (n : ℕ) (rows : List Request) where
  insert-Held :
      (now : ℕ) (type : ProofType) (start end : ℕ)
      → IsProper (new_row n now type start end)
      → Held limit (λ b. share type start end b + room b) left n rows
      → Held limit room left (suc n) (new_row n now type start end ∷ rows)
  insert-Held now type start end p k = record {
    within = insert-IsWithin limit room n rows now type start end p k.within;
    stored =
        All-map _ _ left (λ q h. find-insert n now type start end rows q k.within.ids h) k.stored;
    distinct = k.distinct;
  }

  update-Held :
      (req : Request) (f : Request → Request) (room' : ℕ → ℕ)
      → KeepsId f
      → ((r : Request) → IsProper r → IsProper (f r))
      → ((b : ℕ) → one_if (claims b (f req)) + room' b ≤ one_if (claims b req) + room b)
      → Held limit room (req ∷ left) n rows
      → Held limit room' left n (update_rows (λ r. r.id == req.id) f rows)
  update-Held req f room' keep proper trade k = record {
    within = record {
      ids = Ids-update_rows n _ f rows keep k.within.ids;
      ranges = ranges-update_rows f _ proper rows k.within.ranges;
      fits = λ b. omega (
        arith,
        trade b,
        k.within.fits b,
        count-update_rows (claims b) n req.id f rows req k.within.ids k.stored.0.0,
      );
    };
    stored =
        All-map _ _ left (λ q h. (find-update_rows_ne req.id q.id f rows keep h.0 ∙ h.1.0, h.1.1))
          (All-both (λ q. req.id ≢ q.id) (IsStored rows) left k.distinct.0 k.stored.1);
    distinct = k.distinct.1;
  }

module _ {limit room room' : ℕ → ℕ} {left : List Request} {n : ℕ} {rows : List Request} where
  pub less_room-Held :
      ((b : ℕ) → room' b ≤ room b) → Held limit room left n rows → Held limit room' left n rows
  less_room-Held h k = record {
    within = less_room h k.within;
    stored = k.stored;
    distinct = k.distinct;
  }

module _ {limit room : ℕ → ℕ} {q : Request} {left : List Request} {n : ℕ}
    {rows : List Request} where
  pub Held-tail : Held limit room (q ∷ left) n rows → Held limit room left n rows
  Held-tail k = record { within = k.within; stored = k.stored.1; distinct = k.distinct.1 }

module _ (e : Env) (limit room : ℕ → ℕ) (left : List Request) where
  -- A new entry uses up its share of the room; a failed statement leaves the room.
  pub new_entry-Held :
      (type : ProofType) (start end : ℕ)
      → (same_type type span ≡ true → start < end) × (end < 2 ^ 63)
      → Ensures
          (On (Held limit (λ b. share type start end b + room b) left))
          (new_entry e type start end)
          (λ _. On (Held limit room left))
          (On (Held limit (λ b. share type start end b + room b) left))
  unfolding new_entry insert
  new_entry-Held type start end p =
      Ensures-bind P (λ _. P) (λ _. On (Held limit room left)) P (statement e) _
        (Reads-statement e (OnTable (Held limit (λ b. share type start end b + room b) left)))
        (λ n.
          Ensures-modify P (λ _. On (Held limit room left)) P _
            (λ w h. insert-Held limit room left w.next_id w.rows (e.now n) type start end p h))
    where
      P : World → Type 0
      P = On (Held limit (λ b. share type start end b + room b) left)

  -- An update by key of a request that is at hand, which gives up as much of its claim as goes to
  -- the room.
  pub update-Ensures-Held :
      (req : Request) (f : ℕ → Request → Request) (room' : ℕ → ℕ)
      → ((now : ℕ) → KeepsId (f now))
      → ((now : ℕ) (r : Request) → IsProper r → IsProper (f now r))
      → ((now b : ℕ) → one_if (claims b (f now req)) + room' b ≤ one_if (claims b req) + room b)
      → Ensures
          (On (Held limit room (req ∷ left)))
          (update e (λ r. id_is r req.id) f)
          (λ _. On (Held limit room' left))
          (On (Held limit room (req ∷ left)))
  unfolding update
  update-Ensures-Held req f room' keep proper trade =
      Ensures-bind (On (Held limit room (req ∷ left))) (λ _. On (Held limit room (req ∷ left)))
        (λ _. On (Held limit room' left)) _ (statement e) _
        (Reads-statement e (OnTable (Held limit room (req ∷ left))))
        (λ n.
          Ensures-modify _ (λ _. On (Held limit room' left)) _ _
            (λ w h.
              update-Held limit room left w.next_id w.rows req (f (e.now n)) room' (keep (e.now n))
                (proper (e.now n)) (trade (e.now n)) h))
