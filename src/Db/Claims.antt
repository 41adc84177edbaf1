-- ===== src/Db/Claims.antt =====
-- How often a block is claimed: by the span requests of the table that have not failed.
pub mod Held
pub mod Queried
use optimism_zkp.Prelude.{
  ℕ, suc, ◌+◌, ◌^◌, ◌≤◌, ◌<◌, ◌≡◌, refl, Bool, true, false, not, ◌&&◌, Option, none, some, List, [],
  ◌∷◌, inl, inr, Bool-cases, ltb, leb, ◌==◌, if◌then◌else◌, one_if, All, All-map, count, arith,
}
use optimism_zkp.Prelude.Effects.{Result, ok, err, modify, ◌>>=◌}
use optimism_zkp.Prelude.Effects.Ensures.{Ensures, Ensures-modify, Ensures-bind}
use optimism_zkp.Request.{
  Request, ProofType, span, agg, Status, unreq, failed, same_type, same_status,
}
use optimism_zkp.World.{Env, World, M, statement}
use optimism_zkp.Db.Table.{new_row, insert, update_rows, find}
use optimism_zkp.Db.{id_is, is_type, has_status, new_entry, update_proof_status}
use optimism_zkp.Db.Chain.{covers}
use optimism_zkp.Db.Ids.{
  Ids, KeepsId, Ids-update_rows, count-update_rows, find-update_rows_ne, find-lt,
}
use optimism_zkp.Db.Reads.{On, Reads, Reads-statement}

-- A span request that has not failed and whose range holds the block.
abbrev pub claims : ℕ → Request → Bool
claims b r = is_type r span && not (has_status r failed) && covers b r

-- The number of requests that claim the block.
abbrev pub claims_of : ℕ → List Request → ℕ
claims_of b rows = count (claims b) rows

-- 1 if a request of this type and range would claim the block.
abbrev pub share : ProofType → ℕ → ℕ → ℕ → ℕ
share type start end b = one_if (same_type type span && (leb start b && ltb b end))

-- Ranges of span requests are not empty, and all stay below 2 ^ 63, as SQLite's integers do.
abbrev pub IsProper : Request → Type 0
IsProper r = (is_type r span ≡ true → r.start_block < r.end_block) × (r.end_block < 2 ^ 63)

-- A sound table in which every block `b` has at most `limit b` claims even after `room b` more.
pub record IsWithin (limit room : ℕ → ℕ) (n : ℕ) (rows : List Request) : Type 0 where
  pub ids : Ids n rows
  pub ranges : All IsProper rows
  pub fits : (b : ℕ) → claims_of b rows + room b ≤ limit b

abbrev pub one : ℕ → ℕ
one b = 1

abbrev pub nought : ℕ → ℕ
nought b = 0

-- Keys are unique, ranges are proper, and no block is claimed twice.
abbrev pub IsTidy : ℕ → List Request → Type 0
IsTidy = IsWithin one nought

module _ {limit room room' : ℕ → ℕ} {n : ℕ} {rows : List Request} where
  pub less_room :
      ((b : ℕ) → room' b ≤ room b) → IsWithin limit room n rows → IsWithin limit room' n rows
  less_room h k = record {
    ids = k.ids;
    ranges = k.ranges;
    fits = λ b. omega (arith, h b, k.fits b);
  }

module _ (limit room : ℕ → ℕ) (n : ℕ) (rows : List Request) where
  -- A new entry takes its share of the room.
  pub insert-IsWithin :
      (now : ℕ) (type : ProofType) (start end : ℕ)
      → IsProper (new_row n now type start end)
      → IsWithin limit (λ b. share type start end b + room b) n rows
      → IsWithin limit room (suc n) (new_row n now type start end ∷ rows)
  unfolding count
  insert-IsWithin now type start end p k = record {
    ids = (omega arith, k.ids);
    ranges = (p, k.ranges);
    fits = λ b. ground (arith, k.fits b);
  }

module _ (f : Request → Request) (p : Request → Bool) where
  pub ranges-update_rows :
      ((r : Request) → IsProper r → IsProper (f r))
      → (rows : List Request) → All IsProper rows
      → All IsProper (update_rows p f rows)
  unfolding update_rows
  ranges-update_rows h [] k = tt
  ranges-update_rows h (x ∷ rows) k = elim (Bool-cases (p x)) [
    | inl e ↦ rw e (h x k.0, ranges-update_rows h rows k.1)
    | inr e ↦ rw e (k.0, ranges-update_rows h rows k.1)
  ]
