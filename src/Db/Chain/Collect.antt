-- ===== src/Db/Chain/Collect.antt =====
-- The loop of `GetConsecutiveSpanProofs` (db/db.go).
use optimism_zkp.Prelude.{
  ℕ, ◌≡◌, refl, ◌∙◌, true, Option, List, [], ◌∷◌, ◌++◌, map, inl, inr, Bool-cases, ◌==◌, arith,
}
use mathlib.Core.List.{append-nil, append_assoc}
use optimism_zkp.Prelude.Effects.{ok}
use optimism_zkp.Request.{Bytes, Request}
use optimism_zkp.Db.{collect_proofs}

-- Each span starts where the one before ended, from `current` to `end`.
abbrev pub Links : ℕ → List Request → ℕ → Type 0
Links current [] end = current ≡ end
Links current (s ∷ ss) end = (s.start_block ≡ current) × Links s.end_block ss end

abbrev pub proofs_in : List Request → List (Option Bytes)
proofs_in l = map (λ r. r.proof) l

-- Spans that form a chain to the end give their proofs, in order.
pub collect_proofs-Links :
    (end current : ℕ) (proofs : List (Option Bytes)) (l : List Request)
    → Links current l end
    → collect_proofs end current proofs l ≡ ok (proofs ++ proofs_in l)
unfolding collect_proofs
collect_proofs-Links end current proofs [] h = rw append-nil (ground arith)
collect_proofs-Links end current proofs (s ∷ ss) h =
    let test : s.start_block == current ≡ true = ground (arith, h.0) in
    rw test
      (collect_proofs-Links end s.end_block (proofs ++ s.proof ∷ []) ss h.1 ∙ rw append_assoc refl)

-- Collecting succeeds only on a chain to the end.
collects-Links :
    (end current : ℕ) (acc : List (Option Bytes)) (l : List Request) (proofs : List (Option Bytes))
    → collect_proofs end current acc l ≡ ok proofs
    → Links current l end
unfolding collect_proofs
collects-Links end current acc [] proofs h = elim (Bool-cases (current == end)) [
  | inl p ↦ ground arith
  | inr q ↦ cc
]
collects-Links end current acc (s ∷ ss) proofs h = elim (Bool-cases (s.start_block == current)) [
  | inl p ↦
      (ground arith, collects-Links end s.end_block (acc ++ s.proof ∷ []) ss proofs (rw p at h))
  | inr q ↦ cc
]

-- The spans form a chain to the end if and only if collecting succeeds, and then their proofs come
-- in the order of the chain.
pub collect_proofs_lem :
    (end current : ℕ) (l : List Request)
    → (Links current l end → collect_proofs end current [] l ≡ ok (proofs_in l))
      × ((proofs acc : List (Option Bytes))
          → collect_proofs end current acc l ≡ ok proofs
          → Links current l end)
collect_proofs_lem end current l = (
  collect_proofs-Links end current [] l,
  λ proofs acc h. collects-Links end current acc l proofs h,
)
