-- ===== src/Db/Chain/Unique.antt =====
-- `TryCreateAggProofFromSpanProofs` (db/db.go) and the number of live AGG requests.
use optimism_zkp.Prelude.{
  ℕ, suc, ◌≤◌, ◌≡◌, subst, List, ◌∷◌, inl, inr, ltb, ◌==◌, Bool-cases, select, arith,
}
use optimism_zkp.Prelude.Effects.{◌>>=◌}
use optimism_zkp.Request.{Request, agg}
use optimism_zkp.World.{Env, World, statement}
use optimism_zkp.Db.{
  contiguous_end, query, new_entry, get_max_contiguous_span_proof_range,
  try_create_agg_proof_from_span_proofs,
}
use optimism_zkp.Db.Table.{new_row, insert}
use optimism_zkp.Db.Chain.Create.{live_aggs}
use optimism_zkp.Db.Chain.Range.{chain_rows}

one_more : (n : ℕ) → n ≡ 0 → suc n ≤ 1
one_more n h = omega arith

-- An AGG request where none is live is the only one.
new_agg :
    (key now from end start : ℕ) (rows : List Request)
    → live_aggs from rows ≡ 0
    → live_aggs start rows ≤ 1
    → live_aggs start (new_row key now agg from end ∷ rows) ≤ 1
unfolding select
new_agg key now from end start rows none_live h = elim (Bool-cases (from == start)) [
  | inl e ↦
      let same : from ≡ start = ground (arith, e) in
      rw e (one_more _ (subst (λ b. live_aggs b rows ≡ 0) same none_live))
  | inr e ↦ rw e h
]

-- Whatever statement fails and in whatever order rows come: where every block has at most one AGG request
-- from it that has not failed, it has at most one after the call.
pub try_create_unique :
    (e : Env) (from min_to : ℕ) (w : World)
    → ((start : ℕ) → live_aggs start w.rows ≤ 1)
    → (start : ℕ)
    → live_aggs start (try_create_agg_proof_from_span_proofs e from min_to w).1.rows ≤ 1
unfolding try_create_agg_proof_from_span_proofs get_max_contiguous_span_proof_range new_entry insert
    query statement ◌>>=◌
try_create_unique e from min_to w h start = elim (Bool-cases (e.fault w.calls)) [
  | inl a ↦ rw a (h start)
  | inr a ↦ rw a (elim (Bool-cases (ltb 0 (live_aggs from w.rows))) [
    | inl b ↦ rw b (h start)
    | inr b ↦ rw b (elim (Bool-cases (e.fault (suc w.calls))) [
      | inl c ↦ rw c (h start)
      | inr c ↦
          rw c
            (elim (Bool-cases
              (ltb (contiguous_end from (chain_rows e (suc w.calls) from w.rows)) min_to)) [
                | inl d ↦ rw d (h start)
                | inr d ↦ rw d (elim (Bool-cases (e.fault (suc (suc w.calls)))) [
                  | inl f ↦ rw f (h start)
                  | inr f ↦ rw f (new_agg w.next_id _ from _ start w.rows (ground arith) (h start))
                ])
              ])
    ])
  ])
]
