-- ===== src/Db/Chain/Create.antt =====
-- `TryCreateAggProofFromSpanProofs` (db/db.go) against the run of proven blocks.
use optimism_zkp.Prelude.{
  ℕ, suc, ◌≤◌, ◌<◌, ◌≡◌, refl, Bool, true, false, not, ◌&&◌, List, ◌∷◌, inl, inr, ◌⊎◌, ltb,
  Bool-cases, All, select, length, arith,
}
use optimism_zkp.Prelude.Effects.{Result, ok, ◌>>=◌}
use optimism_zkp.Request.{Request, agg, failed}
use optimism_zkp.World.{Env, World, ScansRows, statement}
use optimism_zkp.Db.{
  is_type, has_status, starts_at, contiguous_end, query, new_entry,
  get_max_contiguous_span_proof_range, try_create_agg_proof_from_span_proofs,
}
use optimism_zkp.Db.Table.{new_row, insert}
use optimism_zkp.Db.Chain.{IsNonempty}
use optimism_zkp.Db.Chain.Range.{proofs_of, EndsRun, chain_rows, contiguous_end-EndsRun}

-- The AGG requests from the block that have not failed.
abbrev pub live_aggs : ℕ → List Request → ℕ
live_aggs from rows =
    length (select (λ r. is_type r agg && starts_at r from && not (has_status r failed)) rows)

-- An AGG request for the proven run [from, m) was added: none was live and the run is long enough.
abbrev pub Created : Env → ℕ → ℕ → World → ℕ → Result (Bool × ℕ) × World → Type 0
Created e from min_to w m r =
    (live_aggs from w.rows ≡ 0)
    × (min_to ≤ m)
    × (r.0 ≡ ok (true, m))
    × ((now : ℕ) × (r.1.rows ≡ new_row w.next_id now agg from m ∷ w.rows))

-- Nothing was added: one was live, or the run is too short.
abbrev pub Skipped : ℕ → ℕ → World → ℕ → Result (Bool × ℕ) × World → Type 0
Skipped from min_to w m r =
    ((0 < live_aggs from w.rows) ⊎ (m < min_to)) × (r.0 ≡ ok (false, 0)) × (r.1.rows ≡ w.rows)

-- Where a query returns rows of its selection only, each as often as it stands there, no statement
-- fails, no range is empty and no completed span proofs from `from` on overlap: the run of proven
-- blocks from `from` ends at some block m, and an AGG request [from, m) is added if and only if no AGG
-- request from `from` is live and m is at least `min_to`; otherwise the table is left alone.
pub try_create_lem :
    (e : Env) (from min_to : ℕ) (w : World)
    → ScansRows e
    → ((n : ℕ) → e.fault n ≡ false)
    → All IsNonempty w.rows
    → ((b : ℕ) → proofs_of from b w.rows ≤ 1)
    → (m : ℕ) × EndsRun from w.rows m
      × (Created e from min_to w m (try_create_agg_proof_from_span_proofs e from min_to w)
          ⊎ Skipped from min_to w m (try_create_agg_proof_from_span_proofs e from min_to w))
unfolding try_create_agg_proof_from_span_proofs get_max_contiguous_span_proof_range new_entry insert
    query statement ◌>>=◌
try_create_lem e from min_to w scans f h c =
    let m = contiguous_end from (chain_rows e (suc w.calls) from w.rows) in
    (
      m,
      contiguous_end-EndsRun e scans (suc w.calls) from w.rows h c,
      rw (f w.calls) (elim (Bool-cases (ltb 0 (live_aggs from w.rows))) [
        | inl p ↦ rw p (inr (inl (ground arith), refl, refl))
        | inr p ↦
            rw (p, f (suc w.calls))
              (elim (Bool-cases (ltb m min_to)) [
                | inl q ↦ rw q (inr (inr (ground arith), refl, refl))
                | inr q ↦
                    rw (q, f (suc (suc w.calls)))
                      (inl (ground arith, ground arith, refl, (e.now (suc (suc w.calls)), refl)))
              ])
      ]),
    )
