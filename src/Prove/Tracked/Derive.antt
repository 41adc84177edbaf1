-- ===== src/Prove/Tracked/Derive.antt =====
-- Stage 4 of a poll, `DeriveAggProofs` (prove.go), where copies of the rows are about and no statement
-- fails.
use optimism_zkp.Prelude.{
  ℕ, some, ◌+◌, ◌<◌, ◌^◌, ◌≡◌, true, false, List, ltb, All-map, All-sort_by, arith,
}
use optimism_zkp.Prelude.Effects.{pure, gets, ◌>>=◌}
use optimism_zkp.Prelude.Effects.Ensures.{
  Ensures, Keeps, Ensures-pure, Ensures-gets, Ensures-bind, Ensures-before, Ensures-if,
  Ensures-given,
}
use optimism_zkp.Request.{Request, agg}
use optimism_zkp.World.{Env, World, ScansRows, IsSteady}
use optimism_zkp.Db.{
  query, new_entry, get_max_contiguous_span_proof_range, try_create_agg_proof_from_span_proofs,
}
use optimism_zkp.Db.Reads.{OnAll, Ensures-ask}
use optimism_zkp.Db.Claims.{nought, share}
use optimism_zkp.Db.Tracked.{IsTracked, owe_more}
use optimism_zkp.Db.Tracked.Calls.{statement-steady, new_entry-Tracked}
use optimism_zkp.Prove.{derive_agg_proofs}
use optimism_zkp.Prove.Derive.{contiguous_end-lt}
use optimism_zkp.Db.Tracked.Rows.{Read, query-Read}

module _ (e : Env) (steady : IsSteady e) (scans : ScansRows e) (least : ℕ → ℕ)
    (left : List Request) where
  abbrev T : World → Type 0
  T = OnAll (IsTracked least nought left)

  max_contiguous-Tracked :
      (start : ℕ)
      → start < 2 ^ 63
      → Ensures T (get_max_contiguous_span_proof_range e start) (λ m w. T w × (m < 2 ^ 63)) T
  unfolding get_max_contiguous_span_proof_range
  max_contiguous-Tracked start h =
      Ensures-bind _ (Read e steady scans least left) _ _ (query e _) _
        (query-Read e steady scans least left T _)
        (λ rows. Ensures-pure _ _ _ _ (λ w k. (
          k.0,
          contiguous_end-lt (2 ^ 63) start _ h
              (All-sort_by _ _ rows (All-map _ _ rows (λ r known. known.1.1) k.1)),
        )))

  agg-Tracked : (start end : ℕ) → end < 2 ^ 63 → Keeps T (new_entry e agg start end)
  agg-Tracked start end h =
      Ensures-before (OnAll (IsTracked least (λ b. share agg start end b + nought b) left)) _
        (new_entry e agg start end) (λ w k. owe_more (λ b. omega arith) k)
        (new_entry-Tracked e steady least left T nought agg start end ((λ t. ground arith), h))

  try_create-Tracked :
      (start min_to : ℕ)
      → start < 2 ^ 63
      → Keeps T (try_create_agg_proof_from_span_proofs e start min_to)
  unfolding try_create_agg_proof_from_span_proofs
  try_create-Tracked start min_to h =
      Ensures-bind _ (λ _. T) _ _ _ _ (statement-steady e steady _ _)
        (λ n.
          Ensures-bind _ (λ _. T) _ _ (gets _) _ (Ensures-gets _ _ _ _ (λ w k. k))
            (λ found.
              Ensures-if _ _ _ (ltb 0 found) (pure (false, 0)) _
                (λ _. Ensures-pure _ _ _ _ (λ w k. k))
                (λ _.
                  Ensures-bind _ (λ m w. T w × (m < 2 ^ 63)) _ _ _ _
                    (max_contiguous-Tracked start h)
                    (λ m.
                      Ensures-if _ _ _ (ltb m min_to) (pure (false, 0))
                        (new_entry e agg start m >>= λ _. pure (true, m))
                        (λ _. Ensures-pure _ _ _ _ (λ w k. k.0))
                        (λ _.
                          Ensures-given _ _ _ _ (λ w k. k.1)
                            (λ small.
                              Ensures-bind _ (λ _. T) _ _ (new_entry e agg start m) _
                                (Ensures-before _ _ (new_entry e agg start m) (λ w k. k.0)
                                  (agg-Tracked start m small))
                                (λ _. Ensures-pure _ _ _ _ (λ w k. k))))))))

  pub derive_agg_proofs-Tracked :
      ((n b : ℕ) → e.latest_block_number n ≡ some b → b < 2 ^ 63) → Keeps T (derive_agg_proofs e)
  unfolding derive_agg_proofs
  derive_agg_proofs-Tracked contract =
      Ensures-bind _ _ _ _ _ _ (Ensures-ask (IsTracked least nought left) e.latest_block_number)
        (λ latest.
          Ensures-given _ _ _ _ (λ w k. contract k.1.0 latest k.1.1)
            (λ small.
              Ensures-before T _ _ (λ w k. k.0)
                (Ensures-bind _ _ _ _ _ _
                  (Ensures-ask (IsTracked least nought left) e.next_block_number)
                  (λ min_to.
                    Ensures-bind _ (λ _. T) _ _
                      (try_create_agg_proof_from_span_proofs e latest min_to) _
                      (Ensures-before _ _ _ (λ w k. k.0) (try_create-Tracked latest min_to small))
                      (λ _. Ensures-pure _ _ _ tt (λ w k. k))))))
