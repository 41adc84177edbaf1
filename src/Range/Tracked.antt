-- ===== src/Range/Tracked.antt =====
-- Stage 1 of a poll, `GetRangeProofBoundaries` (range.go), where copies of the rows are about and no
-- statement fails.
use optimism_zkp.Prelude.{ℕ, ◌+◌, ◌<◌, ◌^◌, List, ◌∷◌, All, All-sort_by, sort_by, descending, arith}
use optimism_zkp.Prelude.Effects.{Error, err, not_found, pure, catch, for_each, ◌>>=◌}
use optimism_zkp.Prelude.Effects.Ensures.{
  Ensures, Keeps, Ensures-pure, Ensures-raise, Ensures-bind, Ensures-catch, Ensures-weaken,
  Ensures-before, Ensures-given, Ensures-for_each,
}
use optimism_zkp.Request.{Request, span}
use optimism_zkp.World.{Env, World, Config, ScansRows, IsSteady, ask}
use optimism_zkp.Db.{query, get_latest_end_block}
use optimism_zkp.Db.Reads.{OnAll, Ensures-ask}
use optimism_zkp.Db.Claims.{nought, share}
use optimism_zkp.Db.Tracked.{IsTracked, owe_more}
use optimism_zkp.Db.Tracked.Calls.{forget, new_entry-Tracked}
use optimism_zkp.Db.Tracked.Rows.{Read, query-Read, first_row-Tracked}
use optimism_zkp.Range.{
  Span, split_range_basic, dial_rollup_client, or_hangs, or_latest_block, add_span,
  get_range_proof_boundaries,
}
use optimism_zkp.Range.Stage.{InRange, IsProperSpan, split-IsUsable, Reads-dial}

module _ (e : Env) (steady : IsSteady e) (scans : ScansRows e) (cfg : Config)
    (in_range : InRange e cfg) (least : ℕ → ℕ) (left : List Request) where
  abbrev T : World → Type 0
  T = OnAll (IsTracked least nought left)

  -- The block to start from.
  abbrev Start : ℕ → World → Type 0
  Start i w = T w × (i < 2 ^ 63)

  latest : (x : Error) → Ensures T (or_latest_block e (err x)) Start T
  unfolding or_latest_block
  latest not_found =
      Ensures-weaken _ _ (Ensures-ask (IsTracked least nought left) e.latest_block_number)
        (λ i w k. (k.0, in_range.contract k.1.0 i k.1.1)) (λ w k. k)
  latest x = Ensures-raise _ _ _ _ (λ w k. k)

  highest : Ensures T (get_latest_end_block e) Start T
  unfolding get_latest_end_block
  highest =
      Ensures-bind _ (Read e steady scans least left) _ _ (query e _) _
        (query-Read e steady scans least left T _)
        (λ l.
          Ensures-bind _ (λ r. OnAll (IsTracked least nought (r ∷ left))) _ _ _ _
            (Ensures-before
              (Read e steady scans least left (sort_by (descending (λ r. r.end_block)) l)) _ _
              (λ w k. (k.0, All-sort_by _ _ l k.1)) (first_row-Tracked e steady scans least left _))
            (λ r. Ensures-pure _ _ _ r.end_block (λ w k. (forget k, k.known.0.1.1))))

  start-Tracked : Ensures T (catch (get_latest_end_block e) (or_latest_block e)) Start T
  unfolding or_latest_block
  start-Tracked =
      Ensures-catch _ Start _ T _ _ _ highest (λ i. Ensures-pure _ _ _ i (λ w k. k)) latest

  add_span-Tracked : (s : Span) → IsProperSpan s → Keeps T (add_span e s)
  add_span-Tracked s p =
      Ensures-before (OnAll (IsTracked least (λ b. share span s.start s.end b + nought b) left)) _
        (add_span e s) (λ w k. owe_more (λ b. omega arith) k)
        (new_entry-Tracked e steady least left T nought span s.start s.end ((λ t. p.0), p.1))

  queued : (spans : List Span) → All IsProperSpan spans → Keeps T (for_each spans (add_span e))
  queued spans p =
      Ensures-weaken _ (for_each spans (add_span e))
        (Ensures-before (λ w. T w × All IsProperSpan spans) _ (for_each spans (add_span e))
          (λ w k. (k, p))
          (Ensures-for_each (λ xs w. T w × All IsProperSpan xs) T (add_span e)
            (λ x xs.
              Ensures-given _ (add_span e x) _ _ {X = IsProperSpan x × All IsProperSpan xs}
                (λ w k. k.1)
                (λ proper.
                  Ensures-before T _ (add_span e x) (λ w k. k.0)
                    (Ensures-weaken _ (add_span e x) (add_span-Tracked x proper.0)
                      (λ a w k. (k, proper.1)) (λ w k. k))))
            spans))
        (λ a w k. k.0) (λ w k. k)

  queue_all :
      (i finalized : ℕ)
      → i < 2 ^ 63
      → finalized + cfg.max_block_range_per_span_proof < 2 ^ 63
      → Keeps T (
          or_hangs e (split_range_basic cfg.max_block_range_per_span_proof i finalized) >>= λ spans.
          for_each spans (add_span e))
  queue_all i finalized h k =
      let (spans, same, usable) =
        split-IsUsable cfg.max_block_range_per_span_proof i finalized in_range.size
          in_range.size_small h k in
      rw same (
        Ensures-bind T (λ l w. T w × All IsProperSpan l) _ _ (pure spans) _
          (Ensures-pure _ _ _ spans (λ w t. (t, usable.0)))
          (λ l.
            Ensures-given _ _ _ _ (λ w t. t.1)
              (λ proper. Ensures-before T _ _ (λ w t. t.0) (queued l proper))))

  pub get_range_proof_boundaries-Tracked : Keeps T (get_range_proof_boundaries e cfg)
  unfolding get_range_proof_boundaries
  get_range_proof_boundaries-Tracked = Ensures-bind _ Start _ _ _ _ start-Tracked (λ i.
      Ensures-given _ _ _ _ (λ w k. k.1)
        (λ small.
          Ensures-before T _ _ (λ w k. k.0)
            (Ensures-bind _ (λ _. T) _ _ (dial_rollup_client e) _ (Reads-dial e _)
              (λ _.
                Ensures-bind _ _ _ _ (ask e.sync_status) _
                  (Ensures-ask (IsTracked least nought left) e.sync_status)
                  (λ status.
                    Ensures-given _ _ _ _ (λ w k. in_range.finalized k.1.0 status k.1.1)
                      (λ bound.
                        Ensures-before T _ _ (λ w k. k.0)
                          (queue_all i status.finalized_l2 small bound)))))))
