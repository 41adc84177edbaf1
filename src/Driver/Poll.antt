-- ===== src/Driver/Poll.antt =====
-- The poll of `loopL2OO` (driver.go) under the invariant of the table.
use optimism_zkp.Prelude.{ℕ, List, [], ◌∷◌}
use optimism_zkp.Prelude.Effects.{◌>>=◌}
use optimism_zkp.Prelude.Effects.Ensures.{Keeps, Keeps-state, Ensures-bind}
use optimism_zkp.Request.{Request, proving, witnessgen, unreq}
use optimism_zkp.World.{Env, World, Config, M, ScansRows}
use optimism_zkp.Db.{get_max_contiguous_span_proof_range, get_all_completed_agg_proofs}
use optimism_zkp.Db.Reads.{
  On, OnTable, Reads, Reads-ask, Reads-bind, Reads-pure, Reads-query, Reads-number,
}
use optimism_zkp.Db.Claims.{IsTidy}
use optimism_zkp.Tx.Reads.{call_rules, Reads-propose_output}
use optimism_zkp.Range.Stage.{InRange, Reads-dial, get_range_proof_boundaries-IsTidy}
use optimism_zkp.Prove.Stages.{process_proving_requests-IsTidy, process_witnessgen_requests-IsTidy}
use optimism_zkp.Prove.Derive.{derive_agg_proofs-IsTidy}
use optimism_zkp.Prove.Queue.{request_queued_proofs-IsTidy}
use optimism_zkp.Driver.{get_proposer_metrics, fetch_output, submit_first, submit_agg_proofs, poll}

module _ (e : Env) where
  pub Reads-max_contiguous : (start : ℕ) → Reads (get_max_contiguous_span_proof_range e start)
  unfolding get_max_contiguous_span_proof_range
  Reads-max_contiguous start = Reads-bind _ _ (Reads-query e _) (λ rows. Reads-pure _)

  pub Reads-metrics : Reads (get_proposer_metrics e)
  unfolding get_proposer_metrics
  Reads-metrics = Reads-bind _ _ (Reads-dial e) (λ _. Reads-bind _ _ (Reads-ask _) (λ status.
      Reads-bind _ _ (Reads-ask _) (λ latest.
        Reads-bind _ _ (Reads-max_contiguous latest) (λ highest.
          Reads-bind _ _ (Reads-ask _) (λ min_block. Reads-bind _ _ (Reads-number e proving) (λ a.
            Reads-bind _ _ (Reads-number e witnessgen)
              (λ b. Reads-bind _ _ (Reads-number e unreq) (λ c. Reads-pure _))))))))

  Reads-fetch_output : (block : ℕ) → Reads (fetch_output e block)
  unfolding fetch_output
  Reads-fetch_output block = search (call_rules, Reads-dial) depth 9

  Reads-submit_first : (cfg : Config) (l : List Request) → Reads (submit_first e cfg l)
  unfolding submit_first
  Reads-submit_first cfg [] = Reads-pure tt
  Reads-submit_first cfg (p ∷ ps) =
      Reads-bind _ _ (Reads-fetch_output p.end_block)
        (λ output. Reads-propose_output e cfg output _ _)

  pub Reads-submit_agg_proofs : (cfg : Config) → Reads (submit_agg_proofs e cfg)
  unfolding submit_agg_proofs get_all_completed_agg_proofs
  Reads-submit_agg_proofs cfg =
      Reads-bind _ _ (Reads-ask _)
        (λ latest. Reads-bind _ _ (Reads-query e _) (λ rows. Reads-submit_first cfg _))

module _ (e : Env) (scans : ScansRows e) (cfg : Config) (in_range : InRange e cfg) where
  stage :
      {A B : Type 0} (m : M A) (f : A → M B)
      → Keeps (On IsTidy) m
      → ((a : A) → Keeps (On IsTidy) (f a))
      → Keeps (On IsTidy) (m >>= f)
  stage m f = Ensures-bind (On IsTidy) (λ _. On IsTidy) (λ _. On IsTidy) (On IsTidy) m f

  poll-Keeps : Keeps (On IsTidy) (poll e cfg)
  unfolding poll
  poll-Keeps = stage _ _ (Reads-metrics e (OnTable IsTidy)) (λ _.
      stage _ _ (get_range_proof_boundaries-IsTidy e scans cfg in_range) (λ _.
        stage _ _ (process_proving_requests-IsTidy e scans) (λ _.
          stage _ _ (process_witnessgen_requests-IsTidy e scans cfg) (λ _.
            stage _ _ (derive_agg_proofs-IsTidy e scans in_range.contract) (λ _.
              stage _ _ (request_queued_proofs-IsTidy e cfg)
                (λ _. Reads-submit_agg_proofs e cfg (OnTable IsTidy)))))))

  -- Where a query returns rows of its selection only, each as often as it stands there, the span size
  -- is not 0 and block numbers stay below 2 ^ 63: from a tidy table a poll leaves a tidy table,
  -- whichever statement fails, whatever the services answer and at whichever stage it stops. Tidy:
  -- keys are unique, no range of a span request is empty, and no block is claimed by two span
  -- requests that have not failed.
  pub poll-IsTidy :
      (w : World) → IsTidy w.next_id w.rows → IsTidy (poll e cfg w).1.next_id (poll e cfg w).1.rows
  poll-IsTidy = Keeps-state (On IsTidy) (poll e cfg) poll-Keeps
