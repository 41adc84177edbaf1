-- ===== src/Driver/System/Calls.antt =====
-- The stages, starts and stops of the driver on the table (driver.go), where no statement fails.
use optimism_zkp.Prelude.{ℕ, not, zero, suc, ◌*◌, true, Option, none, some, List, ◌++◌}
use optimism_zkp.Prelude.Effects.{
  pure, raise, gets, modify, no_address, already_running, not_running, already_closed, for_each,
  ◌>>=◌,
}
use optimism_zkp.Prelude.Effects.Ensures.{
  Keeps, Ensures-pure, Ensures-raise, Ensures-gets, Ensures-modify, Ensures-bind, Ensures-if,
}
use optimism_zkp.Request.{Bytes, Request, witnessgen, no_response}
use optimism_zkp.World.{
  Env, World, Config, ScansRows, IsSteady, HttpResult, timeout, broken, response, statement,
}
use optimism_zkp.Db.{query, has_status, get_all_proofs_with_status}
use optimism_zkp.Db.Reads.{
  OnAll, Reads, Reads-pure, Reads-raise, Reads-if, Reads-bind, Reads-observe, Reads-modify,
  Reads-statement,
}
use optimism_zkp.Db.Claims.{nought}
use optimism_zkp.Db.Tracked.{IsTracked}
use optimism_zkp.Db.Tracked.Calls.{query-Tracked}
use optimism_zkp.Range.Stage.{InRange}
use optimism_zkp.Range.Tracked.{get_range_proof_boundaries-Tracked}
use optimism_zkp.Prove.{retry_request}
use optimism_zkp.Prove.Http.{
  is_healthy, last_attempt, sleep, attempt, check_config, validate_config,
}
use optimism_zkp.Prove.Stages.{Reads-decoded}
use optimism_zkp.Prove.Tracked.{
  process_proving_requests-Tracked, process_witnessgen_requests-Tracked, retry_each-Tracked,
}
use optimism_zkp.Prove.Tracked.Queue.{request_queued_proofs-Tracked}
use optimism_zkp.Prove.Tracked.Derive.{derive_agg_proofs-Tracked}
use optimism_zkp.Db.Open.{close_db}
use optimism_zkp.Driver.{start_l2_output_submitting, stop_l2_output_submitting, address_of}
use optimism_zkp.Driver.Poll.{Reads-metrics, Reads-submit_agg_proofs}
use optimism_zkp.Driver.System.{
  Stage, metrics, range_boundaries, proving_requests, witnessgen_requests, agg_proofs,
  queued_proofs, submission, run_stage,
}

module _ (e : Env) where
  Reads-last_attempt : (r : HttpResult) → Reads (last_attempt r)
  unfolding last_attempt
  Reads-last_attempt timeout = Reads-raise _
  Reads-last_attempt broken = Reads-raise _
  Reads-last_attempt (response code none) = Reads-if _ _ _ (Reads-raise _) (Reads-raise _)
  Reads-last_attempt (response code (some b)) = Reads-if _ _ _ (Reads-pure b) (Reads-raise _)

  Reads-sleep : (seconds : ℕ) → Reads (sleep seconds)
  unfolding sleep
  Reads-sleep seconds = Reads-modify _ (λ P w h. h)

  Reads-attempt : (k backoff : ℕ) (json : Bytes) → Reads (attempt e k backoff json)
  unfolding attempt
  Reads-attempt zero backoff json = Reads-raise _
  Reads-attempt (suc zero) backoff json = Reads-bind _ _ (Reads-observe _) Reads-last_attempt
  Reads-attempt (suc (suc k)) backoff json = Reads-bind _ _ (Reads-observe _) (λ (r, rest).
      Reads-if (is_healthy r) _ _ (Reads-last_attempt r)
        (Reads-bind _ _ (Reads-sleep backoff) (λ _. Reads-attempt (suc k) (backoff * 2) rest)))

  pub Reads-validate_config : (address : Bytes) → Reads (validate_config e address)
  unfolding validate_config check_config
  Reads-validate_config address =
      Reads-bind _ _ (Reads-attempt _ _ _) (λ b.
        Reads-bind _ _ (Reads-decoded _) (λ r. Reads-if _ _ _ (Reads-pure tt) (Reads-raise _)))

  pub Reads-address : (cfg : Config) → Reads (address_of e cfg)
  Reads-address cfg = go cfg.l2_output_oracle_addr
    where
      go :
          (o : Option Bytes)
          → Reads {A = Bytes} (elim o [ none ↦ raise no_address | some a ↦ pure a ])
      go none = Reads-raise _
      go (some a) = Reads-pure a

module _ (e : Env) (steady : IsSteady e) (scans : ScansRows e) (cfg : Config)
    (in_range : InRange e cfg) (least : ℕ → ℕ) (waiting : List Request) where
  abbrev T : World → Type 0
  T = OnAll (IsTracked least nought waiting)

  pub run_stage-Tracked : (s : Stage) → Keeps T (run_stage e cfg s)
  unfolding run_stage
  run_stage-Tracked metrics =
      Ensures-bind _ (λ _. T) _ _ _ _ (Reads-metrics e _) (λ _. Ensures-pure _ _ _ tt (λ w k. k))
  run_stage-Tracked range_boundaries =
      get_range_proof_boundaries-Tracked e steady scans cfg in_range least waiting
  run_stage-Tracked proving_requests = process_proving_requests-Tracked e steady scans least waiting
  run_stage-Tracked witnessgen_requests =
      process_witnessgen_requests-Tracked e steady scans least waiting cfg
  run_stage-Tracked agg_proofs =
      derive_agg_proofs-Tracked e steady scans least waiting in_range.contract
  run_stage-Tracked queued_proofs = request_queued_proofs-Tracked e steady scans least waiting cfg
  run_stage-Tracked submission = Reads-submit_agg_proofs e cfg _

  started-Tracked : Keeps T (
      get_all_proofs_with_status e witnessgen >>= λ reqs.
      for_each reqs (λ req. retry_request e req no_response) >>= λ _.
      (address_of e cfg >>= λ address.
      (validate_config e (e.address_hex address) >>= λ _.
      modify (λ w. record w { looping = true }))))
  unfolding get_all_proofs_with_status
  started-Tracked =
      Ensures-bind _ (λ l. OnAll (IsTracked least nought (l ++ waiting))) _ _
        (query e (λ r. has_status r witnessgen)) _
        (query-Tracked e steady least waiting _ scans nought _)
        (λ reqs.
          Ensures-bind _ (λ _. T) _ _ (for_each reqs _) _
            (retry_each-Tracked e steady scans least waiting reqs)
            (λ _.
              Ensures-bind _ (λ _. T) _ _ (address_of e cfg) _ (Reads-address e cfg _)
                (λ address.
                  Ensures-bind _ (λ _. T) _ _ (validate_config e _) _ (Reads-validate_config e _ _)
                    (λ _. Ensures-modify _ _ _ _ (λ w k. k)))))

  pub start-Tracked : Keeps T (start_l2_output_submitting e cfg)
  unfolding start_l2_output_submitting
  start-Tracked =
      Ensures-bind _ (λ _. T) _ _ (gets _) _ (Ensures-gets _ _ _ _ (λ w k. k))
        (λ running.
          Ensures-if _ _ _ running (raise already_running) _ (λ _. Ensures-raise _ _ _ _ (λ w k. k))
            (λ _.
              Ensures-bind _ (λ _. T) _ _ (modify _) _ (Ensures-modify _ _ _ _ (λ w k. k))
                (λ _. started-Tracked)))

  pub stop-Tracked : Keeps T (stop_l2_output_submitting e)
  unfolding stop_l2_output_submitting close_db
  stop-Tracked =
      Ensures-bind _ (λ _. T) _ _ (gets _) _ (Ensures-gets _ _ _ _ (λ w k. k))
        (λ running.
          Ensures-if _ _ _ (not running) (raise not_running) _
            (λ _. Ensures-raise _ _ _ _ (λ w k. k))
            (λ _.
              Ensures-bind _ (λ _. T) _ _ (modify _) _ (Ensures-modify _ _ _ _ (λ w k. k))
                (λ _.
                  Ensures-bind _ (λ _. T) _ _ (gets _) _ (Ensures-gets _ _ _ _ (λ w k. k))
                    (λ closed.
                      Ensures-if _ _ _ closed (raise already_closed) _
                        (λ _. Ensures-raise _ _ _ _ (λ w k. k))
                        (λ _.
                          Ensures-bind _ (λ _. T) _ _ (modify _) _
                            (Ensures-modify _ _ _ _ (λ w k. k))
                            (λ _.
                              Ensures-bind _ (λ _. T) _ _ (statement e) _ (Reads-statement e _)
                                (λ _.
                                  Ensures-bind _ (λ _. T) _ _ (statement e) _ (Reads-statement e _)
                                    (λ _. Ensures-pure _ _ _ tt (λ w k. k)))))))))
