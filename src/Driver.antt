-- ===== src/Driver.antt =====
-- The driver of proposer/op/proposer/driver.go: outputs, submissions, the seven stages of a tick, start and stop.
pub mod Poll
pub mod System
pub mod Asks
pub mod Propose
pub mod Submit
pub mod Quiet
pub mod Lifecycle
use optimism_zkp.Prelude.{
  ℕ, zero, suc, ◌+◌, Bool, true, false, not, ◌&&◌, ◌||◌, Option, none, some, List, [], ◌∷◌, ltb,
  ◌==◌, if◌then◌else◌, sort_by, descending,
}
use optimism_zkp.Prelude.Effects.{
  Error, Result, ok, err, pure, raise, gets, modify, ◌>>=◌, ◌>>◌, catch, for_each,
  unsupported_version, wrong_block, rpc_failed, already_running, not_running, no_address,
  already_closed,
}
use optimism_zkp.Request.{Bytes, Request, Status, unreq, witnessgen, proving, no_response}
use optimism_zkp.World.{Env, World, Config, M, SyncStatus, OutputResponse, ask, observe, statement}
use optimism_zkp.Db.{
  get_all_completed_agg_proofs, get_all_proofs_with_status, get_max_contiguous_span_proof_range,
  get_number_of_requests_with_status,
}
use optimism_zkp.Db.Open.{close_db}
use optimism_zkp.Tx.{propose_output}
use optimism_zkp.Range.{dial_rollup_client, get_range_proof_boundaries}
use optimism_zkp.Prove.{
  retry_request, process_proving_requests, process_witnessgen_requests, request_queued_proofs,
  derive_agg_proofs, ignored,
}
use optimism_zkp.Prove.Http.{validate_config}

-- `opsuccinctmetrics.ProposerMetrics`
pub record ProposerMetrics : Type 0 where
  pub l2_unsafe_head_block : ℕ
  pub l2_finalized_block : ℕ
  pub latest_contract_l2_block : ℕ
  pub highest_proven_contiguous_l2_block : ℕ
  pub min_block_to_prove_to_agg : ℕ
  pub num_proving : ℕ
  pub num_witnessgen : ℕ
  pub num_unrequested : ℕ

-- Whether `FetchL2OOOutput` holds an output back: it is not finalized, and safe outputs are not
-- allowed or it is not safe either.
abbrev pub is_not_ready : Config → OutputResponse → Bool
is_not_ready cfg output =
    ltb output.sync.finalized_l2 output.block_number
    && (not cfg.allow_non_finalized || ltb output.sync.safe_l2 output.block_number)

module _ (e : Env) where
  unfoldable pub get_proposer_metrics : M ProposerMetrics
  get_proposer_metrics = do
    dial_rollup_client e
    status ← ask e.sync_status
    latest ← ask e.latest_block_number
    highest ← get_max_contiguous_span_proof_range e latest
    min_block ← ask e.next_block_number
    num_proving ← get_number_of_requests_with_status e proving
    num_witnessgen ← get_number_of_requests_with_status e witnessgen
    num_unrequested ← get_number_of_requests_with_status e unreq
    pure (record {
      l2_unsafe_head_block = status.unsafe_l2;
      l2_finalized_block = status.finalized_l2;
      latest_contract_l2_block = latest;
      highest_proven_contiguous_l2_block = highest;
      min_block_to_prove_to_agg = min_block;
      num_proving = num_proving;
      num_witnessgen = num_witnessgen;
      num_unrequested = num_unrequested;
    })

  unfoldable pub fetch_output : ℕ → M OutputResponse
  fetch_output block = do
    dial_rollup_client e
    output ← ask (λ n. e.output_at_block n block)
    if not output.supported
        then raise unsupported_version
        else if not (output.block_number == block)
        then raise wrong_block
        else pure output

  unfoldable pub fetch_current_block_number : Config → M ℕ
  fetch_current_block_number cfg = do
    dial_rollup_client e
    status ← ask e.sync_status
    pure (if cfg.allow_non_finalized then status.safe_l2 else status.finalized_l2)

  -- `FetchL2OOOutput`: the output, if there is one, and whether to propose it.
  unfoldable pub fetch_l2oo_output : Config → M (Option OutputResponse × Bool)
  fetch_l2oo_output cfg = do
    next_checkpoint ← ask e.next_block_number
    current ← fetch_current_block_number cfg
    if ltb current next_checkpoint then pure (none, false) else do
      output ← fetch_output next_checkpoint
      pure (some output, not (is_not_ready cfg output))

  -- The submission of the first proof of the sorted list.
  unfoldable pub submit_first : Config → List Request → M (Unit {0})
  submit_first cfg [] = pure tt
  submit_first cfg (p ∷ ps) = do
    output ← fetch_output p.end_block
    propose_output e cfg output p.proof p.l1_block_number

  unfoldable pub submit_agg_proofs : Config → M (Unit {0})
  submit_agg_proofs cfg = do
    latest ← ask e.latest_block_number
    completed ← get_all_completed_agg_proofs e latest
    submit_first cfg (sort_by (descending (λ r. r.end_block)) completed)

  -- One tick of `loopL2OO`; the first stage that fails ends it, and its error is only logged.
  unfoldable pub poll : Config → M (Unit {0})
  poll cfg = do
    get_proposer_metrics
    get_range_proof_boundaries e cfg
    process_proving_requests e
    process_witnessgen_requests e cfg
    derive_agg_proofs e
    request_queued_proofs e cfg
    submit_agg_proofs cfg

  abbrev pub address_of : Config → M Bytes
  address_of cfg = elim cfg.l2_output_oracle_addr [ none ↦ raise no_address | some a ↦ pure a ]

  unfoldable pub start_l2_output_submitting : Config → M (Unit {0})
  start_l2_output_submitting cfg = do
    running ← gets (λ w. w.running)
    if running then raise already_running else do
      modify (λ w. record w { running = true })
      reqs ← get_all_proofs_with_status e witnessgen
      for_each reqs (λ req. retry_request e req no_response)
      address ← address_of cfg
      validate_config e (e.address_hex address)
      modify (λ w. record w { looping = true })

  -- `StopL2OutputSubmitting`: a channel that is closed again panics, and closing either client of the
  -- database may fail.
  unfoldable pub stop_l2_output_submitting : M (Unit {0})
  stop_l2_output_submitting = do
    running ← gets (λ w. w.running)
    if not running then raise not_running else do
      modify (λ w. record w { running = false })
      closed ← gets (λ w. w.closed)
      if closed
          then raise already_closed
          else do modify (λ w. record w { closed = true; looping = false }); close_db e

  unfoldable pub ignore_not_running : Result (Unit {0}) → M (Unit {0})
  ignore_not_running (ok a) = pure tt
  ignore_not_running (err not_running) = pure tt
  ignore_not_running (err x) = raise x

  unfoldable pub stop_l2_output_submitting_if_running : M (Unit {0})
  stop_l2_output_submitting_if_running = catch stop_l2_output_submitting ignore_not_running
