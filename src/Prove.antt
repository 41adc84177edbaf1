-- ===== src/Prove.antt =====
-- The proof requests of proposer/op/proposer/prove.go: processing, retrying and requesting proofs.
pub mod Caps
pub mod Tracked
pub mod History
pub mod Revive
pub mod Deliver
pub mod Http
pub mod Retry
pub mod Stages
pub mod Derive
pub mod Queue
pub mod Conserve
use optimism_zkp.Prelude.{
  ℕ, suc, ◌+◌, ◌-◌, ◌/◌, ◌%◌, ◌^◌, Bool, true, false, ◌&&◌, ◌||◌, Option, none, some, List, [], ◌∷◌,
  ltb, leb, if◌then◌else◌, length, u64,
}
use optimism_zkp.Prelude.Effects.{
  Error, Result, ok, err, pure, raise, modify, ◌>>=◌, ◌>>◌, catch, for_each, empty_range,
}
use optimism_zkp.Request.{
  Bytes, Request, ProofType, span, agg, Status, unreq, witnessgen, proving, failed, complete,
  FulfillmentStatus, ExecutionStatus, ProofStatusResponse, no_response, SpanProofRequest,
  AggProofRequest,
}
use optimism_zkp.World.{Env, World, Config, M, observe, ask}
use optimism_zkp.Db.{
  is_type, new_entry, update_proof_status, set_prover_request_id, add_fulfilled_proof,
  get_number_of_requests_with_status, add_l1_block_info_to_agg_request, get_all_proofs_with_status,
  get_next_unrequested_proof, try_create_agg_proof_from_span_proofs, get_consecutive_span_proofs,
  get_proof_requests_with_block_range_and_status,
}
use optimism_zkp.Db.Table.{hex_encode}
use optimism_zkp.Tx.{checkpoint_block_hash}
use Http.{get_proof_status, request_real_proof, request_mock_proof}

abbrev pub is_unexecutable : ExecutionStatus → Bool
is_unexecutable ExecutionStatus.unexecutable = true
is_unexecutable _ = false

-- `spanProof && (unexecutable || severalFailedRequests) && multiBlockRange`; the difference of the
-- block numbers wraps around.
abbrev pub should_split : Request → ProofStatusResponse → ℕ → Bool
should_split req status failures =
    is_type req span
    && (is_unexecutable status.execution_status || ltb 1 failures)
    && ltb 1 ((req.end_block + u64 - req.start_block) % u64)

-- `(req.StartBlock + req.EndBlock) / 2`, where the sum wraps around.
abbrev pub mid_block : Request → ℕ
mid_block req = (req.start_block + req.end_block) % u64 / 2

abbrev pub is_blank : Bytes → Bool
is_blank [] = true
is_blank (b ∷ bs) = false

-- `common.Hash.Hex()`: "0x" and the digits.
abbrev pub hash_hex : Bytes → Bytes
hash_hex h = 48 ∷ 120 ∷ hex_encode h

-- The first request whose L1 block hash is known.
unfoldable pub first_checkpointed : List Request → Option Request
first_checkpointed [] = none
first_checkpointed (r ∷ rs) = if is_blank r.l1_block_hash then first_checkpointed rs else some r

-- `n >= int(cap)` for a cap of uint64: from 2 ^ 63 on, `int(cap)` is negative.
abbrev pub at_cap : ℕ → ℕ → Bool
at_cap cap n = leb (2 ^ 63) cap || leb cap n

module _ (e : Env) where
  -- The new entries of `RetryRequest`.
  unfoldable pub requeue : Request → Bool → M (Unit {0})
  requeue req true = do
    new_entry e req.type req.start_block (mid_block req)
    new_entry e req.type (mid_block req) req.end_block
  requeue req false = new_entry e req.type req.start_block req.end_block

  unfoldable pub retry_request : Request → ProofStatusResponse → M (Unit {0})
  retry_request req status = do
    update_proof_status e req.id failed
    previous ←
        get_proof_requests_with_block_range_and_status e req.type req.start_block req.end_block
          failed
    requeue req (should_split req status (length previous))

  unfoldable pub process_fulfillment :
      Request → ProofStatusResponse → FulfillmentStatus → M (Unit {0})
  process_fulfillment req status FulfillmentStatus.fulfilled =
      add_fulfilled_proof e req.id status.proof
  process_fulfillment req status FulfillmentStatus.unfulfillable = retry_request req status
  process_fulfillment req status _ = pure tt

  -- The body of the loop of `ProcessProvingRequests`.
  unfoldable pub process_proving_request : Request → M (Unit {0})
  process_proving_request req = do
    status ← get_proof_status e req.prover_request_id
    process_fulfillment req status status.fulfillment_status

  unfoldable pub process_proving_requests : M (Unit {0})
  process_proving_requests = do
    reqs ← get_all_proofs_with_status e proving
    for_each reqs process_proving_request

  abbrev pub ignored : Result (Unit {0}) → M (Unit {0})
  ignored r = pure tt

  -- The body of the loop of `ProcessWitnessgenRequests`; an error of the retry is dropped.
  unfoldable pub process_witnessgen_request : Config → Request → M (Unit {0})
  process_witnessgen_request cfg req = do
    now ← observe e.now
    if ltb ((req.last_updated_time + cfg.witness_gen_timeout) % u64) now
        then catch (retry_request req no_response) ignored
        else pure tt

  unfoldable pub process_witnessgen_requests : Config → M (Unit {0})
  process_witnessgen_requests cfg = do
    reqs ← get_all_proofs_with_status e witnessgen
    for_each reqs (process_witnessgen_request cfg)

  -- The checkpoint of an AGG request that failed before, if there is one, is taken over.
  unfoldable pub reuse_checkpoint : Request → Option Request → M Request
  reuse_checkpoint next none = pure next
  reuse_checkpoint next (some p) =
      add_l1_block_info_to_agg_request e next.start_block next.end_block p.l1_block_number
        p.l1_block_hash

  -- The AGG branch of `RequestQueuedProofs`: the request with its L1 block info.
  unfoldable pub with_checkpoint : Request → M Request
  with_checkpoint next =
      if is_blank next.l1_block_hash
      then (do
        existing ←
            get_proof_requests_with_block_range_and_status e agg next.start_block next.end_block
              failed
        again ← reuse_checkpoint next (first_checkpointed existing)
        if is_blank again.l1_block_hash
            then (do
              (number, hash) ← checkpoint_block_hash e
              add_l1_block_info_to_agg_request e again.start_block again.end_block number
                  (hash_hex hash))
            else pure again)
      else pure next

  -- `go func(p) { ... }(*next)`: the goroutine is handed over.
  unfoldable pub spawn : Request → M (Unit {0})
  spawn p = modify (λ w. record w { spawned = p ∷ w.spawned })

  -- The SPAN branch: whether there is room under both caps.
  unfoldable pub request_span : Config → Request → M (Unit {0})
  request_span cfg next = do
    witness_gen_proofs ← get_number_of_requests_with_status e witnessgen
    proving_proofs ← get_number_of_requests_with_status e proving
    if at_cap cfg.max_concurrent_witness_gen witness_gen_proofs
        then pure tt
        else if at_cap cfg.max_concurrent_proof_requests (witness_gen_proofs + proving_proofs)
        then pure tt
        else spawn next

  unfoldable pub request_next : Config → Option Request → M (Unit {0})
  request_next cfg none = pure tt
  request_next cfg (some next) =
      if is_type next agg
      then (do ready ← with_checkpoint next; spawn ready)
      else request_span cfg next

  unfoldable pub request_queued_proofs : Config → M (Unit {0})
  request_queued_proofs cfg = do next ← get_next_unrequested_proof e; request_next cfg next

  unfoldable pub derive_agg_proofs : M (Unit {0})
  derive_agg_proofs = do
    latest ← ask e.latest_block_number
    min_to ← ask e.next_block_number
    try_create_agg_proof_from_span_proofs e latest min_to
    pure tt

  unfoldable pub prepare_proof_request : Request → M Bytes
  prepare_proof_request p =
      if is_type p span
      then (if leb p.end_block p.start_block
          then raise empty_range
          else pure (e.span_json (record { start = p.start_block; end = p.end_block })))
      else (do
        subproofs ← get_consecutive_span_proofs e p.start_block p.end_block
        pure (e.agg_json (record { subproofs = subproofs; l1_head = p.l1_block_hash })))

  unfoldable pub request_proof : Request → Bool → M (Unit {0})
  request_proof p mock = do
    json ← prepare_proof_request p
    if mock
        then (do
          proof ← request_mock_proof e p.type mock json
          update_proof_status e p.id proving
          add_fulfilled_proof e p.id proof)
        else (do
          proof_id ← request_real_proof e p.type mock json
          update_proof_status e p.id proving
          set_prover_request_id e p.id proof_id)

  -- A request that could not be made is queued again; an error of that is only logged.
  unfoldable pub or_retry : Request → Result (Unit {0}) → M (Unit {0})
  or_retry p (ok a) = pure tt
  or_retry p (err x) = catch (retry_request p no_response) ignored

  -- The body of the goroutine.
  unfoldable pub run_request : Config → Request → M (Unit {0})
  run_request cfg p = do
    update_proof_status e p.id witnessgen
    catch (request_proof p cfg.mock) (or_retry p)
