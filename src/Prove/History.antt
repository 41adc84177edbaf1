-- ===== src/Prove/History.antt =====
-- The handlers of prove.go on the rows that were there before, whatever fails.
use optimism_zkp.Prelude.{ℕ, refl, Bool, true, false, Option, none, some, List, ltb}
use optimism_zkp.Prelude.Effects.{Result, ok, err, pure, gets, modify, ◌>>=◌}
use optimism_zkp.Prelude.Effects.Ensures.{Ensures-modify}
use optimism_zkp.Request.{Bytes, Request, agg, no_response, ProofStatusResponse, FulfillmentStatus}
use optimism_zkp.World.{Env, Config, ScansRows}
use optimism_zkp.Db.{
  is_type, raise_if, get_all_proofs_with_status, add_l1_block_info_to_agg_request,
  get_proof_requests_with_block_range_and_status, try_create_agg_proof_from_span_proofs,
  get_max_contiguous_span_proof_range, new_entry,
}
use optimism_zkp.Db.Reads.{
  On, OnTable, Reads-gets, Reads-query, Reads-statement, Reads-observe, Reads-ask, Reads-only_row,
}
use optimism_zkp.Db.History.{IsHistory}
use optimism_zkp.Db.History.Calls.{
  Records, Records-read, Records-pure, Records-if, Records-bind, Records-catch, Records-for_each,
  Records-write, Records-new_entry, Records-status, Records-prover_id,
}
use optimism_zkp.Db.History.Fulfil.{Records-fulfilled}
use optimism_zkp.Tx.Reads.{Reads-checkpoint_block_hash}
use optimism_zkp.Prove.{
  requeue, retry_request, process_fulfillment, process_proving_request, process_proving_requests,
  process_witnessgen_request, process_witnessgen_requests, is_blank, first_checkpointed,
  reuse_checkpoint, with_checkpoint, spawn, request_span, request_next, request_queued_proofs,
  derive_agg_proofs, request_proof, or_retry,
}
use optimism_zkp.Prove.Http.{request_mock_proof, request_real_proof}
use optimism_zkp.Prove.Stages.{Reads-get_proof_status}
use optimism_zkp.Prove.Queue.{
  Reads-get_next_unrequested_proof, Reads-raise_if, request_span-Ensures,
}
use optimism_zkp.Prove.Tracked.Run.{answer_request, Reads-prepare, Reads-real, Reads-mock}
use optimism_zkp.Driver.Poll.{Reads-max_contiguous}

module _ (past : List Request) (e : Env) where
  Records-requeue : (req : Request) (split : Bool) → Records past (requeue e req split)
  unfolding requeue
  Records-requeue req true =
      Records-bind past _ _ (Records-new_entry past e _ _ _) (λ _. Records-new_entry past e _ _ _)
  Records-requeue req false = Records-new_entry past e _ _ _

  pub Records-retry :
      (req : Request) (status : ProofStatusResponse) → Records past (retry_request e req status)
  unfolding retry_request get_proof_requests_with_block_range_and_status
  Records-retry req status = Records-bind past _ _ (Records-status past e _ _) (λ _.
      Records-bind past _ _ (Records-read past _ (Reads-query e _))
        (λ previous. Records-requeue req _))

  module _ (scans : ScansRows e) where
    Records-fulfillment :
        (req : Request) (status : ProofStatusResponse) (s : FulfillmentStatus)
        → Records past (process_fulfillment e req status s)
    unfolding process_fulfillment
    Records-fulfillment req status FulfillmentStatus.fulfilled =
        Records-fulfilled past e scans req.id status.proof
    Records-fulfillment req status FulfillmentStatus.unfulfillable = Records-retry req status
    Records-fulfillment req status _ = Records-pure past tt

    pub Records-proving : Records past (process_proving_requests e)
    unfolding process_proving_requests process_proving_request get_all_proofs_with_status
    Records-proving = Records-bind past _ _ (Records-read past _ (Reads-query e _)) (λ reqs.
        Records-for_each past _
          (λ req.
            Records-bind past _ _ (Records-read past _ (Reads-get_proof_status e _))
              (λ status. Records-fulfillment req status _))
          reqs)

    request_proof-Records : (p : Request) (mock : Bool) → Records past (request_proof e p mock)
    unfolding request_proof
    request_proof-Records p mock =
        Records-bind past _ _ (Records-read past _ (Reads-prepare e p)) (λ json.
          Records-if past mock _ _
            (Records-bind past (request_mock_proof e p.type mock json) _
              (Records-read past _ (Reads-mock e p.type mock json))
              (λ proof.
                Records-bind past _ _ (Records-status past e _ _)
                  (λ _. Records-fulfilled past e scans p.id proof)))
            (Records-bind past (request_real_proof e p.type mock json) _
              (Records-read past _ (Reads-real e p.type mock json))
              (λ proof_id.
                Records-bind past _ _ (Records-status past e _ _)
                  (λ _. Records-prover_id past e _ _))))

    or_retry-Records : (p : Request) (r : Result (Unit {0})) → Records past (or_retry e p r)
    unfolding or_retry
    or_retry-Records p (ok a) = Records-pure past tt
    or_retry-Records p (err x) =
        Records-catch past _ _ (Records-retry p no_response) (λ r. Records-pure past tt)

    pub Records-answer : (cfg : Config) (p : Request) → Records past (answer_request e cfg p)
    Records-answer cfg p =
        Records-catch past _ _ (request_proof-Records p cfg.mock) (or_retry-Records p)

  pub Records-witnessgen : (cfg : Config) → Records past (process_witnessgen_requests e cfg)
  unfolding process_witnessgen_requests process_witnessgen_request get_all_proofs_with_status
  Records-witnessgen cfg = Records-bind past _ _ (Records-read past _ (Reads-query e _)) (λ reqs.
      Records-for_each past _
        (λ req. Records-bind past _ _ (Records-read past _ (Reads-observe e.now)) (λ now.
          Records-if past _ _ _
            (Records-catch past _ _ (Records-retry req no_response) (λ r. Records-pure past tt))
            (Records-pure past tt)))
        reqs)

  Records-l1_info :
      (start end number : ℕ) (hash : Bytes)
      → Records past (add_l1_block_info_to_agg_request e start end number hash)
  unfolding add_l1_block_info_to_agg_request
  Records-l1_info start end number hash =
      Records-bind past _ _ (Records-read past _ (Reads-statement e)) (λ n.
        Records-bind past (gets _) _ (Records-read past _ (Reads-gets _)) (λ affected.
          Records-bind past (modify _) _
            (Ensures-modify _ _ _ _ (λ w k.
              Records-write past _ _
                (λ r. record {
                  id = refl;
                  type = refl;
                  start = refl;
                  end = refl;
                  added = refl;
                  proof = λ p h. h;
                })
                w.next_id w.rows k))
            (λ _.
              Records-bind past (raise_if _ _) _ (Records-read past _ (Reads-raise_if e _ _)) (λ _.
                Records-bind past _ _ (Records-read past _ (Reads-query e _))
                  (λ rows. Records-read past _ (Reads-only_row rows))))))

  Records-reuse : (next : Request) (o : Option Request) → Records past (reuse_checkpoint e next o)
  unfolding reuse_checkpoint
  Records-reuse next none = Records-pure past next
  Records-reuse next (some p) = Records-l1_info _ _ _ _

  Records-checkpoint : (next : Request) → Records past (with_checkpoint e next)
  unfolding with_checkpoint get_proof_requests_with_block_range_and_status
  Records-checkpoint next =
      Records-if past (is_blank next.l1_block_hash) _ (pure next)
        (Records-bind past _ _ (Records-read past _ (Reads-query e _)) (λ existing.
          Records-bind past (reuse_checkpoint e next (first_checkpointed existing)) _
            (Records-reuse next _)
            (λ again.
              Records-if past (is_blank again.l1_block_hash) _ (pure again)
                (Records-bind past _ _ (Records-read past _ (Reads-checkpoint_block_hash e))
                  (λ block. Records-l1_info _ _ _ _))
                (Records-pure past again))))
        (Records-pure past next)

  Records-spawn : (p : Request) → Records past (spawn e p)
  unfolding spawn
  Records-spawn p = Ensures-modify _ _ _ _ (λ w k. k)

  Records-request_span : (cfg : Config) (next : Request) → Records past (request_span e cfg next)
  unfolding request_span
  Records-request_span cfg next =
      request_span-Ensures e (OnTable (IsHistory past)) (On (IsHistory past)) cfg next (λ w k. k)
        (λ w k. k)

  Records-request_next : (cfg : Config) (o : Option Request) → Records past (request_next e cfg o)
  unfolding request_next
  Records-request_next cfg none = Records-pure past tt
  Records-request_next cfg (some next) =
      Records-if past (is_type next agg) _ (request_span e cfg next)
        (Records-bind past (with_checkpoint e next) _ (Records-checkpoint next) Records-spawn)
        (Records-request_span cfg next)

  pub Records-queued : (cfg : Config) → Records past (request_queued_proofs e cfg)
  unfolding request_queued_proofs
  Records-queued cfg =
      Records-bind past _ _ (Records-read past _ (Reads-get_next_unrequested_proof e))
        (Records-request_next cfg)

  pub Records-derive : Records past (derive_agg_proofs e)
  unfolding derive_agg_proofs try_create_agg_proof_from_span_proofs
  Records-derive = Records-bind past _ _ (Records-read past _ (Reads-ask _)) (λ latest.
      Records-bind past _ _ (Records-read past _ (Reads-ask _)) (λ min_to.
        Records-bind past (try_create_agg_proof_from_span_proofs e latest min_to) _
          (Records-bind past _ _ (Records-read past _ (Reads-statement e)) (λ n.
            Records-bind past (gets _) _ (Records-read past _ (Reads-gets _)) (λ found.
              Records-if past (ltb 0 found) (pure (false, 0)) _ (Records-pure past _) (
                Records-bind past (get_max_contiguous_span_proof_range e latest) _
                  (Records-read past _ (Reads-max_contiguous e latest))
                  (λ m.
                    Records-if past (ltb m min_to) (pure (false, 0))
                      (new_entry e agg latest m >>= λ _. pure (true, m)) (Records-pure past _)
                      (Records-bind past (new_entry e agg latest m) _
                        (Records-new_entry past e agg latest m) (λ _. Records-pure past _)))))))
          (λ _. Records-pure past tt)))
