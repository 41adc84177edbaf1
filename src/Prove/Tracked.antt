-- ===== src/Prove/Tracked.antt =====
-- `RetryRequest` and the loops over PROVING and WITNESSGEN requests (prove.go) where copies of the
-- rows are about and no statement fails.
pub mod Queue
pub mod Derive
pub mod Run
use optimism_zkp.Prelude.{
  ℕ, ◌+◌, ◌≤◌, ◌<◌, ◌^◌, ◌≡◌, refl, Bool, true, false, Option, none, some, List, [], ◌∷◌, ◌++◌, inl,
  inr, Bool-cases, ◌==◌, if◌then◌else◌, length, arith,
}
use optimism_zkp.Prelude.Effects.{Result, ok, err, ◌>>=◌, for_each}
use optimism_zkp.Prelude.Effects.Ensures.{
  Ensures, Keeps, Ensures-pure, Ensures-bind, Ensures-catch, Ensures-weaken, Ensures-before,
  Ensures-if, Ensures-given, Ensures-for_each,
}
use optimism_zkp.Request.{
  Request, ProofType, span, same_type, witnessgen, proving, FulfillmentStatus, ProofStatusResponse,
  no_response,
}
use optimism_zkp.World.{Env, World, Config, M, ScansRows, IsSteady}
use optimism_zkp.Db.{
  id_is, has_status, starts_at, ends_at, is_type, update, query, new_entry, update_proof_status,
  get_all_proofs_with_status, get_proof_requests_with_block_range_and_status,
}
use optimism_zkp.Db.Reads.{OnAll, Reads-observe}
use optimism_zkp.Db.Claims.{share, nought, IsProper}
use optimism_zkp.Db.Tracked.{IsTracked, write-IsTracked, owe_more}
use optimism_zkp.Db.Tracked.Calls.{
  forget, update-steady, query-steady, new_entry-Tracked, query-Tracked,
  add_fulfilled_proof-Tracked,
}
use optimism_zkp.Prove.{
  should_split, mid_block, requeue, retry_request, ignored, process_fulfillment,
  process_proving_request, process_proving_requests, process_witnessgen_request,
  process_witnessgen_requests,
}
use optimism_zkp.Prove.Http.{get_proof_status}
use optimism_zkp.Prove.Retry.{split_lem, share_split, share_of, fail_row}
use optimism_zkp.Prove.Stages.{Reads-get_proof_status}

module _ (e : Env) (steady : IsSteady e) (least : ℕ → ℕ) (left : List Request)
    (E : World → Type 0) where
  abbrev Owing : (ℕ → ℕ) → World → Type 0
  Owing owed = OnAll (IsTracked least owed left)

  requeue-Tracked :
      (req : Request) (status : ProofStatusResponse) (failures : ℕ)
      → IsProper req
      → Ensures
          (Owing (λ b. share_of req b + nought b))
          (requeue e req (should_split req status failures))
          (λ _. Owing nought)
          E
  unfolding requeue
  requeue-Tracked req status failures p = elim (Bool-cases (should_split req status failures)) [
    | inl s ↦ rw s (
        let halves = split_lem req status failures p s in
        let first = share req.type req.start_block (mid_block req) in
        let second = share req.type (mid_block req) req.end_block in
        Ensures-before (Owing (λ b. first b + (second b + nought b))) _ _
          (λ w k.
            owe_more
              (λ b. omega (
                arith,
                share_split req.type req.start_block (mid_block req) req.end_block b
                    (omega (arith, halves.1.0)) (omega (arith, halves.1.1)),
              ))
              k)
          (Ensures-bind _ (λ _. Owing (λ b. second b + nought b)) _ E _ _
            (new_entry-Tracked e steady least left E (λ b. second b + nought b) req.type
              req.start_block (mid_block req)
              (λ _. halves.1.0, omega (arith, halves.1.1, halves.1.2)))
            (λ _.
              new_entry-Tracked e steady least left E nought req.type (mid_block req) req.end_block
                (λ _. halves.1.1, halves.1.2))))
    | inr s ↦
        rw s
          (new_entry-Tracked e steady least left E nought req.type req.start_block req.end_block p)
  ]

  -- Whatever the state of the row by now, a retry of a known request takes no claim away.
  pub retry_request-Tracked :
      (req : Request) (status : ProofStatusResponse)
      → Ensures
          (OnAll (IsTracked least nought (req ∷ left)))
          (retry_request e req status)
          (λ _. Owing nought)
          E
  unfolding retry_request update_proof_status get_proof_requests_with_block_range_and_status
  retry_request-Tracked req status =
      Ensures-given _ _ _ _ {X = IsProper req} (λ w k. k.known.0.1)
        (λ p.
          Ensures-bind _ (λ _. Owing (λ b. share_of req b + nought b)) _ E _ _
            (update-steady e steady _ _ E (λ r. id_is r req.id) fail_row
              (λ now n rows spawned k. forget (
                write-IsTracked least (req ∷ left) n rows spawned (fail_row now) req
                  (record { id = λ x. refl; type = λ x. refl; start = λ x. refl; end = λ x. refl })
                  k.known.0 k)))
            (λ _.
              Ensures-bind _ (λ _. Owing (λ b. share_of req b + nought b)) _ E _ _
                (query-steady e steady _ E _)
                (λ previous. requeue-Tracked req status (length previous) p)))

module _ (e : Env) (steady : IsSteady e) (least : ℕ → ℕ) (left : List Request) where
  abbrev pub Of : List Request → World → Type 0
  Of pool = OnAll (IsTracked least nought pool)

  module _ (req : Request) where
    fulfillment-Tracked :
        (s : FulfillmentStatus) (status : ProofStatusResponse)
        → Ensures (Of (req ∷ left)) (process_fulfillment e req status s) (λ _. Of left) (Of left)
    unfolding process_fulfillment
    fulfillment-Tracked FulfillmentStatus.fulfilled status =
        Ensures-weaken _ _ (add_fulfilled_proof-Tracked e least (req ∷ left) req.id status.proof)
          (λ a s k. forget k) (λ s k. forget k)
    fulfillment-Tracked FulfillmentStatus.unfulfillable status =
        retry_request-Tracked e steady least left (Of left) req status
    fulfillment-Tracked _ status = Ensures-pure _ _ _ tt (λ s k. forget k)

    proving-Tracked :
        Ensures (Of (req ∷ left)) (process_proving_request e req) (λ _. Of left) (Of left)
    unfolding process_proving_request
    proving-Tracked =
        Ensures-bind _ (λ _. Of (req ∷ left)) _ _ (get_proof_status e req.prover_request_id) _
          (Ensures-weaken _ _
            (Reads-get_proof_status e req.prover_request_id (IsTracked least nought (req ∷ left)))
            (λ a s k. k) (λ s k. forget k))
          (λ status. fulfillment-Tracked status.fulfillment_status status)

    witnessgen-Tracked :
        (cfg : Config)
        → Ensures (Of (req ∷ left)) (process_witnessgen_request e cfg req) (λ _. Of left) (Of left)
    unfolding process_witnessgen_request
    witnessgen-Tracked cfg =
        Ensures-bind _ (λ _. Of (req ∷ left)) _ _ _ _
          (Ensures-weaken _ _ (Reads-observe e.now (IsTracked least nought (req ∷ left)))
            (λ a s k. k) (λ s k. forget k))
          (λ now.
            Ensures-if _ _ _ _ _ _
              (λ _.
                Ensures-catch _ (λ _. Of left) _ (Of left) _ _ (ignored e)
                  (retry_request-Tracked e steady least left (Of left) req no_response)
                  (λ a. Ensures-pure _ _ _ tt (λ s k. k)) (λ x. Ensures-pure _ _ _ tt (λ s k. k)))
              (λ _. Ensures-pure _ _ _ tt (λ s k. forget k)))

-- A loop over what a query returned.
each-Tracked :
    (e : Env) (least : ℕ → ℕ) (left : List Request) (body : Request → M (Unit {0}))
    → ((pool : List Request) (req : Request)
        → Ensures
            (OnAll (IsTracked least nought (req ∷ pool)))
            (body req)
            (λ _. OnAll (IsTracked least nought pool))
            (OnAll (IsTracked least nought pool)))
    → (reqs : List Request)
    → Ensures
        (OnAll (IsTracked least nought (reqs ++ left)))
        (for_each reqs body)
        (λ _. OnAll (IsTracked least nought left))
        (OnAll (IsTracked least nought left))
each-Tracked e least left body h reqs =
    Ensures-for_each (λ xs. OnAll (IsTracked least nought (xs ++ left))) _ body
      (λ x xs. Ensures-weaken _ (body x) (h (xs ++ left) x) (λ a s k. k) (λ s k. drop xs k)) reqs
  where
    drop :
        (xs : List Request) {n : ℕ} {rows spawned : List Request}
        → IsTracked least nought (xs ++ left) n rows spawned
        → IsTracked least nought left n rows spawned
    drop [] k = k
    drop (x ∷ xs) k = drop xs (forget k)

module _ (e : Env) (steady : IsSteady e) (scans : ScansRows e) (least : ℕ → ℕ)
    (left : List Request) where
  pub process_proving_requests-Tracked :
      Keeps (OnAll (IsTracked least nought left)) (process_proving_requests e)
  unfolding process_proving_requests get_all_proofs_with_status
  process_proving_requests-Tracked =
      Ensures-bind _ (λ l. OnAll (IsTracked least nought (l ++ left))) _ _ _ _
        (query-Tracked e steady least left _ scans nought _)
        (each-Tracked e least left _ (λ pool req. proving-Tracked e steady least pool req))

  pub process_witnessgen_requests-Tracked :
      (cfg : Config)
      → Keeps (OnAll (IsTracked least nought left)) (process_witnessgen_requests e cfg)
  unfolding process_witnessgen_requests get_all_proofs_with_status
  process_witnessgen_requests-Tracked cfg =
      Ensures-bind _ (λ l. OnAll (IsTracked least nought (l ++ left))) _ _ _ _
        (query-Tracked e steady least left _ scans nought _)
        (each-Tracked e least left _ (λ pool req. witnessgen-Tracked e steady least pool req cfg))

  -- The first loop of `StartL2OutputSubmitting`.
  pub retry_each-Tracked :
      (reqs : List Request)
      → Ensures
          (OnAll (IsTracked least nought (reqs ++ left)))
          (for_each reqs (λ req. retry_request e req no_response))
          (λ _. OnAll (IsTracked least nought left))
          (OnAll (IsTracked least nought left))
  retry_each-Tracked =
      each-Tracked e least left _
        (λ pool req. retry_request-Tracked e steady least pool _ req no_response)
