-- ===== src/Prove/Stages.antt =====
-- The loops over PROVING and WITNESSGEN requests (prove.go) under the invariant of the table.
use optimism_zkp.Prelude.{ℕ, Option, none, some, List, ◌∷◌, ◌==◌, arith}
use optimism_zkp.Prelude.Effects.{for_each}
use optimism_zkp.Prelude.Effects.Ensures.{
  Ensures, Keeps, Ensures-pure, Ensures-bind, Ensures-catch, Ensures-weaken, Ensures-if,
  Ensures-for_each,
}
use optimism_zkp.Request.{
  Request, witnessgen, proving, FulfillmentStatus, ProofStatusResponse, no_response,
}
use optimism_zkp.World.{Env, Config, M, ScansRows}
use optimism_zkp.Db.{has_status, get_all_proofs_with_status}
use optimism_zkp.Db.Reads.{
  On, OnTable, Reads, Reads-observe, Reads-bind, Reads-raise, Reads-pure, Reads-if,
}
use optimism_zkp.Db.Claims.{one, nought, IsTidy}
use optimism_zkp.Db.Claims.Held.{Held, Held-tail}
use optimism_zkp.Db.Claims.Queried.{query-Held}
use optimism_zkp.Db.Fulfil.{add_fulfilled_proof-Held}
use optimism_zkp.Prove.{
  ignored, process_fulfillment, process_proving_request, process_proving_requests,
  process_witnessgen_request, process_witnessgen_requests,
}
use optimism_zkp.Prove.Http.{get_proof_status, decoded, body_of}
use optimism_zkp.World.{HttpResult, timeout, broken, response}
use optimism_zkp.Prove.Retry.{retry_request-Held}

pub Reads-decoded : {A : Type 0} (o : Option A) → Reads (decoded o)
Reads-decoded none = Reads-raise _
Reads-decoded (some a) = Reads-pure a

pub Reads-body_of : (r : HttpResult) → Reads (body_of r)
unfolding body_of
Reads-body_of timeout = Reads-raise _
Reads-body_of broken = Reads-raise _
Reads-body_of (response code none) = Reads-if (code == 200) _ _ (Reads-raise _) (Reads-raise _)
Reads-body_of (response code (some b)) = Reads-if (code == 200) _ _ (Reads-pure b) (Reads-raise _)

ruleset reads_rules = (Reads-decoded, Reads-body_of, Reads-bind, Reads-observe)

module _ (e : Env) where
  pub Reads-get_proof_status : (id : List ℕ) → Reads (get_proof_status e id)
  unfolding get_proof_status
  Reads-get_proof_status id = search reads_rules

module _ (e : Env) (req : Request) (left : List Request) where
  -- A call that only reads may be made while the request is at hand.
  reading :
      {A : Type 0} (m : M A)
      → Reads m
      → Ensures
          (On (Held one nought (req ∷ left)))
          m
          (λ _. On (Held one nought (req ∷ left)))
          (On (Held one nought left))
  reading m h =
      Ensures-weaken _ m (h (OnTable (Held one nought (req ∷ left)))) (λ a s k. k)
        (λ s k. Held-tail k)

  fulfillment-Held :
      ScansRows e
      → (s : FulfillmentStatus) (status : ProofStatusResponse)
      → Ensures
          (On (Held one nought (req ∷ left)))
          (process_fulfillment e req status s)
          (λ _. On (Held one nought left))
          (On (Held one nought left))
  unfolding process_fulfillment
  fulfillment-Held scans FulfillmentStatus.fulfilled status =
      Ensures-weaken _ _ (add_fulfilled_proof-Held e one nought left req status.proof scans)
        (λ a s k. k) (λ s k. Held-tail k)
  fulfillment-Held scans FulfillmentStatus.unfulfillable status =
      retry_request-Held e one nought left req status
  fulfillment-Held scans _ status = Ensures-pure _ _ _ tt (λ s k. Held-tail k)

  proving-Held :
      ScansRows e
      → Ensures
          (On (Held one nought (req ∷ left)))
          (process_proving_request e req)
          (λ _. On (Held one nought left))
          (On (Held one nought left))
  unfolding process_proving_request
  proving-Held scans =
      Ensures-bind _ _ _ _ _ _ (reading _ (Reads-get_proof_status e req.prover_request_id))
        (λ status. fulfillment-Held scans status.fulfillment_status status)

  witnessgen-Held :
      (cfg : Config)
      → Ensures
          (On (Held one nought (req ∷ left)))
          (process_witnessgen_request e cfg req)
          (λ _. On (Held one nought left))
          (On (Held one nought left))
  unfolding process_witnessgen_request
  witnessgen-Held cfg = Ensures-bind _ _ _ _ _ _ (reading _ (Reads-observe e.now)) (λ now.
      Ensures-if _ _ _ _ _ _
        (λ _.
          Ensures-catch _ _ _ _ _ _ (ignored e)
            (retry_request-Held e one nought left req no_response)
            (λ a. Ensures-pure _ _ _ tt (λ s k. k)) (λ x. Ensures-pure _ _ _ tt (λ s k. k)))
        (λ _. Ensures-pure _ _ _ tt (λ s k. Held-tail k)))

-- A loop over requests that are at hand.
each-Held :
    (body : Request → M (Unit {0}))
    → ((req : Request) (left : List Request)
        → Ensures
            (On (Held one nought (req ∷ left)))
            (body req)
            (λ _. On (Held one nought left))
            (On (Held one nought left)))
    → (reqs : List Request)
    → Ensures (On (Held one nought reqs)) (for_each reqs body) (λ _. On IsTidy) (On IsTidy)
each-Held body h reqs =
    Ensures-weaken _ (for_each reqs body)
      (Ensures-for_each (λ left. On (Held one nought left)) (On IsTidy) body
        (λ req left. Ensures-weaken _ (body req) (h req left) (λ a s k. k) (λ s k. k.within)) reqs)
      (λ a s k. k.within) (λ s k. k)

module _ (e : Env) (scans : ScansRows e) where
  -- Stage 2 keeps the table tidy.
  pub process_proving_requests-IsTidy : Keeps (On IsTidy) (process_proving_requests e)
  unfolding process_proving_requests get_all_proofs_with_status
  process_proving_requests-IsTidy =
      Ensures-bind _ _ _ _ _ _
        (query-Held e scans (λ r. has_status r proving) (λ r h. ground arith))
        (λ reqs. each-Held _ (λ req left. proving-Held e req left scans) reqs)

  -- Stage 3 keeps the table tidy.
  pub process_witnessgen_requests-IsTidy :
      (cfg : Config) → Keeps (On IsTidy) (process_witnessgen_requests e cfg)
  unfolding process_witnessgen_requests get_all_proofs_with_status
  process_witnessgen_requests-IsTidy cfg =
      Ensures-bind _ _ _ _ _ _
        (query-Held e scans (λ r. has_status r witnessgen) (λ r h. ground arith))
        (λ reqs. each-Held _ (λ req left. witnessgen-Held e req left cfg) reqs)
