-- ===== src/Prove/Tracked/Run.antt =====
-- The goroutine of `RequestQueuedProofs` (prove.go), which holds a copy of a row, in two steps: the mark
-- WITNESSGEN, and the request to the server with what follows its answer.
use optimism_zkp.Prelude.{ℕ, refl, Bool, List, ◌∷◌, leb}
use optimism_zkp.Prelude.Effects.{Result, ok, err, lift, catch}
use optimism_zkp.Prelude.Effects.Ensures.{
  Ensures, Keeps, Ensures-pure, Ensures-bind, Ensures-catch, Ensures-if,
}
use optimism_zkp.Request.{Bytes, Request, ProofType, span, witnessgen, proving, no_response}
use optimism_zkp.World.{Env, World, Config, M, IsSteady}
use optimism_zkp.Db.{is_type, update_proof_status, get_consecutive_span_proofs}
use optimism_zkp.Db.Reads.{
  OnAll, Reads, Reads-pure, Reads-raise, Reads-if, Reads-bind, Reads-query, Reads-observe,
}
use optimism_zkp.Db.Claims.{nought}
use optimism_zkp.Db.Tracked.{IsTracked}
use optimism_zkp.Db.Tracked.Calls.{
  forget, revive-Tracked, set_prover_request_id-Tracked, add_fulfilled_proof-Tracked,
}
use optimism_zkp.Prove.{ignored, prepare_proof_request, request_proof, or_retry}
use optimism_zkp.Prove.Http.{make_proof_request, request_real_proof, request_mock_proof}
use optimism_zkp.Prove.Stages.{Reads-decoded, Reads-body_of}
use optimism_zkp.Prove.Tracked.{retry_request-Tracked}

-- The rest of the goroutine's body, after the mark.
abbrev pub answer_request : Env → Config → Request → M (Unit {0})
answer_request e cfg p = catch (request_proof e p cfg.mock) (or_retry e p)

module _ (e : Env) where
  Reads-lift : {A : Type 0} (r : Result A) → Reads (lift r)
  unfolding lift
  Reads-lift (ok a) P = record { at = λ w h. h }
  Reads-lift (err x) P = record { at = λ w h. h }

  Reads-consecutive : (start end : ℕ) → Reads (get_consecutive_span_proofs e start end)
  unfolding get_consecutive_span_proofs
  Reads-consecutive start end = Reads-bind _ _ (Reads-query e _) (λ rows. Reads-lift _)

  pub Reads-prepare : (p : Request) → Reads (prepare_proof_request e p)
  unfolding prepare_proof_request
  Reads-prepare p =
      Reads-if (is_type p span) _ _
        (Reads-if (leb p.end_block p.start_block) _ _ (Reads-raise _) (Reads-pure _))
        (Reads-bind _ _ (Reads-consecutive _ _) (λ proofs. Reads-pure _))

  ruleset http_rules = (Reads-bind, Reads-observe, Reads-body_of, Reads-decoded, Reads-pure)

  Reads-make :
      (type : ProofType) (mock : Bool) (json : Bytes) → Reads (make_proof_request e type mock json)
  unfolding make_proof_request
  Reads-make type mock json = search http_rules

  pub Reads-real :
      (type : ProofType) (mock : Bool) (json : Bytes) → Reads (request_real_proof e type mock json)
  unfolding request_real_proof
  Reads-real type mock json = search (http_rules, Reads-make)

  pub Reads-mock :
      (type : ProofType) (mock : Bool) (json : Bytes) → Reads (request_mock_proof e type mock json)
  unfolding request_mock_proof
  Reads-mock type mock json = search (http_rules, Reads-make)

module _ (e : Env) (steady : IsSteady e) (least : ℕ → ℕ) where
  abbrev Of : List Request → World → Type 0
  Of pool = OnAll (IsTracked least nought pool)

  pub mark-Tracked :
      (pool : List Request) (key : ℕ) → Keeps (Of pool) (update_proof_status e key witnessgen)
  mark-Tracked pool key = revive-Tracked e steady least pool (Of pool) key witnessgen refl

  request_proof-Tracked :
      (pool : List Request) (p : Request) (mock : Bool) → Keeps (Of pool) (request_proof e p mock)
  unfolding request_proof
  request_proof-Tracked pool p mock =
      Ensures-bind _ (λ _. Of pool) _ _ (prepare_proof_request e p) _ (Reads-prepare e p _)
        (λ json.
          Ensures-if _ _ _ mock _ _
            (λ _.
              Ensures-bind _ (λ _. Of pool) _ _ (request_mock_proof e p.type mock json) _
                (Reads-mock e p.type mock json _)
                (λ proof.
                  Ensures-bind _ (λ _. Of pool) _ _ (update_proof_status e p.id proving) _
                    (revive-Tracked e steady least pool _ p.id proving refl)
                    (λ _. add_fulfilled_proof-Tracked e least pool p.id proof)))
            (λ _.
              Ensures-bind _ (λ _. Of pool) _ _ (request_real_proof e p.type mock json) _
                (Reads-real e p.type mock json _)
                (λ proof_id.
                  Ensures-bind _ (λ _. Of pool) _ _ (update_proof_status e p.id proving) _
                    (revive-Tracked e steady least pool _ p.id proving refl)
                    (λ _. set_prover_request_id-Tracked e steady least pool _ p.id proof_id))))

  pub answer_request-Tracked :
      (left : List Request) (cfg : Config) (p : Request)
      → Ensures (Of (p ∷ left)) (answer_request e cfg p) (λ _. Of left) (Of left)
  unfolding or_retry
  answer_request-Tracked left cfg p =
      Ensures-catch _ (λ _. Of (p ∷ left)) _ (Of (p ∷ left)) _ _ _
        (request_proof-Tracked (p ∷ left) p cfg.mock) (λ _. Ensures-pure _ _ _ tt (λ w k. forget k))
        (λ x.
          Ensures-catch _ (λ _. Of left) _ (Of left) _ _ (ignored e)
            (retry_request-Tracked e steady least left (Of left) p no_response)
            (λ _. Ensures-pure _ _ _ tt (λ w k. k)) (λ _. Ensures-pure _ _ _ tt (λ w k. k)))
