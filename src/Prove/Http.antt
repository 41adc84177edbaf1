-- ===== src/Prove/Http.antt =====
-- The HTTP calls of proposer/op/proposer/prove.go to the op-succinct server.
pub mod Backoff
use optimism_zkp.Prelude.{
  ℕ, zero, suc, ◌*◌, Bool, true, false, ◌&&◌, Option, none, some, List, ◌∷◌, ◌==◌, if◌then◌else◌,
}
use optimism_zkp.Prelude.Effects.{
  Result, ok, err, pure, raise, modify, ◌>>=◌, ◌>>◌, timed_out, rpc_failed, bad_status, bad_json,
  not_healthy, invalid_config,
}
use optimism_zkp.Request.{Bytes, ProofType, span, agg, ProofStatusResponse, ValidateConfigResponse}
use optimism_zkp.World.{
  Env, World, M, call, observe, HttpResult, timeout, broken, response, Endpoint, status,
  request_mock_agg_proof, request_agg_proof, request_mock_span_proof, request_span_proof,
  validate_config as validate_path,
}

-- The body of a response with status 200.
unfoldable pub body_of : HttpResult → M Bytes
body_of timeout = raise timed_out
body_of broken = raise rpc_failed
body_of (response code none) = if code == 200 then raise rpc_failed else raise bad_status
body_of (response code (some b)) = if code == 200 then pure b else raise bad_status

abbrev pub decoded : {A : Type 0} → Option A → M A
decoded none = raise bad_json
decoded (some a) = pure a

unfoldable pub get_proof_endpoint : ProofType → Bool → Endpoint
get_proof_endpoint agg true = request_mock_agg_proof
get_proof_endpoint agg false = request_agg_proof
get_proof_endpoint span true = request_mock_span_proof
get_proof_endpoint span false = request_span_proof

-- `err == nil && resp.StatusCode == http.StatusOK`
unfoldable pub is_healthy : HttpResult → Bool
is_healthy timeout = false
is_healthy broken = false
is_healthy (response code b) = code == 200

-- What the last attempt returns, when it is not healthy, and the body when it is.
unfoldable pub last_attempt : HttpResult → M Bytes
last_attempt timeout = raise timed_out
last_attempt broken = raise rpc_failed
last_attempt (response code none) = if code == 200 then raise rpc_failed else raise not_healthy
last_attempt (response code (some b)) = if code == 200 then pure b else raise not_healthy

unfoldable pub sleep : ℕ → M (Unit {0})
sleep seconds = modify (λ w. record w { slept = seconds ∷ w.slept })

abbrev pub max_retries : ℕ
max_retries = 5

-- All keys are as the contract has them.
unfoldable pub check_config : ValidateConfigResponse → M (Unit {0})
check_config r =
    if r.rollup_config_hash_valid && r.agg_vkey_valid && r.range_vkey_valid
    then pure tt
    else raise invalid_config

module _ (e : Env) where
  unfoldable pub make_proof_request : ProofType → Bool → Bytes → M Bytes
  make_proof_request type mock json = do
    r ← observe (λ n. e.post n (get_proof_endpoint type mock) json)
    body_of r

  unfoldable pub request_real_proof : ProofType → Bool → Bytes → M Bytes
  request_real_proof type mock json = do
    b ← make_proof_request type mock json
    decoded (e.parse_proof_id b)

  unfoldable pub request_mock_proof : ProofType → Bool → Bytes → M (Option Bytes)
  request_mock_proof type mock json = do
    b ← make_proof_request type mock json
    r ← decoded (e.parse_status b)
    pure r.proof

  unfoldable pub get_proof_status : Bytes → M ProofStatusResponse
  get_proof_status proof_id = do
    r ← observe (λ n. e.get n (status proof_id))
    b ← body_of r
    decoded (e.parse_status b)

  -- The attempts of `ValidateConfig` that are left, the pause before the next one, and what is left of the
  -- body of the one request that they share.
  unfoldable pub attempt : ℕ → ℕ → Bytes → M Bytes
  attempt zero backoff json = raise not_healthy
  attempt (suc zero) backoff json = do
    r ← observe (λ n. e.post n validate_path json)
    last_attempt r
  attempt (suc (suc k)) backoff json = do
    (r, rest) ← observe (λ n. (e.post n validate_path json, e.unread n json))
    let again = (do sleep backoff; attempt (suc k) (backoff * 2) rest)
    if is_healthy r then last_attempt r else again

  unfoldable pub validate_config : Bytes → M (Unit {0})
  validate_config address = do
    b ← attempt max_retries 1 (e.address_json address)
    r ← decoded (e.parse_config b)
    check_config r
