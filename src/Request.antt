-- ===== src/Request.antt =====
-- The rows of the table `proof_requests` and the messages of the op-succinct server:
-- proposer/op/proposer/db/ent/schema/proofrequest.go, db/ent/proofrequest/proofrequest.go and
-- proposer/op/proposer/rpc_types.go. Times and block numbers are naturals below 2 ^ 64.
use optimism_zkp.Prelude.{ℕ, Bool, true, false, Option, none, List}

abbrev pub Bytes : Type 0
Bytes = List ℕ

-- `proofrequest.Type`
pub data ProofType : Type 0 where
  span agg : ProofType

-- `proofrequest.Status`
pub data Status : Type 0 where
  unreq witnessgen proving failed complete : Status

abbrev pub same_type : ProofType → ProofType → Bool
same_type span span = true
same_type agg agg = true
same_type _ _ = false

abbrev pub same_status : Status → Status → Bool
same_status unreq unreq = true
same_status witnessgen witnessgen = true
same_status proving proving = true
same_status failed failed = true
same_status complete complete = true
same_status _ _ = false

-- One row. A column that is NULL is read as the zero value of its Go type; `proof` may be nil.
pub record Request : Type 0 where
  pub id : ℕ
  pub type : ProofType
  pub start_block : ℕ
  pub end_block : ℕ
  pub status : Status
  pub request_added_time : ℕ
  pub prover_request_id : Bytes
  pub proof_request_time : ℕ
  pub last_updated_time : ℕ
  pub l1_block_number : ℕ
  pub l1_block_hash : Bytes
  pub proof : Option Bytes

pub data FulfillmentStatus : Type 0 where
  unspecified requested assigned fulfilled unfulfillable : FulfillmentStatus

pub data ExecutionStatus : Type 0 where
  unspecified unexecuted executed unexecutable : ExecutionStatus

pub record ProofStatusResponse : Type 0 where
  pub fulfillment_status : FulfillmentStatus
  pub execution_status : ExecutionStatus
  pub proof : Option Bytes

-- `ProofStatusResponse{}`
abbrev pub no_response : ProofStatusResponse
no_response = record {
  fulfillment_status = FulfillmentStatus.unspecified;
  execution_status = ExecutionStatus.unspecified;
  proof = none;
}

pub record SpanProofRequest : Type 0 where
  pub start : ℕ
  pub end : ℕ

pub record AggProofRequest : Type 0 where
  pub subproofs : List (Option Bytes)
  pub l1_head : Bytes

pub record ValidateConfigResponse : Type 0 where
  pub rollup_config_hash_valid : Bool
  pub agg_vkey_valid : Bool
  pub range_vkey_valid : Bool
