-- ===== src/World.antt =====
-- What the proposer runs in. `Env` answers the calls that leave the program, by the number of the
-- call; `World` is what the program itself changes.
use optimism_zkp.Prelude.{
  ℕ, false, suc, Bool, Option, none, some, List, if◌then◌else◌, All, count, ◌≡◌,
}
use optimism_zkp.Prelude.Effects.{ok, err, Exec, pure, raise, ◌>>=◌, db_failed, rpc_failed}
use optimism_zkp.Request.{
  Bytes, Request, SpanProofRequest, AggProofRequest, ProofStatusResponse, ValidateConfigResponse,
}

-- `eth.SyncStatus`, the block numbers that the proposer reads.
pub record SyncStatus : Type 0 where
  pub head_l1 : ℕ
  pub unsafe_l2 : ℕ
  pub safe_l2 : ℕ
  pub finalized_l2 : ℕ

-- `eth.OutputResponse`: `supported` says that the version is the supported one.
pub record OutputResponse : Type 0 where
  pub supported : Bool
  pub output_root : Bytes
  pub block_number : ℕ
  pub l1_origin : ℕ
  pub sync : SyncStatus

-- The transactions that are sent: to the oracle or to the dispute game factory.
pub data TxCandidate : Type 0 where
  propose_l2_output : Bytes → ℕ → ℕ → Option Bytes → TxCandidate
  create_game : ℕ → Bytes → ℕ → ℕ → Option Bytes → ℕ → TxCandidate
  checkpoint_block_hash : ℕ → TxCandidate

-- What `txmgr.Send` ends in: an error before the transaction is out, an error behind it, or a receipt that says
-- whether the transaction succeeded.
pub data Sending : Type 0 where
  unsent unseen : Sending
  receipt : Bool → Sending

pub record Header : Type 0 where
  pub number : ℕ
  pub hash : Bytes

-- What an HTTP request ends in: a timeout, another failure, or a status code and the body, which
-- may fail to be read.
pub data HttpResult : Type 0 where
  timeout : HttpResult
  broken : HttpResult
  response : ℕ → Option Bytes → HttpResult

-- The paths of the op-succinct server.
pub data Endpoint : Type 0 where
  status : Bytes → Endpoint
  request_mock_agg_proof request_agg_proof : Endpoint
  request_mock_span_proof request_span_proof : Endpoint
  validate_config : Endpoint

pub record Env : Type 0 where
  -- whether a statement of the database fails, and in what order rows come that no ORDER BY sorts
  pub fault : ℕ → Bool
  pub scan : ℕ → List Request → List Request
  -- time.Now().Unix()
  pub now : ℕ → ℕ
  -- the contract
  pub latest_block_number : ℕ → Option ℕ
  pub next_block_number : ℕ → Option ℕ
  -- the rollup node
  pub dial : ℕ → Bool
  pub sync_status : ℕ → Option SyncStatus
  pub output_at_block : ℕ → ℕ → Option OutputResponse
  pub safe_head_at_l1_block : ℕ → ℕ → Option ℕ
  -- the L1 node and the transaction manager
  pub l1_head : ℕ → Option ℕ
  pub client_block_number : ℕ → Option ℕ
  pub header_by_number : ℕ → ℕ → Option Header
  pub bond_amount : ℕ → Option ℕ
  pub pack : ℕ → TxCandidate → Bool
  pub send : ℕ → TxCandidate → Sending
  -- how many ticks of the poll interval a wait sees before the channel `done` is closed
  pub ticks_until_done : ℕ → ℕ
  -- the op-succinct server and the JSON coding of its messages
  pub get : ℕ → Endpoint → HttpResult
  pub post : ℕ → Endpoint → Bytes → HttpResult
  -- what the call leaves of the body of a request that is sent again
  pub unread : ℕ → Bytes → Bytes
  pub span_json : SpanProofRequest → Bytes
  pub agg_json : AggProofRequest → Bytes
  pub address_hex : Bytes → Bytes
  pub address_json : Bytes → Bytes
  pub parse_status : Bytes → Option ProofStatusResponse
  pub parse_proof_id : Bytes → Option Bytes
  pub parse_config : Bytes → Option ValidateConfigResponse

-- No statement of the database fails.
abbrev pub IsSteady : Env → Type 0
IsSteady e = (n : ℕ) → e.fault n ≡ false

-- A query returns rows of its selection only, and each as often as it stands there.
pub record ScansRows (e : Env) : Type 1 where
  pub rows : (n : ℕ) (P : Request → Type 0) (l : List Request) → All P l → All P (e.scan n l)
  pub each : (n : ℕ) (p : Request → Bool) (l : List Request) → count p (e.scan n l) ≡ count p l

-- The table, the next key that it gives out, the number of calls so far, the transactions sent, the
-- requests handed to goroutines, and the seconds slept, newest first; then the flag `running`, whether
-- the loop's goroutine was started and whether the channel `done` is closed.
pub record World : Type 0 where
  pub rows : List Request
  pub next_id : ℕ
  pub calls : ℕ
  pub sent : List TxCandidate
  pub spawned : List Request
  pub slept : List ℕ
  pub running : Bool
  pub looping : Bool
  pub closed : Bool

abbrev pub M : Type 0 → Type 0
M A = Exec World A

-- The settings of `ProposerConfig` (proposer/op/proposer/service.go) that the driver reads. Of the
-- factory's address it matters whether it is set.
pub record Config : Type 0 where
  pub l2_output_oracle_addr : Option Bytes
  pub has_dispute_game_factory : Bool
  pub dispute_game_type : ℕ
  pub allow_non_finalized : Bool
  pub wait_node_sync : Bool
  pub max_block_range_per_span_proof : ℕ
  pub max_concurrent_witness_gen : ℕ
  pub witness_gen_timeout : ℕ
  pub max_concurrent_proof_requests : ℕ
  pub mock : Bool

-- The number of the next call that leaves the program.
unfoldable pub call : M ℕ
call w = (ok w.calls, record w { calls = suc w.calls })

-- A statement of the database: its number, or a failure.
unfoldable pub statement : Env → M ℕ
statement e w =
    (if e.fault w.calls then err db_failed else ok w.calls, record w { calls = suc w.calls })

-- An answer that may be an error.
abbrev pub answer : {A : Type 0} → Option A → M A
answer none = raise rpc_failed
answer (some a) = pure a

-- A call of another service.
unfoldable pub ask : {A : Type 0} → (ℕ → Option A) → M A
ask f = do n ← call; answer (f n)

-- A call of another service whose answer is always a value.
unfoldable pub observe : {A : Type 0} → (ℕ → A) → M A
observe f = do n ← call; pure (f n)
