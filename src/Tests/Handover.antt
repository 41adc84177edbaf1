-- ===== src/Tests/Handover.antt =====
-- Concrete runs of handing requests over, fulfilling them, and of the ranges of span batches.
use optimism_zkp.Prelude.{
  select, ℕ, ◌+◌, ◌≤◌, ◌≡◌, ◌⊎◌, refl, false, none, some, List, [], ◌∷◌, one_if, arith,
}
use optimism_zkp.Prelude.Effects.{ok}
use optimism_zkp.Request.{
  Request, ProofStatusResponse, no_response, FulfillmentStatus, unreq, witnessgen, proving, failed,
}
use optimism_zkp.World.{Env, World, ScansRows, response}
use optimism_zkp.Db.Chain.Create.{live_aggs}
use optimism_zkp.Db.Chain.Unique.{try_create_unique}
use optimism_zkp.Db.{
  add_fulfilled_proof, try_create_agg_proof_from_span_proofs, update_proof_status,
}
use optimism_zkp.Db.Table.{find}
use optimism_zkp.Db.Chain.{covers}
use optimism_zkp.Db.Claims.{claims_of}
use optimism_zkp.Db.Fulfil.Atomic.{Commits, add_fulfilled_proof_lem}
use optimism_zkp.Prove.{request_span, request_proof, run_request, process_proving_request}
use optimism_zkp.Prove.Deliver.{IsProving, IsDelivered, request_delivers}
use optimism_zkp.Prove.Caps.{IsReached, number_of, request_span_lem}
use optimism_zkp.Prove.Revive.{request_proof_revives}
use optimism_zkp.Batches.{RollupConfig, Batch, get_span_batch_ranges}
use optimism_zkp.Batches.Clip.{Bounded, get_span_batch_ranges-Bounded}
use optimism_zkp.Tests.{row, stuck, world, env, config}

add_fulfilled_proof_lem_example :
    Commits env 2 (some (9 ∷ [])) world (add_fulfilled_proof env 2 (some (9 ∷ [])) world)
add_fulfilled_proof_lem_example = add_fulfilled_proof_lem env 2 (some (9 ∷ [])) world

abbrev queued : Request
queued = row 0 unreq 100 200 none

-- The world with one row.
abbrev world_of : Request → World
world_of r = record world { rows = r ∷ []; next_id = 1 }

-- A later world, in which another request waits for its proof.
abbrev with_stuck : Request → World
with_stuck r = record world { rows = stuck ∷ r ∷ []; next_id = 3 }

request_span_lem_example :
    ((IsReached 4 (number_of witnessgen (queued ∷ []))
        ⊎ IsReached 10 (number_of witnessgen (queued ∷ []) + number_of proving (queued ∷ [])))
      × ((request_span env config queued (world_of queued)).1.spawned ≡ []))
    ⊎ (((request_span env config queued (world_of queued)).1.spawned ≡ queued ∷ [])
        × ((request_span env config queued (world_of queued)).1.rows ≡ queued ∷ [])
        × (number_of witnessgen (update_proof_status env 0 witnessgen (with_stuck queued)).1.rows
              + number_of witnessgen (queued ∷ [])
            ≤ 4 + number_of witnessgen (with_stuck queued).rows)
        × (number_of witnessgen (update_proof_status env 0 witnessgen (with_stuck queued)).1.rows
              + number_of proving (update_proof_status env 0 witnessgen (with_stuck queued)).1.rows
              + (number_of witnessgen (queued ∷ []) + number_of proving (queued ∷ []))
            ≤ 10
              + (number_of witnessgen (with_stuck queued).rows
                  + number_of proving (with_stuck queued).rows)))
unfolding find
request_span_lem_example =
    request_span_lem env config queued (world_of queued) (with_stuck queued) (λ n. refl)
      (omega arith, (omega arith, tt)) refl refl

-- A server that accepts every request.
abbrev accepting : Env
accepting = record env { post = λ n p b. response 200 (some (5 ∷ [])) }

abbrev retried : Request
retried = row 0 failed 100 200 none

request_proof_revives_example :
    ((request_proof accepting queued false (world_of retried)).0 ≡ ok tt)
    × ((b : ℕ)
        → claims_of b (request_proof accepting queued false (world_of retried)).1.rows
          ≡ claims_of b (retried ∷ []) + one_if (covers b retried))
unfolding find
request_proof_revives_example =
    request_proof_revives accepting queued retried (world_of retried) (5 ∷ []) (5 ∷ []) (λ n. refl)
      (omega arith, tt) refl refl refl refl refl (omega arith) (λ n json. refl) refl

abbrev fulfilled_answer : ProofStatusResponse
fulfilled_answer = record no_response {
  fulfillment_status = FulfillmentStatus.fulfilled;
  proof = some (7 ∷ []);
}

-- A server that accepts every request and has proved it when it is asked.
abbrev delivering : Env
delivering = record accepting {
  get = λ n p. response 200 (some []);
  parse_status = λ b. some fulfilled_answer;
}

delivering-ScansRows : ScansRows delivering
delivering-ScansRows = record { rows = λ n P l h. h; each = λ n p l. refl }

request_delivers_example :
    ((run_request delivering config queued (world_of queued)).0 ≡ ok tt)
    × ((r' : Request) × IsProving
          (5 ∷ [])
          0
          queued
          (run_request delivering config queued (world_of queued)).1
          r'
        × ((process_proving_request delivering r'
              (run_request delivering config queued (world_of queued)).1).0
            ≡ ok tt)
        × IsDelivered
            (some (7 ∷ []))
            0
            queued
            (world_of queued)
            (process_proving_request delivering r'
              (run_request delivering config queued (world_of queued)).1).1)
unfolding find
request_delivers_example =
    request_delivers delivering (λ n. refl) config refl queued queued (world_of queued) (5 ∷ [])
      (5 ∷ []) (omega arith, tt) refl refl refl (omega arith) (λ n json. refl) refl
      delivering-ScansRows [] fulfilled_answer (λ n. refl) refl refl

abbrev rollup : RollupConfig
rollup = record { genesis_time = 1000; genesis_block = 0; block_time = 2; batch_inbox_address = [] }

abbrev batches : List Batch
batches =
    record { timestamp = 1020; block_count = some 15 }
    ∷ record { timestamp = 1050; block_count = some 10 }
    ∷ record { timestamp = 1070; block_count = some 40 }
    ∷ []

get_span_batch_ranges-Bounded_example :
    Bounded 20 50 (λ l. l) (get_span_batch_ranges rollup 20 50 (batches ∷ []))
get_span_batch_ranges-Bounded_example =
    get_span_batch_ranges-Bounded 20 50 (omega arith) rollup (batches ∷ [])

no_aggs : (start : ℕ) → live_aggs start world.rows ≤ 1
unfolding select
no_aggs start = omega arith

try_create_unique_example :
    live_aggs 100 (try_create_agg_proof_from_span_proofs env 100 250 world).1.rows ≤ 1
try_create_unique_example = try_create_unique env 100 250 world no_aggs 100
