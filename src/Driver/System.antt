-- ===== src/Driver/System.antt =====
-- The proposer as a whole: the driver's loop stage by stage (driver.go), the goroutines that it started
-- (prove.go), starts and stops, in any order.
pub mod Calls
pub mod History
pub mod Keeps
pub mod Crash
pub mod Tick
use optimism_zkp.Prelude.{◌≡◌, List, ◌∷◌, ◌++◌}
use optimism_zkp.Prelude.Effects.{Result, ok, err, pure, ◌>>=◌}
use optimism_zkp.Request.{Request, witnessgen}
use optimism_zkp.World.{Env, World, Config, M}
use optimism_zkp.Db.{update_proof_status}
use optimism_zkp.Range.{get_range_proof_boundaries}
use optimism_zkp.Prove.{
  process_proving_requests, process_witnessgen_requests, derive_agg_proofs, request_queued_proofs,
}
use optimism_zkp.Prove.Tracked.Run.{answer_request}
use optimism_zkp.Driver.{
  get_proposer_metrics, submit_agg_proofs, start_l2_output_submitting, stop_l2_output_submitting,
}

-- The world and the requests whose goroutine has marked its row and waits for the server.
pub record System : Type 0 where
  pub world : World
  pub waiting : List Request

-- What a tick of `loopL2OO` runs, in this order.
pub data Stage : Type 0 where
  metrics range_boundaries proving_requests witnessgen_requests agg_proofs queued_proofs
        submission :
      Stage

unfoldable pub run_stage : Env → Config → Stage → M (Unit {0})
run_stage e cfg metrics = get_proposer_metrics e >>= λ _. pure tt
run_stage e cfg range_boundaries = get_range_proof_boundaries e cfg
run_stage e cfg proving_requests = process_proving_requests e
run_stage e cfg witnessgen_requests = process_witnessgen_requests e cfg
run_stage e cfg agg_proofs = derive_agg_proofs e
run_stage e cfg queued_proofs = request_queued_proofs e cfg
run_stage e cfg submission = submit_agg_proofs e cfg

-- A goroutine whose mark fails returns.
abbrev pub taken_up : Result (Unit {0}) → Request → List Request → List Request
taken_up (ok a) p waiting = p ∷ waiting
taken_up (err x) p waiting = waiting

-- One step: a stage of a tick, the mark WITNESSGEN of a goroutine that was handed a request, its request to
-- the server with what follows the answer, or a start or a stop of the driver.
pub data Step (e : Env) (cfg : Config) : System → System → Type 0 where
  stage :
      (s : Stage) (w : World) (waiting : List Request)
      → Step e cfg
          (record { world = w; waiting = waiting })
          (record { world = (run_stage e cfg s w).1; waiting = waiting })
  mark :
      (w : World) (waiting before : List Request) (p : Request) (after : List Request)
      → w.spawned ≡ before ++ p ∷ after
      → Step e cfg
          (record { world = w; waiting = waiting })
          (record {
            world =
                (update_proof_status e p.id witnessgen (record w { spawned = before ++ after })).1;
            waiting =
                taken_up
                  (update_proof_status e p.id witnessgen (record w { spawned = before ++ after })).0
                  p
                  waiting;
          })
  answer :
      (w : World) (before : List Request) (p : Request) (after : List Request)
      → Step e cfg
          (record { world = w; waiting = before ++ p ∷ after })
          (record { world = (answer_request e cfg p w).1; waiting = before ++ after })
  start :
      (w : World) (waiting : List Request)
      → Step e cfg
          (record { world = w; waiting = waiting })
          (record { world = (start_l2_output_submitting e cfg w).1; waiting = waiting })
  stop :
      (w : World) (waiting : List Request)
      → Step e cfg
          (record { world = w; waiting = waiting })
          (record { world = (stop_l2_output_submitting e w).1; waiting = waiting })

pub data Steps (e : Env) (cfg : Config) (s : System) : System → Type 0 where
  here : Steps e cfg s s
  next : {t u : System} → Steps e cfg s t → Step e cfg t u → Steps e cfg s u
