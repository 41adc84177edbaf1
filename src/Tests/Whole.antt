-- ===== src/Tests/Whole.antt =====
-- Concrete runs of the proposer as a whole: steps in an order that the goroutines choose, submissions, and
-- starts.
use optimism_zkp.Prelude.{ℕ, ◌≤◌, ◌≡◌, refl, true, false, some, [], ◌∷◌, All, arith}
use optimism_zkp.Prelude.Effects.Ensures.{Ends}
use optimism_zkp.Request.{Request}
use optimism_zkp.World.{World}
use optimism_zkp.Db.Ids.{Ids}
use optimism_zkp.Db.Claims.{claims_of, IsProper}
use optimism_zkp.Db.Tracked.{IsKnown}
use optimism_zkp.Driver.{submit_agg_proofs, start_l2_output_submitting, stop_l2_output_submitting}
use optimism_zkp.Prelude.Effects.{err, already_closed}
use optimism_zkp.Driver.System.{
  System, Steps, here, next, stage, answer, proving_requests, witnessgen_requests,
}
use optimism_zkp.Driver.System.Keeps.{Steps-claims_of}
use optimism_zkp.Driver.System.History.{Life-Evolves}
use optimism_zkp.Driver.System.Crash.{cut_off, restarted, Life, born, lives, dies}
use optimism_zkp.Driver.System.Tick.{Tick}
use optimism_zkp.Db.Open.{Disk}
use optimism_zkp.Db.History.{Evolves}
use optimism_zkp.Db.Table.{find}
use optimism_zkp.Driver.Submit.{Submitted, Failed, submit_agg_proofs_lem}
use optimism_zkp.Driver.Lifecycle.{
  IsRunning, IsStuck, stop_start_stop, start_l2_output_submitting_lem,
}
use optimism_zkp.Prove.Tracked.Run.{answer_request}
use optimism_zkp.Driver.System.{run_stage}
use optimism_zkp.Tests.{
  env, config, world, table, stuck, services-ScansRows, config-InRange, world-IsTidy,
}

-- The goroutine of the row in PROVING still waits for its answer.
abbrev whole : System
whole = record { world = world; waiting = stuck ∷ [] }

abbrev timed_out_world : World
timed_out_world = (run_stage env config witnessgen_requests world).1

abbrev whole_after : System
whole_after = record { world = (answer_request env config stuck timed_out_world).1; waiting = [] }

run_to_the_answer : Steps env config whole whole_after
run_to_the_answer =
    next (next here (stage witnessgen_requests world (stuck ∷ [])))
      (answer timed_out_world [] stuck [])

stuck-IsKnown : IsKnown 3 table stuck
stuck-IsKnown = (
  omega arith,
  (λ h. omega arith, omega arith),
  ((λ h. (refl, refl, refl)), ((λ h. absurd (omega arith)), ((λ h. absurd (omega arith)), tt))),
)

Steps-claims_of_example :
    ((b : ℕ) → claims_of b table ≤ claims_of b whole_after.world.rows)
    × Ids whole_after.world.next_id whole_after.world.rows
    × All IsProper whole_after.world.rows
Steps-claims_of_example =
    Steps-claims_of env (λ n. refl) (services-ScansRows _) config config-InRange whole whole_after
      world-IsTidy.ids world-IsTidy.ranges (stuck-IsKnown, tt) tt run_to_the_answer

-- Storage on which everything works.
abbrev disk : Disk
disk = record {
  removes = true;
  makes_directories = true;
  opens_write = true;
  opens_read = true;
  creates_read_schema = true;
  creates_write_schema = true;
}

-- The process dies in `RetryRequest`, behind the mark FAILED, and starts again.
abbrev cut_world : World
cut_world = (run_stage (cut_off 6 env) config proving_requests timed_out_world).1

abbrev reborn : System
reborn = restarted disk true (record { world = cut_world; waiting = stuck ∷ [] })

cut_and_reborn : Life env config true whole reborn
cut_and_reborn =
    dies 6 disk (lives born (stage witnessgen_requests world (stuck ∷ [])))
      (stage proving_requests timed_out_world (stuck ∷ []))

Life-Evolves_example : (r' : Request) × (find 2 reborn.world.rows ≡ some r') × Evolves stuck r'
unfolding find
Life-Evolves_example =
    Life-Evolves env (services-ScansRows _) config whole reborn world-IsTidy.ids cut_and_reborn 2
      stuck refl

submit_agg_proofs_lem_example :
    Ends
      (λ _. Submitted env config world)
      (Failed env config world)
      (submit_agg_proofs env config world)
submit_agg_proofs_lem_example =
    submit_agg_proofs_lem env config (services-ScansRows _) world world-IsTidy.ids

abbrev idle : World
idle = record world { running = false; looping = false }

start_l2_output_submitting_lem_example :
    Ends (λ _. IsRunning env) (IsStuck env config) (start_l2_output_submitting env config idle)
start_l2_output_submitting_lem_example = start_l2_output_submitting_lem env config idle refl refl

abbrev busy : World
busy = record world { running = true; looping = true }

stop_start_stop_example :
    (stop_l2_output_submitting env
      (start_l2_output_submitting env config (stop_l2_output_submitting env busy).1).1).0
    ≡ err already_closed
stop_start_stop_example = stop_start_stop env config busy refl
