-- ===== src/Driver/System/Keeps.antt =====
-- What every step of the proposer keeps, where no statement of the database fails.
use optimism_zkp.Prelude.{ℕ, ◌≤◌, ◌≡◌, subst, List, [], ◌∷◌, ◌++◌, All, arith}
use optimism_zkp.Prelude.Effects.{Result, ok, err}
use optimism_zkp.Prelude.Effects.Ensures.{Keeps-state, Ensures-state}
use optimism_zkp.Request.{Request, witnessgen}
use optimism_zkp.World.{Env, World, Config, ScansRows, IsSteady}
use optimism_zkp.Db.{update_proof_status}
use optimism_zkp.Db.Ids.{Ids}
use optimism_zkp.Db.Reads.{OnAll}
use optimism_zkp.Db.Claims.{nought, claims_of, IsProper}
use optimism_zkp.Db.Tracked.{IsTracked, IsKnown}
use optimism_zkp.Db.Tracked.Calls.{forget}
use optimism_zkp.Range.Stage.{InRange}
use optimism_zkp.Prove.Tracked.Run.{answer_request, mark-Tracked, answer_request-Tracked}
use optimism_zkp.Driver.{start_l2_output_submitting, stop_l2_output_submitting}
use optimism_zkp.Driver.System.{
  System, run_stage, taken_up, Step, stage, mark, answer, start, stop, Steps, here, next,
}
use optimism_zkp.Driver.System.Calls.{run_stage-Tracked, start-Tracked, stop-Tracked}

All-without :
    (P : Request → Type 0) (before : List Request) (p : Request) (after : List Request)
    → All P (before ++ p ∷ after)
    → P p × All P (before ++ after)
All-without P [] p after h = h
All-without P (x ∷ before) p after h =
    let rest = All-without P before p after h.1 in (rest.0, (h.0, rest.1))

-- The system's table is sound, its copies are known, and each block has at least so many claims.
abbrev pub IsSound : (ℕ → ℕ) → System → Type 0
IsSound least s = OnAll (IsTracked least nought s.waiting) s.world

module _ (e : Env) (steady : IsSteady e) (scans : ScansRows e) (cfg : Config)
    (in_range : InRange e cfg) (least : ℕ → ℕ) where
  marked :
      (p : Request) (waiting : List Request) (r : Result (Unit {0}) × World)
      → IsSound least (record { world = r.1; waiting = p ∷ waiting })
      → IsSound least (record { world = r.1; waiting = taken_up r.0 p waiting })
  marked p waiting (ok a, w) k = k
  marked p waiting (err x, w) k = forget k

  hand :
      (w : World) (waiting before : List Request) (p : Request) (after : List Request)
      → w.spawned ≡ before ++ p ∷ after
      → IsSound least (record { world = w; waiting = waiting })
      → IsSound least
          (record { world = record w { spawned = before ++ after }; waiting = p ∷ waiting })
  hand w waiting before p after same k =
      let apart =
        All-without (IsKnown w.next_id w.rows) before p after
          (subst (λ l. All (IsKnown w.next_id w.rows) l) same k.handed) in
      record {
        ids = k.ids;
        ranges = k.ranges;
        holds = k.holds;
        known = (apart.0, k.known);
        handed = apart.1;
      }

  first :
      (w : World) (before : List Request) (p : Request) (after : List Request)
      → IsSound least (record { world = w; waiting = before ++ p ∷ after })
      → IsSound least (record { world = w; waiting = p ∷ (before ++ after) })
  first w before p after k = record {
    ids = k.ids;
    ranges = k.ranges;
    holds = k.holds;
    known = All-without _ before p after k.known;
    handed = k.handed;
  }

  Step-IsSound : {s t : System} → Step e cfg s t → IsSound least s → IsSound least t
  Step-IsSound (stage x w waiting) k =
      Keeps-state _ (run_stage e cfg x)
        (run_stage-Tracked e steady scans cfg in_range least waiting x) w k
  Step-IsSound (mark w waiting before p after same) k =
      let w' = record w { spawned = before ++ after } in
      marked p waiting (update_proof_status e p.id witnessgen w') (
        Keeps-state _ (update_proof_status e p.id witnessgen)
          (mark-Tracked e steady least (p ∷ waiting) p.id) w'
          (hand w waiting before p after same k))
  Step-IsSound (answer w before p after) k =
      Ensures-state _ _ (answer_request e cfg p)
        (answer_request-Tracked e steady least (before ++ after) cfg p) w (first w before p after k)
  Step-IsSound (start w waiting) k =
      Keeps-state _ (start_l2_output_submitting e cfg)
        (start-Tracked e steady scans cfg in_range least waiting) w k
  Step-IsSound (stop w waiting) k =
      Keeps-state _ (stop_l2_output_submitting e)
        (stop-Tracked e steady scans cfg in_range least waiting) w k

  pub Steps-IsSound : {s t : System} → Steps e cfg s t → IsSound least s → IsSound least t
  Steps-IsSound here k = k
  Steps-IsSound (next path step) k = Step-IsSound step (Steps-IsSound path k)

-- Where no statement of the database fails, queries return the selected rows, the span size is above
-- 0 and block numbers stay below 2 ^ 63: from a table with rising keys and proper ranges, with
-- goroutines that hold requests read from it, no interleaving of stages, goroutines, starts and
-- stops, without a crash, takes from any block the number of span requests that claim it and have not failed, and
-- keys and ranges stay sound.
pub Steps-claims_of :
    (e : Env)
    → IsSteady e
    → ScansRows e
    → (cfg : Config) → InRange e cfg
    → (s t : System) → Ids s.world.next_id s.world.rows
    → All IsProper s.world.rows
    → All (IsKnown s.world.next_id s.world.rows) s.waiting
    → All (IsKnown s.world.next_id s.world.rows) s.world.spawned
    → Steps e cfg s t
    → ((b : ℕ) → claims_of b s.world.rows ≤ claims_of b t.world.rows)
      × Ids t.world.next_id t.world.rows
      × All IsProper t.world.rows
Steps-claims_of e steady scans cfg in_range s t ids ranges known handed path =
    let after =
      Steps-IsSound e steady scans cfg in_range (λ b. claims_of b s.world.rows) path
        (record {
          ids = ids;
          ranges = ranges;
          holds = λ b. omega arith;
          known = known;
          handed = handed;
        }) in
    (λ b. omega (arith, after.holds b), after.ids, after.ranges)
