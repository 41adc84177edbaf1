-- ===== src/Driver/System/Tick.antt =====
-- One tick of `loopL2OO` (driver.go) against its description: the stages in order, up to the first that
-- fails.
use optimism_zkp.Prelude.{◌≡◌, List, [], ◌∷◌}
use optimism_zkp.Prelude.Effects.{Error, Result, ok, err, pure, ◌>>=◌}
use optimism_zkp.World.{Env, World, Config, M}
use optimism_zkp.Driver.System.{
  Stage, metrics, range_boundaries, proving_requests, witnessgen_requests, agg_proofs,
  queued_proofs, submission, run_stage,
}

abbrev pub tick_order : List Stage
tick_order =
    metrics ∷ range_boundaries ∷ proving_requests ∷ witnessgen_requests ∷ agg_proofs ∷ queued_proofs
    ∷ submission ∷ []

-- What comes out of stages that run one after the other: a stage that fails is the last, and its error and
-- its world are the tick's; the others hand their world on.
pub data Tick (e : Env) (cfg : Config)
    : List Stage → World → Result (Unit {0}) → World → Type 0 where
  done : (w : World) → Tick e cfg [] w (ok tt) w
  fails :
      {s : Stage} {rest : List Stage} {w w' : World} {x : Error}
      → run_stage e cfg s w ≡ (err x, w')
      → Tick e cfg (s ∷ rest) w (err x) w'
  goes :
      {s : Stage} {rest : List Stage} {w w' v : World} {a : Unit {0}} {r : Result (Unit {0})}
      → run_stage e cfg s w ≡ (ok a, w')
      → Tick e cfg rest w' r v
      → Tick e cfg (s ∷ rest) w r v

module _ (e : Env) (cfg : Config) where
  run_all : List Stage → M (Unit {0})
  run_all [] = pure tt
  run_all (s ∷ rest) = run_stage e cfg s >>= λ _. run_all rest
