-- ===== src/Driver/System/Crash.antt =====
-- A process that dies at any call and the one that is started after it: `InitDB` (db/db.go), which
-- `NewL2OutputSubmitter` (driver.go) calls.
use optimism_zkp.Prelude.{ℕ, Bool, true, false, [], ◌||◌, leb, if◌then◌else◌}
use optimism_zkp.Prelude.Effects.{pure}
use optimism_zkp.Prelude.Effects.Ensures.{
  Keeps, Ensures-pure, Ensures-raise, Ensures-bind, Ensures-if,
}
use optimism_zkp.World.{Env, World, Config, unsent}
use optimism_zkp.Db.Open.{Disk, require, init_db}
use optimism_zkp.Driver.System.{System, Step}

-- From call `k` on nothing of the process reaches the database or L1.
abbrev pub cut_off : ℕ → Env → Env
cut_off k e = record e {
  fault = λ n. e.fault n || leb k n;
  send = λ n tx. if leb k n then unsent else e.send n tx;
}

-- A new process on the rows of the old one, without its goroutines.
abbrev pub new_process : World → World
new_process w = record w {
  spawned = [];
  slept = [];
  running = false;
  looping = false;
  closed = false;
}

unfoldable pub restarted : Disk → Bool → System → System
restarted d use_cached_db s = record {
  world = (init_db d use_cached_db (new_process s.world)).1;
  waiting = [];
}

-- Steps, and steps that the process does not survive: at any call within the step, after which the next
-- process opens the database.
pub data Life (e : Env) (cfg : Config) (use_cached_db : Bool) (s : System) : System → Type 0 where
  born : Life e cfg use_cached_db s s
  lives :
      {t u : System} → Life e cfg use_cached_db s t → Step e cfg t u → Life e cfg use_cached_db s u
  dies :
      {t u : System} (k : ℕ) (d : Disk)
      → Life e cfg use_cached_db s t
      → Step (cut_off k e) cfg t u
      → Life e cfg use_cached_db s (restarted d use_cached_db u)

module _ (P : World → Type 0) where
  require-Keeps : (b : Bool) → Keeps P (require b)
  unfolding require
  require-Keeps b =
      Ensures-if P _ P b _ _ (λ _. Ensures-pure _ _ _ tt (λ w k. k))
        (λ _. Ensures-raise _ _ _ _ (λ w k. k))

  -- With the database cached, `InitDB` keeps what it finds, whether or not it gets through.
  pub init_db-Keeps : (d : Disk) → Keeps P (init_db d true)
  unfolding init_db
  init_db-Keeps d =
      Ensures-bind P (λ _. P) _ P (pure tt) _ (Ensures-pure _ _ _ tt (λ w k. k))
        (λ _.
          Ensures-bind P (λ _. P) _ P (require d.makes_directories) _ (require-Keeps _)
            (λ _.
              Ensures-bind P (λ _. P) _ P (require d.opens_write) _ (require-Keeps _)
                (λ _.
                  Ensures-bind P (λ _. P) _ P (require d.opens_read) _ (require-Keeps _)
                    (λ _.
                      Ensures-bind P (λ _. P) _ P (require d.creates_read_schema) _
                        (require-Keeps _) (λ _. require-Keeps _)))))
