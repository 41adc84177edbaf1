-- ===== src/Db/Open.antt =====
-- Opening and closing the database: `InitDB` and `CloseDB` (proposer/op/proposer/db/db.go).
use optimism_zkp.Prelude.{Bool, [], if◌then◌else◌}
use optimism_zkp.Prelude.Effects.{pure, raise, modify, ◌>>◌, db_failed}
use optimism_zkp.World.{Env, M, statement}

-- What becomes of the calls of `os`, `sql` and the schema. An error of `os.Remove` is not looked at.
pub record Disk : Type 0 where
  pub removes : Bool
  pub makes_directories : Bool
  pub opens_write : Bool
  pub opens_read : Bool
  pub creates_read_schema : Bool
  pub creates_write_schema : Bool

unfoldable pub require : Bool → M (Unit {0})
require b = if b then pure tt else raise db_failed

-- A file that is gone is a table without rows.
unfoldable pub remove : Disk → M (Unit {0})
remove d = if d.removes then modify (λ w. record w { rows = []; next_id = 1 }) else pure tt

unfoldable pub init_db : Disk → Bool → M (Unit {0})
init_db d use_cached_db = do
  (if use_cached_db then pure tt else remove d)
  require d.makes_directories
  require d.opens_write
  require d.opens_read
  require d.creates_read_schema
  require d.creates_write_schema

-- `CloseDB`: the write client, then the read client, unless the first fails.
unfoldable pub close_db : Env → M (Unit {0})
close_db e = do statement e; statement e; pure tt
