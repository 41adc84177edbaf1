-- ===== src/Prelude/Effects.antt =====
-- A call that reads and writes a state and may fail. What was written before a failure stays
-- written, so the state comes back beside an error too.
pub mod Ensures
use mathlib.Core.Bool.{Bool, true, false}
use mathlib.Core.List.{List, [], ◌∷◌}

-- Why a call of the proposer fails.
pub data Error : Type 0 where
  db_failed not_found not_singular : Error
  not_proving proof_already_set no_matching_request : Error
  gap_in_chain incomplete_chain empty_range : Error
  rpc_failed timed_out bad_status bad_json not_healthy invalid_config : Error
  unsupported_version wrong_block no_safe_head is_done : Error
  already_running not_running no_address already_closed : Error
  divides_by_zero no_batches : Error
  invalid_flags already_stopped stop_failed : Error
  -- a loop has not ended within its fuel
  hangs : Error

pub data Result (A : Type 0) : Type 0 where
  ok : A → Result A
  err : Error → Result A

abbrev pub Exec : Type 0 → Type 0 → Type 0
Exec S A = S → Result A × S

module _ {S A : Type 0} where
  unfoldable pub pure : A → Exec S A
  pure a s = (ok a, s)

  unfoldable pub raise : Error → Exec S A
  raise x s = (err x, s)

  unfoldable pub lift : Result A → Exec S A
  lift r s = (r, s)

  unfoldable pub gets : (S → A) → Exec S A
  gets f s = (ok (f s), s)

module _ {S : Type 0} where
  unfoldable pub modify : (S → S) → Exec S (Unit {0})
  modify f s = (ok tt, f s)

module _ {S A B : Type 0} where
  abbrev pub continue : (A → Exec S B) → Result A → S → Result B × S
  continue f (ok a) s = f a s
  continue f (err x) s = (err x, s)

  infixl 10 ◌>>=◌ ◌>>◌
  unfoldable pub ◌>>=◌ : Exec S A → (A → Exec S B) → Exec S B
  unfolding pure raise lift gets modify
  ◌>>=◌ m f s = let (r, s') = m s in continue f r s'

  abbrev pub ◌>>◌ : Exec S A → Exec S B → Exec S B
  m >> k = m >>= λ _. k

  -- `if err != nil { ... }` on the result of a call.
  unfoldable pub catch : Exec S A → (Result A → Exec S B) → Exec S B
  catch m f s = let (r, s') = m s in f r s'

module _ {S A : Type 0} where
  -- `for _, x := range xs`, left by the first error.
  unfoldable pub for_each : List A → (A → Exec S (Unit {0})) → Exec S (Unit {0})
  unfolding ◌>>=◌
  for_each [] body = pure tt
  for_each (x ∷ xs) body = body x >>= λ _. for_each xs body
