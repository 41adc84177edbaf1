-- ===== src/Prove/Http/Backoff.antt =====
-- The attempts of `ValidateConfig` (prove.go).
use optimism_zkp.Prelude.{
  ◌∙◌, ℕ, zero, suc, ◌+◌, ◌*◌, ◌^◌, ◌≡◌, refl, false, none, some, List, [], ◌∷◌, arith,
}
use native.Mathlib.Numerals.{unary_clauses}
use optimism_zkp.Prelude.Effects.{Result, ok, err, ◌>>=◌}
use optimism_zkp.Request.{Bytes}
use optimism_zkp.World.{
  Env, World, call, observe, HttpResult, timeout, broken, response, validate_config,
}
use optimism_zkp.Prove.Http.{attempt, is_healthy, last_attempt, sleep}

abbrev pub sum : List ℕ → ℕ
sum [] = 0
sum (x ∷ xs) = x + sum xs

abbrev pub IsErr : {A : Type 0} → Result A → Type 0
IsErr (ok a) = ⊥
IsErr (err x) = Unit

last_fails :
    (r : HttpResult) (w : World)
    → is_healthy r ≡ false
    → IsErr (last_attempt r w).0 × ((last_attempt r w).1 ≡ w)
unfolding last_attempt is_healthy ◌>>=◌
last_fails timeout w h = (tt, refl)
last_fails broken w h = (tt, refl)
last_fails (response code none) w h = rw h (tt, refl)
last_fails (response code (some b)) w h = rw h (tt, refl)

paused : (x s b k : ℕ) → x + b * 2 ≡ (b + s) + b * 2 * 2 ^ k → x + b ≡ s + b * 2 ^ suc k
paused x s b k h = simp unary_clauses (omega arith)

-- Where no answer of the server is healthy, whatever the attempts leave of the body of their request, `k + 1` attempts make `k + 1` calls, fail, and sleep
-- `backoff`, `2 * backoff`, ... in between: `backoff * (2 ^ k - 1)` seconds in all.
pub attempt_exhausts :
    (e : Env) (k backoff : ℕ) (json : Bytes) (w : World)
    → ((n : ℕ) (body : Bytes) → is_healthy (e.post n validate_config body) ≡ false)
    → IsErr (attempt e (suc k) backoff json w).0
      × ((attempt e (suc k) backoff json w).1.calls ≡ w.calls + suc k)
      × (sum (attempt e (suc k) backoff json w).1.slept + backoff ≡ sum w.slept + backoff * 2 ^ k)
unfolding attempt observe call sleep ◌>>=◌
attempt_exhausts e zero backoff json w h =
    let (fails, same) =
      last_fails (e.post w.calls validate_config json) (record w { calls = suc w.calls })
        (h w.calls json) in
    rw same (fails, omega arith, omega arith)
attempt_exhausts e (suc k) backoff json w h =
    let later = record w { calls = suc w.calls; slept = backoff ∷ w.slept } in
    let ih = attempt_exhausts e k (backoff * 2) (e.unread w.calls json) later h in
    rw (h w.calls json) (ih.0, ih.1 ∙ omega arith, paused _ _ _ k ih.2)
