-- ===== src/Driver/Quiet.antt =====
-- The calls of start and stop (driver.go, prove.go) on the flags of the driver.
use optimism_zkp.Prelude.{
  ℕ, zero, suc, ◌*◌, Bool, true, false, Option, none, some, List, inl, inr, Bool-cases,
  if◌then◌else◌,
}
use optimism_zkp.Prelude.Effects.{Error, pure, raise, gets, for_each, no_address, ◌>>=◌}
use optimism_zkp.Prelude.Effects.Ensures.{
  Keeps, Ensures-pure, Ensures-raise, Ensures-gets, Ensures-modify, Ensures-bind, Ensures-for_each,
}
use optimism_zkp.Request.{Bytes, Request, ProofType, ProofStatusResponse}
use optimism_zkp.World.{
  Env, World, Config, M, HttpResult, timeout, broken, response, call, statement, observe,
}
use optimism_zkp.Db.{
  query, update, new_entry, update_proof_status, get_proof_requests_with_block_range_and_status,
}
use optimism_zkp.Db.Table.{insert}
use optimism_zkp.Prove.{requeue, retry_request}
use optimism_zkp.Prove.Http.{
  is_healthy, last_attempt, sleep, attempt, decoded, check_config, validate_config,
}
use optimism_zkp.Driver.{address_of}

-- A claim about the driver's flags: `running`, whether the loop was started, whether `done` is closed.
abbrev pub OnFlags : (Bool → Bool → Bool → Type 0) → World → Type 0
OnFlags P w = P w.running w.looping w.closed

-- The call leaves the flags alone.
abbrev pub IsQuiet : {A : Type 0} → M A → Type 1
IsQuiet m = (P : Bool → Bool → Bool → Type 0) → Keeps (OnFlags P) m

module _ {A : Type 0} where
  IsQuiet-pure : (a : A) → IsQuiet (pure a)
  IsQuiet-pure a P = Ensures-pure (OnFlags P) (λ _. OnFlags P) (OnFlags P) a (λ w h. h)

  IsQuiet-raise : (x : Error) → IsQuiet (raise {A = A} x)
  IsQuiet-raise x P = Ensures-raise (OnFlags P) (λ _. OnFlags P) (OnFlags P) x (λ w h. h)

  IsQuiet-gets : (f : World → A) → IsQuiet (gets f)
  IsQuiet-gets f P = Ensures-gets (OnFlags P) (λ _. OnFlags P) (OnFlags P) f (λ w h. h)

  IsQuiet-if : (b : Bool) (m n : M A) → IsQuiet m → IsQuiet n → IsQuiet (if b then m else n)
  IsQuiet-if true m n h k = h
  IsQuiet-if false m n h k = k

IsQuiet-bind :
    {A B : Type 0} (m : M A) (f : A → M B)
    → IsQuiet m
    → ((a : A) → IsQuiet (f a))
    → IsQuiet (m >>= f)
IsQuiet-bind m f h k P =
    Ensures-bind (OnFlags P) (λ _. OnFlags P) (λ _. OnFlags P) (OnFlags P) m f (h P) (λ a. k a P)

pub IsQuiet-for_each :
    (body : Request → M (Unit {0}))
    → ((r : Request) → IsQuiet (body r))
    → (l : List Request) → IsQuiet (for_each l body)
IsQuiet-for_each body h l P = Ensures-for_each (λ _. OnFlags P) (OnFlags P) body (λ r rs. h r P) l

pub IsQuiet-statement : (e : Env) → IsQuiet (statement e)
unfolding statement
IsQuiet-statement e P = record {
  at = λ w h. elim (Bool-cases (e.fault w.calls)) [ inl f ↦ rw f h | inr f ↦ rw f h ];
}

IsQuiet-observe : {A : Type 0} (f : ℕ → A) → IsQuiet (observe f)
unfolding observe call
IsQuiet-observe f = IsQuiet-bind _ _ (λ P. record { at = λ w h. h }) (λ n. IsQuiet-pure (f n))

module _ (e : Env) where
  pub IsQuiet-query : (p : Request → Bool) → IsQuiet (query e p)
  unfolding query
  IsQuiet-query p = IsQuiet-bind _ _ (IsQuiet-statement e) (λ n. IsQuiet-gets _)

  IsQuiet-update : (p : Request → Bool) (f : ℕ → Request → Request) → IsQuiet (update e p f)
  unfolding update
  IsQuiet-update p f =
      IsQuiet-bind _ _ (IsQuiet-statement e) (λ n P. Ensures-modify _ _ _ _ (λ w h. h))

  IsQuiet-new_entry : (type : ProofType) (start end : ℕ) → IsQuiet (new_entry e type start end)
  unfolding new_entry insert
  IsQuiet-new_entry type start end =
      IsQuiet-bind _ _ (IsQuiet-statement e) (λ n P. Ensures-modify _ _ _ _ (λ w h. h))

  IsQuiet-requeue : (req : Request) (split : Bool) → IsQuiet (requeue e req split)
  unfolding requeue
  IsQuiet-requeue req true =
      IsQuiet-bind _ _ (IsQuiet-new_entry _ _ _) (λ _. IsQuiet-new_entry _ _ _)
  IsQuiet-requeue req false = IsQuiet-new_entry _ _ _

  pub IsQuiet-retry_request :
      (req : Request) (status : ProofStatusResponse) → IsQuiet (retry_request e req status)
  unfolding retry_request update_proof_status get_proof_requests_with_block_range_and_status
  IsQuiet-retry_request req status =
      IsQuiet-bind _ _ (IsQuiet-update _ _)
        (λ _. IsQuiet-bind _ _ (IsQuiet-query _) (λ previous. IsQuiet-requeue req _))

  IsQuiet-last_attempt : (r : HttpResult) → IsQuiet (last_attempt r)
  unfolding last_attempt
  IsQuiet-last_attempt timeout = IsQuiet-raise _
  IsQuiet-last_attempt broken = IsQuiet-raise _
  IsQuiet-last_attempt (response code none) = IsQuiet-if _ _ _ (IsQuiet-raise _) (IsQuiet-raise _)
  IsQuiet-last_attempt (response code (some b)) =
      IsQuiet-if _ _ _ (IsQuiet-pure b) (IsQuiet-raise _)

  IsQuiet-sleep : (seconds : ℕ) → IsQuiet (sleep seconds)
  unfolding sleep
  IsQuiet-sleep seconds P = Ensures-modify _ _ _ _ (λ w h. h)

  IsQuiet-attempt : (k backoff : ℕ) (json : Bytes) → IsQuiet (attempt e k backoff json)
  unfolding attempt
  IsQuiet-attempt zero backoff json = IsQuiet-raise _
  IsQuiet-attempt (suc zero) backoff json =
      IsQuiet-bind _ _ (IsQuiet-observe _) IsQuiet-last_attempt
  IsQuiet-attempt (suc (suc k)) backoff json = IsQuiet-bind _ _ (IsQuiet-observe _) (λ (r, rest).
      IsQuiet-if (is_healthy r) _ _ (IsQuiet-last_attempt r) (
        IsQuiet-bind _ _ (IsQuiet-sleep backoff) (λ _. IsQuiet-attempt (suc k) (backoff * 2) rest)))

  IsQuiet-decoded : {A : Type 0} (o : Option A) → IsQuiet (decoded o)
  IsQuiet-decoded none = IsQuiet-raise _
  IsQuiet-decoded (some a) = IsQuiet-pure a

  pub IsQuiet-validate_config : (address : Bytes) → IsQuiet (validate_config e address)
  unfolding validate_config check_config
  IsQuiet-validate_config address = IsQuiet-bind _ _ (IsQuiet-attempt _ _ _) (λ b.
      IsQuiet-bind _ _ (IsQuiet-decoded _)
        (λ r. IsQuiet-if _ _ _ (IsQuiet-pure tt) (IsQuiet-raise _)))

  pub IsQuiet-address_of : (cfg : Config) → IsQuiet (address_of e cfg)
  IsQuiet-address_of cfg = go cfg.l2_output_oracle_addr
    where
      go :
          (o : Option Bytes)
          → IsQuiet {A = Bytes} (elim o [ none ↦ raise no_address | some a ↦ pure a ])
      go none = IsQuiet-raise _
      go (some a) = IsQuiet-pure a
