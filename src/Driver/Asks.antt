-- ===== src/Driver/Asks.antt =====
-- Calls that only number what they ask, and what the answers of driver.go's checks say.
use optimism_zkp.Prelude.{
  ℕ, zero, suc, ◌≡◌, refl, Bool, true, false, not, Option, none, some, inl, inr, Bool-cases, ◌==◌,
  leb, if◌then◌else◌, arith,
}
use optimism_zkp.Prelude.Effects.{Error, pure, raise, ◌>>=◌}
use optimism_zkp.Prelude.Effects.Ensures.{
  Ensures, Keeps, Ensures-pure, Ensures-raise, Ensures-bind, Ensures-if,
}
use optimism_zkp.World.{
  Env, World, M, OutputResponse, TxCandidate, call, statement, ask, answer, observe,
}
use optimism_zkp.Tx.{packed, wait_loop, wait_for_l1_head}
use optimism_zkp.Range.{dial_rollup_client}
use optimism_zkp.Driver.{fetch_output}

-- The claim does not speak of the number of calls.
abbrev pub IsInert : (World → Type 0) → Type 0
IsInert P = (w : World) (n : ℕ) → P w → P (record w { calls = n })

-- The call changes nothing but the number of calls.
abbrev pub Asks : {A : Type 0} → M A → Type 1
Asks m = (P : World → Type 0) → IsInert P → Keeps P m

module _ {A : Type 0} where
  pub Asks-pure : (a : A) → Asks (pure a)
  Asks-pure a P i = Ensures-pure P (λ _. P) P a (λ w h. h)

  pub Asks-raise : (x : Error) → Asks (raise {A = A} x)
  Asks-raise x P i = Ensures-raise P (λ _. P) P x (λ w h. h)

  pub Asks-if : (b : Bool) (m n : M A) → Asks m → Asks n → Asks (if b then m else n)
  Asks-if true m n h k = h
  Asks-if false m n h k = k

  pub Asks-answer : (o : Option A) → Asks (answer o)
  Asks-answer none = Asks-raise _
  Asks-answer (some a) = Asks-pure a

pub Asks-bind :
    {A B : Type 0} (m : M A) (f : A → M B) → Asks m → ((a : A) → Asks (f a)) → Asks (m >>= f)
Asks-bind m f h k P i = Ensures-bind P (λ _. P) (λ _. P) P m f (h P i) (λ a. k a P i)

Asks-call : Asks call
unfolding call
Asks-call P i = record { at = λ w h. i w (suc w.calls) h }

pub Asks-ask : {A : Type 0} (f : ℕ → Option A) → Asks (ask f)
unfolding ask
Asks-ask f = Asks-bind call _ Asks-call (λ n. Asks-answer (f n))

pub Asks-observe : {A : Type 0} (f : ℕ → A) → Asks (observe f)
unfolding observe
Asks-observe f = Asks-bind call _ Asks-call (λ n. Asks-pure (f n))

pub Asks-statement : (e : Env) → Asks (statement e)
unfolding statement
Asks-statement e P i = record {
  at = λ w h. elim (Bool-cases (e.fault w.calls)) [
    | inl f ↦ rw f (i w (suc w.calls) h)
    | inr f ↦ rw f (i w (suc w.calls) h)
  ];
}

-- The service gave this answer.
abbrev pub Answered : {A : Type 0} → (ℕ → Option A) → A → Type 0
Answered f a = (k : ℕ) × (f k ≡ some a)

said :
    {A : Type 0} (P : World → Type 0) (f : ℕ → Option A) (n : ℕ) (o : Option A)
    → f n ≡ o
    → Ensures P (answer o) (λ a w. P w × Answered f a) P
said P f n none h = Ensures-raise _ _ _ _ (λ w k. k)
said P f n (some a) h = Ensures-pure _ _ _ a (λ w k. (k, (n, h)))

pub ask-Answered :
    {A : Type 0} (P : World → Type 0)
    → IsInert P
    → (f : ℕ → Option A) → Ensures P (ask f) (λ a w. P w × Answered f a) P
unfolding ask
ask-Answered P i f = Ensures-bind P (λ _. P) _ P call _ (Asks-call P i) (λ n. said P f n (f n) refl)

ruleset asks = (Asks-pure, Asks-raise, Asks-if, Asks-bind, Asks-ask, Asks-observe)

module _ (e : Env) where
  pub Asks-dial : Asks (dial_rollup_client e)
  unfolding dial_rollup_client
  Asks-dial = search asks

  pub Asks-packed : (tx : TxCandidate) → Asks (packed e tx)
  unfolding packed
  Asks-packed tx = search asks

  pub packed-same :
      (P : World → Type 0)
      → IsInert P
      → (tx : TxCandidate) → Ensures P (packed e tx) (λ t w. P w × (t ≡ tx)) P
  unfolding packed
  packed-same P i tx =
      Ensures-bind P (λ _. P) _ P _ _ (Asks-observe _ P i)
        (λ fits.
          Ensures-if P _ P fits (pure tx) (raise _) (λ _. Ensures-pure _ _ _ tx (λ w h. (h, refl)))
            (λ _. Ensures-raise _ _ _ _ (λ w h. h)))

  Asks-wait_loop : (ticks block_num head : ℕ) → Asks (wait_loop e ticks block_num head)
  unfolding wait_loop
  Asks-wait_loop zero block_num head =
      Asks-if (leb head block_num) _ _ (Asks-raise _) (Asks-pure tt)
  Asks-wait_loop (suc ticks) block_num head =
      Asks-if (leb head block_num) _ _
        (Asks-bind _ _ (Asks-ask _) (λ l1_head. Asks-wait_loop ticks block_num l1_head))
        (Asks-pure tt)

  pub Asks-wait_for_l1_head : (block_num : ℕ) → Asks (wait_for_l1_head e block_num)
  unfolding wait_for_l1_head
  Asks-wait_for_l1_head block_num =
      Asks-bind _ _ (Asks-observe _)
        (λ ticks. Asks-bind _ _ (Asks-ask _) (λ head. Asks-wait_loop ticks block_num head))

  -- The output that is fetched is the rollup node's, of the supported version and for the block.
  abbrev pub IsOutput : ℕ → OutputResponse → Type 0
  IsOutput block o =
      (o.supported ≡ true) × (o.block_number ≡ block) × Answered (λ n. e.output_at_block n block) o

  pub fetch_output-IsOutput :
      (P : World → Type 0)
      → IsInert P
      → (block : ℕ) → Ensures P (fetch_output e block) (λ o w. P w × IsOutput block o) P
  unfolding fetch_output
  fetch_output-IsOutput P i block =
      Ensures-bind P (λ _. P) _ P _ _ (Asks-dial P i)
        (λ _. Ensures-bind P _ _ P _ _ (ask-Answered P i _) (λ o.
          Ensures-if _ _ P (not o.supported) _ _ (λ _. Ensures-raise _ _ _ _ (λ w h. h.0))
            (λ s.
              Ensures-if _ _ P (not (o.block_number == block)) _ _
                (λ _. Ensures-raise _ _ _ _ (λ w h. h.0))
                (λ b.
                  Ensures-pure _ _ _ o
                    (λ w h. (h.0, (ground (arith, s), ground (arith, b), h.1)))))))
