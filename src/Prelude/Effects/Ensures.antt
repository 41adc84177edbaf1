-- ===== src/Prelude/Effects/Ensures.antt =====
-- What a call leaves behind, by how it ended: one rule for each way to build a call.
use mathlib.Core.Path.{◌≡◌, refl}
use mathlib.Core.Bool.{Bool, true, false}
use mathlib.Core.List.{List, [], ◌∷◌}
use optimism_zkp.Prelude.Tests.{if◌then◌else◌}
use optimism_zkp.Prelude.Effects.{
  Error, Result, ok, err, Exec, pure, raise, gets, modify, continue, ◌>>=◌, catch, for_each,
}

-- `Q` of the returned value and the state, or `E` of the state beside an error.
abbrev pub Ends : {S A : Type 0} → (A → S → Type 0) → (S → Type 0) → Result A × S → Type 0
Ends Q E (ok a, s) = Q a s
Ends Q E (err x, s) = E s

-- From `P`, the call ends in `Q` or fails in `E`.
pub record Ensures {S A : Type 0} (P : S → Type 0) (m : Exec S A) (Q : A → S → Type 0)
    (E : S → Type 0) : Type 0 where
  pub at : (s : S) → P s → Ends Q E (m s)

-- The call keeps `P`, whether it returns or fails.
abbrev pub Keeps : {S A : Type 0} → (S → Type 0) → Exec S A → Type 0
Keeps P m = Ensures P m (λ _. P) P

module _ {S A : Type 0} (P : S → Type 0) where
  kept : (r : Result A × S) → Ends (λ _. P) P r → P r.1
  kept (ok a, s) h = h
  kept (err x, s) h = h

  -- What holds however the call ends.
  pub Ensures-state :
      (B : S → Type 0) (m : Exec S A) → Ensures B m (λ _. P) P → (s : S) → B s → P (m s).1
  Ensures-state B m h s k = kept (m s) (h.at s k)

  pub Keeps-state : (m : Exec S A) → Keeps P m → (s : S) → P s → P (m s).1
  Keeps-state m h s k = kept (m s) (h.at s k)

module _ {S A : Type 0} where
  pub Ensures-pure :
      (P : S → Type 0) (Q : A → S → Type 0) (E : S → Type 0) (a : A)
      → ((s : S) → P s → Q a s)
      → Ensures P (pure a) Q E
  unfolding pure
  Ensures-pure P Q E a h = record { at = h }

  pub Ensures-raise :
      (P : S → Type 0) (Q : A → S → Type 0) (E : S → Type 0) (x : Error)
      → ((s : S) → P s → E s)
      → Ensures P (raise x) Q E
  unfolding raise
  Ensures-raise P Q E x h = record { at = h }

  pub Ensures-gets :
      (P : S → Type 0) (Q : A → S → Type 0) (E : S → Type 0) (f : S → A)
      → ((s : S) → P s → Q (f s) s)
      → Ensures P (gets f) Q E
  unfolding gets
  Ensures-gets P Q E f h = record { at = h }

  Ends-weaken :
      (Q Q' : A → S → Type 0) (E E' : S → Type 0) (r : Result A) (s : S)
      → ((a : A) → Q a s → Q' a s)
      → (E s → E' s)
      → Ends Q E (r, s)
      → Ends Q' E' (r, s)
  Ends-weaken Q Q' E E' (ok a) s f g h = f a h
  Ends-weaken Q Q' E E' (err x) s f g h = g h

  -- A weaker claim from a stronger one.
  pub Ensures-weaken :
      (P : S → Type 0) (m : Exec S A) {Q Q' : A → S → Type 0} {E E' : S → Type 0}
      → Ensures P m Q E
      → ((a : A) (s : S) → Q a s → Q' a s)
      → ((s : S) → E s → E' s)
      → Ensures P m Q' E'
  Ensures-weaken P m {Q} {Q'} {E} {E'} k f g = record {
    at = λ s h. let (r, s') = m s in Ends-weaken Q Q' E E' r s' (λ a. f a s') (g s') (k.at s h);
  }

  pub Ensures-if :
      (P : S → Type 0) (Q : A → S → Type 0) (E : S → Type 0) (b : Bool) (m n : Exec S A)
      → (b ≡ true → Ensures P m Q E)
      → (b ≡ false → Ensures P n Q E)
      → Ensures P (if b then m else n) Q E
  Ensures-if P Q E true m n f g = f refl
  Ensures-if P Q E false m n f g = g refl

  Ends-frame :
      (X : Type 0) (Q : A → S → Type 0) (E : S → Type 0) (r : Result A) (s : S)
      → X
      → Ends Q E (r, s)
      → Ends (λ a s. Q a s × X) (λ s. E s × X) (r, s)
  Ends-frame X Q E (ok a) s x h = (h, x)
  Ends-frame X Q E (err y) s x h = (h, x)

  -- A fact that does not depend on the state stays true.
  pub Ensures-frame :
      (X : Type 0) (P : S → Type 0) (m : Exec S A) {Q : A → S → Type 0} {E : S → Type 0}
      → Ensures P m Q E
      → Ensures (λ s. P s × X) m (λ a s. Q a s × X) (λ s. E s × X)
  Ensures-frame X P m {Q} {E} k = record {
    at = λ s h. let (r, s') = m s in Ends-frame X Q E r s' h.1 (k.at s h.0);
  }

  -- A stronger beginning.
  pub Ensures-before :
      (P P' : S → Type 0) (m : Exec S A) {Q : A → S → Type 0} {E : S → Type 0}
      → ((s : S) → P' s → P s)
      → Ensures P m Q E
      → Ensures P' m Q E
  Ensures-before P P' m f k = record { at = λ s h. k.at s (f s h) }

  -- A fact that the state shows beforehand.
  pub Ensures-given :
      (P : S → Type 0) (m : Exec S A) (Q : A → S → Type 0) (E : S → Type 0) {X : Type 0}
      → ((s : S) → P s → X)
      → (X → Ensures P m Q E)
      → Ensures P m Q E
  Ensures-given P m Q E f k = record { at = λ s h. (k (f s h)).at s h }

module _ {S : Type 0} where
  pub Ensures-modify :
      (P : S → Type 0) (Q : Unit {0} → S → Type 0) (E : S → Type 0) (f : S → S)
      → ((s : S) → P s → Q tt (f s))
      → Ensures P (modify f) Q E
  unfolding modify
  Ensures-modify P Q E f h = record { at = h }

module _ {S A B : Type 0} where
  Ends-continue :
      (Q : A → S → Type 0) (R : B → S → Type 0) (E : S → Type 0) (f : A → Exec S B)
      → ((a : A) → Ensures (Q a) (f a) R E)
      → (r : Result A) (s : S) → Ends Q E (r, s)
      → Ends R E (continue f r s)
  Ends-continue Q R E f k (ok a) s h = (k a).at s h
  Ends-continue Q R E f k (err x) s h = h

  pub Ensures-bind :
      (P : S → Type 0) (Q : A → S → Type 0) (R : B → S → Type 0) (E : S → Type 0) (m : Exec S A)
      (f : A → Exec S B)
      → Ensures P m Q E
      → ((a : A) → Ensures (Q a) (f a) R E)
      → Ensures P (m >>= f) R E
  unfolding ◌>>=◌
  Ensures-bind P Q R E m f h k = record {
    at = λ s p. let (r, s') = m s in Ends-continue Q R E f k r s' (h.at s p);
  }

  Ends-catch :
      (Q : A → S → Type 0) (R : B → S → Type 0) (E E' : S → Type 0) (f : Result A → Exec S B)
      → ((a : A) → Ensures (Q a) (f (ok a)) R E')
      → ((x : Error) → Ensures E (f (err x)) R E')
      → (r : Result A) (s : S) → Ends Q E (r, s)
      → Ends R E' (f r s)
  Ends-catch Q R E E' f k l (ok a) s h = (k a).at s h
  Ends-catch Q R E E' f k l (err x) s h = (l x).at s h

  pub Ensures-catch :
      (P : S → Type 0) (Q : A → S → Type 0) (R : B → S → Type 0) (E E' : S → Type 0) (m : Exec S A)
      (f : Result A → Exec S B)
      → Ensures P m Q E
      → ((a : A) → Ensures (Q a) (f (ok a)) R E')
      → ((x : Error) → Ensures E (f (err x)) R E')
      → Ensures P (catch m f) R E'
  unfolding catch
  Ensures-catch P Q R E E' m f h k l = record {
    at = λ s p. let (r, s') = m s in Ends-catch Q R E E' f k l r s' (h.at s p);
  }

module _ {S A : Type 0} where
  -- A loop whose invariant speaks of the elements that are left.
  pub Ensures-for_each :
      (I : List A → S → Type 0) (E : S → Type 0) (body : A → Exec S (Unit {0}))
      → ((x : A) (xs : List A) → Ensures (I (x ∷ xs)) (body x) (λ _. I xs) E)
      → (xs : List A) → Ensures (I xs) (for_each xs body) (λ _. I []) E
  unfolding for_each
  Ensures-for_each I E body h [] = Ensures-pure (I []) (λ _. I []) E tt (λ s p. p)
  Ensures-for_each I E body h (x ∷ xs) =
      Ensures-bind (I (x ∷ xs)) (λ _. I xs) (λ _. I []) E (body x) _ (h x xs)
        (λ _. Ensures-for_each I E body h xs)
