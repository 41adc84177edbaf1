-- ===== src/Db/Ids.antt =====
-- Keys of the table: given out in rising order, so an update by key touches one row.
use optimism_zkp.Prelude.{
  ℕ, ◌+◌, ◌≤◌, ◌<◌, ◌≡◌, ◌≢◌, refl, ap, subst, Bool, true, false, some, List, [], ◌∷◌, inl, inr,
  ◌==◌, one_if, Bool-cases, All, count, arith,
}
use optimism_zkp.Request.{Request}
use optimism_zkp.Db.Table.{update_rows, find}

-- The keys fall along the list, and are below `n`.
abbrev pub Ids : ℕ → List Request → Type 0
Ids n [] = Unit
Ids n (r ∷ rs) = (r.id < n) × Ids r.id rs

-- An update that leaves the keys alone.
abbrev pub KeepsId : (Request → Request) → Type 0
KeepsId f = (r : Request) → (f r).id ≡ r.id

-- The first row is the one that is found.
pub find_here :
    (i : ℕ) (x : Request) (rows : List Request) (r : Request)
    → x.id == i ≡ true
    → find i (x ∷ rows) ≡ some r
    → x ≡ r
unfolding find
find_here i x rows r e h = let k : some x ≡ some r = rw e at h in cc

pub find_later :
    (i : ℕ) (x : Request) (rows : List Request) (r : Request)
    → x.id == i ≡ false
    → find i (x ∷ rows) ≡ some r
    → find i rows ≡ some r
unfolding find
find_later i x rows r e h = rw e at h

pub find-All :
    (P : Request → Type 0) (i : ℕ) (rows : List Request) (r : Request)
    → All P rows
    → find i rows ≡ some r
    → P r
unfolding find
find-All P i [] r a h = cc
find-All P i (x ∷ rows) r a h = elim (Bool-cases (x.id == i)) [
  | inl e ↦ subst P (find_here i x rows r e h) a.0
  | inr e ↦ find-All P i rows r a.1 (find_later i x rows r e h)
]

pub find-id : (i : ℕ) (rows : List Request) (r : Request) → find i rows ≡ some r → r.id ≡ i
unfolding find
find-id i [] r h = cc
find-id i (x ∷ rows) r h = elim (Bool-cases (x.id == i)) [
  | inl e ↦ subst (λ y. y.id ≡ i) (find_here i x rows r e h) (ground arith)
  | inr e ↦ find-id i rows r (find_later i x rows r e h)
]

pub find-lt :
    (n i : ℕ) (rows : List Request) (r : Request) → Ids n rows → find i rows ≡ some r → i < n
unfolding find
find-lt n i [] r k h = cc
find-lt n i (x ∷ rows) r k h = elim (Bool-cases (x.id == i)) [
  | inl e ↦ ground arith
  | inr e ↦ omega (arith, find-lt x.id i rows r k.1 (find_later i x rows r e h))
]

pub Ids-update_rows :
    (n : ℕ) (p : Request → Bool) (f : Request → Request) (rows : List Request)
    → KeepsId f
    → Ids n rows
    → Ids n (update_rows p f rows)
unfolding update_rows
Ids-update_rows n p f [] k h = tt
Ids-update_rows n p f (x ∷ rows) k h = elim (Bool-cases (p x)) [
  | inl e ↦ rw (e, k x) (h.0, Ids-update_rows x.id p f rows k h.1)
  | inr e ↦ rw e (h.0, Ids-update_rows x.id p f rows k h.1)
]

-- No row has a key that was not given out.
pub update_rows_absent :
    (n i : ℕ) (f : Request → Request) (rows : List Request)
    → Ids n rows
    → n ≤ i
    → update_rows (λ r. r.id == i) f rows ≡ rows
unfolding update_rows
update_rows_absent n i f [] h k = refl
update_rows_absent n i f (x ∷ rows) h k = elim (Bool-cases (x.id == i)) [
  | inl e ↦ absurd (ground arith)
  | inr e ↦ rw e (ap (λ l. x ∷ l) (update_rows_absent x.id i f rows h.1 (omega arith)))
]

-- An update by key trades one row for its new form.
pub count-update_rows :
    (q : Request → Bool) (n i : ℕ) (f : Request → Request) (rows : List Request) (r : Request)
    → Ids n rows
    → find i rows ≡ some r
    → count q (update_rows (λ x. x.id == i) f rows) + one_if (q r) ≡ count q rows + one_if (q (f r))
unfolding update_rows find count
count-update_rows q n i f [] r h k = cc
count-update_rows q n i f (x ∷ rows) r h k = elim (Bool-cases (x.id == i)) [
  | inl e ↦
      rw (e, update_rows_absent x.id i f rows h.1 (ground arith), find_here i x rows r e k)
        (omega arith)
  | inr e ↦
      rw e (omega (arith, count-update_rows q x.id i f rows r h.1 (find_later i x rows r e k)))
]

pub find-update_rows_ne :
    (i j : ℕ) (f : Request → Request) (rows : List Request)
    → KeepsId f
    → i ≢ j
    → find j (update_rows (λ x. x.id == i) f rows) ≡ find j rows
unfolding update_rows find
find-update_rows_ne i j f [] k ne = refl
find-update_rows_ne i j f (x ∷ rows) k ne = ground (arith, k x, find-update_rows_ne i j f rows k ne)

-- An update that never makes a row pass the test does not raise its count.
pub count-update_rows-le :
    (q p : Request → Bool) (f : Request → Request) (rows : List Request)
    → ((r : Request) → one_if (q (f r)) ≤ one_if (q r))
    → count q (update_rows p f rows) ≤ count q rows
unfolding update_rows count
count-update_rows-le q p f [] h = omega arith
count-update_rows-le q p f (x ∷ rows) h = elim (Bool-cases (p x)) [
  | inl e ↦ rw e (omega (arith, h x, count-update_rows-le q p f rows h))
  | inr e ↦ rw e (omega (arith, count-update_rows-le q p f rows h))
]
