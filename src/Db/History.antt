-- ===== src/Db/History.antt =====
-- What becomes of the rows of the table over time: under insertions and updates (db/db.go).
pub mod Calls
pub mod Fulfil
use optimism_zkp.Prelude.{
  ℕ, suc, if◌then◌else◌, ◌+◌, ◌≤◌, ◌<◌, ◌≡◌, refl, ap, sym, subst, ◌∙◌, Bool, true, false, Option,
  none, some, List, [], ◌∷◌, inl, inr, ◌==◌, Bool-cases, All, All-map, arith,
}
use optimism_zkp.Request.{Bytes, Request, ProofType}
use optimism_zkp.Db.Table.{new_row, update_rows, find}
use optimism_zkp.Db.Ids.{Ids, KeepsId, Ids-update_rows, find-lt, find_here, find_later}

-- The later form of a row: the same key, type, range and creation time, and the proof, if it had one.
pub record Evolves (r r' : Request) : Type 0 where
  pub id : r'.id ≡ r.id
  pub type : r'.type ≡ r.type
  pub start : r'.start_block ≡ r.start_block
  pub end : r'.end_block ≡ r.end_block
  pub added : r'.request_added_time ≡ r.request_added_time
  pub proof : (p : Bytes) → r.proof ≡ some p → r'.proof ≡ some p

pub Evolves-refl : (r : Request) → Evolves r r
Evolves-refl r = record {
  id = refl;
  type = refl;
  start = refl;
  end = refl;
  added = refl;
  proof = λ p h. h;
}

Evolves-trans : (r s t : Request) → Evolves r s → Evolves s t → Evolves r t
Evolves-trans r s t h k = record {
  id = k.id ∙ h.id;
  type = k.type ∙ h.type;
  start = k.start ∙ h.start;
  end = k.end ∙ h.end;
  added = k.added ∙ h.added;
  proof = λ p there. k.proof p (h.proof p there);
}

-- The second table holds each row of the first in a later form, and new rows in front.
pub data Grows : List Request → List Request → Type 0 where
  same : Grows [] []
  added : (r : Request) {rows later : List Request} → Grows rows later → Grows rows (r ∷ later)
  kept :
      (r r' : Request) {rows later : List Request}
      → Evolves r r'
      → Grows rows later
      → Grows (r ∷ rows) (r' ∷ later)

pub Grows-refl : (rows : List Request) → Grows rows rows
Grows-refl [] = same
Grows-refl (r ∷ rows) = kept r r (Evolves-refl r) (Grows-refl rows)

-- A rewritten row is a later form.
rewritten :
    (b : Bool) (r r' : Request) → (b ≡ true → Evolves r r') → Evolves r (if b then r' else r)
rewritten true r r' h = h refl
rewritten false r r' h = Evolves-refl r

pub Grows-update_rows :
    (p : Request → Bool) (f : Request → Request) {rows later : List Request}
    → Grows rows later
    → All (λ r. p r ≡ true → Evolves r (f r)) later
    → Grows rows (update_rows p f later)
unfolding update_rows
Grows-update_rows p f same h = same
Grows-update_rows p f (added r g) h = added _ (Grows-update_rows p f g h.1)
Grows-update_rows p f (kept r r' e g) h =
    kept r _ (Evolves-trans r r' _ e (rewritten (p r') r' (f r') h.0)) (Grows-update_rows p f g h.1)

-- The table from some point on: keys rise, and the rows of that point are still there.
pub record IsHistory (past : List Request) (n : ℕ) (rows : List Request) : Type 0 where
  pub ids : Ids n rows
  pub grown : Grows past rows

pub new_row-IsHistory :
    (past : List Request) (n now : ℕ) (type : ProofType) (start end : ℕ) (rows : List Request)
    → IsHistory past n rows
    → IsHistory past (suc n) (new_row n now type start end ∷ rows)
new_row-IsHistory past n now type start end rows h = record {
  ids = (omega arith, h.ids);
  grown = added _ h.grown;
}

pub update_rows-IsHistory :
    (past : List Request) (n : ℕ) (p : Request → Bool) (f : Request → Request) (rows : List Request)
    → KeepsId f
    → All (λ r. p r ≡ true → Evolves r (f r)) rows
    → IsHistory past n rows
    → IsHistory past n (update_rows p f rows)
update_rows-IsHistory past n p f rows keeps evolves h = record {
  ids = Ids-update_rows n p f rows keeps h.ids;
  grown = Grows-update_rows p f h.grown evolves;
}

-- The later form of a row is found under its key.
pub find-Grows :
    (n k : ℕ) (r : Request) {rows later : List Request}
    → Grows rows later
    → Ids n later
    → find k rows ≡ some r
    → (r' : Request) × (find k later ≡ some r') × Evolves r r'
unfolding find
find-Grows n k r same ids there = cc
find-Grows n k r (added x {later = later} g) ids there =
    let (r', found, e) = find-Grows x.id k r g ids.1 there in
    let older : x.id == k ≡ false = ground (arith, find-lt x.id k later r' ids.1 found) in
    (r', rw older found, e)
find-Grows n k r (kept x x' {rows = rows} e g) ids there = elim (Bool-cases (x.id == k)) [
  | inl here ↦ (
    x',
    (let again : x'.id == k ≡ true = rw e.id here in rw again refl),
    subst (λ y. Evolves y x') (find_here k x rows r here there) e,
  )
  | inr past ↦
      let (r', found, later_form) =
        find-Grows x'.id k r g ids.1 (find_later k x rows r past there) in
      (r', (let again : x'.id == k ≡ false = rw e.id past in rw again found), later_form)
]
