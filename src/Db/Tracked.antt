-- ===== src/Db/Tracked.antt =====
-- The table under goroutines that hold copies of its rows: what every statement of db.go keeps, also
-- where a copy is out of date.
pub mod Calls
pub mod Rows
use optimism_zkp.Prelude.{
  ℕ, suc, ◌+◌, ◌≤◌, ◌<◌, ◌≡◌, refl, sym, ap, ◌∙◌, Bool, true, false, some, List, [], ◌∷◌, ◌++◌, inl,
  inr, Bool-cases, ◌==◌, leb, ltb, if◌then◌else◌, one_if, count, All, All-map, All-both, arith,
}
use optimism_zkp.Request.{Request, ProofType, span, failed, same_type}
use optimism_zkp.Db.{id_is, is_type, has_status}
use optimism_zkp.Db.Table.{new_row, update_rows, find}
use optimism_zkp.Db.Ids.{Ids, KeepsId, Ids-update_rows, update_rows_absent, find-lt}
use optimism_zkp.Db.Claims.{claims, claims_of, share, nought, IsProper}
use optimism_zkp.Db.Claims.Queried.{rows-find}

-- The row with the key of the copy has its type and its range; its status may have moved on.
abbrev pub IsCopyOf : Request → Request → Type 0
IsCopyOf r x =
    x.id ≡ r.id → (x.type ≡ r.type) × (x.start_block ≡ r.start_block) × (x.end_block ≡ r.end_block)

-- A request that was read from the table at some time.
abbrev pub IsKnown : ℕ → List Request → Request → Type 0
IsKnown n rows r = (r.id < n) × IsProper r × All (IsCopyOf r) rows

-- A sound table in which each block `b` has at least `least b` claims, but for the `owed b` that are
-- about to be made good, with the requests of the pool and those handed over known.
pub record IsTracked (least owed : ℕ → ℕ) (pool : List Request) (n : ℕ)
    (rows spawned : List Request) : Type 0 where
  pub ids : Ids n rows
  pub ranges : All IsProper rows
  pub holds : (b : ℕ) → least b ≤ claims_of b rows + owed b
  pub known : All (IsKnown n rows) pool
  pub handed : All (IsKnown n rows) spawned

-- An update that leaves the key, the type and the range alone.
pub record Relabels (f : Request → Request) : Type 0 where
  pub id : (r : Request) → (f r).id ≡ r.id
  pub type : (r : Request) → (f r).type ≡ r.type
  pub start : (r : Request) → (f r).start_block ≡ r.start_block
  pub end : (r : Request) → (f r).end_block ≡ r.end_block

All-update_rows :
    (P : Request → Type 0) (p : Request → Bool) (f : Request → Request) (rows : List Request)
    → ((r : Request) → P r → P (f r))
    → All P rows
    → All P (update_rows p f rows)
unfolding update_rows
All-update_rows P p f [] h k = tt
All-update_rows P p f (x ∷ rows) h k = elim (Bool-cases (p x)) [
  | inl e ↦ rw e (h x k.0, All-update_rows P p f rows h k.1)
  | inr e ↦ rw e (k.0, All-update_rows P p f rows h k.1)
]

insert-IsKnown :
    (n now : ℕ) (type : ProofType) (start end : ℕ) (rows : List Request) (r : Request)
    → IsKnown n rows r
    → IsKnown (suc n) (new_row n now type start end ∷ rows) r
insert-IsKnown n now type start end rows r k =
    (omega (arith, k.0), k.1, (λ e. absurd (omega (arith, k.0)), k.2))

relabel-IsKnown :
    (p : Request → Bool) (f : Request → Request) (n : ℕ) (rows : List Request) (r : Request)
    → Relabels f
    → IsKnown n rows r
    → IsKnown n (update_rows p f rows) r
relabel-IsKnown p f n rows r h k = (
  k.0,
  k.1,
  All-update_rows (IsCopyOf r) p f rows
      (λ x c e.
        let same = c (sym (h.id x) ∙ e) in
        (h.type x ∙ same.0, h.start x ∙ same.1, h.end x ∙ same.2))
      k.2,
)

one_row :
    (rows : List Request) (q x : Request)
    → find q.id rows ≡ some q
    → find x.id rows ≡ some x
    → IsCopyOf q x
one_row rows q x f g e =
    let both : some x ≡ some q = sym g ∙ ap (λ i. find i rows) e ∙ f in
    let same : x ≡ q = cc in
    (ap (λ r. r.type) same, ap (λ r. r.start_block) same, ap (λ r. r.end_block) same)

-- A row of the table is known.
pub rows-IsKnown :
    (n : ℕ) (rows : List Request) → Ids n rows → All IsProper rows → All (IsKnown n rows) rows
rows-IsKnown n rows h k =
    let found = rows-find n rows h in
    All-map _ _ rows
      (λ q f.
        (find-lt n q.id rows q h f.0, f.1, All-map _ _ rows (λ x g. one_row rows q x f.0 g) found))
      (All-both _ _ rows found k)

relabel-IsProper :
    (f : Request → Request) → Relabels f → (r : Request) → IsProper r → IsProper (f r)
relabel-IsProper f h r k = rw (h.type r, h.start r, h.end r) k

count-update_rows-ge :
    (q p : Request → Bool) (f : Request → Request) (rows : List Request)
    → ((r : Request) → one_if (q r) ≤ one_if (q (f r)))
    → count q rows ≤ count q (update_rows p f rows)
unfolding update_rows count
count-update_rows-ge q p f [] h = omega arith
count-update_rows-ge q p f (x ∷ rows) h = elim (Bool-cases (p x)) [
  | inl e ↦ rw e (omega (arith, h x, count-update_rows-ge q p f rows h))
  | inr e ↦ rw e (omega (arith, count-update_rows-ge q p f rows h))
]

module _ {least owed : ℕ → ℕ} {pool : List Request} {n : ℕ} {rows spawned : List Request} where
  -- A relabelling that takes no claim away.
  pub relabel-IsTracked :
      (p : Request → Bool) (f : Request → Request)
      → Relabels f
      → ((b : ℕ) (r : Request) → one_if (claims b r) ≤ one_if (claims b (f r)))
      → IsTracked least owed pool n rows spawned
      → IsTracked least owed pool n (update_rows p f rows) spawned
  relabel-IsTracked p f h more k = record {
    ids = Ids-update_rows n p f rows h.id k.ids;
    ranges = All-update_rows IsProper p f rows (relabel-IsProper f h) k.ranges;
    holds = λ b. omega (arith, k.holds b, count-update_rows-ge (claims b) p f rows (more b));
    known = All-map _ _ pool (λ r. relabel-IsKnown p f n rows r h) k.known;
    handed = All-map _ _ spawned (λ r. relabel-IsKnown p f n rows r h) k.handed;
  }

  -- A new entry makes its share good.
  pub insert-IsTracked :
      (now : ℕ) (type : ProofType) (start end : ℕ)
      → IsProper (new_row n now type start end)
      → IsTracked least (λ b. share type start end b + owed b) pool n rows spawned
      → IsTracked least owed pool (suc n) (new_row n now type start end ∷ rows) spawned
  unfolding count
  insert-IsTracked now type start end p k = record {
    ids = (omega arith, k.ids);
    ranges = (p, k.ranges);
    holds = λ b. ground (arith, k.holds b);
    known = All-map _ _ pool (insert-IsKnown n now type start end rows) k.known;
    handed = All-map _ _ spawned (insert-IsKnown n now type start end rows) k.handed;
  }

  -- What is owed may grow.
  pub owe_more :
      {owed' : ℕ → ℕ}
      → ((b : ℕ) → owed b ≤ owed' b)
      → IsTracked least owed pool n rows spawned
      → IsTracked least owed' pool n rows spawned
  owe_more h k = record {
    ids = k.ids;
    ranges = k.ranges;
    holds = λ b. omega (arith, k.holds b, h b);
    known = k.known;
    handed = k.handed;
  }

share_bound :
    (b : ℕ) (r x : Request)
    → (x.type ≡ r.type) × (x.start_block ≡ r.start_block) × (x.end_block ≡ r.end_block)
    → one_if (claims b x) ≤ share r.type r.start_block r.end_block b
share_bound b r x h = rw (h.0, h.1, h.2) (ground arith)

-- A status written by key takes away the share of the request that has the key at most.
lost_share :
    (b n : ℕ) (f : Request → Request) (rows : List Request) (r : Request)
    → Ids n rows
    → All (IsCopyOf r) rows
    → claims_of b rows
      ≤ claims_of b (update_rows (λ x. id_is x r.id) f rows)
        + share r.type r.start_block r.end_block b
unfolding update_rows count
lost_share b n f [] r h k = omega arith
lost_share b n f (x ∷ rows) r h k = elim (Bool-cases (x.id == r.id)) [
  | inl e ↦
      let same : x.id ≡ r.id = ground arith in
      rw (e, update_rows_absent x.id r.id f rows h.1 (omega arith))
        (omega (arith, share_bound b r x (k.0 same)))
  | inr e ↦ rw e (omega (arith, lost_share b x.id f rows r h.1 k.1))
]

-- What such a write takes away is owed from then on.
pub write-IsTracked :
    (least : ℕ → ℕ) (pool : List Request) (n : ℕ) (rows spawned : List Request)
    (f : Request → Request) (r : Request)
    → Relabels f
    → IsKnown n rows r
    → IsTracked least nought pool n rows spawned
    → IsTracked least
        (λ b. share r.type r.start_block r.end_block b + nought b)
        pool
        n
        (update_rows (λ x. id_is x r.id) f rows)
        spawned
write-IsTracked least pool n rows spawned f r h known k = record {
  ids = Ids-update_rows n _ f rows h.id k.ids;
  ranges = All-update_rows IsProper _ f rows (relabel-IsProper f h) k.ranges;
  holds = λ b. omega (arith, k.holds b, lost_share b n f rows r k.ids known.2);
  known = All-map _ _ pool (λ q. relabel-IsKnown _ f n rows q h) k.known;
  handed = All-map _ _ spawned (λ q. relabel-IsKnown _ f n rows q h) k.handed;
}
