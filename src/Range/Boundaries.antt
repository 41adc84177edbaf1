-- ===== src/Range/Boundaries.antt =====
-- `GetRangeProofBoundaries` (range.go): the room for new spans behind every request of the table.
use optimism_zkp.Prelude.{
  ℕ, suc, ◌+◌, ◌^◌, ◌≤◌, ◌<◌, ◌≡◌, sym, ◌∙◌, Bool, true, some, List, [], ◌∷◌, inl, inr, Bool-cases,
  ltb, leb, one_if, count, count-eq-zero, count-sort_by, count-select, All, All-map, All-select,
  All-sort_by, IsSortedBy, select, sort_by, descending, sort_by-IsSortedBy-descending, arith,
}
use optimism_zkp.Prelude.Effects.{pure, ◌>>=◌, catch}
use optimism_zkp.Prelude.Effects.Ensures.{Ends, Ensures, Ensures-weaken}
use optimism_zkp.Request.{Request, span}
use optimism_zkp.World.{Env, World, ScansRows, statement, ask}
use optimism_zkp.Db.{first_row, query, get_latest_end_block}
use optimism_zkp.Db.Reads.{On, OnTable, Ensures-ask}
use optimism_zkp.Db.Claims.{claims, claims_of, share, one, less_room, IsWithin, IsTidy}
use optimism_zkp.Range.{Span, or_latest_block}
use optimism_zkp.Range.Basic.{Tiles}

-- What the spans claim of a block.
abbrev pub shares : List Span → ℕ → ℕ
shares [] b = 0
shares (s ∷ ss) b = share span s.start s.end b + shares ss b

-- Room for one claim on every block from `i` on.
abbrev pub from : ℕ → ℕ → ℕ
from i b = one_if (leb i b)

-- Spans that line up claim no block twice, and none before their start.
pub shares-Tiles :
    (size i : ℕ) (spans : List Span) (last : ℕ) (b : ℕ)
    → Tiles size i spans last
    → shares spans b ≤ from i b
shares-Tiles size i [] last b t = omega arith
shares-Tiles size i (s ∷ ss) last b t = ground (arith, shares-Tiles size (i + size) ss last b t.2)

pub count-imp-le :
    (p q : Request → Bool) (rows : List Request)
    → ((r : Request) → p r ≡ true → q r ≡ true)
    → count p rows ≤ count q rows
unfolding count
count-imp-le p q [] h = omega arith
count-imp-le p q (x ∷ rows) h = ground (arith, h x, count-imp-le p q rows h)

-- Rows that are sorted by end block, descending, end no later than the first.
pub first_is_last :
    (r : Request) (l : List Request)
    → IsSortedBy (descending (λ (x : Request). x.end_block)) (r ∷ l)
    → count (λ x. ltb r.end_block x.end_block) (r ∷ l) ≡ 0
first_is_last r l h =
    count-eq-zero (λ x. ltb r.end_block x.end_block) (r ∷ l)
      (ground arith, All-map _ _ l (λ x k. ground arith) h.0)

-- No row of the table claims a block from the highest end block on.
pub unclaimed :
    (rows : List Request) (top : ℕ)
    → count (λ x. ltb top x.end_block) rows ≡ 0
    → (b : ℕ) → top ≤ b
    → claims_of b rows ≡ 0
unclaimed rows top h b k =
    omega (arith, count-imp-le (claims b) (λ x. ltb top x.end_block) rows (λ r c. ground arith))

-- The block to start from has room for a claim on it and on all behind it, and is in range.
abbrev pub HasRoomFrom : ℕ → ℕ → List Request → Type 0
HasRoomFrom i n rows = IsWithin one (from i) n rows × (i < 2 ^ 63)

module _ (e : Env)
    (in_range : (n : ℕ) (b : ℕ) → e.latest_block_number n ≡ some b → b < 2 ^ 63) where
  latest-HasRoomFrom :
      Ensures
        (On (IsWithin one one))
        (ask e.latest_block_number)
        (λ i. On (HasRoomFrom i))
        (On IsTidy)
  latest-HasRoomFrom =
      Ensures-weaken _ _ (Ensures-ask (OnTable (IsWithin one one)) e.latest_block_number)
        (λ i s k. (less_room (λ b. ground arith) k.0, in_range k.1.0 i k.1.1))
        (λ s k. less_room (λ b. omega arith) k)

  -- What the rows in the order of the query say of the start.
  start_after :
      (l : List Request)
      → IsSortedBy (descending (λ (x : Request). x.end_block)) l
      → (w : World) → On IsTidy w
      → ((p : Request → Bool) → count p l ≡ count p w.rows)
      → All (λ r. r.end_block < 2 ^ 63) l
      → Ends
          (λ i. On (HasRoomFrom i))
          (On IsTidy)
          (catch (first_row l >>= λ r. pure r.end_block) (or_latest_block e) w)
  unfolding catch or_latest_block ◌>>=◌ count
  start_after [] o w h c a =
      latest-HasRoomFrom.at w
        (record { ids = h.ids; ranges = h.ranges; fits = λ b. omega (arith, c (claims b)) })
  start_after (r ∷ l) o w h c a = (
    record {
      ids = h.ids;
      ranges = h.ranges;
      fits = λ b. elim (Bool-cases (leb r.end_block b)) [
        | inl k ↦ rw k (
            omega (
              arith,
              unclaimed w.rows r.end_block
                  (sym (c (λ x. ltb r.end_block x.end_block)) ∙ first_is_last r l o) b
                  (ground arith),
            ))
        | inr k ↦ rw k (h.fits b)
      ];
    },
    a.0,
  )

  pub start-HasRoomFrom :
      ScansRows e
      → Ensures
          (On IsTidy)
          (catch (get_latest_end_block e) (or_latest_block e))
          (λ i. On (HasRoomFrom i))
          (On IsTidy)
  unfolding catch get_latest_end_block query statement or_latest_block ◌>>=◌
  start-HasRoomFrom scans = record {
    at = λ w h. elim (Bool-cases (e.fault w.calls)) [
      | inl f ↦ rw f h
      | inr f ↦ rw f (unfold_less w h)
    ];
  }
    where
      rows_of : World → List Request
      rows_of w =
          sort_by (descending (λ r. r.end_block)) (e.scan w.calls (select (λ _. true) w.rows))

      unfold_less :
          (w : World)
          → On IsTidy w
          → Ends
              (λ i. On (HasRoomFrom i))
              (On IsTidy)
              (catch
                (first_row (rows_of w) >>= λ r. pure r.end_block)
                (or_latest_block e)
                (record w { calls = suc w.calls }))
      unfold_less w h =
          start_after (rows_of w) (sort_by-IsSortedBy-descending (λ (r : Request). r.end_block) _)
            (record w { calls = suc w.calls }) h
            (λ p.
              count-sort_by p (descending (λ r. r.end_block)) _
              ∙ scans.each w.calls p _
              ∙ count-select p (λ _. true) w.rows)
            (All-sort_by (λ r. r.end_block < 2 ^ 63) _ _
              (scans.rows w.calls _ _
                (All-select _ _ w.rows (All-map _ _ w.rows (λ r k. k.1) h.ranges))))
