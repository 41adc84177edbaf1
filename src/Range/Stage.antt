-- ===== src/Range/Stage.antt =====
-- Stage 1 of a poll, `GetRangeProofBoundaries` (range.go), under the invariant of the table.
use optimism_zkp.Prelude.{
  ℕ, ◌+◌, ◌^◌, ◌≤◌, ◌<◌, ◌≡◌, some, List, [], ◌∷◌, inl, inr, Bool-cases, leb, All, arith,
}
use optimism_zkp.Prelude.Effects.{pure, ◌>>=◌, for_each}
use optimism_zkp.Prelude.Effects.Ensures.{
  Ensures, Keeps, Ensures-pure, Ensures-bind, Ensures-weaken, Ensures-before, Ensures-given,
  Ensures-for_each,
}
use optimism_zkp.Request.{Request, span}
use optimism_zkp.World.{Env, World, Config, ScansRows, SyncStatus, ask}
use optimism_zkp.Db.Reads.{
  On, OnTable, Reads, Reads-observe, Reads-bind, Reads-if, Reads-pure, Reads-raise, Ensures-ask,
}
use optimism_zkp.Db.Claims.{one, less_room, IsWithin, IsTidy}
use optimism_zkp.Db.Claims.Held.{Held, new_entry-Held}
use optimism_zkp.Range.{
  Span, split_range_basic, dial_rollup_client, or_hangs, add_span, get_range_proof_boundaries,
}
use optimism_zkp.Range.Basic.{Tiles, Splits, split_range_basic-Splits, split_range_basic_behind}
use optimism_zkp.Range.Boundaries.{shares, from, shares-Tiles, HasRoomFrom, start-HasRoomFrom}

-- The size of a span is not 0, and no block number or sum comes near the end of SQLite's integers.
pub record InRange (e : Env) (cfg : Config) : Type 0 where
  pub size : 0 < cfg.max_block_range_per_span_proof
  pub size_small : cfg.max_block_range_per_span_proof < 2 ^ 63
  pub contract : (n b : ℕ) → e.latest_block_number n ≡ some b → b < 2 ^ 63
  pub finalized :
      (n : ℕ) (s : SyncStatus)
      → e.sync_status n ≡ some s
      → s.finalized_l2 + cfg.max_block_range_per_span_proof < 2 ^ 63

abbrev pub IsProperSpan : Span → Type 0
IsProperSpan s = (s.start < s.end) × (s.end < 2 ^ 63)

Tiles-proper :
    (size i : ℕ) (spans : List Span) (last : ℕ)
    → 0 < size
    → last < 2 ^ 63
    → Tiles size i spans last
    → (i ≤ last) × All IsProperSpan spans
Tiles-proper size i [] last p k t = (omega arith, tt)
Tiles-proper size i (s ∷ ss) last p k t =
    let rest = Tiles-proper size (i + size) ss last p k t.2 in
    (omega (arith, rest.0), ((omega (arith, t.0, t.1), omega (arith, t.1, rest.0)), rest.1))

-- Spans that may all be queued where there is room from block `i` on.
abbrev IsUsable : ℕ → List Span → Type 0
IsUsable i spans = All IsProperSpan spans × ((b : ℕ) → shares spans b ≤ from i b)

pub split-IsUsable :
    (size start end : ℕ)
    → 0 < size
    → size < 2 ^ 63
    → start < 2 ^ 63
    → end + size < 2 ^ 63
    → (spans : List Span) × (split_range_basic size start end ≡ some spans) × IsUsable start spans
split-IsUsable size start end p q h k = elim (Bool-cases (leb start end)) [
  | inl t ↦ fits (split_range_basic-Splits size start end p (omega arith) (ground arith))
  | inr t ↦ (
    [],
    split_range_basic_behind size start end (omega arith) (ground arith),
    (tt, λ b. omega arith),
  )
]
  where
    fits :
        Splits size end start (split_range_basic size start end)
        → (spans : List Span) × (split_range_basic size start end ≡ some spans)
          × IsUsable start spans
    fits (spans, last, e, tiles, below, short) = (
      spans,
      e,
      (
        (Tiles-proper size start spans last p (omega arith) tiles).1,
        λ b. shares-Tiles size start spans last b tiles,
      ),
    )

module _ (e : Env) where
  queued :
      (spans : List Span)
      → Ensures
          (λ w. On (IsWithin one (shares spans)) w × All IsProperSpan spans)
          (for_each spans (add_span e))
          (λ _. On IsTidy)
          (On IsTidy)
  queued spans =
      Ensures-weaken _ (for_each spans (add_span e))
        (Ensures-for_each (λ xs w. On (IsWithin one (shares xs)) w × All IsProperSpan xs)
          (On IsTidy) (add_span e) step spans)
        (λ a s k. k.0) (λ s k. k)
    where
      tidy : (xs : List Span) (s : World) → On (IsWithin one (shares xs)) s → On IsTidy s
      tidy xs s k = less_room (λ b. omega arith) k

      step :
          (x : Span) (xs : List Span)
          → Ensures
              (λ w. On (IsWithin one (shares (x ∷ xs))) w × All IsProperSpan (x ∷ xs))
              (add_span e x)
              (λ _ w. On (IsWithin one (shares xs)) w × All IsProperSpan xs)
              (On IsTidy)
      step x xs =
          Ensures-given _ (add_span e x) _ _ {X = IsProperSpan x × All IsProperSpan xs} (λ s k. k.1)
            (λ proper.
              Ensures-before (On (Held one (shares (x ∷ xs)) [])) _ (add_span e x)
                (λ s k. record { within = k.0; stored = tt; distinct = tt })
                (Ensures-weaken _ (add_span e x)
                  (new_entry-Held e one (shares xs) [] span x.start x.end
                    ((λ _. proper.0.0), proper.0.1))
                  (λ a s k. (k.within, proper.1)) (λ s k. tidy (x ∷ xs) s k.within)))

  pub Reads-dial : Reads (dial_rollup_client e)
  unfolding dial_rollup_client
  Reads-dial = search (Reads-bind, Reads-observe, Reads-if, Reads-pure, Reads-raise)

module _ (e : Env) (scans : ScansRows e) (cfg : Config) (in_range : InRange e cfg) where
  queue_all :
      (i finalized : ℕ)
      → (i < 2 ^ 63) × (finalized + cfg.max_block_range_per_span_proof < 2 ^ 63)
      → Ensures
          (On (IsWithin one (from i)))
          (or_hangs e (split_range_basic cfg.max_block_range_per_span_proof i finalized)
            >>= λ spans. for_each spans (add_span e))
          (λ _. On IsTidy)
          (On IsTidy)
  queue_all i finalized h =
      let (spans, same, usable) =
        split-IsUsable cfg.max_block_range_per_span_proof i finalized in_range.size
          in_range.size_small h.0 h.1 in
      rw same (
        Ensures-bind (On (IsWithin one (from i)))
          (λ l w. On (IsWithin one (shares l)) w × All IsProperSpan l) _ _ (pure spans) _
          (Ensures-pure _ _ _ spans (λ s k. (less_room usable.1 k, usable.0))) (queued e))

  -- Whatever fails or is answered, stage 1 keeps the table tidy.
  pub get_range_proof_boundaries-IsTidy : Keeps (On IsTidy) (get_range_proof_boundaries e cfg)
  unfolding get_range_proof_boundaries
  get_range_proof_boundaries-IsTidy =
      Ensures-bind _ _ _ _ _ _ (start-HasRoomFrom e in_range.contract scans) (λ i.
        Ensures-bind _ (λ _. On (HasRoomFrom i)) _ _ (dial_rollup_client e) _
          (Ensures-weaken _ (dial_rollup_client e) (Reads-dial e (OnTable (HasRoomFrom i)))
            (λ a s k. k) (λ s k. lost i k))
          (λ _.
            Ensures-bind _ _ _ _ (ask e.sync_status) _
              (Ensures-weaken _ (ask e.sync_status)
                (Ensures-ask (OnTable (HasRoomFrom i)) e.sync_status) (λ a s k. k)
                (λ s k. lost i k))
              (λ status.
                Ensures-given _ _ _ _
                  {X = (i < 2 ^ 63)
                    × (status.finalized_l2 + cfg.max_block_range_per_span_proof < 2 ^ 63)}
                  (λ w k. (k.0.1, in_range.finalized k.1.0 status k.1.1))
                  (λ h. Ensures-before _ _ _ (λ s k. k.0.0) (queue_all i status.finalized_l2 h)))))
    where
      lost : {n : ℕ} {rows : List Request} (i : ℕ) → HasRoomFrom i n rows → IsTidy n rows
      lost i k = less_room (λ b. omega arith) k.0
