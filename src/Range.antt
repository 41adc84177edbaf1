-- ===== src/Range.antt =====
-- Block ranges for span proofs: proposer/op/proposer/range.go.
pub mod Basic
pub mod Heads
pub mod Boundaries
pub mod Stage
pub mod Tracked
use optimism_zkp.Prelude.{
  ℕ, zero, suc, ◌+◌, ◌-◌, ◌%◌, min, Bool, true, false, Option, none, some, List, [], ◌∷◌, ◌++◌, ltb,
  leb, if◌then◌else◌, sort_by, u64,
}
use optimism_zkp.Prelude.Effects.{
  Error, Result, ok, err, pure, raise, ◌>>=◌, ◌>>◌, catch, for_each, rpc_failed, not_found,
  no_safe_head, hangs,
}
use optimism_zkp.Request.{span}
use optimism_zkp.World.{Env, World, Config, M, SyncStatus, OutputResponse, ask, observe}
use optimism_zkp.Db.{new_entry, get_latest_end_block}

pub record Span : Type 0 where
  pub start : ℕ
  pub end : ℕ

abbrev pub span_then : Span → Option (List Span) → Option (List Span)
span_then s none = none
span_then s (some ss) = some (s ∷ ss)

-- The loop of `SplitRangeBasic` from block `i`; `none` when the fuel is used up. The sum wraps around.
unfoldable pub split_from : ℕ → ℕ → ℕ → ℕ → Option (List Span)
split_from zero size end i = none
split_from (suc fuel) size end i =
    let next = (i + size) % u64 in
    let rest = span_then (record { start = i; end = next }) (split_from fuel size end next) in
    if leb next end then rest else some []

-- Each round goes up by at least one block unless the size is 0 or the sum wraps.
unfoldable pub split_range_basic : ℕ → ℕ → ℕ → Option (List Span)
unfolding split_from
split_range_basic size start end = split_from (end + 1) size end start

-- The inner loop of `SplitRangeBasedOnSafeHeads`, with the span behind it: from `range_start` to `stop`.
unfoldable pub split_up_to : ℕ → ℕ → ℕ → ℕ → Option (List Span)
split_up_to zero size stop range_start = none
split_up_to (suc fuel) size stop range_start =
    let next = (range_start + size) % u64 in
    let rest =
      span_then (record { start = range_start; end = next }) (split_up_to fuel size stop next) in
    if ltb next stop then rest else some (record { start = range_start; end = stop } ∷ [])

abbrev pub prepend : List Span → Option (List Span) → Option (List Span)
prepend xs none = none
prepend xs (some ys) = some (xs ++ ys)

abbrev pub followed_by : Option (List Span) → Option (List Span) → Option (List Span)
followed_by none rest = none
followed_by (some xs) rest = prepend xs rest

-- The loop over the sorted safe heads.
unfoldable pub split_at_heads : ℕ → ℕ → ℕ → List ℕ → Option (List Span)
unfolding split_up_to
split_at_heads size l2_end current [] = some []
split_at_heads size l2_end current (head ∷ heads) =
    let skipped = split_at_heads size l2_end current heads in
    let rest = split_at_heads size l2_end head heads in
    if ltb current head
    then followed_by (split_up_to (min l2_end head + 1) size (min l2_end head) current) rest
    else skipped

-- The keys of the map `safeHeads`, sorted: each safe head once.
unfoldable pub insert_head : ℕ → List ℕ → List ℕ
insert_head h [] = h ∷ []
insert_head h (k ∷ ks) =
    let rest = insert_head h ks in
    if ltb h k then h ∷ k ∷ ks else if ltb k h then k ∷ rest else k ∷ ks

module _ (e : Env) where
  -- `DialRollupClientWithTimeout`, and `RollupProvider.RollupClient`
  unfoldable pub dial_rollup_client : M (Unit {0})
  dial_rollup_client = do reached ← observe e.dial; if reached then pure tt else raise rpc_failed

  -- The search of `GetL1HeadForL2Block`, with the number of L1 blocks that are left.
  unfoldable pub search_l1_head : ℕ → ℕ → ℕ → M ℕ
  search_l1_head zero l2_end l1_block = raise no_safe_head
  search_l1_head (suc left) l2_end l1_block = do
    safe_head ← ask (λ n. e.safe_head_at_l1_block n l1_block)
    let rest = search_l1_head left l2_end (l1_block + 1)
    if leb l2_end safe_head then pure l1_block else rest

  unfoldable pub get_l1_head_for_l2_block : ℕ → M ℕ
  get_l1_head_for_l2_block l2_end = do
    status ← ask e.sync_status
    output ← ask (λ n. e.output_at_block n l2_end)
    search_l1_head (status.head_l1 + 1 - output.l1_origin) l2_end output.l1_origin

  unfoldable pub is_safe_db_activated : M Bool
  is_safe_db_activated = do
    status ← ask e.sync_status
    ask (λ n. e.safe_head_at_l1_block n status.head_l1)
    pure true

  -- The safe heads of the L1 blocks from `l1_block` on; the map forgets which came when.
  unfoldable pub get_safe_heads : ℕ → ℕ → M (List ℕ)
  get_safe_heads zero l1_block = pure []
  get_safe_heads (suc left) l1_block = do
    safe_head ← ask (λ n. e.safe_head_at_l1_block n l1_block)
    others ← get_safe_heads left (l1_block + 1)
    pure (insert_head safe_head others)

  abbrev pub or_hangs : Option (List Span) → M (List Span)
  or_hangs none = raise hangs
  or_hangs (some spans) = pure spans

  unfoldable pub split_range_based_on_safe_heads : Config → ℕ → ℕ → M (List Span)
  split_range_based_on_safe_heads cfg l2_start l2_end = do
    dial_rollup_client
    l1_head ← get_l1_head_for_l2_block l2_end
    output ← ask (λ n. e.output_at_block n l2_start)
    heads ← get_safe_heads (l1_head + 1 - output.l1_origin) output.l1_origin
    or_hangs (split_at_heads cfg.max_block_range_per_span_proof l2_end l2_start heads)

  -- The highest end block of the table, or the contract's block where the table is empty.
  unfoldable pub or_latest_block : Result ℕ → M ℕ
  or_latest_block (ok b) = pure b
  or_latest_block (err not_found) = ask e.latest_block_number
  or_latest_block (err x) = raise x

  abbrev pub add_span : Span → M (Unit {0})
  add_span s = new_entry e span s.start s.end

  unfoldable pub get_range_proof_boundaries : Config → M (Unit {0})
  get_range_proof_boundaries cfg = do
    start ← catch (get_latest_end_block e) or_latest_block
    dial_rollup_client
    status ← ask e.sync_status
    spans ←
        or_hangs (split_range_basic cfg.max_block_range_per_span_proof start status.finalized_l2)
    for_each spans add_span
