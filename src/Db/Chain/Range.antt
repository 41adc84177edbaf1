-- ===== src/Db/Chain/Range.antt =====
-- `GetMaxContiguousSpanProofRange` as a query of the table.
use optimism_zkp.Prelude.{
  ℕ, ◌≤◌, ◌<◌, ◌≡◌, sym, ◌∙◌, Bool, false, ◌&&◌, List, leb, All, All-map, All-select, All-sort_by,
  select, select-passes, sort_by, sort_by-IsSortedBy-ascending, count, count-select, count-sort_by,
  arith,
}
use optimism_zkp.Prelude.Effects.{ok, ◌>>=◌}
use optimism_zkp.Request.{Request, span, complete}
use optimism_zkp.World.{Env, World, ScansRows, statement}
use optimism_zkp.Db.{
  is_type, has_status, contiguous_end, query, get_max_contiguous_span_proof_range,
}
use optimism_zkp.Db.Chain.{
  covers, by_start, IsNonempty, IsAhead, IsFirstGap, contiguous_end-IsFirstGap,
}

-- A completed span proof that starts at the block or behind it.
abbrev pub proven_from : ℕ → Request → Bool
proven_from start r = is_type r span && has_status r complete && leb start r.start_block

-- How many completed span proofs from `start` on cover the block.
abbrev pub proofs_of : ℕ → ℕ → List Request → ℕ
proofs_of start b rows = count (λ r. proven_from start r && covers b r) rows

-- The rows that the loop walks through, when call `n` fetches them.
abbrev pub chain_rows : Env → ℕ → ℕ → List Request → List Request
chain_rows e n start rows = sort_by by_start (e.scan n (select (proven_from start) rows))

module _ (e : Env) (scans : ScansRows e) (n start : ℕ) (rows : List Request) where
  count-chain_rows : (b : ℕ) → count (covers b) (chain_rows e n start rows) ≡ proofs_of start b rows
  count-chain_rows b =
      count-sort_by (covers b) by_start _
      ∙ scans.each n (covers b) (select (proven_from start) rows)
      ∙ count-select (covers b) (proven_from start) rows

  All-chain_rows :
      (P : Request → Type 0)
      → All P (select (proven_from start) rows)
      → All P (chain_rows e n start rows)
  All-chain_rows P h = All-sort_by P by_start _ (scans.rows n P _ h)

  chain_rows-IsAhead : All IsNonempty rows → IsAhead start (chain_rows e n start rows)
  chain_rows-IsAhead h = record {
    order = sort_by-IsSortedBy-ascending (λ (r : Request). r.start_block) _;
    from =
        All-chain_rows (λ r. start ≤ r.start_block)
          (All-map _ _ _ (λ r k. ground arith) (select-passes (proven_from start) rows));
    nonempty = All-chain_rows IsNonempty (All-select IsNonempty (proven_from start) rows h);
  }

-- The block `m` ends the run of proven blocks from `start`: each block from `start` up to `m` has
-- exactly one completed span proof, and `m` has none.
abbrev pub EndsRun : ℕ → List Request → ℕ → Type 0
EndsRun start rows m =
    (start ≤ m)
    × ((b : ℕ) → start ≤ b → b < m → proofs_of start b rows ≡ 1)
    × (proofs_of start m rows ≡ 0)

pub contiguous_end-EndsRun :
    (e : Env) (scans : ScansRows e) (n start : ℕ) (rows : List Request)
    → All IsNonempty rows
    → ((b : ℕ) → proofs_of start b rows ≤ 1)
    → EndsRun start rows (contiguous_end start (chain_rows e n start rows))
contiguous_end-EndsRun e scans n start rows h c =
    (gap.0, λ b k k'. sym (once b) ∙ gap.1 b k k', sym (once _) ∙ gap.2)
  where
    once : (b : ℕ) → count (covers b) (chain_rows e n start rows) ≡ proofs_of start b rows
    once = count-chain_rows e scans n start rows

    gap :
        IsFirstGap start
          (chain_rows e n start rows)
          (contiguous_end start (chain_rows e n start rows))
    gap =
        contiguous_end-IsFirstGap start _ (chain_rows-IsAhead e scans n start rows h)
          (λ b. omega (arith, once b, c b))

-- Where a query returns rows of its selection only, each as often as it stands there, the statement
-- does not fail, no range is empty and no completed span proofs from `start` on overlap, the query
-- returns the first block from `start` on that none of those proofs covers, and leaves the rows alone.
pub get_max_contiguous-EndsRun :
    (e : Env) (start : ℕ) (w : World)
    → ScansRows e
    → All IsNonempty w.rows
    → ((b : ℕ) → proofs_of start b w.rows ≤ 1)
    → e.fault w.calls ≡ false
    → (m : ℕ) × ((get_max_contiguous_span_proof_range e start w).0 ≡ ok m)
      × EndsRun start w.rows m
      × ((get_max_contiguous_span_proof_range e start w).1.rows ≡ w.rows)
unfolding get_max_contiguous_span_proof_range query statement ◌>>=◌
get_max_contiguous-EndsRun e start w scans h c f = (
  contiguous_end start (chain_rows e w.calls start w.rows),
  rw f,
  contiguous_end-EndsRun e scans w.calls start w.rows h c,
  rw f,
)
