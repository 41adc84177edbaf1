-- ===== src/Tests/Spans.antt =====
-- Concrete runs of splitting ranges, of walking chains of spans, and of the retries of a request.
use optimism_zkp.Prelude.{
  ◌+◌, ◌≤◌, ◌≡◌, refl, Option, none, some, List, [], ◌∷◌, ◌++◌, count, arith,
}
use optimism_zkp.Prelude.Effects.{ok}
use optimism_zkp.Request.{Bytes, Request, complete}
use optimism_zkp.Range.{split_from, split_range_basic, split_at_heads}
use optimism_zkp.Range.Basic.{Splits, split_range_basic-Splits, split_from_hangs}
use optimism_zkp.Range.Heads.{SplitsTo, split_at_heads-SplitsTo}
use optimism_zkp.Db.{contiguous_end, collect_proofs}
use optimism_zkp.Db.Chain.{IsAhead}
use optimism_zkp.Db.Chain.Stall.{contiguous_end_duplicates}
use optimism_zkp.Db.Chain.Collect.{Links, proofs_in, collect_proofs_lem}
use optimism_zkp.Prove.Http.{attempt, is_healthy}
use optimism_zkp.Prove.Http.Backoff.{IsErr, sum, attempt_exhausts}
use optimism_zkp.Tests.{row, env, world}

split_range_basic-Splits_example : Splits 100 550 300 (split_range_basic 100 300 550)
split_range_basic-Splits_example =
    split_range_basic-Splits 100 300 550 (omega arith) (omega arith) (omega arith)

split_at_heads-SplitsTo_example :
    SplitsTo 100 300 550 (split_at_heads 100 550 300 ((320 ∷ 430 ∷ []) ++ 580 ∷ []))
split_at_heads-SplitsTo_example =
    split_at_heads-SplitsTo 100 550 300 (320 ∷ 430 ∷ []) 580 (omega arith) (omega arith)
      (omega arith) (omega arith, (omega arith, tt)) (omega arith)

split_from_hangs_example : split_from 551 0 550 300 ≡ none
split_from_hangs_example = split_from_hangs 551 300 550 (omega arith) (omega arith)

-- Two completed proofs from block 100, and one behind them.
abbrev doubled : List Request
doubled =
    row 0 complete 100 200 (some (7 ∷ []))
    ∷ row 3 complete 100 200 (some (7 ∷ []))
    ∷ row 1 complete 200 300 (some (8 ∷ []))
    ∷ []

doubled-IsAhead : IsAhead 100 doubled
doubled-IsAhead = record {
  order = ((refl, (refl, tt)), ((refl, tt), (tt, tt)));
  from = (omega arith, (omega arith, (omega arith, tt)));
  nonempty = (omega arith, (omega arith, (omega arith, tt)));
}

contiguous_end_duplicates_example : contiguous_end 100 doubled ≤ 200
unfolding count
contiguous_end_duplicates_example =
    contiguous_end_duplicates 100 200 doubled doubled-IsAhead (omega arith)
      ((λ h. omega arith), ((λ h. omega arith), ((λ h. ground arith), tt)))

abbrev chain : List Request
chain = row 0 complete 100 200 (some (7 ∷ [])) ∷ row 1 complete 200 300 (some (8 ∷ [])) ∷ []

collect_proofs_lem_example :
    (Links 100 chain 300 → collect_proofs 300 100 [] chain ≡ ok (proofs_in chain))
    × ((proofs acc : List (Option Bytes))
        → collect_proofs 300 100 acc chain ≡ ok proofs
        → Links 100 chain 300)
collect_proofs_lem_example = collect_proofs_lem 300 100 chain

attempt_exhausts_example :
    IsErr (attempt env 5 1 (7 ∷ []) world).0
    × ((attempt env 5 1 (7 ∷ []) world).1.calls ≡ 5)
    × (sum (attempt env 5 1 (7 ∷ []) world).1.slept + 1 ≡ 16)
unfolding is_healthy
attempt_exhausts_example = attempt_exhausts env 4 1 (7 ∷ []) world (λ n b. refl)
