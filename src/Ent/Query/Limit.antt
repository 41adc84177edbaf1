-- ===== src/Ent/Query/Limit.antt =====
-- The limits of `First` and `Only` (db/ent/proofrequest_query.go).
use optimism_zkp.Prelude.{ℕ, zero, suc, ◌≡◌, none, List, [], ◌∷◌}
use optimism_zkp.Prelude.Effects.{Result, ok, err}
use optimism_zkp.Request.{Request}
use optimism_zkp.World.{World}
use optimism_zkp.Ent.Query.{Query, with_limit}

-- The first rows of a result.
abbrev pub take : ℕ → List Request → List Request
take zero rs = []
take (suc n) [] = []
take (suc n) (r ∷ rs) = r ∷ take n rs

abbrev pub limited : ℕ → Result (List Request) → Result (List Request)
limited n (ok rs) = ok (take n rs)
limited n (err x) = err x

-- `LIMIT n` keeps the first rows of a query that has no limit.
abbrev pub LimitsRows : (Query → Result (List Request)) → Type 0
LimitsRows all = (n : ℕ) (q : Query) → q.limit ≡ none → all (with_limit n q) ≡ limited n (all q)
