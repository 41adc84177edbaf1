-- ===== src/Ent/Query.antt =====
-- `ProofRequestQuery` (db/ent/proofrequest_query.go): the builder, and the calls that end a query.
-- What a query returns is SQL's.
pub mod Limit
use optimism_zkp.Prelude.{ℕ, Bool, true, false, Option, none, some, List, [], ◌∷◌, ◌++◌}
use optimism_zkp.Prelude.Effects.{Error, Result, ok, err, not_found, not_singular}
use optimism_zkp.Request.{Request}
use optimism_zkp.Ent.Field.{Field}
use optimism_zkp.Ent.Where.{Predicate}

pub data Order : Type 0 where
  asc desc : Field → Order

pub record Query : Type 0 where
  pub predicates : List Predicate
  pub order : List Order
  pub limit : Option ℕ
  pub offset : Option ℕ

-- `Query` of the client
abbrev pub new_query : Query
new_query = record { predicates = []; order = []; limit = none; offset = none }

abbrev pub where_all : List Predicate → Query → Query
where_all ps q = record q { predicates = q.predicates ++ ps }

abbrev pub order_by : List Order → Query → Query
order_by os q = record q { order = q.order ++ os }

abbrev pub with_limit : ℕ → Query → Query
with_limit n q = record q { limit = some n }

-- The first of the nodes, and the only one.
abbrev pub first_node : Result (List Request) → Result Request
first_node (err x) = err x
first_node (ok []) = err not_found
first_node (ok (r ∷ rs)) = ok r

abbrev pub only_node : Result (List Request) → Result Request
only_node (err x) = err x
only_node (ok []) = err not_found
only_node (ok (r ∷ [])) = ok r
only_node (ok (r ∷ r' ∷ rs)) = err not_singular

module _ (all : Query → Result (List Request)) where
  unfoldable pub first : Query → Result Request
  first q = first_node (all (with_limit 1 q))

  unfoldable pub only : Query → Result Request
  only q = only_node (all (with_limit 2 q))
