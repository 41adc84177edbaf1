-- ===== src/Db.antt =====
-- The operations of proposer/op/proposer/db/db.go, over the table as a list of rows. Each ent
-- statement is one call that may fail; a query hands its rows over in the order that the database
-- chooses, and sorts where the code asks for an order.
pub mod Table
pub mod Chain
pub mod Ids
pub mod Reads
pub mod Claims
pub mod Fulfil
pub mod Tracked
pub mod Open
pub mod History
pub mod Found
use optimism_zkp.Prelude.{
  ℕ, zero, suc, ◌+◌, Bool, true, false, not, ◌&&◌, Option, none, some, List, [], ◌∷◌, ◌++◌, ltb,
  leb, ◌==◌, if◌then◌else◌, length, select, sort_by, ascending, descending,
}
use optimism_zkp.Prelude.Effects.{
  Error, Result, ok, err, Exec, pure, raise, lift, gets, modify, ◌>>=◌, ◌>>◌, catch, not_found,
  not_singular, not_proving, proof_already_set, no_matching_request, gap_in_chain, incomplete_chain,
}
use optimism_zkp.Request.{
  Bytes, Request, ProofType, span, agg, Status, unreq, proving, failed, complete, same_type,
  same_status,
}
use optimism_zkp.World.{Env, World, M, call, statement}
use Table.{
  insert, update_rows, update_where, same_bytes, hex_encode, with_status, with_prover_request_id,
  with_proof, with_l1_block_info,
}

-- The tests of the package `proofrequest`.
module _ (r : Request) where
  abbrev pub id_is : ℕ → Bool
  id_is key = r.id == key

  abbrev pub is_type : ProofType → Bool
  is_type t = same_type r.type t

  abbrev pub has_status : Status → Bool
  has_status s = same_status r.status s

  abbrev pub starts_at : ℕ → Bool
  starts_at b = r.start_block == b

  abbrev pub ends_at : ℕ → Bool
  ends_at b = r.end_block == b

  -- What the queries ask for.
  abbrev pub is_unrequested : ProofType → Bool
  is_unrequested type = has_status unreq && is_type type

  abbrev pub is_range : ProofType → ℕ → ℕ → Status → Bool
  is_range type start end status =
      is_type type && starts_at start && ends_at end && has_status status

  abbrev pub is_waiting_agg : ℕ → ℕ → Bool
  is_waiting_agg start end = is_type agg && has_status unreq && starts_at start && ends_at end

  abbrev pub has_l1_block : ℕ → Bytes → Bool
  has_l1_block number hash = r.l1_block_number == number && same_bytes r.l1_block_hash hash

  abbrev pub is_completed_agg : ℕ → Bool
  is_completed_agg start = is_type agg && starts_at start && has_status complete

  abbrev pub is_live_agg : ℕ → Bool
  is_live_agg start = is_type agg && starts_at start && not (has_status failed)

  abbrev pub is_span_from : ℕ → Bool
  is_span_from start = is_type span && has_status complete && leb start r.start_block

  abbrev pub is_span_within : ℕ → ℕ → Bool
  is_span_within start end =
      is_type span && has_status complete && leb start r.start_block && leb r.end_block end

-- The loop of `GetMaxContiguousSpanProofRange`.
unfoldable pub contiguous_end : ℕ → List Request → ℕ
contiguous_end current [] = current
contiguous_end current (s ∷ ss) =
    if s.start_block == current then contiguous_end s.end_block ss else current

-- The loop of `GetConsecutiveSpanProofs`, and its last test.
unfoldable pub collect_proofs :
    ℕ → ℕ → List (Option Bytes) → List Request → Result (List (Option Bytes))
collect_proofs end current proofs [] = if current == end then ok proofs else err incomplete_chain
collect_proofs end current proofs (s ∷ ss) =
    let rest = collect_proofs end s.end_block (proofs ++ s.proof ∷ []) ss in
    if s.start_block == current then rest else err gap_in_chain

-- `First` and `Only` of a result.
abbrev pub first_row : List Request → M Request
first_row [] = raise not_found
first_row (r ∷ rs) = pure r

abbrev pub only_row : List Request → M Request
only_row [] = raise not_found
only_row (r ∷ []) = pure r
only_row (r ∷ r' ∷ rs) = raise not_singular

abbrev pub raise_if : Bool → Error → M Unit
raise_if c x = if c then raise x else pure tt

-- `existingProof.Proof != nil`
abbrev pub is_set : Option Bytes → Bool
is_set none = false
is_set (some _) = true

module _ (e : Env) where
  unfoldable pub query : (Request → Bool) → M (List Request)
  query p = do n ← statement e; gets (λ w. e.scan n (select p w.rows))

  unfoldable pub update : (Request → Bool) → (ℕ → Request → Request) → M Unit
  update p f = do n ← statement e; modify (update_where p (f (e.now n)))

  unfoldable pub new_entry : ProofType → ℕ → ℕ → M Unit
  new_entry type start end = do n ← statement e; modify (insert (e.now n) type start end)

  unfoldable pub update_proof_status : ℕ → Status → M Unit
  update_proof_status key status = update (λ r. id_is r key) (λ now r. with_status now r status)

  unfoldable pub set_prover_request_id : ℕ → Bytes → M Unit
  set_prover_request_id key prover_id =
      update (λ r. id_is r key) (λ now r. with_prover_request_id now r (hex_encode prover_id))

  -- `tx.Rollback()` where the body or the commit fails: the table is as it was.
  unfoldable pub roll_back : {A : Type 0} → World → Result A → M A
  roll_back before (ok a) w = (ok a, w)
  roll_back before (err x) w = (err x, record w { rows = before.rows; next_id = before.next_id })

  unfoldable pub transaction : {A : Type 0} → M A → M A
  transaction body = do
    statement e
    before ← gets (λ w. w)
    catch (do a ← body; statement e; pure a) (roll_back before)

  unfoldable pub add_fulfilled_proof : ℕ → Option Bytes → M Unit
  add_fulfilled_proof key proof = transaction do
    rows ← query (λ r. id_is r key)
    existing ← only_row rows
    raise_if (not (has_status existing proving)) not_proving
    raise_if (is_set existing.proof) proof_already_set
    update (λ r. id_is r existing.id) (λ now r. with_proof now r proof)

  unfoldable pub get_number_of_requests_with_status : Status → M ℕ
  get_number_of_requests_with_status status = do
    statement e
    gets (λ w. length (select (λ r. has_status r status) w.rows))

  unfoldable pub add_l1_block_info_to_agg_request : ℕ → ℕ → ℕ → Bytes → M Request
  add_l1_block_info_to_agg_request start end number hash = do
    n ← statement e
    let matching = λ (r : Request). is_waiting_agg r start end
    affected ← gets (λ w. length (select matching w.rows))
    modify (update_where matching (λ r. with_l1_block_info (e.now n) r number hash))
    raise_if (affected == 0) no_matching_request
    rows ← query (λ r. matching r && has_l1_block r number hash)
    only_row rows

  unfoldable pub get_latest_end_block : M ℕ
  get_latest_end_block = do
    rows ← query (λ _. true)
    r ← first_row (sort_by (descending (λ r. r.end_block)) rows)
    pure r.end_block

  unfoldable pub get_all_proofs_with_status : Status → M (List Request)
  get_all_proofs_with_status status = query (λ r. has_status r status)

  -- The unrequested row of a type with the lowest start block.
  unfoldable pub first_unrequested : ProofType → M Request
  first_unrequested type = do
    rows ← query (λ r. is_unrequested r type)
    first_row (sort_by (ascending (λ r. r.start_block)) rows)

  -- A row that is not found is no error here.
  unfoldable pub span_or_none : Result Request → M (Option Request)
  span_or_none (ok r) = pure (some r)
  span_or_none (err not_found) = pure none
  span_or_none (err x) = raise x

  unfoldable pub agg_or_span : Result Request → M (Option Request)
  agg_or_span (ok r) = pure (some r)
  agg_or_span (err not_found) = catch (first_unrequested span) span_or_none
  agg_or_span (err x) = raise x

  unfoldable pub get_next_unrequested_proof : M (Option Request)
  get_next_unrequested_proof = catch (first_unrequested agg) agg_or_span

  unfoldable pub get_all_completed_agg_proofs : ℕ → M (List Request)
  get_all_completed_agg_proofs start = query (λ r. is_completed_agg r start)

  unfoldable pub get_max_contiguous_span_proof_range : ℕ → M ℕ
  get_max_contiguous_span_proof_range start = do
    rows ← query (λ r. is_span_from r start)
    pure (contiguous_end start (sort_by (ascending (λ r. r.start_block)) rows))

  unfoldable pub try_create_agg_proof_from_span_proofs : ℕ → ℕ → M (Bool × ℕ)
  try_create_agg_proof_from_span_proofs from min_to = do
    statement e
    found ← gets (λ w. length (select (λ r. is_live_agg r from) w.rows))
    if ltb 0 found then pure (false, 0) else do
      max_end ← get_max_contiguous_span_proof_range from
      if ltb max_end min_to
          then pure (false, 0)
          else do new_entry agg from max_end; pure (true, max_end)

  unfoldable pub get_consecutive_span_proofs : ℕ → ℕ → M (List (Option Bytes))
  get_consecutive_span_proofs start end = do
    rows ← query (λ r. is_span_within r start end)
    lift (collect_proofs end start [] (sort_by (ascending (λ r. r.start_block)) rows))

  unfoldable pub get_proof_requests_with_block_range_and_status :
      ProofType → ℕ → ℕ → Status → M (List Request)
  get_proof_requests_with_block_range_and_status type start end status =
      query (λ r. is_range r type start end status)
