-- ===== src/Prove/Retry.antt =====
-- `RetryRequest` (prove.go) under the invariant of the table.
use optimism_zkp.Prelude.{
  ℕ, ◌+◌, ◌-◌, ◌/◌, ◌%◌, ◌^◌, ◌≤◌, ◌<◌, ◌≡◌, refl, Bool, true, false, ◌&&◌, ◌||◌, List, ◌∷◌, inl,
  inr, Bool-cases, ltb, one_if, length, u64, arith,
}
use optimism_zkp.Prelude.Effects.Ensures.{
  Ensures, Ensures-bind, Ensures-weaken, Ensures-before, Ensures-given,
}
use optimism_zkp.Request.{Request, ProofType, span, failed, same_type, ProofStatusResponse}
use optimism_zkp.World.{Env}
use optimism_zkp.Db.{
  id_is, starts_at, ends_at, is_type, has_status, query, update, new_entry, update_proof_status,
  get_proof_requests_with_block_range_and_status,
}
use optimism_zkp.Db.Ids.{find-All}
use optimism_zkp.Db.Reads.{On, OnTable, Reads-query}
use optimism_zkp.Db.Claims.{claims, share, IsProper}
use optimism_zkp.Db.Claims.Held.{
  Held, Held-tail, less_room-Held, new_entry-Held, update-Ensures-Held,
}
use optimism_zkp.Prove.{should_split, mid_block, is_unexecutable, requeue, retry_request}

-- The claim of a request on a block.
abbrev pub share_of : Request → ℕ → ℕ
share_of req b = share req.type req.start_block req.end_block b

mid_bounds :
    (s e : ℕ)
    → s < e
    → e < 2 ^ 63
    → ltb 1 ((e + u64 - s) % u64) ≡ true
    → (s < (s + e) % u64 / 2) × ((s + e) % u64 / 2 < e)
mid_bounds s e h k t = (omega (arith, wide), omega (arith, wide))
  where
    wide : 1 < (e + u64 - s) % u64
    wide = ground arith

and_true : (a b c : Bool) → (a && b && c) ≡ true → (a ≡ true) × (c ≡ true)
and_true a b c h = ground arith

-- Where a request is split, its middle lies strictly between its ends, and each block that it claimed
-- goes to one half.
pub split_lem :
    (req : Request) (status : ProofStatusResponse) (failures : ℕ)
    → IsProper req
    → should_split req status failures ≡ true
    → (same_type req.type span ≡ true)
      × ((req.start_block < mid_block req)
          × (mid_block req < req.end_block)
          × (req.end_block < 2 ^ 63))
split_lem req status failures p s =
    let parts : (is_type req span ≡ true)
        × (ltb 1 ((req.end_block + u64 - req.start_block) % u64) ≡ true) =
      and_true (is_type req span) (is_unexecutable status.execution_status || ltb 1 failures) _ s in
    let range : (req.start_block < req.end_block) × (req.end_block < 2 ^ 63) = (p.0 parts.0, p.1) in
    let mid = mid_bounds req.start_block req.end_block range.0 range.1 parts.1 in
    (parts.0, (mid.0, mid.1, range.1))

pub share_split :
    (type : ProofType) (start mid end b : ℕ)
    → start ≤ mid
    → mid ≤ end
    → share type start mid b + share type mid end b ≡ share type start end b
share_split type start mid end b h k = ground arith

module _ (e : Env) (limit room : ℕ → ℕ) (left : List Request) (req : Request) where
  -- A failed statement may leave room over.
  entry :
      (rest : ℕ → ℕ) (start end : ℕ)
      → ((b : ℕ) → room b ≤ rest b)
      → (same_type req.type span ≡ true → start < end) × (end < 2 ^ 63)
      → Ensures
          (On (Held limit (λ b. share req.type start end b + rest b) left))
          (new_entry e req.type start end)
          (λ _. On (Held limit rest left))
          (On (Held limit room left))
  entry rest start end h p =
      Ensures-weaken _ (new_entry e req.type start end)
        (new_entry-Held e limit rest left req.type start end p) (λ a s k. k)
        (λ s k. less_room-Held (λ b. omega (arith, h b)) k)

  requeue_whole :
      IsProper req
      → Ensures
          (On (Held limit (λ b. share_of req b + room b) left))
          (requeue e req false)
          (λ _. On (Held limit room left))
          (On (Held limit room left))
  unfolding requeue
  requeue_whole p = entry room req.start_block req.end_block (λ b. omega arith) p

  requeue_split :
      (req.start_block < mid_block req) × (mid_block req < req.end_block) × (req.end_block < 2 ^ 63)
      → Ensures
          (On (Held limit (λ b. share_of req b + room b) left))
          (requeue e req true)
          (λ _. On (Held limit room left))
          (On (Held limit room left))
  unfolding requeue
  requeue_split p =
      Ensures-before _ _ _
        (λ s k.
          less_room-Held
            (λ b. omega (
              arith,
              share_split req.type req.start_block (mid_block req) req.end_block b (omega arith)
                  (omega arith),
            ))
            k)
        (Ensures-bind
          (On (
            Held limit
              (λ b.
                share req.type req.start_block (mid_block req) b
                + (share req.type (mid_block req) req.end_block b + room b))
              left))
          (λ _. On (Held limit (λ b. share req.type (mid_block req) req.end_block b + room b) left))
          (λ _. On (Held limit room left)) _ (new_entry e req.type req.start_block (mid_block req))
          _
          (entry (λ b. share req.type (mid_block req) req.end_block b + room b) req.start_block
            (mid_block req) (λ b. omega arith) ((λ _. p.0), omega arith))
          (λ _. entry room (mid_block req) req.end_block (λ b. omega arith) ((λ _. p.1), p.2)))

  -- Queueing the request again uses up its share of the room.
  pub requeue-Held :
      (status : ProofStatusResponse) (failures : ℕ)
      → IsProper req
      → Ensures
          (On (Held limit (λ b. share_of req b + room b) left))
          (requeue e req (should_split req status failures))
          (λ _. On (Held limit room left))
          (On (Held limit room left))
  requeue-Held status failures p = elim (Bool-cases (should_split req status failures)) [
    | inl s ↦ rw s (requeue_split (split_lem req status failures p s).1)
    | inr s ↦ rw s (requeue_whole p)
  ]

-- The row as `UpdateProofStatus` leaves it when it fails.
abbrev pub fail_row : ℕ → Request → Request
fail_row now r = record r { status = failed; last_updated_time = now }

-- A failed request gives its claim up.
fail_trade :
    (req : Request) (room : ℕ → ℕ)
    → has_status req failed ≡ false
    → (now b : ℕ)
    → one_if (claims b (fail_row now req)) + (share_of req b + room b)
      ≤ one_if (claims b req) + room b
fail_trade req room h now b = ground arith

module _ (e : Env) (limit room : ℕ → ℕ) (left : List Request) (req : Request)
    (status : ProofStatusResponse) where
  retry_live :
      (has_status req failed ≡ false) × IsProper req
      → Ensures
          (On (Held limit room (req ∷ left)))
          (retry_request e req status)
          (λ _. On (Held limit room left))
          (On (Held limit room left))
  unfolding retry_request
  retry_live (live, proper) =
      Ensures-bind (On (Held limit room (req ∷ left))) (λ _. On freed)
        (λ _. On (Held limit room left)) _ (update_proof_status e req.id failed) _
        (unfold update_proof_status in
          Ensures-weaken _ (update e (λ r. id_is r req.id) fail_row)
            (update-Ensures-Held e limit room left req fail_row (λ b. share_of req b + room b)
              (λ now r. refl) (λ now r h. h) (fail_trade req room live))
            (λ a s k. k) (λ s k. Held-tail k))
        (λ _.
          Ensures-bind (On freed) (λ _. On freed) (λ _. On (Held limit room left)) _ _ _
            (unfold get_proof_requests_with_block_range_and_status in
              Ensures-weaken _
                (query e (λ r.
                  is_type r req.type
                  && starts_at r req.start_block
                  && ends_at r req.end_block
                  && has_status r failed))
                (Reads-query e _ (OnTable freed)) (λ a s k. k)
                (λ s k. less_room-Held (λ b. omega arith) k))
            (λ previous. requeue-Held e limit room left req status (length previous) proper))
    where
      freed : ℕ → List Request → Type 0
      freed = Held limit (λ b. share_of req b + room b) left

  -- A retry of a request that stands in the table as it was read keeps every bound on the claims,
  -- whatever statement fails, and leaves the other requests that are at hand as they are.
  pub retry_request-Held :
      Ensures
        (On (Held limit room (req ∷ left)))
        (retry_request e req status)
        (λ _. On (Held limit room left))
        (On (Held limit room left))
  retry_request-Held =
      Ensures-given _ (retry_request e req status) _ _
        (λ w h. (h.stored.0.1, find-All IsProper req.id w.rows req h.within.ranges h.stored.0.0))
        retry_live
