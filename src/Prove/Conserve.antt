-- ===== src/Prove/Conserve.antt =====
-- `RetryRequest` (prove.go) and the number of claims on each block.
use optimism_zkp.Prelude.{
  ℕ, suc, ◌+◌, ◌^◌, ◌≤◌, ◌<◌, ◌≡◌, refl, Bool, true, false, some, List, ◌==◌, count, arith,
}
use optimism_zkp.Prelude.Effects.{ok, err, db_failed, ◌>>=◌}
use optimism_zkp.Request.{Request, span, failed, same_type, ProofStatusResponse}
use optimism_zkp.World.{Env, World, IsSteady, statement}
use optimism_zkp.Db.{
  has_status, query, update, new_entry, update_proof_status,
  get_proof_requests_with_block_range_and_status,
}
use optimism_zkp.Db.Table.{find, insert, update_rows}
use optimism_zkp.Db.Ids.{Ids, count-update_rows}
use optimism_zkp.Db.Claims.{claims, claims_of, IsProper}
use optimism_zkp.Prove.Retry.{share_of, share_split, split_lem, fail_row}
use optimism_zkp.Prove.{should_split, mid_block, requeue, retry_request}

module _ (e : Env) (steady : IsSteady e) (req : Request) where
  requeue_claims :
      (split : Bool) (w : World)
      → (split ≡ true → (req.start_block ≤ mid_block req) × (mid_block req ≤ req.end_block))
      → ((requeue e req split w).0 ≡ ok tt)
        × ((b : ℕ)
            → claims_of b (requeue e req split w).1.rows ≡ share_of req b + claims_of b w.rows)
  unfolding requeue new_entry statement insert ◌>>=◌ count
  requeue_claims false w h = rw (steady w.calls) (refl, λ b. ground arith)
  requeue_claims true w h = rw (steady w.calls) (
      rw (steady (suc w.calls)) (
        refl,
        λ b. ground (
          arith,
          share_split req.type req.start_block (mid_block req) req.end_block b (h refl).0
              (h refl).1,
        ),
      ))

requeue_fails :
    (e : Env) (req : Request) (split : Bool) (w : World)
    → e.fault w.calls ≡ true
    → ((requeue e req split w).0 ≡ err db_failed) × ((requeue e req split w).1.rows ≡ w.rows)
unfolding requeue new_entry statement ◌>>=◌
requeue_fails e req false w h = rw h (refl, refl)
requeue_fails e req true w h = rw h (refl, refl)

-- The halves meet inside the range.
within :
    (req : Request) (status : ProofStatusResponse) (failures : ℕ)
    → IsProper req
    → should_split req status failures ≡ true
    → (req.start_block ≤ mid_block req) × (mid_block req ≤ req.end_block)
within req status failures p s =
    let m : (same_type req.type span ≡ true)
        × ((req.start_block < mid_block req)
            × (mid_block req < req.end_block)
            × (req.end_block < 2 ^ 63)) =
      split_lem req status failures p s in
    (omega (arith, m.1.0), omega (arith, m.1.1))

-- What the failed row gives up.
failed_share :
    (req : Request) (now n : ℕ) (rows : List Request)
    → Ids n rows
    → find req.id rows ≡ some req
    → has_status req failed ≡ false
    → (b : ℕ)
    → claims_of b (update_rows (λ r. r.id == req.id) (fail_row now) rows) + share_of req b
      ≡ claims_of b rows
failed_share req now n rows ids found live b =
    ground (arith, count-update_rows (claims b) n req.id (fail_row now) rows req ids found)

module _ (e : Env) (req : Request) (status : ProofStatusResponse) (w : World)
    (ids : Ids w.next_id w.rows) (found : find req.id w.rows ≡ some req)
    (live : has_status req failed ≡ false) (proper : IsProper req) where
  -- In a table whose keys rise with the insertions, the retry of a request that stands there as it was
  -- read, has not failed and has a proper range succeeds where no statement fails, and every block is
  -- then claimed by as many span requests that have not failed as before.
  pub retry_request_conserves :
      IsSteady e
      → ((retry_request e req status w).0 ≡ ok tt)
        × ((b : ℕ) → claims_of b (retry_request e req status w).1.rows ≡ claims_of b w.rows)
  unfolding retry_request update_proof_status update get_proof_requests_with_block_range_and_status
      query statement ◌>>=◌
  retry_request_conserves steady = rw (steady w.calls) (
      rw (steady (suc w.calls)) (
        let halves = requeue_claims e steady req _ _ (within req status _ proper) in
        (
          halves.0,
          λ b. omega (
            arith,
            halves.1 b,
            failed_share req (e.now w.calls) w.next_id w.rows ids found live b,
          ),
        )))

  -- In such a table and for such a request, where the mark FAILED and the query behind it succeed and
  -- the first insertion fails, the retry reports the error, and each block that the request claimed
  -- has lost that claim.
  pub retry_request_loses :
      e.fault w.calls ≡ false
      → e.fault (suc w.calls) ≡ false
      → e.fault (suc (suc w.calls)) ≡ true
      → ((retry_request e req status w).0 ≡ err db_failed)
        × ((b : ℕ)
            → claims_of b (retry_request e req status w).1.rows + share_of req b
              ≡ claims_of b w.rows)
  unfolding retry_request update_proof_status update get_proof_requests_with_block_range_and_status
      query statement ◌>>=◌
  retry_request_loses f g h = rw f (
      rw g (
        let stuck = requeue_fails e req _ _ h in
        (
          stuck.0,
          λ b. rw (stuck.1) (failed_share req (e.now w.calls) w.next_id w.rows ids found live b),
        )))
