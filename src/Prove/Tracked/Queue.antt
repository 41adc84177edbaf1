-- ===== src/Prove/Tracked/Queue.antt =====
-- The stages 4 and 5 of a poll (prove.go) where copies of the rows are about and no statement fails.
use optimism_zkp.Prelude.{
  ℕ, refl, Option, none, some, List, ◌∷◌, ◌==◌, All-sort_by, sort_by, ascending, arith,
}
use optimism_zkp.Prelude.Effects.{Error, err, pure, gets, modify, not_found}
use optimism_zkp.Prelude.Effects.Ensures.{
  Ensures, Keeps, Ensures-pure, Ensures-raise, Ensures-gets, Ensures-modify, Ensures-bind,
  Ensures-catch, Ensures-weaken, Ensures-before, Ensures-if,
}
use optimism_zkp.Request.{Bytes, Request, ProofType, span, agg}
use optimism_zkp.World.{Env, World, Config, ScansRows, IsSteady}
use optimism_zkp.Db.{
  is_type, raise_if, query, first_unrequested, span_or_none, agg_or_span,
  get_next_unrequested_proof, add_l1_block_info_to_agg_request,
  get_proof_requests_with_block_range_and_status,
}
use optimism_zkp.Db.Reads.{OnAll, Reads-query}
use optimism_zkp.Db.Claims.{nought}
use optimism_zkp.Db.Tracked.{IsTracked, relabel-IsTracked}
use optimism_zkp.Db.Tracked.Calls.{forget, statement-steady}
use optimism_zkp.Db.Tracked.Rows.{Read, query-Read, first_row-Tracked, only_row-Tracked}
use optimism_zkp.Tx.{checkpoint_block_hash}
use optimism_zkp.Tx.Reads.{Reads-checkpoint_block_hash}
use optimism_zkp.Prove.{
  is_blank, first_checkpointed, reuse_checkpoint, with_checkpoint, request_span, request_next,
  request_queued_proofs,
}
use optimism_zkp.Prove.Queue.{Reads-raise_if, spawn-Ensures, request_span-Ensures}

module _ (e : Env) (steady : IsSteady e) (scans : ScansRows e) (least : ℕ → ℕ)
    (left : List Request) where
  abbrev Of : List Request → World → Type 0
  Of pool = OnAll (IsTracked least nought pool)

  first_unrequested-Tracked :
      (type : ProofType)
      → Ensures (Of left) (first_unrequested e type) (λ r. Of (r ∷ left)) (Of left)
  unfolding first_unrequested
  first_unrequested-Tracked type =
      Ensures-bind _ (Read e steady scans least left) _ _ _ _
        (query-Read e steady scans least left (Of left) _)
        (λ l.
          Ensures-before
            (Read e steady scans least left (sort_by (ascending (λ r. r.start_block)) l)) _ _
            (λ w k. (k.0, All-sort_by _ _ l k.1)) (first_row-Tracked e steady scans least left _))

  -- The request that was found, if there is one.
  abbrev Found : Option Request → World → Type 0
  Found none = Of left
  Found (some r) = Of (r ∷ left)

  missing : (x : Error) → Ensures (Of left) (span_or_none e (err x)) Found (Of left)
  unfolding span_or_none
  missing not_found = Ensures-pure _ _ _ none (λ w k. k)
  missing x = Ensures-raise _ _ _ _ (λ w k. k)

  no_agg : (x : Error) → Ensures (Of left) (agg_or_span e (err x)) Found (Of left)
  unfolding agg_or_span span_or_none
  no_agg not_found =
      Ensures-catch _ (λ r. Of (r ∷ left)) _ (Of left) _ _ _ (first_unrequested-Tracked span)
        (λ r. Ensures-pure _ _ _ (some r) (λ w k. k)) missing
  no_agg x = Ensures-raise _ _ _ _ (λ w k. k)

  get_next-Tracked : Ensures (Of left) (get_next_unrequested_proof e) Found (Of left)
  unfolding get_next_unrequested_proof agg_or_span
  get_next-Tracked =
      Ensures-catch _ (λ r. Of (r ∷ left)) _ (Of left) _ _ _ (first_unrequested-Tracked agg)
        (λ r. Ensures-pure _ _ _ (some r) (λ w k. k)) no_agg

  add_l1_block_info-Tracked :
      (start end number : ℕ) (hash : Bytes)
      → Ensures
          (Of left)
          (add_l1_block_info_to_agg_request e start end number hash)
          (λ r. Of (r ∷ left))
          (Of left)
  unfolding add_l1_block_info_to_agg_request
  add_l1_block_info-Tracked start end number hash =
      Ensures-bind _ (λ _. Of left) _ _ _ _ (statement-steady e steady _ _)
        (λ n.
          Ensures-bind _ (λ _. Of left) _ _ (gets _) _ (Ensures-gets _ _ _ _ (λ w k. k))
            (λ affected.
              Ensures-bind _ (λ _. Of left) _ _ (modify _) _
                (Ensures-modify _ _ _ _ (λ w k.
                  relabel-IsTracked _
                    (λ r. record r {
                      last_updated_time = e.now n;
                      l1_block_number = number;
                      l1_block_hash = hash;
                    })
                    (record {
                      id = λ r. refl;
                      type = λ r. refl;
                      start = λ r. refl;
                      end = λ r. refl;
                    })
                    (λ b r. omega arith) k))
                (λ _.
                  Ensures-bind _ (λ _. Of left) _ _ (raise_if (affected == 0) _) _
                    (Reads-raise_if e (affected == 0) _ _)
                    (λ _.
                      Ensures-bind _ (Read e steady scans least left) _ _ _ _
                        (query-Read e steady scans least left (Of left) _)
                        (only_row-Tracked e steady scans least left)))))

  reuse_checkpoint-Tracked :
      (next : Request) (o : Option Request)
      → Ensures (Of (next ∷ left)) (reuse_checkpoint e next o) (λ r. Of (r ∷ left)) (Of left)
  unfolding reuse_checkpoint
  reuse_checkpoint-Tracked next none = Ensures-pure _ _ _ next (λ w k. k)
  reuse_checkpoint-Tracked next (some p) =
      Ensures-before _ _ _ (λ w k. forget k) (add_l1_block_info-Tracked _ _ _ _)

  with_checkpoint-Tracked :
      (next : Request)
      → Ensures (Of (next ∷ left)) (with_checkpoint e next) (λ r. Of (r ∷ left)) (Of left)
  unfolding with_checkpoint get_proof_requests_with_block_range_and_status
  with_checkpoint-Tracked next =
      Ensures-if _ _ _ (is_blank next.l1_block_hash) _ (pure next)
        (λ _.
          Ensures-bind _ (λ _. Of (next ∷ left)) _ _ (query e _) _
            (Ensures-weaken _ _ (Reads-query e _ (IsTracked least nought (next ∷ left)))
              (λ a w k. k) (λ w k. forget k))
            (λ existing.
              Ensures-bind _ (λ r. Of (r ∷ left)) _ _
                (reuse_checkpoint e next (first_checkpointed existing)) _
                (reuse_checkpoint-Tracked next _)
                (λ again.
                  Ensures-if _ _ _ (is_blank again.l1_block_hash) _ (pure again)
                    (λ _.
                      Ensures-before (Of left) _ _ (λ w k. forget k)
                        (Ensures-bind _ (λ _. Of left) _ _ (checkpoint_block_hash e) _
                          (Reads-checkpoint_block_hash e _)
                          (λ block. add_l1_block_info-Tracked _ _ _ _)))
                    (λ _. Ensures-pure _ _ _ again (λ w k. k)))))
        (λ _. Ensures-pure _ _ _ next (λ w k. k))

  -- A known request is handed over.
  hand_over :
      (p : Request) (w : World) → Of (p ∷ left) w → Of left (record w { spawned = p ∷ w.spawned })
  hand_over p w k = record {
    ids = k.ids;
    ranges = k.ranges;
    holds = k.holds;
    known = k.known.1;
    handed = (k.known.0, k.handed);
  }

  request_next-Tracked :
      (cfg : Config) (o : Option Request)
      → Ensures (Found o) (request_next e cfg o) (λ _. Of left) (Of left)
  unfolding request_next
  request_next-Tracked cfg none = Ensures-pure _ _ _ tt (λ w k. k)
  request_next-Tracked cfg (some next) =
      Ensures-if _ _ _ (is_type next agg) _ (request_span e cfg next)
        (λ _.
          Ensures-bind _ (λ r. Of (r ∷ left)) _ _ (with_checkpoint e next) _
            (with_checkpoint-Tracked next) (λ ready. spawn-Ensures e _ _ _ ready (hand_over ready)))
        (λ _.
          Ensures-weaken _ _
            (request_span-Ensures e (IsTracked least nought (next ∷ left)) (Of left) cfg next
              (λ w k. forget k) (hand_over next))
            (λ a w k. k) (λ w k. forget k))

  pub request_queued_proofs-Tracked : (cfg : Config) → Keeps (Of left) (request_queued_proofs e cfg)
  unfolding request_queued_proofs
  request_queued_proofs-Tracked cfg =
      Ensures-bind _ Found _ _ (get_next_unrequested_proof e) _ get_next-Tracked
        (request_next-Tracked cfg)
