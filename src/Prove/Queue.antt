-- ===== src/Prove/Queue.antt =====
-- Stage 5 of a poll, `RequestQueuedProofs` (prove.go), under the invariant of the table.
use optimism_zkp.Prelude.{
  ℕ, ◌+◌, ◌∷◌, ◌≤◌, ◌≡◌, refl, Bool, Option, none, some, List, ◌==◌, one_if, arith,
}
use optimism_zkp.Prelude.Effects.{Error, Result, ok, err, not_found, pure, gets, modify, ◌>>=◌}
use optimism_zkp.Prelude.Effects.Ensures.{
  Ensures, Keeps, Ensures-pure, Ensures-gets, Ensures-modify, Ensures-bind, Ensures-if,
}
use optimism_zkp.Request.{Bytes, Request, ProofType, span, agg, witnessgen, proving}
use optimism_zkp.World.{Env, World, Config, statement}
use optimism_zkp.Db.{
  is_type, query, raise_if, first_unrequested, agg_or_span, span_or_none,
  get_next_unrequested_proof, add_l1_block_info_to_agg_request,
  get_proof_requests_with_block_range_and_status,
}
use optimism_zkp.Db.Table.{update_rows}
use optimism_zkp.Db.Ids.{Ids-update_rows, count-update_rows-le}
use optimism_zkp.Db.Reads.{
  On, OnAll, OnTable, Reads, Reads-statement, Reads-query, Reads-number, Reads-bind, Reads-catch,
  Reads-pure, Reads-raise, Reads-first_row, Reads-only_row, Reads-if,
}
use optimism_zkp.Db.Claims.{claims, IsProper, IsTidy, ranges-update_rows}
use optimism_zkp.Tx.{checkpoint_block_hash}
use optimism_zkp.Tx.Reads.{Reads-checkpoint_block_hash}
use optimism_zkp.Prove.{
  at_cap, is_blank, hash_hex, first_checkpointed, reuse_checkpoint, with_checkpoint, spawn,
  request_span, request_next, request_queued_proofs,
}

module _ (e : Env) where
  Reads-first_unrequested : (type : ProofType) → Reads (first_unrequested e type)
  unfolding first_unrequested
  Reads-first_unrequested type = Reads-bind _ _ (Reads-query e _) (λ rows. Reads-first_row _)

  Reads-span_or_none : (r : Result Request) → Reads (span_or_none e r)
  unfolding span_or_none
  Reads-span_or_none (ok r) = Reads-pure _
  Reads-span_or_none (err not_found) = Reads-pure _
  Reads-span_or_none (err _) = Reads-raise _

  Reads-agg_or_span : (r : Result Request) → Reads (agg_or_span e r)
  unfolding agg_or_span
  Reads-agg_or_span (ok r) = Reads-pure _
  Reads-agg_or_span (err not_found) =
      Reads-catch _ _ (Reads-first_unrequested span) Reads-span_or_none
  Reads-agg_or_span (err _) = Reads-raise _

  pub Reads-get_next_unrequested_proof : Reads (get_next_unrequested_proof e)
  unfolding get_next_unrequested_proof
  Reads-get_next_unrequested_proof = Reads-catch _ _ (Reads-first_unrequested agg) Reads-agg_or_span

  pub spawn-Ensures :
      (P Q E : World → Type 0) (p : Request)
      → ((w : World) → P w → Q (record w { spawned = p ∷ w.spawned }))
      → Ensures P (spawn e p) (λ _. Q) E
  unfolding spawn
  spawn-Ensures P Q E p h = Ensures-modify P (λ _. Q) E _ h

  pub request_span-Ensures :
      (P : ℕ → List Request → List Request → Type 0) (Q : World → Type 0) (cfg : Config)
      (p : Request)
      → ((w : World) → OnAll P w → Q w)
      → ((w : World) → OnAll P w → Q (record w { spawned = p ∷ w.spawned }))
      → Ensures (OnAll P) (request_span e cfg p) (λ _. Q) (OnAll P)
  unfolding request_span
  request_span-Ensures P Q cfg p h k =
      Ensures-bind _ (λ _. OnAll P) _ _ _ _ (Reads-number e witnessgen P)
        (λ started.
          Ensures-bind _ (λ _. OnAll P) _ _ _ _ (Reads-number e proving P)
            (λ accepted.
              Ensures-if _ (λ _. Q) _ (at_cap cfg.max_concurrent_witness_gen started) _ _
                (λ _. Ensures-pure _ _ _ tt h)
                (λ _.
                  Ensures-if _ (λ _. Q) _
                    (at_cap cfg.max_concurrent_proof_requests (started + accepted)) _ _
                    (λ _. Ensures-pure _ _ _ tt h) (λ _. spawn-Ensures _ _ _ p k))))

  pub Reads-raise_if : (c : Bool) (x : Error) → Reads (raise_if c x)
  Reads-raise_if c x = Reads-if c _ _ (Reads-raise x) (Reads-pure tt)

-- An update that keeps keys and ranges and adds no claim keeps a table tidy.
relabel-IsTidy :
    (p : Request → Bool) (f : Request → Request) (n : ℕ) (rows : List Request)
    → ((r : Request) → (f r).id ≡ r.id)
    → ((r : Request) → IsProper r → IsProper (f r))
    → ((b : ℕ) (r : Request) → one_if (claims b (f r)) ≤ one_if (claims b r))
    → IsTidy n rows
    → IsTidy n (update_rows p f rows)
relabel-IsTidy p f n rows keep proper fewer h = record {
  ids = Ids-update_rows n p f rows keep h.ids;
  ranges = ranges-update_rows f p proper rows h.ranges;
  fits = λ b. omega (arith, count-update_rows-le (claims b) p f rows (fewer b), h.fits b);
}

module _ (e : Env) where
  add_l1_block_info-IsTidy :
      (start end number : ℕ) (hash : Bytes)
      → Keeps (On IsTidy) (add_l1_block_info_to_agg_request e start end number hash)
  unfolding add_l1_block_info_to_agg_request
  add_l1_block_info-IsTidy start end number hash =
      Ensures-bind _ (λ _. On IsTidy) _ _ (statement e) _ (Reads-statement e (OnTable IsTidy))
        (λ n.
          Ensures-bind _ (λ _. On IsTidy) _ _ (gets _) _ (Ensures-gets _ _ _ _ (λ s k. k))
            (λ affected.
              Ensures-bind _ (λ _. On IsTidy) _ _ (modify _) _
                (Ensures-modify _ _ _ _ (λ w h.
                  relabel-IsTidy _
                    (λ r. record r {
                      last_updated_time = e.now n;
                      l1_block_number = number;
                      l1_block_hash = hash;
                    })
                    w.next_id w.rows (λ r. refl) (λ r k. k) (λ b r. omega arith) h))
                (λ _.
                  Ensures-bind _ (λ _. On IsTidy) _ _ (raise_if (affected == 0) _) _
                    (Reads-raise_if e (affected == 0) _ (OnTable IsTidy))
                    (λ _.
                      Ensures-bind _ (λ _. On IsTidy) _ _ (query e _) _
                        (Reads-query e _ (OnTable IsTidy))
                        (λ rows. Reads-only_row rows (OnTable IsTidy))))))

  reuse_checkpoint-IsTidy :
      (next : Request) (o : Option Request) → Keeps (On IsTidy) (reuse_checkpoint e next o)
  unfolding reuse_checkpoint
  reuse_checkpoint-IsTidy next none = Reads-pure next (OnTable IsTidy)
  reuse_checkpoint-IsTidy next (some p) = add_l1_block_info-IsTidy _ _ _ _

  checkpointed-IsTidy :
      (again : Request)
      → Keeps (On IsTidy) (
          checkpoint_block_hash e >>= λ (number, hash).
          add_l1_block_info_to_agg_request e again.start_block again.end_block number
            (hash_hex hash))
  checkpointed-IsTidy again =
      Ensures-bind _ (λ _. On IsTidy) _ _ (checkpoint_block_hash e) _
        (Reads-checkpoint_block_hash e (OnTable IsTidy)) (λ found. add_l1_block_info-IsTidy _ _ _ _)

  with_checkpoint-IsTidy : (next : Request) → Keeps (On IsTidy) (with_checkpoint e next)
  unfolding with_checkpoint get_proof_requests_with_block_range_and_status
  with_checkpoint-IsTidy next =
      Ensures-if _ _ _ (is_blank next.l1_block_hash) _ (pure next)
        (λ _.
          Ensures-bind _ (λ _. On IsTidy) _ _ (query e _) _ (Reads-query e _ (OnTable IsTidy))
            (λ existing.
              Ensures-bind _ (λ _. On IsTidy) _ _
                (reuse_checkpoint e next (first_checkpointed existing)) _
                (reuse_checkpoint-IsTidy next _)
                (λ again.
                  Ensures-if _ _ _ (is_blank again.l1_block_hash) _ (pure again)
                    (λ _. checkpointed-IsTidy again) (λ _. Reads-pure again (OnTable IsTidy)))))
        (λ _. Reads-pure next (OnTable IsTidy))

  request_next-IsTidy :
      (cfg : Config) (o : Option Request) → Keeps (On IsTidy) (request_next e cfg o)
  unfolding request_next
  request_next-IsTidy cfg none = Reads-pure tt (OnTable IsTidy)
  request_next-IsTidy cfg (some next) =
      Ensures-if _ _ _ (is_type next agg) _ (request_span e cfg next)
        (λ _.
          Ensures-bind _ (λ _. On IsTidy) _ _ (with_checkpoint e next) _
            (with_checkpoint-IsTidy next) (λ ready. spawn-Ensures e _ _ _ ready (λ w h. h)))
        (λ _. request_span-Ensures e (OnTable IsTidy) (On IsTidy) cfg next (λ w h. h) (λ w h. h))

  -- Whatever fails or is answered, stage 5 keeps the table tidy.
  pub request_queued_proofs-IsTidy :
      (cfg : Config) → Keeps (On IsTidy) (request_queued_proofs e cfg)
  unfolding request_queued_proofs
  request_queued_proofs-IsTidy cfg =
      Ensures-bind _ (λ _. On IsTidy) _ _ (get_next_unrequested_proof e) _
        (Reads-get_next_unrequested_proof e (OnTable IsTidy)) (request_next-IsTidy cfg)
