-- ===== src/Prove/Derive.antt =====
-- Stage 4 of a poll, `DeriveAggProofs` (prove.go), under the invariant of the table.
use optimism_zkp.Prelude.{
  ℕ, ◌^◌, ◌<◌, ◌≡◌, true, false, ◌&&◌, some, List, [], ◌∷◌, ltb, leb, All, All-map, All-select,
  All-sort_by, arith,
}
use optimism_zkp.Prelude.Effects.{pure, gets, ◌>>=◌}
use optimism_zkp.Prelude.Effects.Ensures.{
  Ensures, Keeps, Ensures-pure, Ensures-gets, Ensures-bind, Ensures-weaken, Ensures-before,
  Ensures-given, Ensures-if,
}
use optimism_zkp.Request.{Request, span, agg, complete}
use optimism_zkp.World.{Env, ScansRows, statement}
use optimism_zkp.Db.{
  is_type, has_status, contiguous_end, new_entry, get_max_contiguous_span_proof_range,
  try_create_agg_proof_from_span_proofs,
}
use optimism_zkp.Db.Reads.{On, OnTable, Reads-statement, Ensures-ask, query-rows}
use optimism_zkp.Db.Claims.{one, nought, less_room, IsTidy}
use optimism_zkp.Db.Claims.Held.{Held, less_room-Held, new_entry-Held}
use optimism_zkp.Prove.{derive_agg_proofs}

pub contiguous_end-lt :
    (limit current : ℕ) (l : List Request)
    → current < limit
    → All (λ r. r.end_block < limit) l
    → contiguous_end current l < limit
unfolding contiguous_end
contiguous_end-lt limit current [] h a = h
contiguous_end-lt limit current (x ∷ l) h a =
    ground (arith, contiguous_end-lt limit x.end_block l a.0 a.1)

module _ (e : Env) where
  agg-IsTidy : (start end : ℕ) → end < 2 ^ 63 → Keeps (On IsTidy) (new_entry e agg start end)
  agg-IsTidy start end h =
      Ensures-before (On (Held one nought [])) _ (new_entry e agg start end)
        (λ s k. record { within = k; stored = tt; distinct = tt })
        (Ensures-before _ _ (new_entry e agg start end) (λ s k. less_room-Held (λ b. omega arith) k)
          (Ensures-weaken _ (new_entry e agg start end)
            (new_entry-Held e one nought [] agg start end ((λ t. ground arith), h))
            (λ a s k. k.within) (λ s k. less_room (λ b. omega arith) k.within)))

  max_contiguous-lt :
      ScansRows e
      → (start : ℕ) → start < 2 ^ 63
      → Ensures
          (On IsTidy)
          (get_max_contiguous_span_proof_range e start)
          (λ m w. On IsTidy w × (m < 2 ^ 63))
          (On IsTidy)
  unfolding get_max_contiguous_span_proof_range
  max_contiguous-lt scans start h =
      Ensures-bind _ _ _ _ _ _
        (query-rows e scans
          (λ r. is_type r span && has_status r complete && leb start r.start_block) IsTidy
          (λ n rows r. r.end_block < 2 ^ 63)
          (λ n rows k. All-select _ _ rows (All-map _ _ rows (λ r p. p.1) k.ranges)))
        (λ rows.
          Ensures-pure _ _ _ _
            (λ s k. (k.0, contiguous_end-lt (2 ^ 63) start _ h (All-sort_by _ _ rows k.1))))

  try_create-IsTidy :
      ScansRows e
      → (from min_to : ℕ) → from < 2 ^ 63
      → Keeps (On IsTidy) (try_create_agg_proof_from_span_proofs e from min_to)
  unfolding try_create_agg_proof_from_span_proofs
  try_create-IsTidy scans from min_to h =
      Ensures-bind _ (λ _. On IsTidy) _ _ (statement e) _ (Reads-statement e (OnTable IsTidy))
        (λ n.
          Ensures-bind _ (λ _. On IsTidy) _ _ (gets _) _ (Ensures-gets _ _ _ _ (λ s k. k))
            (λ found.
              Ensures-if _ _ _ (ltb 0 found) (pure (false, 0)) _
                (λ _. Ensures-pure _ _ _ _ (λ s k. k))
                (λ _. Ensures-bind _ _ _ _ _ _ (max_contiguous-lt scans from h) (λ m.
                  Ensures-if _ _ _ (ltb m min_to) (pure (false, 0))
                    (new_entry e agg from m >>= λ _. pure (true, m))
                    (λ _. Ensures-pure _ _ _ _ (λ s k. k.0))
                    (λ _.
                      Ensures-given _ _ _ _ (λ s k. k.1)
                        (λ small.
                          Ensures-bind _ (λ _. On IsTidy) _ _ (new_entry e agg from m) _
                            (Ensures-before _ _ (new_entry e agg from m) (λ s k. k.0)
                              (agg-IsTidy from m small))
                            (λ _. Ensures-pure _ _ _ _ (λ s k. k))))))))

  -- Whatever fails or is answered, stage 4 keeps the table tidy.
  pub derive_agg_proofs-IsTidy :
      ScansRows e
      → ((n b : ℕ) → e.latest_block_number n ≡ some b → b < 2 ^ 63)
      → Keeps (On IsTidy) (derive_agg_proofs e)
  unfolding derive_agg_proofs
  derive_agg_proofs-IsTidy scans contract =
      Ensures-bind _ _ _ _ _ _ (Ensures-ask (OnTable IsTidy) e.latest_block_number) (λ latest.
        Ensures-given _ _ _ _ (λ s k. contract k.1.0 latest k.1.1)
          (λ small.
            Ensures-before (On IsTidy) _ _ (λ s k. k.0)
              (Ensures-bind _ _ _ _ _ _ (Ensures-ask (OnTable IsTidy) e.next_block_number)
                (λ min_to.
                  Ensures-bind _ (λ _. On IsTidy) _ _
                    (try_create_agg_proof_from_span_proofs e latest min_to) _
                    (Ensures-before _ _ _ (λ s k. k.0)
                      (try_create-IsTidy scans latest min_to small))
                    (λ _. Ensures-pure _ _ _ tt (λ s k. k))))))
