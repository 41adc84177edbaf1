-- ===== src/Prove/Revive.antt =====
-- `RequestProof` (prove.go) on a request that was retried in the meantime.
use optimism_zkp.Prelude.{
  ◌∙◌, ℕ, suc, ◌+◌, ◌<◌, ◌≡◌, refl, Bool, true, false, some, List, [], ◌∷◌, inl, inr, Bool-cases,
  leb, ◌==◌, one_if, count, arith,
}
use optimism_zkp.Prelude.Effects.{ok, pure, ◌>>=◌}
use optimism_zkp.Request.{Bytes, Request, span, failed, proving}
use optimism_zkp.World.{Env, World, statement, call, observe, response, request_span_proof}
use optimism_zkp.Db.{is_type, has_status, update, update_proof_status, set_prover_request_id}
use optimism_zkp.Db.Table.{find, update_rows}
use optimism_zkp.Db.Ids.{Ids, count-update_rows}
use optimism_zkp.Db.Chain.{covers}
use optimism_zkp.Db.Claims.{claims, claims_of}
use optimism_zkp.Prove.{prepare_proof_request, request_proof}
use optimism_zkp.Prove.Http.{body_of, make_proof_request, request_real_proof, get_proof_endpoint}

-- An update that the test does not see leaves the count alone.
count-update_rows_unseen :
    (q p : Request → Bool) (f : Request → Request) (rows : List Request)
    → ((r : Request) → q (f r) ≡ q r)
    → count q (update_rows p f rows) ≡ count q rows
unfolding update_rows count
count-update_rows_unseen q p f [] h = refl
count-update_rows_unseen q p f (x ∷ rows) h = elim (Bool-cases (p x)) [
  | inl e ↦ rw (e, h x, count-update_rows_unseen q p f rows h) refl
  | inr e ↦ rw (e, count-update_rows_unseen q p f rows h) refl
]

abbrev prove_row : ℕ → Request → Request
prove_row now r = record r { status = proving; last_updated_time = now }

revived :
    (n now b : ℕ) (rows : List Request) (r : Request)
    → Ids n rows
    → find r.id rows ≡ some r
    → is_type r span ≡ true
    → has_status r failed ≡ true
    → claims_of b (update_rows (λ x. x.id == r.id) (prove_row now) rows)
      ≡ claims_of b rows + one_if (covers b r)
revived n now b rows r ids found s f =
    ground (arith, count-update_rows (claims b) n r.id (prove_row now) rows r ids found)

pub prepared :
    (e : Env) (p : Request) (w : World)
    → p.type ≡ span
    → p.start_block < p.end_block
    → prepare_proof_request e p w
      ≡ (ok (e.span_json (record { start = p.start_block; end = p.end_block })), w)
unfolding prepare_proof_request pure
prepared e p w t range =
    let test : leb p.end_block p.start_block ≡ false = ground arith in rw t (rw test refl)

pub accepted :
    (e : Env) (json body proof_id : Bytes) (w : World)
    → ((n : ℕ) (json : Bytes) → e.post n request_span_proof json ≡ response 200 (some body))
    → e.parse_proof_id body ≡ some proof_id
    → request_real_proof e span false json w ≡ (ok proof_id, record w { calls = suc w.calls })
unfolding request_real_proof make_proof_request get_proof_endpoint body_of observe call ◌>>=◌
accepted e json body proof_id w answers parsed = rw (answers w.calls json) (rw parsed refl)

-- In a table whose keys rise with the insertions, where no statement fails, let a span request stand that
-- was marked FAILED after its goroutine had taken it up as `p`. Where the server then accepts the request,
-- the goroutine succeeds, and each block of the range of that request has gained a claim.
pub request_proof_revives :
    (e : Env) (p r : Request) (w : World) (body proof_id : Bytes)
    → ((n : ℕ) → e.fault n ≡ false)
    → Ids w.next_id w.rows
    → r.id ≡ p.id
    → find r.id w.rows ≡ some r
    → is_type r span ≡ true
    → has_status r failed ≡ true
    → p.type ≡ span
    → p.start_block < p.end_block
    → ((n : ℕ) (json : Bytes) → e.post n request_span_proof json ≡ response 200 (some body))
    → e.parse_proof_id body ≡ some proof_id
    → ((request_proof e p false w).0 ≡ ok tt)
      × ((b : ℕ)
          → claims_of b (request_proof e p false w).1.rows
            ≡ claims_of b w.rows + one_if (covers b r))
unfolding request_proof update_proof_status set_prover_request_id update statement ◌>>=◌
request_proof_revives e p r w body proof_id f ids same found s g t range answers parsed =
    rw (prepared e p w t range) (
      rw t (
        rw (accepted e _ body proof_id w answers parsed) (
          rw (f (suc w.calls), f (suc (suc w.calls)))
            (
              refl,
              λ b.
                  count-update_rows_unseen (claims b) _ _ _ (λ x. refl)
                  ∙ rw (← same) (revived w.next_id _ b w.rows r ids found s g),
            ))))
