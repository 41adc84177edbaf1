-- ===== src/Prove/Deliver.antt =====
-- A span request from its goroutine to its proof (prove.go): `RequestProof` and, behind the answer of
-- the server, the step of `ProcessProvingRequests`.
use optimism_zkp.Prelude.{
  ℕ, suc, ◌<◌, ◌≡◌, ◌≢◌, refl, sym, subst, ap, ◌∙◌, true, false, Option, none, some,
}
use mathlib.Core.Option.{some-ne-none}
use optimism_zkp.Prelude.Effects.{ok, pure, ◌>>=◌, catch}
use optimism_zkp.Request.{
  Bytes, Request, span, witnessgen, proving, complete, FulfillmentStatus, ProofStatusResponse,
}
use optimism_zkp.World.{
  Env, World, Config, ScansRows, IsSteady, call, observe, response, request_span_proof, status,
  statement,
}
use optimism_zkp.Db.{
  id_is, has_status, is_set, query, update, roll_back, transaction, update_proof_status,
  add_fulfilled_proof,
}
use optimism_zkp.Db.Table.{
  find, update_rows, hex_encode, with_status, with_prover_request_id, with_proof,
}
use optimism_zkp.Db.Ids.{Ids, find-id, Ids-update_rows, find-update_rows_ne}
use optimism_zkp.Db.History.{Evolves}
use optimism_zkp.Db.Found.{
  bind_ok, catch_ok, update_by, update_proof_status_by, set_prover_request_id_by, find-update_rows,
  scan_found,
}
use optimism_zkp.Prove.{
  prepare_proof_request, request_proof, or_retry, run_request, process_fulfillment,
  process_proving_request,
}
use optimism_zkp.Prove.Http.{body_of, get_proof_status, request_real_proof}
use optimism_zkp.Prove.Revive.{prepared, accepted}

-- The row behind the goroutine, whose three writes happen at these times.
abbrev pub requested : Bytes → ℕ → ℕ → ℕ → Request → Request
requested i t u v r =
    with_prover_request_id v (with_status u (with_status t r witnessgen) proving) (hex_encode i)

-- The world behind a request that is accepted.
abbrev behind_request : Env → Request → Bytes → World → World
behind_request e p i w =
    update_by e p.id (λ now r. with_prover_request_id now r (hex_encode i))
      (update_by e p.id (λ now r. with_status now r proving) (record w { calls = suc w.calls }))

module _ (e : Env) (steady : IsSteady e) (p : Request) (w : World) (body i : Bytes)
    (t : p.type ≡ span) (range : p.start_block < p.end_block)
    (answers : (n : ℕ) (json : Bytes) → e.post n request_span_proof json ≡ response 200 (some body))
    (parsed : e.parse_proof_id body ≡ some i) where
  request_proof_accepted : request_proof e p false w ≡ (ok tt, behind_request e p i w)
  unfolding request_proof
  request_proof_accepted =
      bind_ok (prepare_proof_request e p) _ w w (prepared e p w t range) _
      ∙ rw t (
          bind_ok (request_real_proof e span false _) i w _ (accepted e _ body i w answers parsed) _
          ∙ bind_ok (update_proof_status e p.id proving) tt _ _
              (update_proof_status_by e steady p.id proving _) _
          ∙ set_prover_request_id_by e steady p.id i _)

module _ (e : Env) (steady : IsSteady e) where
  status_answered :
      (i b : Bytes) (s : ProofStatusResponse) (w : World)
      → ((n : ℕ) → e.get n (status i) ≡ response 200 (some b))
      → e.parse_status b ≡ some s
      → get_proof_status e i w ≡ (ok s, record w { calls = suc w.calls })
  unfolding get_proof_status body_of observe call pure ◌>>=◌
  status_answered i b s w answers parsed = rw (answers w.calls) (rw parsed refl)

  -- The world behind `AddFulfilledProof` on a row in PROVING without a proof.
  abbrev pub behind_proof : ℕ → Option Bytes → World → World
  behind_proof key proof w = record w {
    calls = suc (suc (suc (suc w.calls)));
    rows =
        update_rows (λ x. id_is x key) (λ r. with_proof (e.now (suc (suc w.calls))) r proof) w.rows;
  }

  add_fulfilled_proof_found :
      ScansRows e
      → (r : Request) (proof : Option Bytes) (w : World) → Ids w.next_id w.rows
      → find r.id w.rows ≡ some r
      → has_status r proving ≡ true
      → is_set r.proof ≡ false
      → add_fulfilled_proof e r.id proof w ≡ (ok tt, behind_proof r.id proof w)
  unfolding add_fulfilled_proof transaction roll_back query update statement pure catch ◌>>=◌
  add_fulfilled_proof_found scans r proof w ids found p q = rw (steady w.calls) (
      rw (steady (suc w.calls)) (
        rw (scan_found e scans (suc w.calls) w.next_id r.id w.rows r ids found) (
          rw p
            (rw q (rw (steady (suc (suc w.calls))) (rw (steady (suc (suc (suc w.calls)))) refl))))))

-- A row in PROVING under this prover's key.
abbrev pub IsProving : Bytes → ℕ → Request → World → Request → Type 0
IsProving i key r w r' =
    (find key w.rows ≡ some r')
    × (r'.status ≡ proving)
    × (r'.prover_request_id ≡ hex_encode i)
    × (r'.proof ≡ none)
    × Evolves r r'

-- The row is complete with the proof, and the other rows are those of the world before.
abbrev pub IsDelivered : Option Bytes → ℕ → Request → World → World → Type 0
IsDelivered proof key r w w' =
    (r' : Request) × (find key w'.rows ≡ some r')
    × (r'.status ≡ complete)
    × (r'.proof ≡ proof)
    × Evolves r r'
    × ((j : ℕ) → key ≢ j → find j w'.rows ≡ find j w.rows)

module _ (e : Env) (steady : IsSteady e) (cfg : Config) (real : cfg.mock ≡ false) (p r : Request)
    (w : World) (body i : Bytes) (ids : Ids w.next_id w.rows) (found : find p.id w.rows ≡ some r)
    (fresh : r.proof ≡ none) (t : p.type ≡ span) (range : p.start_block < p.end_block)
    (answers : (n : ℕ) (json : Bytes) → e.post n request_span_proof json ≡ response 200 (some body))
    (parsed : e.parse_proof_id body ≡ some i) where
  abbrev taken : World
  taken = update_by e p.id (λ now r. with_status now r witnessgen) w

  abbrev behind_run : World
  behind_run = behind_request e p i taken

  run_request_accepted : run_request e cfg p w ≡ (ok tt, behind_run)
  unfolding run_request or_retry pure
  run_request_accepted =
      bind_ok (update_proof_status e p.id witnessgen) tt w taken
        (update_proof_status_by e steady p.id witnessgen w) _
      ∙ rw real (
          catch_ok (request_proof e p false) tt taken behind_run
            (request_proof_accepted e steady p taken body i t range answers parsed) _)

  behind_run-found :
      find p.id behind_run.rows
      ≡ some (
          requested i
            (e.now w.calls)
            (e.now (suc (suc w.calls)))
            (e.now (suc (suc (suc w.calls))))
            r)
  behind_run-found =
      find-update_rows p.id _ _ _ (λ x. refl)
        (find-update_rows p.id _ _ _ (λ x. refl) (find-update_rows p.id _ _ _ (λ x. refl) found))

  behind_run-Ids : Ids behind_run.next_id behind_run.rows
  behind_run-Ids =
      Ids-update_rows _ _ _ _ (λ x. refl)
        (Ids-update_rows _ _ _ _ (λ x. refl) (Ids-update_rows _ _ _ _ (λ x. refl) ids))

  behind_run-other : (j : ℕ) → p.id ≢ j → find j behind_run.rows ≡ find j w.rows
  behind_run-other j h =
      find-update_rows_ne p.id j _ _ (λ x. refl) h
      ∙ find-update_rows_ne p.id j _ _ (λ x. refl) h
      ∙ find-update_rows_ne p.id j _ _ (λ x. refl) h

  abbrev there : Request
  there =
      requested i (e.now w.calls) (e.now (suc (suc w.calls))) (e.now (suc (suc (suc w.calls)))) r

  module _ (scans : ScansRows e) (b : Bytes) (s : ProofStatusResponse)
      (states : (n : ℕ) → e.get n (status (hex_encode i)) ≡ response 200 (some b))
      (read : e.parse_status b ≡ some s)
      (done : s.fulfillment_status ≡ FulfillmentStatus.fulfilled) where
    same_key : r.id ≡ p.id
    same_key = find-id p.id w.rows r found

    abbrev asked : World
    asked = record behind_run { calls = suc behind_run.calls }

    process_accepted :
        process_proving_request e there behind_run
        ≡ (ok tt, behind_proof e steady r.id s.proof asked)
    unfolding process_proving_request process_fulfillment
    process_accepted =
        bind_ok (get_proof_status e (hex_encode i)) s behind_run asked
          (status_answered e steady (hex_encode i) b s behind_run states read) _
        ∙ rw done (
            add_fulfilled_proof_found e steady scans there s.proof asked behind_run-Ids
              (subst (λ k. find k behind_run.rows ≡ some there) (sym same_key) behind_run-found)
              refl (ap is_set fresh))

    is_proving : IsProving i p.id r behind_run there
    is_proving = (
      behind_run-found,
      refl,
      refl,
      fresh,
      record { id = refl; type = refl; start = refl; end = refl; added = refl; proof = λ q h. h },
    )

    is_delivered : IsDelivered s.proof p.id r w (behind_proof e steady r.id s.proof asked)
    is_delivered =
        subst (λ k. IsDelivered s.proof p.id r w (behind_proof e steady k s.proof asked))
          (sym same_key)
          (
            with_proof (e.now (suc (suc asked.calls))) there s.proof,
            find-update_rows p.id _ _ _ (λ x. refl) behind_run-found,
            refl,
            refl,
            record {
              id = refl;
              type = refl;
              start = refl;
              end = refl;
              added = refl;
              proof = λ q h. absurd (some-ne-none q (sym h ∙ fresh));
            },
            λ j h. find-update_rows_ne p.id j _ _ (λ x. refl) h ∙ behind_run-other j h,
          )

    -- Where no statement fails, queries return the selected rows, keys rise and the server is not a
    -- mock: if it accepts the span request of a nonempty range for a row without a proof, and says of
    -- the key that it gave that the request is fulfilled, then the goroutine succeeds and leaves the
    -- row in PROVING under that key, the step of ProcessProvingRequests on this row succeeds and
    -- leaves it COMPLETE with the proof of the answer, its type, range and creation time as they
    -- were, and no other row has changed.
    pub request_delivers :
        ((run_request e cfg p w).0 ≡ ok tt)
        × ((r' : Request) × IsProving i p.id r (run_request e cfg p w).1 r'
            × ((process_proving_request e r' (run_request e cfg p w).1).0 ≡ ok tt)
            × IsDelivered s.proof p.id r w
                (process_proving_request e r' (run_request e cfg p w).1).1)
    request_delivers =
        rw run_request_accepted (
          refl,
          (there, is_proving, (rw process_accepted refl), (rw process_accepted is_delivered)),
        )
