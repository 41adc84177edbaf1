-- ===== src/Driver/System/History.antt =====
-- The steps of the proposer, and the processes after it, on the rows that were there before, whatever fails.
use optimism_zkp.Prelude.{ℕ, not, true, ◌≡◌, Option, none, some, List, ◌++◌}
use optimism_zkp.Prelude.Effects.{
  Result, ok, err, raise, gets, modify, for_each, already_running, not_running, already_closed,
  not_found,
}
use optimism_zkp.Prelude.Effects.Ensures.{Keeps-state, Ensures-modify}
use optimism_zkp.Request.{Request, witnessgen, no_response, span}
use optimism_zkp.World.{Env, Config, ScansRows}
use optimism_zkp.Db.{update_proof_status, get_all_proofs_with_status, get_latest_end_block}
use optimism_zkp.Db.Open.{close_db, init_db}
use optimism_zkp.Db.Table.{find}
use optimism_zkp.Db.Ids.{Ids}
use optimism_zkp.Db.Reads.{
  On, Reads-bind, Reads-pure, Reads-query, Reads-statement, Reads-gets, Reads-ask, Reads-first_row,
}
use optimism_zkp.Db.History.{Evolves, Grows-refl, IsHistory, find-Grows}
use optimism_zkp.Db.History.Calls.{
  Records, Records-read, Records-pure, Records-raise, Records-if, Records-bind, Records-catch,
  Records-for_each, Records-new_entry, Records-status,
}
use optimism_zkp.Range.{
  Span, split_range_basic, or_hangs, or_latest_block, get_range_proof_boundaries,
}
use optimism_zkp.Range.Stage.{Reads-dial}
use optimism_zkp.Prove.Http.{validate_config}
use optimism_zkp.Prove.History.{
  Records-retry, Records-proving, Records-witnessgen, Records-derive, Records-queued,
  Records-answer,
}
use optimism_zkp.Prove.Tracked.Run.{answer_request}
use optimism_zkp.Driver.{start_l2_output_submitting, stop_l2_output_submitting, address_of}
use optimism_zkp.Driver.Poll.{Reads-metrics, Reads-submit_agg_proofs}
use optimism_zkp.Driver.System.{
  System, Stage, metrics, range_boundaries, proving_requests, witnessgen_requests, agg_proofs,
  queued_proofs, submission, run_stage, Step, stage, mark, answer, start, stop,
}
use optimism_zkp.Driver.System.Crash.{
  cut_off, new_process, restarted, Life, born, lives, dies, init_db-Keeps,
}
use optimism_zkp.Driver.System.Calls.{Reads-validate_config, Reads-address}

module _ (past : List Request) (e : Env) where
  Records-latest : (r : Result ℕ) → Records past (or_latest_block e r)
  unfolding or_latest_block
  Records-latest (ok b) = Records-pure past b
  Records-latest (err not_found) = Records-read past _ (Reads-ask _)
  Records-latest (err x) = Records-raise past x

  Records-spans : (o : Option (List Span)) → Records past (or_hangs e o)
  Records-spans none = Records-raise past _
  Records-spans (some spans) = Records-pure past spans

  Records-range : (cfg : Config) → Records past (get_range_proof_boundaries e cfg)
  unfolding get_range_proof_boundaries get_latest_end_block
  Records-range cfg =
      Records-bind past _ _
        (Records-catch past (get_latest_end_block e) _
          (Records-read past _ (
            Reads-bind _ _ (Reads-query e _)
              (λ l. Reads-bind _ _ (Reads-first_row _) (λ r. Reads-pure _))))
          Records-latest)
        (λ i. Records-bind past _ _ (Records-read past _ (Reads-dial e)) (λ _.
          Records-bind past _ _ (Records-read past _ (Reads-ask e.sync_status)) (λ status.
            Records-bind past
              (or_hangs e
                (split_range_basic cfg.max_block_range_per_span_proof i status.finalized_l2))
              _ (Records-spans _)
              (λ spans.
                Records-for_each past _ (λ s. Records-new_entry past e span s.start s.end) spans))))

  run_stage-Records : ScansRows e → (cfg : Config) (s : Stage) → Records past (run_stage e cfg s)
  unfolding run_stage
  run_stage-Records scans cfg metrics =
      Records-bind past _ _ (Records-read past _ (Reads-metrics e)) (λ _. Records-pure past tt)
  run_stage-Records scans cfg range_boundaries = Records-range cfg
  run_stage-Records scans cfg proving_requests = Records-proving past e scans
  run_stage-Records scans cfg witnessgen_requests = Records-witnessgen past e cfg
  run_stage-Records scans cfg agg_proofs = Records-derive past e
  run_stage-Records scans cfg queued_proofs = Records-queued past e cfg
  run_stage-Records scans cfg submission = Records-read past _ (Reads-submit_agg_proofs e cfg)

  start-Records : (cfg : Config) → Records past (start_l2_output_submitting e cfg)
  unfolding start_l2_output_submitting get_all_proofs_with_status
  start-Records cfg = Records-bind past (gets _) _ (Records-read past _ (Reads-gets _)) (λ running.
      Records-if past running (raise already_running) _ (Records-raise past _) (
        Records-bind past (modify _) _ (Ensures-modify _ _ _ _ (λ w k. k)) (λ _.
          Records-bind past _ _ (Records-read past _ (Reads-query e _)) (λ reqs.
            Records-bind past (for_each reqs _) _
              (Records-for_each past _ (λ r. Records-retry past e r no_response) reqs)
              (λ _.
                Records-bind past (address_of e cfg) _ (Records-read past _ (Reads-address e cfg))
                  (λ address.
                    Records-bind past (validate_config e _) _
                      (Records-read past _ (Reads-validate_config e _))
                      (λ _. Ensures-modify _ _ _ _ (λ w k. k))))))))

  stop-Records : Records past (stop_l2_output_submitting e)
  unfolding stop_l2_output_submitting close_db
  stop-Records = Records-bind past (gets _) _ (Records-read past _ (Reads-gets _)) (λ running.
      Records-if past (not running) (raise not_running) _ (Records-raise past _) (
        Records-bind past (modify _) _ (Ensures-modify _ _ _ _ (λ w k. k)) (λ _.
          Records-bind past (gets _) _ (Records-read past _ (Reads-gets _)) (λ closed.
            Records-if past closed (raise already_closed) _ (Records-raise past _) (
              Records-bind past (modify _) _ (Ensures-modify _ _ _ _ (λ w k. k)) (λ _.
                Records-read past _ (
                  Reads-bind _ _ (Reads-statement e)
                    (λ _. Reads-bind _ _ (Reads-statement e) (λ _. Reads-pure tt)))))))))

  abbrev Later : System → Type 0
  Later s = On (IsHistory past) s.world

  Step-Later : ScansRows e → (cfg : Config) {s t : System} → Step e cfg s t → Later s → Later t
  Step-Later scans cfg (stage x w waiting) k =
      Keeps-state _ (run_stage e cfg x) (run_stage-Records scans cfg x) w k
  Step-Later scans cfg (mark w waiting before p after same) k =
      Keeps-state _ (update_proof_status e p.id witnessgen) (Records-status past e p.id witnessgen)
        (record w { spawned = before ++ after }) k
  Step-Later scans cfg (answer w before p after) k =
      Keeps-state _ (answer_request e cfg p) (Records-answer past e scans cfg p) w k
  Step-Later scans cfg (start w waiting) k =
      Keeps-state _ (start_l2_output_submitting e cfg) (start-Records cfg) w k
  Step-Later scans cfg (stop w waiting) k =
      Keeps-state _ (stop_l2_output_submitting e) stop-Records w k

  cut_off-ScansRows : (k : ℕ) → ScansRows e → ScansRows (cut_off k e)
  cut_off-ScansRows k scans = record { rows = scans.rows; each = scans.each }

module _ (past : List Request) (e : Env) (scans : ScansRows e) (cfg : Config) where
  Life-Later : {s t : System} → Life e cfg true s t → Later past e s → Later past e t
  unfolding restarted
  Life-Later born k = k
  Life-Later (lives path step) k = Step-Later past e scans cfg step (Life-Later path k)
  Life-Later (dies {t} {u} n d path step) k =
      let cut =
        Step-Later past (cut_off n e) (cut_off-ScansRows past e n scans) cfg step
          (Life-Later path k) in
      Keeps-state _ (init_db d true) (init_db-Keeps (On (IsHistory past)) d) (new_process u.world)
        cut

-- Where queries return the selected rows, keys rise and the database is opened as cached: whatever fails, in
-- whatever order stages, goroutines, starts and stops come, and however often the process dies, at any call
-- within a step, and is started again, each row of the table is found later under its key, with its type,
-- range and creation time, and with its proof, if it had one.
pub Life-Evolves :
    (e : Env)
    → ScansRows e
    → (cfg : Config) (s t : System) → Ids s.world.next_id s.world.rows
    → Life e cfg true s t
    → (key : ℕ) (r : Request) → find key s.world.rows ≡ some r
    → (r' : Request) × (find key t.world.rows ≡ some r') × Evolves r r'
Life-Evolves e scans cfg s t ids life key r there =
    let later =
      Life-Later s.world.rows e scans cfg life
        (record { ids = ids; grown = Grows-refl s.world.rows }) in
    find-Grows t.world.next_id key r later.grown later.ids there
