-- ===== src/Driver/Lifecycle.antt =====
-- `StartL2OutputSubmitting` and `StopL2OutputSubmitting` (driver.go) and the flags of the driver.
use optimism_zkp.Prelude.{◌≡◌, ◌∙◌, refl, subst, Bool, true, false, not}
use optimism_zkp.Prelude.Effects.{
  err, raise, gets, modify, for_each, not_running, already_running, already_closed, ◌>>=◌,
}
use optimism_zkp.Prelude.Effects.Ensures.{
  Ends, Ensures, Ensures-pure, Ensures-raise, Ensures-gets, Ensures-modify, Ensures-bind,
  Ensures-if, Ensures-weaken, Ensures-given, Ensures-state,
}
use optimism_zkp.Request.{witnessgen, no_response}
use optimism_zkp.World.{Env, World, Config, statement}
use optimism_zkp.Db.{get_all_proofs_with_status}
use optimism_zkp.Prove.{retry_request}
use optimism_zkp.Prove.Http.{validate_config}
use optimism_zkp.Driver.Quiet.{
  OnFlags, IsQuiet-query, IsQuiet-for_each, IsQuiet-retry_request, IsQuiet-validate_config,
  IsQuiet-address_of, IsQuiet-statement,
}
use optimism_zkp.Db.Open.{close_db}
use optimism_zkp.Driver.{address_of, start_l2_output_submitting, stop_l2_output_submitting}

module _ (e : Env) where
  -- What is left after `running` was set.
  abbrev IsStarting : World → Type 0
  IsStarting = OnFlags (λ running looping closed. (running ≡ true) × (looping ≡ false))

  -- The flags once the driver runs, and once a start has failed: the driver says that it runs, no loop does,
  -- and no further start gets past the first test.
  abbrev pub IsRunning : World → Type 0
  IsRunning w = (w.running ≡ true) × (w.looping ≡ true)

  abbrev pub IsStuck : Config → World → Type 0
  IsStuck cfg w =
      (w.running ≡ true)
      × (w.looping ≡ false)
      × (start_l2_output_submitting e cfg w ≡ (err already_running, w))

  refused :
      (cfg : Config) (w : World)
      → w.running ≡ true
      → start_l2_output_submitting e cfg w ≡ (err already_running, w)
  unfolding start_l2_output_submitting ◌>>=◌ gets raise
  refused cfg w h = rw h refl

  -- The calls behind the flag `running`, for a claim about the flags.
  starting :
      (cfg : Config) (P Q : Bool → Bool → Bool → Type 0)
      → ((running looping closed : Bool) → P running looping closed → Q running true closed)
      → Ensures
          (OnFlags P)
          (get_all_proofs_with_status e witnessgen >>= λ reqs.
            for_each reqs (λ req. retry_request e req no_response) >>= λ _.
            (address_of e cfg >>= λ address.
            (validate_config e (e.address_hex address) >>= λ _.
            modify (λ w. record w { looping = true }))))
          (λ _. OnFlags Q)
          (OnFlags P)
  unfolding get_all_proofs_with_status
  starting cfg P Q h =
      Ensures-bind _ (λ _. OnFlags P) _ _ _ _ (IsQuiet-query e _ P)
        (λ reqs.
          Ensures-bind _ (λ _. OnFlags P) _ _ _ _
            (IsQuiet-for_each _ (λ r. IsQuiet-retry_request e r no_response) reqs P)
            (λ _.
              Ensures-bind _ (λ _. OnFlags P) _ _ (address_of e cfg) _ (IsQuiet-address_of e cfg P)
                (λ address.
                  Ensures-bind _ (λ _. OnFlags P) _ _ (validate_config e _) _
                    (IsQuiet-validate_config e _ P)
                    (λ _. Ensures-modify _ _ _ _ (λ w k. h w.running w.looping w.closed k)))))

  abbrev IsIdle : World → Type 0
  IsIdle = OnFlags (λ running looping closed. (running ≡ false) × (looping ≡ false))

  start-Ensures :
      (cfg : Config)
      → Ensures IsIdle (start_l2_output_submitting e cfg) (λ _. IsRunning) (IsStuck cfg)
  unfolding start_l2_output_submitting
  start-Ensures cfg =
      Ensures-bind _ (λ running w. IsIdle w × (running ≡ false)) _ _ (gets _) _
        (Ensures-gets _ _ _ _ (λ w h. (h, h.0)))
        (λ running.
          Ensures-if _ (λ _. IsRunning) (IsStuck cfg) running (raise already_running) _
            (λ taken.
              Ensures-given _ _ _ _ (λ w h. h.1)
                (λ kept. absurd (true_is_not_false running taken kept)))
            (λ kept.
              Ensures-bind _ (λ _. IsStarting) _ _ (modify _) _
                (Ensures-modify _ _ _ _ (λ w h. (refl, h.0.1)))
                (λ _.
                  Ensures-weaken _ _
                    (starting cfg _ (λ running looping closed. (running ≡ true) × (looping ≡ true))
                      (λ running looping closed h. (h.0, refl)))
                    (λ a w h. h) (λ w h. (h.0, h.1, refused cfg w h.0)))))
    where
      true_is_not_false : (b : Bool) → b ≡ true → b ≡ false → ⊥
      true_is_not_false b taken kept = cc

  -- From a driver that does not run, a start that succeeds leaves it running with its loop, and one
  -- that fails, at whichever call, leaves it marked as running without a loop, so that every further
  -- start is refused.
  pub start_l2_output_submitting_lem :
      (cfg : Config) (w : World)
      → w.running ≡ false
      → w.looping ≡ false
      → Ends (λ _. IsRunning) (IsStuck cfg) (start_l2_output_submitting e cfg w)
  start_l2_output_submitting_lem cfg w h k = (start-Ensures cfg).at w (h, k)

  -- Once the channel is closed, it stays closed, and a start leaves the driver marked as running.
  abbrev Closed : World → Type 0
  Closed = OnFlags (λ running looping closed. closed ≡ true)

  abbrev Reopened : World → Type 0
  Reopened = OnFlags (λ running looping closed. (running ≡ true) × (closed ≡ true))

  start-Reopened :
      (cfg : Config) → Ensures Closed (start_l2_output_submitting e cfg) (λ _. Reopened) Reopened
  unfolding start_l2_output_submitting
  start-Reopened cfg =
      Ensures-bind _ (λ running w. Closed w × (w.running ≡ running)) _ _ (gets _) _
        (Ensures-gets _ _ _ _ (λ w h. (h, refl)))
        (λ running.
          Ensures-if _ (λ _. Reopened) Reopened running (raise already_running) _
            (λ taken. Ensures-raise _ _ _ _ (λ w h. (h.1 ∙ taken, h.0)))
            (λ kept.
              Ensures-bind _ (λ _. Reopened) _ _ (modify _) _
                (Ensures-modify _ _ _ _ (λ w h. (refl, h.0)))
                (λ _. starting cfg _ _ (λ running looping closed h. h))))

  stop-Closed : Ensures (λ w. w.running ≡ true) (stop_l2_output_submitting e) (λ _. Closed) Closed
  unfolding stop_l2_output_submitting close_db
  stop-Closed =
      Ensures-bind _ (λ running w. running ≡ true) _ _ (gets _) _ (Ensures-gets _ _ _ _ (λ w h. h))
        (λ running.
          Ensures-given _ _ _ _ (λ w h. h)
            (λ taken.
              Ensures-if _ (λ _. Closed) Closed (not running) (raise not_running) _
                (λ kept. absurd (not_taken running taken kept))
                (λ _.
                  Ensures-bind _ (λ _ w. Unit {0}) _ _ (modify _) _
                    (Ensures-modify _ _ _ _ (λ w h. tt))
                    (λ _.
                      Ensures-bind _ (λ closed w. w.closed ≡ closed) _ _ (gets _) _
                        (Ensures-gets _ _ _ _ (λ w h. refl))
                        (λ closed.
                          Ensures-if _ (λ _. Closed) Closed closed (raise already_closed) _
                            (λ shut. Ensures-raise _ _ _ _ (λ w h. h ∙ shut))
                            (λ _.
                              Ensures-bind _ (λ _. Closed) _ _ (modify _) _
                                (Ensures-modify _ _ _ _ (λ w h. refl))
                                (λ _.
                                  Ensures-bind _ (λ _. Closed) _ _ (statement e) _
                                    (IsQuiet-statement e _)
                                    (λ _.
                                      Ensures-bind _ (λ _. Closed) _ _ (statement e) _
                                        (IsQuiet-statement e _)
                                        (λ _. Ensures-pure _ _ _ tt (λ w h. h))))))))))
    where
      not_taken : (b : Bool) → b ≡ true → not b ≡ true → ⊥
      not_taken b taken kept = true_or (subst (λ (x : Bool). not x ≡ true) taken kept)
        where
          true_or : not true ≡ true → ⊥
          true_or k = cc

  panics : (w : World) → Reopened w → (stop_l2_output_submitting e w).0 ≡ err already_closed
  unfolding stop_l2_output_submitting ◌>>=◌ gets modify raise
  panics w h = rw (h.0, h.1) refl

  -- From a running driver, a stop, then a start, then a stop: whatever fails on the way, the last one panics
  -- on the closed channel.
  pub stop_start_stop :
      (cfg : Config) (w : World)
      → w.running ≡ true
      → (stop_l2_output_submitting e
          (start_l2_output_submitting e cfg (stop_l2_output_submitting e w).1).1).0
        ≡ err already_closed
  stop_start_stop cfg w h = panics _ (
      Ensures-state _ _ (start_l2_output_submitting e cfg) (start-Reopened cfg) _
        (Ensures-state _ _ (stop_l2_output_submitting e) stop-Closed w h))
