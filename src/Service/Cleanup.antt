-- ===== src/Service/Cleanup.antt =====
-- What the initialisation of the service leaves behind (service.go).
use optimism_zkp.Prelude.{
  ℕ, ◌≡◌, refl, sym, ap, ◌∙◌, Bool, true, false, List, [], ◌∷◌, ◌++◌, if◌then◌else◌, ◌==◌, one_if,
  Bool-cases, inl, inr, select, count, arith,
}
use mathlib.Core.List.{append-nil, append_assoc}
use optimism_zkp.Prelude.Effects.{ok, pure, raise, gets, modify, catch, ◌>>=◌}
use optimism_zkp.Prelude.Effects.Ensures.{
  Ensures, Ensures-pure, Ensures-raise, Ensures-gets, Ensures-modify, Ensures-bind, Ensures-if,
  Ensures-weaken, Ensures-before, Ensures-given,
}
use optimism_zkp.World.{Env, World}
use optimism_zkp.Driver.{
  stop_l2_output_submitting, stop_l2_output_submitting_if_running, ignore_not_running,
}
use optimism_zkp.Service.{
  Resource, l1_client, rollup_provider, tx_manager, balance_metricer, metrics_srv, pprof_service,
  driver, rpc_server, Host, Service, rank, same_resource, release, stop_one, stop_all, stop_order,
  stop,
}

abbrev of_rank : ℕ → Resource
of_rank n =
    if n == 0
    then l1_client
    else if n == 1
    then rollup_provider
    else if n == 2
    then tx_manager
    else if n == 3
    then balance_metricer
    else if n == 4
    then metrics_srv
    else if n == 5
    then pprof_service
    else if n == 6
    then driver
    else rpc_server

of_rank-rank : (r : Resource) → of_rank (rank r) ≡ r
of_rank-rank l1_client = refl
of_rank-rank rollup_provider = refl
of_rank-rank tx_manager = refl
of_rank-rank balance_metricer = refl
of_rank-rank metrics_srv = refl
of_rank-rank pprof_service = refl
of_rank-rank driver = refl
of_rank-rank rpc_server = refl

same_resource-Same : (r x : Resource) → same_resource r x ≡ true → r ≡ x
same_resource-Same r x h =
    let same : rank r ≡ rank x = ground (arith, h) in
    sym (of_rank-rank r) ∙ ap of_rank same ∙ of_rank-rank x

-- Of the selected resources, each is counted as often as in the list.
count-select_same :
    (held : Resource → Bool) (r : Resource) (rs : List Resource)
    → count (same_resource r) (select held rs) ≡ (if held r then count (same_resource r) rs else 0)
unfolding count select
count-select_same held r [] = ground arith
count-select_same held r (x ∷ rs) = elim (Bool-cases (same_resource r x)) [
  | inl same ↦
      ground (arith, count-select_same held r rs, same, ap held (same_resource-Same r x same))
  | inr other ↦ ground (arith, count-select_same held r rs, other)
]

once : (r : Resource) → count (same_resource r) stop_order ≡ 1
unfolding count
once l1_client = refl
once rollup_provider = refl
once tx_manager = refl
once balance_metricer = refl
once metrics_srv = refl
once pprof_service = refl
once driver = refl
once rpc_server = refl

-- Stop or Close was called on each resource that is held, once, and on no other.
abbrev pub IsReleased : Service → Type 0
IsReleased s = (r : Resource) → count (same_resource r) s.released ≡ one_if (s.held r)

-- Nothing was released yet, and the driver does not run.
abbrev pub IsFresh : Service → Type 0
IsFresh s = (s.released ≡ []) × (s.stopped ≡ false) × (s.world.running ≡ false)

abbrev pub At : (Resource → Bool) → List Resource → Service → Type 0
At held released s =
    (s.held ≡ held) × (s.released ≡ released) × (s.stopped ≡ false) × (s.world.running ≡ false)

abbrev Never : Service → Type 0
Never s = ⊥

module _ (e : Env) (h : Host) where
  driver_idle :
      (w : World) → w.running ≡ false → stop_l2_output_submitting_if_running e w ≡ (ok tt, w)
  unfolding stop_l2_output_submitting_if_running stop_l2_output_submitting ignore_not_running ◌>>=◌
      gets raise catch pure
  driver_idle w k = rw k refl

  release-At :
      (held : Resource → Bool) (released : List Resource) (r : Resource)
      → Ensures (At held released) (release e h r) (λ _. At held released) Never
  unfolding release
  release-At held released driver = record { at = λ s k. rw (driver_idle s.world k.3) k }
  release-At held released l1_client = Ensures-pure _ _ _ _ (λ s k. k)
  release-At held released rollup_provider = Ensures-pure _ _ _ _ (λ s k. k)
  release-At held released tx_manager = Ensures-pure _ _ _ _ (λ s k. k)
  release-At held released balance_metricer = Ensures-pure _ _ _ _ (λ s k. k)
  release-At held released metrics_srv = Ensures-pure _ _ _ _ (λ s k. k)
  release-At held released pprof_service = Ensures-pure _ _ _ _ (λ s k. k)
  release-At held released rpc_server = Ensures-pure _ _ _ _ (λ s k. k)

  stop_one-At :
      (held : Resource → Bool) (released : List Resource) (r : Resource)
      → Ensures
          (At held released)
          (stop_one e h r)
          (λ _. At held (released ++ select held (r ∷ [])))
          Never
  unfolding stop_one select
  stop_one-At held released r =
      Ensures-bind _ (λ is_held s. At held released s × (is_held ≡ held r)) _ _ (gets _) _
        (Ensures-gets _ _ _ _ (λ s k. (k, ap (λ f. f r) k.0)))
        (λ is_held.
          Ensures-given _ _ _ _ (λ s k. k.1)
            (λ same.
              Ensures-if _ _ _ is_held _ _
                (λ taken.
                  Ensures-bind _ (λ _. At held (released ++ r ∷ [])) _ _ (modify _) _
                    (Ensures-modify _ _ _ _
                      (λ s k. (k.0.0, ap (λ l. l ++ r ∷ []) k.0.1, k.0.2, k.0.3)))
                    (λ _.
                      Ensures-weaken _ _ (release-At held (released ++ r ∷ []) r)
                        (λ a s k. (
                          k.0,
                          k.1
                              ∙ ap (λ (b : Bool). released ++ (if b then r ∷ [] else []))
                                  (sym taken ∙ same),
                          k.2,
                          k.3,
                        ))
                        (λ s k. k)))
                (λ free. Ensures-pure _ _ _ _ (λ s k. (
                  k.0.0,
                  k.0.1
                      ∙ sym (append-nil released)
                      ∙ ap (λ (b : Bool). released ++ (if b then r ∷ [] else [])) (sym free ∙ same),
                  k.0.2,
                  k.0.3,
                )))))

  stop_all-At :
      (held : Resource → Bool) (rs released : List Resource)
      → Ensures
          (At held released)
          (stop_all e h rs)
          (λ _. At held (released ++ select held rs))
          Never
  unfolding stop_all select
  stop_all-At held [] released =
      Ensures-pure _ _ _ _ (λ s k. (k.0, k.1 ∙ sym (append-nil released), k.2, k.3))
  stop_all-At held (r ∷ rs) released =
      Ensures-bind _ (λ _. At held (released ++ select held (r ∷ []))) _ _ (stop_one e h r) _
        (stop_one-At held released r)
        (λ failed.
          Ensures-bind _ (λ _. At held ((released ++ select held (r ∷ [])) ++ select held rs)) _ _
            (stop_all e h rs) _ (stop_all-At held rs _)
            (λ later. Ensures-pure _ _ _ _ (λ s k. (
              k.0,
              k.1 ∙ append_assoc released _ _ ∙ ap (λ l. released ++ l) (in_front held r rs),
              k.2,
              k.3,
            ))))
    where
      in_front :
          (held : Resource → Bool) (r : Resource) (rs : List Resource)
          → select held (r ∷ []) ++ select held rs ≡ select held (r ∷ rs)
      in_front held r rs = ground arith

  -- Behind `Stop`, whether it fails or not.
  pub stop-IsReleased :
      (held : Resource → Bool) → Ensures (At held []) (stop e h) (λ _. IsReleased) IsReleased
  unfolding stop
  stop-IsReleased held =
      Ensures-bind _ (λ is_stopped s. At held [] s × (is_stopped ≡ false)) _ _ (gets _) _
        (Ensures-gets _ _ _ _ (λ s k. (k, k.2)))
        (λ is_stopped.
          Ensures-given _ _ _ _ (λ s k. k.1)
            (λ running.
              Ensures-if _ _ _ is_stopped _ _ (λ ended. absurd (not_both is_stopped ended running))
                (λ _.
                  Ensures-bind _ (λ _. At held (select held stop_order)) _ _
                    (stop_all e h stop_order) _
                    (Ensures-weaken _ _
                      (Ensures-before _ _ _ (λ s k. k.0) (stop_all-At held stop_order []))
                      (λ a s k. k) (λ s k. absurd k))
                    (λ failed.
                      Ensures-if _ _ _ failed _ _ (λ _. Ensures-raise _ _ _ _ (λ s k. released s k))
                        (λ _. Ensures-modify _ _ _ _ (λ s k. released s k))))))
    where
      not_both : (b : Bool) → b ≡ true → b ≡ false → ⊥
      not_both b ended running = cc

      as_one : (b : Bool) → (if b then 1 else 0) ≡ one_if b
      as_one true = refl
      as_one false = refl

      released : (s : Service) → At held (select held stop_order) s → IsReleased s
      released s k r =
          ap (λ l. count (same_resource r) l) k.1
          ∙ count-select_same held r stop_order
          ∙ ap (λ n. if held r then n else 0) (once r)
          ∙ as_one (held r)
          ∙ ap (λ (f : Resource → Bool). one_if (f r)) (sym k.0)
