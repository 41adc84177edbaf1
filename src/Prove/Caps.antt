-- ===== src/Prove/Caps.antt =====
-- The caps on concurrent requests in `RequestQueuedProofs` (prove.go).
use optimism_zkp.Prelude.{
  ℕ, suc, ◌+◌, ◌≤◌, ◌≡◌, ◌⊎◌, refl, Bool, true, false, some, List, [], ◌∷◌, inl, inr, Bool-cases,
  leb, ◌^◌, ◌==◌, length, select, count, arith,
}
use optimism_zkp.Prelude.Effects.{◌>>=◌}
use optimism_zkp.Request.{
  Request, Status, unreq, witnessgen, proving, failed, complete, same_status,
}
use optimism_zkp.World.{Env, World, Config, statement}
use optimism_zkp.Db.{has_status, update, update_proof_status, get_number_of_requests_with_status}
use optimism_zkp.Db.Table.{find, update_rows}
use optimism_zkp.Db.Ids.{Ids, count-update_rows}
use optimism_zkp.Prove.{at_cap, spawn, request_span}

-- How many rows have the status.
abbrev pub number_of : Status → List Request → ℕ
number_of s rows = count (λ r. has_status r s) rows

length-select : (p : Request → Bool) (rows : List Request) → length (select p rows) ≡ count p rows
unfolding count select
length-select p [] = refl
length-select p (r ∷ rows) = ground (arith, length-select p rows)

unrequested :
    (s : Status)
    → same_status s unreq ≡ true
    → (same_status s witnessgen ≡ false) × (same_status s proving ≡ false)
unrequested unreq h = (refl, refl)
unrequested witnessgen h = cc
unrequested proving h = cc
unrequested failed h = cc
unrequested complete h = cc

abbrev marked_rows : ℕ → Request → List Request → List Request
marked_rows now next rows =
    update_rows (λ r. r.id == next.id)
      (λ r. record r { status = witnessgen; last_updated_time = now }) rows

-- The mark WITNESSGEN on an unrequested row adds one to its kind, and none to those in PROVING.
marked :
    (n now : ℕ) (next : Request) (rows : List Request)
    → Ids n rows
    → find next.id rows ≡ some next
    → has_status next unreq ≡ true
    → (number_of witnessgen (marked_rows now next rows) ≡ suc (number_of witnessgen rows))
      × (number_of proving (marked_rows now next rows) ≡ number_of proving rows)
marked n now next rows ids found u =
    let mark = λ (r : Request). record r { status = witnessgen; last_updated_time = now } in
    let w = count-update_rows (λ r. has_status r witnessgen) n next.id mark rows next ids found in
    let p = count-update_rows (λ r. has_status r proving) n next.id mark rows next ids found in
    let fresh = unrequested next.status u in
    (ground (arith, w, fresh.0), ground (arith, p, fresh.1))

-- The cap is reached, or from 2 ^ 63 on negative as an `int`, which counts as reached.
abbrev pub IsReached : ℕ → ℕ → Type 0
IsReached cap n = (2 ^ 63 ≤ cap) ⊎ (cap ≤ n)

at_cap-IsReached : (cap n : ℕ) → at_cap cap n ≡ true → IsReached cap n
at_cap-IsReached cap n h = elim (Bool-cases (leb (2 ^ 63) cap)) [
  | inl p ↦ inl (ground arith)
  | inr p ↦ inr (ground arith)
]

below_cap : (cap n : ℕ) → at_cap cap n ≡ false → suc n ≤ cap
below_cap cap n h = elim (Bool-cases (leb (2 ^ 63) cap)) [
  | inl p ↦ ground arith
  | inr p ↦ ground arith
]

-- In a table whose keys rise with the insertions, where no statement fails: either a cap is reached, as which
-- one of 2 ^ 63 or more counts, and the span request is not handed over, or it is and the rows stay.
-- The goroutine's mark WITNESSGEN may come in any later table in which the request still stands unrequested,
-- and then exceeds a cap by at most what its number of rows has grown since the hand-over.
pub request_span_lem :
    (e : Env) (cfg : Config) (next : Request) (w later : World)
    → ((n : ℕ) → e.fault n ≡ false)
    → Ids later.next_id later.rows
    → find next.id later.rows ≡ some next
    → has_status next unreq ≡ true
    → ((IsReached cfg.max_concurrent_witness_gen (number_of witnessgen w.rows)
          ⊎ IsReached cfg.max_concurrent_proof_requests
              (number_of witnessgen w.rows + number_of proving w.rows))
        × ((request_span e cfg next w).1.spawned ≡ w.spawned))
      ⊎ (((request_span e cfg next w).1.spawned ≡ next ∷ w.spawned)
          × ((request_span e cfg next w).1.rows ≡ w.rows)
          × (number_of witnessgen (update_proof_status e next.id witnessgen later).1.rows
                + number_of witnessgen w.rows
              ≤ cfg.max_concurrent_witness_gen + number_of witnessgen later.rows)
          × (number_of witnessgen (update_proof_status e next.id witnessgen later).1.rows
                + number_of proving (update_proof_status e next.id witnessgen later).1.rows
                + (number_of witnessgen w.rows + number_of proving w.rows)
              ≤ cfg.max_concurrent_proof_requests
                + (number_of witnessgen later.rows + number_of proving later.rows)))
unfolding request_span get_number_of_requests_with_status spawn update_proof_status update statement
    ◌>>=◌
request_span_lem e cfg next w later f ids found u =
    rw
      (
        f w.calls,
        f (suc w.calls),
        f later.calls,
        length-select (λ r. has_status r witnessgen) w.rows,
        length-select (λ r. has_status r proving) w.rows,
      )
      (elim (Bool-cases (at_cap cfg.max_concurrent_witness_gen (number_of witnessgen w.rows))) [
        | inl p ↦ rw p (inl (inl (at_cap-IsReached _ _ p), refl))
        | inr p ↦
            rw p
              (elim (Bool-cases (
                at_cap cfg.max_concurrent_proof_requests
                  (number_of witnessgen w.rows + number_of proving w.rows))) [
                    | inl q ↦ rw q (inl (inr (at_cap-IsReached _ _ q), refl))
                    | inr q ↦ rw q (
                        inr (
                          refl,
                          refl,
                          fits_one (e.now later.calls) p,
                          fits_both (e.now later.calls) q,
                        ))
                  ])
      ])
  where
    both :
        (now : ℕ)
        → (number_of witnessgen (marked_rows now next later.rows)
            ≡ suc (number_of witnessgen later.rows))
          × (number_of proving (marked_rows now next later.rows) ≡ number_of proving later.rows)
    both now = marked later.next_id now next later.rows ids found u

    fits_one :
        (now : ℕ)
        → at_cap cfg.max_concurrent_witness_gen (number_of witnessgen w.rows) ≡ false
        → number_of witnessgen (marked_rows now next later.rows) + number_of witnessgen w.rows
          ≤ cfg.max_concurrent_witness_gen + number_of witnessgen later.rows
    fits_one now p = omega (
      arith,
      (both now).0,
      below_cap cfg.max_concurrent_witness_gen (number_of witnessgen w.rows) p,
    )

    fits_both :
        (now : ℕ)
        → at_cap cfg.max_concurrent_proof_requests
            (number_of witnessgen w.rows + number_of proving w.rows)
          ≡ false
        → number_of witnessgen (marked_rows now next later.rows)
            + number_of proving (marked_rows now next later.rows)
            + (number_of witnessgen w.rows + number_of proving w.rows)
          ≤ cfg.max_concurrent_proof_requests
            + (number_of witnessgen later.rows + number_of proving later.rows)
    fits_both now q = omega (
      arith,
      (both now).0,
      (both now).1,
      below_cap cfg.max_concurrent_proof_requests
          (number_of witnessgen w.rows + number_of proving w.rows) q,
    )
