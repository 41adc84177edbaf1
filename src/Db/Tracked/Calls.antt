-- ===== src/Db/Tracked/Calls.antt =====
-- The statements of db.go where none fails, over a table with copies of its rows about.
use optimism_zkp.Prelude.{
  ℕ, ◌+◌, ◌≤◌, ◌<◌, ◌^◌, ◌≡◌, refl, Bool, true, List, [], ◌∷◌, ◌++◌, All, All-select, one_if,
  Option, false, arith,
}
use optimism_zkp.Prelude.Effects.{Result, ok, err}
use optimism_zkp.Prelude.Effects.Ensures.{
  Ends, Ensures, Keeps, Ensures-gets, Ensures-modify, Ensures-bind,
}
use optimism_zkp.Request.{Bytes, Request, ProofType, Status, span, same_type, same_status, failed}
use optimism_zkp.World.{Env, World, ScansRows, IsSteady, statement}
use optimism_zkp.Db.Table.{insert, update_rows}
use optimism_zkp.Db.{
  id_is, query, update, new_entry, update_proof_status, set_prover_request_id, add_fulfilled_proof,
}
use optimism_zkp.Db.Reads.{OnAll}
use optimism_zkp.Db.Claims.{claims, share, nought}
use optimism_zkp.Db.Fulfil.{complete_row}
use optimism_zkp.Db.Fulfil.Atomic.{Commits, add_fulfilled_proof_lem}
use optimism_zkp.Db.Tracked.{
  IsTracked, IsKnown, Relabels, rows-IsKnown, relabel-IsTracked, insert-IsTracked,
}

All-append : (P : Request → Type 0) (xs ys : List Request) → All P xs → All P ys → All P (xs ++ ys)
All-append P [] ys h k = k
All-append P (x ∷ xs) ys h k = (h.0, All-append P xs ys h.1 k)

module _ {least owed : ℕ → ℕ} {pool : List Request} {n : ℕ} {rows spawned : List Request} where
  -- Requests that are known may join the pool.
  pub join :
      (l : List Request)
      → All (IsKnown n rows) l
      → IsTracked least owed pool n rows spawned
      → IsTracked least owed (l ++ pool) n rows spawned
  join l h k = record {
    ids = k.ids;
    ranges = k.ranges;
    holds = k.holds;
    known = All-append _ l pool h k.known;
    handed = k.handed;
  }

module _ {least owed : ℕ → ℕ} {r : Request} {pool : List Request} {n : ℕ}
    {rows spawned : List Request} where
  pub forget :
      IsTracked least owed (r ∷ pool) n rows spawned → IsTracked least owed pool n rows spawned
  forget k = record {
    ids = k.ids;
    ranges = k.ranges;
    holds = k.holds;
    known = k.known.1;
    handed = k.handed;
  }

module _ {least owed : ℕ → ℕ} {left : List Request} {n : ℕ} {rows spawned : List Request} where
  -- The pool comes apart again.
  pub leave :
      (l : List Request)
      → IsTracked least owed (l ++ left) n rows spawned
      → IsTracked least owed left n rows spawned × All (IsKnown n rows) l
  leave [] k = (k, tt)
  leave (r ∷ l) k = let rest = leave l (forget k) in (rest.0, (k.known.0, rest.1))

module _ (e : Env) (steady : IsSteady e) where
  pub statement-steady :
      (P : ℕ → List Request → List Request → Type 0) (E : World → Type 0)
      → Ensures (OnAll P) (statement e) (λ _. OnAll P) E
  unfolding statement
  statement-steady P E = record { at = λ s h. rw (steady s.calls) h }

  -- An update, by what it does to the table.
  pub update-steady :
      (P Q : ℕ → List Request → List Request → Type 0) (E : World → Type 0) (p : Request → Bool)
      (f : ℕ → Request → Request)
      → ((now n : ℕ) (rows spawned : List Request)
          → P n rows spawned
          → Q n (update_rows p (f now) rows) spawned)
      → Ensures (OnAll P) (update e p f) (λ _. OnAll Q) E
  unfolding update
  update-steady P Q E p f h =
      Ensures-bind (OnAll P) (λ _. OnAll P) (λ _. OnAll Q) E (statement e) _ (statement-steady P E)
        (λ k.
          Ensures-modify (OnAll P) (λ _. OnAll Q) E _ (λ w. h (e.now k) w.next_id w.rows w.spawned))

  pub query-steady :
      (P : ℕ → List Request → List Request → Type 0) (E : World → Type 0) (p : Request → Bool)
      → Ensures (OnAll P) (query e p) (λ _. OnAll P) E
  unfolding query
  query-steady P E p =
      Ensures-bind (OnAll P) (λ _. OnAll P) (λ _. OnAll P) E (statement e) _ (statement-steady P E)
        (λ k. Ensures-gets (OnAll P) (λ _. OnAll P) E _ (λ w h. h))

module _ (e : Env) (steady : IsSteady e) (least : ℕ → ℕ) (pool : List Request)
    (E : World → Type 0) where
  pub new_entry-Tracked :
      (owed : ℕ → ℕ) (type : ProofType) (start end : ℕ)
      → (same_type type span ≡ true → start < end) × (end < 2 ^ 63)
      → Ensures
          (OnAll (IsTracked least (λ b. share type start end b + owed b) pool))
          (new_entry e type start end)
          (λ _. OnAll (IsTracked least owed pool))
          E
  unfolding new_entry insert
  new_entry-Tracked owed type start end p =
      Ensures-bind _ (λ _. OnAll (IsTracked least (λ b. share type start end b + owed b) pool)) _ E
        (statement e) _ (statement-steady e steady _ E)
        (λ k. Ensures-modify _ _ E _ (λ w h. insert-IsTracked (e.now k) type start end p h))

  pub relabel-Tracked :
      (owed : ℕ → ℕ) (p : Request → Bool) (f : ℕ → Request → Request)
      → ((now : ℕ) → Relabels (f now))
      → ((now b : ℕ) (r : Request) → one_if (claims b r) ≤ one_if (claims b (f now r)))
      → Ensures
          (OnAll (IsTracked least owed pool))
          (update e p f)
          (λ _. OnAll (IsTracked least owed pool))
          E
  relabel-Tracked owed p f h more =
      update-steady e steady _ _ E p f
        (λ now n rows spawned k. relabel-IsTracked p (f now) (h now) (more now) k)

  -- A query puts what it returns into the pool.
  pub query-Tracked :
      ScansRows e
      → (owed : ℕ → ℕ) (p : Request → Bool)
      → Ensures
          (OnAll (IsTracked least owed pool))
          (query e p)
          (λ l. OnAll (IsTracked least owed (l ++ pool)))
          E
  unfolding query
  query-Tracked scans owed p =
      Ensures-bind _ (λ _. OnAll (IsTracked least owed pool)) _ E (statement e) _
        (statement-steady e steady _ E)
        (λ k. Ensures-gets _ _ E _ (λ w h.
          join _
            (scans.rows k _ _
              (All-select _ p w.rows (rows-IsKnown w.next_id w.rows h.ids h.ranges)))
            h))

  -- Either a status that is not FAILED, which takes no claim away.
  pub revive-Tracked :
      (key : ℕ) (status : Status)
      → same_status status failed ≡ false
      → Ensures
          (OnAll (IsTracked least nought pool))
          (update_proof_status e key status)
          (λ _. OnAll (IsTracked least nought pool))
          E
  unfolding update_proof_status
  revive-Tracked key status live =
      relabel-Tracked nought (λ r. id_is r key)
        (λ now r. record r { status = status; last_updated_time = now })
        (λ now. record { id = λ r. refl; type = λ r. refl; start = λ r. refl; end = λ r. refl })
        (λ now b r. ground (arith, live))

  pub set_prover_request_id-Tracked :
      (key : ℕ) (prover_id : Bytes)
      → Ensures
          (OnAll (IsTracked least nought pool))
          (set_prover_request_id e key prover_id)
          (λ _. OnAll (IsTracked least nought pool))
          E
  unfolding set_prover_request_id
  set_prover_request_id-Tracked key prover_id =
      relabel-Tracked nought (λ r. id_is r key) _
        (λ now. record { id = λ r. refl; type = λ r. refl; start = λ r. refl; end = λ r. refl })
        (λ now b r. omega arith)

module _ (e : Env) (least : ℕ → ℕ) (pool : List Request) where
  abbrev T : World → Type 0
  T = OnAll (IsTracked least nought pool)

  committed :
      (key : ℕ) (proof : Option Bytes) (w : World) (r : Result (Unit {0}) × World)
      → T w
      → Commits e key proof w r
      → Ends (λ _. T) T r
  committed key proof w (ok a, w') h (r, now, found, status, unset, rows, next, handed) =
      rw (rows, next, handed)
        (relabel-IsTracked (λ x. id_is x r.id) (complete_row proof now)
          (record { id = λ x. refl; type = λ x. refl; start = λ x. refl; end = λ x. refl })
          (λ b x. ground arith) h)
  committed key proof w (err x, w') h (rows, next, handed) = rw (rows, next, handed) h

  pub add_fulfilled_proof-Tracked :
      (key : ℕ) (proof : Option Bytes) → Keeps T (add_fulfilled_proof e key proof)
  add_fulfilled_proof-Tracked key proof = record {
    at = λ w h.
        committed key proof w (add_fulfilled_proof e key proof w) h
          (add_fulfilled_proof_lem e key proof w);
  }
