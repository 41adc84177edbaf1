-- ===== src/Db/Found.antt =====
-- Updates by key, and queries by key, where no statement fails (db/db.go).
use optimism_zkp.Prelude.{
  ℕ, suc, ◌≤◌, ◌≡◌, refl, ap, ◌∙◌, true, false, some, List, [], ◌∷◌, inl, inr, ◌==◌, Bool-cases,
  All, count, select, arith,
}
use optimism_zkp.Prelude.Effects.{ok, Exec, continue, ◌>>=◌, catch, Result}
use optimism_zkp.Request.{Bytes, Request, Status}
use optimism_zkp.World.{Env, World, ScansRows, IsSteady, statement}
use optimism_zkp.Db.{id_is, update, update_proof_status, set_prover_request_id}
use optimism_zkp.Db.Table.{update_rows, find, hex_encode, with_status, with_prover_request_id}
use optimism_zkp.Db.Ids.{Ids, KeepsId, find_here, find_later}

-- A call that succeeds, and what follows it.
module _ {S A B : Type 0} (m : Exec S A) (a : A) (s s' : S) (h : m s ≡ (ok a, s')) where
  pub bind_ok : (k : A → Exec S B) → (m >>= k) s ≡ k a s'
  unfolding ◌>>=◌
  bind_ok k = ap (λ x. continue k x.0 x.1) h

  pub catch_ok : (k : Result A → Exec S B) → catch m k s ≡ k (ok a) s'
  unfolding catch
  catch_ok k = ap (λ x. k x.0 x.1) h

-- The world behind an update by key.
abbrev pub update_by : Env → ℕ → (ℕ → Request → Request) → World → World
update_by e key f w = record w {
  calls = suc w.calls;
  rows = update_rows (λ x. id_is x key) (f (e.now w.calls)) w.rows;
}

module _ (e : Env) (steady : IsSteady e) where
  pub update_by_lem :
      (key : ℕ) (f : ℕ → Request → Request) (w : World)
      → update e (λ r. id_is r key) f w ≡ (ok tt, update_by e key f w)
  unfolding update statement ◌>>=◌
  update_by_lem key f w = rw (steady w.calls) refl

  pub update_proof_status_by :
      (key : ℕ) (s : Status) (w : World)
      → update_proof_status e key s w ≡ (ok tt, update_by e key (λ now r. with_status now r s) w)
  unfolding update_proof_status
  update_proof_status_by key s w = update_by_lem key (λ now r. with_status now r s) w

  pub set_prover_request_id_by :
      (key : ℕ) (i : Bytes) (w : World)
      → set_prover_request_id e key i w
        ≡ (ok tt, update_by e key (λ now r. with_prover_request_id now r (hex_encode i)) w)
  unfolding set_prover_request_id
  set_prover_request_id_by key i w =
      update_by_lem key (λ now r. with_prover_request_id now r (hex_encode i)) w

pub find-update_rows :
    (i : ℕ) (f : Request → Request) (rows : List Request) (r : Request)
    → KeepsId f
    → find i rows ≡ some r
    → find i (update_rows (λ x. id_is x i) f rows) ≡ some (f r)
unfolding update_rows find
find-update_rows i f [] r k h = cc
find-update_rows i f (x ∷ rows) r k h = elim (Bool-cases (x.id == i)) [
  | inl e ↦
      let here : (f x).id == i ≡ true = ap (λ j. j == i) (k x) ∙ e in
      rw e (rw here (ap (λ y. some (f y)) (find_here i x rows r e h)))
  | inr e ↦ rw e (rw e (find-update_rows i f rows r k (find_later i x rows r e h)))
]

-- No row has a key that was not given out.
select_absent :
    (n i : ℕ) (rows : List Request) → Ids n rows → n ≤ i → select (λ r. id_is r i) rows ≡ []
unfolding select
select_absent n i [] h k = refl
select_absent n i (x ∷ rows) h k =
    let other : x.id == i ≡ false = ground (arith, h.0) in
    rw other (select_absent x.id i rows h.1 (omega (arith, h.0)))

select_found :
    (n i : ℕ) (rows : List Request) (r : Request)
    → Ids n rows
    → find i rows ≡ some r
    → select (λ x. id_is x i) rows ≡ r ∷ []
unfolding select find
select_found n i [] r h k = cc
select_found n i (x ∷ rows) r h k = elim (Bool-cases (x.id == i)) [
  | inl e ↦
      let last = select_absent x.id i rows h.1 (ground (arith, e)) in
      rw e (ap (λ l. x ∷ l) last ∙ ap (λ y. y ∷ []) (find_here i x rows r e k))
  | inr e ↦ rw e (select_found x.id i rows r h.1 (find_later i x rows r e k))
]

one_row :
    (r : Request) (l : List Request) → All (λ x. x ≡ r) l → count (λ _. true) l ≡ 1 → l ≡ r ∷ []
unfolding count
one_row r [] h k = ground arith
one_row r (x ∷ []) (h, _) k = ap (λ y. y ∷ []) h
one_row r (x ∷ y ∷ l) h k = absurd (omega arith)

-- A query by key hands over the row that is found.
pub scan_found :
    (e : Env)
    → ScansRows e
    → (c n i : ℕ) (rows : List Request) (r : Request) → Ids n rows
    → find i rows ≡ some r
    → e.scan c (select (λ x. id_is x i) rows) ≡ r ∷ []
unfolding count
scan_found e scans c n i rows r h k =
    ap (e.scan c) (select_found n i rows r h k)
    ∙ one_row r (e.scan c (r ∷ [])) (scans.rows c (λ x. x ≡ r) (r ∷ []) (refl, tt))
        (scans.each c (λ _. true) (r ∷ []))
