-- ===== src/Driver/Submit.antt =====
-- What `SubmitAggProofs` (driver.go) puts on L1.
use optimism_zkp.Prelude.{
  ℕ, ◌≡◌, refl, sym, ap, subst, arith, ◌∙◌, ◌⊎◌, inl, inr, Bool, true, ◌&&◌, some, List, [], ◌∷◌,
  ltb, All, All-both, All-select, All-sort_by, select, select-passes, count, count-select,
  count-sort_by, sort_by, descending, sort_by-IsSortedBy-descending, IsSortedBy,
}
use optimism_zkp.Prelude.Effects.Ensures.{
  Ends, Ensures, Ensures-pure, Ensures-gets, Ensures-bind, Ensures-weaken, Ensures-before,
  Ensures-given,
}
use optimism_zkp.Request.{Request, agg, complete}
use optimism_zkp.World.{Env, World, Config, ScansRows, OutputResponse, TxCandidate, statement, ask}
use optimism_zkp.Db.{is_type, has_status, starts_at, query, get_all_completed_agg_proofs}
use optimism_zkp.Db.Table.{find}
use optimism_zkp.Db.Ids.{Ids}
use optimism_zkp.Db.Claims.Queried.{rows-find}
use optimism_zkp.Range.Boundaries.{first_is_last, count-imp-le}
use optimism_zkp.Driver.{submit_first, submit_agg_proofs}
use optimism_zkp.Driver.Asks.{
  Answered, Asks-statement, ask-Answered, IsOutput, fetch_output-IsOutput,
}
use optimism_zkp.Driver.Propose.{IsProposal, Sent, propose_output-Proposed}

-- The completed AGG proofs that start at the block.
abbrev pub is_candidate : ℕ → Request → Bool
is_candidate latest r = is_type r agg && starts_at r latest && has_status r complete

-- The request whose proof goes out: a completed AGG proof from the contract's latest block, with no
-- other such proof that ends behind it.
abbrev pub IsChosen : List Request → ℕ → Request → Type 0
IsChosen rows latest p =
    (find p.id rows ≡ some p)
    × (is_candidate latest p ≡ true)
    × (count (λ r. is_candidate latest r && ltb p.end_block r.end_block) rows ≡ 0)

-- One more transaction is out: the proposal of the chosen proof with the output for its end block.
abbrev pub IsOut : Env → Config → ℕ → World → World → Type 0
IsOut e cfg latest w w' =
    (p : Request) × (o : OutputResponse) × (tx : TxCandidate) × IsChosen w.rows latest p
    × IsOutput e p.end_block o
    × IsProposal e cfg o p tx
    × (w'.sent ≡ tx ∷ w.sent)

-- Nothing was sent, as there is nothing to submit, or one proposal was.
abbrev pub Submitted : Env → Config → World → World → Type 0
Submitted e cfg w w' =
    (latest : ℕ) × Answered e.latest_block_number latest
    × (w'.rows ≡ w.rows)
    × (((count (is_candidate latest) w.rows ≡ 0) × (w'.sent ≡ w.sent)) ⊎ IsOut e cfg latest w w')

-- After an error: the proposal may be out all the same, and nothing else.
abbrev pub Failed : Env → Config → World → World → Type 0
Failed e cfg w w' =
    (w'.rows ≡ w.rows)
    × ((w'.sent ≡ w.sent)
        ⊎ ((latest : ℕ) × Answered e.latest_block_number latest × IsOut e cfg latest w w'))

module _ (e : Env) (cfg : Config) (scans : ScansRows e) (w : World)
    (ids : Ids w.next_id w.rows) where
  abbrev Here : World → Type 0
  Here = Sent w.sent w.rows

  abbrev sorted_rows : ℕ → ℕ → List Request
  sorted_rows k latest =
      sort_by (descending (λ (r : Request). r.end_block))
        (e.scan k (select (is_candidate latest) w.rows))

  count-sorted_rows :
      (k latest : ℕ) (q : Request → Bool)
      → count q (sorted_rows k latest) ≡ count (λ r. is_candidate latest r && q r) w.rows
  count-sorted_rows k latest q =
      count-sort_by q _ (e.scan k (select (is_candidate latest) w.rows))
      ∙ scans.each k q (select (is_candidate latest) w.rows)
      ∙ count-select q (is_candidate latest) w.rows

  scanned :
      (latest : ℕ)
      → Ensures Here
          (query e (is_candidate latest))
          (λ rows w'. Here w' × ((k : ℕ) × (rows ≡ e.scan k (select (is_candidate latest) w.rows))))
          Here
  unfolding query
  scanned latest =
      Ensures-bind _ (λ _. Here) _ _ (statement e) _ (Asks-statement e Here (λ w' n h. h))
        (λ k.
          Ensures-gets _ _ _ _
            (λ w' h. (h, (k, ap (λ l. e.scan k (select (is_candidate latest) l)) h.1))))

  sorted-candidates :
      (k latest : ℕ)
      → All
          (λ r. (find r.id w.rows ≡ some r) × (is_candidate latest r ≡ true))
          (sorted_rows k latest)
  sorted-candidates k latest = All-sort_by _ _ _ (
      scans.rows k _ _ (
        All-both _ _ _ (All-select _ (is_candidate latest) w.rows (rows-find w.next_id w.rows ids))
          (select-passes (is_candidate latest) w.rows)))

  none_left : (k latest : ℕ) → sorted_rows k latest ≡ [] → count (is_candidate latest) w.rows ≡ 0
  unfolding count
  none_left k latest same =
      let none_sorted : count (λ _. true) (sorted_rows k latest) ≡ 0 =
        ap (λ l. count (λ _. true) l) same in
      omega (
        arith,
        none_sorted,
        count-sorted_rows k latest (λ _. true),
        count-imp-le (is_candidate latest) (λ r. is_candidate latest r && true) w.rows
            (λ r h. rw h refl),
      )

  first-IsChosen :
      (k latest : ℕ) (p : Request) (ps : List Request)
      → sorted_rows k latest ≡ p ∷ ps
      → IsChosen w.rows latest p
  first-IsChosen k latest p ps same =
      let order =
        subst (λ l. IsSortedBy (descending (λ (r : Request). r.end_block)) l) same
          (sort_by-IsSortedBy-descending (λ (r : Request). r.end_block) _) in
      let passes =
        subst (λ l. All (λ r. (find r.id w.rows ≡ some r) × (is_candidate latest r ≡ true)) l) same
          (sorted-candidates k latest) in
      (
        passes.0.0,
        passes.0.1,
        sym (count-sorted_rows k latest (λ r. ltb p.end_block r.end_block))
            ∙ ap (λ l. count (λ r. ltb p.end_block r.end_block) l) same
            ∙ first_is_last p ps order,
      )

  nothing_out : (w' : World) → Here w' → Failed e cfg w w'
  nothing_out w' h = (h.1, inl h.0)

  submit_first-Submitted :
      (k latest : ℕ) (l : List Request)
      → Answered e.latest_block_number latest
      → sorted_rows k latest ≡ l
      → Ensures Here (submit_first e cfg l) (λ _. Submitted e cfg w) (Failed e cfg w)
  unfolding submit_first
  submit_first-Submitted k latest [] asked same =
      Ensures-pure _ _ _ tt (λ w' h. (latest, asked, h.1, inl (none_left k latest same, h.0)))
  submit_first-Submitted k latest (p ∷ ps) asked same =
      let chosen = first-IsChosen k latest p ps same in
      Ensures-bind _ (λ o w'. Here w' × IsOutput e p.end_block o) _ _ _ _
        (Ensures-weaken _ _ (fetch_output-IsOutput e Here (λ w' n h. h) p.end_block) (λ o w' h. h)
          nothing_out)
        (λ o.
          Ensures-given _ _ _ _ (λ w' h. h.1)
            (λ output.
              Ensures-before Here _ _ (λ w' h. h.0)
                (Ensures-weaken _ _ (propose_output-Proposed e cfg w.sent w.rows o p)
                  (λ a w' h. (latest, asked, h.2.1, inr (p, o, h.0, chosen, output, h.1, h.2.0)))
                  (λ w' h. elim h [
                    | inl before ↦ nothing_out w' before
                    | inr out ↦ (
                      out.2.1,
                      inr (latest, asked, (p, o, out.0, chosen, output, out.1, out.2.0)),
                    )
                  ]))))

  -- Where queries return the selected rows, each as often as it stands there, and keys rise: on success,
  -- either no completed AGG proof starts at the latest block that the contract gave and nothing is sent, or
  -- exactly one transaction is, which proposes the rollup node's supported output for the end block of such a
  -- proof, with that proof and its L1 block, and no such proof ends behind it. On an error nothing is sent, or
  -- exactly that transaction, as the manager may give up on one that is out. The rows stay as they are.
  pub submit_agg_proofs_lem :
      Ends (λ _. Submitted e cfg w) (Failed e cfg w) (submit_agg_proofs e cfg w)
  unfolding submit_agg_proofs get_all_completed_agg_proofs
  submit_agg_proofs_lem =
      let call =
        Ensures-bind Here (λ latest w'. Here w' × Answered e.latest_block_number latest)
          (λ _. Submitted e cfg w) (Failed e cfg w) (ask e.latest_block_number) _
          (Ensures-weaken _ _ (ask-Answered Here (λ w' n h. h) e.latest_block_number)
            (λ latest w' h. h) nothing_out)
          (λ latest.
            Ensures-given _ _ _ _ (λ w' h. h.1)
              (λ asked.
                Ensures-before Here _ _ (λ w' h. h.0)
                  (Ensures-bind _
                    (λ rows w'.
                      Here w' × ((k : ℕ) × (rows ≡ e.scan k (select (is_candidate latest) w.rows))))
                    _ _ (query e _) _
                    (Ensures-weaken _ _ (scanned latest) (λ rows w' h. h) nothing_out)
                    (λ rows.
                      Ensures-given _ _ _ _ (λ w' h. h.1)
                        (λ from.
                          Ensures-before Here _ _ (λ w' h. h.0)
                            (submit_first-Submitted from.0 latest _ asked (
                              ap (λ l. sort_by (descending (λ (r : Request). r.end_block)) l)
                                (sym from.1)))))))) in
      call.at w (refl, refl)
