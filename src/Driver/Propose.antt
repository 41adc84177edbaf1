-- ===== src/Driver/Propose.antt =====
-- The transaction that proposes an output (driver.go).
use optimism_zkp.Prelude.{ℕ, ◌≡◌, refl, ap, ◌⊎◌, inl, inr, true, false, List, ◌∷◌}
use optimism_zkp.Prelude.Effects.{pure, ◌>>=◌}
use optimism_zkp.Prelude.Effects.Ensures.{
  Ensures, Ensures-pure, Ensures-raise, Ensures-modify, Ensures-weaken, Ensures-bind, Ensures-if,
  Ensures-before, Ensures-given,
}
use optimism_zkp.Request.{Request}
use optimism_zkp.World.{
  Env, World, Config, M, OutputResponse, Sending, unsent, unseen, receipt, TxCandidate,
  propose_l2_output, create_game, ask, observe,
}
use optimism_zkp.Tx.{publish, sending, send, packed, send_transaction, propose_output}
use optimism_zkp.Driver.Asks.{
  IsInert, Asks, Answered, Asks-ask, Asks-observe, Asks-wait_for_l1_head, ask-Answered, packed-same,
}

-- The call that carries an output and a proof to the dispute game factory or to the oracle.
abbrev pub IsProposal : Env → Config → OutputResponse → Request → TxCandidate → Type 0
IsProposal e cfg o p tx =
    ((cfg.has_dispute_game_factory ≡ true)
      × ((bond : ℕ) × Answered e.bond_amount bond
          × (tx
              ≡ create_game cfg.dispute_game_type o.output_root o.block_number p.l1_block_number
                  p.proof bond)))
    ⊎ ((cfg.has_dispute_game_factory ≡ false)
        × (tx ≡ propose_l2_output o.output_root o.block_number p.l1_block_number p.proof))

abbrev pub Sent : List TxCandidate → List Request → World → Type 0
Sent txs rows w = (w.sent ≡ txs) × (w.rows ≡ rows)

module _ (e : Env) (cfg : Config) (txs : List TxCandidate) (rows : List Request) where
  inert : IsInert (Sent txs rows)
  inert w n h = h

  -- Before the call, or with the transaction out after it.
  abbrev SentOr : TxCandidate → World → Type 0
  SentOr tx w = Sent txs rows w ⊎ Sent (tx ∷ txs) rows w

  publish-Sent :
      (tx : TxCandidate)
      → Ensures (Sent txs rows) (publish tx) (λ _. Sent (tx ∷ txs) rows) (SentOr tx)
  unfolding publish
  publish-Sent tx = Ensures-modify _ _ _ _ (λ w h. (ap (λ l. tx ∷ l) h.0, h.1))

  sending-Sent :
      (tx : TxCandidate) (r : Sending)
      → Ensures (Sent txs rows) (sending tx r) (λ _. Sent (tx ∷ txs) rows) (SentOr tx)
  sending-Sent tx unsent = Ensures-raise _ _ _ _ (λ w h. inl h)
  sending-Sent tx unseen =
      Ensures-bind _ (λ _. Sent (tx ∷ txs) rows) _ _ _ _ (publish-Sent tx)
        (λ _. Ensures-raise _ _ _ _ (λ w h. inr h))
  sending-Sent tx (receipt b) =
      Ensures-bind _ (λ _. Sent (tx ∷ txs) rows) _ _ _ _ (publish-Sent tx)
        (λ _. Ensures-pure _ _ _ b (λ w h. h))

  send-Sent :
      (tx : TxCandidate)
      → Ensures (Sent txs rows) (send e tx) (λ _. Sent (tx ∷ txs) rows) (SentOr tx)
  unfolding send
  send-Sent tx =
      Ensures-bind _ (λ _. Sent txs rows) _ _ (observe _) _
        (Ensures-weaken _ _ (Asks-observe _ (Sent txs rows) inert) (λ r w h. h) (λ w h. inl h))
        (λ r. sending-Sent tx r)

  -- One transaction, with the proposal for the output and the proof of the request.
  abbrev pub Proposed : OutputResponse → Request → World → Type 0
  Proposed o p w = (tx : TxCandidate) × IsProposal e cfg o p tx × Sent (tx ∷ txs) rows w

  -- Nothing, or the proposal all the same.
  abbrev pub AtMost : OutputResponse → Request → World → Type 0
  AtMost o p w = Sent txs rows w ⊎ Proposed o p w

  pack_and_send :
      (o : OutputResponse) (p : Request) (tx : TxCandidate)
      → IsProposal e cfg o p tx
      → Ensures
          (Sent txs rows)
          (packed e tx >>= λ t. send e t >>= λ _. pure tt)
          (λ _. Proposed o p)
          (AtMost o p)
  pack_and_send o p tx h =
      Ensures-bind _ (λ t w. Sent txs rows w × (t ≡ tx)) _ _ (packed e tx) _
        (Ensures-weaken _ _ (packed-same e (Sent txs rows) inert tx) (λ t w k. k) (λ w k. inl k))
        (λ t.
          Ensures-given _ _ _ _ (λ w k. k.1)
            (λ same.
              Ensures-before (Sent txs rows) _ _ (λ w k. k.0)
                (Ensures-bind _ (λ _. Sent (t ∷ txs) rows) _ _ (send e t) _
                  (Ensures-weaken _ _ (send-Sent t) (λ r w k. k)
                    (λ w k. elim k [
                      | inl none_out ↦ inl none_out
                      | inr out ↦ inr (t, rw same h, out)
                    ]))
                  (λ _. Ensures-pure _ _ _ tt (λ w k. (t, rw same h, k))))))

  asks :
      {A : Type 0} (o : OutputResponse) (p : Request) (m : M A)
      → Asks m
      → Ensures (Sent txs rows) m (λ _. Sent txs rows) (AtMost o p)
  asks o p m k = Ensures-weaken _ m (k (Sent txs rows) inert) (λ a w h. h) (λ w h. inl h)

  send_transaction-Proposed :
      (o : OutputResponse) (p : Request)
      → Ensures
          (Sent txs rows)
          (send_transaction e cfg o p.proof p.l1_block_number)
          (λ _. Proposed o p)
          (AtMost o p)
  unfolding send_transaction
  send_transaction-Proposed o p =
      Ensures-bind _ (λ _. Sent txs rows) _ _ _ _ (asks o p _ (Asks-wait_for_l1_head e _))
        (λ _.
          Ensures-if _ _ _ cfg.has_dispute_game_factory _ _
            (λ game.
              Ensures-bind _ (λ bond w. Sent txs rows w × Answered e.bond_amount bond) _ _
                (ask e.bond_amount) _
                (Ensures-weaken _ _ (ask-Answered (Sent txs rows) inert e.bond_amount)
                  (λ bond w k. k) (λ w k. inl k))
                (λ bond.
                  Ensures-given _ _ _ _ (λ w k. k.1)
                    (λ asked.
                      Ensures-before (Sent txs rows) _ _ (λ w k. k.0)
                        (pack_and_send o p _ (inl (game, (bond, asked, refl)))))))
            (λ oracle. pack_and_send o p _ (inr (oracle, refl))))

  pub propose_output-Proposed :
      (o : OutputResponse) (p : Request)
      → Ensures
          (Sent txs rows)
          (propose_output e cfg o p.proof p.l1_block_number)
          (λ _. Proposed o p)
          (AtMost o p)
  unfolding propose_output
  propose_output-Proposed o p =
      Ensures-bind _ (λ _. Sent txs rows) _ _ (ask e.next_block_number) _ (asks o p _ (Asks-ask _))
        (λ _. send_transaction-Proposed o p)
