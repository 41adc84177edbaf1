-- ===== src/Tx/Reads.antt =====
-- The transactions of driver.go and the table.
use optimism_zkp.Prelude.{ℕ, zero, suc, Option}
use optimism_zkp.Request.{Bytes}
use optimism_zkp.World.{Env, Config, OutputResponse, TxCandidate, Sending, unsent, unseen, receipt}
use optimism_zkp.Db.Reads.{
  Reads, Reads-pure, Reads-raise, Reads-if, Reads-bind, Reads-ask, Reads-observe, Reads-modify,
}
use optimism_zkp.Tx.{
  publish, sending, send, packed, wait_loop, wait_for_l1_head, send_transaction, propose_output,
  checkpoint_block_hash,
}

pub ruleset call_rules = (Reads-pure, Reads-raise, Reads-if, Reads-bind, Reads-ask, Reads-observe)

module _ (e : Env) where
  Reads-publish : (tx : TxCandidate) → Reads (publish tx)
  unfolding publish
  Reads-publish tx = Reads-modify _ (λ P s h. h)

  Reads-sending : (tx : TxCandidate) (r : Sending) → Reads (sending tx r)
  Reads-sending tx unsent = Reads-raise _
  Reads-sending tx unseen = Reads-bind _ _ (Reads-publish tx) (λ _. Reads-raise _)
  Reads-sending tx (receipt b) = Reads-bind _ _ (Reads-publish tx) (λ _. Reads-pure b)

  Reads-send : (tx : TxCandidate) → Reads (send e tx)
  unfolding send
  Reads-send tx = Reads-bind _ _ (Reads-observe _) (Reads-sending tx)

  Reads-packed : (tx : TxCandidate) → Reads (packed e tx)
  unfolding packed
  Reads-packed tx = search call_rules

  Reads-wait_loop : (ticks block_num head : ℕ) → Reads (wait_loop e ticks block_num head)
  unfolding wait_loop
  Reads-wait_loop zero block_num head = search call_rules
  Reads-wait_loop (suc ticks) block_num head =
      Reads-if _ _ _ (Reads-bind _ _ (Reads-ask _) (λ next. Reads-wait_loop ticks block_num next))
        (Reads-pure tt)

  Reads-wait_for_l1_head : (block_num : ℕ) → Reads (wait_for_l1_head e block_num)
  unfolding wait_for_l1_head
  Reads-wait_for_l1_head block_num = search (call_rules, Reads-wait_loop)

  Reads-send_transaction :
      (cfg : Config) (output : OutputResponse) (proof : Option Bytes) (l1 : ℕ)
      → Reads (send_transaction e cfg output proof l1)
  unfolding send_transaction
  Reads-send_transaction cfg output proof l1 =
      search (call_rules, Reads-wait_for_l1_head, Reads-send, Reads-packed) depth 9

  pub Reads-propose_output :
      (cfg : Config) (output : OutputResponse) (proof : Option Bytes) (l1 : ℕ)
      → Reads (propose_output e cfg output proof l1)
  unfolding propose_output
  Reads-propose_output cfg output proof l1 = search (call_rules, Reads-send_transaction)

  pub Reads-checkpoint_block_hash : Reads (checkpoint_block_hash e)
  unfolding checkpoint_block_hash
  Reads-checkpoint_block_hash = search (call_rules, Reads-send, Reads-packed) depth 9
