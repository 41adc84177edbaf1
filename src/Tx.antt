-- ===== src/Tx.antt =====
-- The transactions of proposer/op/proposer/driver.go: proposals, and checkpoints of L1 block hashes.
pub mod Reads
use optimism_zkp.Prelude.{
  ℕ, zero, suc, ◌+◌, ◌-◌, ◌%◌, Bool, true, false, Option, none, some, List, [], ◌∷◌, leb,
  if◌then◌else◌, u64,
}
use optimism_zkp.Prelude.Effects.{
  Result, ok, err, pure, raise, modify, ◌>>=◌, ◌>>◌, rpc_failed, is_done,
}
use optimism_zkp.Request.{Bytes}
use optimism_zkp.World.{
  Env, World, Config, M, call, ask, observe, OutputResponse, Header, Sending, unsent, unseen,
  receipt, TxCandidate, propose_l2_output, create_game, checkpoint_block_hash as checkpoint_call,
}

-- The transaction is out.
unfoldable pub publish : TxCandidate → M (Unit {0})
publish tx = modify (λ w. record w { sent = tx ∷ w.sent })

-- What comes back: after an error the transaction may be out all the same.
abbrev pub sending : TxCandidate → Sending → M Bool
sending tx unsent = raise rpc_failed
sending tx unseen = do publish tx; raise rpc_failed
sending tx (receipt b) = do publish tx; pure b

-- `txmgr.Send`
unfoldable pub send : Env → TxCandidate → M Bool
send e tx = do r ← observe (λ n. e.send n tx); sending tx r

-- The ABI encoding of a call.
unfoldable pub packed : Env → TxCandidate → M TxCandidate
packed e tx = do fits ← observe (λ n. e.pack n tx); if fits then pure tx else raise rpc_failed

module _ (e : Env) where
  -- The loop of `waitForL1Head`, with the ticks left before `done` is closed.
  unfoldable pub wait_loop : ℕ → ℕ → ℕ → M (Unit {0})
  wait_loop zero block_num head = if leb head block_num then raise is_done else pure tt
  wait_loop (suc ticks) block_num head =
      let again = (do next ← ask e.l1_head; wait_loop ticks block_num next) in
      if leb head block_num then again else pure tt

  unfoldable pub wait_for_l1_head : ℕ → M (Unit {0})
  wait_for_l1_head block_num = do
    ticks ← observe e.ticks_until_done
    head ← ask e.l1_head
    wait_loop ticks block_num head

  -- `proposeL2OutputTxData` and `ProposeL2OutputDGFTxData`: the call that is encoded.
  abbrev pub propose_l2_output_tx_data : OutputResponse → Option Bytes → ℕ → TxCandidate
  propose_l2_output_tx_data output proof l1_block_num =
      propose_l2_output output.output_root output.block_number l1_block_num proof

  unfoldable pub send_transaction : Config → OutputResponse → Option Bytes → ℕ → M (Unit {0})
  send_transaction cfg output proof l1_block_num = do
    wait_for_l1_head ((output.sync.head_l1 + 1) % u64)
    if cfg.has_dispute_game_factory
        then (do
          bond ← ask e.bond_amount
          tx ← packed e (
              create_game cfg.dispute_game_type output.output_root output.block_number l1_block_num
                proof bond)
          send e tx
          pure tt)
        else do
          tx ← packed e (propose_l2_output_tx_data output proof l1_block_num)
          send e tx
          pure tt

  unfoldable pub propose_output : Config → OutputResponse → Option Bytes → ℕ → M (Unit {0})
  propose_output cfg output proof l1_block_num = do
    ask e.next_block_number
    send_transaction cfg output proof l1_block_num

  unfoldable pub checkpoint_block_hash : M (ℕ × Bytes)
  checkpoint_block_hash = do
    current ← ask e.client_block_number
    header ← ask (λ n. e.header_by_number n ((current + u64 - 1) % u64))
    tx ← packed e (checkpoint_call header.number)
    send e tx
    pure (header.number, header.hash)
