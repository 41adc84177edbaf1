-- ===== src/Db/Table.antt =====
-- The table under ent's statements: a row is added with the next key, `Update().Where(...)` rewrites
-- the rows that pass a test. Rows stand newest first.
use optimism_zkp.Prelude.{
  ℕ, suc, ◌+◌, ◌/◌, ◌%◌, Bool, true, false, ◌&&◌, Option, none, some, List, [], ◌∷◌, ltb, ◌==◌,
  if◌then◌else◌,
}
use optimism_zkp.Request.{Bytes, Request, ProofType, Status, unreq, complete}
use optimism_zkp.World.{World}

-- The row that `NewEntry` creates: status UNREQ, both times now, the optional columns NULL.
abbrev pub new_row : ℕ → ℕ → ProofType → ℕ → ℕ → Request
new_row key now type start end = record {
  id = key;
  type = type;
  start_block = start;
  end_block = end;
  status = unreq;
  request_added_time = now;
  prover_request_id = [];
  proof_request_time = 0;
  last_updated_time = now;
  l1_block_number = 0;
  l1_block_hash = [];
  proof = none;
}

unfoldable pub insert : ℕ → ProofType → ℕ → ℕ → World → World
insert now type start end w = record w {
  rows = new_row w.next_id now type start end ∷ w.rows;
  next_id = suc w.next_id;
}

unfoldable pub update_rows : (Request → Bool) → (Request → Request) → List Request → List Request
update_rows p f [] = []
update_rows p f (r ∷ rs) = (if p r then f r else r) ∷ update_rows p f rs

abbrev pub update_where : (Request → Bool) → (Request → Request) → World → World
update_where p f w = record w { rows = update_rows p f w.rows }

-- What the update statements write to a row.
module _ (now : ℕ) (r : Request) where
  abbrev pub with_status : Status → Request
  with_status status = record r { status = status; last_updated_time = now }

  abbrev pub with_prover_request_id : Bytes → Request
  with_prover_request_id prover_id = record r {
    prover_request_id = prover_id;
    proof_request_time = now;
    last_updated_time = now;
  }

  abbrev pub with_proof : Option Bytes → Request
  with_proof proof = record r { proof = proof; status = complete; last_updated_time = now }

  abbrev pub with_l1_block_info : ℕ → Bytes → Request
  with_l1_block_info number hash = record r {
    last_updated_time = now;
    l1_block_number = number;
    l1_block_hash = hash;
  }

-- The row with a key.
unfoldable pub find : ℕ → List Request → Option Request
find key [] = none
find key (r ∷ rs) = if r.id == key then some r else find key rs

abbrev pub same_bytes : Bytes → Bytes → Bool
same_bytes [] [] = true
same_bytes [] (y ∷ ys) = false
same_bytes (x ∷ xs) [] = false
same_bytes (x ∷ xs) (y ∷ ys) = x == y && same_bytes xs ys

-- The character of a hexadecimal digit.
unfoldable pub hex_digit : ℕ → ℕ
hex_digit d = if ltb d 10 then 48 + d else 87 + d

-- `hex.EncodeToString`
unfoldable pub hex_encode : Bytes → Bytes
unfolding hex_digit
hex_encode [] = []
hex_encode (b ∷ bs) = hex_digit (b / 16) ∷ hex_digit (b % 16) ∷ hex_encode bs
