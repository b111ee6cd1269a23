-- ===== src/Mining/Validation/Examples.antt =====
-- A block that waits for a transaction, on the concrete connection.
use c_datum_prime.Common.{ℕ, ◌≡◌, refl, ◌⊎◌}
use c_datum_prime.Common.{if◌then◌else◌, none, some}
use c_datum_prime.Common.{List, [], ◌∷◌, ◌++◌, replicate}
use c_datum_prime.Common.{arith}
use c_datum_prime.Wire.{rd_u32}
use c_datum_prime.Pow.{
  txid, tx_layout, rd_compact, skip_fields, skip_field, stripped, sha256d, zeros, block_bytes,
}
use c_datum_prime.Mining.{Mining, Pending}
use c_datum_prime.Mining.Merkle.{txids, merkle_of_txns}
use c_datum_prime.Mining.Merkle.Tree.{root_of, has_copies}
use c_datum_prime.Mining.Merkle.Root.{merkle_of_txns-root_of}
use c_datum_prime.Mining.Share.Outcome.{world_of}
use c_datum_prime.Mining.Validation.{on_validation, submit_raw, on_parent}
use c_datum_prime.Mining.Validation.Matched.{IsQuiet, IsParent, IsMatched, on_validation_lem}
use c_datum_prime.Mining.Validation.Delivered.{txns_message}
use c_datum_prime.Mining.Sample.{digest, gets, node, opts, pool, connection}

-- One input and one output with empty scripts.
abbrev transaction : List ℕ
transaction =
    replicate 4 1
    ++ ((1 ∷ replicate 36 0)
        ++ ((0 ∷ replicate 4 255) ++ ((1 ∷ replicate 8 0) ++ (0 ∷ replicate 4 0))))

abbrev coinbase : List ℕ
coinbase = 9 ∷ 9 ∷ []

abbrev transaction_id : List ℕ
transaction_id = zeros 31 ++ (2 ∷ [])

txids-transaction : txids digest gets (transaction ∷ []) ≡ some (transaction_id ∷ [])
unfolding txids txid tx_layout rd_compact skip_fields skip_field stripped sha256d
txids-transaction = refl

merkle_of_txns-root_of_example :
    let leaves = sha256d digest gets coinbase ∷ transaction_id ∷ [] in
    merkle_of_txns digest gets coinbase (transaction ∷ [])
    ≡ (if has_copies digest gets 1 leaves then none else some (root_of digest gets 1 leaves))
merkle_of_txns-root_of_example =
    merkle_of_txns-root_of digest gets 1 coinbase (transaction ∷ []) (transaction_id ∷ [])
      txids-transaction refl (omega arith) (omega arith)

-- A block that waits for the transaction.
abbrev waiting : Pending
waiting = record {
  job_id = 1;
  header = replicate 164 0;
  merkle = zeros 31 ++ (20 ∷ []);
  hash = zeros 32;
  coinbase = coinbase;
  txn_count = 1;
  height = 800000;
  coinbase_value = 100000;
  finder = b'a' ∷ [];
}

abbrev with_waiting : Mining
with_waiting = record connection { pending = some waiting }

on_validation_lem_example :
    let w = world_of (some pool) [] in
    let after =
      on_validation digest gets node w with_waiting opts 1005 (txns_message 1 (transaction ∷ [])) in
    let message = txns_message 1 (transaction ∷ []) in
    IsQuiet digest gets node w with_waiting opts 1005 after
    ⊎ (IsParent digest gets node w with_waiting opts 1005 message after
        ⊎ IsMatched digest gets node w with_waiting opts 1005 message after)
on_validation_lem_example =
    on_validation_lem digest gets node (world_of (some pool) []) with_waiting opts 1005
      (txns_message 1 (transaction ∷ []))

abbrev whole_block : List ℕ
whole_block = block_bytes digest gets waiting.header coinbase (transaction ∷ [])

-- A parent's block of 2^32 - 1 bytes that a message of 43 bytes is said to hold.
abbrev wrapping_parent : List ℕ
wrapping_parent = 0x50 ∷ 0x94 ∷ 1 ∷ 1 ∷ (zeros 32 ++ (255 ∷ 255 ∷ 255 ∷ 255 ∷ 7 ∷ 7 ∷ 0xFE ∷ []))

parent_wraps :
    (on_parent (world_of none []) opts wrapping_parent).submitted
    ≡ record { block = 7 ∷ 7 ∷ 0xFE ∷ []; block_len = 4294967295; hash = zeros 32 } ∷ []
unfolding on_parent submit_raw rd_u32
parent_wraps = refl
