-- ===== src/Mining/Validation/Delivered.antt =====
-- The transactions of a gateway's message are read as they were written, and complete the block that
-- waits for them.
use c_datum_prime.Common.{ℕ, ◌/◌, ◌^◌, ◌<◌}
use c_datum_prime.Common.{List, [], ◌∷◌, ◌++◌, length}
use c_datum_prime.Wire.{u8, u16, wr_u16}
use c_datum_prime.Abw.{struct_end}
use c_datum_prime.Mining.{Mining}
use c_datum_prime.Ledger.Pool.{Pool}
use c_datum_prime.Mining.Validation.{validation, val_resp_block_txns}

-- The message that a gateway sends: each transaction behind three bytes of its length.
abbrev pub txn_bytes : List (List ℕ) → List ℕ
txn_bytes [] = []
txn_bytes (t ∷ txns) =
    (wr_u16 (u16 (length t)) ++ (u8 (length t / 2 ^ 16) ∷ [])) ++ (t ++ txn_bytes txns)

abbrev pub txns_message : ℕ → List (List ℕ) → List ℕ
txns_message job txns =
    validation
    ∷ val_resp_block_txns
    ∷ job
    ∷ 1
    ∷ (wr_u16 (length txns) ++ (txn_bytes txns ++ (struct_end ∷ [])))

abbrev pub IsShort : List ℕ → Type 0
IsShort t = length t < 2 ^ 24
