-- ===== src/Mining/Validation.antt =====
-- The messages that a gateway answers requests with (src/mining.c: `on_validation`). `gets` is what
-- `malloc` and `calloc` answer for a size.
pub mod Matched
pub mod Delivered
mod Examples
use c_datum_prime.Common.{[], ℕ, zero, suc, ◌+◌, ◌*◌, ◌^◌}
use c_datum_prime.Common.{
  Bool, true, false, not, ◌&&◌, ◌||◌, ◌==◌, ltb, leb, if◌then◌else◌, Option, none, some,
}
use c_datum_prime.Common.{List, ◌∷◌, length, take, drop}
use c_datum_prime.Common.{bit_or}
use c_datum_prime.Wire.{u32, byte_at, bytes_eq, rd_u16, rd_u32}
use c_datum_prime.Abw.{struct_end}
use c_datum_prime.Pow.{zeros, serialize_block}
use c_datum_prime.Mining.{Mining, Pending, Opts, clear_pending_block}
use c_datum_prime.Mining.Block.{Node, World, on_pool, submit, book_block}
use c_datum_prime.Mining.Merkle.{merkle_of_txns}

-- `PRIME_MINING_VALIDATION` and the answers.
abbrev pub validation : ℕ
validation = 0x50

abbrev pub val_resp_block_txns : ℕ
val_resp_block_txns = 0x92

abbrev pub val_resp_parent : ℕ
val_resp_parent = 0x94

-- for (k = 0; k < stated; k++): the transactions, and the bytes behind them; `none` where the list is
-- cut off.
unfoldable pub read_txns : ℕ → List ℕ → Option (List (List ℕ) × List ℕ)
read_txns zero p = some ([], p)
read_txns (suc rounds) p =
    let sz : ℕ = bit_or (rd_u16 p) (byte_at p 2 * 2 ^ 16) in
    let body = drop 3 p in
    let rest = read_txns rounds (drop sz body) in
    if ltb (length p) 3
    then none
    else if ltb (length body) sz
    then none
    else elim rest [ none ↦ none | some r ↦ some (take sz body ∷ r.0, r.1) ]

-- The list of a `val_resp_block_txns` message, with its terminator.
unfoldable pub message_txns : List ℕ → Option (List (List ℕ))
message_txns plain =
    if ltb (length plain) 6 then none else elim (read_txns (rd_u16 (drop 4 plain)) (drop 6 plain)) [
      | none ↦ none
      | some (txns, rest) ↦
          if length rest == 0 || not (byte_at rest 0 == struct_end) then none else some txns
    ]

-- `prime_submit_raw_block` of `blen` bytes: `prime_submit_block` with a hash of zeros, whose result is
-- dropped. Where the message has fewer bytes, the ones that it has stand for those read behind it.
unfoldable pub submit_raw : World → ℕ → List ℕ → World
submit_raw w blen bytes = record w {
  submitted = record { block = take blen bytes; block_len = blen; hash = zeros 32 } ∷ w.submitted;
}

-- A `val_resp_parent` message has a block for the node where `40 + blen`, a sum of uint32_t, is below the
-- message's length.
unfoldable pub on_parent : World → Opts → List ℕ → World
on_parent w opt plain =
    let blen : ℕ = rd_u32 (drop 36 plain) in
    let is_passed : Bool =
      leb 42 (length plain)
      && byte_at plain 3 == 1
      && not (blen == 0)
      && ltb (u32 (40 + blen)) (length plain)
      && opt.has_datadir in
    if is_passed then submit_raw w blen (drop 40 plain) else w

module _ (sha256 : List ℕ → List ℕ) (gets : ℕ → Bool) where
  -- The block that the transactions complete, where their root is that of the header.
  unfoldable pub complete_block : Pending → List (List ℕ) → Option (List ℕ)
  complete_block b txns = elim (merkle_of_txns sha256 gets b.coinbase txns) [
    | none ↦ none
    | some root ↦
        if bytes_eq root b.merkle
        then serialize_block sha256 gets b.header b.coinbase txns
        else none
  ]

module _ (gets : ℕ → Bool) (node : Node) where
  -- The block is submitted, and credited when the node takes it.
  unfoldable pub submit_pending : World → Opts → ℕ → Pending → List ℕ → World
  submit_pending w opt now b block =
      let (ok, sent) = submit gets node w opt block b.hash in
      on_pool sent (λ p. book_block ok p now b.height b.hash b.finder b.coinbase_value)

module _ (sha256 : List ℕ → List ℕ) (gets : ℕ → Bool) (node : Node) where
  -- The answer for the pending block `b`, which is forgotten; whether it is handled.
  unfoldable pub on_block_txns :
      World → Mining → Opts → ℕ → Pending → List ℕ → World × Mining × Bool
  on_block_txns w st opt now b plain =
      let stated : ℕ = rd_u16 (drop 4 plain) in
      let cleared = clear_pending_block st in
      let room : Bool = gets ((if stated == 0 then 1 else stated) * 8) in
      if not (byte_at plain 3 == 1) || ltb (length plain) 6
      then (w, cleared, true)
      else if not room
      then (w, cleared, false)
      else elim (message_txns plain) [
        | none ↦ (w, cleared, true)
        | some txns ↦ elim (complete_block sha256 gets b txns) [
          | none ↦ (w, cleared, true)
          | some block ↦ (submit_pending gets node w opt now b block, cleared, true)
        ]
      ]

  -- `on_validation` at the time `now`: whether it returns 0.
  unfoldable pub on_validation : World → Mining → Opts → ℕ → List ℕ → World × Mining × Bool
  on_validation w st opt now plain =
      if ltb (length plain) 4 || not (byte_at plain 0 == validation)
      then (w, st, true)
      else if byte_at plain 1 == val_resp_parent
      then (on_parent w opt plain, st, true)
      else if not (byte_at plain 1 == val_resp_block_txns)
      then (w, st, true)
      else elim st.pending [
        | none ↦ (w, st, true)
        | some b ↦
            if b.job_id == byte_at plain 2
            then on_block_txns w st opt now b plain
            else (w, st, true)
      ]
