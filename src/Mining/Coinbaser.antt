-- ===== src/Mining/Coinbaser.antt =====
-- The outputs that the server asks a gateway to put in a coinbase (src/mining.c:
-- `prime_encode_coinbaser_outputs`, `on_coinbaser`). `gets` is what `malloc` answers for a size,
-- `address_script` is `prime_address_script` of src/address.c into 83 bytes, and `parent_have` is what
-- the node answers to `prime_parent_have`.
pub mod Remainder
use c_datum_prime.Common.{[], ℕ, zero, suc, ◌+◌, ◌-◌}
use c_datum_prime.Common.{Bool, not, ◌&&◌, ◌||◌, ◌==◌, ltb, leb, if◌then◌else◌, Option, none, some}
use c_datum_prime.Common.{List, ◌∷◌, ◌++◌, length, take, drop}
use c_datum_prime.Wire.{u8, u64, byte_at, rd_u64, wr_u64, wr_u32}
use c_datum_prime.Abw.{struct_end}
use c_datum_prime.Ledger.Types.{Text}
use c_datum_prime.Ledger.Split.{Payout, max_split_outputs}
use c_datum_prime.Ledger.Pool.{Pool, pool_split}
use c_datum_prime.Mining.{Mining, Output, SplitRec, Opts, put_split, ask_parent}

-- `PRIME_MINING_COINBASER_REQ` and `PRIME_MINING_COINBASER_RESP`.
abbrev pub coinbaser_req : ℕ
coinbaser_req = 0x10

abbrev pub coinbaser_resp : ℕ
coinbaser_resp = 0x11

-- `PRIME_COINBASER_PREVHASH_MAGIC`.
abbrev pub prevhash_magic : List ℕ
prevhash_magic = b'C' ∷ b'B' ∷ b'P' ∷ b'H' ∷ []

-- The outputs that both loops of `prime_encode_coinbaser_outputs` take.
unfoldable pub is_sent : Output → Bool
is_sent o = not (ltb (length o.script) 2 || ltb 64 (length o.script) || o.value == 0)

-- The first loop: `blob_len` and `total`.
unfoldable pub measure : ℕ → ℕ → List Output → ℕ × ℕ
measure blob_len total [] = (blob_len, total)
measure blob_len total (o ∷ outputs) =
    let taken = is_sent o in
    measure (if taken then blob_len + (8 + 1 + length o.script) else blob_len)
      (if taken then u64 (total + o.value) else total) outputs

-- The second loop.
unfoldable pub output_bytes : List Output → List ℕ
output_bytes [] = []
output_bytes (o ∷ outputs) =
    let rest = output_bytes outputs in
    if is_sent o then wr_u64 o.value ++ (u8 (length o.script) ∷ (o.script ++ rest)) else rest

-- The outputs of the split that have an address, and the sum of the first loop behind it.
unfoldable pub payable_outputs : (Text → Option (List ℕ)) → List Payout → List Output
payable_outputs address_script [] = []
payable_outputs address_script (a ∷ payouts) =
    let rest = payable_outputs address_script payouts in
    elim (address_script a.identity) [
      | none ↦ rest
      | some script ↦ record { value = a.amount; script = script } ∷ rest
    ]

unfoldable pub add_values : ℕ → List Output → ℕ
add_values paid [] = paid
add_values paid (o ∷ outputs) = add_values (u64 (paid + o.value)) outputs

-- `amounts[0] += rem`.
unfoldable pub add_first : ℕ → List Output → List Output
add_first rem [] = []
add_first rem (o ∷ outputs) = record o { value = u64 (o.value + rem) } ∷ outputs

-- What is left of the value, for the pool: an output, or more for the first one.
unfoldable pub with_remainder : ℕ → List ℕ → List Output → List Output
with_remainder value payout_script outputs =
    let paid : ℕ = add_values 0 outputs in
    let rem : ℕ = value - paid in
    if rem == 0 || ltb (length payout_script) 2 || ltb 64 (length payout_script)
    then outputs
    else if leb 546 rem && ltb (length outputs) max_split_outputs
    then outputs ++ (record { value = rem; script = payout_script } ∷ [])
    else add_first rem outputs

-- The outputs that `on_coinbaser` asks for, and how many of them are miners'.
unfoldable pub coinbaser_outputs :
    (Text → Option (List ℕ)) → Option Pool → ℕ → List ℕ → ℕ × List Output
coinbaser_outputs address_script pool value payout_script =
    let split : List Payout = elim pool [
      | none ↦ []
      | some p ↦ pool_split p value max_split_outputs
    ] in
    let miners = payable_outputs address_script split in
    (length miners, with_remainder value payout_script miners)

-- What the record keeps of the outputs: of the pool's output, which is the one behind the `kept` ones,
-- the script is not in the array that is copied, which holds `stale` there.
unfoldable pub kept_outputs : List ℕ → ℕ → List Output → List Output
kept_outputs stale kept [] = []
kept_outputs stale zero (o ∷ outputs) = record o { script = take (length o.script) stale } ∷ outputs
kept_outputs stale (suc kept) (o ∷ outputs) = o ∷ kept_outputs stale kept outputs

module _ (gets : ℕ → Bool) where
  -- `prime_encode_coinbaser_outputs` and `prime_encode_coinbaser_response`, with a `prevhash`; `none` is
  -- their -1.
  unfoldable pub encode_coinbaser_outputs : ℕ → ℕ → List Output → List ℕ → Option (List ℕ)
  encode_coinbaser_outputs value coinbaser_id outputs prevhash =
      let (blob_len, total) = measure 1 0 outputs in
      let n : ℕ = 1 + 8 + 4 + blob_len + 36 in
      if ltb value total || not (gets n)
      then none
      else some (
          coinbaser_resp
          ∷ (wr_u64 value
              ++ (wr_u32 blob_len
                  ++ (coinbaser_id ∷ (output_bytes outputs ++ (prevhash_magic ++ prevhash))))))

  unfoldable pub encode_coinbaser_response : ℕ → ℕ → List ℕ → List ℕ → Option (List ℕ)
  encode_coinbaser_response value coinbaser_id script prevhash =
      encode_coinbaser_outputs value coinbaser_id (record { value = value; script = script } ∷ [])
        prevhash

  module _ (address_script : Text → Option (List ℕ)) (parent_have : List ℕ → Bool) where
    -- `on_coinbaser` at the time `now`: the message, or `none` for -1.
    unfoldable pub on_coinbaser :
        Mining → Opts → Option Pool → ℕ → List ℕ → List ℕ → Mining × Option (List ℕ)
    on_coinbaser st opt pool now stale plain =
        let value : ℕ = rd_u64 (drop 1 plain) in
        let prevhash = take 32 (drop 9 plain) in
        let asked = ask_parent parent_have st opt 0 prevhash in
        let id : ℕ = if st.next_coinbaser_id == 0 then 1 else st.next_coinbaser_id in
        let (kept, outputs) = coinbaser_outputs address_script pool value opt.payout_script in
        let rec : SplitRec = record {
          id = id;
          sent_at = now;
          outputs = kept_outputs stale kept outputs;
        } in
        let st' = record asked {
          next_coinbaser_id = if id == 255 then 1 else id + 1;
          splits = put_split asked.splits rec;
          last_coinbaser_id = id;
        } in
        if ltb (length plain) 42 || not (byte_at plain 0 == coinbaser_req)
        then (st, none)
        else if not (byte_at plain 41 == struct_end)
        then (st, none)
        else if length outputs == 0
        then (st', encode_coinbaser_response value id opt.payout_script prevhash)
        else (st', encode_coinbaser_outputs value id outputs prevhash)
