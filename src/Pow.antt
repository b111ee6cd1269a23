-- ===== src/Pow.antt =====
-- src/pow.c: hashes of headers and transactions, targets, compact sizes and blocks. SHA-256 and BLAKE2b
-- are the cryptographic library's; `gets` is what `malloc` answers for a size. A size_t has 64 bits.
pub mod Compact
pub mod Target
pub mod Txid
pub mod Proof
mod Examples
use c_datum_prime.Common.{
  ℕ, zero, suc, ◌+◌, ◌-◌, ◌*◌, ◌/◌, ◌%◌, ◌^◌, ◌≤◌, ◌<◌, min, ◌≡◌, ◌≢◌, refl, sym, ap, ◌∙◌, ◌↔◌, ◌⊎◌,
  inl, inr,
}
use c_datum_prime.Common.{
  Bool, true, false, not, ◌&&◌, ◌||◌, ◌==◌, ltb, leb, if◌then◌else◌, Bool-cases, Option-cases,
  Option, none, some,
}
use c_datum_prime.Common.{
  List, [], ◌∷◌, ◌++◌, map, reverse, length, get_elem?, get_or, set, take, drop, replicate, All,
  All-append, append_assoc, append-nil,
}
use c_datum_prime.Common.{
  length-append, length-take, length-drop, take-append-drop, take-length-append, drop-length-append,
  arith, bit_and, bit_or, bit_xor, ==_iff, zero-add, suc-add, add-zero, add_assoc, add_comm,
  mod-eq_of_lt,
}
use c_datum_prime.Wire.{
  u8, u32, u64, byte_at, rd_u16, rd_u32, rd_u64, wr_u16, wr_u32, wr_u64, bytes_eq, bytes_le,
}
use c_datum_prime.Abw.Mask.{tagged_sha256, xor_key_hash, xor_mask, xor_bytes, clear_bits}

abbrev pub zeros : ℕ → List ℕ
zeros n = replicate n 0

-- `prime_target_for_pot`.
unfoldable pub target_for_pot : ℕ → List ℕ
target_for_pot exponent =
    let bit : ℕ = 224 - exponent in
    if leb 224 exponent
    then set (zeros 32) 31 1
    else set (zeros 32) (31 - bit / 8) (u8 (2 ^ (bit % 8)))

unfoldable pub meets_target : List ℕ → List ℕ → Bool
meets_target hash target = bytes_le hash target

-- The loop of `prime_bits_to_target` over the bytes of the mantissa, with `need` of them left; `none`
-- is its -1.
unfoldable pub place_mantissa : ℕ → List ℕ → List ℕ → Option (List ℕ)
place_mantissa end [] t = some t
place_mantissa end (b ∷ bs) t =
    let need : ℕ = suc (length bs) in
    let placed = place_mantissa end bs (set t (end - need) b) in
    let skipped = place_mantissa end bs t in
    if leb need end then placed else if not (b == 0) then none else skipped

unfoldable pub bits_to_target : ℕ → Option (List ℕ)
bits_to_target bits =
    let exp : ℕ = bits / 2 ^ 24 in
    let mant : ℕ = bit_and bits 0x007fffff in
    let v : ℕ = mant / 2 ^ (8 * (3 - exp)) in
    if not (bit_and bits 0x00800000 == 0)
    then none
    else if ltb 34 exp
    then none
    else if leb exp 3
    then some (zeros 29 ++ (u8 (v / 2 ^ 16) ∷ u8 (v / 2 ^ 8) ∷ u8 v ∷ []))
    else place_mantissa (u32 (32 + 2 ^ 32 - (exp - 3)))
        (u8 (mant / 2 ^ 16) ∷ u8 (mant / 2 ^ 8) ∷ u8 mant ∷ []) (zeros 32)

-- The arguments of `prime_header_v2_serialize`; a NULL array is one of zeros.
pub record HeaderV2 : Type 0 where
  pub version : ℕ
  pub prev_block : List ℕ
  pub merkle : List ℕ
  pub time_on_wire : ℕ
  pub bits : ℕ
  pub nonce : ℕ
  pub nonce2 : ℕ
  pub nonce3 : ℕ
  pub extranonce : List ℕ
  pub time_offset : ℕ
  pub txcount : ℕ
  pub flags : ℕ
  pub xor_clear : ℕ
  pub xor_key : List ℕ
  pub height : ℕ
  pub mm_rhs : List ℕ

abbrev pub v2_flag : ℕ
v2_flag = 0x80000000

unfoldable pub header_v2_serialize : HeaderV2 → List ℕ
header_v2_serialize h =
    wr_u32 (bit_or (bit_and h.version (2 ^ 31 - 1)) v2_flag)
    ++ (h.prev_block
        ++ (h.merkle
            ++ (wr_u32 h.time_on_wire
                ++ (wr_u32 h.bits
                    ++ (wr_u32 h.nonce
                        ++ (wr_u32 h.nonce2
                            ++ (wr_u32 h.nonce3
                                ++ (h.extranonce
                                    ++ (wr_u32 h.time_offset
                                        ++ (wr_u16 h.txcount
                                            ++ (h.flags
                                                ∷ h.xor_clear
                                                ∷ (h.xor_key
                                                    ++ (wr_u32 h.height ++ h.mm_rhs)))))))))))))

-- `prime_encode_compact_size`: the bytes written.
unfoldable pub encode_compact_size : ℕ → List ℕ
encode_compact_size n =
    if ltb n 0xfd
    then n ∷ []
    else if leb n 0xffff
    then 0xfd ∷ wr_u16 n
    else if leb n 0xffffffff
    then 0xfe ∷ wr_u32 n
    else 0xff ∷ wr_u64 n

-- `rd_compact(p, n, &off, &out)`: the value and the offset behind it; `none` is its -1.
unfoldable pub rd_compact : List ℕ → ℕ → Option (ℕ × ℕ)
rd_compact p off =
    let n : ℕ = length p in
    let b : ℕ = byte_at p off in
    if leb n off
    then none
    else if ltb b 0xfd
    then some (b, off + 1)
    else if b == 0xfd
    then (if ltb n (off + 1 + 2) then none else some (rd_u16 (drop (off + 1) p), off + 1 + 2))
    else if b == 0xfe
    then (if ltb n (off + 1 + 4) then none else some (rd_u32 (drop (off + 1) p), off + 1 + 4))
    else (if ltb n (off + 1 + 8) then none else some (rd_u64 (drop (off + 1) p), off + 1 + 8))

-- A field of `fixed` bytes, a length, and as many bytes and `tail` more: one round of the loops of
-- `prime_txid`. The sums are those of a size_t.
unfoldable pub skip_field : ℕ → ℕ → List ℕ → ℕ → Option ℕ
skip_field fixed tail tx off =
    let n : ℕ = length tx in
    if ltb n (off + fixed) then none else elim (rd_compact tx (off + fixed)) [
      | none ↦ none
      | some r ↦ if ltb n (u64 (r.1 + r.0 + tail)) then none else some (u64 (r.1 + r.0 + tail))
    ]

unfoldable pub skip_fields : ℕ → ℕ → ℕ → List ℕ → ℕ → Option ℕ
skip_fields zero fixed tail tx off = some off
skip_fields (suc rounds) fixed tail tx off = elim (skip_field fixed tail tx off) [
  | none ↦ none
  | some off' ↦ skip_fields rounds fixed tail tx off'
]

-- The witnesses of the inputs that are left.
unfoldable pub skip_witnesses : ℕ → List ℕ → ℕ → Option ℕ
skip_witnesses zero tx off = some off
skip_witnesses (suc inputs) tx off = elim (rd_compact tx off) [
  | none ↦ none
  | some r ↦ elim (skip_fields r.0 0 0 tx r.1) [
    | none ↦ none
    | some off' ↦ skip_witnesses inputs tx off'
  ]
]

infixl 20 ◌>>=◌
abbrev pub ◌>>=◌ {ℓ κ} : {A : Type ℓ} {B : Type κ} → Option A → (A → Option B) → Option B
none >>= next = none
some a >>= next = next a

-- Where the parts of a transaction lie.
pub record Layout : Type 0 where
  pub body_start : ℕ
  pub body_end : ℕ
  pub lock_start : ℕ

-- The parse of `prime_txid`; `none` is a -1.
unfoldable pub tx_layout : List ℕ → Option Layout
tx_layout tx =
    let n : ℕ = length tx in
    let has_witness : Bool = byte_at tx 4 == 0 && byte_at tx 5 == 1 in
    let start : ℕ = if has_witness then 6 else 4 in
    if ltb n 10 then none else do
      inputs ← rd_compact tx start
      after_inputs ← (if inputs.0 == 0 then none else skip_fields inputs.0 36 4 tx inputs.1)
      outputs ← rd_compact tx after_inputs
      body_end ← skip_fields outputs.0 8 0 tx outputs.1
      lock_start ← (if has_witness then skip_witnesses inputs.0 tx body_end else some body_end)
      if lock_start + 4 == n
          then some (record { body_start = start; body_end = body_end; lock_start = lock_start })
          else none

module _ (sha256 : List ℕ → List ℕ) (gets : ℕ → Bool) where
  unfoldable pub sha256d : List ℕ → List ℕ
  sha256d message = sha256 (sha256 message)

  unfoldable pub merkle_root : List ℕ → List (List ℕ) → List ℕ
  merkle_root acc [] = acc
  merkle_root acc (branch ∷ branches) = merkle_root (sha256d (acc ++ branch)) branches

  -- The part without the witnesses. `memcpy` of `body_end - body_start` bytes.
  unfoldable pub stripped : List ℕ → Layout → List ℕ
  stripped tx l =
      take 4 tx
      ++ (take (l.body_end - l.body_start) (drop l.body_start tx) ++ take 4 (drop l.lock_start tx))

  -- `prime_txid`, where the body does not end before it starts; `none` is its -1.
  unfoldable pub txid : List ℕ → Option (List ℕ)
  txid tx = elim (tx_layout tx) [
    | none ↦ none
    | some l ↦
        if gets (u64 (4 + (2 ^ 64 + l.body_end - l.body_start) + 4))
        then some (sha256d (stripped tx l))
        else none
  ]

  -- `prime_serialize_block`; `none` is its -1.
  unfoldable pub block_bytes : List ℕ → List ℕ → List (List ℕ) → List ℕ
  block_bytes header coinbase txns =
      header ++ (encode_compact_size (length txns + 1) ++ (coinbase ++ joined txns))
    where
      joined : List (List ℕ) → List ℕ
      joined [] = []
      joined (t ∷ ts) = t ++ joined ts

  unfoldable pub serialize_block : List ℕ → List ℕ → List (List ℕ) → Option (List ℕ)
  serialize_block header coinbase txns =
      let block = block_bytes header coinbase txns in
      if gets (length block) then some block else none
