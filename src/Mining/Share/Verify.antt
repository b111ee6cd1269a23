-- ===== src/Mining/Share/Verify.antt =====
-- The work of a share (src/mining.c: `verify_pow`).
use c_datum_prime.Common.{ℕ, ◌+◌, ◌/◌, ◌%◌}
use c_datum_prime.Common.{Bool, false, not, ◌||◌, ◌==◌, ltb, leb, if◌then◌else◌, none, some}
use c_datum_prime.Common.{List, [], ◌++◌, length, set, drop}
use c_datum_prime.Wire.{u16, rd_u32}
use c_datum_prime.Abw.Mask.{clear_bits}
use c_datum_prime.Wire.{bytes_eq}
use c_datum_prime.Pow.{
  HeaderV2, zeros, header_v2_serialize, target_for_pot, meets_target, bits_to_target, sha256d,
  merkle_root,
}
use c_datum_prime.Pow.Proof.{header_pow_hash_abw}
use c_datum_prime.Mining.{Mining}
use c_datum_prime.Mining.Share.{
  Nonces, Head, Verdict, rejects, holds, reject_bad_job, reject_other, reject_high_hash,
}

-- The flag that leaves the coinbase alone in the block.
unfoldable pub subsidy_only : Head → Bool
subsidy_only h = h.flags / 2 % 2 == 1

-- The coinbase with its target byte and twelve zeros for the extranonce.
unfoldable pub coinbase_tx : Mining → ℕ → List ℕ
coinbase_tx st target_byte =
    set (st.coinb1 ++ (zeros 12 ++ st.coinb2)) st.target_byte_index target_byte

module _ (sha256 blake2b : List ℕ → List ℕ) (gets : ℕ → Bool) where
  -- The fields that the share and the job fill in.
  unfoldable pub share_header : Mining → Head → Nonces → List ℕ → HeaderV2
  share_header st h n xor_key =
      let tx = coinbase_tx st h.target_byte in
      record {
        version = h.version;
        prev_block = st.prev_hash;
        merkle =
            merkle_root sha256 gets (sha256d sha256 gets tx)
              (if subsidy_only h then [] else st.merkle);
        time_on_wire = n.time_on_wire;
        bits = rd_u32 st.nbits;
        nonce = rd_u32 n.nonce;
        nonce2 = rd_u32 (drop 4 n.nonce);
        nonce3 = rd_u32 (drop 4 n.ntime);
        extranonce = zeros 4 ++ h.extranonce;
        time_offset = rd_u32 n.ntime;
        txcount = if subsidy_only h then 1 else u16 (st.txn_count + 1);
        flags = if h.use_time_offset then 4 else 0;
        xor_clear = if bytes_eq xor_key (zeros 16) then 0 else clear_bits h.target_byte;
        xor_key = xor_key;
        height = st.height;
        mm_rhs = zeros 32;
      }

  unfoldable pub meets_network : Mining → List ℕ → Bool
  meets_network st result = elim (bits_to_target (rd_u32 st.nbits)) [
    | none ↦ false
    | some net ↦ meets_target result net
  ]

  -- `verify_pow`.
  unfoldable pub verify_pow : Mining → Head → Nonces → List ℕ → Verdict
  verify_pow st h n xor_key =
      let tx = coinbase_tx st h.target_byte in
      let tx_len : ℕ = length st.coinb1 + 12 + length st.coinb2 in
      let header = share_header st h n xor_key in
      let result = header_pow_hash_abw sha256 blake2b gets header h.target_byte in
      if not st.have_job || not st.have_cb
      then rejects reject_bad_job
      else if leb tx_len st.target_byte_index || ltb 65536 tx_len
      then rejects reject_other
      else if not (meets_target result (target_for_pot h.target_byte))
      then rejects reject_high_hash
      else if not (gets tx_len)
      then rejects reject_other
      else holds
          (record {
            header = header_v2_serialize header;
            result = result;
            merkle = header.merkle;
            coinbase = tx;
            meets_network = meets_network st result;
          })
          xor_key
