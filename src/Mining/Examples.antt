-- ===== src/Mining/Examples.antt =====
-- Shares and coinbasers on the concrete connection.
use c_datum_prime.Common.{ℕ, ◌+◌, ◌≤◌, ◌≡◌, ◌≢◌, refl, ◌↔◌, ◌⊎◌}
use c_datum_prime.Common.{true, false, none, some}
use c_datum_prime.Common.{List, [], ◌∷◌, ◌++◌, map, length, replicate}
use c_datum_prime.Common.{arith}
use c_datum_prime.Wire.{bytes_eq, rd_u32, rd_u64}
use c_datum_prime.Ledger.Replay.{replay_new, replay_has, has_loop, replay_add}
use c_datum_prime.Pow.{zeros}
use c_datum_prime.Mining.{
  Mining, Output, SplitRec, require_split_rejected, clear_pending_block, split_of, put_split,
  ask_parent,
}
use c_datum_prime.Mining.Search.{IsUnpaid, require_split_rejected_iff}
use c_datum_prime.Mining.Coinbaser.{
  coinbaser_outputs, on_coinbaser, kept_outputs, with_remainder, payable_outputs, add_values,
}
use c_datum_prime.Mining.Coinbaser.Remainder.{sum_values, sum_values-coinbaser_outputs}
use c_datum_prime.Mining.Share.{sections, section, parse_head, split_text, nonce_section}
use c_datum_prime.Mining.Share.Rounds.{sections_enough}
use c_datum_prime.Mining.Share.Judge.{
  Done, on_share, conclude, judge, judge_work, judge_replay, judge_split, share_key, start_share,
  accept,
}
use c_datum_prime.Mining.Share.Verify.{verify_pow, share_header, meets_network, subsidy_only}
use c_datum_prime.Pow.Proof.{header_pow_hash_abw, asic_hash}
use c_datum_prime.Abw.Mask.{xor_bytes, xor_mask, tagged_sha256}
use c_datum_prime.Wire.{bytes_le}
use c_datum_prime.Mining.Block.{stash_or_submit_block}
use c_datum_prime.Pow.{place_mantissa, meets_target, target_for_pot, bits_to_target}
use c_datum_prime.Mining.Share.Outcome.{IsRejected, IsAccepted, world_of, on_share_outcome}
use c_datum_prime.Mining.Sample.{digest, gets, node, opts, pool, connection}

require_split_rejected_iff_example :
    (require_split_rejected connection false false (7 ∷ 1 ∷ 2 ∷ 9 ∷ []) 1011 ≡ true) ↔ (
      (false ≡ false)
      × (false ≡ false)
      × (connection.job_coinbaser_id ≢ 0)
      × IsUnpaid connection (7 ∷ 1 ∷ 2 ∷ 9 ∷ []) 1011)
require_split_rejected_iff_example =
    require_split_rejected_iff connection false false (7 ∷ 1 ∷ 2 ∷ 9 ∷ []) 1011

sum_values-coinbaser_outputs_example :
    let outputs =
      (coinbaser_outputs (λ identity. some identity) (some pool) 100000 (replicate 22 1)).1 in
    (sum_values outputs ≡ 100000) × (length outputs ≤ 128)
sum_values-coinbaser_outputs_example =
    sum_values-coinbaser_outputs (λ identity. some identity) pool 100000 (replicate 22 1)
      (omega arith) (omega arith) (omega arith) (omega arith) (omega arith) (omega arith)

sections_enough_example :
    sections (λ hash. true) opts 1 (4 + 3) connection none (5 ∷ 2 ∷ 0xFE ∷ 0 ∷ [])
    ≡ sections (λ hash. true) opts 1 4 connection none (5 ∷ 2 ∷ 0xFE ∷ 0 ∷ [])
sections_enough_example =
    sections_enough (λ hash. true) opts 1 4 3 connection none (5 ∷ 2 ∷ 0xFE ∷ 0 ∷ []) (omega arith)

-- A share: its head, the user "ab.c", and the nonces.
abbrev share_message : List ℕ
share_message =
    0x27
    ∷ 1
    ∷ 0
    ∷ 0
    ∷ 4
    ∷ 0
    ∷ 0
    ∷ 0
    ∷ 0
    ∷ 5
    ∷ 0
    ∷ 0
    ∷ 0
    ∷ 0
    ∷ 0
    ∷ 0
    ∷ 0x20
    ∷ 12
    ∷ (zeros 12
        ++ (b'a'
            ∷ b'b'
            ∷ 46
            ∷ b'c'
            ∷ 0
            ∷ 0
            ∷ 0
            ∷ 0
            ∷ 0
            ∷ (3 ∷ 1 ∷ (zeros 16 ++ (4 ∷ 0 ∷ 0 ∷ 0 ∷ 0 ∷ 0xFE ∷ [])))))

on_share_outcome_example :
    IsRejected digest digest gets node pool [] connection opts 1005 (
      on_share digest digest gets node (world_of (some pool) []) connection opts 1005 share_message)
    ⊎ IsAccepted digest digest gets node pool [] connection opts 1005 share_message (
        on_share digest digest gets node
          (world_of (some pool) [])
          connection
          opts
          1005
          share_message)
on_share_outcome_example =
    on_share_outcome digest digest gets node pool [] connection opts 1005 share_message

abbrev share_done : Done
share_done =
    on_share digest digest gets node (world_of (some pool) []) connection opts 1005 share_message

-- The share is accepted.
share_accepted : share_done.st.last_accepted ≡ true
unfolding on_share parse_head split_text conclude judge judge_work sections section nonce_section
    share_key start_share verify_pow meets_target bytes_le header_pow_hash_abw xor_bytes asic_hash
    xor_mask judge_replay judge_split replay_new replay_has has_loop replay_add
    require_split_rejected split_of accept bytes_eq target_for_pot tagged_sha256 meets_network
    bits_to_target stash_or_submit_block clear_pending_block subsidy_only share_header rd_u32
    place_mantissa
share_accepted = refl

abbrev without_miners : Mining
without_miners =
    (on_coinbaser gets (λ identity. none) (λ hash. true) (record connection { splits = [] }) opts
      none 1005 (replicate 83 5) (0x10 ∷ 0 ∷ 16 ∷ (zeros 38 ++ (0xFE ∷ [])))).0

-- A coinbaser without miners' outputs: the script that is kept for the check of the split is what
-- the array held.
stale_script :
    map (λ (r : SplitRec). map (λ (o : Output). o.script) r.outputs) without_miners.splits
    ≡ (replicate 22 5 ∷ []) ∷ []
unfolding on_coinbaser coinbaser_outputs with_remainder rd_u64 add_values payable_outputs put_split
    ask_parent kept_outputs
stale_script = refl
