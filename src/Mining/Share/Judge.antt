-- ===== src/Mining/Share/Judge.antt =====
-- The rest of `on_share` (src/mining.c): what is rejected, and what an accepted share changes.
use c_datum_prime.Common.{ℕ, ◌%◌, ◌^◌, inl, inr}
use c_datum_prime.Common.{
  Bool, true, false, not, ◌&&◌, ◌==◌, ltb, if◌then◌else◌, Option, none, some,
}
use c_datum_prime.Common.{List, length}
use c_datum_prime.Ledger.Types.{identity_of, max_identity, sv1_tag}
use c_datum_prime.Ledger.Window.{record_share}
use c_datum_prime.Ledger.Replay.{replay_new, replay_forget}
use c_datum_prime.Ledger.Pool.{Pool}
use c_datum_prime.Abw.{abw_key}
use c_datum_prime.Abw.Mask.{gateway_proof}
use c_datum_prime.Pow.{zeros}
use c_datum_prime.Mining.{Mining, Opts, require_split_rejected}
use c_datum_prime.Mining.Block.{Node, World, on_pool, stash_or_submit_block}
use c_datum_prime.Mining.Share.{
  Nonces, Head, Work, Verdict, rejects, holds, parse_head, sections, encode_share_resp,
  share_accepted, share_rejected, reject_dup, reject_no_split, reject_blake, reject_abw_slot,
}
use c_datum_prime.Mining.Share.Verify.{subsidy_only, verify_pow}

-- 1ull << (target_byte & 63).
abbrev pub share_diff : Head → ℕ
share_diff h = 2 ^ (h.target_byte % 64)

-- The slot that the share's key is in.
unfoldable pub slot_of : Mining → ℕ
slot_of st = elim st.abw_slot [ none ↦ st.abw.active | some slot ↦ slot ]

-- `xor_key`: zeros without a key.
unfoldable pub share_key : Mining → Option (List ℕ)
share_key st = if st.abw_on then abw_key st.abw (slot_of st) else some (zeros 16)

-- The three flags that `on_share` clears first.
unfoldable pub start_share : Mining → Mining
start_share st = record st { last_accepted = false; last_candidate = false; last_raw_le = none }

-- The pool's share of an accepted one.
unfoldable pub count_share : Mining → Opts → ℕ → Head → List ℕ → Pool → Pool
count_share st opt now h result p = record p {
  window =
      (record_share p.window now (identity_of h.user max_identity) (share_diff h) result
        (if st.public_stratum then sv1_tag else opt.coinbase_tag)).1;
}

-- What `on_share` leaves: `want_txns` with the job, and the response, which is `none` for -1.
pub record Done : Type 0 where
  pub world : World
  pub st : Mining
  pub want_txns : Option ℕ
  pub payload : Option (List ℕ)

module _ (sha256 blake2b : List ℕ → List ℕ) (gets : ℕ → Bool) where
  -- From the reason of the sections to the one of `verify_pow`.
  unfoldable pub judge_work : Mining → Opts → Head → ℕ → Option Nonces → Verdict
  judge_work st opt h reason carried =
      if not (reason == 0)
      then rejects reason
      else if ltb (share_diff h) opt.min_difficulty
      then rejects 13
      else elim carried [
        | none ↦ rejects reject_blake
        | some n ↦ elim (share_key st) [
          | none ↦ rejects reject_abw_slot
          | some key ↦ verify_pow sha256 blake2b gets st h n key
        ]
      ]

  -- The replay guard and the check of the split, for work that holds.
  unfoldable pub judge_replay : Option Pool → Mining → Opts → ℕ → Head → Work → Bool × Option Pool
  judge_replay none st opt now h w = (true, none)
  judge_replay (some p) st opt now h w =
      let (is_new, replay) = replay_new p.replay w.result in
      (is_new, some (record p { replay = replay }))

  unfoldable pub judge_split : Option Pool → Mining → Opts → ℕ → Head → Work → Bool × Option Pool
  judge_split pool st opt now h w =
      if opt.require_split
        && require_split_rejected st (subsidy_only h) w.meets_network w.coinbase now
      then (
        false,
        elim pool [
          | none ↦ none
          | some p ↦ some (record p { replay = replay_forget p.replay w.result })
        ],
      )
      else (true, pool)

  -- The whole judgement, and the pool with its guard.
  unfoldable pub judge :
      Option Pool → Mining → Opts → ℕ → Head → ℕ → Option Nonces → Verdict × Option Pool
  judge pool st opt now h reason carried = elim (judge_work st opt h reason carried) [
    | rejects r ↦ (rejects r, pool)
    | holds w key ↦
        let (is_new, guarded) = judge_replay pool st opt now h w in
        let (is_paid, forgot) = judge_split guarded st opt now h w in
        if not is_new
        then (rejects reject_dup, guarded)
        else if not is_paid
        then (rejects reject_no_split, forgot)
        else (holds w key, guarded)
  ]

  -- An accepted share: it is counted, and its block is submitted when it meets the network's target.
  unfoldable pub accept : Node → World → Mining → Opts → ℕ → Head → Work → List ℕ → Done
  accept node world st opt now h w key =
      let raw_le = gateway_proof sha256 gets w.result key h.target_byte in
      let st' = record st {
        last_accepted = true;
        last_candidate = w.meets_network;
        last_hash = w.result;
        last_raw_le = some raw_le;
      } in
      let counted = on_pool world (count_share st' opt now h w.result) in
      let (booked, st'', want) =
        stash_or_submit_block sha256 gets node counted st' opt now h.job_id (subsidy_only h)
          w.header w.result w.merkle w.coinbase (identity_of h.user max_identity) in
      let payload =
        encode_share_resp gets share_accepted 0 h.nonce h.target_byte h.job_id
          (if st.abw_on then some (slot_of st, raw_le) else none) in
      if w.meets_network
      then record {
        world = booked;
        st = st'';
        want_txns = if want then some h.job_id else none;
        payload = payload;
      }
      else record { world = counted; st = st'; want_txns = none; payload = payload }

  -- What follows the judgement.
  unfoldable pub conclude : Node → World → Mining → Opts → ℕ → Head → Verdict × Option Pool → Done
  conclude node world st opt now h (verdict, pool) = elim verdict [
    | rejects r ↦ record {
      world = record world { pool = pool };
      st = st;
      want_txns = none;
      payload = encode_share_resp gets share_rejected r h.nonce h.target_byte h.job_id none;
    }
    | holds w key ↦ accept node (record world { pool = pool }) st opt now h w key
  ]

  -- `on_share`.
  unfoldable pub on_share : Node → World → Mining → Opts → ℕ → List ℕ → Done
  on_share node world st opt now plain = elim (parse_head plain) [
    | inl (reason, nonce, target_byte, job_id) ↦ record {
      world = world;
      st = start_share st;
      want_txns = none;
      payload = encode_share_resp gets share_rejected reason nonce target_byte job_id none;
    }
    | inr (h, rest) ↦
        let (reason, st', carried) =
          sections node.parent_have opt h.job_id (length rest) (start_share st) none rest in
        conclude node world st' opt now h (judge world.pool st' opt now h reason carried)
  ]
