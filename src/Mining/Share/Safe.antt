-- ===== src/Mining/Share/Safe.antt =====
-- What an accepted share is known to be, and what a rejected one leaves alone.
use c_datum_prime.Common.{ℕ, ◌+◌, ◌%◌, ◌^◌, ◌≤◌, ◌≡◌, refl, sym, ◌⊎◌, inl, inr}
use c_datum_prime.Common.{
  Bool, true, false, not, ◌&&◌, ◌||◌, ◌==◌, ltb, leb, Bool-cases, Option-cases, Option, none, some,
}
use c_datum_prime.Common.{List, length}
use c_datum_prime.Common.{arith}
use c_datum_prime.Ledger.Replay.{Replay, replay_has, replay_add, replay_new, replay_forget}
use c_datum_prime.Ledger.Pool.{Pool}
use c_datum_prime.Pow.{target_for_pot, meets_target}
use c_datum_prime.Pow.Proof.{header_pow_hash_abw}
use c_datum_prime.Mining.{Mining, Opts, require_split_rejected}
use c_datum_prime.Mining.Share.{Nonces, Head, Work, rejects, holds}
use c_datum_prime.Mining.Share.Verify.{
  subsidy_only, coinbase_tx, share_header, meets_network, verify_pow,
}
use c_datum_prime.Mining.Share.Judge.{
  share_diff, share_key, judge_work, judge_replay, judge_split, judge,
}

-- The guard is as it was, or took a hash and forgot it.
abbrev pub IsForgotten : Replay → Replay → Type 0
IsForgotten before after =
    (after ≡ before) ⊎ ((hash : List ℕ) × (after ≡ replay_forget (replay_add before hash) hash))

module _ (sha256 blake2b : List ℕ → List ℕ) (gets : ℕ → Bool) where
  -- The hash of the share's header under the key.
  abbrev pub share_hash : Mining → Head → Nonces → List ℕ → List ℕ
  share_hash st h n key =
      header_pow_hash_abw sha256 blake2b gets (share_header sha256 blake2b gets st h n key)
        h.target_byte

  -- What holds for an accepted share with the head `h`, where the sections leave the connection `st` and
  -- the nonces, on the pool `p`: it has a key and enough work, its hash meets the target of its byte and
  -- is not in the guard, and the check of the split does not reject it.
  pub record IsSound (p : Pool) (st : Mining) (opt : Opts) (now : ℕ) (h : Head) (n : Nonces)
      (key : List ℕ) : Type 0 where
    pub keyed : share_key st ≡ some key
    pub work_enough : opt.min_difficulty ≤ 2 ^ (h.target_byte % 64)
    pub meets : meets_target (share_hash st h n key) (target_for_pot h.target_byte) ≡ true
    pub is_new : replay_has p.replay (share_hash st h n key) ≡ false
    pub is_paid :
        (opt.require_split
          && require_split_rejected st
              (subsidy_only h)
              (meets_network sha256 blake2b gets st (share_hash st h n key))
              (coinbase_tx st h.target_byte)
              now)
        ≡ false

  verify_pow-holds :
      (st : Mining) (h : Head) (n : Nonces) (key : List ℕ)
      → ((r : ℕ) × (verify_pow sha256 blake2b gets st h n key ≡ rejects r))
        ⊎ ((w : Work) × (verify_pow sha256 blake2b gets st h n key ≡ holds w key)
            × (w.result ≡ share_hash st h n key)
            × (w.coinbase ≡ coinbase_tx st h.target_byte)
            × (w.meets_network ≡ meets_network sha256 blake2b gets st (share_hash st h n key))
            × (meets_target (share_hash st h n key) (target_for_pot h.target_byte) ≡ true))
  unfolding verify_pow
  verify_pow-holds st h n key =
      let tx_len : ℕ = length st.coinb1 + 12 + length st.coinb2 in
      let hash = share_hash st h n key in
      elim (Bool-cases (not st.have_job || not st.have_cb)) [
        | inl bad ↦ rw bad (inl (_, refl))
        | inr installed ↦ elim (Bool-cases (leb tx_len st.target_byte_index || ltb 65536 tx_len)) [
          | inl bad ↦ rw (installed, bad) (inl (_, refl))
          | inr inside ↦ elim (Bool-cases (meets_target hash (target_for_pot h.target_byte))) [
            | inl meets ↦ elim (Bool-cases (gets tx_len)) [
              | inl room ↦
                  rw (installed, inside, meets, room) (inr (_, refl, refl, refl, refl, refl))
              | inr full ↦ rw (installed, inside, meets, full) (inl (_, refl))
            ]
            | inr misses ↦ rw (installed, inside, misses) (inl (_, refl))
          ]
        ]
      ]

  module _ (p : Pool) (st : Mining) (opt : Opts) (now : ℕ) (h : Head) where
    judge_work-holds :
        (reason : ℕ) (carried : Option Nonces)
        → ((r : ℕ) × (judge_work sha256 blake2b gets st opt h reason carried ≡ rejects r))
          ⊎ ((n : Nonces) × (key : List ℕ) × (w : Work) × (judge_work sha256 blake2b gets st opt h
                  reason carried
                ≡ holds w key)
              × (reason ≡ 0)
              × (carried ≡ some n)
              × (share_key st ≡ some key)
              × (opt.min_difficulty ≤ share_diff h)
              × (w.result ≡ share_hash st h n key)
              × (w.coinbase ≡ coinbase_tx st h.target_byte)
              × (w.meets_network ≡ meets_network sha256 blake2b gets st (share_hash st h n key))
              × (meets_target (share_hash st h n key) (target_for_pot h.target_byte) ≡ true))
    unfolding judge_work
    judge_work-holds reason none = elim (Bool-cases (reason == 0)) [
      | inl clean ↦ elim (Bool-cases (ltb (share_diff h) opt.min_difficulty)) [
        | inl little ↦ rw (clean, little) (inl (_, refl))
        | inr enough ↦ rw (clean, enough) (inl (_, refl))
      ]
      | inr bad ↦ rw bad (inl (_, refl))
    ]
    judge_work-holds reason (some n) = elim (Bool-cases (reason == 0)) [
      | inl clean ↦ elim (Bool-cases (ltb (share_diff h) opt.min_difficulty)) [
        | inl little ↦ rw (clean, little) (inl (_, refl))
        | inr enough ↦ elim (Option-cases (share_key st)) [
          | inl keyless ↦ rw (clean, enough, keyless) (inl (_, refl))
          | inr (key, keyed) ↦ elim (verify_pow-holds st h n key) [
            | inl (r, bad) ↦ rw (clean, enough, keyed, bad) (inl (r, refl))
            | inr (w, e, hash, coinbase, network, meets) ↦
                rw (clean, enough, keyed, e)
                  (inr (
                    n,
                    key,
                    w,
                    refl,
                    ground arith,
                    refl,
                    refl,
                    ground arith,
                    hash,
                    coinbase,
                    network,
                    meets,
                  ))
          ]
        ]
      ]
      | inr bad ↦ rw bad (inl (_, refl))
    ]

    pub judge_lem :
        (reason : ℕ) (carried : Option Nonces)
        → ((r : ℕ) × (replay : Replay) × (judge sha256 blake2b gets
                (some p)
                st
                opt
                now
                h
                reason
                carried
              ≡ (rejects r, some (record p { replay = replay })))
            × IsForgotten p.replay replay)
          ⊎ ((n : Nonces) × (key : List ℕ) × (w : Work) × (judge sha256 blake2b gets
                  (some p)
                  st
                  opt
                  now
                  h
                  reason
                  carried
                ≡ (holds w key, some (record p { replay = replay_add p.replay w.result })))
              × (reason ≡ 0)
              × (carried ≡ some n)
              × (w.result ≡ share_hash st h n key)
              × IsSound p st opt now h n key)
    unfolding judge judge_replay judge_split replay_new
    judge_lem reason carried = elim (judge_work-holds reason carried) [
      | inl (r, bad) ↦ rw (bad, judge) (inl (r, p.replay, refl, inl refl))
      | inr (n, key, w, e, clean, there, keyed, enough, hash, coinbase, network, meets) ↦
          elim (Bool-cases (replay_has p.replay w.result)) [
            | inl seen ↦ rw (e, judge, seen) (inl (_, p.replay, refl, inl refl))
            | inr fresh ↦
                elim (Bool-cases (
                  opt.require_split
                  && require_split_rejected st (subsidy_only h) w.meets_network w.coinbase now)) [
                    | inl unpaid ↦
                        rw (e, judge, fresh, unpaid) (inl (_, _, refl, inr (w.result, refl)))
                    | inr paid ↦
                        rw (e, judge, fresh, paid)
                          (inr (
                            n,
                            key,
                            w,
                            refl,
                            clean,
                            there,
                            hash,
                            record {
                              keyed = keyed;
                              work_enough = enough;
                              meets = meets;
                              is_new = rw (sym hash) fresh;
                              is_paid = rw (sym network, sym coinbase) paid;
                            },
                          ))
                  ]
          ]
    ]
