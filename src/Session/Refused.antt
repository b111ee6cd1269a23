-- ===== src/Session/Refused.antt =====
-- What a failed `prime_session_encrypt` leaves.
use c_datum_prime.Common.{ℕ, ◌+◌, ◌≡◌, ◌⊎◌, inl, inr}
use c_datum_prime.Common.{Bool, false, not, ◌||◌, ltb, Bool-cases, Option-cases, none}
use c_datum_prime.Common.{List}
use c_datum_prime.Common.{arith}
use c_datum_prime.Framing.{max_cmd_len, increment_nonce}
use c_datum_prime.Session.{Sodium, Session, mac_bytes, room, plain_len, signed, frame, encrypt}

module _ (sodium : Sodium) (gets : ℕ → Bool) where
  -- A message that is not encrypted leaves the session as it was, unless it was the frame's own buffer
  -- that `malloc` refused: then the nonce has gone on, and the ratchet has not.
  pub encrypt_refused :
      (s s' : Session) (cmd : ℕ) (payload : List ℕ) (sign : Bool)
      → encrypt sodium gets s cmd payload sign ≡ (s', none)
      → (s' ≡ s)
        ⊎ ((gets (4 + (plain_len payload sign + mac_bytes)) ≡ false)
            × (s' ≡ record s { tx_nonce = increment_nonce s.tx_nonce }))
  unfolding encrypt frame
  encrypt_refused s s' cmd payload sign e =
      let ct_len : ℕ = plain_len payload sign + mac_bytes in
      elim (Bool-cases (not s.ready || not (gets (room (plain_len payload sign))))) [
        | inl bad ↦ inl (ground arith)
        | inr good ↦ elim (Option-cases (signed sodium gets s payload sign)) [
          | inl bad ↦ inl (ground arith)
          | inr (plain, plain_is) ↦
              elim (Bool-cases (ltb max_cmd_len ct_len || not (gets ct_len))) [
                | inl bad ↦ inl (ground arith)
                | inr fits ↦
                    elim (Option-cases (sodium.box_easy_afternm plain s.tx_nonce s.precomp)) [
                      | inl bad ↦ inl (ground arith)
                      | inr (ct, ct_is) ↦ elim (Bool-cases (gets (4 + ct_len))) [
                        | inl has ↦ absurd (ground arith)
                        | inr lacks ↦ inr (lacks, ground arith)
                      ]
                    ]
              ]
        ]
      ]
