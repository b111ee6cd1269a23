-- ===== src/Session/Resent.antt =====
-- What an encryption leaves alone: all of the session but the nonce and the ratchet that it sends with.
use c_datum_prime.Common.{ℕ, ◌≡◌, sym, ap, inl, inr}
use c_datum_prime.Common.{Bool, Option-cases, some}
use c_datum_prime.Common.{List}
use mathlib.Core.Path.{subst}
use c_datum_prime.Framing.{increment_nonce, feedback, ratchet_mask}
use c_datum_prime.Session.{Sodium, Session, encrypt}
use c_datum_prime.Session.Channel.{IsPeer, encrypt-Sent}
use c_datum_prime.Session.Refused.{encrypt_refused}

-- The session with another nonce and ratchet to send with.
abbrev Resent : Session → Session → Type 0
Resent s s' = (nonce : List ℕ) × (key : ℕ) × (s' ≡ record s { tx_nonce = nonce; tx_headers = key })

module _ (sodium : Sodium) (gets : ℕ → Bool) where
  encrypt-Resent :
      (s : Session) (cmd : ℕ) (payload : List ℕ) (sign : Bool)
      → Resent s (encrypt sodium gets s cmd payload sign).0
  encrypt-Resent s cmd payload sign =
      let (s', wire) = encrypt sodium gets s cmd payload sign in
      elim (Option-cases wire) [
        | inl none_sent ↦
            elim (encrypt_refused sodium gets s s' cmd payload sign (λ i. (s', none_sent i))) [
              | inl same ↦ (s.tx_nonce, s.tx_headers, same)
              | inr (lacks, moved) ↦ (increment_nonce s.tx_nonce, s.tx_headers, moved)
            ]
        | inr (w, some_sent) ↦
            let sent = encrypt-Sent sodium gets s cmd payload sign s' w (λ i. (s', some_sent i)) in
            (_, _, sent.next)
      ]

  -- The other end goes on reading what its own peer sends.
  pub encrypt-IsPeer :
      (g s : Session) (cmd : ℕ) (payload : List ℕ) (sign : Bool)
      → IsPeer sodium g s
      → IsPeer sodium g (encrypt sodium gets s cmd payload sign).0
  encrypt-IsPeer g s cmd payload sign peer =
      let (nonce, key, e) = encrypt-Resent s cmd payload sign in
      subst (λ (t : Session). IsPeer sodium g t) (sym e)
        (record {
          writes = peer.writes;
          reads = peer.reads;
          same_key = peer.same_key;
          same_nonce = peer.same_nonce;
          same_headers = peer.same_headers;
          is_key = peer.is_key;
          signs = peer.signs;
        })

  -- After a frame that is sent, the nonce is the next one, and so is the ratchet's key.
  pub encrypt_next :
      (s s' : Session) (cmd : ℕ) (payload : List ℕ) (sign : Bool) (wire : List ℕ)
      → encrypt sodium gets s cmd payload sign ≡ (s', some wire)
      → (s'.tx_nonce ≡ increment_nonce s.tx_nonce) × (s'.tx_headers ≡ feedback s.tx_headers)
  unfolding ratchet_mask
  encrypt_next s s' cmd payload sign wire e =
      let sent = encrypt-Sent sodium gets s cmd payload sign s' wire e in
      (ap (λ (t : Session). t.tx_nonce) sent.next, ap (λ (t : Session). t.tx_headers) sent.next)
