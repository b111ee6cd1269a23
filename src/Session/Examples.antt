-- ===== src/Session/Examples.antt =====
-- A channel at concrete messages.
use c_datum_prime.Common.{ℕ, ◌+◌, ◌≡◌, refl, ◌⊎◌}
use c_datum_prime.Common.{Bool, true, false, ltb, some}
use c_datum_prime.Common.{List, [], ◌∷◌, map, replicate}
use c_datum_prime.Common.{arith}
use c_datum_prime.Framing.{increment_nonce}
use c_datum_prime.Session.{Session, mac_bytes, plain_len, signed, frame, encrypt, opened}
use c_datum_prime.Session.Delivery.{Message, send_all, read_all, read_all-send_all}
use c_datum_prime.Session.Refused.{encrypt_refused}
use c_datum_prime.Session.Sample.{sodium, gets, sodium-Works, server, client, server-IsPeer}

-- A signed configuration, an empty message and an acknowledgement.
abbrev messages : List Message
messages = (5, 0x99 ∷ 1 ∷ [], true) ∷ (5, [], false) ∷ (6, replicate 12 7, false) ∷ []

read_all-send_all_example :
    (s' : Session) × (wires : List (List ℕ)) × (send_all sodium gets server messages
      ≡ some (s', wires))
    × (read_all sodium gets client wires ≡ map (λ (m : Message). opened m.0 m.1) messages)
read_all-send_all_example =
    read_all-send_all sodium gets server client messages sodium-Works server-IsPeer (omega arith)

-- The frame's buffer of 26 bytes is refused, the ones before it are not.
abbrev few : ℕ → Bool
few n = ltb n 24

encrypt_refused_example :
    let left = record server { tx_nonce = increment_nonce (replicate 24 1) } in
    (left ≡ server)
    ⊎ ((few (4 + (plain_len (replicate 6 9) false + mac_bytes)) ≡ false)
        × (left ≡ record server { tx_nonce = increment_nonce server.tx_nonce }))
unfolding encrypt signed frame
encrypt_refused_example =
    encrypt_refused sodium few server
      (record server { tx_nonce = increment_nonce (replicate 24 1) }) 5 (replicate 6 9) false refl
