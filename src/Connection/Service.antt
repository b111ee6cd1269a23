-- ===== src/Connection/Service.antt =====
-- A gateway's encrypted messages are served as if there were no channel.
use c_datum_prime.Common.{ℕ, ◌+◌, ◌≤◌, ◌≡◌, refl, sym, ap, ◌∙◌, inl, inr}
use c_datum_prime.Common.{Bool, false, not, ◌||◌, ◌==◌, Bool-cases, Option, none, some}
use c_datum_prime.Common.{List, [], ◌∷◌, length, take, drop, All}
use c_datum_prime.Common.{arith}
use c_datum_prime.Framing.{max_cmd_len, increment_nonce, feedback}
use c_datum_prime.Ledger.Types.{Text}
use c_datum_prime.Mining.{Opts}
use c_datum_prime.Mining.Block.{Node}
use c_datum_prime.Mining.Handle.Kept.{handle_mining-Kept}
use c_datum_prime.Session.{Sodium, Session, mac_bytes, plain_len, encrypt, opened, read_frame}
use c_datum_prime.Session.Channel.{IsPeer, read_frame-encrypt}
use c_datum_prime.Session.Delivery.{Works, encrypt_total}
use c_datum_prime.Session.Resent.{encrypt-IsPeer, encrypt_next}
use c_datum_prime.Connection.{
  Conn, Round, Moment, Event, arrived, goes, followed, cmd_mining, encrypt_mining, handle,
  on_mining, on_frame, on_event, run,
}

-- A message of a gateway, whether it signs it, and the moment at which it arrives.
abbrev pub Request : Type 0
Request = List ℕ × Bool × Moment

-- Its frame fits.
abbrev pub IsRequest : Request → Type 0
IsRequest (payload, sign, m) = plain_len payload sign + mac_bytes ≤ max_cmd_len

-- The session after one frame that was read.
abbrev pub advance : Session → Session
advance s = record s { rx_nonce = increment_nonce s.rx_nonce; rx_headers = feedback s.rx_headers }

-- The connection after it.
abbrev pub heard : Conn → Conn
heard c = record c { idle_polls = 0; session = advance c.session }

module _ (sodium : Sodium) (sha256 blake2b : List ℕ → List ℕ) (malloc : ℕ → Option (List ℕ))
    (gets : ℕ → Bool) (node : Node) (address_script : Text → Option (List ℕ)) (opt : Opts) where
  -- The frames that a gateway sends, as they arrive.
  unfoldable pub gateway_events : Session → List Request → List Event
  gateway_events g [] = []
  gateway_events g ((payload, sign, m) ∷ requests) =
      let (g', wire) = encrypt sodium gets g cmd_mining payload sign in
      elim wire [
        | none ↦ []
        | some w ↦ arrived (take 4 w) (λ n. some (take n (drop 4 w))) m ∷ gateway_events g' requests
      ]

  -- The service without the channel: every message is handled, in order, until a reply cannot be written.
  unfoldable pub serve : Conn → List Request → Round
  serve c [] = goes c
  serve c ((payload, sign, m) ∷ requests) =
      let r =
        on_mining sodium sha256 blake2b malloc gets node address_script opt (heard c) payload m in
      followed r (serve r.conn requests)

  on_mining-IsPeer :
      (g : Session) (c : Conn) (payload : List ℕ) (m : Moment)
      → IsPeer sodium g c.session
      → IsPeer sodium g
          (on_mining sodium sha256 blake2b malloc gets node address_script opt c payload
            m).conn.session
  unfolding on_mining
  on_mining-IsPeer g c payload m peer =
      let h = handle sodium sha256 blake2b malloc gets node address_script opt c payload m in
      let kept =
        handle_mining-Kept Session
          (encrypt_mining sodium sha256 blake2b malloc gets node address_script opt) gets
          (λ (s : Session). IsPeer sodium g s)
          (λ s message p. encrypt-IsPeer sodium gets g s cmd_mining message false p) sha256 blake2b
          node address_script c.session c.world c.mining opt m.now m.random m.stale payload peer in
      elim (Bool-cases (not h.ok || length h.wire == 0)) [
        | inl quiet ↦ rw quiet kept
        | inr reply ↦ elim (Bool-cases (m.writes h.wire)) [
          | inl out ↦ rw (reply, out) kept
          | inr lost ↦ rw (reply, lost) kept
        ]
      ]

  on_frame_opened :
      (c : Conn) (hdr_bytes : List ℕ) (body : ℕ → Option (List ℕ)) (m : Moment) (s : Session)
      (plain : List ℕ)
      → read_frame sodium gets c.session hdr_bytes body ≡ (s, opened cmd_mining plain)
      → on_frame sodium sha256 blake2b malloc gets node address_script opt c hdr_bytes body m
        ≡ on_mining sodium sha256 blake2b malloc gets node address_script opt
            (record c { session = s })
            plain
            m
  unfolding on_frame
  on_frame_opened c hdr_bytes body m s plain read = rw (on_frame, read, read) refl

  -- One frame.
  on_event-encrypt :
      (g g' : Session) (c : Conn) (payload : List ℕ) (sign : Bool) (m : Moment) (wire : List ℕ)
      → Works sodium gets
      → IsPeer sodium g c.session
      → encrypt sodium gets g cmd_mining payload sign ≡ (g', some wire)
      → (on_event sodium sha256 blake2b malloc gets node address_script opt c
            (arrived (take 4 wire) (λ n. some (take n (drop 4 wire))) m)
          ≡ on_mining sodium sha256 blake2b malloc gets node address_script opt (heard c) payload m)
        × IsPeer sodium g' (advance c.session)
  unfolding on_event
  on_event-encrypt g g' c payload sign m wire works peer sent =
      let (read, peer') =
        read_frame-encrypt sodium gets g c.session cmd_mining payload sign g' wire works.is_sodium
          (λ n le. works.has n (omega arith)) peer (omega arith) sent in
      let (nonce, key) = encrypt_next sodium gets g g' cmd_mining payload sign wire sent in
      let same : record c.session { rx_nonce = g'.tx_nonce; rx_headers = g'.tx_headers }
          ≡ advance c.session =
        λ i. record c.session {
          rx_nonce = (nonce ∙ ap increment_nonce (sym peer.same_nonce)) i;
          rx_headers = (key ∙ ap feedback (sym peer.same_headers)) i;
        } in
      (
        on_frame_opened (record c { idle_polls = 0 }) (take 4 wire)
              (λ n. some (take n (drop 4 wire))) m _ payload read
            ∙ ap
                (λ (s : Session).
                  on_mining sodium sha256 blake2b malloc gets node address_script opt
                    (record c { idle_polls = 0; session = s }) payload m)
                same,
        rw same at peer',
      )

  gateway_events_cons :
      (g g' : Session) (payload : List ℕ) (sign : Bool) (m : Moment) (requests : List Request)
      (wire : List ℕ)
      → encrypt sodium gets g cmd_mining payload sign ≡ (g', some wire)
      → gateway_events g ((payload, sign, m) ∷ requests)
        ≡ arrived (take 4 wire) (λ n. some (take n (drop 4 wire))) m ∷ gateway_events g' requests
  unfolding gateway_events
  gateway_events_cons g g' payload sign m requests wire sent = rw (gateway_events, sent, sent) refl

  -- Where libsodium works and no buffer is refused, the loop does with the frames of a gateway whose
  -- session is the peer of the connection's what the service without the channel does with the
  -- messages: the same state is left, the same bytes are written, and it goes on or ends alike.
  pub run-serve :
      (g : Session) (c : Conn) (requests : List Request)
      → Works sodium gets
      → IsPeer sodium g c.session
      → All IsRequest requests
      → run sodium sha256 blake2b malloc gets node address_script opt c (gateway_events g requests)
        ≡ serve c requests
  unfolding run serve gateway_events
  run-serve g c [] works peer small = refl
  run-serve g c ((payload, sign, m) ∷ requests) works peer small =
      let (g', wire, sent) =
        encrypt_total sodium gets g cmd_mining payload sign works peer.writes small.0 in
      let (event, peer') = on_event-encrypt g g' c payload sign m wire works peer sent in
      let rest =
        run-serve g'
          (on_mining sodium sha256 blake2b malloc gets node address_script opt (heard c) payload
            m).conn
          requests works (on_mining-IsPeer g' (heard c) payload m peer') small.1 in
      let start =
        on_mining sodium sha256 blake2b malloc gets node address_script opt (heard c) payload m in
      let events = gateway_events g' requests in
      ap (λ (es : List Event). run sodium sha256 blake2b malloc gets node address_script opt c es)
        (gateway_events_cons g g' payload sign m requests wire sent)
      ∙ (λ i.
          followed (event i)
            (run sodium sha256 blake2b malloc gets node address_script opt (event i).conn events))
      ∙ ap (λ (r : Round). followed start r) rest
