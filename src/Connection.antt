-- ===== src/Connection.antt =====
-- The mining loop of a connection (src/main.c: the loop of `handle_client`). What `poll` and
-- `read_exact` give is a list of events; the sockets themselves are not modelled. `malloc` is what the
-- allocator gives for a size, and `gets` whether it gives anything.
pub mod Greeting
pub mod Idle
pub mod Service
pub mod Socket
mod Examples
use c_datum_prime.Common.{ℕ, ◌+◌}
use c_datum_prime.Common.{
  Bool, true, false, not, ◌||◌, ◌==◌, leb, if◌then◌else◌, Option, none, some,
}
use c_datum_prime.Common.{List, [], ◌∷◌, ◌++◌, length}
use c_datum_prime.Ledger.Types.{Text}
use c_datum_prime.Bulk.{Transfer, ack, ingest, on_bulk}
use c_datum_prime.Mining.{Mining, Opts}
use c_datum_prime.Mining.Block.{Node, World}
use c_datum_prime.Mining.Handle.{Handled, handle_mining}
use c_datum_prime.Session.{Sodium, Session, encrypt, broken, skipped, opened, read_frame}

-- `PRIME_CMD_MINING` and `PRIME_CMD_BULK`.
abbrev pub cmd_mining : ℕ
cmd_mining = 5

abbrev pub cmd_bulk : ℕ
cmd_bulk = 6

-- `PRIME_CLIENT_MAX_IDLE_POLLS`.
abbrev pub max_idle_polls : ℕ
max_idle_polls = 90

-- What a frame finds: the time, the bytes that libsodium's generator gives, an old buffer, and whether
-- `write_all` writes some bytes.
pub record Moment : Type 0 where
  pub now : ℕ
  pub random : List ℕ
  pub stale : List ℕ
  pub writes : List ℕ → Bool

-- One round: the stop flag is set, `poll` fails, it times out, the header is late or fails, or a header
-- arrives, with what `read_exact` gives behind it for a size.
pub data Event : Type 0 where
  stopped : Event
  poll_failed : Event
  silent : Event
  header_late : Event
  header_gone : Event
  arrived : List ℕ → (ℕ → Option (List ℕ)) → Moment → Event

-- The variables of the loop, and what it shares with other connections.
pub record Conn : Type 0 where
  pub session : Session
  pub mining : Mining
  pub transfer : Transfer
  pub idle_polls : ℕ
  pub world : World

-- What a round leaves, what it wrote, and whether the loop goes on.
pub record Round : Type 0 where
  pub conn : Conn
  pub written : List (List ℕ)
  pub goes_on : Bool

abbrev pub ends : Conn → Round
ends c = record { conn = c; written = []; goes_on = false }

abbrev pub goes : Conn → Round
goes c = record { conn = c; written = []; goes_on = true }

-- The bytes, if `write_all` writes them.
abbrev pub written_by : Moment → List ℕ → List (List ℕ)
written_by m bytes = if m.writes bytes then bytes ∷ [] else []

-- The rounds after a round, if the loop goes on.
abbrev pub followed : Round → Round → Round
followed r rest =
    if r.goes_on
    then record { conn = rest.conn; written = r.written ++ rest.written; goes_on = rest.goes_on }
    else r

-- A round without a byte.
unfoldable pub on_silence : Conn → Round
on_silence c =
    let c' = record c { idle_polls = c.idle_polls + 1 } in
    if leb max_idle_polls (c.idle_polls + 1) then ends c' else goes c'

module _ (sodium : Sodium) (sha256 blake2b : List ℕ → List ℕ) (malloc : ℕ → Option (List ℕ))
    (gets : ℕ → Bool) (node : Node) (address_script : Text → Option (List ℕ)) (opt : Opts) where
  -- `prime_session_encrypt` of a mining message.
  abbrev pub encrypt_mining : Session → List ℕ → Session × Option (List ℕ)
  encrypt_mining s m = encrypt sodium gets s cmd_mining m false

  -- `prime_handle_mining` of this connection.
  abbrev pub handle : Conn → List ℕ → Moment → Handled Session
  handle c plain m =
      handle_mining Session encrypt_mining sha256 blake2b gets node address_script c.session c.world
        c.mining opt m.now m.random m.stale plain

  abbrev pub handled : Conn → Handled Session → Conn
  handled c h = record c { session = h.session; mining = h.st; world = h.world }

  -- A mining message, and its reply.
  unfoldable pub on_mining : Conn → List ℕ → Moment → Round
  on_mining c plain m =
      let h = handle c plain m in
      let c' = handled c h in
      if not h.ok || length h.wire == 0
      then goes c'
      else if m.writes h.wire
      then record { conn = c'; written = h.wire ∷ []; goes_on = true }
      else ends c'

  -- The message that a transfer delivers; what cannot be written is dropped.
  unfoldable pub on_delivery : Conn → List ℕ → Moment → Conn × List (List ℕ)
  on_delivery c buf m =
      let h = handle c buf m in
      (handled c h, if length h.wire == 0 then [] else written_by m h.wire)

  -- The frame that acknowledges what arrived.
  unfoldable pub on_ack : Conn → Transfer → Moment → Conn × List (List ℕ)
  on_ack c t m =
      let (s, frame) = encrypt sodium gets c.session cmd_bulk (ack t.id t.got) false in
      (record c { session = s }, elim frame [ none ↦ [] | some f ↦ written_by m f ])

  -- A fragment of a large message.
  unfoldable pub on_fragment : Conn → List ℕ → Moment → Round
  on_fragment c plain m =
      let o = ingest malloc c.transfer plain in
      let (transfer, message) = on_bulk malloc c.transfer plain in
      let (c', acked) = on_ack (record c { transfer = transfer }) o.transfer m in
      if not o.accepted then goes (record c { transfer = transfer }) else elim message [
        | none ↦ record { conn = c'; written = acked; goes_on = true }
        | some buf ↦
            let (c'', replied) = on_delivery c' buf m in
            record { conn = c''; written = acked ++ replied; goes_on = true }
      ]

  -- A frame.
  unfoldable pub on_frame : Conn → List ℕ → (ℕ → Option (List ℕ)) → Moment → Round
  on_frame c hdr_bytes body m =
      let (s, f) = read_frame sodium gets c.session hdr_bytes body in
      let c' = record c { session = s } in
      elim f [
        | broken ↦ ends c'
        | skipped ↦ goes c'
        | opened cmd plain ↦
            if cmd == cmd_bulk
            then on_fragment c' plain m
            else if cmd == cmd_mining
            then on_mining c' plain m
            else goes c'
      ]

  unfoldable pub on_event : Conn → Event → Round
  on_event c stopped = ends c
  on_event c poll_failed = ends c
  on_event c silent = on_silence c
  on_event c header_late = on_silence (record c { idle_polls = 0 })
  on_event c header_gone = ends (record c { idle_polls = 0 })
  on_event c (arrived hdr_bytes body m) = on_frame (record c { idle_polls = 0 }) hdr_bytes body m

  -- `while (!g_stop)`: the rounds of a list of events.
  unfoldable pub run : Conn → List Event → Round
  run c [] = goes c
  run c (e ∷ events) = let r = on_event c e in followed r (run r.conn events)
