-- ===== src/Connection/Examples.antt =====
-- Connections at concrete events.
use c_datum_prime.Common.{ℕ, ◌≡◌, refl}
use c_datum_prime.Common.{true, false, Option, none, some}
use c_datum_prime.Common.{List, [], ◌∷◌, replicate}
use c_datum_prime.Common.{arith}
use c_datum_prime.Bulk
use c_datum_prime.Ledger.Resume.{SavedSession}
use c_datum_prime.Abw.{abw_start, abw_resumed}
use c_datum_prime.Mining.{conn_mining_init}
use c_datum_prime.Mining.Coinbaser.{coinbaser_req}
use c_datum_prime.Mining.Block.{World}
use c_datum_prime.Mining.Sample
use c_datum_prime.Session.Sample.{sodium, gets, sodium-Works, server, client, sodium-IsSigner}
use c_datum_prime.Session.Channel.{IsPeer}
use c_datum_prime.Handshake.{v3, Hello}
use c_datum_prime.Connection.{Moment, silent, Conn, run}
use c_datum_prime.Connection.Idle.{late_headers, run-silent, run-header_late}
use c_datum_prime.Connection.Service.{Request, gateway_events, serve, run-serve}
use c_datum_prime.Connection.Socket.{
  got, interrupted, Recv, whole, lost, read_exact, IsRead, read_exact_lem,
}
use c_datum_prime.Connection.Greeting.{Arrival, with_slots, saved_at_end}
use c_datum_prime.Connection.Greeting.Resumed.{with_slots-saved_at_end}

abbrev malloc : ℕ → Option (List ℕ)
malloc n = none

abbrev world : World
world = record { pool = some Sample.pool; submitted = [] }

abbrev conn : Conn
conn = record {
  session = server;
  mining = conn_mining_init;
  transfer = Bulk.idle;
  idle_polls = 3;
  world = world;
}

-- The gateway's end of the sample channel.
client-IsPeer : IsPeer sodium client server
client-IsPeer = record {
  writes = refl;
  reads = refl;
  same_key = refl;
  same_nonce = refl;
  same_headers = refl;
  is_key = omega arith;
  signs = sodium-IsSigner (replicate 32 4) (replicate 64 4);
}

abbrev moment : Moment
moment = record { now = 1700000000; random = replicate 16 3; stale = []; writes = λ bytes. true }

-- A request for a coinbaser, an empty message, and one that is signed.
abbrev requests : List Request
requests =
    (coinbaser_req ∷ replicate 40 0, false, moment)
    ∷ ([], false, moment)
    ∷ (0x42 ∷ [], true, moment)
    ∷ []

run-serve_example :
    run sodium Sample.digest Sample.digest malloc gets Sample.node
      (λ a. none)
      Sample.opts
      conn
      (gateway_events sodium Sample.digest Sample.digest malloc gets Sample.node
        (λ a. none)
        Sample.opts
        client
        requests)
    ≡ serve sodium Sample.digest Sample.digest malloc gets Sample.node
        (λ a. none)
        Sample.opts
        conn
        requests
run-serve_example =
    run-serve sodium Sample.digest Sample.digest malloc gets Sample.node (λ a. none) Sample.opts
      client conn requests sodium-Works client-IsPeer (omega arith)

run-silent_example :
    (run sodium Sample.digest Sample.digest malloc gets Sample.node
      (λ a. none)
      Sample.opts
      conn
      (replicate 87 silent)).goes_on
    ≡ false
run-silent_example =
    run-silent sodium Sample.digest Sample.digest malloc gets Sample.node (λ a. none) Sample.opts
      conn 87 (omega arith)

run-header_late_example :
    (run sodium Sample.digest Sample.digest malloc gets Sample.node
      (λ a. none)
      Sample.opts
      conn
      (late_headers (0 ∷ 88 ∷ 3 ∷ []))).goes_on
    ≡ true
run-header_late_example =
    run-header_late sodium Sample.digest Sample.digest malloc gets Sample.node (λ a. none)
      Sample.opts conn (0 ∷ 88 ∷ 3 ∷ []) (omega arith, (omega arith, (omega arith, tt)))

-- Six bytes in three pieces, with an interruption.
abbrev pieces : List Recv
pieces = got (1 ∷ []) ∷ interrupted ∷ got (2 ∷ 3 ∷ []) ∷ got (4 ∷ 5 ∷ 6 ∷ []) ∷ []

reads_four : read_exact 4 pieces ≡ whole (1 ∷ 2 ∷ 3 ∷ 4 ∷ []) (got (5 ∷ 6 ∷ []) ∷ [])
unfolding read_exact
reads_four = refl

-- The two bytes that came before the socket timed out are gone.
loses_two : read_exact 4 (got (1 ∷ 2 ∷ []) ∷ []) ≡ lost (1 ∷ 2 ∷ []) []
unfolding read_exact
loses_two = refl

read_exact_lem_example : IsRead 4 pieces (read_exact 4 pieces)
read_exact_lem_example = read_exact_lem 4 pieces tt (omega arith)

abbrev hello : Hello
hello = record {
  client_sign_pk = replicate 32 1;
  client_box_pk = replicate 32 2;
  session_sign_pk = replicate 32 3;
  session_box_pk = replicate 32 4;
  user_agent = b'r' ∷ [];
  nk = 77;
  generation = v3;
  resume_present = true;
  resume_token = replicate 40 9;
}

abbrev arrival : Arrival
arrival = record {
  now = 1700000500;
  sign_keys = none;
  box_keys = none;
  token_random = replicate 32 1;
  slot_random = replicate 16 2;
  writes = λ bytes. true;
}

abbrev left : Conn
left = record conn {
  mining = record conn_mining_init {
    abw_on = true;
    abw = abw_start 300 (replicate 16 3) 1700000000;
    next_coinbaser_id = 6;
  };
}

abbrev room : List SavedSession
room =
    record {
      token = replicate 40 0;
      client_pk = replicate 32 0;
      coinbaser_id = 0;
      abw = abw_start 300 (replicate 16 3) 0;
      used = false;
    }
    ∷ []

with_slots-saved_at_end_example :
    with_slots hello Sample.opts world
      (saved_at_end hello (replicate 40 9) left room)
      arrival
      (replicate 40 8)
      conn_mining_init
    ≡ (
      record conn_mining_init {
        next_coinbaser_id = 6;
        abw = abw_resumed (abw_start 300 (replicate 16 3) 1700000000) 1700000500;
        abw_on = true;
      },
      replicate 40 9,
    )
with_slots-saved_at_end_example =
    with_slots-saved_at_end hello hello (replicate 40 9) (replicate 40 8) left room Sample.opts
      world arrival conn_mining_init Sample.pool Sample.pool
      (record { was_v3 = refl; is_v3 = refl; asks = refl; same_token = refl; same_client = refl })
      (omega arith) refl refl refl refl
