-- ===== src/Connection/Greeting.antt =====
-- How a connection starts and ends (src/main.c: `handle_client` around its loop).
pub mod Resumed
use c_datum_prime.Common.{ℕ}
use c_datum_prime.Common.{
  Bool, true, false, not, ◌&&◌, ◌||◌, ◌==◌, ltb, if◌then◌else◌, Option, none, some,
}
use c_datum_prime.Common.{List, [], ◌∷◌, ◌++◌}
use c_datum_prime.Framing.{initial_hello_key, ratchet_unmask}
use c_datum_prime.Bulk
use c_datum_prime.Ledger.Types.{Text}
use c_datum_prime.Ledger.Resume.{SavedSession, resume_put, resume_get}
use c_datum_prime.Abw.{abw_start, abw_resumed}
use c_datum_prime.Abw.Mask.{xor_key_hash}
use c_datum_prime.Abw.Notices.{encode_notices}
use c_datum_prime.Mining.{Mining, Opts, conn_mining_init}
use c_datum_prime.Mining.Block.{Node, World}
use c_datum_prime.Config.{encode_config_v1, encode_config_v3}
use c_datum_prime.Session.{Sodium, Session, encrypt}
use c_datum_prime.Handshake.{
  Keypairs, Generation, v1, v3, Hello, new_resume_token, open_hello, accept,
}
use c_datum_prime.Connection.{Conn, Event, cmd_mining, run}

-- `PRIME_MAX_HELLO_FRAME`.
abbrev pub max_hello_frame : ℕ
max_hello_frame = 4096

-- What a new connection finds: the time, what libsodium's generators give, and whether `write_all` writes
-- some bytes.
pub record Arrival : Type 0 where
  pub now : ℕ
  pub sign_keys : Option (List ℕ × List ℕ)
  pub box_keys : Option (List ℕ × List ℕ)
  pub token_random : List ℕ
  pub slot_random : List ℕ
  pub writes : List ℕ → Bool

abbrev pub is_v3 : Generation → Bool
is_v3 v1 = false
is_v3 v3 = true

-- The slots of keys that a connection starts with, and its token.
unfoldable pub with_slots :
    Hello → Opts → World → List SavedSession → Arrival → List ℕ → Mining → Mining × List ℕ
with_slots hello opt w sessions a token st =
    let saved =
      if hello.resume_present
      then (elim w.pool [
        | none ↦ none
        | some _ ↦ resume_get sessions hello.resume_token hello.client_sign_pk
      ])
      else none in
    if is_v3 hello.generation && not opt.abw_disabled
    then (elim saved [
      | none ↦ (
        record st { abw = abw_start opt.abw_reveal_after_sec a.slot_random a.now; abw_on = true },
        token,
      )
      | some (next_coinbaser_id, abw) ↦ (
        record st {
          next_coinbaser_id = next_coinbaser_id;
          abw = abw_resumed abw a.now;
          abw_on = true;
        },
        hello.resume_token,
      )
    ])
    else (st, token)

-- `prime_pool_resume_put` at the end of a connection.
unfoldable pub saved_at_end : Hello → List ℕ → Conn → List SavedSession → List SavedSession
saved_at_end hello token c sessions = elim c.world.pool [
  | none ↦ sessions
  | some _ ↦
      if is_v3 hello.generation
      then resume_put sessions token hello.client_sign_pk c.mining.next_coinbaser_id
          (if c.mining.abw_on then some c.mining.abw else none)
      else sessions
]

-- A connection that is greeted: its token, and what was written to it.
pub record Greeted : Type 0 where
  pub conn : Conn
  pub hello : Hello
  pub token : List ℕ
  pub written : List (List ℕ)

module _ (sodium : Sodium) (sha256 blake2b : List ℕ → List ℕ) (malloc : ℕ → Option (List ℕ))
    (gets : ℕ → Bool) (node : Node) (address_script : Text → Option (List ℕ)) (opt : Opts)
    (pool : Keypairs) (motd : Text) where
  -- The hello in the first frame.
  unfoldable pub first_hello : List ℕ → (ℕ → Option (List ℕ)) → Option Hello
  first_hello hdr_bytes body =
      let header = (ratchet_unmask initial_hello_key hdr_bytes).0 in
      if header.cmd_len == 0 || ltb max_hello_frame header.cmd_len || not (gets header.cmd_len)
      then none
      else elim (body header.cmd_len) [
        | none ↦ none
        | some payload ↦ open_hello sodium gets header payload pool
      ]

  unfoldable pub config_of : Generation → List ℕ → Option (List ℕ)
  config_of v3 token = encode_config_v3 gets opt token
  config_of v1 token = encode_config_v1 gets opt

  -- The notices, up to the first that is not written.
  unfoldable pub send_notices : (List ℕ → Bool) → Session → List (List ℕ) → Session × List (List ℕ)
  send_notices writes s [] = (s, [])
  send_notices writes s (notice ∷ notices) =
      let (s', frame) = encrypt sodium gets s cmd_mining notice false in
      let (s'', wires) = send_notices writes s' notices in
      elim frame [ none ↦ (s'', wires) | some w ↦ if writes w then (s'', w ∷ wires) else (s', []) ]

  -- The connection behind a configuration that was written.
  unfoldable pub configured :
      World
      → List SavedSession
      → Arrival
      → Bool
      → Hello
      → List ℕ
      → Session
      → List (List ℕ)
      → Greeted
  configured w sessions a public_stratum hello new_token s written =
      let st = record conn_mining_init { public_stratum = public_stratum } in
      let (st', token) = with_slots hello opt w sessions a new_token st in
      let notices : List (List ℕ) = elim (encode_notices gets (xor_key_hash sha256 gets) st'.abw) [
        | none ↦ []
        | some ns ↦ ns
      ] in
      let (s', wires) = send_notices a.writes s (if st'.abw_on then notices else []) in
      record {
        conn = record {
          session = s';
          mining = st';
          transfer = Bulk.idle;
          idle_polls = 0;
          world = w;
        };
        hello = hello;
        token = token;
        written = written ++ wires;
      }

  -- The configuration, once the response is written.
  unfoldable pub configure :
      World → List SavedSession → Arrival → Bool → Hello → List ℕ → Session → Option Greeted
  configure w sessions a public_stratum hello resp s =
      let token = new_resume_token opt.prime_id a.token_random in
      elim (config_of hello.generation token) [
        | none ↦ none
        | some cfg ↦
            let (s', frame) = encrypt sodium gets s cmd_mining cfg true in
            elim frame [
              | none ↦ none
              | some cfg_wire ↦
                  if a.writes cfg_wire
                  then some
                      (configured w sessions a public_stratum hello token s' (resp ∷ cfg_wire ∷ []))
                  else none
            ]
      ]

  -- `handle_client` up to its loop; `none` where it returns.
  unfoldable pub greet :
      World → List SavedSession → Arrival → Bool → List ℕ → (ℕ → Option (List ℕ)) → Option Greeted
  greet w sessions a public_stratum hdr_bytes body = elim (first_hello hdr_bytes body) [
    | none ↦ none
    | some hello ↦ elim (accept sodium gets a.sign_keys a.box_keys hello pool motd) [
      | none ↦ none
      | some (resp, s) ↦
          if a.writes resp then configure w sessions a public_stratum hello resp s else none
    ]
  ]

  -- `handle_client`: what it leaves to others, and what it wrote, but for one that returns before its
  -- loop. What other connections do meanwhile is not modelled.
  unfoldable pub handle_client :
      World
      → List SavedSession
      → Arrival
      → Bool
      → List ℕ
      → (ℕ → Option (List ℕ))
      → List Event
      → World × List SavedSession × List (List ℕ)
  handle_client w sessions a public_stratum hdr_bytes body events =
      elim (greet w sessions a public_stratum hdr_bytes body) [
        | none ↦ (w, sessions, [])
        | some g ↦
            let r = run sodium sha256 blake2b malloc gets node address_script opt g.conn events in
            (r.conn.world, saved_at_end g.hello g.token r.conn sessions, g.written ++ r.written)
      ]
