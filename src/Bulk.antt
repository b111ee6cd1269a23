-- ===== src/Bulk.antt =====
-- src/bulk.c: large replies arrive in fragments, `DBF\x01 id total offset bytes`, and are put
-- together in one buffer; the reset after a complete transfer is that of `handle_client` in
-- src/main.c.
pub mod Safety
pub mod Reassembly
mod Examples
use c_datum_prime.Common.{ℕ, zero, suc, ◌+◌, ◌-◌, ◌^◌, Bool, true, false, not, ◌&&◌, ◌||◌, ◌==◌}
use c_datum_prime.Common.{
  ltb, if◌then◌else◌, List, [], ◌∷◌, ◌++◌, length, take, drop, Option, none, some,
}
use c_datum_prime.Wire.{u32, rd_u32, wr_u32, bytes_eq}
use c_datum_prime.Framing.{max_cmd_len}

abbrev pub dbf : List ℕ
dbf = b'D' ∷ b'B' ∷ b'F' ∷ 1 ∷ []

abbrev pub dba : List ℕ
dba = b'D' ∷ b'B' ∷ b'A' ∷ 1 ∷ []

-- `prime_bulk_ack`: the twelve bytes of an acknowledgement.
unfoldable pub ack : ℕ → ℕ → List ℕ
ack id next_offset = dba ++ (wr_u32 id ++ wr_u32 next_offset)

-- The in-out parameters of `prime_bulk_ingest`. `acc` is the buffer, `none` for NULL.
pub record Transfer : Type 0 where
  pub acc : Option (List ℕ)
  pub acc_len : ℕ
  pub acc_cap : ℕ
  pub id : ℕ
  pub total : ℕ
  pub got : ℕ

-- What `handle_client` starts from, and goes back to after a complete transfer.
abbrev pub idle : Transfer
idle = record { acc = none; acc_len = 0; acc_cap = 0; id = 0; total = 0; got = 0 }

pub record Fragment : Type 0 where
  pub fid : ℕ
  pub ftotal : ℕ
  pub foff : ℕ
  pub bytes : List ℕ

-- The return value 0 with `*complete`, or -1 (where `*complete` is 0); the parameters as left.
pub record Outcome : Type 0 where
  pub accepted : Bool
  pub complete : Bool
  pub transfer : Transfer

-- The fields behind the magic, if the message has any.
pub split_fragment : List ℕ → Option Fragment
split_fragment plain =
    if ltb (length plain) 16 || not (bytes_eq (take 4 plain) dbf)
    then none
    else some (record {
      fid = rd_u32 (drop 4 plain);
      ftotal = rd_u32 (drop 8 plain);
      foff = rd_u32 (drop 12 plain);
      bytes = drop 16 plain;
    })

-- The limits on a fragment by itself.
pub is_sane : Fragment → Bool
is_sane f = not (
    f.fid == 0
    || f.ftotal == 0
    || ltb max_cmd_len f.ftotal
    || length f.bytes == 0
    || ltb 16384 (length f.bytes))

pub is_open : Transfer → Bool
is_open t = elim t.acc [ none ↦ false | some _ ↦ true ]

-- A fragment has to carry on the transfer that is open, at the byte that comes next.
pub carries_on : Transfer → Fragment → Bool
carries_on t f =
    not (is_open t && not (t.id == 0) && not (f.fid == t.id))
    && not (is_open t && not (t.total == 0) && not (f.ftotal == t.total))
    && f.foff == t.got

-- `memcpy(buf + at, src, n)`.
abbrev pub splice : List ℕ → ℕ → List ℕ → List ℕ
splice buf at src = take at buf ++ (src ++ drop (at + length src) buf)

abbrev refuse : Transfer → Outcome
refuse t = record { accepted = false; complete = false; transfer = t }

-- The bytes go into the buffer, unless they would run over its end.
pub store : Transfer → List ℕ → Fragment → Outcome
store t buf f =
    if ltb t.total (f.foff + length f.bytes)
    then refuse t
    else let got : ℕ = u32 (f.foff + length f.bytes) in
      record {
        accepted = true;
        complete = got == t.total;
        transfer = record t { acc = some (splice buf f.foff f.bytes); acc_len = got; got = got };
      }

-- `malloc` is the system's: an array of as many bytes, or NULL.
module _ (malloc : ℕ → Option (List ℕ)) where
  -- The first fragment opens the transfer.
  pub place : Transfer → Fragment → Outcome
  place t f = elim t.acc [
    | some buf ↦ store t buf f
    | none ↦ elim (malloc f.ftotal) [
      | none ↦ refuse t
      | some buf ↦
          store
            (record {
              acc = some buf;
              acc_len = 0;
              acc_cap = f.ftotal;
              id = f.fid;
              total = f.ftotal;
              got = 0;
            })
            buf f
    ]
  ]

  pub admit : Transfer → Fragment → Outcome
  admit t f = if is_sane f && carries_on t f then place t f else refuse t

  -- `prime_bulk_ingest`.
  unfoldable pub ingest : Transfer → List ℕ → Outcome
  ingest t plain = elim (split_fragment plain) [ none ↦ refuse t | some f ↦ admit t f ]

  -- What `handle_client` does with a fragment: the transfer to go on with, and the message that is
  -- handed to `prime_handle_mining` once it is whole.
  unfoldable pub on_bulk : Transfer → List ℕ → Transfer × Option (List ℕ)
  on_bulk t plain =
      let o = ingest t plain in
      if o.accepted && o.complete
      then elim o.transfer.acc [
        | none ↦ (o.transfer, none)
        | some buf ↦ (idle, some (take o.transfer.acc_len buf))
      ]
      else (o.transfer, none)

  -- The messages that a list of fragments delivers, and the transfer that is left.
  pub receive : Transfer → List (List ℕ) → Transfer × List (List ℕ)
  receive t [] = (t, [])
  receive t (plain ∷ rest) =
      let (t', message) = on_bulk t plain in
      let (t'', messages) = receive t' rest in
      (t'', elim message [ none ↦ messages | some m ↦ m ∷ messages ])
