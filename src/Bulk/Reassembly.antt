-- ===== src/Bulk/Reassembly.antt =====
-- A message that is cut into fragments and sent in order is put together again.
use c_datum_prime.Common.{ℕ, zero, suc, ◌+◌, ◌^◌, ◌≤◌, ◌<◌, ◌≡◌, ◌≢◌, refl, ap, ◌∙◌}
use c_datum_prime.Common.{true, false, ◌==◌, Option, none, some}
use c_datum_prime.Common.{
  List, [], ◌∷◌, ◌++◌, map, length, take, drop, All, append_assoc, append-nil,
}
use c_datum_prime.Common.{length-append, take-length-append, arith, zero-add, suc-add}
use c_datum_prime.Wire.{rd_u32, wr_u32, bytes_eq}
use c_datum_prime.Wire.Fields.{rd_u32-wr_u32}
use c_datum_prime.Framing.{max_cmd_len}
use c_datum_prime.Bulk.{
  Transfer, Fragment, Outcome, dbf, idle, splice, split_fragment, is_sane, is_open, carries_on,
  store, place, admit, ingest, on_bulk, receive,
}
use c_datum_prime.Bulk.Safety.{Allocates, length-splice}

-- One fragment of a message, as the gateway writes it.
unfoldable pub fragment : ℕ → ℕ → ℕ → List ℕ → List ℕ
fragment id total off bytes = dbf ++ (wr_u32 id ++ (wr_u32 total ++ (wr_u32 off ++ bytes)))

-- The fragments of a message that is cut into `pieces`, from offset `off` on.
unfoldable pub fragments : ℕ → ℕ → ℕ → List (List ℕ) → List (List ℕ)
fragments id total off [] = []
fragments id total off (p ∷ pieces) =
    fragment id total off p ∷ fragments id total (off + length p) pieces

-- The whole message.
unfoldable pub join : List (List ℕ) → List ℕ
join [] = []
join (p ∷ pieces) = p ++ join pieces

-- A piece fits a fragment.
abbrev pub IsPiece : List ℕ → Type 0
IsPiece p = (1 ≤ length p) × (length p ≤ 16384)

module _ (id total off : ℕ) (p : List ℕ) (hid : id < 2 ^ 32) (ht : total < 2 ^ 32)
    (ho : off < 2 ^ 32) where
  fields :
      (rd_u32 (drop 4 (fragment id total off p)) ≡ id)
      × (rd_u32 (drop 8 (fragment id total off p)) ≡ total)
      × (rd_u32 (drop 12 (fragment id total off p)) ≡ off)
      × (drop 16 (fragment id total off p) ≡ p)
      × (length (fragment id total off p) ≡ length p + 16)
  unfolding fragment wr_u32
  fields = (
    rd_u32-wr_u32 id (wr_u32 total ++ (wr_u32 off ++ p)) hid,
    rd_u32-wr_u32 total (wr_u32 off ++ p) ht,
    rd_u32-wr_u32 off p ho,
    refl,
    omega arith,
  )

  magic : bytes_eq (take 4 (fragment id total off p)) dbf ≡ true
  unfolding fragment bytes_eq
  magic = refl

  -- The fields of a fragment are read back.
  split_fragment-fragment :
      split_fragment (fragment id total off p)
      ≡ some (record { fid = id; ftotal = total; foff = off; bytes = p })
  unfolding split_fragment
  split_fragment-fragment =
      rw (magic, fields.0, fields.1, fields.2, fields.3) (ground (arith, fields.4))

-- What has been received of a message: nothing yet, or the first bytes of the buffer.
data Holds (id total : ℕ) (sofar : List ℕ) (t : Transfer) : Type 0 where
  fresh : sofar ≡ [] → t ≡ idle → Holds id total sofar t
  open_at :
      (buf : List ℕ)
      → t.acc ≡ some buf
      → t.id ≡ id
      → t.total ≡ total
      → t.got ≡ length sofar
      → t.acc_len ≡ length sofar
      → length buf ≡ total
      → take (length sofar) buf ≡ sofar
      → Holds id total sofar t

take-splice :
    (buf src : List ℕ) (at : ℕ)
    → at + length src ≤ length buf
    → take (at + length src) (splice buf at src) ≡ take at buf ++ src
take-splice buf src zero h =
    rw (zero-add (length src)) (take-length-append src (drop (length src) buf))
take-splice [] src (suc at) h = absurd (omega arith)
take-splice (b ∷ buf) src (suc at) h =
    rw (suc-add at (length src)) (ap (λ (t : List ℕ). b ∷ t) (take-splice buf src at (omega arith)))

abbrev piece : ℕ → ℕ → ℕ → List ℕ → Fragment
piece id total off p = record { fid = id; ftotal = total; foff = off; bytes = p }

-- What a fragment that is taken leaves: one more piece in the buffer.
record Stored (id total : ℕ) (sofar : List ℕ) (o : Outcome) : Type 0 where
  accepted : o.accepted ≡ true
  complete : o.complete ≡ (length sofar == total)
  buf : List ℕ
  acc : o.transfer.acc ≡ some buf
  same_id : o.transfer.id ≡ id
  same_total : o.transfer.total ≡ total
  got : o.transfer.got ≡ length sofar
  acc_len : o.transfer.acc_len ≡ length sofar
  size : length buf ≡ total
  bytes : take (length sofar) buf ≡ sofar

module _ (malloc : ℕ → Option (List ℕ)) (alloc : Allocates malloc) (id total : ℕ)
    (small : total ≤ max_cmd_len) (buf0 : List ℕ) (opened : malloc total ≡ some buf0) where
  store_next :
      (t : Transfer) (buf sofar p : List ℕ)
      → t.id ≡ id
      → t.total ≡ total
      → length buf ≡ total
      → take (length sofar) buf ≡ sofar
      → length sofar + length p ≤ total
      → Stored id total (sofar ++ p) (store t buf (piece id total (length sofar) p))
  unfolding store
  store_next t buf sofar p hid ht hb hs fits = record {
    accepted = ground arith;
    complete = ground (arith, length-append sofar p);
    buf = splice buf (length sofar) p;
    acc = ground arith;
    same_id = ground arith;
    same_total = ground arith;
    got = ground (arith, length-append sofar p);
    acc_len = ground (arith, length-append sofar p);
    size = length-splice buf (length sofar) p (omega arith) ∙ hb;
    bytes = rw (length-append sofar p, take-splice buf p (length sofar) (omega arith), hs) refl;
  }

  place_next :
      (t : Transfer) (sofar p : List ℕ)
      → Holds id total sofar t
      → length sofar + length p ≤ total
      → Stored id total (sofar ++ p) (place malloc t (piece id total (length sofar) p))
  unfolding place
  place_next t [] p (fresh e f) fits =
      rw (f, opened) (store_next _ buf0 [] p refl refl (alloc total buf0 opened) refl fits)
  place_next t (x ∷ sofar) p (fresh e f) fits = absurd (omega (arith, ap length e))
  place_next t sofar p (open_at buf a i o g l s k) fits =
      rw (a, place) (store_next t buf sofar p i o s k fits)

  carries_on_next :
      (t : Transfer) (sofar p : List ℕ)
      → Holds id total sofar t
      → carries_on t (piece id total (length sofar) p) ≡ true
  unfolding carries_on is_open
  carries_on_next t [] p (fresh e f) = rw f refl
  carries_on_next t (x ∷ sofar) p (fresh e f) = absurd (omega (arith, ap length e))
  carries_on_next t sofar p (open_at buf a i o g l s k) = ground arith

  piece_sane :
      (off : ℕ) (p : List ℕ)
      → id ≢ 0
      → IsPiece p
      → off + length p ≤ total
      → is_sane (piece id total off p) ≡ true
  unfolding is_sane
  piece_sane off p hid hp fits = ground arith

  ingest_next :
      (t : Transfer) (sofar p : List ℕ)
      → id ≢ 0
      → id < 2 ^ 32
      → Holds id total sofar t
      → IsPiece p
      → length sofar + length p ≤ total
      → Stored id total (sofar ++ p) (ingest malloc t (fragment id total (length sofar) p))
  unfolding ingest admit
  ingest_next t sofar p ne hid held hp fits =
      rw
        (
          split_fragment-fragment id total (length sofar) p hid (omega arith) (omega arith),
          ingest,
          admit,
          piece_sane (length sofar) p ne hp fits,
          carries_on_next t sofar p held,
        )
        (place_next t sofar p held fits)

  -- Before the last piece the transfer goes on; the last one delivers the message.
  on_bulk_more :
      (t : Transfer) (sofar : List ℕ) (plain : List ℕ)
      → Stored id total sofar (ingest malloc t plain)
      → length sofar < total
      → let (t', message) = on_bulk malloc t plain in Holds id total sofar t' × (message ≡ none)
  unfolding on_bulk
  on_bulk_more t sofar plain s lt =
      let more : (ingest malloc t plain).complete ≡ false = s.complete ∙ ground arith in
      rw (s.accepted, more)
        (open_at s.buf s.acc s.same_id s.same_total s.got s.acc_len s.size s.bytes, refl)

  on_bulk_last :
      (t : Transfer) (sofar : List ℕ) (plain : List ℕ)
      → Stored id total sofar (ingest malloc t plain)
      → length sofar ≡ total
      → on_bulk malloc t plain ≡ (idle, some sofar)
  unfolding on_bulk
  on_bulk_last t sofar plain s e =
      let done : (ingest malloc t plain).complete ≡ true = s.complete ∙ ground arith in
      rw (s.accepted, done, s.acc, s.acc_len, s.bytes) refl

  length-join-pos :
      (p : List ℕ) (pieces : List (List ℕ))
      → All IsPiece (p ∷ pieces)
      → 1 ≤ length (join (p ∷ pieces))
  unfolding join
  length-join-pos p pieces h = omega (arith, length-append p (join pieces))

  receive-none :
      (t : Transfer) (plain : List ℕ) (rest : List (List ℕ))
      → (on_bulk malloc t plain).1 ≡ none
      → receive malloc t (plain ∷ rest) ≡ receive malloc (on_bulk malloc t plain).0 rest
  unfolding receive
  receive-none t plain rest e = rw e refl

  receive-some :
      (t t' : Transfer) (m plain : List ℕ) (rest : List (List ℕ))
      → on_bulk malloc t plain ≡ (t', some m)
      → receive malloc t (plain ∷ rest)
        ≡ ((receive malloc t' rest).0, m ∷ (receive malloc t' rest).1)
  unfolding receive
  receive-some t t' m plain rest e = cc

  -- A message in pieces, and whatever is received after it.
  receive-fragments :
      (t : Transfer) (sofar p : List ℕ) (pieces : List (List ℕ))
      → id ≢ 0
      → id < 2 ^ 32
      → Holds id total sofar t
      → All IsPiece (p ∷ pieces)
      → length sofar + length (join (p ∷ pieces)) ≡ total
      → (more : List (List ℕ))
      → receive malloc t (fragments id total (length sofar) (p ∷ pieces) ++ more) ≡ (
        (receive malloc idle more).0,
        (sofar ++ join (p ∷ pieces)) ∷ (receive malloc idle more).1,
      )
  unfolding fragments join
  receive-fragments t sofar p [] ne hid held h e more =
      let stored = ingest_next t sofar p ne hid held h.0 (omega (arith, length-append p [])) in
      rw (append-nil p) (
        receive-some t idle (sofar ++ p) _ more (
          on_bulk_last t (sofar ++ p) _ stored
            (omega (arith, length-append sofar p, length-append p []))))
  receive-fragments t sofar p (q ∷ pieces) ne hid held h e more =
      let room = length-append p (join (q ∷ pieces)) in
      let grown = length-append sofar p in
      let rest = length-join-pos q pieces h.1 in
      let plain = fragment id total (length sofar) p in
      let stored = ingest_next t sofar p ne hid held h.0 (omega (arith, room)) in
      let step = on_bulk_more t (sofar ++ p) plain stored (omega (arith, room, grown, rest)) in
      receive-none t plain _ step.1
      ∙ rw (← grown, ← append_assoc sofar p (q ++ join pieces))
          (receive-fragments (on_bulk malloc t plain).0 (sofar ++ p) q pieces ne hid step.0 h.1
            (omega (arith, room, grown)) more)

-- A message to send: its transfer id, its first piece and the pieces after that.
pub record Message : Type 0 where
  pub id : ℕ
  pub first : List ℕ
  pub others : List (List ℕ)

abbrev pub whole : Message → List ℕ
whole m = join (m.first ∷ m.others)

-- The limits of a message: a 32-bit id that is not 0, pieces that fit, and at most 2 ^ 22 - 1 bytes.
pub record IsSendable (m : Message) : Type 0 where
  pub id_set : m.id ≢ 0
  pub id_range : m.id < 2 ^ 32
  pub pieces : All IsPiece (m.first ∷ m.others)
  pub limit : length (whole m) ≤ max_cmd_len

unfoldable pub send_all : List Message → List (List ℕ)
send_all [] = []
send_all (m ∷ ms) = fragments m.id (length (whole m)) 0 (m.first ∷ m.others) ++ send_all ms

-- The buffers that messages within the limit need can be had.
abbrev pub Succeeds : (ℕ → Option (List ℕ)) → Type 0
Succeeds malloc = (n : ℕ) → n ≤ max_cmd_len → (buf : List ℕ) × (malloc n ≡ some buf)

-- Messages of at most 2 ^ 22 - 1 bytes, each with a 32-bit id that is not 0 and cut into pieces of 1 to
-- 16384 bytes, that are sent one after the other as their fragments in order, are delivered whole and
-- in order and leave no transfer open, where the allocator gives arrays of the size asked for and
-- never fails within that limit.
pub receive-send_all :
    (malloc : ℕ → Option (List ℕ)) (ms : List Message)
    → Allocates malloc
    → Succeeds malloc
    → All IsSendable ms
    → receive malloc idle (send_all ms) ≡ (idle, map (λ m. whole m) ms)
unfolding send_all
receive-send_all malloc [] alloc succ h = unfold receive in refl
receive-send_all malloc (m ∷ ms) alloc succ h =
    let v = h.0 in
    let (buf, opened) = succ (length (whole m)) v.limit in
    receive-fragments malloc alloc m.id (length (whole m)) v.limit buf opened idle [] m.first
      m.others v.id_set v.id_range (fresh refl refl) v.pieces (omega arith) (send_all ms)
    ∙ rw (receive-send_all malloc ms alloc succ h.1) refl
