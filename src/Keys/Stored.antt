-- ===== src/Keys/Stored.antt =====
-- Keys that are written are loaded again.
use c_datum_prime.Common.{ℕ, ◌+◌, ◌-◌, ◌*◌, ◌<◌, ◌≡◌, refl, sym, ap, ◌∙◌}
use c_datum_prime.Common.{Bool, true, false, not, ◌&&◌, ◌==◌, leb, Option, none, some}
use c_datum_prime.Common.{List, [], ◌∷◌, ◌++◌, length, take, drop, All, All-append}
use c_datum_prime.Common.{arith}
use c_datum_prime.Wire.{IsBytes}
use c_datum_prime.Framing.{hex_decode}
use c_datum_prime.Framing.Hex.{hex_decode-hex_encode, hex_encode_plain}
use c_datum_prime.Ledger.Types.{Text}
use c_datum_prime.Handshake.{Keypairs}
use c_datum_prime.Keys.{
  sign_sk_len, box_sk_len, line_len, newline, sign_name, box_name, comment, keys_generate,
  keys_text, in_front, lines_of, before_newline, has_name, Loaded, load_line, load_loop, load_keys,
  keys_load_or_create,
}

abbrev Plain : Text → Type 0
Plain text = All (λ (c : ℕ). (c == newline) ≡ false) text

-- A line is taken off, with its newline.
lines_of_line :
    (left : ℕ) (line rest : Text)
    → Plain line
    → length line < left
    → lines_of left (line ++ (newline ∷ rest)) ≡ (line ++ (newline ∷ [])) ∷ lines_of line_len rest
unfolding lines_of
lines_of_line left [] rest plain room = refl
lines_of_line left (c ∷ line) rest plain room =
    let more : leb left 1 ≡ false = ground arith in
    rw (plain.0, more)
      (ap (λ (ls : List Text). in_front c ls)
        (lines_of_line (left - 1) line rest plain.1 (omega (arith, room))))

before_newline_line :
    (line rest : Text) → Plain line → before_newline (line ++ (newline ∷ rest)) ≡ line
unfolding before_newline
before_newline_line [] rest plain = refl
before_newline_line (c ∷ line) rest plain =
    rw plain.0 (ap (λ (t : Text). c ∷ t) (before_newline_line line rest plain.1))

-- What libsodium promises of a new key: its sizes, and the public halves.
pub record IsKeypairs (scalarmult_base : List ℕ → Option (List ℕ)) (k : Keypairs) : Type 0 where
  pub sign_bytes : IsBytes k.sign_sk
  pub sign_size : length k.sign_sk ≡ sign_sk_len
  pub box_bytes : IsBytes k.box_sk
  pub box_size : length k.box_sk ≡ box_sk_len
  pub sign_half : k.sign_pk ≡ take 32 (drop 32 k.sign_sk)
  pub box_half : scalarmult_base k.box_sk ≡ some k.box_pk

load_line-sign :
    (k : Loaded) (hex : Text) (sk : List ℕ)
    → Plain hex
    → hex_decode hex sign_sk_len ≡ some sk
    → load_line k (sign_name ++ (hex ++ (newline ∷ []))) ≡ some (record k { sign_sk = some sk })
unfolding load_line has_name
load_line-sign k hex sk plain e = rw (before_newline_line hex [] plain, e) refl

load_line-box :
    (k : Loaded) (hex : Text) (sk : List ℕ)
    → Plain hex
    → hex_decode hex box_sk_len ≡ some sk
    → load_line k (box_name ++ (hex ++ (newline ∷ []))) ≡ some (record k { box_sk = some sk })
unfolding load_line has_name
load_line-box k hex sk plain e = rw (before_newline_line hex [] plain, e) refl

load_line-comment : (k : Loaded) → load_line k (comment ++ (newline ∷ [])) ≡ some k
unfolding load_line has_name
load_line-comment k = refl

-- A text without a newline, by evaluation.
abbrev plain_text : Text → Bool
plain_text [] = true
plain_text (c ∷ text) = not (c == newline) && plain_text text

plain_text-Plain : (text : Text) → plain_text text ≡ true → Plain text
plain_text-Plain [] e = tt
plain_text-Plain (c ∷ text) e = (ground arith, plain_text-Plain text (ground arith))

-- The three lines of a file of keys.
file_lines :
    (sign_hex box_hex : Text)
    → Plain sign_hex
    → length sign_hex ≡ 128
    → Plain box_hex
    → length box_hex ≡ 64
    → lines_of line_len (
        comment
        ++ (newline
            ∷ (sign_name ++ (sign_hex ++ (newline ∷ (box_name ++ (box_hex ++ (newline ∷ []))))))))
      ≡ (comment ++ (newline ∷ []))
        ∷ (sign_name ++ (sign_hex ++ (newline ∷ [])))
        ∷ (box_name ++ (box_hex ++ (newline ∷ [])))
        ∷ []
unfolding lines_of
file_lines sign_hex box_hex sign_plain sign_size box_plain box_size =
    let third : Text = box_name ++ (box_hex ++ (newline ∷ [])) in
    let second : Text = sign_name ++ (sign_hex ++ (newline ∷ third)) in
    let box_line : Plain (box_name ++ box_hex) =
      All-append (λ (c : ℕ). (c == newline) ≡ false) box_name box_hex
        (plain_text-Plain box_name refl) box_plain in
    let sign_line : Plain (sign_name ++ sign_hex) =
      All-append (λ (c : ℕ). (c == newline) ≡ false) sign_name sign_hex
        (plain_text-Plain sign_name refl) sign_plain in
    lines_of_line line_len comment second (plain_text-Plain comment refl) (omega arith)
    ∙ ap (λ (ls : List Text). (comment ++ (newline ∷ [])) ∷ ls)
        (lines_of_line line_len (sign_name ++ sign_hex) third sign_line (omega (arith, sign_size))
          ∙ ap (λ (ls : List Text). (sign_name ++ (sign_hex ++ (newline ∷ []))) ∷ ls)
              (lines_of_line line_len (box_name ++ box_hex) [] box_line (omega (arith, box_size))))

load_keys_lem :
    (scalarmult_base : List ℕ → Option (List ℕ)) (k : Keypairs) (sign_hex box_hex : Text)
    → IsKeypairs scalarmult_base k
    → Plain sign_hex
    → length sign_hex ≡ 128
    → hex_decode sign_hex sign_sk_len ≡ some k.sign_sk
    → Plain box_hex
    → length box_hex ≡ 64
    → hex_decode box_hex box_sk_len ≡ some k.box_sk
    → load_keys scalarmult_base (
        comment
        ++ (newline
            ∷ (sign_name ++ (sign_hex ++ (newline ∷ (box_name ++ (box_hex ++ (newline ∷ []))))))))
      ≡ some k
unfolding load_keys load_loop
load_keys_lem scalarmult_base k sign_hex box_hex is sign_plain sign_size sign_back box_plain
      box_size box_back =
    let none_yet : Loaded = record { sign_sk = none; box_sk = none } in
    rw
      (
        load_keys,
        file_lines sign_hex box_hex sign_plain sign_size box_plain box_size,
        load_line-comment none_yet,
        load_line-sign none_yet sign_hex k.sign_sk sign_plain sign_back,
        load_line-box (record none_yet { sign_sk = some k.sign_sk }) box_hex k.box_sk box_plain
            box_back,
        is.box_half,
        sym is.sign_half,
      )
      refl

load_keys-keys_text :
    (scalarmult_base : List ℕ → Option (List ℕ)) (k : Keypairs)
    → IsKeypairs scalarmult_base k
    → (text : Text) × (keys_text k ≡ some text) × (load_keys scalarmult_base text ≡ some k)
unfolding keys_text
load_keys-keys_text scalarmult_base k is =
    let (sign_hex, sign_is, sign_size, sign_back) =
      hex_decode-hex_encode k.sign_sk (sign_sk_len * 2 + 1) is.sign_bytes
        (omega (arith, is.sign_size)) in
    let (box_hex, box_is, box_size, box_back) =
      hex_decode-hex_encode k.box_sk (box_sk_len * 2 + 1) is.box_bytes
        (omega (arith, is.box_size)) in
    let sign_plain =
      hex_encode_plain k.sign_sk (sign_sk_len * 2 + 1) sign_hex is.sign_bytes sign_is in
    let box_plain = hex_encode_plain k.box_sk (box_sk_len * 2 + 1) box_hex is.box_bytes box_is in
    (
      comment
          ++ (newline
              ∷ (sign_name ++ (sign_hex ++ (newline ∷ (box_name ++ (box_hex ++ (newline ∷ []))))))),
      rw (keys_text, sign_is, box_is) refl,
      load_keys_lem scalarmult_base k sign_hex box_hex is sign_plain
          (omega (arith, sign_size, is.sign_size)) (rw is.sign_size at sign_back) box_plain
          (omega (arith, box_size, is.box_size)) (rw is.box_size at box_back),
    )

-- A pool that starts without a file writes one with its new keys, and at every later start it has the same
-- keys, whatever libsodium would give then.
pub keys_load_or_create_again :
    (scalarmult_base : List ℕ → Option (List ℕ)) (k : Keypairs)
    (sign_keys box_keys : Option (List ℕ × List ℕ)) (parent_made writes : Bool)
    → IsKeypairs scalarmult_base k
    → (text : Text) × (keys_load_or_create scalarmult_base none
          (some (k.sign_pk, k.sign_sk))
          (some (k.box_pk, k.box_sk))
          true
          true
        ≡ (some k, some text))
      × (keys_load_or_create scalarmult_base (some text) sign_keys box_keys parent_made writes
          ≡ (some k, none))
unfolding keys_load_or_create keys_generate
keys_load_or_create_again scalarmult_base k sign_keys box_keys parent_made writes is =
    let (text, written, loaded) = load_keys-keys_text scalarmult_base k is in
    (text, rw (keys_load_or_create, written) refl, rw (keys_load_or_create, loaded) refl)
