-- ===== src/Keys.antt =====
-- The pool's keys and their file (src/keys.c). A file is its text, without NUL characters. The curve's
-- base point multiplication is a parameter, as are the pairs that libsodium generates.
pub mod Stored
mod Examples
use c_datum_prime.Common.{ℕ, ◌+◌, ◌-◌, ◌*◌}
use c_datum_prime.Common.{
  Bool, true, false, not, ◌&&◌, ◌||◌, ◌==◌, leb, if◌then◌else◌, Option, none, some,
}
use c_datum_prime.Common.{List, [], ◌∷◌, ◌++◌, take, drop}
use c_datum_prime.Framing.{hex_encode, hex_decode}
use c_datum_prime.Ledger.Types.{Text}
use c_datum_prime.Handshake.{Keypairs}

-- `crypto_sign_SECRETKEYBYTES` and `crypto_box_SECRETKEYBYTES`.
abbrev pub sign_sk_len : ℕ
sign_sk_len = 64

abbrev pub box_sk_len : ℕ
box_sk_len = 32

-- The characters that `fgets` puts into `char line[512]`.
abbrev pub line_len : ℕ
line_len = 511

abbrev pub newline : ℕ
newline = 10

abbrev pub sign_name : Text
sign_name = b's' ∷ b'i' ∷ b'g' ∷ b'n' ∷ b'_' ∷ b's' ∷ b'k' ∷ b'=' ∷ []

abbrev pub box_name : Text
box_name = b'b' ∷ b'o' ∷ b'x' ∷ b'_' ∷ b's' ∷ b'k' ∷ b'=' ∷ []

-- "# c-datum-prime pool secret keys. keep private."
abbrev pub comment : Text
comment =
    b'#' ∷ b' ' ∷ b'c' ∷ b'-' ∷ b'd' ∷ b'a' ∷ b't' ∷ b'u' ∷ b'm' ∷ b'-' ∷ b'p' ∷ b'r' ∷ b'i' ∷ b'm'
    ∷ b'e' ∷ b' ' ∷ b'p' ∷ b'o' ∷ b'o' ∷ b'l' ∷ b' ' ∷ b's' ∷ b'e' ∷ b'c' ∷ b'r' ∷ b'e' ∷ b't'
    ∷ b' ' ∷ b'k' ∷ b'e' ∷ b'y' ∷ b's' ∷ b'.' ∷ b' ' ∷ b'k' ∷ b'e' ∷ b'e' ∷ b'p' ∷ b' ' ∷ b'p'
    ∷ b'r' ∷ b'i' ∷ b'v' ∷ b'a' ∷ b't' ∷ b'e' ∷ b'.' ∷ []

-- `prime_keys_generate`.
unfoldable pub keys_generate : Option (List ℕ × List ℕ) → Option (List ℕ × List ℕ) → Option Keypairs
keys_generate sign_keys box_keys = elim sign_keys [
  | none ↦ none
  | some (sign_pk, sign_sk) ↦ elim box_keys [
    | none ↦ none
    | some (box_pk, box_sk) ↦
        some (record { sign_pk = sign_pk; sign_sk = sign_sk; box_pk = box_pk; box_sk = box_sk })
  ]
]

-- `prime_keys_pubkey_hex`.
unfoldable pub keys_pubkey_hex : Keypairs → Option Text
keys_pubkey_hex k = hex_encode (k.sign_pk ++ k.box_pk) 129

-- The text that `write_keys` writes; `none` is its -1 before it opens the file.
unfoldable pub keys_text : Keypairs → Option Text
keys_text k = elim (hex_encode k.sign_sk (sign_sk_len * 2 + 1)) [
  | none ↦ none
  | some sign_hex ↦ elim (hex_encode k.box_sk (box_sk_len * 2 + 1)) [
    | none ↦ none
    | some box_hex ↦ some (
        comment
        ++ (newline
            ∷ (sign_name ++ (sign_hex ++ (newline ∷ (box_name ++ (box_hex ++ (newline ∷ []))))))))
  ]
]

-- One character more at the front of the first line.
abbrev pub in_front : ℕ → List Text → List Text
in_front c [] = (c ∷ []) ∷ []
in_front c (line ∷ lines) = (c ∷ line) ∷ lines

-- The lines that `fgets` gives of a text, with their newlines; the line that is begun has room for `left`
-- characters more.
unfoldable pub lines_of : ℕ → Text → List Text
lines_of left [] = []
lines_of left (c ∷ text) =
    let is_last : Bool = c == newline || leb left 1 in
    let rest = lines_of (if is_last then line_len else left - 1) text in
    if is_last then (c ∷ []) ∷ rest else in_front c rest

-- The characters before the newline.
unfoldable pub before_newline : Text → Text
before_newline [] = []
before_newline (c ∷ text) = let rest = before_newline text in if c == newline then [] else c ∷ rest

-- strncmp(line, name, strlen(name)) == 0
unfoldable pub has_name : Text → Text → Bool
has_name [] line = true
has_name (c ∷ name) [] = false
has_name (c ∷ name) (d ∷ line) = c == d && has_name name line

-- The secret keys that were read so far.
pub record Loaded : Type 0 where
  pub sign_sk : Option (List ℕ)
  pub box_sk : Option (List ℕ)

-- One line; `none` is the loop's -1.
unfoldable pub load_line : Loaded → Text → Option Loaded
load_line k line =
    if has_name sign_name line
    then (elim (hex_decode (before_newline (drop 8 line)) sign_sk_len) [
      | none ↦ none
      | some sk ↦ some (record k { sign_sk = some sk })
    ])
    else if has_name box_name line
    then (elim (hex_decode (before_newline (drop 7 line)) box_sk_len) [
      | none ↦ none
      | some sk ↦ some (record k { box_sk = some sk })
    ])
    else some k

unfoldable pub load_loop : Loaded → List Text → Option Loaded
load_loop k [] = some k
load_loop k (line ∷ lines) = elim (load_line k line) [ none ↦ none | some k' ↦ load_loop k' lines ]

-- `load_keys` of a file's text.
unfoldable pub load_keys : (List ℕ → Option (List ℕ)) → Text → Option Keypairs
load_keys scalarmult_base text =
    elim (load_loop (record { sign_sk = none; box_sk = none }) (lines_of line_len text)) [
      | none ↦ none
      | some k ↦ elim k.sign_sk [
        | none ↦ none
        | some sign_sk ↦ elim k.box_sk [
          | none ↦ none
          | some box_sk ↦ elim (scalarmult_base box_sk) [
            | none ↦ none
            | some box_pk ↦ some (record {
              sign_pk = take 32 (drop 32 sign_sk);
              sign_sk = sign_sk;
              box_pk = box_pk;
              box_sk = box_sk;
            })
          ]
        ]
      ]
    ]

-- `prime_keys_load_or_create`: the keys, or `none` for -1, and the text that it writes into a new file.
-- `file` is the file's text, if there is one, and the two flags are whether its directory could be made
-- and whether all of the text was written.
unfoldable pub keys_load_or_create :
    (List ℕ → Option (List ℕ))
    → Option Text
    → Option (List ℕ × List ℕ)
    → Option (List ℕ × List ℕ)
    → Bool
    → Bool
    → Option Keypairs × Option Text
keys_load_or_create scalarmult_base file sign_keys box_keys parent_made writes = elim file [
  | some text ↦ (load_keys scalarmult_base text, none)
  | none ↦ if not parent_made then (none, none) else elim (keys_generate sign_keys box_keys) [
    | none ↦ (none, none)
    | some k ↦ elim (keys_text k) [
      | none ↦ (none, none)
      | some text ↦ if writes then (some k, some text) else (none, none)
    ]
  ]
]
