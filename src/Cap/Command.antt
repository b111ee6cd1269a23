-- ===== src/Cap/Command.antt =====
-- The text of a command to the public gateway (src/cap.c: `json_escape`, `gw_cmd`).
use c_datum_prime.Common.{ℕ, suc, ◌+◌, ◌-◌, ◌*◌, ◌⊎◌, ◌≤◌, ◌≡◌, refl, ap, inl, inr}
use c_datum_prime.Common.{
  Bool, true, false, ◌||◌, ◌==◌, ltb, leb, if◌then◌else◌, Bool-cases, Option, none, some,
}
use c_datum_prime.Common.{[], ◌∷◌, ◌++◌, length, take, take_all, length-append}
use c_datum_prime.Common.{arith}
use c_datum_prime.Ledger.Types.{Text, copy_text}

abbrev is_special : ℕ → Bool
is_special c = c == b'"' || c == b'\\'

-- The loop of `json_escape`; the first argument is `out_len - o`.
unfoldable pub escape_loop : ℕ → Text → Text
escape_loop room [] = []
escape_loop room (c ∷ text) =
    let used : ℕ = if is_special c then 2 else if ltb c 32 then 0 else 1 in
    let rest = escape_loop (room - used) text in
    if leb room 2
    then []
    else if is_special c
    then (if leb room 3 then [] else b'\\' ∷ c ∷ rest)
    else if ltb c 32
    then rest
    else c ∷ rest

-- `json_escape`.
unfoldable pub json_escape : Text → ℕ → Text
json_escape text out_len = escape_loop out_len text

abbrev pub password_key : Text
password_key =
    b'{' ∷ b'"' ∷ b'p' ∷ b'a' ∷ b's' ∷ b's' ∷ b'w' ∷ b'o' ∷ b'r' ∷ b'd' ∷ b'"' ∷ b':' ∷ b'"' ∷ []

-- `cmd_json` without its opening brace.
unfoldable pub inner : Text → Text
inner [] = []
inner (c ∷ cmd_json) = if c == b'{' then cmd_json else c ∷ cmd_json

-- The body that `gw_cmd` posts.
unfoldable pub gw_body : Text → Text → Text
gw_body password cmd_json =
    let pw = json_escape password 256 in
    copy_text (length cmd_json + length pw + 32)
      (password_key ++ (pw ++ (b'"' ∷ b',' ∷ inner cmd_json)))

-- How JSON is read from the inside of a string, behind a backslash or not, where only quotes and
-- backslashes are escaped: the string, and what follows it.
abbrev pub read_string : Bool → Text → Option (Text × Text)
read_string escaped [] = none
read_string true (c ∷ text) = elim (read_string false text) [
  | none ↦ none
  | some (s, rest) ↦ some (c ∷ s, rest)
]
read_string false (c ∷ text) =
    let next = read_string (c == b'\\') text in
    if c == b'"'
    then some ([], text)
    else if c == b'\\'
    then next
    else elim next [ none ↦ none | some (s, rest) ↦ some (c ∷ s, rest) ]

abbrev pub printable : Text → Text
printable [] = []
printable (c ∷ text) = if ltb c 32 then printable text else c ∷ printable text

read_plain :
    (c : ℕ) (text s rest : Text)
    → is_special c ≡ false
    → read_string false text ≡ some (s, rest)
    → read_string false (c ∷ text) ≡ some (c ∷ s, rest)
read_plain c text s rest plain h =
    let no_quote : (c == b'"') ≡ false = ground arith in
    let no_slash : (c == b'\\') ≡ false = ground arith in rw (no_quote, no_slash, h) refl

-- What a buffer of some size gives back of a text: the first characters of the printable ones, all of them
-- or at least as many as fit when each is escaped.
abbrev pub Fits : ℕ → Text → ℕ → Type 0
Fits room text n = (take n (printable text) ≡ printable text) ⊎ (room ≤ 2 * n + 3)

Fits-next :
    (c room n : ℕ) (text : Text)
    → ltb c 32 ≡ false
    → Fits room text n
    → Fits (room + 2) (c ∷ text) (suc n)
Fits-next c room n text shown (inl whole) = inl (rw shown (ap (λ (t : Text). c ∷ t) whole))
Fits-next c room n text shown (inr full) = inr (omega arith)

Fits-less : (room less n : ℕ) (text : Text) → room ≤ less → Fits less text n → Fits room text n
Fits-less room less n text le (inl whole) = inl whole
Fits-less room less n text le (inr full) = inr (omega arith)

-- What is escaped is read back as a first part of the printable text, up to the closing quote.
escape_loop_lem :
    (room : ℕ) (text rest : Text)
    → (n : ℕ) × (read_string false (escape_loop room text ++ (b'"' ∷ rest))
        ≡ some (take n (printable text), rest))
      × Fits room text n
unfolding escape_loop
escape_loop_lem room [] rest = (0, refl, inl refl)
escape_loop_lem room (c ∷ text) rest = elim (Bool-cases (leb room 2)) [
  | inl full ↦ (0, rw full refl, inr (ground arith))
  | inr some_room ↦ elim (Bool-cases (is_special c)) [
    | inl special ↦ elim (Bool-cases (leb room 3)) [
      | inl full ↦ (0, rw (some_room, special, full) refl, inr (ground arith))
      | inr space ↦
          let (n, h, fits) = escape_loop_lem (room - 2) text rest in
          let shown : ltb c 32 ≡ false = ground arith in
          (
            suc n,
            rw (some_room, special, space, shown, h) refl,
            Fits-less room (room - 2 + 2) (suc n) (c ∷ text) (omega arith)
                (Fits-next c (room - 2) n text shown fits),
          )
    ]
    | inr plain ↦ elim (Bool-cases (ltb c 32)) [
      | inl control ↦
          let (n, h, fits) = escape_loop_lem (room - 0) text rest in
          (
            n,
            rw (some_room, plain, control) h,
            rw control (Fits-less room (room - 0) n text (omega arith) fits),
          )
      | inr shown ↦
          let (n, h, fits) = escape_loop_lem (room - 1) text rest in
          let more = escape_loop (room - 1) text ++ (b'"' ∷ rest) in
          (
            suc n,
            rw (some_room, plain, shown) (read_plain c more (take n (printable text)) rest plain h),
            Fits-less room (room - 1 + 2) (suc n) (c ∷ text) (omega arith)
                (Fits-next c (room - 1) n text shown fits),
          )
    ]
  ]
]

length-inner : (cmd_json : Text) → length (inner cmd_json) ≤ length cmd_json
unfolding inner
length-inner [] = omega arith
length-inner (c ∷ cmd_json) = ground arith

-- Whatever characters a password has, the gateway reads from the body a string of its printable ones, all
-- of them or at least the first 127, and behind it the command, whole.
pub gw_body_lem :
    (password cmd_json : Text)
    → (n : ℕ) × (shown : Text) × (gw_body password cmd_json ≡ password_key ++ shown)
      × (read_string false shown ≡ some (take n (printable password), b',' ∷ inner cmd_json))
      × ((take n (printable password) ≡ printable password) ⊎ (127 ≤ n))
unfolding gw_body json_escape
gw_body_lem password cmd_json =
    let pw = escape_loop 256 password in
    let shown = pw ++ (b'"' ∷ b',' ∷ inner cmd_json) in
    let (n, h, fits) = escape_loop_lem 256 password (b',' ∷ inner cmd_json) in
    (
      n,
      shown,
      take_all (length cmd_json + length pw + 32 - 1) (password_key ++ shown)
          (omega (arith, length-append pw (b'"' ∷ b',' ∷ inner cmd_json), length-inner cmd_json)),
      h,
      elim fits [ inl whole ↦ inl whole | inr full ↦ inr (omega arith) ],
    )
