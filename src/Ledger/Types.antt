-- ===== src/Ledger/Types.antt =====
-- The rows of the share ledger (src/ledger.c) and the table of work by identity.
use c_datum_prime.Common.{ℕ, zero, suc, ◌+◌, ◌-◌}
use c_datum_prime.Common.{Bool, ◌==◌, leb, if◌then◌else◌}
use c_datum_prime.Common.{List, [], ◌∷◌, take}
use c_datum_prime.Wire.{u64, bytes_eq}

-- A `char` array is its text, the characters before the NUL.
abbrev pub Text : Type 0
Text = List ℕ

-- `PRIME_MAX_IDENTITY`, and `snprintf(out, n, "%s", s)`.
abbrev pub max_identity : ℕ
max_identity = 128

abbrev pub copy_text : ℕ → Text → Text
copy_text n s = take (n - 1) s

abbrev pub max_idents : ℕ
max_idents = 4096

-- `prime_share_row`.
pub record ShareRow : Type 0 where
  pub at : ℕ
  pub difficulty : ℕ
  pub hash : List ℕ
  pub identity : Text
  pub tag : Text

-- `prime_ident_work`.
pub record IdentWork : Type 0 where
  pub identity : Text
  pub work : ℕ
  pub public_work : ℕ

abbrev pub sv1_tag : Text
sv1_tag = b's' ∷ b'v' ∷ b'1' ∷ []

unfoldable pub share_tag_is_sv1 : Text → Bool
share_tag_is_sv1 tag = bytes_eq tag sv1_tag

-- The text before the first '.', at most `out_len - 1` characters: the rounds of the loop.
unfoldable pub identity_loop : ℕ → Text → Text
identity_loop zero username = []
identity_loop (suc room) [] = []
identity_loop (suc room) (c ∷ username) = if c == b'.' then [] else c ∷ identity_loop room username

-- `prime_identity_of`, for a buffer of at least one character.
unfoldable pub identity_of : Text → ℕ → Text
identity_of username out_len = identity_loop (out_len - 1) username

-- x -= y where x holds that much, else 0.
abbrev pub sub_floor : ℕ → ℕ → ℕ
sub_floor x y = if leb y x then x - y else 0

-- The two halves of `ident_add` on the row of an identity.
unfoldable pub row_add : IdentWork → ℕ → Bool → IdentWork
row_add r diff is_public = record r {
  work = u64 (r.work + diff);
  public_work = if is_public then u64 (r.public_work + diff) else r.public_work;
}

unfoldable pub row_sub : IdentWork → ℕ → Bool → IdentWork
row_sub r diff is_public = record r {
  work = sub_floor r.work diff;
  public_work = if is_public then sub_floor r.public_work diff else r.public_work;
}

-- `ident_add(p, identity, diff, 1, is_public)`: the count is that of the rows above in the table.
unfoldable pub ident_add_from : ℕ → List IdentWork → Text → ℕ → Bool → List IdentWork
ident_add_from above [] identity diff is_public =
    if leb max_idents above
    then []
    else record {
      identity = copy_text max_identity identity;
      work = diff;
      public_work = if is_public then diff else 0;
    }
      ∷ []
ident_add_from above (r ∷ idents) identity diff is_public =
    if bytes_eq r.identity identity
    then row_add r diff is_public ∷ idents
    else r ∷ ident_add_from (above + 1) idents identity diff is_public

unfoldable pub ident_add : List IdentWork → Text → ℕ → Bool → List IdentWork
ident_add idents identity diff is_public = ident_add_from 0 idents identity diff is_public

-- `ident_add(p, identity, diff, 0, is_public)`.
unfoldable pub ident_sub : List IdentWork → Text → ℕ → Bool → List IdentWork
ident_sub [] identity diff is_public = []
ident_sub (r ∷ idents) identity diff is_public =
    if bytes_eq r.identity identity
    then row_sub r diff is_public ∷ idents
    else r ∷ ident_sub idents identity diff is_public
