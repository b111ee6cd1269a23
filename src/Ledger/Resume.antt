-- ===== src/Ledger/Resume.antt =====
-- The saved sessions (src/ledger.c: `prime_pool_resume_put`, `prime_pool_resume_get`). The array of 32
-- sessions is a list; their file is not modelled.
pub mod Saved
mod Examples
use c_datum_prime.Common.{ℕ, zero, suc, ◌+◌}
use c_datum_prime.Common.{Bool, true, ◌&&◌, if◌then◌else◌, Option, none, some}
use c_datum_prime.Common.{List, [], ◌∷◌}
use c_datum_prime.Wire.{bytes_eq}
use c_datum_prime.Abw.{Abw}

-- `PRIME_MAX_SESSIONS`.
abbrev pub max_sessions : ℕ
max_sessions = 32

-- `prime_saved_session`.
pub record SavedSession : Type 0 where
  pub token : List ℕ
  pub client_pk : List ℕ
  pub coinbaser_id : ℕ
  pub abw : Abw
  pub used : Bool

-- The session is that of the token and the key.
unfoldable pub is_session : SavedSession → List ℕ → List ℕ → Bool
is_session s token client_pk = s.used && bytes_eq s.token token && bytes_eq s.client_pk client_pk

-- The first session of the token and the key, else the first that is not used, else 0: the sessions
-- left, `i`, and `slot`, which is `none` while it is negative.
unfoldable pub session_slot : ℕ → Option ℕ → List SavedSession → List ℕ → List ℕ → ℕ
session_slot i slot [] token client_pk = elim slot [ none ↦ 0 | some at ↦ at ]
session_slot i slot (s ∷ sessions) token client_pk =
    let free : Option ℕ = elim slot [
      | none ↦ if s.used then none else some i
      | some at ↦ some at
    ] in
    let rest = session_slot (i + 1) free sessions token client_pk in
    if is_session s token client_pk then i else rest

-- Without an `abw` the slot's is kept.
unfoldable pub saved_at :
    List SavedSession → ℕ → List ℕ → List ℕ → ℕ → Option Abw → List SavedSession
saved_at [] slot token client_pk coinbaser_id abw = []
saved_at (s ∷ sessions) zero token client_pk coinbaser_id abw =
    record {
      token = token;
      client_pk = client_pk;
      coinbaser_id = coinbaser_id;
      abw = elim abw [ none ↦ s.abw | some a ↦ a ];
      used = true;
    }
    ∷ sessions
saved_at (s ∷ sessions) (suc slot) token client_pk coinbaser_id abw =
    s ∷ saved_at sessions slot token client_pk coinbaser_id abw

-- `prime_pool_resume_put`.
unfoldable pub resume_put : List SavedSession → List ℕ → List ℕ → ℕ → Option Abw → List SavedSession
resume_put sessions token client_pk coinbaser_id abw =
    saved_at sessions (session_slot 0 none sessions token client_pk) token client_pk coinbaser_id
      abw

-- `prime_pool_resume_get`: what it copies, or `none` for 0.
unfoldable pub resume_get : List SavedSession → List ℕ → List ℕ → Option (ℕ × Abw)
resume_get [] token client_pk = none
resume_get (s ∷ sessions) token client_pk =
    if is_session s token client_pk
    then some (s.coinbaser_id, s.abw)
    else resume_get sessions token client_pk
