-- ===== src/Ledger/Resume/Examples.antt =====
-- A session in an array of two, of which the other client's is used.
use c_datum_prime.Common.{◌≡◌, refl}
use c_datum_prime.Common.{true, false, some}
use c_datum_prime.Common.{List, [], ◌∷◌, replicate}
use c_datum_prime.Wire.{bytes_eq}
use c_datum_prime.Abw.{Abw, abw_start}
use c_datum_prime.Ledger.Resume.{
  SavedSession, session_slot, is_session, saved_at, resume_put, resume_get,
}

abbrev keys : Abw
keys = abw_start 300 (replicate 16 3) 1000

abbrev others : SavedSession
others = record {
  token = replicate 40 1;
  client_pk = replicate 32 1;
  coinbaser_id = 1;
  abw = keys;
  used = true;
}

abbrev sessions : List SavedSession
sessions = others ∷ record others { used = false } ∷ []

-- The other client's session stays.
others_stay :
    resume_get
      (resume_put sessions (replicate 40 2) (replicate 32 2) 9 (some keys))
      (replicate 40 1)
      (replicate 32 1)
    ≡ some (1, keys)
unfolding resume_get resume_put saved_at session_slot is_session bytes_eq
others_stay = refl
