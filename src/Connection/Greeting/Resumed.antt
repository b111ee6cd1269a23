-- ===== src/Connection/Greeting/Resumed.antt =====
-- A gateway that comes back goes on where its last connection ended.
use c_datum_prime.Common.{ℕ, ◌<◌, ◌≡◌, refl, ap, ◌∙◌}
use c_datum_prime.Common.{true, false, some}
use c_datum_prime.Common.{List, length}
use c_datum_prime.Ledger.Pool.{Pool}
use c_datum_prime.Ledger.Resume.{SavedSession, resume_put, resume_get}
use c_datum_prime.Ledger.Resume.Saved.{resume_get-resume_put}
use c_datum_prime.Abw.{Abw, abw_resumed}
use c_datum_prime.Mining.{Mining, Opts}
use c_datum_prime.Mining.Block.{World}
use c_datum_prime.Handshake.{v3, Hello}
use c_datum_prime.Connection.{Conn}
use c_datum_prime.Connection.Greeting.{Arrival, is_v3, with_slots, saved_at_end}

-- A hello of version 3 with the token of the connection before, from the same client.
pub record ComesBack (before again : Hello) (token : List ℕ) : Type 0 where
  pub was_v3 : before.generation ≡ v3
  pub is_v3 : again.generation ≡ v3
  pub asks : again.resume_present ≡ true
  pub same_token : again.resume_token ≡ token
  pub same_client : again.client_sign_pk ≡ before.client_sign_pk

saved-resume_put :
    (hello : Hello) (token : List ℕ) (c : Conn) (sessions : List SavedSession) (p : Pool)
    → hello.generation ≡ v3
    → c.world.pool ≡ some p
    → c.mining.abw_on ≡ true
    → saved_at_end hello token c sessions
      ≡ resume_put sessions token hello.client_sign_pk c.mining.next_coinbaser_id
          (some c.mining.abw)
unfolding saved_at_end
saved-resume_put hello token c sessions p was_v3 had on = rw (saved_at_end, had, was_v3, on) refl

-- What comes of a token that is known.
with_slots_known :
    (again : Hello) (opt : Opts) (w : World) (sessions : List SavedSession) (a : Arrival)
    (new_token : List ℕ) (st : Mining) (p : Pool) (id : ℕ) (abw : Abw)
    → again.generation ≡ v3
    → opt.abw_disabled ≡ false
    → again.resume_present ≡ true
    → w.pool ≡ some p
    → resume_get sessions again.resume_token again.client_sign_pk ≡ some (id, abw)
    → with_slots again opt w sessions a new_token st ≡ (
      record st { next_coinbaser_id = id; abw = abw_resumed abw a.now; abw_on = true },
      again.resume_token,
    )
unfolding with_slots
with_slots_known again opt w sessions a new_token st p id abw is_v3 slots asks has got =
    rw (with_slots, is_v3, slots, asks, has, got) refl

-- The connection that a version 3 gateway comes back with has the coinbaser's id and the slots of keys that
-- its connection before ended with, the slots marked as resumed, and keeps the token, where there is a
-- pool with room for a session and the slots are in use.
pub with_slots-saved_at_end :
    (before again : Hello) (token new_token : List ℕ) (c : Conn) (sessions : List SavedSession)
    (opt : Opts) (w : World) (a : Arrival) (st : Mining) (p p' : Pool)
    → ComesBack before again token
    → 0 < length sessions
    → c.world.pool ≡ some p
    → w.pool ≡ some p'
    → c.mining.abw_on ≡ true
    → opt.abw_disabled ≡ false
    → with_slots again opt w (saved_at_end before token c sessions) a new_token st ≡ (
      record st {
        next_coinbaser_id = c.mining.next_coinbaser_id;
        abw = abw_resumed c.mining.abw a.now;
        abw_on = true;
      },
      token,
    )
with_slots-saved_at_end before again token new_token c sessions opt w a st p p' back room had has on
      slots =
    let left = saved_at_end before token c sessions in
    let got : resume_get left token before.client_sign_pk
        ≡ some (c.mining.next_coinbaser_id, c.mining.abw) =
      rw (saved-resume_put before token c sessions p back.was_v3 had on) (
        resume_get-resume_put sessions token before.client_sign_pk c.mining.next_coinbaser_id
          c.mining.abw room) in
    let known =
      with_slots_known again opt w left a new_token st p' c.mining.next_coinbaser_id c.mining.abw
        back.is_v3 slots back.asks has (rw (back.same_token, back.same_client) got) in
    known
    ∙ ap
        (λ (t : List ℕ). (
          record st {
            next_coinbaser_id = c.mining.next_coinbaser_id;
            abw = abw_resumed c.mining.abw a.now;
            abw_on = true;
          },
          t,
        ))
        back.same_token
