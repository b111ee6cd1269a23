-- ===== src/Handshake/Answer.antt =====
-- What the response to a hello is made of (src/handshake.c: `prime_accept`).
use c_datum_prime.Common.{ℕ, ◌+◌, ◌≤◌, ◌≡◌, refl, sym, ap, ◌∙◌, inl, inr}
use c_datum_prime.Common.{Bool, false, not, ◌||◌, ltb, Bool-cases, Option-cases, Option, some}
use c_datum_prime.Common.{List, [], ◌∷◌, ◌++◌, length, take, drop, All}
use c_datum_prime.Common.{length-append, take_front, drop_past, arith}
use c_datum_prime.Framing.{max_cmd_len, ratchet_mask, header_keys_from_nk}
use c_datum_prime.Ledger.Types.{Text}
use c_datum_prime.Session.{Sodium, Session, sign_bytes}
use c_datum_prime.Handshake.{
  Keypairs, Hello, seal_bytes, keys_len, max_motd, response_body, response_header, accepted, answer,
  accept,
}

some_pair :
    (a c : List ℕ) (b d : Session)
    → ◌≡◌ {A = Option (List ℕ × Session)} (some (a, b)) (some (c, d))
    → (a ≡ c) × (b ≡ d)
some_pair a c b d e = (cc, cc)

le_of_fits : (n : ℕ) (refused : Bool) → (ltb max_cmd_len n || refused) ≡ false → n ≤ max_cmd_len
le_of_fits n refused e = ground arith

pub length-response_body :
    (hello : Hello) (sign_pk box_pk : List ℕ) (motd : Text)
    → All
        (λ (k : List ℕ). length k ≡ 32)
        (hello.client_sign_pk ∷ hello.client_box_pk ∷ hello.session_sign_pk ∷ hello.session_box_pk
          ∷ sign_pk ∷ box_pk ∷ [])
    → length (response_body hello sign_pk box_pk motd)
      ≡ keys_len + 64 + length (take max_motd motd) + 1
unfolding response_body
length-response_body hello sign_pk box_pk motd sizes =
    simp
      (
        length-append, sizes.0, sizes.1.0, sizes.1.1.0, sizes.1.1.1.0, sizes.1.1.1.1.0,
        sizes.1.1.1.1.1.0,
      )
      (omega arith)

-- The parts of the body, by their places.
pub body_parts :
    (hello : Hello) (sign_pk box_pk : List ℕ) (motd : Text)
    → All
        (λ (k : List ℕ). length k ≡ 32)
        (hello.client_sign_pk ∷ hello.client_box_pk ∷ hello.session_sign_pk ∷ hello.session_box_pk
          ∷ sign_pk ∷ box_pk ∷ [])
    → let body = response_body hello sign_pk box_pk motd in
      (take 32 body ≡ hello.client_sign_pk)
      × (take 32 (drop 32 body) ≡ hello.client_box_pk)
      × (take 32 (drop 64 body) ≡ hello.session_sign_pk)
      × (take 32 (drop 96 body) ≡ hello.session_box_pk)
      × (take 32 (drop 128 body) ≡ sign_pk)
      × (take 32 (drop 160 body) ≡ box_pk)
      × (drop 192 body ≡ take 511 motd ++ (0 ∷ []))
unfolding response_body
body_parts hello sign_pk box_pk motd (a, (b, (c, (d, (e, (f, done)))))) =
    let text = take 511 motd ++ (0 ∷ []) in
    let six = box_pk ++ text in
    let five = sign_pk ++ six in
    let four = hello.session_box_pk ++ five in
    let three = hello.session_sign_pk ++ four in
    let two = hello.client_box_pk ++ three in
    let d1 = λ (n : ℕ). drop_past 32 n hello.client_sign_pk two a in
    let d2 = λ (n : ℕ). d1 (32 + n) ∙ drop_past 32 n hello.client_box_pk three b in
    let d3 = λ (n : ℕ). d2 (32 + n) ∙ drop_past 32 n hello.session_sign_pk four c in
    let d4 = λ (n : ℕ). d3 (32 + n) ∙ drop_past 32 n hello.session_box_pk five d in
    let d5 = λ (n : ℕ). d4 (32 + n) ∙ drop_past 32 n sign_pk six e in
    let d6 = λ (n : ℕ). d5 (32 + n) ∙ drop_past 32 n box_pk text f in
    let first = λ (xs : List ℕ). take 32 xs in
    (
      take_front 32 hello.client_sign_pk two a,
      ap first (d1 0) ∙ take_front 32 hello.client_box_pk three b,
      ap first (d2 0) ∙ take_front 32 hello.session_sign_pk four c,
      ap first (d3 0) ∙ take_front 32 hello.session_box_pk five d,
      ap first (d4 0) ∙ take_front 32 sign_pk six e,
      ap first (d5 0) ∙ take_front 32 box_pk text f,
      d6 0,
    )

module _ (sodium : Sodium) (gets : ℕ → Bool) where
  -- What an answer is made of.
  pub record IsAnswer (hello : Hello) (pool : Keypairs) (sign_pair box_pair : List ℕ × List ℕ)
      (motd : Text) (wire : List ℕ) (s : Session) : Type 0 where
    pub sig : List ℕ
    pub sealed : List ℕ
    pub precomp : List ℕ
    pub sealed_len : ℕ
    pub sealed_len_is :
        sealed_len ≡ keys_len + 64 + length (take max_motd motd) + 1 + sign_bytes + seal_bytes
    pub small : sealed_len ≤ max_cmd_len
    pub sig_is :
        sodium.sign_detached (response_body hello sign_pair.0 box_pair.0 motd) pool.sign_sk
        ≡ some sig
    pub sealed_is :
        sodium.box_seal
          (response_body hello sign_pair.0 box_pair.0 motd ++ sig)
          hello.session_box_pk
        ≡ some sealed
    pub precomp_is : sodium.box_beforenm hello.session_box_pk box_pair.1 ≡ some precomp
    pub wire_is :
        wire
        ≡ (ratchet_mask (header_keys_from_nk hello.nk).1 (response_header sealed_len)).0 ++ sealed
    pub session_is :
        s
        ≡ accepted sodium gets hello sign_pair precomp
            (ratchet_mask (header_keys_from_nk hello.nk).1 (response_header sealed_len)).1

  pub accept-IsAnswer :
      (hello : Hello) (pool : Keypairs) (sign_pair box_pair : List ℕ × List ℕ) (motd : Text)
      (wire : List ℕ) (s : Session)
      → accept sodium gets (some sign_pair) (some box_pair) hello pool motd ≡ some (wire, s)
      → IsAnswer hello pool sign_pair box_pair motd wire s
  unfolding accept answer
  accept-IsAnswer hello pool sign_pair box_pair motd wire s e =
      let body = response_body hello sign_pair.0 box_pair.0 motd in
      let sealed_len : ℕ =
        keys_len + 64 + length (take max_motd motd) + 1 + sign_bytes + seal_bytes in
      let masked = ratchet_mask (header_keys_from_nk hello.nk).1 (response_header sealed_len) in
      elim (Bool-cases
        (not (gets (keys_len + 64 + length (take max_motd motd) + 1 + sign_bytes)))) [
          | inl bad ↦ absurd (ground arith)
          | inr room ↦ elim (Option-cases (sodium.sign_detached body pool.sign_sk)) [
            | inl bad ↦ absurd (ground arith)
            | inr (sig, sig_is) ↦
                elim (Bool-cases (ltb max_cmd_len sealed_len || not (gets sealed_len))) [
                  | inl bad ↦ absurd (ground arith)
                  | inr fits ↦
                      elim (Option-cases (sodium.box_seal (body ++ sig) hello.session_box_pk)) [
                        | inl bad ↦ absurd (ground arith)
                        | inr (sealed, sealed_is) ↦ elim (Bool-cases (gets (4 + sealed_len))) [
                          | inr bad ↦ absurd (ground arith)
                          | inl has ↦
                              elim (Option-cases
                                (sodium.box_beforenm hello.session_box_pk box_pair.1)) [
                                  | inl bad ↦ absurd (ground arith)
                                  | inr (precomp, precomp_is) ↦
                                      let out : ◌≡◌ {A = Option (List ℕ × Session)} (some (wire, s))
                                          (some (
                                            masked.0 ++ sealed,
                                            accepted sodium gets hello sign_pair precomp masked.1,
                                          )) =
                                        sym (
                                          rw (room, sig_is, fits, sealed_is, has, precomp_is) at
                                            e) in
                                      let (wire_is, session_is) =
                                        some_pair wire (masked.0 ++ sealed) s
                                          (accepted sodium gets hello sign_pair precomp masked.1)
                                          out in
                                      record {
                                        sig = sig;
                                        sealed = sealed;
                                        precomp = precomp;
                                        sealed_len = sealed_len;
                                        sealed_len_is = refl;
                                        small = le_of_fits sealed_len (not (gets sealed_len)) fits;
                                        sig_is = sig_is;
                                        sealed_is = sealed_is;
                                        precomp_is = precomp_is;
                                        wire_is = wire_is;
                                        session_is = session_is;
                                      }
                                ]
                        ]
                      ]
                ]
          ]
        ]
