-- ===== src/Handshake/Opened.antt =====
-- A hello that a gateway seals and signs is opened to what it says.
use c_datum_prime.Common.{
  take_whole, take_all, take_front, drop_front, drop_past, ℕ, zero, suc, ◌+◌, ◌-◌, ◌^◌, ◌≤◌, ◌<◌,
  ◌≡◌, refl, ap, ◌∙◌,
}
use c_datum_prime.Common.{Bool, true, false, ltb, leb, some}
use c_datum_prime.Common.{List, [], ◌∷◌, ◌++◌, length, take, drop, replicate, All}
use c_datum_prime.Common.{length-append, take-length-append, drop-length-append, arith}
use c_datum_prime.Wire.{bytes_eq, rd_u32, wr_u32}
use c_datum_prime.Wire.Fields.{rd_u32-wr_u32}
use c_datum_prime.Framing.{Header}
use c_datum_prime.Abw.{struct_end}
use c_datum_prime.Session.{Sodium, sign_bytes}
use c_datum_prime.Session.Channel.{IsSigner}
use c_datum_prime.Handshake.{
  Keypairs, Generation, v1, v3, Hello, seal_bytes, keys_len, max_ua, token_len, drs_marker,
  split_nul, read_tail, read_hello, cmd_hello, open_hello,
}

-- The bytes behind `nk`.
abbrev pub tail_bytes : Generation → Bool → List ℕ → List ℕ
tail_bytes v1 resume_present token = []
tail_bytes v3 true token = drs_marker ++ (1 ∷ token)
tail_bytes v3 false token = drs_marker ++ (0 ∷ [])

-- What a gateway signs.
abbrev pub hello_bytes : Hello → List ℕ
hello_bytes h =
    h.client_sign_pk
    ++ (h.client_box_pk
        ++ (h.session_sign_pk
            ++ (h.session_box_pk
                ++ (h.user_agent
                    ++ (0
                        ∷ struct_end
                        ∷ (wr_u32 h.nk
                            ++ tail_bytes h.generation h.resume_present h.resume_token))))))

-- A token that is there has its size, and only version 3 has one.
abbrev pub IsTail : Generation → Bool → List ℕ → Type 0
IsTail v1 resume_present token = (resume_present ≡ false) × (token ≡ replicate token_len 0)
IsTail v3 true token = length token ≡ token_len
IsTail v3 false token = token ≡ replicate token_len 0

pub record IsHello (h : Hello) : Type 0 where
  pub client_sign_pk : length h.client_sign_pk ≡ 32
  pub client_box_pk : length h.client_box_pk ≡ 32
  pub session_sign_pk : length h.session_sign_pk ≡ 32
  pub session_box_pk : length h.session_box_pk ≡ 32
  pub user_agent : length h.user_agent ≤ max_ua
  pub is_text : All (λ (c : ℕ). 0 < c) h.user_agent
  pub nk : h.nk < 2 ^ 32
  pub tail : IsTail h.generation h.resume_present h.resume_token

split_nul_lem :
    (text after : List ℕ)
    → All (λ (c : ℕ). 0 < c) text
    → split_nul (text ++ (0 ∷ after)) ≡ some (text, after)
unfolding split_nul
split_nul_lem [] after pos = refl
split_nul_lem (c ∷ text) after pos = ground (arith, split_nul_lem text after pos.1)

read_tail-tail_bytes :
    (generation : Generation) (resume_present : Bool) (token : List ℕ)
    → IsTail generation resume_present token
    → read_tail (tail_bytes generation resume_present token)
      ≡ some (generation, resume_present, token)
unfolding read_tail bytes_eq
read_tail-tail_bytes v1 resume_present token (absent, blank) = rw (absent, blank) refl
read_tail-tail_bytes v3 true token size =
    let long : leb 5 (length (drs_marker ++ (1 ∷ token))) ≡ true = ground arith in
    let whole : ltb (length (drs_marker ++ (1 ∷ token))) (5 + token_len) ≡ false =
      ground (arith, size) in
    rw (long, whole, take_whole token_len token size) refl
read_tail-tail_bytes v3 false token blank = rw blank refl

-- The four keys in front of a body.
keys_lem :
    (a b c d rest : List ℕ)
    → length a ≡ 32
    → length b ≡ 32
    → length c ≡ 32
    → length d ≡ 32
    → let body = a ++ (b ++ (c ++ (d ++ rest))) in
      (drop 128 body ≡ rest)
      × (take 32 body ≡ a)
      × (take 32 (drop 32 body) ≡ b)
      × (take 32 (drop 64 body) ≡ c)
      × (take 32 (drop 96 body) ≡ d)
keys_lem a b c d rest la lb lc ld = (
  drop_past 32 96 a (b ++ (c ++ (d ++ rest))) la
      ∙ drop_past 32 64 b (c ++ (d ++ rest)) lb
      ∙ drop_past 32 32 c (d ++ rest) lc
      ∙ drop_front 32 d rest ld,
  take_front 32 a (b ++ (c ++ (d ++ rest))) la,
  rw (drop_front 32 a (b ++ (c ++ (d ++ rest))) la) (take_front 32 b (c ++ (d ++ rest)) lb),
  rw (drop_past 32 32 a (b ++ (c ++ (d ++ rest))) la, drop_front 32 b (c ++ (d ++ rest)) lb)
      (take_front 32 c (d ++ rest) lc),
  rw
      (
        drop_past 32 64 a (b ++ (c ++ (d ++ rest))) la,
        drop_past 32 32 b (c ++ (d ++ rest)) lb,
        drop_front 32 c (d ++ rest) lc,
      )
      (take_front 32 d rest ld),
)

keys_size :
    (a b c d rest : List ℕ)
    → length a ≡ 32
    → length b ≡ 32
    → length c ≡ 32
    → length d ≡ 32
    → length (a ++ (b ++ (c ++ (d ++ rest)))) ≡ 128 + length rest
keys_size a b c d rest la lb lc ld = simp (length-append, la, lb, lc, ld) (omega arith)

-- What follows the user agent.
after_lem :
    (h : Hello)
    → IsHello h
    → let after =
        struct_end ∷ (wr_u32 h.nk ++ tail_bytes h.generation h.resume_present h.resume_token) in
      (ltb (length after) 5 ≡ false)
      × (rd_u32 (drop 1 after) ≡ h.nk)
      × (read_tail (drop 5 after) ≡ some (h.generation, h.resume_present, h.resume_token))
unfolding wr_u32
after_lem h is = (
  ground arith,
  rd_u32-wr_u32 h.nk (tail_bytes h.generation h.resume_present h.resume_token) is.nk,
  read_tail-tail_bytes h.generation h.resume_present h.resume_token is.tail,
)

read_hello-hello_bytes : (h : Hello) → IsHello h → read_hello (hello_bytes h) ≡ some h
unfolding read_hello
read_hello-hello_bytes h is =
    let after =
      struct_end ∷ (wr_u32 h.nk ++ tail_bytes h.generation h.resume_present h.resume_token) in
    let (rest, a, b, c, d) =
      keys_lem h.client_sign_pk h.client_box_pk h.session_sign_pk h.session_box_pk
        (h.user_agent ++ (0 ∷ after)) is.client_sign_pk is.client_box_pk is.session_sign_pk
        is.session_box_pk in
    let (long, nk, tail) = after_lem h is in
    rw
      (
        read_hello,
        rest,
        split_nul_lem h.user_agent after is.is_text,
        long,
        tail,
        a,
        b,
        c,
        d,
        nk,
        take_all max_ua h.user_agent is.user_agent,
      )
      refl

-- The payload of a hello: its bytes and their signature, sealed for the pool.
pub record IsSealed (sodium : Sodium) (pool : Keypairs) (h : Hello) (payload : List ℕ)
    : Type 0 where
  pub sk : List ℕ
  pub sig : List ℕ
  pub is_signer : IsSigner sodium h.client_sign_pk sk
  pub is_signed : sodium.sign_detached (hello_bytes h) sk ≡ some sig
  pub is_open : sodium.box_seal_open payload pool.box_pk pool.box_sk ≡ some (hello_bytes h ++ sig)
  pub size : length payload ≡ length (hello_bytes h ++ sig) + seal_bytes

take_prefix : (n : ℕ) (xs ys : List ℕ) → n ≤ length xs → take n (xs ++ ys) ≡ take n xs
take_prefix zero [] ys le = ground arith
take_prefix (suc n) [] ys le = absurd (omega arith)
take_prefix zero (x ∷ xs) ys le = refl
take_prefix (suc n) (x ∷ xs) ys le =
    ap (λ (t : List ℕ). x ∷ t) (take_prefix n xs ys (omega (arith, le)))

-- A hello has its keys, and the key in front.
hello_bytes_lem :
    (h : Hello) (sig : List ℕ)
    → IsHello h
    → (keys_len ≤ length (hello_bytes h)) × (take 32 (hello_bytes h ++ sig) ≡ h.client_sign_pk)
hello_bytes_lem h sig is =
    let rest =
      h.user_agent
      ++ (0
          ∷ struct_end
          ∷ (wr_u32 h.nk ++ tail_bytes h.generation h.resume_present h.resume_token)) in
    let size =
      keys_size h.client_sign_pk h.client_box_pk h.session_sign_pk h.session_box_pk rest
        is.client_sign_pk is.client_box_pk is.session_sign_pk is.session_box_pk in
    (
      omega (arith, size),
      take_prefix 32 (hello_bytes h) sig (omega (arith, size))
          ∙ take_front 32 h.client_sign_pk
              (h.client_box_pk ++ (h.session_sign_pk ++ (h.session_box_pk ++ rest)))
              is.client_sign_pk,
    )

-- The header that `prime_open_hello` asks for.
abbrev pub HelloHeader : Header → Type 0
HelloHeader header =
    (header.proto_cmd ≡ cmd_hello)
    × (header.is_signed ≡ true)
    × (header.is_encrypted_pubkey ≡ true)
    × (header.is_encrypted_channel ≡ false)

module _ (sodium : Sodium) (gets : ℕ → Bool) where
  -- A hello that a gateway signs with the secret key of its first public key and seals for the pool is
  -- opened to the fields that it was made of, of either generation and with or without a token.
  pub open_hello_lem :
      (header : Header) (payload : List ℕ) (pool : Keypairs) (h : Hello)
      → HelloHeader header
      → IsHello h
      → IsSealed sodium pool h payload
      → gets (length payload - seal_bytes) ≡ true
      → open_hello sodium gets header payload pool ≡ some h
  unfolding open_hello
  open_hello_lem header payload pool h kind is sealed has =
      let body = hello_bytes h in
      let (good, sig_size) = sealed.is_signer body sealed.sig sealed.is_signed in
      let whole = length-append body sealed.sig in
      let size : length payload - seal_bytes - sign_bytes ≡ length body =
        omega (arith, sealed.size, whole, sig_size) in
      let long : ltb (length payload) seal_bytes ≡ false = ground (arith, sealed.size) in
      let (keys, pk) = hello_bytes_lem h sealed.sig is in
      let keyed : ltb (length payload - seal_bytes) (keys_len + sign_bytes) ≡ false =
        ground (arith, sealed.size, whole, sig_size, keys) in
      rw
        (
          kind.0,
          kind.1,
          kind.2,
          kind.3,
          long,
          has,
          sealed.is_open,
          keyed,
          size,
          drop-length-append body sealed.sig,
          take-length-append body sealed.sig,
          pk,
          good,
        )
        (read_hello-hello_bytes h is)
