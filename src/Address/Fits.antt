-- ===== src/Address/Fits.antt =====
-- The room that the script of an address takes.
use c_datum_prime.Common.{ℕ, ◌-◌, ◌≤◌, ◌≡◌, inl, inr}
use c_datum_prime.Common.{
  Bool, false, not, ◌&&◌, ◌||◌, ◌==◌, ltb, if◌then◌else◌, Bool-cases, Option-cases, Option, none,
  some,
}
use c_datum_prime.Common.{List, [], ◌∷◌, ◌++◌, map, reverse, length, take, drop, replicate}
use c_datum_prime.Common.{length-append, length-take, length-drop, arith}
use c_datum_prime.Wire.{byte_at, bytes_eq}
use c_datum_prime.Ledger.Types.{Text}
use c_datum_prime.Pow.{sha256d}
use c_datum_prime.Address.{
  number_loop, leading_ones, skip_zeros, payload_script, lower_case, bech32_values, regroup,
  polymod, hrp_expand, last_one, witness_script, segwit_script, base58_script, address_script,
}

-- Nothing, or a script that fits.
abbrev pub Fits : ℕ → Option (List ℕ) → Type 0
Fits max_len none = Unit
Fits max_len (some script) = length script ≤ max_len

length-hash : (payload : List ℕ) → length payload ≡ 25 → length (take 20 (drop 1 payload)) ≡ 20
length-hash payload size =
    omega (arith, length-take 20 (drop 1 payload), length-drop 1 payload, size)

payload_script-Fits :
    (payload : List ℕ) (max_len : ℕ)
    → length payload ≡ 25
    → Fits max_len (payload_script payload max_len)
unfolding payload_script
payload_script-Fits payload max_len size = elim (Bool-cases (byte_at payload 0 == 0)) [
  | inl p2pkh ↦ elim (Bool-cases (ltb max_len 25)) [
    | inl short ↦ rw (p2pkh, short) tt
    | inr room ↦
        rw (p2pkh, room)
          (ground (
            arith,
            length-append (take 20 (drop 1 payload)) (0x88 ∷ 0xac ∷ []),
            length-hash payload size,
            room,
          ))
  ]
  | inr other ↦ elim (Bool-cases (byte_at payload 0 == 5)) [
    | inl p2sh ↦ elim (Bool-cases (ltb max_len 23)) [
      | inl short ↦ rw (other, p2sh, short) tt
      | inr room ↦
          rw (other, p2sh, room)
            (ground (
              arith,
              length-append (take 20 (drop 1 payload)) (0x87 ∷ []),
              length-hash payload size,
              room,
            ))
    ]
    | inr unknown ↦ rw (other, unknown) tt
  ]
]

witness_script-Fits :
    (witver : ℕ) (program : List ℕ) (max_len : ℕ)
    → Fits max_len (witness_script witver program max_len)
unfolding witness_script
witness_script-Fits witver program max_len = ground arith

segwit_script-Fits :
    (hrp : Text) (values : List ℕ) (max_len : ℕ) → Fits max_len (segwit_script hrp values max_len)
unfolding segwit_script
segwit_script-Fits hrp values max_len =
    let want : ℕ = if byte_at values 0 == 0 then 1 else 0x2bc830a3 in
    elim (Bool-cases
      (ltb (length values) 8 || not (polymod 1 (hrp_expand hrp ++ values) == want))) [
        | inl bad ↦ rw bad tt
        | inr good ↦
            elim (Option-cases (regroup (take (length values - 7) (drop 1 values)) 0 0 0)) [
              | inl bad ↦ rw (good, bad) tt
              | inr program ↦
                  rw (good, program.1) (witness_script-Fits (byte_at values 0) program.0 max_len)
            ]
      ]

module _ (sha256 : List ℕ → List ℕ) (gets : ℕ → Bool) where
  base58_script-Fits :
      (addr : Text) (max_len : ℕ) → Fits max_len (base58_script sha256 gets addr max_len)
  unfolding base58_script
  base58_script-Fits addr max_len = elim (Option-cases (number_loop (replicate 32 0) addr)) [
    | inl bad ↦ rw (base58_script, bad) tt
    | inr num ↦
        let payload = replicate (leading_ones addr) 0 ++ skip_zeros (reverse num.0) in
        let is_checked : Bool =
          bytes_eq (take 4 (sha256d sha256 gets (take 21 payload))) (drop 21 payload) in
        elim (Bool-cases (length payload == 25 && is_checked)) [
          | inl good ↦
              rw (base58_script, num.1, good)
                (payload_script-Fits payload max_len (ground (arith, good)))
          | inr bad ↦ rw (base58_script, num.1, bad) tt
        ]
  ]

  -- For every text and every size of the buffer, `prime_address_script` answers nothing or a script
  -- that the buffer holds, whichever of its five kinds the script is.
  pub address_script-Fits :
      (addr : Text) (max_len : ℕ) → Fits max_len (address_script sha256 gets addr max_len)
  unfolding address_script
  address_script-Fits addr max_len =
      let lower = map lower_case (take 127 addr) in
      let is_bc : Bool = elim (last_one 0 none lower) [
        | none ↦ false
        | some sep ↦ sep == 2 && bytes_eq (take 2 lower) (b'b' ∷ b'c' ∷ [])
      ] in
      elim (Bool-cases (byte_at addr 0 == b'1' || byte_at addr 0 == b'3')) [
        | inl base58 ↦ rw (address_script, base58) (base58_script-Fits addr max_len)
        | inr segwit ↦ elim (Bool-cases is_bc) [
          | inl bc ↦ elim (Option-cases (bech32_values (drop 3 lower))) [
            | inl bad ↦ rw (address_script, segwit, bc, bad) tt
            | inr good ↦
                rw (address_script, segwit, bc, good.1)
                  (segwit_script-Fits (b'b' ∷ b'c' ∷ []) good.0 max_len)
          ]
          | inr other ↦ rw (address_script, segwit, other) tt
        ]
      ]
