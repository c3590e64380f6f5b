-- ===== src/Crc16/Checksum.antt =====
-- src/crc16.rs: the checksum by table against division bit by bit.
use Prim.Native.Nat.{bit_xor}
use pyrsedis.Prelude.{
  ℕ, zero, suc, ◌+◌, ◌*◌, ◌/◌, ◌%◌, ◌<◌, ◌≡◌, refl, Bool, true, ◌&&◌, [], ◌∷◌, Bytes, All, ◌==◌,
  ==_iff, arith, Bool-cases, inl, inr, sym,
}
use pyrsedis.Crc16.{
  u16_mod, shift_bit, shift_bits, crc16_table, table_index, crc16_byte, crc16_from, crc16,
}
use pyrsedis.Crc16.Xor.{bit_xor_lt, bit_xor-high}

every_below : ℕ → (ℕ → Bool) → Bool
every_below zero p = true
every_below (suc n) p = p n && every_below n p

every_below-lt : (n : ℕ) (p : ℕ → Bool) → every_below n p ≡ true → (x : ℕ) → x < n → p x ≡ true
unfolding every_below
every_below-lt zero p h x lt = absurd (omega arith)
every_below-lt (suc n) p h x lt = elim (Bool-cases (x == n)) [
  | inl e ↦ let top : x ≡ n = (==_iff x n).0 e in rw top (ground arith)
  | inr e ↦
      let rest : every_below n p ≡ true = ground arith in every_below-lt n p rest x (ground arith)
]

-- Eight rounds move the low byte up and leave the high byte's entry of the table.
rounds_agree : ℕ → ℕ → Bool
rounds_agree hi lo = shift_bits 8 (hi * 256 + lo) == bit_xor (lo * 256) (crc16_table hi)

all_rounds_agree : every_below 256 (λ hi. every_below 256 (rounds_agree hi)) ≡ true
unfolding every_below rounds_agree shift_bits shift_bit crc16_table
all_rounds_agree = refl

shift_bits-halves :
    (hi lo : ℕ)
    → hi < 256
    → lo < 256
    → shift_bits 8 (hi * 256 + lo) ≡ bit_xor (lo * 256) (crc16_table hi)
shift_bits-halves hi lo h l =
    let row = every_below-lt 256 (λ hi. every_below 256 (rounds_agree hi)) all_rounds_agree hi h in
    unfold rounds_agree in
    (==_iff (shift_bits 8 (hi * 256 + lo)) (bit_xor (lo * 256) (crc16_table hi))).0
      (every_below-lt 256 (rounds_agree hi) row lo l)

-- The reference: a byte goes into the high half of the register, and eight divisions follow.
abbrev pub divide_byte : ℕ → ℕ → ℕ
divide_byte crc byte = shift_bits 8 (bit_xor crc (byte * 256))

abbrev pub divide : ℕ → Bytes → ℕ
divide crc [] = crc
divide crc (byte ∷ bytes) = divide (divide_byte crc byte) bytes

-- Bytes, and checksums.
abbrev pub IsBytes : Bytes → Type 0
IsBytes bytes = All (λ b. b < 256) bytes

table_index_lt : (crc byte : ℕ) → crc < u16_mod → byte < 256 → table_index crc byte < 256
unfolding table_index
table_index_lt crc byte h l = bit_xor_lt 8 (crc / 256) byte (omega arith) l

crc16_byte-divide_byte :
    (crc byte : ℕ) → crc < u16_mod → byte < 256 → crc16_byte crc byte ≡ divide_byte crc byte
unfolding crc16_byte table_index
crc16_byte-divide_byte crc byte h l =
    let hi : ℕ = bit_xor (crc / 256) byte in
    let small : hi < 256 = bit_xor_lt 8 (crc / 256) byte (omega arith) l in
    let low : (crc * 256) % u16_mod ≡ crc % 256 * 256 = omega arith in
    rw (low, bit_xor-high crc byte) (sym (shift_bits-halves hi (crc % 256) small (omega arith)))

shift_bit_lt : (crc : ℕ) → shift_bit crc < u16_mod
unfolding shift_bit
shift_bit_lt crc = ground (arith, bit_xor_lt 16 ((crc * 2) % u16_mod) 0x1021)

shift_bits_lt : (j crc : ℕ) → crc < u16_mod → shift_bits j crc < u16_mod
unfolding shift_bits
shift_bits_lt zero crc h = h
shift_bits_lt (suc j) crc h = shift_bits_lt j (shift_bit crc) (shift_bit_lt crc)

crc16_byte_lt : (crc byte : ℕ) → crc16_byte crc byte < u16_mod
unfolding crc16_byte crc16_table
crc16_byte_lt crc byte =
    bit_xor_lt 16 ((crc * 256) % u16_mod) (crc16_table (table_index crc byte)) (omega arith)
      (shift_bits_lt 8 ((table_index crc byte * 256) % u16_mod) (omega arith))

crc16_from-divide :
    (crc : ℕ) (bytes : Bytes)
    → crc < u16_mod
    → IsBytes bytes
    → crc16_from crc bytes ≡ divide crc bytes
unfolding crc16_from
crc16_from-divide crc [] h l = refl
crc16_from-divide crc (byte ∷ bytes) h (l, ls) =
    rw (← crc16_byte-divide_byte crc byte h l)
      (crc16_from-divide (crc16_byte crc byte) bytes (crc16_byte_lt crc byte) ls)

-- On bytes, the lookups in the table compute the remainder of the division bit by bit by the
-- polynomial 0x1021, eight rounds for each byte.
pub crc16-divide : (bytes : Bytes) → IsBytes bytes → crc16 bytes ≡ divide 0 bytes
unfolding crc16
crc16-divide bytes h = crc16_from-divide 0 bytes (omega arith) h

crc16_from_lt : (crc : ℕ) (bytes : Bytes) → crc < u16_mod → crc16_from crc bytes < u16_mod
unfolding crc16_from
crc16_from_lt crc [] h = h
crc16_from_lt crc (byte ∷ bytes) h =
    crc16_from_lt (crc16_byte crc byte) bytes (crc16_byte_lt crc byte)

pub crc16_lt : (bytes : Bytes) → crc16 bytes < u16_mod
unfolding crc16
crc16_lt bytes = crc16_from_lt 0 bytes (omega arith)
