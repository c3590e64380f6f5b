-- ===== src/Crc16.antt =====
-- src/crc16.rs: the checksum of a key, its hash tag and its slot in a Redis Cluster.
pub mod Xor
pub mod Checksum
pub mod Slots
mod Tests
use Prim.Native.Nat.{bit_and, bit_xor}
use pyrsedis.Prelude.{
  ℕ, zero, suc, ◌+◌, ◌*◌, ◌/◌, ◌%◌, ◌^◌, Bool, Option, none, some, [], ◌∷◌, Bytes, drop, take,
  position, ◌==◌, ltb, if◌then◌else◌,
}

abbrev pub slot_count : ℕ
slot_count = 16384

-- `crc << 1` and `crc << 8` at u16.
abbrev pub u16_mod : ℕ
u16_mod = 2 ^ 16

-- One round of the loop that fills an entry of the table.
unfoldable pub shift_bit : ℕ → ℕ
shift_bit crc =
    if bit_and crc 0x8000 == 0 then (crc * 2) % u16_mod else bit_xor ((crc * 2) % u16_mod) 0x1021

unfoldable pub shift_bits : ℕ → ℕ → ℕ
shift_bits zero crc = crc
shift_bits (suc j) crc = shift_bits j (shift_bit crc)

-- CRC16_TABLE[i].
unfoldable pub crc16_table : ℕ → ℕ
crc16_table i = shift_bits 8 ((i * 256) % u16_mod)

-- The index that a byte looks up.
unfoldable pub table_index : ℕ → ℕ → ℕ
table_index crc byte = bit_xor (crc / 256) byte

-- The body of the loop over the bytes.
unfoldable pub crc16_byte : ℕ → ℕ → ℕ
crc16_byte crc byte = bit_xor ((crc * 256) % u16_mod) (crc16_table (table_index crc byte))

unfoldable pub crc16_from : ℕ → Bytes → ℕ
crc16_from crc [] = crc
crc16_from crc (byte ∷ bytes) = crc16_from (crc16_byte crc byte) bytes

unfoldable pub crc16 : Bytes → ℕ
crc16 bytes = crc16_from 0 bytes

unfoldable pub extract_hash_tag : Bytes → Bytes
extract_hash_tag key = elim (position b'{' key) [
  | none ↦ key
  | some opening ↦ elim (position b'}' (drop (opening + 1) key)) [
    | none ↦ key
    | some close_offset ↦
        if ltb 0 close_offset then take close_offset (drop (opening + 1) key) else key
  ]
]

unfoldable pub hash_slot : Bytes → ℕ
hash_slot key = crc16 (extract_hash_tag key) % slot_count
