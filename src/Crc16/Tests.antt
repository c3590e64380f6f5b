-- ===== src/Crc16/Tests.antt =====
-- Checksums and slots of the tests of src/crc16.rs, and the theorems at concrete keys.
use pyrsedis.Prelude.{◌≡◌, refl, [], ◌%◌, ◌<◌, codes, arith}
use pyrsedis.Crc16.{
  crc16, crc16_from, crc16_byte, crc16_table, table_index, shift_bit, shift_bits, extract_hash_tag,
  hash_slot, slot_count,
}
use pyrsedis.Crc16.Checksum.{divide, crc16-divide}
use pyrsedis.Crc16.Slots.{HashTag, tagged, extract_hash_tag-HashTag, hash_slot-HashTag}

check_value : crc16 (codes "123456789") ≡ 0x31c3
unfolding crc16 crc16_from crc16_byte crc16_table table_index shift_bit shift_bits
check_value = refl

takes_the_first_tag : extract_hash_tag (codes "{a}{b}") ≡ codes "a"
unfolding extract_hash_tag
takes_the_first_tag = refl

crc16-divide_example : crc16 (codes "foo") ≡ divide 0 (codes "foo")
crc16-divide_example = crc16-divide (codes "foo") (omega arith, (omega arith, (omega arith, tt)))

tagged_key : HashTag (codes "a{bc}d") (codes "bc")
tagged_key = tagged (codes "a") (codes "bc") (codes "d") (ground arith) (ground arith) (λ e. cc)

other_key : HashTag (codes "{bc}") (codes "bc")
other_key = tagged [] (codes "bc") [] tt (ground arith) (λ e. cc)

extract_hash_tag-HashTag_example : extract_hash_tag (codes "a{bc}d") ≡ codes "bc"
extract_hash_tag-HashTag_example = extract_hash_tag-HashTag tagged_key

hash_slot-HashTag_example :
    (hash_slot (codes "a{bc}d") ≡ hash_slot (codes "{bc}"))
    × (hash_slot (codes "a{bc}d") ≡ crc16 (codes "bc") % slot_count)
    × (hash_slot (codes "a{bc}d") < slot_count)
hash_slot-HashTag_example = hash_slot-HashTag tagged_key other_key
