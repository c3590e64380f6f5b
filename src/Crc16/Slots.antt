-- ===== src/Crc16/Slots.antt =====
-- src/crc16.rs: what the hash tag of a key is, and which keys share a slot.
use pyrsedis.Prelude.{
  ◌+◌, ◌%◌, ◌<◌, ◌≡◌, ◌≢◌, refl, ap, ◌∙◌, true, [], ◌∷◌, ◌++◌, Bytes, length, drop, take,
  take-append_length, ltb, lt→ltb, arith,
}
use pyrsedis.Text.Search.{Without, position-Without, position-first, drop_past}
use pyrsedis.Crc16.{crc16, extract_hash_tag, hash_slot, slot_count}

-- The tag of a key: what is between the first `{` and the first `}` behind it, if that is not
-- nothing, and else the whole key.
pub data HashTag : Bytes → Bytes → Type 0 where
  tagged :
      (front tag rest : Bytes)
      → Without b'{' front
      → Without b'}' tag
      → tag ≢ []
      → HashTag (front ++ b'{' ∷ (tag ++ b'}' ∷ rest)) tag
  unopened : (key : Bytes) → Without b'{' key → HashTag key key
  unclosed :
      (front rest : Bytes)
      → Without b'{' front
      → Without b'}' rest
      → HashTag (front ++ b'{' ∷ rest) (front ++ b'{' ∷ rest)
  nothing_between :
      (front rest : Bytes)
      → Without b'{' front
      → HashTag (front ++ b'{' ∷ b'}' ∷ rest) (front ++ b'{' ∷ b'}' ∷ rest)

length-filled : (s : Bytes) → s ≢ [] → ltb 0 (length s) ≡ true
length-filled [] h = absurd (h refl)
length-filled (c ∷ s) h = lt→ltb 0 (length (c ∷ s)) (omega arith)

-- The function of the sources finds the tag of every shape of key.
pub extract_hash_tag-HashTag : {key tag : Bytes} → HashTag key tag → extract_hash_tag key ≡ tag
unfolding extract_hash_tag
extract_hash_tag-HashTag (tagged front tag rest no_open no_close filled) =
    rw
      (
        extract_hash_tag,
        position-first b'{' front (tag ++ b'}' ∷ rest) no_open,
        past,
        position-first b'}' tag rest no_close,
        length-filled tag filled,
      )
      (ap (take (length tag)) past ∙ take-append_length tag (b'}' ∷ rest))
  where
    past : drop (length front + 1) (front ++ b'{' ∷ (tag ++ b'}' ∷ rest)) ≡ tag ++ b'}' ∷ rest
    past = drop_past front b'{' (tag ++ b'}' ∷ rest)
extract_hash_tag-HashTag (unopened key no_open) =
    rw (extract_hash_tag, position-Without b'{' key no_open)
extract_hash_tag-HashTag (unclosed front rest no_open no_close) = rw (
  extract_hash_tag,
  position-first b'{' front rest no_open,
  drop_past front b'{' rest,
  position-Without b'}' rest no_close,
)
extract_hash_tag-HashTag (nothing_between front rest no_open) = rw (
  extract_hash_tag,
  position-first b'{' front (b'}' ∷ rest) no_open,
  drop_past front b'{' (b'}' ∷ rest),
)

-- Keys with the same tag have the same slot, and a slot is below the count of slots.
pub hash_slot-HashTag :
    {key other tag : Bytes}
    → HashTag key tag
    → HashTag other tag
    → (hash_slot key ≡ hash_slot other)
      × (hash_slot key ≡ crc16 tag % slot_count)
      × (hash_slot key < slot_count)
unfolding hash_slot
hash_slot-HashTag {key} {other} {tag} h g =
    rw (extract_hash_tag-HashTag h, extract_hash_tag-HashTag g) (refl, refl, omega arith)
