-- ===== src/Text/Space.antt =====
-- White space as `char::is_whitespace` knows it, on UTF-8 bytes, and what trims or splits at it.
use pyrsedis.Prelude.{
  ℕ, zero, suc, ◌≡◌, refl, ◌&&◌, ◌||◌, Option, none, some, [], ◌∷◌, Bytes, codes, leb, ◌==◌,
  if◌then◌else◌,
}

-- The bytes of the white space character at the front: 0 where there is none.
two_byte : ℕ → ℕ
two_byte b = if b == 0x85 || b == 0xa0 then 2 else 0

three_byte : ℕ → ℕ → ℕ → ℕ
three_byte a b c =
    if a == 0xe1 && (b == 0x9a && c == 0x80)
    then 3
    else if a == 0xe2
        && (b == 0x80 && (leb 0x80 c && leb c 0x8a || (c == 0xa8 || (c == 0xa9 || c == 0xaf))))
    then 3
    else if a == 0xe2 && (b == 0x81 && c == 0x9f)
    then 3
    else if a == 0xe3 && (b == 0x80 && c == 0x80)
    then 3
    else 0

space_length : Bytes → ℕ
unfolding two_byte three_byte
space_length [] = 0
space_length (a ∷ s) = if a == 0x20 || (leb 0x09 a && leb a 0x0d) then 1 else elim s [
  | [] ↦ 0
  | b ∷ t ↦ if a == 0xc2 then two_byte b else elim t [ [] ↦ 0 | c ∷ _ ↦ three_byte a b c ]
]

-- The first argument is what is left of the white space character being passed.
skip : ℕ → Bytes → Bytes
unfolding space_length
skip n [] = []
skip (suc n) (c ∷ s) = skip n s
skip zero (c ∷ s) = elim (space_length (c ∷ s)) [ zero ↦ c ∷ s | suc k ↦ skip k s ]

-- str::trim_start, str::trim_end and str::trim.
unfoldable pub trim_start : Bytes → Bytes
unfolding skip
trim_start s = skip 0 s

unfoldable pub trim_end : Bytes → Bytes
unfolding trim_start
trim_end [] = []
trim_end (c ∷ s) = elim (trim_start (c ∷ s)) [ [] ↦ [] | _ ∷ _ ↦ c ∷ trim_end s ]

unfoldable pub trim : Bytes → Bytes
unfolding trim_end
trim s = trim_start (trim_end s)

word : Bytes → Bytes
unfolding space_length
word [] = []
word (c ∷ s) = let rest = word s in if space_length (c ∷ s) == 0 then c ∷ rest else []

-- str::split_whitespace().next().
unfoldable pub first_word : Bytes → Option Bytes
unfolding trim_start word
first_word s = elim (trim_start s) [ [] ↦ none | c ∷ t ↦ some (word (c ∷ t)) ]

trims : trim (codes "  a b ") ≡ codes "a b"
unfolding trim
trims = refl

trims_wide : trim (0xc2 ∷ 0xa0 ∷ b'x' ∷ 0xe2 ∷ 0x80 ∷ 0x89 ∷ []) ≡ codes "x"
unfolding trim
trims_wide = refl

first_of_two : first_word (codes " NOAUTH required") ≡ some (codes "NOAUTH")
unfolding first_word
first_of_two = refl
