-- ===== src/Text/Utf8.antt =====
-- std::str::from_utf8: the well-formed byte sequences of the Unicode standard (table 3-7).
use pyrsedis.Prelude.{
  ℕ, zero, suc, ◌≡◌, refl, Bool, true, false, ◌&&◌, Option, none, some, [], ◌∷◌, Bytes, codes, ltb,
  lt→ltb, All, ◌<◌, leb, ◌==◌, if◌then◌else◌,
}

-- `more k lo hi` wants a byte from `lo` to `hi` and then `k` continuation bytes.
pub data Expect : Type 0 where
  start : Expect
  more : ℕ → ℕ → ℕ → Expect

lead : ℕ → Option Expect
lead b =
    if ltb b 0x80
    then some start
    else if ltb b 0xc2
    then none
    else if ltb b 0xe0
    then some (more 0 0x80 0xbf)
    else if b == 0xe0
    then some (more 1 0xa0 0xbf)
    else if b == 0xed
    then some (more 1 0x80 0x9f)
    else if ltb b 0xf0
    then some (more 1 0x80 0xbf)
    else if b == 0xf0
    then some (more 2 0x90 0xbf)
    else if ltb b 0xf4
    then some (more 2 0x80 0xbf)
    else if b == 0xf4
    then some (more 2 0x80 0x8f)
    else none

follow : ℕ → Expect
follow zero = start
follow (suc k) = more k 0x80 0xbf

next : Expect → ℕ → Option Expect
unfolding lead follow
next start b = lead b
next (more k lo hi) b = if leb lo b && leb b hi then some (follow k) else none

scan : Expect → Bytes → Bool
unfolding next
scan start [] = true
scan (more k lo hi) [] = false
scan e (b ∷ s) = elim (next e b) [ none ↦ false | some e' ↦ scan e' s ]

unfoldable pub is_utf8 : Bytes → Bool
unfolding scan
is_utf8 s = scan start s

scan_ascii : (s : Bytes) → All (λ c. c < 128) s → scan start s ≡ true
unfolding scan
scan_ascii [] h = refl
scan_ascii (c ∷ s) (hc, hs) = rw (lt→ltb c 128 hc, scan) (scan_ascii s hs)

-- Bytes below 128 are UTF-8.
pub is_utf8_ascii : (s : Bytes) → All (λ c. c < 128) s → is_utf8 s ≡ true
unfolding is_utf8
is_utf8_ascii s h = scan_ascii s h

accepts_ascii : is_utf8 (codes "OK") ≡ true
unfolding is_utf8
accepts_ascii = refl

accepts_three_bytes : is_utf8 (0xe2 ∷ 0x82 ∷ 0xac ∷ []) ≡ true
unfolding is_utf8
accepts_three_bytes = refl

refuses_overlong : is_utf8 (0xc0 ∷ 0x80 ∷ []) ≡ false
unfolding is_utf8
refuses_overlong = refl

refuses_truncated : is_utf8 (0xe2 ∷ 0x82 ∷ []) ≡ false
unfolding is_utf8
refuses_truncated = refl
