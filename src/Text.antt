-- ===== src/Text.antt =====
-- The operations of Rust's `str` that the sources use, over UTF-8 bytes: a `String` of the sources
-- is the list of its bytes.
pub mod Utf8
pub mod Number
pub mod Decimal
pub mod Space
pub mod Search
use pyrsedis.Prelude.{
  ℕ, zero, suc, ◌-◌, ◌≡◌, refl, ap, Bool, true, false, ◌&&◌, Option, none, some, List, [], ◌∷◌,
  ◌++◌, arith, Bytes, codes, leb, ◌==◌, if◌then◌else◌, map,
}

-- str::strip_prefix.
unfoldable pub strip_prefix : Bytes → Bytes → Option Bytes
strip_prefix [] s = some s
strip_prefix (p ∷ ps) [] = none
strip_prefix (p ∷ ps) (c ∷ s) = let rest = strip_prefix ps s in if c == p then rest else none

-- str::starts_with.
unfoldable pub starts_with : Bytes → Bytes → Bool
starts_with [] s = true
starts_with (p ∷ ps) [] = false
starts_with (p ∷ ps) (c ∷ s) = c == p && starts_with ps s

-- str::split_once at an ASCII character: the first occurrence.
unfoldable pub split_once : ℕ → Bytes → Option (Bytes × Bytes)
split_once d [] = none
split_once d (c ∷ s) =
    let rest : Option (Bytes × Bytes) = elim (split_once d s) [
      | none ↦ none
      | some (a, b) ↦ some (c ∷ a, b)
    ] in
    if c == d then some ([], s) else rest

-- str::rsplit_once at an ASCII character: the last occurrence.
unfoldable pub rsplit_once : ℕ → Bytes → Option (Bytes × Bytes)
rsplit_once d [] = none
rsplit_once d (c ∷ s) = elim (rsplit_once d s) [
  | some (a, b) ↦ some (c ∷ a, b)
  | none ↦ if c == d then some ([], s) else none
]

-- str::contains and the count of an ASCII character.
unfoldable pub contains : ℕ → Bytes → Bool
contains d [] = false
contains d (c ∷ s) = let rest = contains d s in if c == d then true else rest

unfoldable pub occurrences : ℕ → Bytes → ℕ
occurrences d [] = 0
occurrences d (c ∷ s) = let n = occurrences d s in if c == d then suc n else n

-- The parts of str::split at an ASCII character: there is always a first one.
unfoldable pub split : ℕ → Bytes → List Bytes
split d [] = [] ∷ []
split d (c ∷ s) = elim (split d s) [
  | [] ↦ [] ∷ []
  | p ∷ ps ↦ if c == d then [] ∷ p ∷ ps else (c ∷ p) ∷ ps
]

-- u8::to_ascii_uppercase, and its lift to strings.
unfoldable pub to_upper : ℕ → ℕ
to_upper c = if leb b'a' c && leb c b'z' then c - 32 else c

unfoldable pub to_ascii_uppercase : Bytes → Bytes
unfolding to_upper
to_ascii_uppercase s = map to_upper s

splits_first : split_once b' ' (codes "3999 h:1 x") ≡ some (codes "3999", codes "h:1 x")
unfolding split_once
splits_first = refl

splits_last : rsplit_once b':' (codes "::1:80") ≡ some (codes "::1", codes "80")
unfolding rsplit_once
splits_last = refl

splits_all : split b',' (codes "a,,b") ≡ codes "a" ∷ [] ∷ codes "b" ∷ []
unfolding split
splits_all = refl
