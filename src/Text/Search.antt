-- ===== src/Text/Search.antt =====
-- Where a byte stands in a text: the first and the last occurrence.
use pyrsedis.Prelude.{
  ℕ, suc, ◌+◌, ◌≤◌, ◌≡◌, ◌≢◌, refl, none, some, [], ◌∷◌, ◌++◌, Bytes, length, position, drop, All,
  arith, ◌⊎◌,
}
use pyrsedis.Text.{split_once, rsplit_once}
use pyrsedis.Text.Number.{IsDigit}

-- A text with no byte `b`.
abbrev pub Without : ℕ → Bytes → Type 0
Without b s = All (λ c. c ≢ b) s

pub split_once-first :
    (b : ℕ) (s rest : Bytes) → Without b s → split_once b (s ++ b ∷ rest) ≡ some (s, rest)
unfolding split_once
split_once-first b [] rest h = ground arith
split_once-first b (c ∷ s) rest (h, hs) = ground (arith, split_once-first b s rest hs)

pub split_once-absent : (b : ℕ) (s : Bytes) → Without b s → split_once b s ≡ none
unfolding split_once
split_once-absent b [] h = refl
split_once-absent b (c ∷ s) (h, hs) = ground (arith, split_once-absent b s hs)

pub rsplit_once-absent : (b : ℕ) (s : Bytes) → Without b s → rsplit_once b s ≡ none
unfolding rsplit_once
rsplit_once-absent b [] h = refl
rsplit_once-absent b (c ∷ s) (h, hs) = ground (arith, rsplit_once-absent b s hs)

pub rsplit_once-last :
    (b : ℕ) (s rest : Bytes) → Without b rest → rsplit_once b (s ++ b ∷ rest) ≡ some (s, rest)
unfolding rsplit_once
rsplit_once-last b [] rest h = ground (arith, rsplit_once-absent b rest h)
rsplit_once-last b (c ∷ s) rest h = ground (arith, rsplit_once-last b s rest h)

pub digits-Without : (b : ℕ) (s : Bytes) → b ≤ 47 ⊎ 58 ≤ b → All IsDigit s → Without b s
digits-Without b [] out h = tt
digits-Without b (c ∷ s) out (h, hs) = (ground arith, digits-Without b s out hs)

pub position-Without : (b : ℕ) (s : Bytes) → Without b s → position b s ≡ none
position-Without b [] h = refl
position-Without b (c ∷ s) (h, hs) = ground (arith, position-Without b s hs)

pub position-first :
    (b : ℕ) (s rest : Bytes) → Without b s → position b (s ++ b ∷ rest) ≡ some (length s)
position-first b [] rest h = ground arith
position-first b (c ∷ s) rest (h, hs) = ground (arith, position-first b s rest hs)

drop_next :
    (front : Bytes) (c : ℕ) (rest : Bytes) → drop (suc (length front)) (front ++ c ∷ rest) ≡ rest
drop_next [] c rest = refl
drop_next (b ∷ front) c rest = drop_next front c rest

pub drop_past :
    (front : Bytes) (c : ℕ) (rest : Bytes) → drop (length front + 1) (front ++ c ∷ rest) ≡ rest
drop_past front c rest =
    let next : length front + 1 ≡ suc (length front) = omega arith in
    rw next (drop_next front c rest)
