-- ===== src/Text/Decimal.antt =====
-- What `to_string` prints of integers: decimal digits.
use pyrsedis.Prelude.{
  ℕ, zero, suc, ◌+◌, ◌/◌, ◌%◌, ◌-◌, ◌*◌, ◌≤◌, ◌<◌, ◌≡◌, refl, ◌≢◌, ◌∙◌, [], ◌∷◌, ◌++◌, Bytes, ltb,
  if◌then◌else◌, All, All-append, arith, Bool-cases, inl, inr, sym, lt→ltb, le→ltb, ltb→lt, ltb→le,
  ℤ, pos, negsuc,
}
use pyrsedis.Text.Number.{IsDigit, value}

unfoldable pub digits : ℕ → ℕ → Bytes
digits zero n = []
digits (suc fuel) n =
    let rest = digits fuel (n / 10) in
    if ltb n 10 then (b'0' + n) ∷ [] else rest ++ ((b'0' + n % 10) ∷ [])

digits-small : (fuel n : ℕ) → n < 10 → digits (suc fuel) n ≡ (b'0' + n) ∷ []
unfolding digits
digits-small fuel n h = rw (lt→ltb n 10 h)

digits-large :
    (fuel n : ℕ) → 10 ≤ n → digits (suc fuel) n ≡ digits fuel (n / 10) ++ ((b'0' + n % 10) ∷ [])
unfolding digits
digits-large fuel n h = rw (le→ltb n 10 h)

pub digits-IsDigit : (fuel n : ℕ) → All IsDigit (digits fuel n)
unfolding digits
digits-IsDigit zero n = tt
digits-IsDigit (suc fuel) n = elim (Bool-cases (ltb n 10)) [
  | inl h ↦
      let small = ltb→lt n 10 h in rw (digits-small fuel n small) ((omega arith, omega arith), tt)
  | inr h ↦ rw (digits-large fuel n (ltb→le n 10 h)) (
      All-append IsDigit (digits fuel (n / 10)) ((b'0' + n % 10) ∷ [])
        (digits-IsDigit fuel (n / 10)) ((omega arith, omega arith), tt))
]

append-ne-nil : (s : Bytes) (c : ℕ) → s ++ (c ∷ []) ≢ []
append-ne-nil [] c e = cc
append-ne-nil (d ∷ s) c e = cc

pub digits-ne-nil : (fuel n : ℕ) → digits (suc fuel) n ≢ []
digits-ne-nil fuel n e = elim (Bool-cases (ltb n 10)) [
  | inl h ↦ let small = digits-small fuel n (ltb→lt n 10 h) in cc
  | inr h ↦
      append-ne-nil (digits fuel (n / 10)) (b'0' + n % 10)
        (sym (digits-large fuel n (ltb→le n 10 h)) ∙ e)
]

value-snoc : (s : Bytes) (m c : ℕ) → value m (s ++ c ∷ []) ≡ value m s * 10 + (c - b'0')
value-snoc [] m c = refl
value-snoc (d ∷ s) m c = value-snoc s (m * 10 + (d - b'0')) c

pub value-digits : (fuel n : ℕ) → n < fuel → value 0 (digits fuel n) ≡ n
value-digits zero n h = absurd (omega arith)
value-digits (suc fuel) n h = elim (Bool-cases (ltb n 10)) [
  | inl small ↦ rw (digits-small fuel n (ltb→lt n 10 small)) (omega arith)
  | inr large ↦
      let e = value-digits fuel (n / 10) (omega (arith, ltb→le n 10 large)) in
      rw
        (
          digits-large fuel n (ltb→le n 10 large),
          value-snoc (digits fuel (n / 10)) 0 (b'0' + n % 10),
          e,
        )
        (omega arith)
]

-- u64::to_string and i64::to_string.
unfoldable pub to_string : ℕ → Bytes
unfolding digits
to_string n = digits (suc n) n

unfoldable pub int_to_string : ℤ → Bytes
unfolding to_string
int_to_string (pos n) = to_string n
int_to_string (negsuc n) = b'-' ∷ to_string (suc n)

pub value-to_string : (n : ℕ) → value 0 (to_string n) ≡ n
unfolding to_string
value-to_string n = value-digits (suc n) n (omega arith)

pub to_string-IsDigit : (n : ℕ) → All IsDigit (to_string n)
unfolding to_string
to_string-IsDigit n = digits-IsDigit (suc n) n

pub to_string-ne-nil : (n : ℕ) → to_string n ≢ []
unfolding to_string
to_string-ne-nil n = digits-ne-nil n n
