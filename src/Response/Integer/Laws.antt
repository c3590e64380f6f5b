-- ===== src/Response/Integer/Laws.antt =====
-- fused_parse_int of src/response.rs on decimal digits, and against parse_int_from_bytes.
use pyrsedis.Prelude.{
  ℕ, ◌+◌, ◌-◌, ◌*◌, ◌%◌, ◌≤◌, ◌≡◌, ◌≢◌, refl, sym, ap, ◌∙◌, Bool, true, false, [], ◌∷◌, Bytes, All,
  arith, ltb, leb, if◌then◌else◌, ℤ, pos, minus, i64_limit, neg_i64, Bool-cases, inl, inr,
}
use pyrsedis.Outcome.{Outcome, ok, fail, ◌>>=◌}
use pyrsedis.Resp.Line.{accumulate, parse_int_from_bytes, signed}
use pyrsedis.Resp.Line.Integers.{accumulate_step}
use pyrsedis.Response.Integer.{
  u64_mod, digit_of, check_from, find_invalid, sum_from, as_i64, fused_digits, fused_parse_int,
}
use pyrsedis.Text.Number.{IsDigit, is_digit, value}

find_invalid_digits : (s : Bytes) → All IsDigit s → find_invalid s ≡ ok tt
unfolding find_invalid
find_invalid_digits [] h = refl
find_invalid_digits (b ∷ s) (hb, hs) = ground (arith, find_invalid_digits s hs)

digit_step :
    (n b : ℕ)
    → IsDigit b
    → (n % u64_mod * 10 % u64_mod + digit_of b) % u64_mod ≡ (n * 10 + (b - b'0')) % u64_mod
unfolding digit_of
digit_step n b h = omega arith

-- The sum is the value of the digits modulo 2^64.
sum_from-value :
    (n : ℕ) (s : Bytes) → All IsDigit s → sum_from (n % u64_mod) s ≡ value n s % u64_mod
unfolding sum_from
sum_from-value n [] h = refl
sum_from-value n (b ∷ s) (hb, hs) =
    ap (λ m. sum_from m s) (digit_step n b hb) ∙ sum_from-value (n * 10 + (b - b'0')) s hs

fused_digits_lem :
    (negative : Bool) (s : Bytes)
    → s ≢ []
    → All IsDigit s
    → fused_digits negative s
      ≡ ok (
          if negative then neg_i64 (as_i64 (value 0 s % u64_mod)) else as_i64 (value 0 s % u64_mod))
unfolding fused_digits
fused_digits_lem negative [] ne h = absurd (ne refl)
fused_digits_lem negative (d ∷ s) ne h =
    let e : sum_from 0 (d ∷ s) ≡ value 0 (d ∷ s) % u64_mod = sum_from-value 0 (d ∷ s) h in
    elim (Bool-cases (ltb 9 (check_from 0 (d ∷ s)))) [
      | inl odd ↦ rw (odd, find_invalid_digits (d ∷ s) h, e) refl
      | inr even ↦ rw (even, e) refl
    ]

fused_plain : (c : ℕ) (s : Bytes) → IsDigit c → fused_parse_int (c ∷ s) ≡ fused_digits false (c ∷ s)
unfolding fused_parse_int
fused_plain c s h = ground arith

-- On every text of decimal digits fused_parse_int returns the number modulo 2^64, read as an i64, and
-- with a minus before it the negation of that at i64: where parse_int_from_bytes reports an overflow,
-- this function does not.
pub fused_parse_int_digits :
    (s : Bytes)
    → s ≢ []
    → All IsDigit s
    → (fused_parse_int s ≡ ok (as_i64 (value 0 s % u64_mod)))
      × (fused_parse_int (b'+' ∷ s) ≡ ok (as_i64 (value 0 s % u64_mod)))
      × (fused_parse_int (b'-' ∷ s) ≡ ok (neg_i64 (as_i64 (value 0 s % u64_mod))))
fused_parse_int_digits [] ne h = absurd (ne refl)
fused_parse_int_digits (c ∷ s) ne h = (
  fused_plain c s h.0 ∙ fused_digits_lem false (c ∷ s) ne h,
  unfold fused_parse_int in fused_digits_lem false (c ∷ s) ne h,
  unfold fused_parse_int in fused_digits_lem true (c ∷ s) ne h,
)

-- What the checked sum is, where it does not fail.
record Summed (m : ℕ) (s : Bytes) (n : ℤ) : Type 0 where
  digits : All IsDigit s
  fits : value m s ≤ i64_limit
  sum : n ≡ minus (value m s)

accumulate_bad :
    (n : ℤ) (b : ℕ) (s : Bytes) {m : ℤ} → is_digit b ≡ false → accumulate n (b ∷ s) ≢ ok m
unfolding accumulate
accumulate_bad n b s bad e = let stops = rw (bad, accumulate) at e in cc

accumulate_next :
    (m b : ℕ) (s : Bytes) {n : ℤ}
    → IsDigit b
    → accumulate (minus m) (b ∷ s) ≡ ok n
    → (m * 10 + (b - b'0') ≤ i64_limit) × (accumulate (minus (m * 10 + (b - b'0'))) s ≡ ok n)
accumulate_next m b s h e = elim (Bool-cases (leb (m * 10 + (b - b'0')) i64_limit)) [
  | inl fits ↦ let go = rw fits at (sym (accumulate_step m b s h) ∙ e) in (ground arith, go)
  | inr wide ↦ let stops = rw wide at (sym (accumulate_step m b s h) ∙ e) in cc
]

accumulate-Summed :
    (m : ℕ) (s : Bytes) {n : ℤ} → m ≤ i64_limit → accumulate (minus m) s ≡ ok n → Summed m s n
accumulate-Summed m [] le e = unfold accumulate in record { digits = tt; fits = le; sum = cc }
accumulate-Summed m (b ∷ s) {n} le e = elim (Bool-cases (is_digit b)) [
  | inr bad ↦ absurd (accumulate_bad (minus m) b s bad e)
  | inl good ↦
      let h : IsDigit b = (ground arith, ground arith) in
      let (fits, go) = accumulate_next m b s {n = n} h e in
      let rest : Summed (m * 10 + (b - b'0')) s n =
        accumulate-Summed (m * 10 + (b - b'0')) s fits go in
      record { digits = (h, rest.digits); fits = rest.fits; sum = rest.sum }
]

-- At most 2^63, read as an i64 and negated.
small_reading :
    (v : ℕ)
    → v ≤ i64_limit
    → (as_i64 (v % u64_mod) ≡ neg_i64 (minus v)) × (neg_i64 (as_i64 (v % u64_mod)) ≡ minus v)
unfolding neg_i64
small_reading v h = (ground arith, ground arith)

fused_digits-signed :
    (negative : Bool) (s : Bytes) {n : ℤ}
    → signed negative s ≡ ok n
    → fused_digits negative s ≡ ok n
unfolding signed
fused_digits-signed negative [] e = cc
fused_digits-signed negative (b ∷ s) e = agree negative (accumulate (pos 0) (b ∷ s)) e refl
  where
    agree :
        (negative : Bool) (r : Outcome ℤ) {n : ℤ}
        → (do m ← r; ok (if negative then m else neg_i64 m)) ≡ ok n
        → accumulate (pos 0) (b ∷ s) ≡ r
        → fused_digits negative (b ∷ s) ≡ ok n
    agree negative (fail e) h q = cc
    agree negative Outcome.panic h q = cc
    agree negative Outcome.stuck h q = cc
    agree true (ok m) h q =
        let sum = accumulate-Summed 0 (b ∷ s) {n = m} (omega arith) q in
        let read = small_reading (value 0 (b ∷ s)) sum.fits in
        fused_digits_lem true (b ∷ s) (λ p. cc) sum.digits ∙ ap ok (read.1 ∙ sym sum.sum) ∙ h
    agree false (ok m) h q =
        let sum = accumulate-Summed 0 (b ∷ s) {n = m} (omega arith) q in
        let read = small_reading (value 0 (b ∷ s)) sum.fits in
        fused_digits_lem false (b ∷ s) (λ p. cc) sum.digits
        ∙ ap ok (read.0 ∙ ap neg_i64 (sym sum.sum))
        ∙ h

-- Where parse_int_from_bytes reads an integer, fused_parse_int reads the same.
pub fused_parse_int-parse_int_from_bytes :
    (s : Bytes) {n : ℤ} → parse_int_from_bytes s ≡ ok n → fused_parse_int s ≡ ok n
unfolding parse_int_from_bytes fused_parse_int
fused_parse_int-parse_int_from_bytes [] e = cc
fused_parse_int-parse_int_from_bytes (b ∷ s) {n} e = ground (
  arith,
  fused_digits-signed true s {n = n},
  fused_digits-signed false s {n = n},
  fused_digits-signed false (b ∷ s) {n = n},
)
