-- ===== src/Resp/Line/Ends.antt =====
-- parse_int_from_bytes of src/resp/parser.rs: the ways in which it ends.
use pyrsedis.Prelude.{
  ◌-◌, Bool, true, false, [], ◌∷◌, Bytes, ◌==◌, ℤ, pos, checked_mul, checked_sub, Bool-cases, inl,
  inr,
}
use pyrsedis.Outcome.Rules.{Ends, holds, fails, Ensures-if, Ensures-after, ok_or-Ends}
use pyrsedis.Resp.Line.{accumulate, signed, parse_int_from_bytes}
use pyrsedis.Text.Number.{is_digit}

accumulate-Ends : (n : ℤ) (s : Bytes) → Ends (accumulate n s)
unfolding accumulate
accumulate-Ends n [] = holds tt
accumulate-Ends n (c ∷ s) = elim (Bool-cases (is_digit c)) [
  | inl digit ↦
      rw (digit, accumulate)
        (Ensures-after (ok_or-Ends (checked_mul n (pos 10)) _) λ scaled.
          Ensures-after (ok_or-Ends (checked_sub scaled (pos (c - b'0'))) _)
            λ m. accumulate-Ends m s)
  | inr other ↦ rw (other, accumulate) fails
]

signed-Ends : (negative : Bool) (s : Bytes) → Ends (signed negative s)
unfolding signed
signed-Ends negative [] = fails
signed-Ends negative (c ∷ s) = Ensures-after (accumulate-Ends (pos 0) (c ∷ s)) λ n. holds tt

pub parse_int-Ends : (s : Bytes) → Ends (parse_int_from_bytes s)
unfolding parse_int_from_bytes
parse_int-Ends [] = fails
parse_int-Ends (c ∷ s) =
    Ensures-if (c == b'-') (λ _. signed-Ends true s)
      (λ _. Ensures-if (c == b'+') (λ _. signed-Ends false s) (λ _. signed-Ends false (c ∷ s)))
