-- ===== src/Resp/Parser/Ends.antt =====
-- The steps of the parsers of src/resp/parser.rs that use no fuel.
use pyrsedis.Prelude.{ℕ, Bytes, arith, bytes_eq, codes}
use pyrsedis.Error.{Part}
use pyrsedis.External.{External}
use pyrsedis.Outcome.Rules.{
  Ends, Ends-of-ne-stuck, holds, fails, Ensures-if, Ensures-refuse, Ensures-after, ok_or-Ends,
}
use pyrsedis.Resp.Parser.{
  with_capacity, utf8, simple_text, boolean_of, double_of, verbatim_of, kind_of,
}
use pyrsedis.Resp.Types.{RespValue}

pub with_capacity-Ends : (count size : ℕ) → Ends (with_capacity count size)
with_capacity-Ends count size =
    Ends-of-ne-stuck (with_capacity count size) (unfold with_capacity in ground arith)

pub utf8-Ends : (part : Part) (s : Bytes) → Ends (utf8 part s)
utf8-Ends part s = Ends-of-ne-stuck (utf8 part s) (unfold utf8 in ground arith)

pub simple_text-Ends : (s : Bytes) → Ends (simple_text s)
simple_text-Ends s = Ends-of-ne-stuck (simple_text s) (unfold simple_text utf8 in ground arith)

pub double_of-Ends : (x : External) (s : Bytes) → Ends (double_of x s)
unfolding double_of
double_of-Ends x s =
    Ensures-if (bytes_eq s (codes "inf")) (λ _. holds tt)
      (λ _.
        Ensures-if (bytes_eq s (codes "-inf")) (λ _. holds tt)
          (λ _.
            Ensures-if (bytes_eq s (codes "nan")) (λ _. holds tt)
              (λ _. ok_or-Ends (x.parse_f64 s) _)))

pub boolean_of-Ends : (buf : Bytes) → Ends (boolean_of buf)
boolean_of-Ends buf = Ends-of-ne-stuck (boolean_of buf) (unfold boolean_of in ground arith)

pub verbatim_of-Ends : (len : ℕ) (content : Bytes) → Ends (verbatim_of len content)
unfolding verbatim_of
verbatim_of-Ends len content =
    Ensures-refuse _ _
      (λ _. Ensures-after (utf8-Ends _ _) λ _. Ensures-after (utf8-Ends _ _) λ _. holds tt)

pub kind_of-Ends : (v : RespValue) → Ends (kind_of v)
unfolding kind_of
kind_of-Ends (RespValue.bulk_string b) = utf8-Ends _ b
kind_of-Ends (RespValue.simple_string b) = holds tt
kind_of-Ends _ = fails
