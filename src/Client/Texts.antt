-- ===== src/Client/Texts.antt =====
-- src/client.rs: the conversion of the text of a value, and of the replies to a pipeline.
use pyrsedis.Prelude.{
  ℕ, ◌≡◌, refl, ap, subst, ◌∙◌, Bool, true, false, List, [], ◌∷◌, append-nil, Bytes, length, All,
}
use pyrsedis.Client.Calls.{convert_raw}
use pyrsedis.Client.Pipeline.{convert_each}
use pyrsedis.Connection.Replies.{IsFrame}
use pyrsedis.External.{External}
use pyrsedis.Outcome.{ok}
use pyrsedis.Resp.Frame.Agreement.{resp_frame_len-parse}
use pyrsedis.Resp.Grammar.{Wire}
use pyrsedis.Resp.Grammar.Complete.{parse-Wire}
use pyrsedis.Resp.Parser.{parse}
use pyrsedis.Resp.Types.{RespValue, Values, nil, cons}
use pyrsedis.Response.Agreement.{convert, convert_values, FitsValue}
use pyrsedis.Response.Agreement.Whole.{parse_to_python-parse}
use pyrsedis.Response.Convert.{values_to_python, values_decoded}
use pyrsedis.Response.Fused.{max_parse_depth}
use pyrsedis.Response.Python.{Python, PyResult, done, raised, exhausted, ◌>>=◌}

-- The conversion alone, where the place of the end is dropped.
first : {A : Type 0} → PyResult (A × ℕ) → PyResult A
first r = r >>= λ p. done p.0

first-done : {A : Type 0} (r : PyResult A) (n : ℕ) → first (r >>= λ (o : A). done (o, n)) ≡ r
unfolding first
first-done (done a) n = refl
first-done (raised e) n = refl
first-done exhausted n = refl

Wire-parse : (x : External) {v : RespValue} {s : Bytes} → Wire x v s → parse x s ≡ ok (v, length s)
Wire-parse x {v} {s} w =
    subst (λ t. parse x t ≡ ok (v, length s)) (append-nil s) (parse-Wire x w [])

pub Wire-IsFrame : (x : External) {v : RespValue} {s : Bytes} → Wire x v s → IsFrame x s
Wire-IsFrame x {v} {s} w = resp_frame_len-parse x s v (length s) (Wire-parse x w)

pub convert_raw-Wire :
    (py : Python) (x : External) (decode : Bool) {v : RespValue} {s : Bytes}
    → Wire x v s
    → FitsValue max_parse_depth v
    → convert_raw py x decode s ≡ convert py decode v
unfolding convert_raw first
convert_raw-Wire py x decode {v} {s} w fits =
    ap first (parse_to_python-parse py x decode s (Wire-parse x w) fits)
    ∙ first-done (convert py decode v) (length s)

-- The texts of values, each within the limits of the conversion.
pub data Texts (x : External) : Values → List Bytes → Type 0 where
  none : Texts x nil []
  text :
      {v : RespValue} {vs : Values} {s : Bytes} {ts : List Bytes}
      → Wire x v s
      → FitsValue max_parse_depth v
      → Texts x vs ts
      → Texts x (cons v vs) (s ∷ ts)

pub Texts-IsFrame :
    (x : External) {vs : Values} {ts : List Bytes} → Texts x vs ts → All (IsFrame x) ts
Texts-IsFrame x none = tt
Texts-IsFrame x (text w fits more) = (Wire-IsFrame x w, Texts-IsFrame x more)

pub convert_each-Texts :
    (py : Python) (x : External) (decode : Bool) {vs : Values} {ts : List Bytes}
    → Texts x vs ts
    → convert_each py x decode ts ≡ convert_values py decode vs
unfolding convert_each convert_values convert values_to_python values_decoded
convert_each-Texts py x false none = refl
convert_each-Texts py x true none = refl
convert_each-Texts py x false (text w fits more) =
    rw (convert_raw-Wire py x false w fits, convert_each-Texts py x false more) refl
convert_each-Texts py x true (text w fits more) =
    rw (convert_raw-Wire py x true w fits, convert_each-Texts py x true more) refl
