-- ===== src/Response/Agreement/Scalars.antt =====
-- src/response.rs: the types without elements, in one pass and in two steps.
use pyrsedis.Prelude.{
  ℕ, ◌+◌, ◌≤◌, ◌<◌, ◌≡◌, ◌≢◌, refl, sym, ap, subst, ◌∙◌, Bool, true, false, some, [], ◌∷◌, Bytes,
  codes, length, drop, length-drop, ltb, le→ltb, ltb→le, bytes_eq, bytes_eq_sound, Option, none,
  if◌then◌else◌, arith, pos_part, is_negative, Bool-cases, inl, inr,
}
use pyrsedis.Error.{PyrsedisError, Part}
use pyrsedis.External.{External}
use pyrsedis.Outcome.{ok, ok_or}
use pyrsedis.Outcome.Rules.{
  Ensures, holds, Ensures-of, Ensures-bind, Ensures-refuse, Ensures-if, Ensures-after,
}
use pyrsedis.Resp.Line.{byte_at}
use pyrsedis.Resp.Parser.{
  utf8, is_common, simple_text, parse_simple_string, parse_simple_error, parse_integer,
  parse_bulk_string, parse_null, boolean_of, parse_boolean, double_of, parse_double,
  parse_big_number, parse_bulk_error, verbatim_of, parse_verbatim_string, f64_infinity,
  f64_neg_infinity, f64_nan,
}
use pyrsedis.Resp.Parser.Ends.{utf8-Ends}
use pyrsedis.Resp.Types.{RespValue}
use pyrsedis.Response.Agreement.{convert, FitsValue}
use pyrsedis.Response.Agreement.Shift.{byte_at-drop, line_shift, int_shift, text_shift}
use pyrsedis.Response.Convert.{decoded, resp_to_python, resp_to_python_decoded}
use pyrsedis.Response.Fused.{
  max_bignumber_len, Converted, verbatim_text, inner_simple_string, inner_error, inner_integer,
  inner_bulk_string, inner_null, inner_boolean, inner_double, inner_big_number, inner_bulk_error,
  inner_verbatim,
}
use pyrsedis.Response.Python.{Python, done, ◌>>=◌, lift, raise_if}
use pyrsedis.Text.Utf8.{is_utf8}

pub utf8-ok :
    (part : Part) (s : Bytes) {t : Bytes} → utf8 part s ≡ ok t → (is_utf8 s ≡ true) × (t ≡ s)
unfolding utf8
utf8-ok part s h = ground arith

utf8-valid : (part : Part) (s : Bytes) → is_utf8 s ≡ true → utf8 part s ≡ ok s
unfolding utf8
utf8-valid part s h = rw h refl

common_utf8 : (s : Bytes) → is_common s ≡ true → is_utf8 s ≡ true
unfolding is_common is_utf8
common_utf8 s h = elim (Bool-cases (bytes_eq s (codes "OK"))) [
  | inl e ↦ rw (bytes_eq_sound s (codes "OK") e) refl
  | inr n ↦ elim (Bool-cases (bytes_eq s (codes "PONG"))) [
    | inl e ↦ rw (bytes_eq_sound s (codes "PONG") e) refl
    | inr n' ↦ rw (bytes_eq_sound s (codes "QUEUED") (rw (n, n') at h)) refl
  ]
]

simple_text-utf8 : (s : Bytes) {t : Bytes} → simple_text s ≡ ok t → utf8 Part.simple_string s ≡ ok t
unfolding simple_text
simple_text-utf8 s {t} h = elim (Bool-cases (is_common s)) [
  | inl e ↦ utf8-valid Part.simple_string s (common_utf8 s e) ∙ rw (simple_text, e) at h
  | inr n ↦ rw (simple_text, n) at h
]

boolean_of_byte : (s : Bytes) {b : Bool} → boolean_of s ≡ ok b → byte_at s 1 b't' ≡ b
unfolding boolean_of
boolean_of_byte s h = ground arith

ok_or-ok {ℓ} :
    {A : Type ℓ} (o : Option A) (e : PyrsedisError) {a : A} → ok_or o e ≡ ok a → o ≡ some a
unfolding ok_or
ok_or-ok none e h = cc
ok_or-ok (some a) e h = cc

double_of_parse : (x : External) (s : Bytes) {d : ℕ} → double_of x s ≡ ok d → x.parse_f64 s ≡ some d
unfolding double_of
double_of_parse x s {d} h = elim (Bool-cases (bytes_eq s (codes "inf"))) [
  | inl e ↦
      let h' : ok f64_infinity ≡ ok d = rw (double_of, e) at h in
      ap x.parse_f64 (bytes_eq_sound s (codes "inf") e) ∙ x.parse_f64-inf ∙ cc
  | inr n ↦ elim (Bool-cases (bytes_eq s (codes "-inf"))) [
    | inl e ↦
        let h' : ok f64_neg_infinity ≡ ok d = rw (double_of, n, e) at h in
        ap x.parse_f64 (bytes_eq_sound s (codes "-inf") e) ∙ x.parse_f64-neg_inf ∙ cc
    | inr n' ↦ elim (Bool-cases (bytes_eq s (codes "nan"))) [
      | inl e ↦
          let h' : ok f64_nan ≡ ok d = rw (double_of, n, n', e) at h in
          ap x.parse_f64 (bytes_eq_sound s (codes "nan") e) ∙ x.parse_f64-nan ∙ cc
      | inr n'' ↦ ok_or-ok (x.parse_f64 s) _ (rw (double_of, n, n', n'') at h)
    ]
  ]
]

empty_of_length : (s : Bytes) → length s ≤ 0 → s ≡ []
empty_of_length [] h = refl
empty_of_length (c ∷ s) h = absurd (omega arith)

-- What is behind a prefix that verbatim_of takes.
verbatim_shape :
    (len : ℕ) (content : Bytes)
    → Ensures
        (Unit {0})
        (λ v.
          (encoding : Bytes) × (v ≡ RespValue.verbatim_string encoding (drop 4 content))
          × (is_utf8 (drop 4 content) ≡ true)
          × (byte_at content 3 b':' ≡ true))
        (verbatim_of len content)
unfolding verbatim_of
verbatim_shape len content = Ensures-refuse _ _ λ taken.
    Ensures-after (utf8-Ends Part.encoding _) λ encoding.
      Ensures-bind
        (Ensures-of (utf8 Part.verbatim (drop 4 content))
          λ t h. utf8-ok Part.verbatim (drop 4 content) {t = t} h)
        (λ s. s)
        λ s (valid, same).
          holds (encoding, ap (RespValue.verbatim_string encoding) same, valid, ground arith)

verbatim_text_lem :
    (content : Bytes)
    → drop 4 content ≢ []
    → byte_at content 3 b':' ≡ true
    → verbatim_text content ≡ drop 4 content
unfolding verbatim_text
verbatim_text_lem content ne mark =
    let longer : ltb 4 (length content) ≡ true = elim (Bool-cases (ltb 4 (length content))) [
      | inl h ↦ h
      | inr h ↦ absurd (
          ne (
            empty_of_length (drop 4 content)
              (omega (arith, ltb→le 4 (length content) h, length-drop 4 content))))
    ] in
    rw (longer, mark) refl

abbrev IsOther : RespValue → Type 0
IsOther (RespValue.bulk_string b) = ⊥
IsOther (RespValue.array vs) = ⊥
IsOther (RespValue.map ps) = ⊥
IsOther (RespValue.set vs) = ⊥
IsOther (RespValue.push kind vs) = ⊥
IsOther (RespValue.attribute v ps) = ⊥
IsOther _ = Unit

-- Both converters agree on the types without elements, but for bulk strings.
pub convert_other :
    (py : Python) (d : Bool) (v : RespValue) → IsOther v → convert py d v ≡ resp_to_python py v
unfolding convert resp_to_python_decoded
convert_other py false v h = refl
convert_other py true (RespValue.bulk_string b) h = elim h [ ]
convert_other py true (RespValue.array vs) h = elim h [ ]
convert_other py true (RespValue.map ps) h = elim h [ ]
convert_other py true (RespValue.set vs) h = elim h [ ]
convert_other py true (RespValue.push kind vs) h = elim h [ ]
convert_other py true (RespValue.attribute v ps) h = elim h [ ]
convert_other py true (RespValue.simple_string s) h = refl
convert_other py true (RespValue.error s) h = refl
convert_other py true (RespValue.integer i) h = refl
convert_other py true RespValue.null h = refl
convert_other py true (RespValue.double f) h = refl
convert_other py true (RespValue.boolean b) h = refl
convert_other py true (RespValue.verbatim_string encoding s) h = refl
convert_other py true (RespValue.big_number s) h = refl
convert_other py true (RespValue.bulk_error s) h = refl

convert_bulk :
    (py : Python) (d : Bool) (b : Bytes)
    → convert py d (RespValue.bulk_string b) ≡ done (if d then decoded py b else py.bytes b)
unfolding convert resp_to_python resp_to_python_decoded
convert_bulk py false b = refl
convert_bulk py true b = refl

module _ (py : Python) (x : External) (buf : Bytes) (d : Bool) (k at : ℕ) where
  -- One pass from an offset on comes to what the conversion of the value does, and stops behind it.
  abbrev pub Same : Converted py → RespValue × ℕ → Type 0
  Same m r = FitsValue k r.0 → m ≡ (convert py d r.0 >>= λ o. done (o, at + r.1))

  abbrev Sub : Bytes
  Sub = drop at buf

  room_shift :
      (n : ℕ) → 0 < n → ltb (length (drop at buf)) n ≡ false → ltb (length buf) (at + n) ≡ false
  room_shift n p h =
      le→ltb (length buf) (at + n)
        (omega (arith, ltb→le (length (drop at buf)) n h, length-drop at buf))

  pub simple_string-Same :
      Ensures (Unit {0}) (Same (inner_simple_string py x buf d at)) (parse_simple_string x Sub)
  unfolding parse_simple_string inner_simple_string resp_to_python lift
  simple_string-Same =
      Ensures-bind (line_shift buf at x) (λ s. s)
        λ (line, next) e.
          Ensures-bind (Ensures-of (simple_text line) λ s h. simple_text-utf8 line {t = s} h)
            (λ s. s)
            λ s p. holds λ _. rw (e, p, convert_other py d (RespValue.simple_string s) tt) refl

  pub error-Same : Ensures (Unit {0}) (Same (inner_error py x buf d at)) (parse_simple_error x Sub)
  unfolding parse_simple_error inner_error resp_to_python lift
  error-Same =
      Ensures-bind (line_shift buf at x) (λ s. s)
        λ (line, next) e.
          Ensures-bind
            (Ensures-of (utf8 Part.simple_error line)
              λ s h. utf8-ok Part.simple_error line {t = s} h)
            (λ s. s)
            λ s (valid, same). holds λ _.
              rw (e, convert_other py d (RespValue.error s) tt, same, x.utf8_lossy-utf8 line valid)
                refl

  pub integer-Same : Ensures (Unit {0}) (Same (inner_integer py x buf d at)) (parse_integer x Sub)
  unfolding parse_integer inner_integer resp_to_python lift
  integer-Same =
      Ensures-bind (int_shift buf at x) (λ s. s)
        λ (n, next) e. holds λ _. rw (e, convert_other py d (RespValue.integer n) tt) refl

  pub null-Same : Ensures (Unit {0}) (Same (inner_null py x buf d at)) (parse_null Sub)
  unfolding parse_null inner_null resp_to_python raise_if
  null-Same = Ensures-refuse _ _ λ enough. Ensures-refuse _ _ λ _.
      holds λ _. rw (room_shift 3 (omega arith) enough, convert_other py d RespValue.null tt) refl

  pub boolean-Same : Ensures (Unit {0}) (Same (inner_boolean py x buf d at)) (parse_boolean Sub)
  unfolding parse_boolean inner_boolean resp_to_python raise_if
  boolean-Same = Ensures-refuse _ _ λ enough.
      Ensures-bind (Ensures-of (boolean_of Sub) λ b h. boolean_of_byte Sub {b = b} h) (λ s. s)
        λ b p. Ensures-refuse _ _ λ _. holds λ _.
          rw
            (
              room_shift 4 (omega arith) enough,
              convert_other py d (RespValue.boolean b) tt,
              sym (byte_at-drop buf at 1 b't'),
              p,
            )
            refl

  pub double-Same : Ensures (Unit {0}) (Same (inner_double py x buf d at)) (parse_double x Sub)
  unfolding parse_double inner_double resp_to_python lift ok_or
  double-Same =
      Ensures-bind (line_shift buf at x) (λ s. s)
        λ (line, next) e.
          Ensures-bind (Ensures-of (utf8 Part.double line) λ s h. h) (λ s. s)
            λ s p.
              Ensures-bind (Ensures-of (double_of x s) λ f h. double_of_parse x s {d = f} h)
                (λ s. s)
                λ f q. holds λ _. rw (e, p, q, convert_other py d (RespValue.double f) tt) refl

  pub bulk_string-Same :
      Ensures (Unit {0}) (Same (inner_bulk_string py x buf d at)) (parse_bulk_string x Sub)
  unfolding parse_bulk_string inner_bulk_string resp_to_python lift
  bulk_string-Same =
      Ensures-bind (int_shift buf at x) (λ s. s)
        λ (len, next) e.
          Ensures-if (is_negative len)
            (λ low. holds λ _. rw (e, low, convert_other py d RespValue.null tt) refl)
            (λ high.
              Ensures-bind (text_shift buf at Part.bulk_string next (pos_part len)) (λ s. s)
                λ text (stop, same).
                  holds λ _. rw (e, high, stop, same, convert_bulk py d text) refl)

  pub big_number-Same :
      Ensures (Unit {0}) (Same (inner_big_number py x buf d at)) (parse_big_number x Sub)
  unfolding parse_big_number inner_big_number resp_to_python lift raise_if FitsValue
  big_number-Same =
      Ensures-bind (line_shift buf at x) (λ s. s)
        λ (line, next) e.
          Ensures-bind
            (Ensures-of (utf8 Part.big_number line) λ s h. utf8-ok Part.big_number line {t = s} h)
            (λ s. s)
            λ s (valid, same). Ensures-refuse _ _ λ _. holds λ fits.
              let short : ltb max_bignumber_len (length line) ≡ false =
                le→ltb max_bignumber_len (length line)
                  (subst (λ t. length t ≤ max_bignumber_len) same fits) in
              rw
                (
                  e,
                  short,
                  utf8-valid Part.big_number line valid,
                  convert_other py d (RespValue.big_number s) tt,
                  same,
                )
                refl

  pub bulk_error-Same :
      Ensures (Unit {0}) (Same (inner_bulk_error py x buf d at)) (parse_bulk_error x Sub)
  unfolding parse_bulk_error inner_bulk_error resp_to_python lift raise_if
  bulk_error-Same =
      Ensures-bind (int_shift buf at x) (λ s. s)
        λ (len, next) e. Ensures-refuse _ _ λ high.
          Ensures-bind (text_shift buf at Part.bulk_error next (pos_part len)) (λ s. s)
            λ text (stop, same).
              Ensures-bind
                (Ensures-of (utf8 Part.bulk_error text)
                  λ s h. utf8-ok Part.bulk_error text {t = s} h)
                (λ s. s)
                λ s (valid, kept). holds λ _.
                  rw
                    (
                      e,
                      high,
                      stop,
                      same,
                      x.utf8_lossy-utf8 text valid,
                      convert_other py d (RespValue.bulk_error s) tt,
                      kept,
                    )
                    refl

  pub verbatim-Same :
      Ensures (Unit {0}) (Same (inner_verbatim py x buf d at)) (parse_verbatim_string x Sub)
  unfolding parse_verbatim_string inner_verbatim resp_to_python lift raise_if FitsValue
  verbatim-Same =
      Ensures-bind (int_shift buf at x) (λ s. s)
        λ (len, next) e. Ensures-refuse (is_negative len) _ λ high.
          Ensures-bind (text_shift buf at Part.verbatim next (pos_part len)) (λ s. s)
            λ content (stop, same).
              Ensures-bind (verbatim_shape (pos_part len) content) (λ s. s)
                λ v (encoding, shape, valid, mark). holds (
                  subst (λ w. Same (inner_verbatim py x buf d at) (w, next + pos_part len + 2))
                    (sym shape)
                    λ ne.
                      rw
                        (
                          e,
                          high,
                          stop,
                          same,
                          verbatim_text_lem content ne mark,
                          utf8-valid Part.verbatim (drop 4 content) valid,
                          convert_other py d (RespValue.verbatim_string encoding (drop 4 content))
                              tt,
                        )
                        refl)
