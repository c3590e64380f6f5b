-- ===== src/Response/Agreement/Aggregates.antt =====
-- src/response.rs: the types with elements, in one pass and in two steps.
use pyrsedis.Prelude.{
  ℕ, ◌+◌, ◌-◌, ◌≤◌, ◌<◌, ◌≡◌, refl, sym, ap, subst, ◌∙◌, Bool, true, false, Bytes, drop, le→ltb, ℤ,
  pos_part, is_negative,
}
use pyrsedis.External.{External}
use pyrsedis.Outcome.Rules.{
  Ensures, holds, fails, Ensures-bind, Ensures-refuse, Ensures-if, Ensures-after, Ensures-both,
  Ensures-of,
}
use pyrsedis.Resp.Parser.{
  Parsed, parse_values, parse_array, parse_map, parse_set, parse_push, parse_attribute,
  parse_push_items, parse_tag, parse_pairs,
}
use pyrsedis.Resp.Parser.Ends.{with_capacity-Ends, kind_of-Ends}
use pyrsedis.Resp.Tag.{Tag}
use pyrsedis.Resp.Types.{RespValue, Values, Pairs, count, count_pairs}
use pyrsedis.Response.Agreement.{convert, convert_values, convert_pairs, convert_items, FitsValue}
use pyrsedis.Response.Agreement.Elements.{
  values_same, pairs_same, items_same, count_values, count_entries,
}
use pyrsedis.Response.Agreement.Scalars.{
  Same, convert_other, simple_string-Same, error-Same, integer-Same, null-Same, boolean-Same,
  double-Same, bulk_string-Same, big_number-Same, bulk_error-Same, verbatim-Same,
}
use pyrsedis.Response.Agreement.Shift.{int_shift}
use pyrsedis.Response.Convert.{resp_to_python, resp_to_python_decoded}
use pyrsedis.Response.Fused.{
  max_resp_elements, Converted, validated_count, inner_list, inner_array, inner_map, inner_set,
  inner_tag,
}
use pyrsedis.Response.Python.{Python, done, ◌>>=◌, >>=-assoc, bind_placed, lift, raise_if}

module _ (py : Python) where
  convert_array :
      (d : Bool) (vs : Values)
      → convert py d (RespValue.array vs) ≡ (do os ← convert_values py d vs; done (py.list os))
  unfolding convert convert_values resp_to_python resp_to_python_decoded
  convert_array false vs = refl
  convert_array true vs = refl

  convert_map :
      (d : Bool) (ps : Pairs)
      → convert py d (RespValue.map ps)
        ≡ (do dict ← convert_pairs py d py.empty_dict ps; done (py.dict dict))
  unfolding convert convert_pairs resp_to_python resp_to_python_decoded
  convert_map false ps = refl
  convert_map true ps = refl

  convert_set :
      (d : Bool) (vs : Values)
      → convert py d (RespValue.set vs)
        ≡ (do set ← convert_items py d py.empty_set vs; done (py.set set))
  unfolding convert convert_items resp_to_python resp_to_python_decoded
  convert_set false vs = refl
  convert_set true vs = refl

validated_count_lem :
    (n : ℤ) (c : ℕ)
    → is_negative n ≡ false
    → c ≡ pos_part n
    → c ≤ max_resp_elements
    → validated_count n ≡ done (pos_part n)
unfolding validated_count raise_if
validated_count_lem n c high e small =
    rw (high, le→ltb max_resp_elements (pos_part n) (subst (λ t. t ≤ max_resp_elements) e small))
      refl

-- The aggregates, where the call for each element agrees with parse and the conversion.
module _ (py : Python) (x : External) (buf : Bytes) (d : Bool) (k at : ℕ) (inner : ℕ → Converted py)
    (rec : Bytes → Parsed)
    (agrees : (q : ℕ)
      → Ensures
          (Unit {0})
          (λ r.
            (0 < k) × FitsValue (k - 1) r.0
            → inner q ≡ (convert py d r.0 >>= λ o. done (o, q + r.1)))
          (rec (drop q buf))) where
  pub array-Same :
      Ensures
        (Unit {0})
        (Same py x buf d k at (inner_array py x buf d inner at))
        (parse_array x rec (drop at buf))
  unfolding parse_array inner_array inner_list lift FitsValue
  array-Same =
      Ensures-bind (int_shift buf at x) (λ s. s)
        λ (n, next) e.
          Ensures-if (is_negative n)
            (λ low.
              holds λ _.
                unfold resp_to_python in rw (e, low, convert_other py d RespValue.null tt) refl)
            (λ high. Ensures-after (with_capacity-Ends (pos_part n) x.value_size) λ _.
              Ensures-bind
                (Ensures-both (values_same py buf d k inner rec agrees at (pos_part n) next)
                  (count_values rec (drop at buf) (pos_part n) next))
                (λ s. s)
                λ (vs, stop) (same, many). holds λ (small, fits).
                  rw (e, high, validated_count_lem n (count vs) high many small)
                    (bind_placed (convert_values py d vs) _ (same fits) (λ os. refl)
                      ∙ sym (
                          ap (λ r. r >>= λ o. done (o, at + stop)) (convert_array py d vs)
                          ∙ >>=-assoc (convert_values py d vs) _ _)))

  pub map-Same :
      Ensures
        (Unit {0})
        (Same py x buf d k at (inner_map py x buf d inner at))
        (parse_map x rec (drop at buf))
  unfolding parse_map inner_map lift FitsValue
  map-Same =
      Ensures-bind (int_shift buf at x) (λ s. s)
        λ (n, next) e. Ensures-refuse (is_negative n) _ λ high.
          Ensures-after (with_capacity-Ends (pos_part n) _) λ _.
            Ensures-bind
              (Ensures-both (pairs_same py buf d k inner rec agrees at (pos_part n) next)
                (count_entries rec (drop at buf) (pos_part n) next))
              (λ s. s)
              λ (ps, stop) (same, many). holds λ (small, fits).
                rw (e, validated_count_lem n (count_pairs ps) high many small)
                  (bind_placed (convert_pairs py d py.empty_dict ps) _ (same fits py.empty_dict)
                      (λ made. refl)
                    ∙ sym (
                        ap (λ r. r >>= λ o. done (o, at + stop)) (convert_map py d ps)
                        ∙ >>=-assoc (convert_pairs py d py.empty_dict ps) _ _))

  pub set-Same :
      Ensures
        (Unit {0})
        (Same py x buf d k at (inner_set py x buf d inner at))
        (parse_set x rec (drop at buf))
  unfolding parse_set inner_set lift FitsValue
  set-Same =
      Ensures-bind (int_shift buf at x) (λ s. s)
        λ (n, next) e. Ensures-refuse (is_negative n) _ λ high.
          Ensures-after (with_capacity-Ends (pos_part n) x.value_size) λ _.
            Ensures-bind
              (Ensures-both (items_same py buf d k inner rec agrees at (pos_part n) next)
                (count_values rec (drop at buf) (pos_part n) next))
              (λ s. s)
              λ (vs, stop) (same, many). holds λ (small, fits).
                rw (e, validated_count_lem n (count vs) high many small)
                  (bind_placed (convert_items py d py.empty_set vs) _ (same fits py.empty_set)
                      (λ made. refl)
                    ∙ sym (
                        ap (λ r. r >>= λ o. done (o, at + stop)) (convert_set py d vs)
                        ∙ >>=-assoc (convert_items py d py.empty_set vs) _ _))

  -- Push messages and attributes are not compared.
  push-Same :
      (m : Converted py)
      → Ensures (Unit {0}) (Same py x buf d k at m) (parse_push x rec (drop at buf))
  unfolding parse_push parse_push_items FitsValue
  push-Same m =
      Ensures-bind (int_shift buf at x) (λ s. s)
        λ (n, next) e. Ensures-refuse _ _ λ _. Ensures-refuse _ _ λ _.
          Ensures-bind (Ensures-of {P = λ _. Unit {0}} (rec _) (λ r h. tt)) (λ s. s)
            λ (kind_val, c) _. Ensures-after (kind_of-Ends kind_val) λ kind.
              Ensures-after (with_capacity-Ends _ x.value_size) λ _.
                Ensures-bind
                  (Ensures-of {P = λ _. Unit {0}} (parse_values rec (drop at buf) _ _) (λ r h. tt))
                  (λ s. s) λ r _. holds λ never. absurd never

  attribute-Same :
      (m : Converted py)
      → Ensures (Unit {0}) (Same py x buf d k at m) (parse_attribute x rec (drop at buf))
  unfolding parse_attribute FitsValue
  attribute-Same m =
      Ensures-bind (int_shift buf at x) (λ s. s)
        λ (n, next) e. Ensures-refuse _ _ λ _.
          Ensures-after (with_capacity-Ends (pos_part n) _) λ _.
            Ensures-bind
              (Ensures-of {P = λ _. Unit {0}} (parse_pairs rec (drop at buf) (pos_part n) next)
                (λ r h. tt))
              (λ s. s)
              λ (ps, stop) _.
                Ensures-bind (Ensures-of {P = λ _. Unit {0}} (rec _) (λ r h. tt)) (λ s. s)
                  λ r _. holds λ never. absurd never

  -- Every type.
  pub tag-Same :
      (t : Tag)
      → Ensures
          (Unit {0})
          (Same py x buf d k at (inner_tag py x buf d inner at t))
          (parse_tag x rec (drop at buf) t)
  unfolding parse_tag inner_tag
  tag-Same Tag.plus = simple_string-Same py x buf d k at
  tag-Same Tag.minus = error-Same py x buf d k at
  tag-Same Tag.colon = integer-Same py x buf d k at
  tag-Same Tag.dollar = bulk_string-Same py x buf d k at
  tag-Same Tag.star = array-Same
  tag-Same Tag.underscore = null-Same py x buf d k at
  tag-Same Tag.hash = boolean-Same py x buf d k at
  tag-Same Tag.comma = double-Same py x buf d k at
  tag-Same Tag.paren = big_number-Same py x buf d k at
  tag-Same Tag.bang = bulk_error-Same py x buf d k at
  tag-Same Tag.equals = verbatim-Same py x buf d k at
  tag-Same Tag.percent = map-Same
  tag-Same Tag.tilde = set-Same
  tag-Same Tag.greater = push-Same _
  tag-Same Tag.bar = attribute-Same _
  tag-Same (Tag.unknown other) = fails
