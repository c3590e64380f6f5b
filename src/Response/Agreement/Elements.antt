-- ===== src/Response/Agreement/Elements.antt =====
-- src/response.rs: the loops over elements, in one pass and in two steps, from what the call of
-- parse_inner on each element comes to.
use pyrsedis.Prelude.{
  ℕ, zero, suc, ◌+◌, ◌-◌, ◌<◌, ◌≡◌, refl, sym, ap, subst, ◌∙◌, Bool, true, false, [], ◌∷◌, Bytes,
  drop, drop-drop, arith,
}
use pyrsedis.Outcome.Rules.{Ensures, holds, Ensures-of, Ensures-bind, Ensures-weaken}
use pyrsedis.Resp.Parser.{Parsed, parse_values, parse_pairs}
use pyrsedis.Resp.Types.{RespValue, Values, Pairs, nil, cons, end, entry, count, count_pairs}
use pyrsedis.Response.Agreement.{
  convert, convert_values, convert_pairs, convert_items, FitsValue, FitsValues, FitsPairs,
}
use pyrsedis.Response.Convert.{
  values_to_python, values_decoded, pairs_to_python, pairs_decoded, items_to_python, items_decoded,
}
use pyrsedis.Response.Fused.{Converted, build_pylist, build_dict, build_set}
use pyrsedis.Response.Python.{Python, done, ◌>>=◌, >>=-assoc, bind_ext, bind_placed}

module _ (py : Python) where
  open py use {PyAny, PyDict, PySet}

  convert_values_cons :
      (d : Bool) (v : RespValue) (vs : Values)
      → convert_values py d (cons v vs)
        ≡ (do o ← convert py d v; os ← convert_values py d vs; done (o ∷ os))
  unfolding convert convert_values values_to_python values_decoded
  convert_values_cons false v vs = refl
  convert_values_cons true v vs = refl

  convert_pairs_entry :
      (d : Bool) (dict : PyDict) (k v : RespValue) (ps : Pairs)
      → convert_pairs py d dict (entry k v ps) ≡ (do
        key ← convert py d k
        val ← convert py d v
        dict' ← py.set_item dict key val
        convert_pairs py d dict' ps)
  unfolding convert convert_pairs pairs_to_python pairs_decoded
  convert_pairs_entry false dict k v ps = refl
  convert_pairs_entry true dict k v ps = refl

  convert_items_cons :
      (d : Bool) (set : PySet) (v : RespValue) (vs : Values)
      → convert_items py d set (cons v vs)
        ≡ (do o ← convert py d v; set' ← py.add set o; convert_items py d set' vs)
  unfolding convert convert_items items_to_python items_decoded
  convert_items_cons false set v vs = refl
  convert_items_cons true set v vs = refl

  convert_nils :
      (d : Bool) (dict : PyDict) (set : PySet)
      → (convert_values py d nil ≡ done [])
        × (convert_pairs py d dict end ≡ done dict)
        × (convert_items py d set nil ≡ done set)
  unfolding convert_values convert_pairs convert_items values_to_python values_decoded
      pairs_to_python pairs_decoded items_to_python items_decoded
  convert_nils false dict set = (refl, refl, refl)
  convert_nils true dict set = (refl, refl, refl)

-- A call of parse_inner at each offset, and of parse on the part from there on.
module _ (py : Python) (buf : Bytes) (d : Bool) (k : ℕ) (inner : ℕ → Converted py)
    (rec : Bytes → Parsed)
    (agrees : (q : ℕ)
      → Ensures
          (Unit {0})
          (λ r.
            (0 < k) × FitsValue (k - 1) r.0
            → inner q ≡ (convert py d r.0 >>= λ o. done (o, q + r.1)))
          (rec (drop q buf))) where
  abbrev Placed : ℕ → ℕ → RespValue × ℕ → Type 0
  Placed q shift r =
      (0 < k) × FitsValue (k - 1) r.0 → inner q ≡ (convert py d r.0 >>= λ o. done (o, shift + r.1))

  -- The same, for an offset into a part.
  agrees_at :
      (at next : ℕ)
      → Ensures
          (Unit {0})
          (λ r.
            (0 < k) × FitsValue (k - 1) r.0
            → inner (at + next) ≡ (convert py d r.0 >>= λ o. done (o, at + (next + r.1))))
          (rec (drop next (drop at buf)))
  agrees_at at next =
      Ensures-weaken
        (subst (λ s. Ensures (Unit {0}) (Placed (at + next) (at + next)) (rec s))
          (sym (drop-drop at next buf)) (agrees (at + next)))
        (λ s. s)
        λ r h c.
          h c
          ∙ ap (λ (n : ℕ). convert py d r.0 >>= λ o. done (o, n)) {x = at + next + r.1}
              {y = at + (next + r.1)} (omega arith)

  pub values_same :
      (at many next : ℕ)
      → Ensures
          (Unit {0})
          (λ r.
            FitsValues k r.0
            → build_pylist py inner many (at + next)
              ≡ (convert_values py d r.0 >>= λ os. done (os, at + r.1)))
          (parse_values rec (drop at buf) many next)
  unfolding parse_values build_pylist FitsValue
  values_same at zero next = holds λ _. rw (convert_nils py d py.empty_dict py.empty_set).0 refl
  values_same at (suc many) next =
      Ensures-bind (agrees_at at next) (λ s. s)
        λ (val, consumed) e.
          Ensures-bind (values_same at many (next + consumed)) (λ s. s)
            λ (vals, stop) e'. holds λ (c, fits).
              bind_placed (convert py d val) _ (e c)
                (λ o. bind_placed (convert_values py d vals) _ (e' fits) (λ os. refl))
              ∙ sym (
                  ap (λ r. r >>= λ os. done (os, at + stop)) (convert_values_cons py d val vals)
                  ∙ >>=-assoc (convert py d val) _ _
                  ∙ bind_ext (convert py d val) (λ o. >>=-assoc (convert_values py d vals) _ _))

  pub pairs_same :
      (at many next : ℕ)
      → Ensures
          (Unit {0})
          (λ r.
            FitsPairs k r.0
            → (dict : py.PyDict)
            → build_dict py inner dict many (at + next)
              ≡ (convert_pairs py d dict r.0 >>= λ made. done (made, at + r.1)))
          (parse_pairs rec (drop at buf) many next)
  unfolding parse_pairs build_dict FitsValue
  pairs_same at zero next = holds λ _ dict. rw (convert_nils py d dict py.empty_set).1 refl
  pairs_same at (suc many) next =
      Ensures-bind (agrees_at at next) (λ s. s)
        λ (key, consumed_k) e.
          Ensures-bind (agrees_at at (next + consumed_k)) (λ s. s)
            λ (val, consumed_v) e'.
              Ensures-bind (pairs_same at many (next + consumed_k + consumed_v)) (λ s. s)
                λ (pairs, stop) e''. holds λ (c, c', fits) dict.
                  bind_placed (convert py d key) _ (e c) (λ a.
                    bind_placed (convert py d val) _ (e' c')
                      (λ b. bind_ext (py.set_item dict a b) (λ dict'. e'' fits dict')))
                  ∙ sym (
                      ap (λ r. r >>= λ made. done (made, at + stop))
                        (convert_pairs_entry py d dict key val pairs)
                      ∙ >>=-assoc (convert py d key) _ _
                      ∙ bind_ext (convert py d key) (λ a.
                        >>=-assoc (convert py d val) _ _
                        ∙ bind_ext (convert py d val) (λ b. >>=-assoc (py.set_item dict a b) _ _)))

  pub items_same :
      (at many next : ℕ)
      → Ensures
          (Unit {0})
          (λ r.
            FitsValues k r.0
            → (set : py.PySet)
            → build_set py inner set many (at + next)
              ≡ (convert_items py d set r.0 >>= λ made. done (made, at + r.1)))
          (parse_values rec (drop at buf) many next)
  unfolding parse_values build_set FitsValue
  items_same at zero next = holds λ _ set. rw (convert_nils py d py.empty_dict set).2 refl
  items_same at (suc many) next =
      Ensures-bind (agrees_at at next) (λ s. s)
        λ (val, consumed) e.
          Ensures-bind (items_same at many (next + consumed)) (λ s. s)
            λ (vals, stop) e'. holds λ (c, fits) set.
              bind_placed (convert py d val) _ (e c)
                (λ o. bind_ext (py.add set o) (λ set'. e' fits set'))
              ∙ sym (
                  ap (λ r. r >>= λ made. done (made, at + stop))
                    (convert_items_cons py d set val vals)
                  ∙ >>=-assoc (convert py d val) _ _
                  ∙ bind_ext (convert py d val) (λ o. >>=-assoc (py.add set o) _ _))

-- The loops run as often as the header of the value says.
module _ (rec : Bytes → Parsed) (buf : Bytes) where
  pub count_values :
      (many next : ℕ) → Ensures (Unit {0}) (λ r. count r.0 ≡ many) (parse_values rec buf many next)
  unfolding parse_values count
  count_values zero next = holds refl
  count_values (suc many) next =
      Ensures-bind (Ensures-of {P = λ _. Unit {0}} (rec (drop next buf)) (λ r h. tt)) (λ s. s)
        λ (val, consumed) _.
          Ensures-bind (count_values many (next + consumed)) (λ s. s)
            λ (vals, stop) e. holds (ap suc e)

  pub count_entries :
      (many next : ℕ)
      → Ensures (Unit {0}) (λ r. count_pairs r.0 ≡ many) (parse_pairs rec buf many next)
  unfolding parse_pairs count_pairs
  count_entries zero next = holds refl
  count_entries (suc many) next =
      Ensures-bind (Ensures-of {P = λ _. Unit {0}} (rec (drop next buf)) (λ r h. tt)) (λ s. s)
        λ (key, consumed_k) _.
          Ensures-bind
            (Ensures-of {P = λ _. Unit {0}} (rec (drop (next + consumed_k) buf)) (λ r h. tt))
            (λ s. s)
            λ (val, consumed_v) _.
              Ensures-bind (count_entries many (next + consumed_k + consumed_v)) (λ s. s)
                λ (ps, stop) e. holds (ap suc e)
