-- ===== src/Resp/Grammar/Aggregate.antt =====
-- The parser on written values that hold other values, from what the call of `parse` returns on those.
use pyrsedis.Prelude.{
  ℕ, suc, ◌+◌, ◌-◌, ◌*◌, ◌≡◌, refl, sym, ap, subst, ◌∙◌, false, [], ◌++◌, append_assoc, Bytes,
  length, length-append, drop, drop-append_length, lt→ltb, ◌==◌, arith, pos, i64_limit,
}
use pyrsedis.Error.{Part}
use pyrsedis.External.{External}
use pyrsedis.Outcome.{ok, refuse}
use pyrsedis.Resp.Grammar.{line, Decimal, Kind, CanHold}
use pyrsedis.Resp.Grammar.Inline.{utf8-ok}
use pyrsedis.Resp.Grammar.Numbers.{line-append, length-line, read_int-line}
use pyrsedis.Resp.Parser.{
  Parsed, with_capacity, kind_of, parse_values, parse_pairs, parse_array, parse_map, parse_set,
  parse_push, parse_push_items, parse_attribute,
}
use pyrsedis.Resp.Types.{RespValue, Values, Pairs, cons, entry, count, count_pairs}

with_capacity-ok : (n size : ℕ) → CanHold n size → with_capacity n size ≡ ok tt
unfolding with_capacity
with_capacity-ok n size h = rw (lt→ltb (n * size) i64_limit h)

kind_of-written : {v : RespValue} {s : Bytes} → Kind v s → kind_of v ≡ ok s
unfolding kind_of
kind_of-written Kind.simple = refl
kind_of-written (Kind.bulk {s} u) = utf8-ok Part.push_kind s u

skip_two : (front s rest : Bytes) → drop (length front + length s) (front ++ (s ++ rest)) ≡ rest
skip_two front s rest =
    rw (← append_assoc front s rest, ← length-append front s) (drop-append_length (front ++ s) rest)

drop_front :
    {n : ℕ} {buf : Bytes} (front rest : Bytes)
    → length front ≡ n
    → front ++ rest ≡ buf
    → drop n buf ≡ rest
drop_front {n} {buf} front rest size whole =
    subst (λ b. drop n b ≡ rest) whole
      (subst (λ m. drop m (front ++ rest) ≡ rest) size (drop-append_length front rest))

skip_one : (mark : ℕ) (t rest : Bytes) → drop (length t + 3) (line mark t rest) ≡ rest
skip_one mark t rest =
    drop_front (line mark t []) rest (omega (arith, length-line mark t []))
      (line-append mark t [] rest)

skip_line :
    (mark : ℕ) (t s rest : Bytes) → drop (length t + 3 + length s) (line mark t (s ++ rest)) ≡ rest
skip_line mark t s rest =
    drop_front (line mark t s) rest (length-line mark t s) (line-append mark t s rest)

module _ (rec : Bytes → Parsed) where
  next_value :
      (buf : Bytes) (at n len : ℕ) (v : RespValue) (vs : Values) (stop : ℕ)
      → rec (drop at buf) ≡ ok (v, len)
      → parse_values rec buf n (at + len) ≡ ok (vs, stop)
      → parse_values rec buf (suc n) at ≡ ok (cons v vs, stop)
  unfolding parse_values
  next_value buf at n len v vs stop first later = rw (first, later)

  next_pair :
      (buf : Bytes) (at n len_k len_v : ℕ) (k v : RespValue) (ps : Pairs) (stop : ℕ)
      → rec (drop at buf) ≡ ok (k, len_k)
      → rec (drop (at + len_k) buf) ≡ ok (v, len_v)
      → parse_pairs rec buf n (at + len_k + len_v) ≡ ok (ps, stop)
      → parse_pairs rec buf (suc n) at ≡ ok (entry k v ps, stop)
  unfolding parse_pairs
  next_pair buf at n len_k len_v k v ps stop first second later = rw (first, second, later)

  pub values_step :
      (front s r rest : Bytes) (v : RespValue) (vs : Values)
      → rec (s ++ (r ++ rest)) ≡ ok (v, length s)
      → parse_values rec ((front ++ s) ++ (r ++ rest)) (count vs) (length (front ++ s))
        ≡ ok (vs, length (front ++ s) + length r)
      → parse_values rec (front ++ ((s ++ r) ++ rest)) (suc (count vs)) (length front)
        ≡ ok (cons v vs, length front + length (s ++ r))
  values_step front s r rest v vs first later = rw (flat) at (
      next_value buf (length front) (count vs) (length s) v vs _
        (rw (drop-append_length front) first) behind)
    where
      buf : Bytes
      buf = front ++ (s ++ (r ++ rest))

      flat : buf ≡ front ++ ((s ++ r) ++ rest)
      flat = ap (λ z. front ++ z) (sym (append_assoc s r rest))

      whole : length (front ++ s) + length r ≡ length front + length (s ++ r)
      whole = omega (arith, length-append s r, length-append front s)

      behind :
          parse_values rec buf (count vs) (length front + length s)
          ≡ ok (vs, length front + length (s ++ r))
      behind = rw (whole, append_assoc front s (r ++ rest), length-append front s) at later

  pub pairs_step :
      (front s r q rest : Bytes) (k v : RespValue) (ps : Pairs)
      → rec (s ++ (r ++ (q ++ rest))) ≡ ok (k, length s)
      → rec (r ++ (q ++ rest)) ≡ ok (v, length r)
      → parse_pairs rec
          (((front ++ s) ++ r) ++ (q ++ rest))
          (count_pairs ps)
          (length ((front ++ s) ++ r))
        ≡ ok (ps, length ((front ++ s) ++ r) + length q)
      → parse_pairs rec (front ++ ((s ++ r ++ q) ++ rest)) (suc (count_pairs ps)) (length front)
        ≡ ok (entry k v ps, length front + length (s ++ r ++ q))
  pairs_step front s r q rest k v ps first second later = rw (flat) at (
      next_pair buf (length front) (count_pairs ps) (length s) (length r) k v ps _
        (rw (drop-append_length front) first) (rw (skip_two front s (r ++ (q ++ rest))) second)
        behind)
    where
      buf : Bytes
      buf = front ++ (s ++ (r ++ (q ++ rest)))

      flat : buf ≡ front ++ ((s ++ r ++ q) ++ rest)
      flat =
          ap (λ z. front ++ z) (sym (append_assoc (s ++ r) q rest ∙ append_assoc s r (q ++ rest)))

      whole : length ((front ++ s) ++ r) + length q ≡ length front + length (s ++ r ++ q)
      whole = omega (
        arith,
        length-append (s ++ r) q,
        length-append s r,
        length-append (front ++ s) r,
        length-append front s,
      )

      behind :
          parse_pairs rec buf (count_pairs ps) (length front + length s + length r)
          ≡ ok (ps, length front + length (s ++ r ++ q))
      behind =
          rw
            (
              whole,
              append_assoc (front ++ s) r (q ++ rest),
              append_assoc front s (r ++ (q ++ rest)),
              length-append (front ++ s) r,
              length-append front s,
            )
            at later

  -- The elements behind the line of a count.
  values_line :
      (mark : ℕ) (t s rest : Bytes) (vs : Values)
      → ((front : Bytes)
          → parse_values rec (front ++ (s ++ rest)) (count vs) (length front)
            ≡ ok (vs, length front + length s))
      → parse_values rec (line mark t (s ++ rest)) (count vs) (length t + 3)
        ≡ ok (vs, length t + 3 + length s)
  values_line mark t s rest vs h =
      rw (line-append mark t [] (s ++ rest), width) at (h (line mark t []))
    where
      width : length (line mark t []) ≡ length t + 3
      width = omega (arith, length-line mark t [])

  pairs_line :
      (mark : ℕ) (t s rest : Bytes) (ps : Pairs)
      → ((front : Bytes)
          → parse_pairs rec (front ++ (s ++ rest)) (count_pairs ps) (length front)
            ≡ ok (ps, length front + length s))
      → parse_pairs rec (line mark t (s ++ rest)) (count_pairs ps) (length t + 3)
        ≡ ok (ps, length t + 3 + length s)
  pairs_line mark t s rest ps h =
      rw (line-append mark t [] (s ++ rest), width) at (h (line mark t []))
    where
      width : length (line mark t []) ≡ length t + 3
      width = omega (arith, length-line mark t [])

module _ (x : External) (rec : Bytes → Parsed) where
  -- What the loops return on the elements `s` of a vector, wherever they stand.
  abbrev pub ReadsValues : Values → Bytes → Bytes → Type 0
  ReadsValues vs s rest =
      (front : Bytes)
      → parse_values rec (front ++ (s ++ rest)) (count vs) (length front)
        ≡ ok (vs, length front + length s)

  abbrev pub ReadsPairs : Pairs → Bytes → Bytes → Type 0
  ReadsPairs ps s rest =
      (front : Bytes)
      → parse_pairs rec (front ++ (s ++ rest)) (count_pairs ps) (length front)
        ≡ ok (ps, length front + length s)

  pub array-written :
      {vs : Values} (s rest : Bytes) {t : Bytes}
      → Decimal (pos (count vs)) t
      → CanHold (count vs) x.value_size
      → ReadsValues vs s rest
      → parse_array x rec (line b'*' t (s ++ rest))
        ≡ ok (RespValue.array vs, length t + 3 + length s)
  unfolding parse_array
  array-written {vs} s rest {t} d room h = rw (
    read_int-line x b'*' (s ++ rest) d,
    with_capacity-ok (count vs) x.value_size room,
    values_line rec b'*' t s rest vs h,
  )

  pub set-written :
      {vs : Values} (s rest : Bytes) {t : Bytes}
      → Decimal (pos (count vs)) t
      → CanHold (count vs) x.value_size
      → ReadsValues vs s rest
      → parse_set x rec (line b'~' t (s ++ rest)) ≡ ok (RespValue.set vs, length t + 3 + length s)
  unfolding parse_set refuse
  set-written {vs} s rest {t} d room h = rw (
    read_int-line x b'~' (s ++ rest) d,
    with_capacity-ok (count vs) x.value_size room,
    values_line rec b'~' t s rest vs h,
  )

  pub map-written :
      {ps : Pairs} (s rest : Bytes) {t : Bytes}
      → Decimal (pos (count_pairs ps)) t
      → CanHold (count_pairs ps) (2 * x.value_size)
      → ReadsPairs ps s rest
      → parse_map x rec (line b'%' t (s ++ rest)) ≡ ok (RespValue.map ps, length t + 3 + length s)
  unfolding parse_map refuse
  map-written {ps} s rest {t} d room h = rw (
    read_int-line x b'%' (s ++ rest) d,
    with_capacity-ok (count_pairs ps) (2 * x.value_size) room,
    pairs_line rec b'%' t s rest ps h,
  )

  attribute_flat :
      {ps : Pairs} {v : RespValue} (s r rest : Bytes) {t : Bytes}
      → Decimal (pos (count_pairs ps)) t
      → CanHold (count_pairs ps) (2 * x.value_size)
      → ReadsPairs ps s (r ++ rest)
      → rec (r ++ rest) ≡ ok (v, length r)
      → parse_attribute x rec (line b'|' t (s ++ (r ++ rest)))
        ≡ ok (RespValue.attribute v ps, length t + 3 + length s + length r)
  unfolding parse_attribute refuse
  attribute_flat {ps} s r rest {t} d room h last = rw (
    read_int-line x b'|' (s ++ (r ++ rest)) d,
    with_capacity-ok (count_pairs ps) (2 * x.value_size) room,
    pairs_line rec b'|' t s (r ++ rest) ps h,
    skip_line b'|' t s (r ++ rest),
    last,
  )

  pub attribute-written :
      {ps : Pairs} {v : RespValue} (s r rest : Bytes) {t : Bytes}
      → Decimal (pos (count_pairs ps)) t
      → CanHold (count_pairs ps) (2 * x.value_size)
      → ReadsPairs ps s (r ++ rest)
      → rec (r ++ rest) ≡ ok (v, length r)
      → parse_attribute x rec (line b'|' t ((s ++ r) ++ rest))
        ≡ ok (RespValue.attribute v ps, length t + 3 + length (s ++ r))
  attribute-written {ps} {v} s r rest {t} d room h last =
      let whole : length t + 3 + length s + length r ≡ length t + 3 + length (s ++ r) =
        omega (arith, length-append s r) in
      rw (← append_assoc s r rest, whole) at (attribute_flat s r rest d room h last)

  push_flat :
      {v : RespValue} {vs : Values} {kind : Bytes} (s r rest t : Bytes)
      → CanHold (count vs) x.value_size
      → Kind v kind
      → rec (s ++ (r ++ rest)) ≡ ok (v, length s)
      → ReadsValues vs r rest
      → parse_push_items x rec (line b'>' t (s ++ (r ++ rest))) (count vs) (length t + 3)
        ≡ ok (RespValue.push kind vs, length t + 3 + length s + length r)
  unfolding parse_push_items
  push_flat {v} {vs} {kind} s r rest t room k first h = rw (
    skip_one b'>' t (s ++ (r ++ rest)),
    first,
    kind_of-written k,
    with_capacity-ok (count vs) x.value_size room,
    behind,
  )
    where
      front : Bytes
      front = line b'>' t s

      width : length front ≡ length t + 3 + length s
      width = length-line b'>' t s

      behind :
          parse_values rec (line b'>' t (s ++ (r ++ rest))) (count vs) (length t + 3 + length s)
          ≡ ok (vs, length t + 3 + length s + length r)
      behind = rw (line-append b'>' t s (r ++ rest), width) at (h front)

  pub push-written :
      {v : RespValue} {vs : Values} {kind : Bytes} (s r rest : Bytes) {t : Bytes}
      → Decimal (pos (suc (count vs))) t
      → CanHold (count vs) x.value_size
      → Kind v kind
      → rec (s ++ (r ++ rest)) ≡ ok (v, length s)
      → ReadsValues vs r rest
      → parse_push x rec (line b'>' t ((s ++ r) ++ rest))
        ≡ ok (RespValue.push kind vs, length t + 3 + length (s ++ r))
  unfolding parse_push refuse
  push-written {v} {vs} {kind} s r rest {t} d room k first h =
      rw (read_int-line x b'>' ((s ++ r) ++ rest) d, some_left, less, items)
    where
      some_left : suc (count vs) == 0 ≡ false
      some_left = ground arith

      less : suc (count vs) - 1 ≡ count vs
      less = omega arith

      whole : length t + 3 + length s + length r ≡ length t + 3 + length (s ++ r)
      whole = omega (arith, length-append s r)

      items :
          parse_push_items x rec (line b'>' t ((s ++ r) ++ rest)) (count vs) (length t + 3)
          ≡ ok (RespValue.push kind vs, length t + 3 + length (s ++ r))
      items = rw (← append_assoc s r rest, whole) at (push_flat s r rest t room k first h)
