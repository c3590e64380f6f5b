-- ===== src/Resp/Grammar.antt =====
-- The wire format of RESP as an inductive relation between values and bytes, independent of the
-- parser: what the comments of src/resp/types.rs and src/resp/parser.rs describe.
pub mod Numbers
pub mod Inline
pub mod Aggregate
pub mod Complete
use pyrsedis.Prelude.{
  ℕ, ◌+◌, ◌*◌, ◌≤◌, ◌<◌, ◌≡◌, ◌≢◌, Bool, true, false, some, [], ◌∷◌, ◌++◌, Bytes, codes, length,
  All, ℤ, pos, minus, i64_limit, is_negative,
}
use pyrsedis.External.{External}
use pyrsedis.Resp.Line.{cr, lf}
use pyrsedis.Resp.Line.Laws.{IsPlain}
use pyrsedis.Resp.Parser.{f64_infinity, f64_neg_infinity, f64_nan}
use pyrsedis.Resp.Types.{RespValue, Values, Pairs, nil, cons, end, entry, count, count_pairs}
use pyrsedis.Text.Number.{IsDigit, value}
use pyrsedis.Text.Utf8.{is_utf8}

-- The line of a value behind its type byte.
abbrev pub line : ℕ → Bytes → Bytes → Bytes
line mark text rest = mark ∷ text ++ cr ∷ lf ∷ rest

-- One digit at least.
pub record IsDigits (s : Bytes) : Type 0 where
  pub filled : s ≢ []
  pub digits : All IsDigit s

-- The decimal texts of an i64: an optional sign, and digits, whose leading zeros do not count.
pub data Decimal : ℤ → Bytes → Type 0 where
  plain : {s : Bytes} → IsDigits s → value 0 s < i64_limit → Decimal (pos (value 0 s)) s
  plus : {s : Bytes} → IsDigits s → value 0 s < i64_limit → Decimal (pos (value 0 s)) (b'+' ∷ s)
  negative :
      {s : Bytes} → IsDigits s → value 0 s ≤ i64_limit → Decimal (minus (value 0 s)) (b'-' ∷ s)

-- The texts of a float: three names, and what the standard library reads.
pub data Float (x : External) : ℕ → Bytes → Type 0 where
  infinity : Float x f64_infinity (codes "inf")
  neg_infinity : Float x f64_neg_infinity (codes "-inf")
  nan : Float x f64_nan (codes "nan")
  other :
      {d : ℕ} {s : Bytes}
      → s ≢ codes "inf"
      → s ≢ codes "-inf"
      → s ≢ codes "nan"
      → x.parse_f64 s ≡ some d
      → Float x d s

-- The texts of a big number.
pub data BigNumber : Bytes → Type 0 where
  unsigned : {s : Bytes} → IsDigits s → BigNumber s
  signed : {c : ℕ} {s : Bytes} → (c ≡ b'+') → IsDigits s → BigNumber (c ∷ s)
  below : {c : ℕ} {s : Bytes} → (c ≡ b'-') → IsDigits s → BigNumber (c ∷ s)

-- The kind of a push message.
pub data Kind : RespValue → Bytes → Type 0 where
  simple : {s : Bytes} → Kind (RespValue.simple_string s) s
  bulk : {s : Bytes} → is_utf8 s ≡ true → Kind (RespValue.bulk_string s) s

-- A vector of so many elements of so many bytes can be allocated.
abbrev pub CanHold : ℕ → ℕ → Type 0
CanHold count size = count * size < i64_limit

mutual
  pub data Wire (x : External) : RespValue → Bytes → Type 0 where
    simple_string :
        {s : Bytes}
        → IsPlain s
        → is_utf8 s ≡ true
        → Wire x (RespValue.simple_string s) (line b'+' s [])
    error : {s : Bytes} → IsPlain s → is_utf8 s ≡ true → Wire x (RespValue.error s) (line b'-' s [])
    integer : {i : ℤ} {t : Bytes} → Decimal i t → Wire x (RespValue.integer i) (line b':' t [])
    bulk_string :
        {s t : Bytes}
        → Decimal (pos (length s)) t
        → Wire x (RespValue.bulk_string s) (line b'$' t (s ++ cr ∷ lf ∷ []))
    null_bulk :
        {i : ℤ} {t : Bytes}
        → Decimal i t
        → is_negative i ≡ true
        → Wire x RespValue.null (line b'$' t [])
    null_array :
        {i : ℤ} {t : Bytes}
        → Decimal i t
        → is_negative i ≡ true
        → Wire x RespValue.null (line b'*' t [])
    null : Wire x RespValue.null (line b'_' [] [])
    yes_boolean : Wire x (RespValue.boolean true) (line b'#' (codes "t") [])
    no_boolean : Wire x (RespValue.boolean false) (line b'#' (codes "f") [])
    double :
        {d : ℕ} {s : Bytes}
        → IsPlain s
        → is_utf8 s ≡ true
        → Float x d s
        → Wire x (RespValue.double d) (line b',' s [])
    big_number : {s : Bytes} → BigNumber s → Wire x (RespValue.big_number s) (line b'(' s [])
    bulk_error :
        {s t : Bytes}
        → Decimal (pos (length s)) t
        → is_utf8 s ≡ true
        → Wire x (RespValue.bulk_error s) (line b'!' t (s ++ cr ∷ lf ∷ []))
    verbatim_string :
        {a b c : ℕ} {s t : Bytes}
        → Decimal (pos (length (a ∷ b ∷ c ∷ b':' ∷ s))) t
        → is_utf8 (a ∷ b ∷ c ∷ []) ≡ true
        → is_utf8 s ≡ true
        → Wire x
            (RespValue.verbatim_string (a ∷ b ∷ c ∷ []) s)
            (line b'=' t ((a ∷ b ∷ c ∷ b':' ∷ s) ++ cr ∷ lf ∷ []))
    array :
        {vs : Values} {s t : Bytes}
        → Decimal (pos (count vs)) t
        → CanHold (count vs) x.value_size
        → WireAll x vs s
        → Wire x (RespValue.array vs) (line b'*' t s)
    set :
        {vs : Values} {s t : Bytes}
        → Decimal (pos (count vs)) t
        → CanHold (count vs) x.value_size
        → WireAll x vs s
        → Wire x (RespValue.set vs) (line b'~' t s)
    push :
        {v : RespValue} {vs : Values} {kind s r t : Bytes}
        → Decimal (pos (count (cons v vs))) t
        → CanHold (count vs) x.value_size
        → Wire x v s
        → Kind v kind
        → WireAll x vs r
        → Wire x (RespValue.push kind vs) (line b'>' t (s ++ r))
    map :
        {ps : Pairs} {s t : Bytes}
        → Decimal (pos (count_pairs ps)) t
        → CanHold (count_pairs ps) (2 * x.value_size)
        → WirePairs x ps s
        → Wire x (RespValue.map ps) (line b'%' t s)
    attribute :
        {ps : Pairs} {v : RespValue} {s r t : Bytes}
        → Decimal (pos (count_pairs ps)) t
        → CanHold (count_pairs ps) (2 * x.value_size)
        → WirePairs x ps s
        → Wire x v r
        → Wire x (RespValue.attribute v ps) (line b'|' t (s ++ r))

  pub data WireAll (x : External) : Values → Bytes → Type 0 where
    no_values : WireAll x nil []
    next_value :
        {v : RespValue} {vs : Values} {s r : Bytes}
        → Wire x v s
        → WireAll x vs r
        → WireAll x (cons v vs) (s ++ r)

  pub data WirePairs (x : External) : Pairs → Bytes → Type 0 where
    no_pairs : WirePairs x end []
    next_pair :
        {k v : RespValue} {ps : Pairs} {s r q : Bytes}
        → Wire x k s
        → Wire x v r
        → WirePairs x ps q
        → WirePairs x (entry k v ps) (s ++ r ++ q)
