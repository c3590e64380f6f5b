-- ===== src/Resp/Types.antt =====
-- src/resp/types.rs: the values of RESP2 and RESP3, and their accessors. A float is its 64 bits.
use Prim.Native.String.{String}
use pyrsedis.Prelude.{
  ℕ, suc, ◌+◌, ◌≡◌, refl, Bool, true, false, not, Option, none, some, List, [], ◌∷◌, Bytes, ℤ,
  pos_part, neg_part, ◌==◌, if◌then◌else◌,
}
use pyrsedis.External.{External}
use pyrsedis.Text.Utf8.{is_utf8}

-- `Values` is Vec<RespValue>, and `Pairs` is Vec<(RespValue, RespValue)>.
mutual
  pub data RespValue : Type 0 where
    simple_string : Bytes → RespValue
    error : Bytes → RespValue
    integer : ℤ → RespValue
    bulk_string : Bytes → RespValue
    array : Values → RespValue
    null : RespValue
    double : ℕ → RespValue
    boolean : Bool → RespValue
    map : Pairs → RespValue
    set : Values → RespValue
    verbatim_string : Bytes → Bytes → RespValue
    big_number : Bytes → RespValue
    bulk_error : Bytes → RespValue
    push : Bytes → Values → RespValue
    attribute : RespValue → Pairs → RespValue

  pub data Values : Type 0 where
    nil : Values
    cons : RespValue → Values → Values

  pub data Pairs : Type 0 where
    end : Pairs
    entry : RespValue → RespValue → Pairs → Pairs

-- The vectors as lists.
unfoldable pub to_list : Values → List RespValue
to_list nil = []
to_list (cons v vs) = v ∷ to_list vs

unfoldable pub of_list : List RespValue → Values
of_list [] = nil
of_list (v ∷ vs) = cons v (of_list vs)

pub to_list-of_list : (vs : List RespValue) → to_list (of_list vs) ≡ vs
unfolding to_list of_list
to_list-of_list [] = refl
to_list-of_list (v ∷ vs) = rw (to_list-of_list vs)

-- Vec::len.
unfoldable pub count : Values → ℕ
count nil = 0
count (cons v vs) = suc (count vs)

unfoldable pub count_pairs : Pairs → ℕ
count_pairs end = 0
count_pairs (entry k v ps) = suc (count_pairs ps)

unfoldable pub as_str : RespValue → Option Bytes
as_str (simple_string s) = some s
as_str (bulk_string b) = if is_utf8 b then some b else none
as_str (verbatim_string encoding s) = some s
as_str _ = none

unfoldable pub as_bytes : RespValue → Option Bytes
as_bytes (bulk_string b) = some b
as_bytes (simple_string s) = some s
as_bytes _ = none

unfoldable pub as_int : RespValue → Option ℤ
as_int (integer i) = some i
as_int _ = none

unfoldable pub as_f64 : External → RespValue → Option ℕ
as_f64 x (double d) = some d
as_f64 x (integer i) = some (x.f64_of_int i)
as_f64 x _ = none

unfoldable pub as_bool : RespValue → Option Bool
as_bool (boolean b) = some b
as_bool (integer i) = some (not (pos_part i + neg_part i == 0))
as_bool _ = none

unfoldable pub into_array : RespValue → Option Values
into_array (array a) = some a
into_array _ = none

unfoldable pub into_map : RespValue → Option Pairs
into_map (map m) = some m
into_map _ = none

unfoldable pub into_set : RespValue → Option Values
into_set (set s) = some s
into_set _ = none

unfoldable pub is_null : RespValue → Bool
is_null null = true
is_null _ = false

unfoldable pub is_error : RespValue → Bool
is_error (error msg) = true
is_error (bulk_error msg) = true
is_error _ = false

unfoldable pub as_error_msg : RespValue → Option Bytes
as_error_msg (error msg) = some msg
as_error_msg (bulk_error msg) = some msg
as_error_msg _ = none

unfoldable pub is_push : RespValue → Bool
is_push (push kind items) = true
is_push _ = false

unfoldable pub type_name : RespValue → String
type_name (simple_string s) = "simple_string"
type_name (error s) = "error"
type_name (integer i) = "integer"
type_name (bulk_string b) = "bulk_string"
type_name (array a) = "array"
type_name null = "null"
type_name (double d) = "double"
type_name (boolean b) = "boolean"
type_name (map m) = "map"
type_name (set s) = "set"
type_name (verbatim_string encoding s) = "verbatim_string"
type_name (big_number s) = "big_number"
type_name (bulk_error s) = "bulk_error"
type_name (push kind items) = "push"
type_name (attribute v attrs) = "attribute"
