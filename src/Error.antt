-- ===== src/Error.antt =====
-- src/error.rs: the structured kinds of Redis errors and the error type of the program. The texts of
-- the program's own messages are data, `Message`; the details that std errors add to some of them
-- are left out. The Python exception classes are the type `Exception`.
pub mod Kinds
mod Tests
use Prim.Native.String.{String}
use pyrsedis.Prelude.{ℕ, Bool, true, false, Option, none, some, Bytes, codes, if◌then◌else◌}
use pyrsedis.Text.{strip_prefix, starts_with, split_once}
use pyrsedis.Text.Number.{parse_uint, u16_max}
use pyrsedis.Text.Space.{first_word}

pub data RedisErrorKind : Type 0 where
  err wrong_type cluster_down loading read_only no_script busy try_again : RedisErrorKind
  moved : ℕ → Bytes → RedisErrorKind
  ask : ℕ → Bytes → RedisErrorKind
  other : Bytes → RedisErrorKind

-- `slot addr` behind MOVED and ASK.
redirect : (ℕ → Bytes → RedisErrorKind) → Bytes → Bytes → RedisErrorKind
redirect kind name rest = elim (split_once b' ' rest) [
  | none ↦ other name
  | some (slot_str, addr) ↦ elim (parse_uint u16_max slot_str) [
    | none ↦ other name
    | some slot ↦ kind slot addr
  ]
]

-- The kinds that a prefix alone decides, in the order of the tests.
by_prefix : Bytes → RedisErrorKind
by_prefix msg =
    if starts_with (codes "WRONGTYPE") msg
    then wrong_type
    else if starts_with (codes "CLUSTERDOWN") msg
    then cluster_down
    else if starts_with (codes "LOADING") msg
    then loading
    else if starts_with (codes "READONLY") msg
    then read_only
    else if starts_with (codes "NOSCRIPT") msg
    then no_script
    else if starts_with (codes "BUSY") msg
    then busy
    else if starts_with (codes "TRYAGAIN") msg
    then try_again
    else if starts_with (codes "ERR") msg
    then err
    else elim (first_word msg) [ none ↦ other (codes "UNKNOWN") | some w ↦ other w ]

-- RedisErrorKind::from_error_msg. The message that it returns beside the kind is its argument.
unfoldable pub from_error_msg : Bytes → RedisErrorKind × Bytes
unfolding redirect by_prefix
from_error_msg msg = elim (strip_prefix (codes "MOVED ") msg) [
  | some rest ↦ (redirect moved (codes "MOVED") rest, msg)
  | none ↦ elim (strip_prefix (codes "ASK ") msg) [
    | some rest ↦ (redirect ask (codes "ASK") rest, msg)
    | none ↦ (by_prefix msg, msg)
  ]
]

-- What a message of the parser is about.
pub data Part : Type 0 where
  simple_string simple_error double big_number bulk_string bulk_error verbatim encoding : Part
  null boolean array map set push push_kind attribute : Part

pub data Message : Type 0 where
  unknown_type_byte : ℕ → Message
  expected_lf empty_integer no_digits integer_overflow : Message
  invalid_digit : ℕ → Message
  invalid_utf8 : Part → Message
  not_terminated : Part → Message
  negative_length : Part → Message
  invalid_boolean : ℕ → Message
  invalid_double missing_encoding_prefix empty_push : Message
  negative_count : Part → Message
  invalid_big_number : Bytes → Message
  kind_not_a_string : String → Message
  count_too_large : ℕ → Message
  too_deep : Message
  buffer_too_large : ℕ → Message
  big_number_too_long : ℕ → Message
  empty_command tls_unsupported : Message
  unexpected_reply : String → Message
  missing_scheme : Bytes → Message
  unknown_scheme : Bytes → Message
  invalid_db : Bytes → Message
  invalid_port : Bytes → Message
  unclosed_bracket : Bytes → Message
  no_master_name no_master_after_credentials empty_master_name no_sentinels no_nodes : Message
  expected_slots_array : String → Message
  invalid_slot_start invalid_slot_end expected_node_array short_node_array : Message
  invalid_host invalid_port_value : Message
  no_node too_many_moved too_many_ask : Message
  cluster_down_reply : Bytes → Message
  no_seed no_sentinel_answer retries_exhausted invalid_master_host invalid_master_port : Message
  master_not_found : Bytes → Message
  read_timeout : Message
  server_closed : Message
  io_error : ℕ → Message
  expected_array : String → Message
  short_result : ℕ → Message
  zero_pool_size no_command : Message

-- PyrsedisError. The payload of `redis` is the kind and the message.
pub data PyrsedisError : Type 0 where
  connection : Message → PyrsedisError
  protocol : Message → PyrsedisError
  incomplete : PyrsedisError
  redis : RedisErrorKind → Bytes → PyrsedisError
  graph : Message → PyrsedisError
  type_error : Message → PyrsedisError
  timeout : Message → PyrsedisError
  cluster : Message → PyrsedisError
  sentinel : Message → PyrsedisError

-- PyrsedisError::redis.
unfoldable pub redis_error : Bytes → PyrsedisError
redis_error msg = let (kind, message) = from_error_msg msg in redis kind message

unfoldable pub is_moved : PyrsedisError → Bool
is_moved (redis (moved slot addr) msg) = true
is_moved _ = false

unfoldable pub is_ask : PyrsedisError → Bool
is_ask (redis (ask slot addr) msg) = true
is_ask _ = false

unfoldable pub moved_info : PyrsedisError → Option (ℕ × Bytes)
moved_info (redis (moved slot addr) msg) = some (slot, addr)
moved_info _ = none

unfoldable pub ask_info : PyrsedisError → Option (ℕ × Bytes)
ask_info (redis (ask slot addr) msg) = some (slot, addr)
ask_info _ = none

-- The exception classes of `exc`, and Python's TypeError.
pub data Exception : Type 0 where
  redis_connection_error redis_timeout_error protocol_error : Exception
  response_error wrong_type_error read_only_error no_script_error busy_error : Exception
  cluster_down_error graph_error cluster_error sentinel_error python_type_error : Exception

unfoldable pub kind_exception : RedisErrorKind → Exception
kind_exception wrong_type = wrong_type_error
kind_exception read_only = read_only_error
kind_exception no_script = no_script_error
kind_exception busy = busy_error
kind_exception cluster_down = cluster_down_error
kind_exception _ = response_error

-- From<PyrsedisError> for PyErr: the class that is raised.
unfoldable pub to_exception : PyrsedisError → Exception
unfolding kind_exception
to_exception (connection m) = redis_connection_error
to_exception (protocol m) = protocol_error
to_exception incomplete = protocol_error
to_exception (redis kind msg) = kind_exception kind
to_exception (graph m) = graph_error
to_exception (type_error m) = python_type_error
to_exception (timeout m) = redis_timeout_error
to_exception (cluster m) = cluster_error
to_exception (sentinel m) = sentinel_error
