-- ===== src/Config/Tests.antt =====
-- URLs of the tests of src/config.rs, and the theorems at concrete URLs.
use pyrsedis.Prelude.{◌≡◌, refl, some, codes, arith}
use pyrsedis.Config.{
  default, standalone, with_target, with_credentials, parse_host_port, parse_plain, or_localhost,
  default_port, from_url, split_master, parse_userinfo, set_filled,
}
use pyrsedis.Config.Address.{IsPort, IsHost, parse_host_port-port, parse_host_port-bracketed}
use pyrsedis.Config.Standalone.{Parts, IsProper, from_url-parts}
use pyrsedis.Outcome.{ok}
use pyrsedis.Text.{split_once, rsplit_once, occurrences}
use pyrsedis.Text.Number.{parse_uint}

abbrev parts : Parts
parts = record {
  user = codes "me";
  pass = codes "p@:s";
  host = codes "h.example";
  port = codes "6380";
  db = codes "2";
}

number-IsPort : IsPort (codes "6380")
number-IsPort = record { filled = λ e. cc; digits = ground arith; fits = omega arith }

two-IsPort : IsPort (codes "2")
two-IsPort = record { filled = λ e. cc; digits = ground arith; fits = omega arith }

example-IsHost : IsHost (codes "h.example")
example-IsHost = record { filled = λ e. cc; no_colon = ground arith; no_bracket = ground arith }

parts-IsProper : IsProper parts
parts-IsProper = record {
  user_filled = λ e. cc;
  user_no_colon = ground arith;
  pass_filled = λ e. cc;
  host_proper = example-IsHost;
  port_proper = number-IsPort;
  db_proper = two-IsPort;
  address_no_at = ground arith;
  no_slash = ground arith;
}

from_url-parts_example :
    from_url (codes "redis://me:p@:s@h.example:6380/2")
    ≡ ok (
        with_target
          (codes "h.example", 6380)
          2
          standalone
          (with_credentials (some (codes "me")) (some (codes "p@:s")) default))
from_url-parts_example = from_url-parts parts parts-IsProper

reads_a_port : parse_host_port (codes "h.example:6380") default_port ≡ ok (codes "h.example", 6380)
reads_a_port =
    parse_host_port-port (codes "h.example") (codes "6380") default_port example-IsHost
      number-IsPort

parse_host_port-bracketed_example :
    parse_host_port (codes "[::1]:6380") default_port ≡ ok (codes "::1", 6380)
parse_host_port-bracketed_example =
    parse_host_port-bracketed (codes "::1") (codes "6380") default_port (λ e. cc) (ground arith)
      number-IsPort

-- An address of version 6 with no brackets loses its last group to the port, if that is a number.
reads_bare : parse_host_port (codes "2001:db8::1") default_port ≡ ok (codes "2001:db8:", 1)
unfolding parse_host_port parse_plain rsplit_once parse_uint or_localhost
reads_bare = refl

sentinel_parts :
    split_master (codes "u:p@ss@main@h") default
    ≡ ok
        (with_credentials (some (codes "u")) (some (codes "p")) default, codes "ss", codes "main@h")
unfolding split_master split_once occurrences parse_userinfo set_filled default with_credentials
sentinel_parts = refl
