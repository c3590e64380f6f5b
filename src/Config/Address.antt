-- ===== src/Config/Address.antt =====
-- src/config.rs: how addresses and credentials are taken apart.
use pyrsedis.Prelude.{
  ℕ, ◌≤◌, ◌≡◌, ◌≢◌, refl, ap, ◌∙◌, [], ◌∷◌, ◌++◌, append-nil, Bytes, take-append_length, All, arith,
}
use pyrsedis.Config.{or_localhost, after_bracket, parse_bracketed, parse_plain, parse_host_port}
use pyrsedis.Outcome.{ok, ok_or}
use pyrsedis.Text.Search.{
  Without, rsplit_once-absent, rsplit_once-last, digits-Without, position-first, drop_past,
}
use pyrsedis.Text.{strip_prefix}
use pyrsedis.Text.Number.{IsDigit, value, parse_uint_complete, u16_max}

-- The text of a port.
pub record IsPort (s : Bytes) : Type 0 where
  pub filled : s ≢ []
  pub digits : All IsDigit s
  pub fits : value 0 s ≤ u16_max

-- A host as it stands in a URL.
pub record IsHost (s : Bytes) : Type 0 where
  pub filled : s ≢ []
  pub no_colon : Without b':' s
  pub no_bracket : Without b'[' s

or_localhost-filled : (s : Bytes) (port : ℕ) → s ≢ [] → or_localhost s port ≡ (s, port)
unfolding or_localhost
or_localhost-filled [] port h = absurd (h refl)
or_localhost-filled (c ∷ s) port h = refl

plain_host :
    (host rest : Bytes) (default_to : ℕ)
    → IsHost host
    → parse_host_port (host ++ rest) default_to ≡ parse_plain (host ++ rest) default_to
unfolding parse_host_port
plain_host [] rest default_to h = absurd (h.filled refl)
plain_host (c ∷ s) rest default_to h = let no = h.no_bracket.0 in ground arith

-- A host with a port is read as that host and the port's number.
pub parse_host_port-port :
    (host port : Bytes) (default_to : ℕ)
    → IsHost host
    → IsPort port
    → parse_host_port (host ++ b':' ∷ port) default_to ≡ ok (host, value 0 port)
unfolding parse_plain
parse_host_port-port host port default_to h p =
    plain_host host (b':' ∷ port) default_to h
    ∙ rw
        (
          parse_plain,
          rsplit_once-last b':' host port (digits-Without b':' port (omega arith) p.digits),
          parse_uint_complete u16_max port p.filled p.digits p.fits,
        )
        (ap ok (or_localhost-filled host (value 0 port) h.filled))

-- A host alone has the default port.
pub parse_host_port-default :
    (host : Bytes) (default_to : ℕ)
    → IsHost host
    → parse_host_port host default_to ≡ ok (host, default_to)
unfolding parse_plain
parse_host_port-default host default_to h =
    rw (append-nil host) at (plain_host host [] default_to h)
    ∙ rw (parse_plain, rsplit_once-absent b':' host h.no_colon)
        (ap ok (or_localhost-filled host default_to h.filled))

after_bracket-port :
    (host port : Bytes) (default_to : ℕ)
    → host ≢ []
    → IsPort port
    → after_bracket host (b':' ∷ port) default_to ≡ ok (host, value 0 port)
unfolding after_bracket strip_prefix
after_bracket-port host port default_to filled p =
    rw (after_bracket, parse_uint_complete u16_max port p.filled p.digits p.fits)
      (ap ok (or_localhost-filled host (value 0 port) filled))

-- An address in brackets may hold colons: it is read without its brackets, with its port.
pub parse_host_port-bracketed :
    (inner port : Bytes) (default_to : ℕ)
    → inner ≢ []
    → Without b']' inner
    → IsPort port
    → parse_host_port (b'[' ∷ (inner ++ b']' ∷ b':' ∷ port)) default_to ≡ ok (inner, value 0 port)
unfolding parse_host_port parse_bracketed ok_or
parse_host_port-bracketed inner port default_to filled closed p =
    rw
      (
        parse_bracketed,
        position-first b']' inner (b':' ∷ port) closed,
        drop_past inner b']' (b':' ∷ port),
        take-append_length inner (b']' ∷ b':' ∷ port),
      )
      (after_bracket-port inner port default_to filled p)
