-- ===== src/Resp/Tag.antt =====
-- The type bytes of the protocol, on which `parse` and `resp_frame_len` branch.
use pyrsedis.Prelude.{ℕ, ◌==◌, if◌then◌else◌}

pub data Tag : Type 0 where
  plus minus colon dollar star underscore hash comma paren bang equals percent tilde greater bar :
      Tag
  unknown : ℕ → Tag

unfoldable pub tag_of : ℕ → Tag
tag_of b =
    if b == b'+'
    then plus
    else if b == b'-'
    then minus
    else if b == b':'
    then colon
    else if b == b'$'
    then dollar
    else if b == b'*'
    then star
    else if b == b'_'
    then underscore
    else if b == b'#'
    then hash
    else if b == b','
    then comma
    else if b == b'('
    then paren
    else if b == b'!'
    then bang
    else if b == b'='
    then equals
    else if b == b'%'
    then percent
    else if b == b'~'
    then tilde
    else if b == b'>'
    then greater
    else if b == b'|'
    then bar
    else unknown b
