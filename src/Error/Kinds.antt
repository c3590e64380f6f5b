-- ===== src/Error/Kinds.antt =====
-- src/error.rs: the messages that are redirects.
use pyrsedis.Prelude.{◌≤◌, ◌≡◌, refl, false, some, [], ◌∷◌, ◌++◌, Bytes, codes, All, ◌≢◌, arith}
use pyrsedis.Error.{from_error_msg, redis_error, is_moved, is_ask, moved_info, ask_info}
use pyrsedis.Text.{strip_prefix, split_once}
use pyrsedis.Text.Number.{IsDigit, value, parse_uint_complete, u16_max}

-- A text of digits holds no blank.
split_once-digits :
    (s addr : Bytes) → All IsDigit s → split_once b' ' (s ++ b' ' ∷ addr) ≡ some (s, addr)
unfolding split_once
split_once-digits [] addr h = refl
split_once-digits (c ∷ s) addr (h, hs) = ground (arith, split_once-digits s addr hs)

-- A message `MOVED slot addr` or `ASK slot addr`, its slot a number that fits in 16 bits, gives an
-- error from which the routers read that very slot and address, and the other redirect's test fails.
pub redis_error-redirect :
    (s addr : Bytes)
    → s ≢ []
    → All IsDigit s
    → value 0 s ≤ u16_max
    → (moved_info (redis_error (codes "MOVED " ++ s ++ b' ' ∷ addr)) ≡ some (value 0 s, addr))
      × (ask_info (redis_error (codes "ASK " ++ s ++ b' ' ∷ addr)) ≡ some (value 0 s, addr))
      × (is_ask (redis_error (codes "MOVED " ++ s ++ b' ' ∷ addr)) ≡ false)
      × (is_moved (redis_error (codes "ASK " ++ s ++ b' ' ∷ addr)) ≡ false)
unfolding moved_info ask_info redis_error is_moved is_ask from_error_msg strip_prefix
redis_error-redirect s addr ne h fits =
    rw
      (
        moved_info,
        ask_info,
        is_ask,
        is_moved,
        redis_error,
        from_error_msg,
        split_once-digits s addr h,
        parse_uint_complete u16_max s ne h fits,
      )
      (refl, refl, refl, refl)
