-- ===== src/Error/Tests.antt =====
-- The kinds of messages of the tests of src/error.rs, and the theorem at a concrete redirect.
use pyrsedis.Prelude.{◌≡◌, false, some, codes, arith}
use pyrsedis.Error.{redis_error, is_moved, is_ask, moved_info, ask_info}
use pyrsedis.Error.Kinds.{redis_error-redirect}

redis_error-redirect_example :
    (moved_info (redis_error (codes "MOVED 3999 10.0.0.1:6381"))
      ≡ some (3999, codes "10.0.0.1:6381"))
    × (ask_info (redis_error (codes "ASK 3999 10.0.0.1:6381")) ≡ some (3999, codes "10.0.0.1:6381"))
    × (is_ask (redis_error (codes "MOVED 3999 10.0.0.1:6381")) ≡ false)
    × (is_moved (redis_error (codes "ASK 3999 10.0.0.1:6381")) ≡ false)
redis_error-redirect_example =
    redis_error-redirect (codes "3999") (codes "10.0.0.1:6381") (λ e. cc) (ground arith)
      (omega arith)
