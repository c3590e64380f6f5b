-- ===== src/Connection/Session.antt =====
-- src/connection/tcp.rs: the commands that a connection sends on its own. What executing a command
-- comes to is a parameter.
pub mod Script
pub mod Init
mod Tests
use Prim.Native.String.{String}
use pyrsedis.Prelude.{
  ℕ, zero, suc, Bool, true, false, Option, none, some, List, [], ◌∷◌, ◌++◌, Bytes, codes, bytes_eq,
  if◌then◌else◌, ◌==◌,
}
use pyrsedis.Error.{PyrsedisError, protocol, redis_error, unexpected_reply}
use pyrsedis.External.{External}
use pyrsedis.Outcome.{Outcome, ok, fail, panic, stuck}
use pyrsedis.Resp.Types.{RespValue, is_error, as_error_msg, type_name}

-- execute_str: a command is sent and its reply is read.
pub record Session : Type 1 where
  pub State : Type 0
  pub execute : List Bytes → State → Outcome RespValue × State

-- The match on the reply to AUTH and to SELECT.
unfoldable pub expect_ok : RespValue → Outcome (Unit {0})
expect_ok (RespValue.simple_string s) =
    if bytes_eq s (codes "OK") then ok tt else fail (protocol (unexpected_reply "simple_string"))
expect_ok (RespValue.error msg) = fail (redis_error msg)
expect_ok other = fail (protocol (unexpected_reply (type_name other)))

unfoldable pub auth_args : Option Bytes → Bytes → List Bytes
auth_args (some user) password = codes "AUTH" ∷ user ∷ password ∷ []
auth_args none password = codes "AUTH" ∷ password ∷ []

-- `default` where there is no user.
unfoldable pub hello_args : Option Bytes → Option Bytes → List Bytes
hello_args username none = codes "HELLO" ∷ codes "3" ∷ []
hello_args none (some pass) = codes "HELLO" ∷ codes "3" ∷ codes "AUTH" ∷ codes "default" ∷ pass ∷ []
hello_args (some user) (some pass) = codes "HELLO" ∷ codes "3" ∷ codes "AUTH" ∷ user ∷ pass ∷ []

-- HELLO is refused by an error of either kind.
unfoldable pub accept_hello : RespValue → Outcome RespValue
accept_hello response =
    if is_error response
    then elim (as_error_msg response) [
      | none ↦ fail (redis_error (codes "HELLO failed"))
      | some msg ↦ fail (redis_error msg)
    ]
    else ok response

unfoldable pub is_pong : RespValue → Bool
is_pong (RespValue.simple_string s) = bytes_eq s (codes "PONG")
is_pong other = false

module _ (session : Session) where
  -- `?` on the reply, and what becomes of it.
  unfoldable pub on_reply :
      {A : Type 0}
      → (RespValue → Outcome A)
      → Outcome RespValue × session.State
      → Outcome A × session.State
  on_reply f (ok v, s) = (f v, s)
  on_reply f (fail e, s) = (fail e, s)
  on_reply f (panic, s) = (panic, s)
  on_reply f (stuck, s) = (stuck, s)

  unfoldable pub auth : Option Bytes → Bytes → session.State → Outcome (Unit {0}) × session.State
  auth username password s = on_reply expect_ok (session.execute (auth_args username password) s)

  -- `db.to_string()` prints as itoa does.
  unfoldable pub select_db : External → ℕ → session.State → Outcome (Unit {0}) × session.State
  select_db x zero s = (ok tt, s)
  select_db x (suc db) s =
      on_reply expect_ok (session.execute (codes "SELECT" ∷ x.itoa (suc db) ∷ []) s)

  unfoldable pub ping : session.State → Outcome Bool × session.State
  ping s = on_reply (λ v. ok (is_pong v)) (session.execute (codes "PING" ∷ []) s)

  unfoldable pub hello3 :
      Option Bytes → Option Bytes → session.State → Outcome RespValue × session.State
  hello3 username password s =
      on_reply accept_hello (session.execute (hello_args username password) s)

  unfoldable pub after_auth :
      External → ℕ → Outcome (Unit {0}) × session.State → Outcome (Unit {0}) × session.State
  unfolding select_db
  after_auth x db (ok u, s) = select_db x db s
  after_auth x db (fail e, s) = (fail e, s)
  after_auth x db (panic, s) = (panic, s)
  after_auth x db (stuck, s) = (stuck, s)

  unfoldable pub init :
      External
      → Option Bytes
      → Option Bytes
      → ℕ
      → session.State
      → Outcome (Unit {0}) × session.State
  init x username none db s = select_db x db s
  init x username (some pass) db s = after_auth x db (auth username pass s)
