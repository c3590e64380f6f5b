-- ===== src/Connection/Session/Script.antt =====
-- src/connection/tcp.rs: the server that answers `init` from a script, and the match on its replies.
use pyrsedis.Prelude.{
  ℕ, zero, suc, ◌≡◌, ◌≢◌, refl, sym, ap, ◌∙◌, false, Option, none, some, List, [], ◌∷◌, Bytes,
  codes, bytes_eq, bytes_eq_sound, Bool-cases, inl, inr,
}
use pyrsedis.Connection.Session.{Session, expect_ok}
use pyrsedis.Error.{PyrsedisError, protocol, redis_error, unexpected_reply}
use pyrsedis.External.{External}
use pyrsedis.Outcome.{Outcome, ok, fail, stuck}
use pyrsedis.Resp.Types.{RespValue, type_name}

-- A server that answers in turn, and the commands that it has been sent, the last one first.
abbrev pub Script : Type 0
Script = List (Outcome RespValue) × List (List Bytes)

abbrev pub answer : List Bytes → Script → Outcome RespValue × Script
answer args ([], sent) = (stuck, ([], args ∷ sent))
answer args (r ∷ rs, sent) = (r, (rs, args ∷ sent))

abbrev pub scripted : Session
scripted = record { State = Script; execute = answer }

-- The commands that `init` owes, in their order.
abbrev pub auth_commands : Option Bytes → Option Bytes → List (List Bytes)
auth_commands username none = []
auth_commands none (some pass) = (codes "AUTH" ∷ pass ∷ []) ∷ []
auth_commands (some user) (some pass) = (codes "AUTH" ∷ user ∷ pass ∷ []) ∷ []

abbrev pub select_commands : External → ℕ → List (List Bytes)
select_commands x zero = []
select_commands x (suc db) = (codes "SELECT" ∷ x.itoa (suc db) ∷ []) ∷ []

-- A reply OK for each of some commands.
abbrev pub oks : List (List Bytes) → List (Outcome RespValue)
oks [] = []
oks (c ∷ cs) = ok (RespValue.simple_string (codes "OK")) ∷ oks cs

abbrev pub reversed : List (List Bytes) → List (List Bytes) → List (List Bytes)
reversed [] done = done
reversed (c ∷ cs) done = reversed cs (c ∷ done)

-- What a reply that is not OK is reported as.
abbrev pub refusal : RespValue → PyrsedisError
refusal (RespValue.error msg) = redis_error msg
refusal other = protocol (unexpected_reply (type_name other))

simple_refused :
    (s : Bytes)
    → bytes_eq s (codes "OK") ≡ false
    → expect_ok (RespValue.simple_string s) ≡ fail (protocol (unexpected_reply "simple_string"))
unfolding expect_ok
simple_refused s h = rw h refl

pub expect_ok-refusal :
    (reply : RespValue)
    → reply ≢ RespValue.simple_string (codes "OK")
    → expect_ok reply ≡ fail (refusal reply)
unfolding expect_ok type_name
expect_ok-refusal (RespValue.simple_string s) h = elim (Bool-cases (bytes_eq s (codes "OK"))) [
  | inl e ↦ absurd (h (ap RespValue.simple_string (bytes_eq_sound s (codes "OK") e)))
  | inr e ↦ simple_refused s e
]
expect_ok-refusal (RespValue.error msg) h = refl
expect_ok-refusal (RespValue.integer n) h = refl
expect_ok-refusal (RespValue.bulk_string s) h = refl
expect_ok-refusal (RespValue.array items) h = refl
expect_ok-refusal RespValue.null h = refl
expect_ok-refusal (RespValue.double d) h = refl
expect_ok-refusal (RespValue.boolean b) h = refl
expect_ok-refusal (RespValue.map m) h = refl
expect_ok-refusal (RespValue.set s) h = refl
expect_ok-refusal (RespValue.verbatim_string e s) h = refl
expect_ok-refusal (RespValue.big_number s) h = refl
expect_ok-refusal (RespValue.bulk_error s) h = refl
expect_ok-refusal (RespValue.push kind items) h = refl
expect_ok-refusal (RespValue.attribute v attrs) h = refl

pub accepts_ok : expect_ok (RespValue.simple_string (codes "OK")) ≡ ok tt
unfolding expect_ok
accepts_ok = refl

-- OK alone is accepted.
pub expect_ok-ok :
    (reply : RespValue) → expect_ok reply ≡ ok tt → reply ≡ RespValue.simple_string (codes "OK")
unfolding expect_ok
expect_ok-ok (RespValue.simple_string s) h = elim (Bool-cases (bytes_eq s (codes "OK"))) [
  | inl e ↦ ap RespValue.simple_string (bytes_eq_sound s (codes "OK") e)
  | inr e ↦ let clash = sym (simple_refused s e) ∙ h in cc
]
expect_ok-ok (RespValue.error msg) h = cc
expect_ok-ok (RespValue.integer n) h = cc
expect_ok-ok (RespValue.bulk_string s) h = cc
expect_ok-ok (RespValue.array items) h = cc
expect_ok-ok RespValue.null h = cc
expect_ok-ok (RespValue.double d) h = cc
expect_ok-ok (RespValue.boolean b) h = cc
expect_ok-ok (RespValue.map m) h = cc
expect_ok-ok (RespValue.set s) h = cc
expect_ok-ok (RespValue.verbatim_string e s) h = cc
expect_ok-ok (RespValue.big_number s) h = cc
expect_ok-ok (RespValue.bulk_error s) h = cc
expect_ok-ok (RespValue.push kind items) h = cc
expect_ok-ok (RespValue.attribute v attrs) h = cc
