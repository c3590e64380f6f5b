-- ===== src/Connection/Session/Init.antt =====
-- src/connection/tcp.rs: which commands `init` sends, and when it succeeds.
use pyrsedis.Prelude.{
  ℕ, zero, suc, ◌≡◌, ◌≢◌, ◌↔◌, refl, sym, ap, ◌∙◌, Option, none, some, List, [], ◌∷◌, ◌++◌, Bytes,
  codes,
}
use pyrsedis.Connection.Session.{expect_ok, auth_args, on_reply, auth, select_db, after_auth, init}
use pyrsedis.Connection.Session.Script.{
  Script, answer, scripted, auth_commands, select_commands, oks, reversed, refusal,
  expect_ok-refusal, accepts_ok, expect_ok-ok,
}
use pyrsedis.External.{External}
use pyrsedis.Outcome.{Outcome, ok, fail, panic, stuck}
use pyrsedis.Resp.Types.{RespValue}

-- A command succeeds only by the reply OK.
on_reply-ok :
    (cmd : List Bytes) (replies rest : List (Outcome RespValue)) (before sent : List (List Bytes))
    → on_reply scripted expect_ok (answer cmd (replies, before)) ≡ (ok tt, (rest, sent))
    → (replies ≡ ok (RespValue.simple_string (codes "OK")) ∷ rest) × (sent ≡ cmd ∷ before)
unfolding on_reply
on_reply-ok cmd [] rest before sent h = let clash = ap (λ p. p.0) h in cc
on_reply-ok cmd (ok v ∷ rs) rest before sent h =
    let same = expect_ok-ok v (ap (λ p. p.0) h) in
    let left : rs ≡ rest = ap (λ p. p.1.0) h in
    let told : cmd ∷ before ≡ sent = ap (λ p. p.1.1) h in (cc, sym told)
on_reply-ok cmd (fail e ∷ rs) rest before sent h = let clash = ap (λ p. p.0) h in cc
on_reply-ok cmd (panic ∷ rs) rest before sent h = let clash = ap (λ p. p.0) h in cc
on_reply-ok cmd (stuck ∷ rs) rest before sent h = let clash = ap (λ p. p.0) h in cc

module _ (x : External) where
  select_db-ok :
      (db : ℕ) (replies rest : List (Outcome RespValue)) (before sent : List (List Bytes))
      → select_db scripted x db (replies, before) ≡ (ok tt, (rest, sent))
      → (replies ≡ oks (select_commands x db) ++ rest)
        × (sent ≡ reversed (select_commands x db) before)
  unfolding select_db
  select_db-ok zero replies rest before sent h = (ap (λ p. p.1.0) h, sym (ap (λ p. p.1.1) h))
  select_db-ok (suc db) replies rest before sent h =
      on_reply-ok (codes "SELECT" ∷ x.itoa (suc db) ∷ []) replies rest before sent h

module _ (x : External) (db : ℕ) where
  after_auth-ok :
      (p : Outcome (Unit {0}) × Script) (end : Script)
      → after_auth scripted x db p ≡ (ok tt, end)
      → (p ≡ (ok tt, p.1)) × (select_db scripted x db p.1 ≡ (ok tt, end))
  unfolding after_auth
  after_auth-ok (ok tt, s) end h = (refl, h)
  after_auth-ok (fail e, s) end h = let clash = ap (λ p. p.0) h in cc
  after_auth-ok (panic, s) end h = let clash = ap (λ p. p.0) h in cc
  after_auth-ok (stuck, s) end h = let clash = ap (λ p. p.0) h in cc

  -- A command for AUTH, and SELECT behind it.
  both-ok :
      (cmd : List Bytes) (replies rest : List (Outcome RespValue)) (sent : List (List Bytes))
      → after_auth scripted x db (on_reply scripted expect_ok (answer cmd (replies, [])))
        ≡ (ok tt, (rest, sent))
      → (replies ≡ oks (cmd ∷ select_commands x db) ++ rest)
        × (sent ≡ reversed (cmd ∷ select_commands x db) [])
  both-ok cmd replies rest sent h =
      let p = on_reply scripted expect_ok (answer cmd (replies, [])) in
      let (accepted, selected) = after_auth-ok p (rest, sent) h in
      let (first, told) = on_reply-ok cmd replies p.1.0 [] p.1.1 accepted in
      let (others, all) = select_db-ok x db p.1.0 rest p.1.1 sent selected in
      (
        first ∙ ap (λ rs. ok (RespValue.simple_string (codes "OK")) ∷ rs) others,
        all ∙ ap (reversed (select_commands x db)) told,
      )

  init-ok :
      (username password : Option Bytes) (replies rest : List (Outcome RespValue))
      (sent : List (List Bytes))
      → init scripted x username password db (replies, []) ≡ (ok tt, (rest, sent))
      → (replies ≡ oks (auth_commands username password ++ select_commands x db) ++ rest)
        × (sent ≡ reversed (auth_commands username password ++ select_commands x db) [])
  unfolding init auth auth_args
  init-ok username none replies rest sent h = select_db-ok x db replies rest [] sent h
  init-ok none (some pass) replies rest sent h =
      both-ok (codes "AUTH" ∷ pass ∷ []) replies rest sent h
  init-ok (some user) (some pass) replies rest sent h =
      both-ok (codes "AUTH" ∷ user ∷ pass ∷ []) replies rest sent h

accepted_all :
    (x : External) (username password : Option Bytes) (db : ℕ) (rest : List (Outcome RespValue))
    → init scripted x username password db
        (oks (auth_commands username password ++ select_commands x db) ++ rest, [])
      ≡ (ok tt, (rest, reversed (auth_commands username password ++ select_commands x db) []))
unfolding init auth auth_args after_auth select_db on_reply expect_ok
accepted_all x username none zero rest = refl
accepted_all x username none (suc db) rest = refl
accepted_all x none (some pass) zero rest = refl
accepted_all x none (some pass) (suc db) rest = refl
accepted_all x (some user) (some pass) zero rest = refl
accepted_all x (some user) (some pass) (suc db) rest = refl

-- However a server answers, `init` succeeds, with some replies left over and some commands sent,
-- exactly when the replies that it has read are OK, one for each command that is owed, and those
-- commands are all that it has sent, in their order: AUTH if there is a password, with the user before
-- it if there is one, then SELECT if the database is not 0.
pub init-accepted :
    (x : External) (username password : Option Bytes) (db : ℕ)
    (replies rest : List (Outcome RespValue)) (sent : List (List Bytes))
    → (init scripted x username password db (replies, []) ≡ (ok tt, (rest, sent))) ↔ (
        (replies ≡ oks (auth_commands username password ++ select_commands x db) ++ rest)
        × (sent ≡ reversed (auth_commands username password ++ select_commands x db) []))
init-accepted x username password db replies rest sent = (
  init-ok x db username password replies rest sent,
  λ h. rw (h.0, h.1) (accepted_all x username password db rest),
)

-- A command that `init` owes, with those that it sends before it.
pub data Owed (x : External)
    : Option Bytes → Option Bytes → ℕ → List (List Bytes) → List Bytes → Type 0 where
  owes_auth : {pass : Bytes} {db : ℕ} → Owed x none (some pass) db [] (codes "AUTH" ∷ pass ∷ [])
  owes_user_auth :
      {user pass : Bytes} {db : ℕ}
      → Owed x (some user) (some pass) db [] (codes "AUTH" ∷ user ∷ pass ∷ [])
  owes_select :
      {username password : Option Bytes} {db : ℕ}
      → Owed x username password
          (suc db)
          (auth_commands username password)
          (codes "SELECT" ∷ x.itoa (suc db) ∷ [])

-- Where a command that `init` owes is answered by anything but the simple string OK, and those before
-- it by OK, `init` fails with the message of the error, or with a report of the kind of the reply if
-- it is no simple error, and sends nothing after that command.
pub init-refused :
    (x : External) (username password : Option Bytes) (db : ℕ) (before : List (List Bytes))
    (cmd : List Bytes) (reply : RespValue) (rest : List (Outcome RespValue))
    → Owed x username password db before cmd
    → reply ≢ RespValue.simple_string (codes "OK")
    → init scripted x username password db (oks before ++ ok reply ∷ rest, [])
      ≡ (fail (refusal reply), (rest, cmd ∷ reversed before []))
unfolding init auth auth_args after_auth select_db on_reply
init-refused x none none zero before cmd reply rest owed h = elim owed [ ]
init-refused x (some user) none zero before cmd reply rest owed h = elim owed [ ]
init-refused x none (some pass) db before cmd reply rest owes_auth h =
    rw (expect_ok-refusal reply h) refl
init-refused x (some user) (some pass) db before cmd reply rest owes_user_auth h =
    rw (expect_ok-refusal reply h) refl
init-refused x none none (suc db) before cmd reply rest owes_select h =
    rw (expect_ok-refusal reply h) refl
init-refused x (some user) none (suc db) before cmd reply rest owes_select h =
    rw (expect_ok-refusal reply h) refl
init-refused x none (some pass) (suc db) before cmd reply rest owes_select h =
    rw (accepts_ok, expect_ok-refusal reply h) refl
init-refused x (some user) (some pass) (suc db) before cmd reply rest owes_select h =
    rw (accepts_ok, expect_ok-refusal reply h) refl
