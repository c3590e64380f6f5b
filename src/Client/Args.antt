-- ===== src/Client/Args.antt =====
-- src/client.rs: how its methods build the arguments of a command.
use pyrsedis.Prelude.{
  ℕ, ◌≡◌, sym, ◌∙◌, Bool, true, false, Option, none, some, List, [], ◌∷◌, ◌++◌, append_assoc,
  append-nil, Bytes, codes,
}
use pyrsedis.External.{External}
use pyrsedis.Text.Decimal.{to_string}

-- `cmd.push(…)`.
unfoldable pub push : Bytes → List Bytes → List Bytes
push arg cmd = cmd ++ (arg ∷ [])

-- `for n in &names { cmd.push(n); }`.
unfoldable pub push_each : List Bytes → List Bytes → List Bytes
push_each [] cmd = cmd
push_each (name ∷ names) cmd = push_each names (push name cmd)

-- `cmd.extend(names)`.
unfoldable pub extend : List Bytes → List Bytes → List Bytes
extend names cmd = cmd ++ names

-- `for (k, v) in mapping.iter()`, with the key and the value as strings.
unfoldable pub push_pairs : List (Bytes × Bytes) → List Bytes → List Bytes
push_pairs [] cmd = cmd
push_pairs ((k, v) ∷ pairs) cmd = push_pairs pairs (push v (push k cmd))

-- `for (member, score) in mapping.iter()`, with the score printed first.
unfoldable pub push_scores : External → List (Bytes × ℕ) → List Bytes → List Bytes
push_scores x [] cmd = cmd
push_scores x ((member, score) ∷ pairs) cmd =
    push_scores x pairs (push member (push (x.show_f64 score) cmd))

-- `if test { cmd.push(…) }`.
unfoldable pub push_if : Bool → Bytes → List Bytes → List Bytes
push_if true arg cmd = push arg cmd
push_if false arg cmd = cmd

-- `if let Some(n) = option { cmd.push(word); cmd.push(n.to_string()) }`.
unfoldable pub push_number : Bytes → Option ℕ → List Bytes → List Bytes
push_number word none cmd = cmd
push_number word (some n) cmd = push (to_string n) (push word cmd)

unfoldable pub push_text : Bytes → Option Bytes → List Bytes → List Bytes
push_text word none cmd = cmd
push_text word (some s) cmd = push s (push word cmd)

-- `if let Some(ms) = timeout { cmd.push(format!("timeout {ms}")) }`.
unfoldable pub push_timeout : Option ℕ → List Bytes → List Bytes
push_timeout none cmd = cmd
push_timeout (some ms) cmd = push (codes "timeout " ++ to_string ms) cmd

-- Pushing one by one is extending.
pub push_each-extend : (names cmd : List Bytes) → push_each names cmd ≡ extend names cmd
unfolding push_each push extend
push_each-extend [] cmd = sym (append-nil cmd)
push_each-extend (name ∷ names) cmd =
    push_each-extend names (push name cmd) ∙ append_assoc cmd (name ∷ []) names

-- What both clients build, where Pipeline has the method.
unfoldable pub SameArgs : Option (List Bytes) → List Bytes → Type 0
SameArgs none args = Unit
SameArgs (some cmd) args = cmd ≡ args
