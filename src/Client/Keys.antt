-- ===== src/Client/Keys.antt =====
-- src/client.rs: the commands on keys and strings, of the class Redis and of the class Pipeline.
use pyrsedis.Prelude.{ℕ, ℤ, refl, Option, none, some, List, [], ◌∷◌, Bytes, codes}
use pyrsedis.Client.Args.{push, extend, push_number, push_text, SameArgs}
use pyrsedis.External.{External}
use pyrsedis.Text.Decimal.{to_string, int_to_string}

pub data KeyCommand : Type 0 where
  rename : (src : Bytes) (dst : Bytes) → KeyCommand
  persist : (name : Bytes) → KeyCommand
  pexpire : (name : Bytes) (millis : ℕ) → KeyCommand
  pttl : (name : Bytes) → KeyCommand
  scan : (cursor : ℕ) (match_pattern : Option Bytes) (count : Option ℕ) → KeyCommand
  append : (name : Bytes) (value : Bytes) → KeyCommand
  strlen : (name : Bytes) → KeyCommand
  getrange : (name : Bytes) (start : ℤ) (end : ℤ) → KeyCommand
  getset : (name : Bytes) (value : Bytes) → KeyCommand
  getdel : (name : Bytes) → KeyCommand
  setnx : (name : Bytes) (value : Bytes) → KeyCommand
  setex : (name : Bytes) (seconds : ℕ) (value : Bytes) → KeyCommand
  incrbyfloat : (name : Bytes) (amount : ℕ) → KeyCommand
  decrby : (name : Bytes) (amount : ℤ) → KeyCommand

module _ (x : External) where
  -- The arguments that the method of Redis sends.
  unfoldable pub redis_key : KeyCommand → List Bytes
  redis_key (rename src dst) = codes "RENAME" ∷ src ∷ dst ∷ []
  redis_key (persist name) = codes "PERSIST" ∷ name ∷ []
  redis_key (pexpire name millis) = codes "PEXPIRE" ∷ name ∷ to_string millis ∷ []
  redis_key (pttl name) = codes "PTTL" ∷ name ∷ []
  redis_key (scan cursor match_pattern count) =
      push_number (codes "COUNT") count
        (push_text (codes "MATCH") match_pattern (codes "SCAN" ∷ to_string cursor ∷ []))
  redis_key (append name value) = codes "APPEND" ∷ name ∷ value ∷ []
  redis_key (strlen name) = codes "STRLEN" ∷ name ∷ []
  redis_key (getrange name start end) =
      codes "GETRANGE" ∷ name ∷ int_to_string start ∷ int_to_string end ∷ []
  redis_key (getset name value) = codes "GETSET" ∷ name ∷ value ∷ []
  redis_key (getdel name) = codes "GETDEL" ∷ name ∷ []
  redis_key (setnx name value) = codes "SETNX" ∷ name ∷ value ∷ []
  redis_key (setex name seconds value) = codes "SETEX" ∷ name ∷ to_string seconds ∷ value ∷ []
  redis_key (incrbyfloat name amount) = codes "INCRBYFLOAT" ∷ name ∷ x.show_f64 amount ∷ []
  redis_key (decrby name amount) = codes "DECRBY" ∷ name ∷ int_to_string amount ∷ []

  -- The command that the method of Pipeline pushes, where there is one.
  unfoldable pub pipeline_key : KeyCommand → Option (List Bytes)
  pipeline_key (rename src dst) = some (codes "RENAME" ∷ src ∷ dst ∷ [])
  pipeline_key (persist name) = some (codes "PERSIST" ∷ name ∷ [])
  pipeline_key (append name value) = some (codes "APPEND" ∷ name ∷ value ∷ [])
  pipeline_key (strlen name) = some (codes "STRLEN" ∷ name ∷ [])
  pipeline_key (setnx name value) = some (codes "SETNX" ∷ name ∷ value ∷ [])
  pipeline_key (decrby name amount) = some (codes "DECRBY" ∷ name ∷ int_to_string amount ∷ [])
  pipeline_key _ = none

  pub pipeline_key-SameArgs : (c : KeyCommand) → SameArgs (pipeline_key c) (redis_key c)
  unfolding redis_key pipeline_key SameArgs push extend
  pipeline_key-SameArgs (rename src dst) = refl
  pipeline_key-SameArgs (persist name) = refl
  pipeline_key-SameArgs (pexpire name millis) = tt
  pipeline_key-SameArgs (pttl name) = tt
  pipeline_key-SameArgs (scan cursor match_pattern count) = tt
  pipeline_key-SameArgs (append name value) = refl
  pipeline_key-SameArgs (strlen name) = refl
  pipeline_key-SameArgs (getrange name start end) = tt
  pipeline_key-SameArgs (getset name value) = tt
  pipeline_key-SameArgs (getdel name) = tt
  pipeline_key-SameArgs (setnx name value) = refl
  pipeline_key-SameArgs (setex name seconds value) = tt
  pipeline_key-SameArgs (incrbyfloat name amount) = tt
  pipeline_key-SameArgs (decrby name amount) = refl
