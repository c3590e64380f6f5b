-- ===== src/Client/Servers.antt =====
-- src/client.rs: the commands on the server, of the class Redis and of the class Pipeline.
use pyrsedis.Prelude.{ℕ, refl, sym, Option, none, some, List, [], ◌∷◌, Bytes, codes}
use pyrsedis.Client.Args.{push, push_each, extend, push_each-extend, SameArgs}
use pyrsedis.External.{External}
use pyrsedis.Text.Decimal.{to_string}

pub data ServerCommand : Type 0 where
  select : (db : ℕ) → ServerCommand
  flushall : ServerCommand
  randomkey : ServerCommand
  lastsave : ServerCommand
  echo : (message : Bytes) → ServerCommand
  publish : (channel : Bytes) (message : Bytes) → ServerCommand
  expireat : (name : Bytes) (when : ℕ) → ServerCommand
  dump : (name : Bytes) → ServerCommand
  unlink : (names : List Bytes) → ServerCommand
  time : ServerCommand
  keys : (pattern : Bytes) → ServerCommand
  flushdb : ServerCommand
  info : (section : Option Bytes) → ServerCommand
  dbsize : ServerCommand
  key_type : (name : Bytes) → ServerCommand

module _ (x : External) where
  -- The arguments that the method of Redis sends.
  unfoldable pub redis_server : ServerCommand → List Bytes
  redis_server (select db) = codes "SELECT" ∷ to_string db ∷ []
  redis_server flushall = codes "FLUSHALL" ∷ []
  redis_server randomkey = codes "RANDOMKEY" ∷ []
  redis_server lastsave = codes "LASTSAVE" ∷ []
  redis_server (echo message) = codes "ECHO" ∷ message ∷ []
  redis_server (publish channel message) = codes "PUBLISH" ∷ channel ∷ message ∷ []
  redis_server (expireat name when) = codes "EXPIREAT" ∷ name ∷ to_string when ∷ []
  redis_server (dump name) = codes "DUMP" ∷ name ∷ []
  redis_server (unlink names) = push_each names (codes "UNLINK" ∷ [])
  redis_server time = codes "TIME" ∷ []
  redis_server (keys pattern) = codes "KEYS" ∷ pattern ∷ []
  redis_server flushdb = codes "FLUSHDB" ∷ []
  redis_server (info none) = codes "INFO" ∷ []
  redis_server (info (some section)) = codes "INFO" ∷ section ∷ []
  redis_server dbsize = codes "DBSIZE" ∷ []
  redis_server (key_type name) = codes "TYPE" ∷ name ∷ []

  -- The command that the method of Pipeline pushes, where there is one.
  unfoldable pub pipeline_server : ServerCommand → Option (List Bytes)
  pipeline_server flushall = some (codes "FLUSHALL" ∷ [])
  pipeline_server (echo message) = some (codes "ECHO" ∷ message ∷ [])
  pipeline_server (publish channel message) = some (codes "PUBLISH" ∷ channel ∷ message ∷ [])
  pipeline_server (unlink names) = some (extend names (codes "UNLINK" ∷ []))
  pipeline_server time = some (codes "TIME" ∷ [])
  pipeline_server flushdb = some (codes "FLUSHDB" ∷ [])
  pipeline_server dbsize = some (codes "DBSIZE" ∷ [])
  pipeline_server (key_type name) = some (codes "TYPE" ∷ name ∷ [])
  pipeline_server _ = none

  pub pipeline_server-SameArgs : (c : ServerCommand) → SameArgs (pipeline_server c) (redis_server c)
  unfolding redis_server pipeline_server SameArgs push extend
  pipeline_server-SameArgs (select db) = tt
  pipeline_server-SameArgs flushall = refl
  pipeline_server-SameArgs randomkey = tt
  pipeline_server-SameArgs lastsave = tt
  pipeline_server-SameArgs (echo message) = refl
  pipeline_server-SameArgs (publish channel message) = refl
  pipeline_server-SameArgs (expireat name when) = tt
  pipeline_server-SameArgs (dump name) = tt
  pipeline_server-SameArgs (unlink names) = sym (push_each-extend names (codes "UNLINK" ∷ []))
  pipeline_server-SameArgs time = refl
  pipeline_server-SameArgs (keys pattern) = tt
  pipeline_server-SameArgs flushdb = refl
  pipeline_server-SameArgs (info none) = tt
  pipeline_server-SameArgs (info (some section)) = tt
  pipeline_server-SameArgs dbsize = refl
  pipeline_server-SameArgs (key_type name) = refl
