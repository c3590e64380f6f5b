-- ===== src/Client/Hashes.antt =====
-- src/client.rs: the commands on hashes, of the class Redis and of the class Pipeline.
use pyrsedis.Prelude.{ℕ, ℤ, refl, sym, Option, none, some, List, [], ◌∷◌, Bytes, codes}
use pyrsedis.Client.Args.{push, push_each, extend, push_each-extend, SameArgs}
use pyrsedis.External.{External}
use pyrsedis.Text.Decimal.{int_to_string}

pub data HashCommand : Type 0 where
  hset : (name : Bytes) (key : Bytes) (value : Bytes) → HashCommand
  hget : (name : Bytes) (key : Bytes) → HashCommand
  hgetall : (name : Bytes) → HashCommand
  hdel : (name : Bytes) (keys : List Bytes) → HashCommand
  hexists : (name : Bytes) (key : Bytes) → HashCommand
  hkeys : (name : Bytes) → HashCommand
  hvals : (name : Bytes) → HashCommand
  hlen : (name : Bytes) → HashCommand
  hincrby : (name : Bytes) (key : Bytes) (amount : ℤ) → HashCommand
  hincrbyfloat : (name : Bytes) (key : Bytes) (amount : ℕ) → HashCommand
  hsetnx : (name : Bytes) (key : Bytes) (value : Bytes) → HashCommand
  hmget : (name : Bytes) (keys : List Bytes) → HashCommand

module _ (x : External) where
  -- The arguments that the method of Redis sends.
  unfoldable pub redis_hash : HashCommand → List Bytes
  redis_hash (hset name key value) = codes "HSET" ∷ name ∷ key ∷ value ∷ []
  redis_hash (hget name key) = codes "HGET" ∷ name ∷ key ∷ []
  redis_hash (hgetall name) = codes "HGETALL" ∷ name ∷ []
  redis_hash (hdel name keys) = push_each keys (codes "HDEL" ∷ name ∷ [])
  redis_hash (hexists name key) = codes "HEXISTS" ∷ name ∷ key ∷ []
  redis_hash (hkeys name) = codes "HKEYS" ∷ name ∷ []
  redis_hash (hvals name) = codes "HVALS" ∷ name ∷ []
  redis_hash (hlen name) = codes "HLEN" ∷ name ∷ []
  redis_hash (hincrby name key amount) = codes "HINCRBY" ∷ name ∷ key ∷ int_to_string amount ∷ []
  redis_hash (hincrbyfloat name key amount) =
      codes "HINCRBYFLOAT" ∷ name ∷ key ∷ x.show_f64 amount ∷ []
  redis_hash (hsetnx name key value) = codes "HSETNX" ∷ name ∷ key ∷ value ∷ []
  redis_hash (hmget name keys) = push_each keys (codes "HMGET" ∷ name ∷ [])

  -- The command that the method of Pipeline pushes, where there is one.
  unfoldable pub pipeline_hash : HashCommand → Option (List Bytes)
  pipeline_hash (hset name key value) = some (codes "HSET" ∷ name ∷ key ∷ value ∷ [])
  pipeline_hash (hget name key) = some (codes "HGET" ∷ name ∷ key ∷ [])
  pipeline_hash (hgetall name) = some (codes "HGETALL" ∷ name ∷ [])
  pipeline_hash (hdel name keys) = some (extend keys (codes "HDEL" ∷ name ∷ []))
  pipeline_hash (hexists name key) = some (codes "HEXISTS" ∷ name ∷ key ∷ [])
  pipeline_hash (hkeys name) = some (codes "HKEYS" ∷ name ∷ [])
  pipeline_hash (hvals name) = some (codes "HVALS" ∷ name ∷ [])
  pipeline_hash (hlen name) = some (codes "HLEN" ∷ name ∷ [])
  pipeline_hash (hincrby name key amount) =
      some (codes "HINCRBY" ∷ name ∷ key ∷ int_to_string amount ∷ [])
  pipeline_hash (hmget name keys) = some (extend keys (codes "HMGET" ∷ name ∷ []))
  pipeline_hash _ = none

  pub pipeline_hash-SameArgs : (c : HashCommand) → SameArgs (pipeline_hash c) (redis_hash c)
  unfolding redis_hash pipeline_hash SameArgs push extend
  pipeline_hash-SameArgs (hset name key value) = refl
  pipeline_hash-SameArgs (hget name key) = refl
  pipeline_hash-SameArgs (hgetall name) = refl
  pipeline_hash-SameArgs (hdel name keys) = sym (push_each-extend keys (codes "HDEL" ∷ name ∷ []))
  pipeline_hash-SameArgs (hexists name key) = refl
  pipeline_hash-SameArgs (hkeys name) = refl
  pipeline_hash-SameArgs (hvals name) = refl
  pipeline_hash-SameArgs (hlen name) = refl
  pipeline_hash-SameArgs (hincrby name key amount) = refl
  pipeline_hash-SameArgs (hincrbyfloat name key amount) = tt
  pipeline_hash-SameArgs (hsetnx name key value) = tt
  pipeline_hash-SameArgs (hmget name keys) = sym (push_each-extend keys (codes "HMGET" ∷ name ∷ []))
