-- ===== src/Client/Sets.antt =====
-- src/client.rs: the commands on sets, of the class Redis and of the class Pipeline.
use pyrsedis.Prelude.{ℕ, refl, sym, Option, none, some, List, [], ◌∷◌, Bytes, codes}
use pyrsedis.Client.Args.{push, push_each, extend, push_each-extend, SameArgs}
use pyrsedis.External.{External}
use pyrsedis.Text.Decimal.{to_string}

pub data SetCommand : Type 0 where
  sadd : (name : Bytes) (members : List Bytes) → SetCommand
  smembers : (name : Bytes) → SetCommand
  scard : (name : Bytes) → SetCommand
  srem : (name : Bytes) (members : List Bytes) → SetCommand
  sismember : (name : Bytes) (value : Bytes) → SetCommand
  spop : (name : Bytes) (count : Option ℕ) → SetCommand
  sinter : (names : List Bytes) → SetCommand
  sunion : (names : List Bytes) → SetCommand
  sdiff : (names : List Bytes) → SetCommand

module _ (x : External) where
  -- The arguments that the method of Redis sends.
  unfoldable pub redis_set : SetCommand → List Bytes
  redis_set (sadd name members) = push_each members (codes "SADD" ∷ name ∷ [])
  redis_set (smembers name) = codes "SMEMBERS" ∷ name ∷ []
  redis_set (scard name) = codes "SCARD" ∷ name ∷ []
  redis_set (srem name members) = push_each members (codes "SREM" ∷ name ∷ [])
  redis_set (sismember name value) = codes "SISMEMBER" ∷ name ∷ value ∷ []
  redis_set (spop name none) = codes "SPOP" ∷ name ∷ []
  redis_set (spop name (some c)) = codes "SPOP" ∷ name ∷ to_string c ∷ []
  redis_set (sinter names) = push_each names (codes "SINTER" ∷ [])
  redis_set (sunion names) = push_each names (codes "SUNION" ∷ [])
  redis_set (sdiff names) = push_each names (codes "SDIFF" ∷ [])

  -- The command that the method of Pipeline pushes, where there is one.
  unfoldable pub pipeline_set : SetCommand → Option (List Bytes)
  pipeline_set (sadd name members) = some (extend members (codes "SADD" ∷ name ∷ []))
  pipeline_set (smembers name) = some (codes "SMEMBERS" ∷ name ∷ [])
  pipeline_set (scard name) = some (codes "SCARD" ∷ name ∷ [])
  pipeline_set (srem name members) = some (extend members (codes "SREM" ∷ name ∷ []))
  pipeline_set (sismember name value) = some (codes "SISMEMBER" ∷ name ∷ value ∷ [])
  pipeline_set _ = none

  pub pipeline_set-SameArgs : (c : SetCommand) → SameArgs (pipeline_set c) (redis_set c)
  unfolding redis_set pipeline_set SameArgs push extend
  pipeline_set-SameArgs (sadd name members) =
      sym (push_each-extend members (codes "SADD" ∷ name ∷ []))
  pipeline_set-SameArgs (smembers name) = refl
  pipeline_set-SameArgs (scard name) = refl
  pipeline_set-SameArgs (srem name members) =
      sym (push_each-extend members (codes "SREM" ∷ name ∷ []))
  pipeline_set-SameArgs (sismember name value) = refl
  pipeline_set-SameArgs (spop name none) = tt
  pipeline_set-SameArgs (spop name (some c)) = tt
  pipeline_set-SameArgs (sinter names) = tt
  pipeline_set-SameArgs (sunion names) = tt
  pipeline_set-SameArgs (sdiff names) = tt
