-- ===== src/Client/Basic.antt =====
-- src/client.rs: the commands on strings, counters and expiry, of the class Redis and of the class Pipeline.
use pyrsedis.Prelude.{ℕ, ℤ, refl, sym, Bool, Option, none, some, List, [], ◌∷◌, Bytes, codes}
use pyrsedis.Client.Args.{
  push, push_each, extend, push_pairs, push_if, push_number, push_each-extend, SameArgs,
}
use pyrsedis.External.{External}
use pyrsedis.Text.Decimal.{to_string, int_to_string}

pub data BasicCommand : Type 0 where
  ping : BasicCommand
  set :
      (name : Bytes) (value : Bytes) (ex : Option ℕ) (px : Option ℕ) (nx : Bool) (xx : Bool)
      → BasicCommand
  get : (name : Bytes) → BasicCommand
  delete : (names : List Bytes) → BasicCommand
  exists : (names : List Bytes) → BasicCommand
  expire : (name : Bytes) (seconds : ℕ) → BasicCommand
  ttl : (name : Bytes) → BasicCommand
  incr : (name : Bytes) → BasicCommand
  decr : (name : Bytes) → BasicCommand
  incrby : (name : Bytes) (amount : ℤ) → BasicCommand
  mget : (names : List Bytes) → BasicCommand
  mset : (mapping : List (Bytes × Bytes)) → BasicCommand

module _ (x : External) where
  -- The arguments that the method of Redis sends.
  unfoldable pub redis_basic : BasicCommand → List Bytes
  redis_basic ping = codes "PING" ∷ []
  redis_basic (set name value ex px nx xx) = push_if xx (codes "XX") (
      push_if nx (codes "NX") (
        push_number (codes "PX") px
          (push_number (codes "EX") ex (codes "SET" ∷ name ∷ value ∷ []))))
  redis_basic (get name) = codes "GET" ∷ name ∷ []
  redis_basic (delete names) = push_each names (codes "DEL" ∷ [])
  redis_basic (exists names) = push_each names (codes "EXISTS" ∷ [])
  redis_basic (expire name seconds) = codes "EXPIRE" ∷ name ∷ to_string seconds ∷ []
  redis_basic (ttl name) = codes "TTL" ∷ name ∷ []
  redis_basic (incr name) = codes "INCR" ∷ name ∷ []
  redis_basic (decr name) = codes "DECR" ∷ name ∷ []
  redis_basic (incrby name amount) = codes "INCRBY" ∷ name ∷ int_to_string amount ∷ []
  redis_basic (mget names) = push_each names (codes "MGET" ∷ [])
  redis_basic (mset mapping) = push_pairs mapping (codes "MSET" ∷ [])

  -- The command that the method of Pipeline pushes, where there is one.
  unfoldable pub pipeline_basic : BasicCommand → Option (List Bytes)
  pipeline_basic ping = some (codes "PING" ∷ [])
  pipeline_basic (set name value ex px nx xx) = some (
      push_if xx (codes "XX") (
        push_if nx (codes "NX") (
          push_number (codes "PX") px
            (push_number (codes "EX") ex (codes "SET" ∷ name ∷ value ∷ [])))))
  pipeline_basic (get name) = some (codes "GET" ∷ name ∷ [])
  pipeline_basic (delete names) = some (extend names (codes "DEL" ∷ []))
  pipeline_basic (exists names) = some (extend names (codes "EXISTS" ∷ []))
  pipeline_basic (expire name seconds) = some (codes "EXPIRE" ∷ name ∷ to_string seconds ∷ [])
  pipeline_basic (ttl name) = some (codes "TTL" ∷ name ∷ [])
  pipeline_basic (incr name) = some (codes "INCR" ∷ name ∷ [])
  pipeline_basic (decr name) = some (codes "DECR" ∷ name ∷ [])
  pipeline_basic (incrby name amount) = some (codes "INCRBY" ∷ name ∷ int_to_string amount ∷ [])
  pipeline_basic _ = none

  pub pipeline_basic-SameArgs : (c : BasicCommand) → SameArgs (pipeline_basic c) (redis_basic c)
  unfolding redis_basic pipeline_basic SameArgs push extend
  pipeline_basic-SameArgs ping = refl
  pipeline_basic-SameArgs (set name value ex px nx xx) = refl
  pipeline_basic-SameArgs (get name) = refl
  pipeline_basic-SameArgs (delete names) = sym (push_each-extend names (codes "DEL" ∷ []))
  pipeline_basic-SameArgs (exists names) = sym (push_each-extend names (codes "EXISTS" ∷ []))
  pipeline_basic-SameArgs (expire name seconds) = refl
  pipeline_basic-SameArgs (ttl name) = refl
  pipeline_basic-SameArgs (incr name) = refl
  pipeline_basic-SameArgs (decr name) = refl
  pipeline_basic-SameArgs (incrby name amount) = refl
  pipeline_basic-SameArgs (mget names) = tt
  pipeline_basic-SameArgs (mset mapping) = tt
