-- ===== src/Client/Lists.antt =====
-- src/client.rs: the commands on lists, of the class Redis and of the class Pipeline.
use pyrsedis.Prelude.{ℕ, ℤ, refl, sym, Option, none, some, List, [], ◌∷◌, Bytes, codes}
use pyrsedis.Client.Args.{push, push_each, extend, push_each-extend, SameArgs}
use pyrsedis.External.{External}
use pyrsedis.Text.Decimal.{to_string, int_to_string}

pub data ListCommand : Type 0 where
  lpush : (name : Bytes) (values : List Bytes) → ListCommand
  rpush : (name : Bytes) (values : List Bytes) → ListCommand
  lrange : (name : Bytes) (start : ℤ) (stop : ℤ) → ListCommand
  llen : (name : Bytes) → ListCommand
  lpop : (name : Bytes) (count : Option ℕ) → ListCommand
  rpop : (name : Bytes) (count : Option ℕ) → ListCommand
  lindex : (name : Bytes) (index : ℤ) → ListCommand
  lset : (name : Bytes) (index : ℤ) (value : Bytes) → ListCommand
  lrem : (name : Bytes) (count : ℤ) (value : Bytes) → ListCommand

module _ (x : External) where
  -- The arguments that the method of Redis sends.
  unfoldable pub redis_list : ListCommand → List Bytes
  redis_list (lpush name values) = push_each values (codes "LPUSH" ∷ name ∷ [])
  redis_list (rpush name values) = push_each values (codes "RPUSH" ∷ name ∷ [])
  redis_list (lrange name start stop) =
      codes "LRANGE" ∷ name ∷ int_to_string start ∷ int_to_string stop ∷ []
  redis_list (llen name) = codes "LLEN" ∷ name ∷ []
  redis_list (lpop name none) = codes "LPOP" ∷ name ∷ []
  redis_list (lpop name (some c)) = codes "LPOP" ∷ name ∷ to_string c ∷ []
  redis_list (rpop name none) = codes "RPOP" ∷ name ∷ []
  redis_list (rpop name (some c)) = codes "RPOP" ∷ name ∷ to_string c ∷ []
  redis_list (lindex name index) = codes "LINDEX" ∷ name ∷ int_to_string index ∷ []
  redis_list (lset name index value) = codes "LSET" ∷ name ∷ int_to_string index ∷ value ∷ []
  redis_list (lrem name count value) = codes "LREM" ∷ name ∷ int_to_string count ∷ value ∷ []

  -- The command that the method of Pipeline pushes, where there is one.
  unfoldable pub pipeline_list : ListCommand → Option (List Bytes)
  pipeline_list (lpush name values) = some (extend values (codes "LPUSH" ∷ name ∷ []))
  pipeline_list (rpush name values) = some (extend values (codes "RPUSH" ∷ name ∷ []))
  pipeline_list (lrange name start stop) =
      some (codes "LRANGE" ∷ name ∷ int_to_string start ∷ int_to_string stop ∷ [])
  pipeline_list (llen name) = some (codes "LLEN" ∷ name ∷ [])
  pipeline_list (lpop name none) = some (codes "LPOP" ∷ name ∷ [])
  pipeline_list (lpop name (some c)) = some (push (to_string c) (codes "LPOP" ∷ name ∷ []))
  pipeline_list (rpop name none) = some (codes "RPOP" ∷ name ∷ [])
  pipeline_list (rpop name (some c)) = some (push (to_string c) (codes "RPOP" ∷ name ∷ []))
  pipeline_list (lindex name index) = some (codes "LINDEX" ∷ name ∷ int_to_string index ∷ [])
  pipeline_list _ = none

  pub pipeline_list-SameArgs : (c : ListCommand) → SameArgs (pipeline_list c) (redis_list c)
  unfolding redis_list pipeline_list SameArgs push extend
  pipeline_list-SameArgs (lpush name values) =
      sym (push_each-extend values (codes "LPUSH" ∷ name ∷ []))
  pipeline_list-SameArgs (rpush name values) =
      sym (push_each-extend values (codes "RPUSH" ∷ name ∷ []))
  pipeline_list-SameArgs (lrange name start stop) = refl
  pipeline_list-SameArgs (llen name) = refl
  pipeline_list-SameArgs (lpop name none) = refl
  pipeline_list-SameArgs (lpop name (some c)) = refl
  pipeline_list-SameArgs (rpop name none) = refl
  pipeline_list-SameArgs (rpop name (some c)) = refl
  pipeline_list-SameArgs (lindex name index) = refl
  pipeline_list-SameArgs (lset name index value) = tt
  pipeline_list-SameArgs (lrem name count value) = tt
