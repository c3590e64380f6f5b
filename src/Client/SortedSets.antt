-- ===== src/Client/SortedSets.antt =====
-- src/client.rs: the commands on sorted sets, of the class Redis and of the class Pipeline.
use pyrsedis.Prelude.{ℕ, ℤ, refl, sym, Bool, Option, none, some, List, [], ◌∷◌, Bytes, codes}
use pyrsedis.Client.Args.{push, push_each, extend, push_scores, push_if, push_each-extend, SameArgs}
use pyrsedis.External.{External}
use pyrsedis.Text.Decimal.{int_to_string}

-- `if let (Some(o), Some(c)) = (offset, count)`.
unfoldable pub push_limit : Option ℤ → Option ℤ → List Bytes → List Bytes
push_limit none count cmd = cmd
push_limit (some o) none cmd = cmd
push_limit (some o) (some c) cmd =
    push (int_to_string c) (push (int_to_string o) (push (codes "LIMIT") cmd))

pub data SortedSetCommand : Type 0 where
  zadd :
      (name : Bytes) (mapping : List (Bytes × ℕ)) (nx : Bool) (xx : Bool) (gt : Bool) (lt : Bool)
      (ch : Bool)
      → SortedSetCommand
  zrem : (name : Bytes) (members : List Bytes) → SortedSetCommand
  zscore : (name : Bytes) (member : Bytes) → SortedSetCommand
  zrank : (name : Bytes) (member : Bytes) → SortedSetCommand
  zcard : (name : Bytes) → SortedSetCommand
  zcount : (name : Bytes) (min : Bytes) (max : Bytes) → SortedSetCommand
  zincrby : (name : Bytes) (amount : ℕ) (member : Bytes) → SortedSetCommand
  zrange : (name : Bytes) (start : ℤ) (stop : ℤ) (withscores : Bool) → SortedSetCommand
  zrevrange : (name : Bytes) (start : ℤ) (stop : ℤ) (withscores : Bool) → SortedSetCommand
  zrangebyscore :
      (name : Bytes) (min : Bytes) (max : Bytes) (withscores : Bool) (offset : Option ℤ)
      (count : Option ℤ)
      → SortedSetCommand
  zremrangebyscore : (name : Bytes) (min : Bytes) (max : Bytes) → SortedSetCommand
  zremrangebyrank : (name : Bytes) (start : ℤ) (stop : ℤ) → SortedSetCommand

module _ (x : External) where
  -- The arguments that the method of Redis sends.
  unfoldable pub redis_sorted_set : SortedSetCommand → List Bytes
  redis_sorted_set (zadd name mapping nx xx gt lt ch) = push_scores x mapping (
      push_if ch (codes "CH") (
        push_if lt (codes "LT") (
          push_if gt (codes "GT")
            (push_if xx (codes "XX") (push_if nx (codes "NX") (codes "ZADD" ∷ name ∷ []))))))
  redis_sorted_set (zrem name members) = push_each members (codes "ZREM" ∷ name ∷ [])
  redis_sorted_set (zscore name member) = codes "ZSCORE" ∷ name ∷ member ∷ []
  redis_sorted_set (zrank name member) = codes "ZRANK" ∷ name ∷ member ∷ []
  redis_sorted_set (zcard name) = codes "ZCARD" ∷ name ∷ []
  redis_sorted_set (zcount name min max) = codes "ZCOUNT" ∷ name ∷ min ∷ max ∷ []
  redis_sorted_set (zincrby name amount member) =
      codes "ZINCRBY" ∷ name ∷ x.show_f64 amount ∷ member ∷ []
  redis_sorted_set (zrange name start stop withscores) =
      push_if withscores (codes "WITHSCORES")
        (codes "ZRANGE" ∷ name ∷ int_to_string start ∷ int_to_string stop ∷ [])
  redis_sorted_set (zrevrange name start stop withscores) =
      push_if withscores (codes "WITHSCORES")
        (codes "ZREVRANGE" ∷ name ∷ int_to_string start ∷ int_to_string stop ∷ [])
  redis_sorted_set (zrangebyscore name min max withscores offset count) =
      push_limit offset count
        (push_if withscores (codes "WITHSCORES") (codes "ZRANGEBYSCORE" ∷ name ∷ min ∷ max ∷ []))
  redis_sorted_set (zremrangebyscore name min max) =
      codes "ZREMRANGEBYSCORE" ∷ name ∷ min ∷ max ∷ []
  redis_sorted_set (zremrangebyrank name start stop) =
      codes "ZREMRANGEBYRANK" ∷ name ∷ int_to_string start ∷ int_to_string stop ∷ []

  -- The command that the method of Pipeline pushes, where there is one.
  unfoldable pub pipeline_sorted_set : SortedSetCommand → Option (List Bytes)
  pipeline_sorted_set (zrem name members) = some (extend members (codes "ZREM" ∷ name ∷ []))
  pipeline_sorted_set (zscore name member) = some (codes "ZSCORE" ∷ name ∷ member ∷ [])
  pipeline_sorted_set (zrank name member) = some (codes "ZRANK" ∷ name ∷ member ∷ [])
  pipeline_sorted_set (zcard name) = some (codes "ZCARD" ∷ name ∷ [])
  pipeline_sorted_set (zincrby name amount member) =
      some (codes "ZINCRBY" ∷ name ∷ x.show_f64 amount ∷ member ∷ [])
  pipeline_sorted_set (zrange name start stop withscores) = some (
      push_if withscores (codes "WITHSCORES")
        (codes "ZRANGE" ∷ name ∷ int_to_string start ∷ int_to_string stop ∷ []))
  pipeline_sorted_set _ = none

  pub pipeline_sorted_set-SameArgs :
      (c : SortedSetCommand) → SameArgs (pipeline_sorted_set c) (redis_sorted_set c)
  unfolding redis_sorted_set pipeline_sorted_set SameArgs push extend
  pipeline_sorted_set-SameArgs (zadd name mapping nx xx gt lt ch) = tt
  pipeline_sorted_set-SameArgs (zrem name members) =
      sym (push_each-extend members (codes "ZREM" ∷ name ∷ []))
  pipeline_sorted_set-SameArgs (zscore name member) = refl
  pipeline_sorted_set-SameArgs (zrank name member) = refl
  pipeline_sorted_set-SameArgs (zcard name) = refl
  pipeline_sorted_set-SameArgs (zcount name min max) = tt
  pipeline_sorted_set-SameArgs (zincrby name amount member) = refl
  pipeline_sorted_set-SameArgs (zrange name start stop withscores) = refl
  pipeline_sorted_set-SameArgs (zrevrange name start stop withscores) = tt
  pipeline_sorted_set-SameArgs (zrangebyscore name min max withscores offset count) = tt
  pipeline_sorted_set-SameArgs (zremrangebyscore name min max) = tt
  pipeline_sorted_set-SameArgs (zremrangebyrank name start stop) = tt
