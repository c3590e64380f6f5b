-- ===== src/Connection/Pool/Reuse.antt =====
-- src/connection/pool.rs: which connection the queue gives back.
use pyrsedis.Prelude.{
  ℕ, ◌<◌, ◌≡◌, true, false, Option, none, some, List, [], ◌∷◌, ◌++◌, length, lt→ltb, Bool-cases,
  inl, inr, All,
}
use pyrsedis.Connection.Pool.{Settings, is_stale, take_healthy_connection, return_connection}

module _ {C : Type 0} (last_used : C → ℕ) (settings : Settings) (now : ℕ) where
  abbrev pub IsStale : C → Type 0
  IsStale conn = is_stale last_used settings now conn ≡ true

  -- The connections before the one that is given are stale, and it is not; or all are stale.
  pub data Takes : List C → Option C × List C → Type 0 where
    nothing : {idle : List C} → All IsStale idle → Takes idle (none, [])
    healthy :
        {conn : C} {rest : List C} (skipped : List C)
        → All IsStale skipped
        → is_stale last_used settings now conn ≡ false
        → Takes (skipped ++ conn ∷ rest) (some conn, rest)

  Takes-skip :
      {conn : C} {idle : List C} {r : Option C × List C}
      → IsStale conn
      → Takes idle r
      → Takes (conn ∷ idle) r
  Takes-skip h (nothing hs) = nothing (h, hs)
  Takes-skip {conn} h (healthy skipped hs fresh) = healthy (conn ∷ skipped) (h, hs) fresh

  -- The queue gives the connection that was returned last of those that are not stale, and loses that
  -- one and the stale ones behind which it stood; if all are stale it gives none, and is empty.
  pub take_healthy_connection-Takes :
      (idle : List C) → Takes idle (take_healthy_connection last_used settings now idle)
  unfolding take_healthy_connection
  take_healthy_connection-Takes [] = nothing tt
  take_healthy_connection-Takes (conn ∷ idle) =
      elim (Bool-cases (is_stale last_used settings now conn)) [
        | inl stale ↦ rw stale (Takes-skip stale (take_healthy_connection-Takes idle))
        | inr fresh ↦ rw fresh (healthy [] tt fresh)
      ]

  -- A connection that is not stale and goes back while the queue has room is the next that is given,
  -- and the queue is then as it was.
  pub take_healthy_connection-return_connection :
      (conn : C) (idle : List C)
      → is_stale last_used settings now conn ≡ false
      → length idle < settings.max_size
      → take_healthy_connection last_used settings now
          (return_connection last_used settings now conn idle)
        ≡ (some conn, idle)
  unfolding take_healthy_connection return_connection
  take_healthy_connection-return_connection conn idle fresh roomy =
      rw (fresh, lt→ltb (length idle) settings.max_size roomy, fresh)
