-- ===== src/Standalone/Tests.antt =====
-- A call that asks for one value, on a pool of two connections.
use pyrsedis.Prelude.{none, false, [], ◌∷◌, codes}
use pyrsedis.Connection.{Connection, received}
use pyrsedis.Connection.Buffer.Sample.{sample_buffer}
use pyrsedis.Connection.Pool.{Settings, new}
use pyrsedis.Connection.Pool.Bounded.{start}
use pyrsedis.External.Sample.{sample}
use pyrsedis.Outcome.{ok}
use pyrsedis.Standalone.{Peer, guarded, send_raw}
use pyrsedis.Standalone.Permits.{Returns, guarded-Returns}
use pyrsedis.Connection.{read_raw_response}

abbrev two : Settings
two = record { max_size = 2; idle_timeout = 10; tls = false }

abbrev fresh : Connection sample_buffer
fresh = record { buf = ([], 0); max_buf_size = 1000000; read_timeout = none; last_used = 0 }

-- The server closes the connection after the first byte.
abbrev closes : Peer
closes bytes = ok (received (codes ":") ∷ received [] ∷ [])

guarded-Returns_example : Returns sample_buffer two (new two) (
    guarded sample_buffer two 5
      (ok fresh)
      (send_raw sample_buffer 5 (codes "x") closes (read_raw_response sample_buffer sample 5))
      (new two))
guarded-Returns_example =
    guarded-Returns sample_buffer two 5 (ok fresh)
      (send_raw sample_buffer 5 (codes "x") closes (read_raw_response sample_buffer sample 5))
      (new two) start (λ e. cc) (λ e. cc)
