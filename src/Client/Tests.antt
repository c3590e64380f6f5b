-- ===== src/Client/Tests.antt =====
-- The client on one connection, and the theorems at its calls.
use pyrsedis.Prelude.{◌≡◌, ◌⊎◌, refl, true, none, some, [], ◌∷◌, codes, pos, arith}
use pyrsedis.Client.{
  Redis, Command, on_basic, on_any, redis_args, pipeline_args, pipeline_args-redis_args,
  settings_of,
}
use pyrsedis.Client.Answers.{Answers, Ready, exec_raw-Answers, execute_pipeline-Answers}
use pyrsedis.Client.Args.{extend}
use pyrsedis.Client.Basic.{delete, pipeline_basic}
use pyrsedis.Client.Calls.{exec_raw}
use pyrsedis.Client.Pipeline.{Pipeline, execute_pipeline}
use pyrsedis.Client.Texts.{Texts, text}
use pyrsedis.Config.{default}
use pyrsedis.Connection.{Connection, received}
use pyrsedis.Connection.Buffer.Sample.{sample_buffer}
use pyrsedis.Connection.Pool.{Pool, take_healthy_connection, is_stale}
use pyrsedis.External.Sample.{sample}
use pyrsedis.Outcome.{ok, fail}
use pyrsedis.Error.{type_error, no_command}
use pyrsedis.Resp.Grammar.{line, Wire, plain, IsDigits}
use pyrsedis.Resp.Types.{RespValue, nil, cons}
use pyrsedis.Response.Agreement.{convert, convert_values, FitsValue}
use pyrsedis.Response.Python.{done, ◌>>=◌}
use pyrsedis.Response.Python.Sample as Objects
use pyrsedis.Standalone.{Peer}

abbrev deletes : Command
deletes = on_basic (delete (codes "a" ∷ codes "b" ∷ []))

pushes : pipeline_args sample deletes ≡ some (codes "DEL" ∷ codes "a" ∷ codes "b" ∷ [])
unfolding pipeline_args pipeline_basic extend
pushes = refl

pipeline_args-redis_args_example :
    (redis_args sample deletes ≡ ok (codes "DEL" ∷ codes "a" ∷ codes "b" ∷ []))
    ⊎ ((deletes ≡ on_any [])
        × (codes "DEL" ∷ codes "a" ∷ codes "b" ∷ [] ≡ [])
        × (redis_args sample deletes ≡ fail (type_error no_command)))
pipeline_args-redis_args_example = pipeline_args-redis_args sample deletes pushes

abbrev client : Redis
client = record { config = default; addr = codes "127.0.0.1:6379"; decode_responses = true }

abbrev idle_connection : Connection sample_buffer
idle_connection = record {
  buf = ([], 0);
  max_buf_size = 1000000;
  read_timeout = none;
  last_used = 4;
}

abbrev one_idle : Pool (Connection sample_buffer)
one_idle = record { idle = idle_connection ∷ []; permits = 8; connecting = 0; guards = [] }

idle_Ready : Ready sample_buffer (settings_of default) 5 one_idle idle_connection
unfolding take_healthy_connection is_stale settings_of default
idle_Ready = record { permits = 7; idle = []; permitted = refl; found = refl; clean = refl }

-- A server that answers everything with `:7` in two chunks, and a second one with two replies.
abbrev counts : Peer
counts bytes = ok (received (58 ∷ 55 ∷ []) ∷ received (13 ∷ 10 ∷ []) ∷ [])

abbrev counts_twice : Peer
counts_twice bytes = ok (received (58 ∷ 55 ∷ []) ∷ received (13 ∷ 10 ∷ 58 ∷ 55 ∷ 13 ∷ 10 ∷ []) ∷ [])

seven_digit : IsDigits (codes "7")
seven_digit = record { filled = λ e. cc; digits = ((omega arith, omega arith), tt) }

seven_Wire : Wire sample (RespValue.integer (pos 7)) (line b':' (codes "7") [])
seven_Wire = Wire.integer (plain seven_digit (omega arith))

exec_raw-Answers_example :
    Answers sample_buffer 1000000 (convert Objects.sample true (RespValue.integer (pos 7))) (
      exec_raw sample_buffer Objects.sample sample client 5
        (ok idle_connection)
        counts
        (codes "INCR" ∷ codes "k" ∷ [])
        one_idle)
unfolding FitsValue
exec_raw-Answers_example =
    exec_raw-Answers sample_buffer Objects.sample sample client 5 (ok idle_connection) counts
      one_idle idle_connection (codes "INCR" ∷ codes "k" ∷ []) idle_Ready refl
      ((λ e. cc), ((λ e. cc), tt)) refl seven_Wire tt

abbrev two_increments : Pipeline
two_increments = record {
  commands = (codes "INCR" ∷ codes "k" ∷ []) ∷ (codes "INCR" ∷ codes "k" ∷ []) ∷ [];
  decode_responses = true;
}

execute_pipeline-Answers_example :
    Answers sample_buffer 1000000
      (convert_values Objects.sample true
          (cons (RespValue.integer (pos 7)) (cons (RespValue.integer (pos 7)) nil))
        >>= λ items. done (Objects.sample.list items))
      (execute_pipeline sample_buffer Objects.sample sample client 5
        (ok idle_connection)
        counts_twice
        two_increments
        one_idle).0
    × ((execute_pipeline sample_buffer Objects.sample sample client 5
          (ok idle_connection)
          counts_twice
          two_increments
          one_idle).1.commands
        ≡ [])
unfolding FitsValue
execute_pipeline-Answers_example =
    execute_pipeline-Answers sample_buffer Objects.sample sample client 5 (ok idle_connection)
      counts_twice one_idle idle_connection two_increments idle_Ready (λ e. cc) refl refl
      ((λ e. cc), ((λ e. cc), tt)) refl (text seven_Wire tt (text seven_Wire tt Texts.none))
