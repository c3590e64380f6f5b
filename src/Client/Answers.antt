-- ===== src/Client/Answers.antt =====
-- src/client.rs: from the bytes of a reply to the Python object, through the pool, the connection and
-- the conversion.
use pyrsedis.Prelude.{
  ℕ, suc, ◌≡◌, ◌≤◌, ◌≢◌, refl, sym, ap, subst, ◌∙◌, Bool, some, List, [], ◌∷◌, ◌++◌, append-nil,
  Bytes, length, take, drop, take-append_length, drop-append_length, All,
}
use pyrsedis.Client.{Redis, settings_of}
use pyrsedis.Client.Calls.{Ran, returned, block_on, convert_raw, exec_raw, send}
use pyrsedis.Client.Pipeline.{Pipeline, convert_each, execute_commands, execute_pipeline, reset}
use pyrsedis.Connection.{Connection, Read, Reply, at_time, read_raw_response}
use pyrsedis.Connection.Buffer.{BytesMut}
use pyrsedis.Connection.Frames.{read_raw_response-Delivers}
use pyrsedis.Connection.Pool.{Settings, Pool, take_healthy_connection, granted}
use pyrsedis.Connection.Replies.{
  IsFrame, concat, DeliversAll, all_delivered, too_full, read_raw_responses,
  read_raw_responses-DeliversAll,
}
use pyrsedis.Connection.Stream.{arriving, AllData, Delivers, delivered, overfull}
use pyrsedis.Error.{protocol, buffer_too_large}
use pyrsedis.External.{External}
use pyrsedis.Outcome.{Outcome, ok}
use pyrsedis.Resp.Frame.{resp_frame_len}
use pyrsedis.Resp.Grammar.{Wire}
use pyrsedis.Resp.Types.{RespValue, Values}
use pyrsedis.Resp.Writer.{encode_command_str, encode_pipeline}
use pyrsedis.Response.Agreement.{convert, convert_values, FitsValue}
use pyrsedis.Response.Fused.{max_parse_depth}
use pyrsedis.Response.Python.{Python, PyResult, done, raised, from_error, lift, ◌>>=◌}
use pyrsedis.Standalone.{
  Peer, end_call, with_guard, get_connection, guarded, send_raw, execute_raw, pipeline_raw,
}
use pyrsedis.Client.Texts.{Wire-IsFrame, convert_raw-Wire, Texts, Texts-IsFrame, convert_each-Texts}

module _ (m : BytesMut) {B : Type 0} where
  -- The object, or the exception for a buffer that has grown to its limit.
  pub data Answers (max_buf_size : ℕ) (o : PyResult B) : Ran m B → Type 0 where
    answers : {after : Pool (Connection m)} → Answers max_buf_size o (returned o after)
    no_room :
        {after : Pool (Connection m)} (b : m.Buf)
        → max_buf_size ≤ m.capacity b
        → Answers max_buf_size o
            (returned (raised (from_error (protocol (buffer_too_large max_buf_size)))) after)

module _ (m : BytesMut) where
  -- The connection that the pool has ready, with nothing in its buffer.
  pub record Ready (settings : Settings) (now : ℕ) (pool : Pool (Connection m)) (c : Connection m)
      : Type 0 where
    pub permits : ℕ
    pub idle : List (Connection m)
    pub permitted : pool.permits ≡ suc permits
    pub found : take_healthy_connection (λ c. c.last_used) settings now pool.idle ≡ (some c, idle)
    pub clean : m.content c.buf ≡ []

  guarded-Ready :
      {A : Type 0} {settings : Settings} {now : ℕ} {pool : Pool (Connection m)} {c : Connection m}
      (connected : Outcome (Connection m)) (work : Connection m → Reply m A)
      (ready : Ready settings now pool c)
      → guarded m settings now connected work pool
        ≡ end_call m settings now pool.guards
            (work c)
            (granted ready.permits (some c, ready.idle) pool)
  unfolding guarded with_guard get_connection
  guarded-Ready connected work ready = rw (ready.permitted, ready.found) refl

  send_raw-sent :
      {A : Type 0} {es : List Read} (now : ℕ) (bytes : Bytes) (peer : Peer)
      (read : Connection m → List Read → Reply m A) (c : Connection m)
      → peer bytes ≡ ok es
      → send_raw m now bytes peer read c ≡ read (at_time m now c) es
  unfolding send_raw
  send_raw-sent now bytes peer read c e = rw (send_raw, e) refl

  block_on-Answers :
      {A B : Type 0} {max_buf_size : ℕ} {v : A} {rest : Bytes} {r : Reply m A} {o : PyResult B}
      (settings : Settings) (now : ℕ) (others : List (Connection m)) (pool : Pool (Connection m))
      (f : A → PyResult B)
      → Delivers m max_buf_size v rest r
      → f v ≡ o
      → Answers m max_buf_size o (block_on m (end_call m settings now others r pool) f)
  unfolding block_on end_call lift
  block_on-Answers settings now others pool f (delivered h d same) e = rw e answers
  block_on-Answers settings now others pool f (overfull {c} h) e = no_room c.buf h

  block_on_all-Answers :
      {A B : Type 0} {max_buf_size : ℕ} {vs : List A} {rest : Bytes} {r : Reply m (List A)}
      {o : PyResult B} (settings : Settings) (now : ℕ) (others : List (Connection m))
      (pool : Pool (Connection m)) (f : List A → PyResult B)
      → DeliversAll m max_buf_size vs rest r
      → f vs ≡ o
      → Answers m max_buf_size o (block_on m (end_call m settings now others r pool) f)
  unfolding block_on end_call lift
  block_on_all-Answers settings now others pool f (all_delivered h) e = rw e answers
  block_on_all-Answers settings now others pool f (too_full {c} h) e = no_room c.buf h

module _ (m : BytesMut) (x : External) (now : ℕ) where
  -- A frame and nothing else.
  frame_arrives :
      (c : Connection m) (es : List Read) (t : Bytes)
      → m.content c.buf ≡ []
      → AllData es
      → arriving es ≡ t
      → IsFrame x t
      → Delivers m c.max_buf_size t [] (read_raw_response m x now c es)
  frame_arrives c es t clean d whole frame =
      subst
        (λ (p : Bytes × Bytes). Delivers m c.max_buf_size p.0 p.1 (read_raw_response m x now c es))
        {x = (
          take (length t) (m.content c.buf ++ arriving es),
          drop (length t) (m.content c.buf ++ arriving es),
        )}
        {y = (t, [])} (rw (stream, take-append_length t [], drop-append_length t []) refl)
        (read_raw_response-Delivers m x now c es d
          (ap (resp_frame_len x) (stream ∙ append-nil t) ∙ frame))
    where
      stream : m.content c.buf ++ arriving es ≡ t ++ []
      stream = ap (λ s. s ++ arriving es) clean ∙ whole ∙ sym (append-nil t)

  frames_arrive :
      (c : Connection m) (es : List Read) (ts : List Bytes)
      → m.content c.buf ≡ []
      → AllData es
      → arriving es ≡ concat ts
      → All (IsFrame x) ts
      → DeliversAll m c.max_buf_size ts [] (read_raw_responses m x now (length ts) c es)
  frames_arrive c es ts clean d whole frames =
      read_raw_responses-DeliversAll m x now ts [] c es frames d
        (ap (λ s. s ++ arriving es) clean ∙ whole ∙ sym (append-nil (concat ts)))

module _ (m : BytesMut) (py : Python) (x : External) (r : Redis) (now : ℕ)
    (connected : Outcome (Connection m)) (peer : Peer) (pool : Pool (Connection m))
    (c : Connection m) where
  -- Where the pool has a connection ready and the server answers the bytes of the command, and only
  -- those, with the text of a value within the limits of the conversion, cut into chunks in any way:
  -- the call returns the conversion of that value, or the exception that the conversion raises, or
  -- the exception for a read buffer that has reached its limit. It never waits on.
  pub exec_raw-Answers :
      {v : RespValue} {s : Bytes} {es : List Read} (args : List Bytes)
      → Ready m (settings_of r.config) now pool c
      → peer (encode_command_str x args) ≡ ok es
      → AllData es
      → arriving es ≡ s
      → Wire x v s
      → FitsValue max_parse_depth v
      → Answers m c.max_buf_size
          (convert py r.decode_responses v)
          (exec_raw m py x r now connected peer args pool)
  unfolding exec_raw send execute_raw at_time
  exec_raw-Answers {v} {s} {es} args ready sent d whole w fits =
      rw
        (
          guarded-Ready m connected
              (send_raw m now (encode_command_str x args) peer (read_raw_response m x now)) ready,
          send_raw-sent m now (encode_command_str x args) peer (read_raw_response m x now) c sent,
        )
        (block_on-Answers m (settings_of r.config) now pool.guards
          (granted ready.permits (some c, ready.idle) pool) (convert_raw py x r.decode_responses)
          (frame_arrives m x now (at_time m now c) es s ready.clean d whole (Wire-IsFrame x w))
          (convert_raw-Wire py x r.decode_responses w fits))

  commands-Answers :
      {vs : Values} {ts : List Bytes} {es : List Read} (decode : Bool) (cmds : List (List Bytes))
      → Ready m (settings_of r.config) now pool c
      → cmds ≢ []
      → length cmds ≡ length ts
      → peer (encode_pipeline x cmds) ≡ ok es
      → AllData es
      → arriving es ≡ concat ts
      → Texts x vs ts
      → Answers m c.max_buf_size
          (convert_values py decode vs >>= λ items. done (py.list items))
          (execute_commands m py x r now connected peer decode cmds pool)
  unfolding execute_commands pipeline_raw at_time
  commands-Answers decode [] ready some_command same sent d whole texts = absurd (some_command refl)
  commands-Answers {vs} {ts} {es} decode (cmd ∷ cmds) ready some_command same sent d whole texts =
      rw
        (
          guarded-Ready m connected
              (send_raw m now (encode_pipeline x (cmd ∷ cmds)) peer
                (read_raw_responses m x now (length (cmd ∷ cmds))))
              ready,
          send_raw-sent m now (encode_pipeline x (cmd ∷ cmds)) peer
              (read_raw_responses m x now (length (cmd ∷ cmds))) c sent,
        )
        (block_on_all-Answers m (settings_of r.config) now pool.guards
          (granted ready.permits (some c, ready.idle) pool)
          (λ raws. convert_each py x decode raws >>= λ items. done (py.list items))
          (subst
            (λ n.
              DeliversAll m c.max_buf_size ts []
                (read_raw_responses m x now n (at_time m now c) es))
            (sym same)
            (frames_arrive m x now (at_time m now c) es ts ready.clean d whole
              (Texts-IsFrame x texts)))
          (ap (λ o. o >>= λ items. done (py.list items)) (convert_each-Texts py x decode texts)))

  -- Where the pool has a connection ready and the server answers the bytes of a pipeline's commands,
  -- written at once, with as many texts of values within the limits of the conversion, cut into chunks
  -- in any way: `execute` returns the list of the conversions in the order of the commands, or the
  -- first exception among them, or the exception for a read buffer that has reached its limit; the
  -- pipeline is empty then. It never waits on.
  pub execute_pipeline-Answers :
      {vs : Values} {ts : List Bytes} {es : List Read} (p : Pipeline)
      → Ready m (settings_of r.config) now pool c
      → p.commands ≢ []
      → length p.commands ≡ length ts
      → peer (encode_pipeline x p.commands) ≡ ok es
      → AllData es
      → arriving es ≡ concat ts
      → Texts x vs ts
      → Answers m c.max_buf_size
          (convert_values py p.decode_responses vs >>= λ items. done (py.list items))
          (execute_pipeline m py x r now connected peer p pool).0
        × ((execute_pipeline m py x r now connected peer p pool).1.commands ≡ [])
  unfolding execute_pipeline reset
  execute_pipeline-Answers p ready some_command same sent d whole texts = (
    commands-Answers p.decode_responses p.commands ready some_command same sent d whole texts,
    refl,
  )
