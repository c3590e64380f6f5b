-- ===== src/Connection.antt =====
-- src/connection/tcp.rs: a connection, its read buffer and the loops that wait for a reply. What the
-- socket yields is a list of events; the socket itself, and how it is opened, are no part of the
-- model.
pub mod Buffer
pub mod Chunks
pub mod Stream
pub mod Stalls
pub mod Frames
pub mod Pool
pub mod Replies
pub mod Session
mod Tests
use pyrsedis.Prelude.{
  ℕ, ◌+◌, ◌-◌, ◌*◌, ◌≡◌, Bool, true, false, Option, none, some, List, [], ◌∷◌, Bytes, length, drop,
  take, ltb, leb, if◌then◌else◌,
}
use pyrsedis.Connection.Buffer.{BytesMut}
use pyrsedis.Error.{
  PyrsedisError, protocol, connection, timeout, incomplete, buffer_too_large, read_timeout,
  server_closed, io_error,
}
use pyrsedis.External.{External}
use pyrsedis.Outcome.{Outcome, ok, fail, panic, stuck, ◌>>=◌}
use pyrsedis.Resp.Frame.{resp_frame_len}
use pyrsedis.Resp.Parser.{parse, Parsed}
use pyrsedis.Resp.Types.{RespValue}

-- What a read of the socket comes to: some bytes, none at the end of the stream, an error of the
-- operating system, or the end of the timer, if there is one.
pub data Read : Type 0 where
  received : Bytes → Read
  broken : ℕ → Read
  timed_out : Read

module _ (m : BytesMut) where
  -- RedisConnection, without its stream. Durations and instants are numbers of milliseconds.
  pub record Connection : Type 0 where
    pub buf : m.Buf
    pub max_buf_size : ℕ
    pub read_timeout : Option ℕ
    pub last_used : ℕ

  -- An answer with the state that it leaves and the events that it has not read; or the call still
  -- waits.
  pub data Reply (A : Type 0) : Type 0 where
    answered : Outcome A → Connection → List Read → Reply A
    waiting : Connection → Reply A

  -- A look at the buffer: the loop ends, or it needs more bytes.
  pub data Look (A : Type 0) : Type 0 where
    stop : Outcome A → m.Buf → Look A
    more : m.Buf → Look A

abbrev pub default_buf_capacity : ℕ
default_buf_capacity = 64 * 1024

-- Room for the next read, within the limit: how many bytes to reserve.
unfoldable pub room : ℕ → ℕ → Outcome ℕ
room max_buf_size cap =
    let new_cap = if leb default_buf_capacity (cap * 2) then cap * 2 else default_buf_capacity in
    if ltb max_buf_size new_cap
    then if leb max_buf_size cap
      then fail (protocol (buffer_too_large max_buf_size))
      else ok (max_buf_size - cap)
    else ok (new_cap - cap)

module _ (m : BytesMut) where
  unfoldable pub set_read_timeout : ℕ → Connection m → Connection m
  set_read_timeout timeout_ms c = record {
    buf = c.buf;
    max_buf_size = c.max_buf_size;
    read_timeout = if ltb 0 timeout_ms then some timeout_ms else none;
    last_used = c.last_used;
  }

  abbrev pub with_buf : m.Buf → Connection m → Connection m
  with_buf b c = record {
    buf = b;
    max_buf_size = c.max_buf_size;
    read_timeout = c.read_timeout;
    last_used = c.last_used;
  }

  unfoldable pub at_time : ℕ → Connection m → Connection m
  at_time now c = record {
    buf = c.buf;
    max_buf_size = c.max_buf_size;
    read_timeout = c.read_timeout;
    last_used = now;
  }

  -- The buffer with what `parse` has not consumed put back.
  unfoldable pub put_back : ℕ → m.Buf → m.Buf
  put_back consumed b =
      if ltb consumed (length (m.content b))
      then m.extend (m.split b) (drop consumed (m.content b))
      else m.split b

  unfoldable pub look_parsed : Parsed → m.Buf → Look m RespValue
  look_parsed (ok (value, consumed)) b = stop (ok value) (put_back consumed b)
  look_parsed (fail incomplete) b = more (m.extend (m.split b) (m.content b))
  look_parsed (fail e) b = stop (fail e) (m.extend (m.split b) (m.content b))
  look_parsed panic b = stop panic (m.split b)
  look_parsed stuck b = stop stuck (m.split b)

  -- The start of the loop of read_response, on a buffer with this content.
  unfoldable pub look_content : External → Bytes → m.Buf → Look m RespValue
  look_content x [] b = more b
  look_content x (c ∷ s) b = look_parsed (parse x (c ∷ s)) b

  unfoldable pub look_value : External → m.Buf → Look m RespValue
  look_value x b = look_content x (m.content b) b

  unfoldable pub look_measured : Outcome ℕ → m.Buf → Look m Bytes
  look_measured (ok len) b = stop (ok (take len (m.content b))) (m.split_to len b)
  look_measured (fail incomplete) b = more b
  look_measured (fail e) b = stop (fail e) b
  look_measured panic b = stop panic b
  look_measured stuck b = stop stuck b

  -- The loop of read_raw_response up to the read.
  unfoldable pub look_frame : External → m.Buf → Look m Bytes
  look_frame x b = elim (m.content b) [
    | [] ↦ more b
    | c ∷ s ↦ look_measured (resp_frame_len x (c ∷ s)) b
  ]

  unfoldable pub ensure_room : ℕ → m.Buf → Outcome m.Buf
  ensure_room max_buf_size b =
      if ltb (m.capacity b - length (m.content b)) 4096
      then room max_buf_size (m.capacity b) >>= (λ additional. ok (m.reserve additional b))
      else ok b

  -- The loop up to the read: it ends, or it is ready to read.
  pub data Turn (A : Type 0) : Type 0 where
    done : Outcome A → Connection m → Turn A
    ready : Connection m → Turn A

  unfoldable pub end_loop : {A : Type 0} → ℕ → Outcome A → Connection m → Turn A
  end_loop now (ok a) c = done (ok a) (at_time now c)
  end_loop now (fail e) c = done (fail e) c
  end_loop now panic c = done panic c
  end_loop now stuck c = done stuck c

  unfoldable pub make_room : {A : Type 0} → Outcome m.Buf → m.Buf → Connection m → Turn A
  make_room (ok b') b c = ready (with_buf b' c)
  make_room (fail e) b c = done (fail e) (with_buf b c)
  make_room panic b c = done panic (with_buf b c)
  make_room stuck b c = done stuck (with_buf b c)

  unfoldable pub turn : {A : Type 0} → ℕ → Look m A → Connection m → Turn A
  turn now (stop r b) c = end_loop now r (with_buf b c)
  turn now (more b) c = make_room (ensure_room c.max_buf_size b) b c

  -- read_response and read_raw_response share this loop. Where there is no timer, it does not end,
  -- and the call waits on.
  unfoldable pub receive :
      {A : Type 0} → (m.Buf → Look m A) → ℕ → Connection m → List Read → Reply m A
  receive look now c [] = elim (turn now (look c.buf) c) [
    | done r c' ↦ answered r c' []
    | ready c' ↦ waiting c'
  ]
  receive look now c (e ∷ es) = elim (turn now (look c.buf) c) [
    | done r c' ↦ answered r c' (e ∷ es)
    | ready c' ↦ elim e [
      | received s ↦ elim s [
        | [] ↦ answered (fail (connection server_closed)) c' es
        | b ∷ bs ↦ receive look now (with_buf (m.extend c'.buf (b ∷ bs)) c') es
      ]
      | broken code ↦ answered (fail (connection (io_error code))) c' es
      | timed_out ↦ elim c'.read_timeout [
        | none ↦ waiting c'
        | some _ ↦ answered (fail (timeout read_timeout)) c' es
      ]
    ]
  ]

  unfoldable pub read_response : External → ℕ → Connection m → List Read → Reply m RespValue
  read_response x now c es = receive (look_value x) now c es

  unfoldable pub read_raw_response : External → ℕ → Connection m → List Read → Reply m Bytes
  read_raw_response x now c es = receive (look_frame x) now c es
