-- ===== src/Connection/Stream.antt =====
-- The loop of src/connection/tcp.rs on a stream that comes in chunks, whatever it reads from its buffer.
use pyrsedis.Prelude.{
  ℕ, ◌-◌, ◌*◌, ◌≤◌, ◌≡◌, ◌≢◌, refl, sym, ap, subst, ◌∙◌, List, [], ◌∷◌, ◌++◌, append_assoc,
  append-nil, Bytes, length, drop, drop-append_left, ltb, leb, if◌then◌else◌, arith, Bool-cases,
  inl, inr, ◌⊎◌,
}
use pyrsedis.Connection.{
  default_buf_capacity, Read, received, broken, timed_out, Connection, Reply, answered, Look, stop,
  more, with_buf, at_time, room, ensure_room, done, ready, end_loop, make_room, turn, receive,
}
use pyrsedis.Connection.Buffer.{BytesMut}
use pyrsedis.Error.{PyrsedisError, protocol, incomplete, buffer_too_large}
use pyrsedis.Outcome.{Outcome, ok, fail, panic, stuck}

-- The bytes that the events bring, where each brings some.
abbrev pub arriving : List Read → Bytes
arriving [] = []
arriving (received s ∷ es) = s ++ arriving es
arriving (broken code ∷ es) = []
arriving (timed_out ∷ es) = []

abbrev pub AllData : List Read → Type 0
AllData [] = Unit
AllData (received s ∷ es) = (s ≢ []) × AllData es
AllData (broken code ∷ es) = ⊥
AllData (timed_out ∷ es) = ⊥

room_amount :
    (max cap : ℕ)
    → ((k : ℕ) × (room max cap ≡ ok k))
      ⊎ ((room max cap ≡ fail (protocol (buffer_too_large max))) × (max ≤ cap))
unfolding room
room_amount max cap =
    let doubled = if leb default_buf_capacity (cap * 2) then cap * 2 else default_buf_capacity in
    elim (Bool-cases (ltb max doubled)) [
      | inr h ↦ inl (doubled - cap, rw h)
      | inl h ↦ elim (Bool-cases (leb max cap)) [
        | inl full ↦ inr (rw (h, full), ground arith)
        | inr below ↦ inl (max - cap, rw (h, below))
      ]
    ]

pub incomplete_or_not : {A : Type 0} (r : Outcome A) → (r ≡ fail incomplete) ⊎ (r ≢ fail incomplete)
incomplete_or_not (ok a) = inr (λ e. cc)
incomplete_or_not (fail incomplete) = inl refl
incomplete_or_not (fail (PyrsedisError.connection t)) = inr (λ p. cc)
incomplete_or_not (fail (PyrsedisError.protocol t)) = inr (λ p. cc)
incomplete_or_not (fail (PyrsedisError.redis k t)) = inr (λ p. cc)
incomplete_or_not (fail (PyrsedisError.graph t)) = inr (λ p. cc)
incomplete_or_not (fail (PyrsedisError.type_error t)) = inr (λ p. cc)
incomplete_or_not (fail (PyrsedisError.timeout t)) = inr (λ p. cc)
incomplete_or_not (fail (PyrsedisError.cluster t)) = inr (λ p. cc)
incomplete_or_not (fail (PyrsedisError.sentinel t)) = inr (λ p. cc)
incomplete_or_not panic = inr (λ e. cc)
incomplete_or_not stuck = inr (λ e. cc)

-- What a loop reads at the front of its buffer: the call that looks, and the function of the bytes
-- that it comes to, with how many of them it takes.
pub record Reader (m : BytesMut) (A : Type 0) : Type 0 where
  pub look : m.Buf → Look m A
  pub read : Bytes → Outcome (A × ℕ)
  pub look-more :
      (b : m.Buf)
      → read (m.content b) ≡ fail incomplete
      → (b' : m.Buf) × (look b ≡ more b') × (m.content b' ≡ m.content b)
  pub look-stop :
      (b : m.Buf) (v : A) (n : ℕ)
      → read (m.content b) ≡ ok (v, n)
      → (b' : m.Buf) × (look b ≡ stop (ok v) b') × (m.content b' ≡ drop n (m.content b))
  -- An answer stands however the buffer goes on, and takes no byte past it.
  pub read-append : (s t : Bytes) → read s ≢ fail incomplete → read (s ++ t) ≡ read s
  pub read_within : (s : Bytes) (v : A) (n : ℕ) → read s ≡ ok (v, n) → n ≤ length s

-- Room for a read keeps the content, and is refused only at the limit.
pub room_cases :
    (m : BytesMut) (max : ℕ) (b : m.Buf)
    → ((b' : m.Buf) × (ensure_room m max b ≡ ok b') × (m.content b' ≡ m.content b))
      ⊎ ((ensure_room m max b ≡ fail (protocol (buffer_too_large max))) × (max ≤ m.capacity b))
unfolding ensure_room
room_cases m max b = elim (Bool-cases (ltb (m.capacity b - length (m.content b)) 4096)) [
  | inr h ↦ inl (b, rw h, refl)
  | inl h ↦ elim (room_amount max (m.capacity b)) [
    | inl (k, e) ↦ inl (m.reserve k b, rw (h, e), m.content-reserve k b)
    | inr (e, full) ↦ inr (rw (h, e), full)
  ]
]

module _ (m : BytesMut) {A : Type 0} where
  -- The value is returned and `rest` is what is left to read, or the buffer has grown to its limit.
  pub data Delivers (max_buf_size : ℕ) (v : A) (rest : Bytes) : Reply m A → Type 0 where
    delivered :
        {c : Connection m} {es : List Read}
        → m.content c.buf ++ arriving es ≡ rest
        → AllData es
        → c.max_buf_size ≡ max_buf_size
        → Delivers max_buf_size v rest (answered (ok v) c es)
    overfull :
        {c : Connection m} {es : List Read}
        → max_buf_size ≤ m.capacity c.buf
        → Delivers max_buf_size v rest
            (answered (fail (protocol (buffer_too_large max_buf_size))) c es)

  pub turn-more :
      {b b' : m.Buf} (now : ℕ) (l : Look m A) (c : Connection m)
      → l ≡ more b
      → ensure_room m c.max_buf_size b ≡ ok b'
      → turn m now l c ≡ ready (with_buf m b' c)
  unfolding turn make_room
  turn-more now l c e h = rw (e, h)

  pub turn-full :
      {b : m.Buf} {err : PyrsedisError} (now : ℕ) (l : Look m A) (c : Connection m)
      → l ≡ more b
      → ensure_room m c.max_buf_size b ≡ fail err
      → turn m now l c ≡ done (fail err) (with_buf m b c)
  unfolding turn make_room
  turn-full now l c e h = rw (e, h)

  pub turn-stop :
      {b : m.Buf} {v : A} (now : ℕ) (l : Look m A) (c : Connection m)
      → l ≡ stop (ok v) b
      → turn m now l c ≡ done (ok v) (at_time m now (with_buf m b c))
  unfolding turn end_loop
  turn-stop now l c e = rw e

  module _ (r : Reader m A) (now : ℕ) where
    -- The loop ends with what `turn` ends with.
    pub receive-done :
        {o : Outcome A} {c' : Connection m} (c : Connection m) (es : List Read)
        → turn m now (r.look c.buf) c ≡ done o c'
        → receive m r.look now c es ≡ answered o c' es
    unfolding receive
    receive-done c [] e = rw (receive, e)
    receive-done c (ev ∷ es) e = rw (receive, e)

    pub receive-ready :
        {c' : Connection m} (c : Connection m) (b : ℕ) (s : Bytes) (es : List Read)
        → turn m now (r.look c.buf) c ≡ ready c'
        → receive m r.look now c (received (b ∷ s) ∷ es)
          ≡ receive m r.look now (with_buf m (m.extend c'.buf (b ∷ s)) c') es
    unfolding receive
    receive-ready c b s es e = rw (receive, e)

    -- What is in the buffer is enough.
    enough :
        {v : A} {n : ℕ} (c : Connection m) (es : List Read)
        → AllData es
        → r.read (m.content c.buf) ≡ ok (v, n)
        → Delivers c.max_buf_size v
            (drop n (m.content c.buf ++ arriving es))
            (receive m r.look now c es)
    unfolding at_time
    enough {v} {n} c es d h =
        let (b, seen, kept) = r.look-stop c.buf v n h in
        rw (receive-done c es (turn-stop now _ c seen)) (
          delivered
            (ap (λ s. s ++ arriving es) kept
              ∙ sym (
                  drop-append_left n (m.content c.buf) (arriving es)
                    (r.read_within (m.content c.buf) v n h)))
            d refl)

    -- However the stream is cut into chunks.
    pub chunks :
        {v : A} {n : ℕ} (es : List Read) (c : Connection m)
        → AllData es
        → r.read (m.content c.buf ++ arriving es) ≡ ok (v, n)
        → Delivers c.max_buf_size v
            (drop n (m.content c.buf ++ arriving es))
            (receive m r.look now c es)
    chunks [] c d h = enough c [] d (rw (append-nil (m.content c.buf)) at h)
    chunks (broken code ∷ es) c d h = absurd d
    chunks (timed_out ∷ es) c d h = absurd d
    chunks (received [] ∷ es) c d h = absurd (d.0 refl)
    chunks {v} {n} (received (b ∷ s) ∷ es) c d h =
        elim (incomplete_or_not (r.read (m.content c.buf))) [
          | inr settled ↦
              enough c (received (b ∷ s) ∷ es) d (
                sym (r.read-append (m.content c.buf) (arriving (received (b ∷ s) ∷ es)) settled)
                ∙ h)
          | inl waits ↦
              let (b1, looked, same) = r.look-more c.buf waits in
              elim (room_cases m c.max_buf_size b1) [
                | inr (refused, full) ↦
                    rw (receive-done c (received (b ∷ s) ∷ es) (turn-full now _ c looked refused))
                      (overfull full)
                | inl (b2, roomy, kept) ↦
                    let c2 = with_buf m (m.extend b2 (b ∷ s)) c in
                    let grown : m.content c2.buf ++ arriving es
                        ≡ m.content c.buf ++ (b ∷ s) ++ arriving es =
                      rw (m.content-extend b2 (b ∷ s), kept, same) in
                    let whole = grown ∙ append_assoc (m.content c.buf) (b ∷ s) (arriving es) in
                    rw (receive-ready c b s es (turn-more now _ c looked roomy)) (
                      subst (λ w. Delivers c.max_buf_size v (drop n w) (receive m r.look now c2 es))
                        whole (chunks es c2 d.1 (ap r.read whole ∙ h)))
              ]
        ]
