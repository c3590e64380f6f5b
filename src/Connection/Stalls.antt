-- ===== src/Connection/Stalls.antt =====
-- The loop of src/connection/tcp.rs on a stream that stalls, whatever it reads from its buffer.
use pyrsedis.Prelude.{
  ℕ, ◌≤◌, ◌≡◌, refl, sym, ap, subst, ◌∙◌, some, List, [], ◌∷◌, ◌++◌, append_assoc, append-nil,
  Bytes, inl, inr,
}
use pyrsedis.Connection.{
  Read, received, broken, timed_out, Connection, Reply, answered, with_buf, ready, turn, receive,
}
use pyrsedis.Connection.Buffer.{BytesMut}
use pyrsedis.Connection.Stream.{
  arriving, AllData, incomplete_or_not, Reader, room_cases, turn-more, turn-full, receive-done,
  receive-ready,
}
use pyrsedis.Error.{protocol, timeout, incomplete, buffer_too_large, read_timeout}
use pyrsedis.Outcome.{fail}

module _ (m : BytesMut) {A : Type 0} where
  -- The call ends with the error of the timer, with all that has been received in the buffer, and with
  -- the events behind the end of the timer unread; or the buffer has grown to its limit, and nothing
  -- of what has been received or was still to be read is lost.
  pub data TimesOut (max_buf_size : ℕ) (seen : Bytes) (es : List Read) : Reply m A → Type 0 where
    late :
        {c : Connection m}
        → m.content c.buf ≡ seen
        → TimesOut max_buf_size seen es (answered (fail (timeout read_timeout)) c es)
    crowded :
        {c : Connection m} (unread : List Read)
        → max_buf_size ≤ m.capacity c.buf
        → m.content c.buf ++ arriving unread ≡ seen
        → TimesOut max_buf_size seen es (
            answered (fail (protocol (buffer_too_large max_buf_size))) c (unread ++ timed_out ∷ es))

  module _ (r : Reader m A) (now : ℕ) where
    receive-timed_out :
        {c' : Connection m} {t : ℕ} (c : Connection m) (es : List Read)
        → turn m now (r.look c.buf) c ≡ ready c'
        → c'.read_timeout ≡ some t
        → receive m r.look now c (timed_out ∷ es) ≡ answered (fail (timeout read_timeout)) c' es
    unfolding receive
    receive-timed_out c es e timer = simp (receive, e, timer)

    -- However what comes before the end of the timer is cut into chunks.
    pub chunks-TimesOut :
        {t : ℕ} (came : List Read) (es : List Read) (c : Connection m)
        → AllData came
        → c.read_timeout ≡ some t
        → r.read (m.content c.buf ++ arriving came) ≡ fail incomplete
        → TimesOut c.max_buf_size
            (m.content c.buf ++ arriving came)
            es
            (receive m r.look now c (came ++ timed_out ∷ es))
    chunks-TimesOut [] es c d timer h =
        let still : m.content c.buf ++ [] ≡ m.content c.buf = append-nil (m.content c.buf) in
        let (b1, looked, same) = r.look-more c.buf (ap r.read (sym still) ∙ h) in
        elim (room_cases m c.max_buf_size b1) [
          | inr (refused, over) ↦
              rw (receive-done m r now c (timed_out ∷ es) (turn-full m now _ c looked refused))
                (crowded [] over (ap (λ s. s ++ []) same))
          | inl (b2, roomy, kept) ↦
              rw (receive-timed_out c es (turn-more m now _ c looked roomy) timer)
                (late (kept ∙ same ∙ sym still))
        ]
    chunks-TimesOut (broken code ∷ came) es c d timer h = absurd d
    chunks-TimesOut (timed_out ∷ came) es c d timer h = absurd d
    chunks-TimesOut (received [] ∷ came) es c d timer h = absurd (d.0 refl)
    chunks-TimesOut (received (b ∷ s) ∷ came) es c d timer h =
        elim (incomplete_or_not (r.read (m.content c.buf))) [
          | inr settled ↦ absurd (
              settled (
                sym (r.read-append (m.content c.buf) (arriving (received (b ∷ s) ∷ came)) settled)
                ∙ h))
          | inl waits ↦
              let (b1, looked, same) = r.look-more c.buf waits in
              elim (room_cases m c.max_buf_size b1) [
                | inr (refused, over) ↦
                    rw
                      (receive-done m r now c (received (b ∷ s) ∷ came ++ timed_out ∷ es)
                        (turn-full m now _ c looked refused))
                      (crowded (received (b ∷ s) ∷ came) over
                        (ap (λ u. u ++ arriving (received (b ∷ s) ∷ came)) same))
                | inl (b2, roomy, kept) ↦
                    let c2 = with_buf m (m.extend b2 (b ∷ s)) c in
                    let grown : m.content c2.buf ++ arriving came
                        ≡ m.content c.buf ++ (b ∷ s) ++ arriving came =
                      rw (m.content-extend b2 (b ∷ s), kept, same) in
                    let whole = grown ∙ append_assoc (m.content c.buf) (b ∷ s) (arriving came) in
                    rw
                      (receive-ready m r now c b s (came ++ timed_out ∷ es)
                        (turn-more m now _ c looked roomy))
                      (subst
                        (λ w.
                          TimesOut c.max_buf_size w es
                            (receive m r.look now c2 (came ++ timed_out ∷ es)))
                        whole (chunks-TimesOut came es c2 d.1 timer (ap r.read whole ∙ h)))
              ]
        ]
