-- ===== src/Connection/Frames.antt =====
-- src/connection/tcp.rs: read_raw_response on a stream that comes in chunks.
use pyrsedis.Prelude.{
  ℕ, ◌≤◌, ◌≡◌, ◌≢◌, refl, sym, ap, ◌∙◌, List, [], ◌∷◌, ◌++◌, Bytes, length, take, drop,
  take-append_left,
}
use pyrsedis.Connection.{Read, Connection, stop, more, look_measured, look_frame, read_raw_response}
use pyrsedis.Connection.Buffer.{BytesMut}
use pyrsedis.Connection.Stream.{arriving, AllData, Reader, Delivers, chunks}
use pyrsedis.Error.{incomplete}
use pyrsedis.External.{External}
use pyrsedis.Outcome.{Outcome, ok, fail, panic, stuck}
use pyrsedis.Outcome.Rules.{Ensures, Ensures-ok, Ensures-weaken}
use pyrsedis.Resp.Frame.{resp_frame_len, frame_within}
use pyrsedis.Resp.Frame.Bounds.{resp_frame_len_bounds}
use pyrsedis.Resp.Frame.Stream.{resp_frame_len-append}

nil_frame : (x : External) → resp_frame_len x [] ≡ fail incomplete
unfolding resp_frame_len frame_within
nil_frame x = refl

-- The bytes of a frame that has been measured, and how many they are.
taken : Bytes → Outcome ℕ → Outcome (Bytes × ℕ)
taken s (ok len) = ok (take len s, len)
taken s (fail e) = fail e
taken s panic = panic
taken s stuck = stuck

taken-ok :
    (s : Bytes) (o : Outcome ℕ) {t : Bytes} {n : ℕ}
    → taken s o ≡ ok (t, n)
    → (o ≡ ok n) × (take n s ≡ t)
unfolding taken
taken-ok s (ok len) {t} {n} h = let e : len ≡ n = cc in (ap ok e, ap (λ k. take k s) (sym e) ∙ cc)
taken-ok s (fail e) h = (cc, cc)
taken-ok s panic h = (cc, cc)
taken-ok s stuck h = (cc, cc)

taken-incomplete : (s : Bytes) (o : Outcome ℕ) → taken s o ≡ fail incomplete → o ≡ fail incomplete
unfolding taken
taken-incomplete s (ok len) h = cc
taken-incomplete s (fail e) h = cc
taken-incomplete s panic h = cc
taken-incomplete s stuck h = cc

taken-append :
    (s t : Bytes) (o : Outcome ℕ) → Ensures ⊥ (λ n. n ≤ length s) o → taken (s ++ t) o ≡ taken s o
unfolding taken
taken-append s t (ok len) h = ap (λ u. ok (u, len)) (take-append_left len s t (Ensures-ok h refl))
taken-append s t (fail e) h = refl
taken-append s t panic h = refl
taken-append s t stuck h = refl

frame_at : External → Bytes → Outcome (Bytes × ℕ)
frame_at x s = taken s (resp_frame_len x s)

frame_at-append :
    (x : External) (s t : Bytes)
    → frame_at x s ≢ fail incomplete
    → frame_at x (s ++ t) ≡ frame_at x s
unfolding frame_at
frame_at-append x s t ne =
    ap (taken (s ++ t)) (resp_frame_len-append x s t (λ h. ne (unfold taken in ap (taken s) h)))
    ∙ taken-append s t (resp_frame_len x s)
        (Ensures-weaken (resp_frame_len_bounds x s) (λ a. a) (λ n h. h.1))

module _ (m : BytesMut) where
  -- read_raw_response takes the bytes of a frame.
  frame_more :
      (x : External) (b : m.Buf) (s : Bytes)
      → m.content b ≡ s
      → resp_frame_len x s ≡ fail incomplete
      → look_frame m x b ≡ more b
  unfolding look_frame look_measured
  frame_more x b [] e h = rw (look_frame, e) refl
  frame_more x b (c ∷ s) e h = rw (look_frame, e, h) refl

  frame_stop :
      (x : External) (b : m.Buf) (s : Bytes) {n : ℕ}
      → m.content b ≡ s
      → resp_frame_len x s ≡ ok n
      → look_frame m x b ≡ stop (ok (take n (m.content b))) (m.split_to n b)
  unfolding look_frame look_measured
  frame_stop x b [] e h = let nothing = nil_frame x in absurd (cc)
  frame_stop x b (c ∷ s) {n} e h = rw (look_frame, e, h, e) refl

  frames : External → Reader m Bytes
  unfolding frame_at
  frames x = record {
    look = look_frame m x;
    read = frame_at x;
    look-more =
        λ b h. (b, frame_more x b (m.content b) refl (taken-incomplete (m.content b) _ h), refl);
    look-stop = λ b v n h.
        let (measured, front) =
          taken-ok (m.content b) (resp_frame_len x (m.content b)) {t = v} {n = n} h in
        (
          m.split_to n b,
          frame_stop x b (m.content b) refl measured ∙ ap (λ t. stop (ok t) (m.split_to n b)) front,
          m.content-split_to n b (Ensures-ok (resp_frame_len_bounds x (m.content b)) measured).1,
        );
    read-append = frame_at-append x;
    read_within = λ s v n h.
        (Ensures-ok (resp_frame_len_bounds x s)
          (taken-ok s (resp_frame_len x s) {t = v} {n = n} h).0).1;
  }

  -- However a stream is cut into chunks that are not empty: if resp_frame_len measures a frame at its
  -- front, then read_raw_response returns exactly the bytes of that frame and leaves the rest of the
  -- stream, or it reports that the buffer has reached its limit. It never waits on.
  pub read_raw_response-Delivers :
      (x : External) (now : ℕ) {n : ℕ} (c : Connection m) (es : List Read)
      → AllData es
      → resp_frame_len x (m.content c.buf ++ arriving es) ≡ ok n
      → Delivers m c.max_buf_size
          (take n (m.content c.buf ++ arriving es))
          (drop n (m.content c.buf ++ arriving es))
          (read_raw_response m x now c es)
  unfolding read_raw_response frames frame_at taken
  read_raw_response-Delivers x now c es d h =
      chunks m (frames x) now es c d (ap (taken (m.content c.buf ++ arriving es)) h)
