-- ===== src/Connection/Chunks.antt =====
-- src/connection/tcp.rs: read_response on a stream that comes in chunks, and on one that stalls.
use pyrsedis.Prelude.{
  ℕ, zero, suc, ◌≤◌, ◌≡◌, refl, sym, ◌∙◌, some, List, [], ◌∷◌, ◌++◌, Bytes, length, drop, ltb,
  ltb→le, arith, Bool-cases, inl, inr,
}
use pyrsedis.Connection.{
  Read, timed_out, Connection, stop, more, put_back, look_parsed, look_content, look_value,
  read_response,
}
use pyrsedis.Connection.Buffer.{BytesMut}
use pyrsedis.Connection.Stalls.{TimesOut, chunks-TimesOut}
use pyrsedis.Connection.Stream.{arriving, AllData, Reader, Delivers, chunks}
use pyrsedis.Error.{incomplete}
use pyrsedis.External.{External}
use pyrsedis.Outcome.{ok, fail}
use pyrsedis.Outcome.Rules.{Ensures-ok}
use pyrsedis.Resp.Parser.{parse, parse_within}
use pyrsedis.Resp.Parser.Bounds.{parse_bounds}
use pyrsedis.Resp.Parser.Stream.{parse-append}
use pyrsedis.Resp.Types.{RespValue}

parse-nil : (x : External) → parse x [] ≡ fail incomplete
unfolding parse parse_within
parse-nil x = refl

module _ (m : BytesMut) where
  content-put_back : (n : ℕ) (b : m.Buf) → m.content (put_back m n b) ≡ drop n (m.content b)
  unfolding put_back
  content-put_back n b = elim (Bool-cases (ltb n (length (m.content b)))) [
    | inl h ↦ rw (h, m.content-extend (m.split b) (drop n (m.content b)), m.content-split b)
    | inr h ↦ rw (h, m.content-split b) (sym (drop-all n (m.content b) (ltb→le n _ h)))
  ]
    where
      drop-all : (k : ℕ) (s : Bytes) → length s ≤ k → drop k s ≡ []
      drop-all zero [] le = refl
      drop-all (suc k) [] le = refl
      drop-all zero (c ∷ s) le = absurd (omega arith)
      drop-all (suc k) (c ∷ s) le = drop-all k s (omega arith)

  content-restored : (b : m.Buf) → m.content (m.extend (m.split b) (m.content b)) ≡ m.content b
  content-restored b = rw (m.content-extend (m.split b) (m.content b), m.content-split b)

  module _ (x : External) where
    look-incomplete :
        (s : Bytes) (b : m.Buf)
        → m.content b ≡ s
        → parse x s ≡ fail incomplete
        → (b' : m.Buf) × (look_content m x s b ≡ more b') × (m.content b' ≡ s)
    unfolding look_content look_parsed
    look-incomplete [] b e h = (b, refl, e)
    look-incomplete (c ∷ s) b e h =
        (m.extend (m.split b) (m.content b), rw h, content-restored b ∙ e)

    look-value :
        (s : Bytes) (b : m.Buf) {v : RespValue} {n : ℕ}
        → m.content b ≡ s
        → parse x s ≡ ok (v, n)
        → look_content m x s b ≡ stop (ok v) (put_back m n b)
    unfolding look_content look_parsed
    look-value [] b e h = let nothing = parse-nil x in absurd (cc)
    look-value (c ∷ s) b e h = rw h

  -- read_response takes a value.
  abbrev values : External → Reader m RespValue
  values x = record {
    look = look_value m x;
    read = parse x;
    look-more = λ b h. unfold look_value in look-incomplete x (m.content b) b refl h;
    look-stop = λ b v n h. (
      put_back m n b,
      unfold look_value in look-value x (m.content b) b refl h,
      content-put_back n b,
    );
    read-append = λ s t h. parse-append x s t h;
    read_within = λ s v n h. (Ensures-ok (parse_bounds x s) h).1;
  }

  -- However a stream is cut into chunks that are not empty: if a value stands at its front, then
  -- read_response returns that value and leaves the rest of the stream, in the buffer and in the
  -- chunks not read, or it reports that the buffer has reached its limit. It never waits on.
  pub read_response-Delivers :
      (x : External) (now : ℕ) {v : RespValue} {n : ℕ} (c : Connection m) (es : List Read)
      → AllData es
      → parse x (m.content c.buf ++ arriving es) ≡ ok (v, n)
      → Delivers m c.max_buf_size v
          (drop n (m.content c.buf ++ arriving es))
          (read_response m x now c es)
  unfolding read_response
  read_response-Delivers x now c es d h = chunks m (values x) now es c d h

  -- Where the timer of a connection ends before a reply is whole, after chunks of it that are not
  -- empty or none: read_response fails with the error of the timer, and all of the reply that has
  -- come, in the buffer before the call and in the chunks, is in the buffer, in front of what the next
  -- call reads; or the buffer has reached its limit, with nothing lost of what has come.
  pub read_response-TimesOut :
      (x : External) (now : ℕ) (c : Connection m) (came es : List Read) {t : ℕ}
      → AllData came
      → c.read_timeout ≡ some t
      → parse x (m.content c.buf ++ arriving came) ≡ fail incomplete
      → TimesOut m c.max_buf_size
          (m.content c.buf ++ arriving came)
          es
          (read_response m x now c (came ++ timed_out ∷ es))
  unfolding read_response
  read_response-TimesOut x now c came es d timer waits =
      chunks-TimesOut m (values x) now came es c d timer waits
