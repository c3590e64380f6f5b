-- ===== src/Connection/Replies.antt =====
-- The replies to a pipeline: the loop of `pipeline` and of `pipeline_raw` in
-- src/router/standalone.rs, which src/router/sentinel.rs has as well, over read_response and over
-- read_raw_response.
use pyrsedis.Prelude.{
  ℕ, zero, suc, ◌≤◌, ◌≡◌, refl, ap, subst, ◌∙◌, List, [], ◌∷◌, ◌++◌, append_assoc, Bytes, length,
  drop, drop-append_length, take, take-append_length, All,
}
use pyrsedis.Connection.{
  Read, Connection, Reply, answered, waiting, read_response, read_raw_response,
}
use pyrsedis.Connection.Buffer.{BytesMut}
use pyrsedis.Connection.Chunks.{read_response-Delivers}
use pyrsedis.Connection.Frames.{read_raw_response-Delivers}
use pyrsedis.Connection.Stream.{arriving, AllData, Delivers, delivered, overfull}
use pyrsedis.Error.{protocol, buffer_too_large}
use pyrsedis.External.{External}
use pyrsedis.Outcome.{ok, fail, panic, stuck}
use pyrsedis.Resp.Frame.{resp_frame_len}
use pyrsedis.Resp.Frame.Stream.{resp_frame_len-append}
use pyrsedis.Resp.Grammar.{WireAll}
use pyrsedis.Resp.Grammar.Complete.{parse-Wire}
use pyrsedis.Resp.Types.{RespValue, Values, count, to_list}

-- The texts of a list, one behind the other.
abbrev pub concat : List Bytes → Bytes
concat [] = []
concat (t ∷ ts) = t ++ concat ts

-- A text that is one whole frame.
abbrev pub IsFrame : External → Bytes → Type 0
IsFrame x t = resp_frame_len x t ≡ ok (length t)

module _ (m : BytesMut) {A : Type 0} where
  -- `responses.push(…)`, and `?`.
  unfoldable pub push_response : A → Reply m (List A) → Reply m (List A)
  push_response v (answered (ok vs) c es) = answered (ok (v ∷ vs)) c es
  push_response v (answered (fail e) c es) = answered (fail e) c es
  push_response v (answered panic c es) = answered panic c es
  push_response v (answered stuck c es) = answered stuck c es
  push_response v (waiting c) = waiting c

  unfoldable pub next_response :
      (Connection m → List Read → Reply m (List A)) → Reply m A → Reply m (List A)
  next_response later (answered (ok v) c es) = push_response v (later c es)
  next_response later (answered (fail e) c es) = answered (fail e) c es
  next_response later (answered panic c es) = answered panic c es
  next_response later (answered stuck c es) = answered stuck c es
  next_response later (waiting c) = waiting c

  -- As many replies as there are commands.
  unfoldable pub read_each :
      (Connection m → List Read → Reply m A) → ℕ → Connection m → List Read → Reply m (List A)
  read_each one zero c es = answered (ok []) c es
  read_each one (suc n) c es = next_response (read_each one n) (one c es)

  -- All values are returned in their order and `rest` is what is left to read, or the buffer has grown
  -- to its limit.
  pub data DeliversAll (max_buf_size : ℕ) (vs : List A) (rest : Bytes)
      : Reply m (List A) → Type 0 where
    all_delivered :
        {c : Connection m} {es : List Read}
        → m.content c.buf ++ arriving es ≡ rest
        → DeliversAll max_buf_size vs rest (answered (ok vs) c es)
    too_full :
        {c : Connection m} {es : List Read}
        → max_buf_size ≤ m.capacity c.buf
        → DeliversAll max_buf_size vs rest
            (answered (fail (protocol (buffer_too_large max_buf_size))) c es)

  DeliversAll-push :
      {max_buf_size : ℕ} {v : A} {vs : List A} {rest : Bytes} {r : Reply m (List A)}
      → DeliversAll max_buf_size vs rest r
      → DeliversAll max_buf_size (v ∷ vs) rest (push_response v r)
  unfolding push_response
  DeliversAll-push (all_delivered h) = all_delivered h
  DeliversAll-push (too_full h) = too_full h

  next-DeliversAll :
      {max_buf_size : ℕ} {v : A} {vs : List A} {between rest : Bytes} {r : Reply m A}
      (later : Connection m → List Read → Reply m (List A))
      → Delivers m max_buf_size v between r
      → ((c : Connection m) (es : List Read)
          → m.content c.buf ++ arriving es ≡ between
          → AllData es
          → c.max_buf_size ≡ max_buf_size
          → DeliversAll max_buf_size vs rest (later c es))
      → DeliversAll max_buf_size (v ∷ vs) rest (next_response later r)
  unfolding next_response
  next-DeliversAll later (delivered {c} {es} h d same) k = DeliversAll-push (k c es h d same)
  next-DeliversAll later (overfull h) k = too_full h

module _ (m : BytesMut) (x : External) (now : ℕ) where
  -- The loop of `pipeline`.
  unfoldable pub read_responses : ℕ → Connection m → List Read → Reply m (List RespValue)
  read_responses n c es = read_each m (read_response m x now) n c es

  -- The loop of `pipeline_raw`.
  unfoldable pub read_raw_responses : ℕ → Connection m → List Read → Reply m (List Bytes)
  read_raw_responses n c es = read_each m (read_raw_response m x now) n c es

  responses :
      {vs : Values} {s : Bytes} (max_buf_size : ℕ) (rest : Bytes) (c : Connection m)
      (es : List Read)
      → WireAll x vs s
      → AllData es
      → m.content c.buf ++ arriving es ≡ s ++ rest
      → c.max_buf_size ≡ max_buf_size
      → DeliversAll m max_buf_size (to_list vs) rest (read_responses (count vs) c es)
  unfolding read_responses read_each count to_list
  responses max rest c es WireAll.no_values d h same = all_delivered h
  responses max rest c es (WireAll.next_value {v} {vs} {s} {r} w ws) d h same =
      next-DeliversAll m (read_each m (read_response m x now) (count vs)) one
        (λ c' es' h' d' same'. responses max rest c' es' ws d' h' same')
    where
      stream : m.content c.buf ++ arriving es ≡ s ++ (r ++ rest)
      stream = h ∙ append_assoc s r rest

      one : Delivers m max v (r ++ rest) (read_response m x now c es)
      one =
          subst (λ b. Delivers m max v b (read_response m x now c es))
            (ap (drop (length s)) stream ∙ drop-append_length s (r ++ rest))
            (subst
              (λ n.
                Delivers m n v (drop (length s) (m.content c.buf ++ arriving es))
                  (read_response m x now c es))
              same (read_response-Delivers m x now c es d (rw stream (parse-Wire x w (r ++ rest)))))

  -- Where the texts of as many values as a pipeline has commands arrive one behind the other, cut into
  -- chunks in any way, the replies that are read are those values in their order, and what stands
  -- behind them is left; or the buffer has reached its limit.
  pub read_responses-DeliversAll :
      {vs : Values} {s : Bytes} (rest : Bytes) (c : Connection m) (es : List Read)
      → WireAll x vs s
      → AllData es
      → m.content c.buf ++ arriving es ≡ s ++ rest
      → DeliversAll m c.max_buf_size (to_list vs) rest (read_responses (count vs) c es)
  read_responses-DeliversAll rest c es ws d h = responses c.max_buf_size rest c es ws d h refl

  raw_responses :
      (ts : List Bytes) (max_buf_size : ℕ) (rest : Bytes) (c : Connection m) (es : List Read)
      → All (IsFrame x) ts
      → AllData es
      → m.content c.buf ++ arriving es ≡ concat ts ++ rest
      → c.max_buf_size ≡ max_buf_size
      → DeliversAll m max_buf_size ts rest (read_raw_responses (length ts) c es)
  unfolding read_raw_responses read_each
  raw_responses [] max rest c es fs d h same = all_delivered h
  raw_responses (t ∷ ts) max rest c es (f, fs) d h same =
      next-DeliversAll m (read_each m (read_raw_response m x now) (length ts)) one
        (λ c' es' h' d' same'. raw_responses ts max rest c' es' fs d' h' same')
    where
      stream : m.content c.buf ++ arriving es ≡ t ++ (concat ts ++ rest)
      stream = h ∙ append_assoc t (concat ts) rest

      measured : resp_frame_len x (m.content c.buf ++ arriving es) ≡ ok (length t)
      measured =
          ap (resp_frame_len x) stream ∙ resp_frame_len-append x t (concat ts ++ rest) (λ e. cc) ∙ f

      one : Delivers m max t (concat ts ++ rest) (read_raw_response m x now c es)
      one =
          subst (λ n. Delivers m n t (concat ts ++ rest) (read_raw_response m x now c es)) same
            (subst
              (λ (p : Bytes × Bytes).
                Delivers m c.max_buf_size p.0 p.1 (read_raw_response m x now c es))
              {x = (
                take (length t) (m.content c.buf ++ arriving es),
                drop (length t) (m.content c.buf ++ arriving es),
              )}
              {y = (t, concat ts ++ rest)}
              (rw
                (
                  stream,
                  take-append_length t (concat ts ++ rest),
                  drop-append_length t (concat ts ++ rest),
                )
                refl)
              (read_raw_response-Delivers m x now c es d measured))

  -- Where as many whole frames as a pipeline has commands arrive one behind the other, cut into chunks
  -- in any way, read_raw_response is called for each and returns the frames in their order, byte for
  -- byte, and what stands behind them is left; or the buffer has reached its limit.
  pub read_raw_responses-DeliversAll :
      (ts : List Bytes) (rest : Bytes) (c : Connection m) (es : List Read)
      → All (IsFrame x) ts
      → AllData es
      → m.content c.buf ++ arriving es ≡ concat ts ++ rest
      → DeliversAll m c.max_buf_size ts rest (read_raw_responses (length ts) c es)
  read_raw_responses-DeliversAll ts rest c es fs d h =
      raw_responses ts c.max_buf_size rest c es fs d h refl
