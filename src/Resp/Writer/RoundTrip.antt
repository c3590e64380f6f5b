-- ===== src/Resp/Writer/RoundTrip.antt =====
-- src/resp/writer.rs against src/resp/parser.rs: the parser on encoded commands.
use pyrsedis.Prelude.{
  ℕ, suc, ◌+◌, ◌<◌, ◌≡◌, refl, sym, ap, subst, ◌∙◌, List, [], ◌∷◌, ◌++◌, append_assoc, append-nil,
  Bytes, length, All, arith, pos, i64_limit,
}
use pyrsedis.External.{External}
use pyrsedis.Outcome.{ok}
use pyrsedis.Resp.Grammar.{line, Decimal, plain, CanHold, Wire, WireAll}
use pyrsedis.Resp.Grammar.Aggregate.{values_step}
use pyrsedis.Resp.Grammar.Complete.{parse-Wire}
use pyrsedis.Resp.Parser.{parse, parse_values}
use pyrsedis.Resp.Types.{RespValue, Values, nil, cons, count}
use pyrsedis.Resp.Writer.{
  crlf, header, encode_command, encode_command-append, encode_pipeline, encode_pipeline-concat,
  encoded_args, concat_commands,
}

-- The values that stand for arguments and for commands.
abbrev pub bulks : List Bytes → Values
bulks [] = nil
bulks (arg ∷ args) = cons (RespValue.bulk_string arg) (bulks args)

abbrev pub commands_of : List (List Bytes) → Values
commands_of [] = nil
commands_of (cmd ∷ cmds) = cons (RespValue.array (bulks cmd)) (commands_of cmds)

count-bulks : (args : List Bytes) → count (bulks args) ≡ length args
unfolding count
count-bulks [] = refl
count-bulks (arg ∷ args) = ap suc (count-bulks args)

count-commands : (cmds : List (List Bytes)) → count (commands_of cmds) ≡ length cmds
unfolding count
count-commands [] = refl
count-commands (cmd ∷ cmds) = ap suc (count-commands cmds)

module _ (x : External) where
  -- What a machine can hold: lengths below 2^63, and room for the values of the array.
  abbrev pub Encodable : List Bytes → Type 0
  Encodable args =
      All (λ arg. length arg < i64_limit) args
      × (length args < i64_limit)
      × CanHold (length args) x.value_size

  itoa-Decimal : (n : ℕ) → n < i64_limit → Decimal (pos n) (x.itoa n)
  itoa-Decimal n h =
      subst (λ m. Decimal (pos m) (x.itoa n)) (x.value-itoa n)
        (plain (record { filled = x.itoa-ne-nil n; digits = x.itoa-digits n })
          (rw (x.value-itoa n) h))

  header-append : (mark n : ℕ) (rest : Bytes) → header x mark n ++ rest ≡ line mark (x.itoa n) rest
  unfolding header
  header-append mark n rest = ap (λ s. mark ∷ s) (append_assoc (x.itoa n) crlf rest)

  args-Wire :
      (args : List Bytes)
      → All (λ arg. length arg < i64_limit) args
      → WireAll x (bulks args) (encoded_args x args)
  unfolding encoded_args
  args-Wire [] h = WireAll.no_values
  args-Wire (arg ∷ args) (h, hs) =
      subst (λ s. WireAll x (bulks (arg ∷ args)) (s ++ encoded_args x args)) flat
        (WireAll.next_value (Wire.bulk_string (itoa-Decimal (length arg) h)) (args-Wire args hs))
    where
      flat :
          line b'$' (x.itoa (length arg)) (arg ++ crlf) ≡ header x b'$' (length arg) ++ arg ++ crlf
      flat = sym (
          append_assoc (header x b'$' (length arg)) arg crlf
          ∙ header-append b'$' (length arg) (arg ++ crlf))

  pub command-Wire :
      (args : List Bytes)
      → Encodable args
      → Wire x (RespValue.array (bulks args)) (encode_command x args)
  command-Wire args (short, few, room) =
      subst (λ s. Wire x (RespValue.array (bulks args)) s) flat
        (Wire.array (rw (count-bulks args) (itoa-Decimal (length args) few))
          (rw (count-bulks args) room) (args-Wire args short))
    where
      flat : line b'*' (x.itoa (length args)) (encoded_args x args) ≡ encode_command x args
      flat =
          sym
            (encode_command-append x args ∙ header-append b'*' (length args) (encoded_args x args))

  -- What encode_command writes is parsed as the array of the arguments, byte for byte, whatever
  -- stands behind it, where the lengths are below 2^63 and the array fits in memory.
  pub parse-encode_command :
      (args : List Bytes) (rest : Bytes)
      → Encodable args
      → parse x (encode_command x args ++ rest)
        ≡ ok (RespValue.array (bulks args), length (encode_command x args))
  parse-encode_command args rest h = parse-Wire x (command-Wire args h) rest

  commands_behind :
      (cmds : List (List Bytes)) (front : Bytes)
      → All Encodable cmds
      → parse_values
          (parse x)
          (front ++ (concat_commands x cmds ++ []))
          (count (commands_of cmds))
          (length front)
        ≡ ok (commands_of cmds, length front + length (concat_commands x cmds))
  unfolding parse_values count
  commands_behind [] front h = ap (λ n. ok (nil, n)) (omega arith)
  commands_behind (cmd ∷ cmds) front (h, hs) =
      values_step (parse x) front (encode_command x cmd) (concat_commands x cmds) [] _
        (commands_of cmds) (parse-encode_command cmd (concat_commands x cmds ++ []) h)
        (commands_behind cmds (front ++ encode_command x cmd) hs)

  -- As many calls of `parse` as there are commands, each on what is behind the last, read the whole
  -- buffer of a pipeline as the commands in their order, where each can be encoded.
  pub parse_values-encode_pipeline :
      (cmds : List (List Bytes))
      → All Encodable cmds
      → parse_values (parse x) (encode_pipeline x cmds) (length cmds) 0
        ≡ ok (commands_of cmds, length (encode_pipeline x cmds))
  parse_values-encode_pipeline cmds h =
      let all = concat_commands x cmds in
      let start : 0 + length all ≡ length all = omega arith in
      rw (encode_pipeline-concat x cmds)
        (rw (append-nil all, count-commands cmds, start) at (commands_behind cmds [] h))
