-- ===== src/Resp/Writer.antt =====
-- src/resp/writer.rs: commands as arrays of bulk strings. The buffer of the sources is only ever
-- appended to; its capacity is no part of the model.
pub mod RoundTrip
use pyrsedis.Prelude.{
  ℕ, ◌≡◌, refl, ap, ◌∙◌, sym, List, [], ◌∷◌, ◌++◌, append_assoc, append-nil, Bytes, length,
}
use pyrsedis.External.{External}
use pyrsedis.Resp.Line.{cr, lf}

abbrev pub crlf : Bytes
crlf = cr ∷ lf ∷ []

-- `*<N>` or `$<len>`, and CR LF.
unfoldable pub header : External → ℕ → ℕ → Bytes
header x mark n = (mark ∷ x.itoa n) ++ crlf

module _ (x : External) where
  -- The loop over the arguments.
  unfoldable pub push_args : Bytes → List Bytes → Bytes
  push_args buf [] = buf
  push_args buf (arg ∷ args) = push_args (((buf ++ header x b'$' (length arg)) ++ arg) ++ crlf) args

  unfoldable pub encode_command : List Bytes → Bytes
  encode_command args = push_args (header x b'*' (length args)) args

  -- encode_command_str: the arguments are strings, whose bytes these are.
  unfoldable pub encode_command_str : List Bytes → Bytes
  encode_command_str args = encode_command args

  -- The loop over the commands, into one buffer.
  unfoldable pub push_commands : Bytes → List (List Bytes) → Bytes
  push_commands buf [] = buf
  push_commands buf (cmd ∷ cmds) =
      push_commands (push_args (buf ++ header x b'*' (length cmd)) cmd) cmds

  unfoldable pub encode_pipeline : List (List Bytes) → Bytes
  encode_pipeline commands = push_commands [] commands

  -- A command with nothing before it.
  unfoldable pub encoded_args : List Bytes → Bytes
  encoded_args [] = []
  encoded_args (arg ∷ args) = header x b'$' (length arg) ++ arg ++ crlf ++ encoded_args args

  pub push_args-append :
      (buf : Bytes) (args : List Bytes) → push_args buf args ≡ buf ++ encoded_args args
  unfolding push_args encoded_args
  push_args-append buf [] = sym (append-nil buf)
  push_args-append buf (arg ∷ args) =
      push_args-append (((buf ++ header x b'$' (length arg)) ++ arg) ++ crlf) args
      ∙ simp append_assoc

  pub encode_command-append :
      (args : List Bytes) → encode_command args ≡ header x b'*' (length args) ++ encoded_args args
  unfolding encode_command
  encode_command-append args = push_args-append (header x b'*' (length args)) args

  -- The commands, one after the other.
  abbrev pub concat_commands : List (List Bytes) → Bytes
  concat_commands [] = []
  concat_commands (cmd ∷ cmds) = encode_command cmd ++ concat_commands cmds

  push_commands-append :
      (buf : Bytes) (cmds : List (List Bytes))
      → push_commands buf cmds ≡ buf ++ concat_commands cmds
  unfolding push_commands
  push_commands-append buf [] = sym (append-nil buf)
  push_commands-append buf (cmd ∷ cmds) =
      push_commands-append (push_args (buf ++ header x b'*' (length cmd)) cmd) cmds
      ∙ simp (push_args-append, encode_command-append, append_assoc)

  -- One buffer for a pipeline holds the same bytes as the commands encoded one by one.
  pub encode_pipeline-concat :
      (commands : List (List Bytes)) → encode_pipeline commands ≡ concat_commands commands
  unfolding encode_pipeline
  encode_pipeline-concat commands = push_commands-append [] commands
