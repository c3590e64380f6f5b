-- ===== src/Connection/Tests.antt =====
-- Replies that arrive in pieces, and the theorems at them.
use pyrsedis.Prelude.{some, ◌≡◌, refl}
use pyrsedis.Outcome.{fail}
use pyrsedis.Resp.Parser.{parse, parse_within, parse_tag, parse_integer, read_int}
use pyrsedis.Resp.Line.{read_line, find_crlf, crlf_at, byte_at}
use pyrsedis.Resp.Tag.{tag_of}
use pyrsedis.Error.{incomplete}
use pyrsedis.Prelude.{◌++◌, none, List, [], ◌∷◌, codes, pos, arith}
use pyrsedis.Connection.{Read, received, timed_out, Connection, read_response}
use pyrsedis.Connection.Buffer.Sample.{sample_buffer}
use pyrsedis.Connection.Chunks.{read_response-TimesOut, read_response-Delivers}
use pyrsedis.Connection.Stream.{Delivers}
use pyrsedis.Connection.Stalls.{TimesOut}
use pyrsedis.Connection.Replies.{
  DeliversAll, read_responses, read_responses-DeliversAll, read_raw_responses,
  read_raw_responses-DeliversAll, IsFrame,
}
use pyrsedis.Resp.Frame.{resp_frame_len, frame_within, frame_tag, frame_line}
use pyrsedis.Prelude.{Bytes}
use pyrsedis.External.Sample.{sample}
use pyrsedis.Resp.Grammar.{line, Wire, WireAll, plain, IsDigits}
use pyrsedis.Resp.Grammar.Complete.{parse-Wire}
use pyrsedis.Resp.Types.{RespValue, to_list, count}

seven_digit : IsDigits (codes "7")
seven_digit = record { filled = λ e. cc; digits = ((omega arith, omega arith), tt) }

seven_Wire : Wire sample (RespValue.integer (pos 7)) (line b':' (codes "7") [])
seven_Wire = Wire.integer (plain seven_digit (omega arith))

abbrev fresh : Connection sample_buffer
fresh = record { buf = ([], 0); max_buf_size = 1000000; read_timeout = none; last_used = 0 }

-- `:7` and its CR LF, cut in two, and the start of the next reply.
abbrev cut : List Read
cut = received (58 ∷ 55 ∷ []) ∷ received (13 ∷ 10 ∷ 43 ∷ []) ∷ []

read_response-Delivers_example :
    Delivers sample_buffer 1000000
      (RespValue.integer (pos 7))
      (codes "+")
      (read_response sample_buffer sample 5 fresh cut)
read_response-Delivers_example =
    read_response-Delivers sample_buffer sample 5 fresh cut ((λ e. cc), ((λ e. cc), tt))
      (parse-Wire sample seven_Wire (codes "+"))

-- `:` is in the buffer, `7` and `8` come, and then nothing more in time.
abbrev half : Connection sample_buffer
half = record { buf = (58 ∷ [], 0); max_buf_size = 1000000; read_timeout = some 30; last_used = 0 }

abbrev digits_come : List Read
digits_come = received (55 ∷ []) ∷ received (56 ∷ []) ∷ []

half_is_incomplete : parse sample (58 ∷ 55 ∷ 56 ∷ []) ≡ fail incomplete
unfolding parse parse_within parse_tag tag_of parse_integer read_int read_line find_crlf
half_is_incomplete = refl

read_response-TimesOut_example :
    TimesOut sample_buffer 1000000
      (58 ∷ 55 ∷ 56 ∷ [])
      cut
      (read_response sample_buffer sample 5 half (digits_come ++ timed_out ∷ cut))
read_response-TimesOut_example =
    read_response-TimesOut sample_buffer sample 5 half digits_come cut ((λ e. cc), ((λ e. cc), tt))
      refl half_is_incomplete

-- Two replies and the start of a third, in three chunks.
abbrev pieces : List Read
pieces =
    received (58 ∷ []) ∷ received (55 ∷ 13 ∷ 10 ∷ 58 ∷ 55 ∷ []) ∷ received (13 ∷ 10 ∷ 43 ∷ []) ∷ []

read_responses-DeliversAll_example :
    DeliversAll sample_buffer 1000000
      (RespValue.integer (pos 7) ∷ RespValue.integer (pos 7) ∷ [])
      (codes "+")
      (read_responses sample_buffer sample 5 2 fresh pieces)
unfolding to_list count
read_responses-DeliversAll_example =
    read_responses-DeliversAll sample_buffer sample 5 (codes "+") fresh pieces
      (WireAll.next_value seven_Wire (WireAll.next_value seven_Wire WireAll.no_values))
      ((λ e. cc), ((λ e. cc), ((λ e. cc), tt))) refl

abbrev seven_reply : Bytes
seven_reply = 58 ∷ 55 ∷ 13 ∷ 10 ∷ []

seven_IsFrame : IsFrame sample seven_reply
unfolding resp_frame_len frame_within tag_of frame_tag frame_line read_line find_crlf crlf_at
    byte_at
seven_IsFrame = refl

read_raw_responses-DeliversAll_example :
    DeliversAll sample_buffer 1000000
      (seven_reply ∷ seven_reply ∷ [])
      (codes "+")
      (read_raw_responses sample_buffer sample 5 2 fresh pieces)
read_raw_responses-DeliversAll_example =
    read_raw_responses-DeliversAll sample_buffer sample 5 (seven_reply ∷ seven_reply ∷ [])
      (codes "+") fresh pieces (seven_IsFrame, (seven_IsFrame, tt))
      ((λ e. cc), ((λ e. cc), ((λ e. cc), tt))) refl
