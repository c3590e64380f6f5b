-- ===== src/Connection/Session/Tests.antt =====
-- The theorems on `init` at concrete credentials.
use pyrsedis.Prelude.{◌≡◌, ◌↔◌, List, Bytes, none, some, [], ◌∷◌, codes}
use pyrsedis.Connection.Session.{init}
use pyrsedis.Connection.Session.Init.{Owed, init-accepted, init-refused}
use pyrsedis.Connection.Session.Script.{scripted}
use pyrsedis.Error.{redis_error}
use pyrsedis.Text.Decimal.{to_string}
use pyrsedis.External.Sample.{sample}
use pyrsedis.Outcome.{Outcome, ok, fail}
use pyrsedis.Resp.Types.{RespValue}

abbrev sent_both : List (List Bytes)
sent_both = (codes "SELECT" ∷ codes "2" ∷ []) ∷ (codes "AUTH" ∷ codes "pw" ∷ []) ∷ []

abbrev two_oks : List (Outcome RespValue)
two_oks = ok (RespValue.simple_string (codes "OK")) ∷ ok (RespValue.simple_string (codes "OK")) ∷ []

init-accepted_example :
    (init scripted sample none (some (codes "pw")) 2 (two_oks, []) ≡ (ok tt, ([], sent_both)))
    ↔ ((two_oks ≡ two_oks) × (sent_both ≡ sent_both))
unfolding to_string
init-accepted_example = init-accepted sample none (some (codes "pw")) 2 two_oks [] sent_both

init-refused_example :
    init scripted sample (some (codes "me")) (some (codes "pw")) 2 (
      ok (RespValue.simple_string (codes "OK"))
          ∷ ok (RespValue.error (codes "ERR DB index is out of range"))
          ∷ [],
      [],
    )
    ≡ (
      fail (redis_error (codes "ERR DB index is out of range")),
      ([], (codes "SELECT" ∷ codes "2" ∷ []) ∷ (codes "AUTH" ∷ codes "me" ∷ codes "pw" ∷ []) ∷ []),
    )
unfolding to_string
init-refused_example =
    init-refused sample (some (codes "me")) (some (codes "pw")) 2
      ((codes "AUTH" ∷ codes "me" ∷ codes "pw" ∷ []) ∷ []) (codes "SELECT" ∷ codes "2" ∷ [])
      (RespValue.error (codes "ERR DB index is out of range")) [] Owed.owes_select (λ e. cc)
