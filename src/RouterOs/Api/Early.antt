-- ===== src/RouterOs/Api/Early.antt =====
-- A response that is read before the send of its request has completed.
use tiksrv.Base.{
  ℕ, ◌≡◌, refl, ap, ◌∙◌, Bool, true, false, none, List, [], ◌∷◌, Bytes, Act, ok, prepend-nil, arith,
}
use tiksrv.Base.Outcome.{Outcome}
use tiksrv.RouterOs.Sentence.{Fmt, RequestSentence, encode}
use tiksrv.RouterOs.Response.{LexicalCast, ResponseSentence}
use tiksrv.RouterOs.Password.{Md5}
use tiksrv.RouterOs.Api.State.{
  ErrorCode, Reply, Callback, Api, Call, async_send, on_error, invalid_response_tag, is_open, fail,
  find_callback, closed,
}
use tiksrv.RouterOs.Api.Sending.{send_posted}
use tiksrv.RouterOs.Api.Reading.{deliver, handle_tagged, handle_response}
use tiksrv.RouterOs.Api.Exchange.{IsResponse, if_true, long_enough}

pub posted_open :
    (fmt : Fmt) (md5 : Md5) (req : RequestSentence) (cb : Callback) (a : Api)
    → is_open a ≡ true
    → a.send_queue ≡ []
    → send_posted fmt md5 req cb a ≡ ok (a, async_send (encode req.words) req cb ∷ [])
unfolding send_posted is_open
posted_open fmt md5 req cb a o q = ground arith

abbrev pub shut : Api → Api
shut a = record a { sock_open = false; state = closed }

pub fail_open :
    (err : ErrorCode) (a : Api) → is_open a ≡ true → fail err a ≡ ok (shut a, on_error err ∷ [])
unfolding fail is_open
fail_open err a o = ground arith

module _ (fmt : Fmt) (md5 : Md5) (lex : LexicalCast) (keep : ℕ → Reply → Outcome Bool) where
  unknown_tag :
      (r : ResponseSentence) (a : Api)
      → r.tagged ≡ true
      → find_callback r.tag a.read_cbs ≡ none
      → handle_tagged fmt md5 lex keep r a ≡ fail invalid_response_tag a
  unfolding handle_tagged
  unknown_tag r a t f =
      ap (λ (act : Act Api Call). act a) (if_true r.tagged _ _ t)
      ∙ ap (λ c. deliver fmt md5 lex keep r c a) f

  -- A request goes out as soon as its posted part runs, and nothing waits for its response then: a
  -- response that is read before the send has completed is refused with invalid_response_tag, and the
  -- connection is closed. This holds on an open connection with no other request queued and nothing
  -- waiting under the response's tag.
  pub send_posted-handle_response :
      (req : RequestSentence) (cb : Callback) (s : List Bytes) (r : ResponseSentence) (a : Api)
      → is_open a ≡ true
      → a.send_queue ≡ []
      → find_callback r.tag a.read_cbs ≡ none
      → IsResponse lex s r
      → (b : Api) × (c : Api) × (send_posted fmt md5 req cb a
          ≡ ok (b, async_send (encode req.words) req cb ∷ []))
        × (handle_response fmt md5 lex keep s b ≡ ok (c, on_error invalid_response_tag ∷ []))
        × (c.sock_open ≡ false)
        × (c.state ≡ closed)
  unfolding handle_response
  send_posted-handle_response req cb s r a o q f w = (
    a,
    shut a,
    posted_open fmt md5 req cb a o q,
    rw (o, w.starts, long_enough s w.long, w.parses)
        (prepend-nil _ ∙ unknown_tag r a w.has_tag f ∙ fail_open invalid_response_tag a o),
    refl,
    refl,
  )
