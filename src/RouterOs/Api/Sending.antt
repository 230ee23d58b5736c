-- ===== src/RouterOs/Api/Sending.antt =====
-- Requests on their way out, and the functions that wait for the responses.
use tiksrv.Base.{
  true, ◌&&◌, Option, none, some, List, [], ◌∷◌, ◌++◌, Bytes, length, Result, ok, aborted, Act,
  ◌>>◌, skip, emit, modify, reading, ◌==◌, if◌then◌else◌,
}
use tiksrv.Base.Outcome.{Outcome, returned, thrown, stopped}
use tiksrv.RouterOs.Sentence.{Fmt, RequestSentence, encode}
use tiksrv.RouterOs.Response.{ResponseSentence, lookup, is_normal}
use tiksrv.RouterOs.Password.{Md5, login2, challenge_param, challenge_size}
use tiksrv.RouterOs.Api.State.{
  ErrorCode, not_connected, invalid_response, invalid_login_credentials, Reply, failure, response,
  Callback, login1_reply, login2_reply, other, Api, Call, async_send, reply, finished, post,
  is_open, close, aquire_unique_tag, emplace_callback, Handler,
}

-- A callback returns, or throws, with the calls that it made before.
pub data Attempt : Type 0 where
  completed : Api → List Call → Attempt
  threw : Api → List Call → Attempt
  halted : Attempt

-- No handler: an exception ends the program.
abbrev pub uncaught : Attempt → Result (Api × List Call)
uncaught (completed a cs) = ok (a, cs)
uncaught (threw a cs) = aborted
uncaught halted = aborted

-- The challenge of a response to the first login request, by its parameter `ret`.
abbrev pub challenge_in : ResponseSentence → Option Bytes → Option Bytes
challenge_in r none = none
challenge_in r (some cha) = if is_normal r && (length cha == challenge_size) then some cha else none

unfoldable pub challenge_of : ResponseSentence → Option Bytes
unfolding is_normal lookup
challenge_of r = challenge_in r (lookup challenge_param r.params)

module _ (fmt : Fmt) (md5 : Md5) where
  abbrev pub send_login2 : Handler → Outcome RequestSentence → Api → Attempt
  send_login2 h (returned req) a = completed a (post req (login2_reply h) ∷ [])
  send_login2 h (thrown x) a = threw a []
  send_login2 h stopped a = halted

  abbrev pub answer_challenge : Bytes → Bytes → Handler → Option Bytes → Api → Attempt
  answer_challenge name password h none a = completed a (finished h (some invalid_response) ∷ [])
  answer_challenge name password h (some cha) a =
      let (tag, a') = aquire_unique_tag a in send_login2 h (login2 fmt md5 tag name password cha) a'

  -- A call of the function that waits for a response. How a function other than those of `login` ends
  -- on a response is in `conclude`; on an error, all of the repository return.
  unfoldable pub invoke : Callback → Reply → Api → Attempt
  unfolding challenge_of is_normal aquire_unique_tag
  invoke (login1_reply name password h) (failure err) a = completed a (finished h (some err) ∷ [])
  invoke (login1_reply name password h) (response r) a =
      answer_challenge name password h (challenge_of r) a
  invoke (login2_reply h) (failure err) a = completed a (finished h (some err) ∷ [])
  invoke (login2_reply h) (response r) a =
      if is_normal r
      then completed (record a { logged_in = true }) (finished h none ∷ [])
      else completed a (finished h (some invalid_login_credentials) ∷ [])
  invoke (other k) r a = completed a (reply k r ∷ [])

  unfoldable pub call_back : Callback → Reply → Act Api Call
  unfolding invoke
  call_back cb r a = uncaught (invoke cb r a)

  unfoldable pub send_front : List (RequestSentence × Callback) → Act Api Call
  unfolding is_open call_back
  send_front [] = λ _. aborted
  send_front ((req, cb) ∷ rest) =
      modify (λ a. record a { send_queue = rest })
      >> reading λ a.
        if is_open a
        then emit (async_send (encode req.words) req cb)
        else call_back cb (failure not_connected)

  unfoldable pub send_next : Act Api Call
  unfolding send_front
  send_next = reading λ a. send_front a.send_queue

  -- What `send` has posted.
  unfoldable pub send_posted : RequestSentence → Callback → Act Api Call
  unfolding send_next
  send_posted req cb =
      modify (λ a. record a { send_queue = a.send_queue ++ ((req, cb) ∷ []) }) >> send_next

  abbrev rest_of_queue : List (RequestSentence × Callback) → Act Api Call
  rest_of_queue [] = skip
  rest_of_queue (q ∷ qs) = send_next

  abbrev after_send : RequestSentence → Callback → Option ErrorCode → Act Api Call
  after_send req cb none =
      modify λ a. record a { read_cbs = emplace_callback req.tag cb a.read_cbs }
  after_send req cb (some err) = call_back cb (failure err) >> close

  unfoldable pub send_completed : RequestSentence → Callback → Option ErrorCode → Act Api Call
  unfolding is_open call_back send_next close emplace_callback
  send_completed req cb err = reading λ a.
      if is_open a
      then (after_send req cb err >> reading λ b. rest_of_queue b.send_queue)
      else call_back cb (failure not_connected)
