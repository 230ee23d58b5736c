-- ===== src/RouterOs/Api/Settled.antt =====
-- What a function that waits for a response leaves of a connection: `api::login` of routeros/src/api.cpp
-- and the callers of `api::send`.
use tiksrv.Base.{
  ◌≡◌, refl, Bool, true, false, not, Bool-cases, inl, inr, Option, none, some, List, [], ◌∷◌, Bytes,
  arith,
}
use tiksrv.Base.Outcome.{Goes, Outcome, returned, thrown, stopped}
use tiksrv.RouterOs.Sentence.{Fmt, RequestSentence}
use tiksrv.RouterOs.Response.{is_normal}
use tiksrv.RouterOs.Password.{Md5, login2}
use tiksrv.RouterOs.Password.Assertions.{login2-Goes}
use tiksrv.RouterOs.Api.State.{
  Reply, failure, response, Callback, login1_reply, login2_reply, other, Api, Call, on_error,
  is_open, aquire_unique_tag, Handler,
}
use tiksrv.RouterOs.Api.Portions.{pending_of}
use tiksrv.RouterOs.Api.Sending.{
  Attempt, completed, threw, halted, challenge_of, send_login2, answer_challenge, invoke,
}

-- An error is reported.
abbrev pub reports : List Call → Bool
reports [] = false
reports (on_error err ∷ cs) = true
reports (c ∷ cs) = reports cs

-- The connection is closed just when an error is reported.
abbrev pub Closes : Api × List Call → Type 0
Closes (b, cs) = is_open b ≡ not (reports cs)

-- What is left of an open connection with the requests `q` queued: it is open with its socket, or,
-- just when an error is reported, closed with its socket; nothing is queued or read.
abbrev pub IsSettled : List (RequestSentence × Callback) → Api × List Call → Type 0
IsSettled q (b, cs) =
    (b.sock_open ≡ not (reports cs))
    × (is_open b ≡ not (reports cs))
    × (b.send_queue ≡ q)
    × (pending_of cs ≡ [])

-- A callback leaves an open connection open with its queue, reports no error and reads nothing.
abbrev pub IsQuiet : List (RequestSentence × Callback) → Attempt → Type 0
IsQuiet q (completed b cs) = IsSettled q (b, cs) × (reports cs ≡ false)
IsQuiet q (threw b cs) = IsSettled q (b, cs) × (reports cs ≡ false)
IsQuiet q halted = ⊥

pub socket_of : (a : Api) → is_open a ≡ true → a.sock_open ≡ true
unfolding is_open
socket_of a o = ground arith

module _ (fmt : Fmt) (md5 : Md5) where
  send_login2-IsQuiet :
      (h : Handler) (o : Outcome RequestSentence) (a : Api)
      → Goes o
      → is_open a ≡ true
      → IsQuiet a.send_queue (send_login2 fmt md5 h o a)
  send_login2-IsQuiet h (returned req) a n o = ((socket_of a o, o, refl, refl), refl)
  send_login2-IsQuiet h (thrown x) a n o = ((socket_of a o, o, refl, refl), refl)
  send_login2-IsQuiet h stopped a n o = n

  answer_challenge-IsQuiet :
      (name password : Bytes) (h : Handler) (cha : Option Bytes) (a : Api)
      → is_open a ≡ true
      → IsQuiet a.send_queue (answer_challenge fmt md5 name password h cha a)
  unfolding aquire_unique_tag is_open
  answer_challenge-IsQuiet name password h none a o = ((socket_of a o, o, refl, refl), refl)
  answer_challenge-IsQuiet name password h (some cha) a o =
      send_login2-IsQuiet h (login2 fmt md5 a.current_tag name password cha) _
        (login2-Goes md5 fmt a.current_tag name password cha) o

  pub invoke-IsQuiet :
      (cb : Callback) (r : Reply) (a : Api)
      → is_open a ≡ true
      → IsQuiet a.send_queue (invoke fmt md5 cb r a)
  unfolding invoke is_open
  invoke-IsQuiet (login1_reply name password h) (failure err) a o =
      ((socket_of a o, o, refl, refl), refl)
  invoke-IsQuiet (login1_reply name password h) (response r) a o =
      answer_challenge-IsQuiet name password h (challenge_of r) a o
  invoke-IsQuiet (login2_reply h) (failure err) a o = ((socket_of a o, o, refl, refl), refl)
  invoke-IsQuiet (login2_reply h) (response r) a o = elim (Bool-cases (is_normal r)) [
    | inl good ↦ rw good ((socket_of a o, o, refl, refl), refl)
    | inr bad ↦ rw bad ((socket_of a o, o, refl, refl), refl)
  ]
  invoke-IsQuiet (other k) r a o = ((socket_of a o, o, refl, refl), refl)
