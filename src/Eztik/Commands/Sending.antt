-- ===== src/Eztik/Commands/Sending.antt =====
-- A request that is sent on to the router.
use tiksrv.Base.{
  ℕ, ◌+◌, ◌%◌, ◌^◌, ◌≡◌, refl, sym, ap, ◌∙◌, true, some, List, [], ◌∷◌, ◌++◌, Bytes, codes, length,
  append_assoc, append-nil, ok, ◌==◌, if◌then◌else◌,
}
use tiksrv.Base.Decimal.{decimal}
use tiksrv.Net.Message.{Request}
use tiksrv.Net.Client.{build_response}
use tiksrv.RouterOs.Sentence.{Fmt, RequestSentence, push, request_sentence}
use tiksrv.RouterOs.Response.{ResponseSentence}
use tiksrv.RouterOs.Api.State.{Api, response, other, post, make_request, send, aquire_unique_tag}
use tiksrv.Eztik.Sessions.{Handler, Session, find_session, is_ready}
use tiksrv.Eztik.Commands.{Eztik, answer, api_call, Waiting, send_waiting, answer_body}
use tiksrv.Eztik.Commands.Guard.{has_ready-found, require_session-ready}
use tiksrv.Eztik.Commands.Requests.{
  Messages, nth_waiting, on_api, push_all, send_request, make_with_words, keep_send, send_execute,
  send_command, call_waiting, send_reply,
}

words-push_all :
    (ws : List Bytes) (s : RequestSentence)
    → ((push_all ws s).words ≡ s.words ++ ws) × ((push_all ws s).tag ≡ s.tag)
unfolding push_all push
words-push_all [] s = (sym (append-nil s.words), refl)
words-push_all (w ∷ ws) s =
    let (words, tag) = words-push_all ws (push w s) in
    (words ∙ append_assoc s.words (w ∷ []) ws, tag)

nth_waiting-append :
    (ws vs : List Waiting) (w : Waiting) → nth_waiting (length ws) (ws ++ (w ∷ vs)) ≡ some w
nth_waiting-append [] vs w = refl
nth_waiting-append (v ∷ ws) vs w = nth_waiting-append ws vs w

-- The state when a client's request has been sent on, over its session's connection: the connection
-- has moved to the next tag, and the function waits under the next number.
abbrev pub with_sent : ℕ → Request → Session → Eztik → Eztik
with_sent client req s t = record t {
  send_session = some s;
  apis = λ k.
      if k == s.api
      then record (t.apis s.api) { current_tag = ((t.apis s.api).current_tag + 1) % 2 ^ 32 }
      else t.apis k;
  waiting = t.waiting ++ (send_waiting client req.header.tag ∷ []);
}

module _ (fmt : Fmt) (msgs : Messages) where
  -- The request that goes out for a client's message, with the connection's next tag.
  abbrev pub request_of : Bytes → List Bytes → Api → RequestSentence
  request_of command words a = (make_with_words fmt msgs command words a).0

  pub request_of_words :
      (command : Bytes) (words : List Bytes) (a : Api)
      → ((request_of command words a).words
          ≡ command ∷ (codes ".tag=" ++ decimal a.current_tag) ∷ words)
        × ((request_of command words a).tag ≡ a.current_tag)
  unfolding make_with_words make_request request_sentence aquire_unique_tag
  request_of_words command words a =
      let (all, tag) = words-push_all words (request_sentence fmt command a.current_tag) in
      (all ∙ ap (λ (w : Bytes). command ∷ w ∷ words) (fmt.format_tag a.current_tag), tag)

  pub send_execute_posts :
      (client : ℕ) (req : Request) (s : Session) (t : Eztik) (command : Bytes) (words : List Bytes)
      → msgs.parse_request req.body ≡ some (command, words)
      → send_execute fmt msgs client req (keep_send (some s) t)
        ≡ ok (
          with_sent client req s t,
          api_call s.api (post (request_of command words (t.apis s.api)) (other (length t.waiting)))
              ∷ [],
        )
  unfolding send_execute send_request on_api send make_with_words make_request aquire_unique_tag
  send_execute_posts client req s t command words p = rw (send_execute, p) refl

  send_command_ready :
      (client : ℕ) (req : Request) (s : Session) {h : Handler} (t : Eztik)
      → find_session client t.sessions.entries ≡ some (s, h)
      → is_ready t.apis s ≡ true
      → send_command fmt msgs client req t ≡ send_execute fmt msgs client req (keep_send (some s) t)
  unfolding send_command
  send_command_ready client req s t f ready =
      require_session-ready client req t keep_send (send_execute fmt msgs) f
        (has_ready-found client req t f ∙ ready)

  reply_answers :
      (client : ℕ) (req : Request) (s : Session) (t v : Eztik) (ws : List Waiting)
      (r : ResponseSentence)
      → v.waiting ≡ (with_sent client req s t).waiting ++ ws
      → call_waiting fmt msgs (nth_waiting (length t.waiting) v.waiting) (response r) v
        ≡ ok (
          v,
          answer client (build_response (msgs.serialize_response r.type r.params) 0 req.header.tag)
              ∷ [],
        )
  unfolding call_waiting send_reply answer_body
  reply_answers client req s t v ws r grown =
      ap (λ o. call_waiting fmt msgs o (response r) v)
        (ap (nth_waiting (length t.waiting)) grown
          ∙ ap (nth_waiting (length t.waiting))
              (append_assoc t.waiting (send_waiting client req.header.tag ∷ []) ws)
          ∙ nth_waiting-append t.waiting ws (send_waiting client req.header.tag))

  -- A message from a client whose session is ready, when it can be parsed, goes out as one request over
  -- that session's own connection: its words are the command, the tag word of the connection's next tag
  -- and the client's words in their order. Nothing else is called, and only that connection's tag
  -- counter moves. Each response to the request that comes later, in any state in which more functions
  -- may have been added, is passed on to that client, under the tag of its message and with the
  -- response's type and parameters.
  pub send_command-answers :
      (client : ℕ) (req : Request) (s : Session) (h : Handler) (t v : Eztik) (command : Bytes)
      (words : List Bytes) (ws : List Waiting) (r : ResponseSentence)
      → find_session client t.sessions.entries ≡ some (s, h)
      → is_ready t.apis s ≡ true
      → msgs.parse_request req.body ≡ some (command, words)
      → v.waiting ≡ (with_sent client req s t).waiting ++ ws
      → (out : RequestSentence) × (send_command fmt msgs client req t
          ≡ ok
              (with_sent client req s t, api_call s.api (post out (other (length t.waiting))) ∷ []))
        × (out.words ≡ command ∷ (codes ".tag=" ++ decimal (t.apis s.api).current_tag) ∷ words)
        × (out.tag ≡ (t.apis s.api).current_tag)
        × (call_waiting fmt msgs (nth_waiting (length t.waiting) v.waiting) (response r) v
            ≡ ok (
              v,
              answer client
                    (build_response (msgs.serialize_response r.type r.params) 0 req.header.tag)
                  ∷ [],
            ))
  send_command-answers client req s h t v command words ws r f ready p grown =
      let (worded, tagged) = request_of_words command words (t.apis s.api) in
      (
        request_of command words (t.apis s.api),
        send_command_ready client req s t f ready
            ∙ send_execute_posts client req s t command words p,
        worded,
        tagged,
        reply_answers client req s t v ws r grown,
      )
