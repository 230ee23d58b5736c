-- ===== src/Eztik/Commands/Replies.antt =====
-- A load of models, from the router's sentences to the client's responses.
use tiksrv.Base.{
  ℕ, ◌≡◌, ◌≢◌, refl, sym, ap, ◌∙◌, true, false, none, some, List, [], ◌∷◌, ◌++◌, Bytes, All, map,
  ok, Act, ◌>>◌, skip, emit, reading,
}
use tiksrv.Base.Outcome.{returned}
use tiksrv.Net.Message.{success, response_code}
use tiksrv.Net.Client.{build_response}
use tiksrv.RouterOs.Sentence.{Fmt}
use tiksrv.RouterOs.Response.{LexicalCast, ResponseSentence, empty}
use tiksrv.RouterOs.Password.{Md5}
use tiksrv.RouterOs.Api.State
use tiksrv.RouterOs.Api.State.{Api, Reply, response, other, reply, is_open, find_callback}
use tiksrv.RouterOs.Api.Reading.{handle_response}
use tiksrv.RouterOs.Api.Exchange.{IsResponse, on_other}
use tiksrv.Eztik.Data.{HotspotUser, create_user, stream_reply}
use tiksrv.Eztik.Commands.{
  Eztik, Call, answer, api_call, Waiting, load_waiting, answer_code, answer_body,
}
use tiksrv.Eztik.Commands.Requests.{
  Messages, nth_waiting, on_loaded, load_reply, call_waiting, waits_on,
}

-- A sentence, the response that it is taken apart into, and the user in it.
abbrev pub UserSentence : Type 0
UserSentence = List Bytes × ResponseSentence × HotspotUser

module _ (fmt : Fmt) (md5 : Md5) (lex : LexicalCast) where
  -- The sentences that end up at `handle_response`, one after the other, while the functions `ws` wait.
  unfoldable pub handle_responses : List Waiting → List (List Bytes) → Act Api State.Call
  unfolding handle_response
  handle_responses ws [] = skip
  handle_responses ws (s ∷ ss) =
      handle_response fmt md5 lex (waits_on ws) s >> handle_responses ws ss

  -- A sentence of the answer under the tag, with a user's parameters.
  abbrev pub IsUser : ℕ → UserSentence → Type 0
  IsUser tag (s, r, user) =
      IsResponse lex s r × (r.tag ≡ tag) × (empty r ≡ false) × (create_user r ≡ returned user)

  -- The last one, which has no parameters.
  abbrev pub IsEnd : ℕ → List Bytes × ResponseSentence → Type 0
  IsEnd tag (s, r) = IsResponse lex s r × (r.tag ≡ tag) × (empty r ≡ true)

  abbrev pub sentences : List UserSentence → List (List Bytes)
  sentences us = map (λ u. u.0) us

  abbrev pub replies : ℕ → List UserSentence → List State.Call
  replies k [] = []
  replies k ((s, r, user) ∷ us) = reply k (response r) ∷ replies k us

  stays :
      (ws : List Waiting) (r : ResponseSentence) (k client tag : ℕ) (user : HotspotUser)
      → nth_waiting k ws ≡ some (load_waiting client tag)
      → empty r ≡ false
      → create_user r ≡ returned user
      → waits_on ws k (response r) ≡ returned true
  unfolding waits_on stream_reply
  stays ws r k client tag user f e c = rw (f, e, c) refl

  leaves :
      (ws : List Waiting) (r : ResponseSentence) (k client tag : ℕ)
      → nth_waiting k ws ≡ some (load_waiting client tag)
      → empty r ≡ true
      → waits_on ws k (response r) ≡ returned false
  unfolding waits_on stream_reply
  leaves ws r k client tag f e = rw (f, e) refl

  -- The connection passes all users on, and the function is dropped at the end.
  handle_responses-users :
      (ws : List Waiting) (k tag client client_tag : ℕ) (us : List UserSentence)
      (e : List Bytes × ResponseSentence) (a : Api)
      → nth_waiting k ws ≡ some (load_waiting client client_tag)
      → is_open a ≡ true
      → find_callback tag a.read_cbs ≡ some (other k)
      → All (IsUser tag) us
      → IsEnd tag e
      → (c : Api) × (handle_responses ws (sentences us ++ (e.0 ∷ [])) a
          ≡ ok (c, replies k us ++ (reply k (response e.1) ∷ [])))
        × (is_open c ≡ true)
        × (find_callback tag c.read_cbs ≡ none)
        × ((t : ℕ) → t ≢ tag → find_callback t c.read_cbs ≡ find_callback t a.read_cbs)
  unfolding handle_responses
  handle_responses-users ws k tag client client_tag [] (s, r) a waiting o f users (w, t, ends) =
      let (c, step, opened, own, others) =
        on_other fmt md5 lex (waits_on ws) s r k false a o w
          (ap (λ u. find_callback u a.read_cbs) t ∙ f)
          (leaves ws r k client client_tag waiting ends) in
      (
        c,
        rw step refl,
        opened,
        ap (λ u. find_callback u c.read_cbs) (sym t) ∙ own,
        λ u n. others u (λ h. n (h ∙ t)),
      )
  handle_responses-users ws k tag client client_tag ((s, r, user) ∷ us) e a waiting o f
        ((w, t, more, made), users) end =
      let (b, step, opened, own, others) =
        on_other fmt md5 lex (waits_on ws) s r k true a o w
          (ap (λ u. find_callback u a.read_cbs) t ∙ f)
          (stays ws r k client client_tag user waiting more made) in
      let (c, rest, open_still, gone, kept) =
        handle_responses-users ws k tag client client_tag us e b waiting opened
          (ap (λ u. find_callback u b.read_cbs) (sym t) ∙ own) users end in
      (c, rw (step, rest) refl, open_still, gone, λ u n. kept u n ∙ others u (λ h. n (h ∙ t)))

  module _ (msgs : Messages) where
    -- The plugin's part: a call of a function that waits, by its number.
    abbrev pub serve_call : ℕ → State.Call → Act Eztik Call
    serve_call n (reply k r) = reading λ t. call_waiting fmt msgs (nth_waiting k t.waiting) r
    serve_call n c = emit (api_call n c)

    unfoldable pub serve_calls : ℕ → List State.Call → Act Eztik Call
    serve_calls n [] = skip
    serve_calls n (c ∷ cs) = serve_call n c >> serve_calls n cs

    -- A response for each user, with its name, and the last one, without a body.
    abbrev pub user_answers : ℕ → ℕ → List UserSentence → List Call
    user_answers client tag [] = answer client (build_response [] (response_code success) tag) ∷ []
    user_answers client tag ((s, r, user) ∷ us) =
        answer client (build_response (msgs.serialize_user user.name) 0 tag)
        ∷ user_answers client tag us

    user_answered :
        (client tag : ℕ) (r : ResponseSentence) (user : HotspotUser) (t : Eztik)
        → empty r ≡ false
        → create_user r ≡ returned user
        → load_reply fmt msgs client tag (response r) t
          ≡ ok (t, answer client (build_response (msgs.serialize_user user.name) 0 tag) ∷ [])
    unfolding load_reply stream_reply on_loaded answer_body
    user_answered client tag r user t more made = rw (load_reply, stream_reply, more, made) refl

    end_answered :
        (client tag : ℕ) (r : ResponseSentence) (t : Eztik)
        → empty r ≡ true
        → load_reply fmt msgs client tag (response r) t
          ≡ ok (t, answer client (build_response [] (response_code success) tag) ∷ [])
    unfolding load_reply stream_reply on_loaded answer_code
    end_answered client tag r t ends = rw (load_reply, stream_reply, ends) refl

    serve_calls-users :
        (n k client tag router_tag : ℕ) (us : List UserSentence) (e : List Bytes × ResponseSentence)
        (t : Eztik)
        → nth_waiting k t.waiting ≡ some (load_waiting client tag)
        → All (IsUser router_tag) us
        → IsEnd router_tag e
        → serve_calls n (replies k us ++ (reply k (response e.1) ∷ [])) t
          ≡ ok (t, user_answers client tag us)
    unfolding serve_calls call_waiting
    serve_calls-users n k client tag router_tag [] (s, r) t f users (w, same, ends) =
        rw (f, end_answered client tag r t ends) refl
    serve_calls-users n k client tag router_tag ((s, r, user) ∷ us) e t f
          ((w, same, more, made), users) end =
        rw
          (
            f,
            user_answered client tag r user t more made,
            serve_calls-users n k client tag router_tag us e t f users end,
          )
          refl

    -- When the router answers the request of a load with one sentence for each user and one without
    -- parameters at the end, the connection passes each on, stays open and then forgets the request,
    -- while all others wait as before; and the client gets, under the tag of its request, one response
    -- for each user, in their order and with the user's name, and then success, and nothing more. This
    -- holds while the function of the load waits under the sentences' tag.
    pub handle_responses-load :
        (n k client tag router_tag : ℕ) (us : List UserSentence) (e : List Bytes × ResponseSentence)
        (a : Api) (t : Eztik)
        → is_open a ≡ true
        → find_callback router_tag a.read_cbs ≡ some (other k)
        → nth_waiting k t.waiting ≡ some (load_waiting client tag)
        → All (IsUser router_tag) us
        → IsEnd router_tag e
        → (c : Api) × (cs : List State.Call) × (handle_responses t.waiting
              (sentences us ++ (e.0 ∷ []))
              a
            ≡ ok (c, cs))
          × (is_open c ≡ true)
          × (find_callback router_tag c.read_cbs ≡ none)
          × ((u : ℕ) → u ≢ router_tag → find_callback u c.read_cbs ≡ find_callback u a.read_cbs)
          × (serve_calls n cs t ≡ ok (t, user_answers client tag us))
    handle_responses-load n k client tag router_tag us e a t o f w users end =
        let (c, steps, opened, gone, others) =
          handle_responses-users t.waiting k router_tag client tag us e a w o f users end in
        (
          c,
          replies k us ++ (reply k (response e.1) ∷ []),
          steps,
          opened,
          gone,
          others,
          serve_calls-users n k client tag router_tag us e t w users end,
        )
