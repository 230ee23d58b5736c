-- ===== src/RouterOs/Api/Authenticating.antt =====
-- A whole login, from the call of `api::login` to the end of its second exchange:
-- src/plugins/eztik/routeros/src/api.cpp, `api::login`, `api::send` and `api::handle_response`.
use tiksrv.Base.{
  ℕ, ◌+◌, ◌%◌, ◌^◌, ◌<◌, ◌≡◌, ◌≢◌, refl, sym, ap, ◌∙◌, Bool, true, Bool-cases, inl, inr, none, some,
  List, [], ◌∷◌, ◌==◌, Bytes, length, All, ok, ◌>>◌, Act, arith, if◌then◌else◌,
}
use tiksrv.Base.Outcome.{Outcome}
use tiksrv.RouterOs.Sentence.{Fmt, request_sentence, RequestSentence, encode}
use tiksrv.RouterOs.Response.{LexicalCast, ResponseSentence, is_normal, lookup}
use tiksrv.RouterOs.Hex.{encode_hex_string}
use tiksrv.RouterOs.Password.{Md5, login1, challenge_param}
use tiksrv.RouterOs.Api.State.{
  Reply, Callback, login1_reply, login2_reply, invalid_login_credentials, Api, Call, async_send,
  finished, post, is_open, find_callback, erase_callback, emplace_callback, Handler, login,
}
use tiksrv.RouterOs.Api.Callbacks.{find_callback-erase_callback, find_callback-emplace_callback}
use tiksrv.RouterOs.Api.Sending.{send_posted, send_completed}
use tiksrv.RouterOs.Api.Reading.{handle_response}
use tiksrv.RouterOs.Api.Exchange.{IsResponse, on_sent}
use tiksrv.RouterOs.Api.Early.{posted_open}
use tiksrv.RouterOs.Api.Login.{login2_request, after_login1, after_login2, on_login1, on_login2}

-- A callback that comes and goes leaves the map as it was for every tag.
find_callback-come_and_gone :
    (tag : ℕ) (cb : Callback) (cbs : List (ℕ × Callback))
    → find_callback tag cbs ≡ none
    → (t : ℕ)
    → find_callback t (erase_callback tag (emplace_callback tag cb cbs)) ≡ find_callback t cbs
find_callback-come_and_gone tag cb cbs h t =
    let (found, others) = find_callback-emplace_callback tag cb cbs h in
    let (gone, rest) = find_callback-erase_callback tag (emplace_callback tag cb cbs) in
    elim (Bool-cases (t == tag)) [
      | inl same ↦
          let e : t ≡ tag = ground arith in
          ap (λ u. find_callback u (erase_callback tag (emplace_callback tag cb cbs))) e
          ∙ gone
          ∙ sym (ap (λ u. find_callback u cbs) e ∙ h)
      | inr differs ↦ let n : t ≢ tag = ground arith in rest t n ∙ others t n
    ]

-- The connection while `cb` waits for the response under `tag`.
abbrev awaiting : ℕ → Callback → Api → Api
awaiting tag cb a = record a { read_cbs = emplace_callback tag cb a.read_cbs }

abbrev pub next_tag : Api → ℕ
next_tag a = (a.current_tag + 1) % 2 ^ 32

-- The posted part of a send, its completion, and the response.
abbrev pub exchange :
    Fmt
    → Md5
    → LexicalCast
    → (ℕ → Reply → Outcome Bool)
    → RequestSentence
    → Callback
    → List Bytes
    → Act Api Call
exchange fmt md5 lex keep req cb s =
    send_posted fmt md5 req cb
    >> send_completed fmt md5 req cb none
    >> handle_response fmt md5 lex keep s

login1-tag : (fmt : Fmt) (tag : ℕ) → (login1 fmt tag).tag ≡ tag
unfolding login1 request_sentence
login1-tag fmt tag = refl

module _ (fmt : Fmt) (md5 : Md5) (lex : LexicalCast) (keep : ℕ → Reply → Outcome Bool) where
  on_exchange :
      (req : RequestSentence) (cb : Callback) (s : List Bytes) (a b : Api) (cs : List Call)
      → is_open a ≡ true
      → a.send_queue ≡ []
      → handle_response fmt md5 lex keep s (awaiting req.tag cb a) ≡ ok (b, cs)
      → exchange fmt md5 lex keep req cb s a ≡ ok (b, async_send (encode req.words) req cb ∷ cs)
  on_exchange req cb s a b cs o q h =
      rw (posted_open fmt md5 req cb a o q, on_sent fmt md5 req cb a o q, h)

  -- The state behind the first exchange of a login.
  abbrev challenged : ℕ → Bytes → Bytes → Handler → Api → Api
  challenged tag name password h a =
      after_login1 tag (awaiting tag (login1_reply name password h) a)

  first_exchange :
      (req : RequestSentence) (s : List Bytes) (r : ResponseSentence) (name password secret : Bytes)
      (h : Handler) (a : Api)
      → is_open a ≡ true
      → a.send_queue ≡ []
      → find_callback r.tag a.read_cbs ≡ none
      → IsResponse lex s r
      → req.tag ≡ r.tag
      → is_normal r ≡ true
      → lookup challenge_param r.params ≡ some (encode_hex_string secret)
      → length secret ≡ 16
      → All (λ b. b < 256) secret
      → exchange fmt md5 lex keep req (login1_reply name password h) s a
        ≡ ok (
          challenged r.tag name password h a,
          async_send (encode req.words) req (login1_reply name password h)
              ∷ post (login2_request fmt md5 a.current_tag name password secret) (login2_reply h)
              ∷ [],
        )
  unfolding is_open
  first_exchange req s r name password secret h a o e free w t n c l v =
      let cb : Callback = login1_reply name password h in
      let (found, others) = find_callback-emplace_callback r.tag cb a.read_cbs free in
      on_exchange req cb s a _ _ o e (
        ap (λ x. handle_response fmt md5 lex keep s (awaiting x cb a)) t
        ∙ on_login1 fmt md5 lex keep s r name password secret h (awaiting r.tag cb a) o w found n c
            l v)

  second_exchange :
      (req : RequestSentence) (s : List Bytes) (r : ResponseSentence) (h : Handler) (a : Api)
      → is_open a ≡ true
      → a.send_queue ≡ []
      → find_callback r.tag a.read_cbs ≡ none
      → IsResponse lex s r
      → req.tag ≡ r.tag
      → exchange fmt md5 lex keep req (login2_reply h) s a
        ≡ ok (
          after_login2 r (awaiting r.tag (login2_reply h) a),
          async_send (encode req.words) req (login2_reply h)
              ∷ finished h (if is_normal r then none else some invalid_login_credentials)
              ∷ [],
        )
  unfolding is_open
  second_exchange req s r h a o e free w t =
      let cb : Callback = login2_reply h in
      let (found, others) = find_callback-emplace_callback r.tag cb a.read_cbs free in
      on_exchange req cb s a _ _ o e (
        ap (λ x. handle_response fmt md5 lex keep s (awaiting x cb a)) t
        ∙ on_login2 fmt md5 lex keep s r h (awaiting r.tag cb a) o w found)

  -- A login on an open connection whose queue is empty, its two requests sent and their responses read
  -- one after the other. The first request goes out under the current tag, its answer makes the
  -- second go out under the next one, with the hashed password in its words, and the answer to that
  -- is reported: success, and the connection logged in, when its type is !done, and else
  -- invalid credentials, and the connection as much logged in as before. Both ways the connection is
  -- open, the queue is empty, and under each tag just the function waits that waited before. This
  -- holds when nothing waits under the two tags and the first answer is of type !done, with the
  -- hexadecimal text of 16 bytes as its parameter `ret`.
  pub login-exchanges :
      (s u : List Bytes) (r q : ResponseSentence) (name password secret : Bytes) (h : Handler)
      (a : Api)
      → is_open a ≡ true
      → a.send_queue ≡ []
      → find_callback a.current_tag a.read_cbs ≡ none
      → find_callback (next_tag a) a.read_cbs ≡ none
      → IsResponse lex s r
      → r.tag ≡ a.current_tag
      → is_normal r ≡ true
      → lookup challenge_param r.params ≡ some (encode_hex_string secret)
      → length secret ≡ 16
      → All (λ b. b < 256) secret
      → IsResponse lex u q
      → q.tag ≡ next_tag a
      → let first = login1 fmt a.current_tag in
        let second = login2_request fmt md5 (next_tag a) name password secret in
        (b : Api) × ((login fmt name password h
              >> exchange fmt md5 lex keep first (login1_reply name password h) s
              >> exchange fmt md5 lex keep second (login2_reply h) u)
            a
          ≡ ok (
            b,
            post first (login1_reply name password h)
                ∷ async_send (encode first.words) first (login1_reply name password h)
                ∷ post second (login2_reply h)
                ∷ async_send (encode second.words) second (login2_reply h)
                ∷ finished h (if is_normal q then none else some invalid_login_credentials)
                ∷ [],
          ))
        × (b.logged_in ≡ (if is_normal q then true else a.logged_in))
        × (is_open b ≡ true)
        × (b.send_queue ≡ [])
        × ((t : ℕ) → find_callback t b.read_cbs ≡ find_callback t a.read_cbs)
  unfolding is_open login
  login-exchanges s u r q name password secret h a o e free free' w t n c l v w' t' =
      let cb : Callback = login1_reply name password h in
      let a1 : Api = record a { current_tag = next_tag a } in
      let free1 : find_callback r.tag a.read_cbs ≡ none =
        ap (λ x. find_callback x a.read_cbs) t ∙ free in
      let free2 : find_callback q.tag a.read_cbs ≡ none =
        ap (λ x. find_callback x a.read_cbs) t' ∙ free' in
      let a2 : Api = challenged r.tag name password h a1 in
      let before = find_callback-come_and_gone r.tag cb a.read_cbs free1 in
      let free3 : find_callback q.tag a2.read_cbs ≡ none = before q.tag ∙ free2 in
      let after = find_callback-come_and_gone q.tag (login2_reply h) a2.read_cbs free3 in
      (
        after_login2 q (awaiting q.tag (login2_reply h) a2),
        rw (
          first_exchange (login1 fmt a.current_tag) s r name password secret h a1 o e free1 w
              (login1-tag fmt a.current_tag ∙ sym t) n c l v,
          second_exchange (login2_request fmt md5 (next_tag a) name password secret) u q h a2 o e
              free3 w' (sym t'),
        ),
        refl,
        o,
        e,
        λ x. after x ∙ before x,
      )
