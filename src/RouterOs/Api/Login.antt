-- ===== src/RouterOs/Api/Login.antt =====
-- The two exchanges of a login: src/plugins/eztik/routeros/src/api.cpp, `api::login`.
use tiksrv.Base.{
  ℕ, ◌+◌, ◌%◌, ◌^◌, ◌<◌, ◌≡◌, refl, ap, ◌∙◌, Bool, true, Bool-cases, inl, inr, none, some, List, [],
  ◌∷◌, Bytes, length, All, ok, arith, if◌then◌else◌,
}
use tiksrv.Base.Outcome.{Outcome}
use tiksrv.RouterOs.Sentence.{Fmt, RequestSentence}
use tiksrv.RouterOs.Response.{LexicalCast, ResponseSentence, is_normal, lookup}
use tiksrv.RouterOs.Hex.{encode_hex_string}
use tiksrv.RouterOs.Password.{Md5, challenge_param}
use tiksrv.RouterOs.Api.State.{
  Reply, login1_reply, login2_reply, invalid_login_credentials, Api, finished, post, is_open,
  find_callback, erase_callback, Handler, aquire_unique_tag,
}
use tiksrv.RouterOs.Api.Callbacks.{find_callback-erase_callback}
use tiksrv.RouterOs.Api.Sending.{challenge_in, challenge_of, invoke}
use tiksrv.RouterOs.Api.Reading.{handle_response}
use tiksrv.RouterOs.Hex.RoundTrip.{length-encode_hex_string}
use tiksrv.RouterOs.Password.Login.{login2_words, login2_lem}
use tiksrv.RouterOs.Api.Exchange.{IsResponse, on_response}

challenge_of_hex :
    (r : ResponseSentence) (secret : Bytes)
    → is_normal r ≡ true
    → lookup challenge_param r.params ≡ some (encode_hex_string secret)
    → length secret ≡ 16
    → challenge_of r ≡ some (encode_hex_string secret)
unfolding challenge_of
challenge_of_hex r secret n c l =
    ap (challenge_in r) c ∙ ground (arith, length-encode_hex_string secret)

-- The connection behind the answer to the first request, with a challenge.
abbrev pub after_login1 : ℕ → Api → Api
after_login1 tag a = record a {
  current_tag = (a.current_tag + 1) % 2 ^ 32;
  read_cbs = erase_callback tag a.read_cbs;
}

-- The connection behind the answer to the second.
abbrev pub after_login2 : ResponseSentence → Api → Api
after_login2 r a = record a {
  logged_in = if is_normal r then true else a.logged_in;
  read_cbs = erase_callback r.tag a.read_cbs;
}

module _ (fmt : Fmt) (md5 : Md5) where
  abbrev pub login2_request : ℕ → Bytes → Bytes → Bytes → RequestSentence
  login2_request tag name password secret = record {
    words = login2_words fmt md5 tag name password secret;
    tag = tag;
  }

module _ (fmt : Fmt) (md5 : Md5) (lex : LexicalCast) (keep : ℕ → Reply → Outcome Bool) where
  pub on_login1 :
      (s : List Bytes) (r : ResponseSentence) (name password secret : Bytes) (h : Handler) (a : Api)
      → is_open a ≡ true
      → IsResponse lex s r
      → find_callback r.tag a.read_cbs ≡ some (login1_reply name password h)
      → is_normal r ≡ true
      → lookup challenge_param r.params ≡ some (encode_hex_string secret)
      → length secret ≡ 16
      → All (λ b. b < 256) secret
      → handle_response fmt md5 lex keep s a
        ≡ ok (
          after_login1 r.tag a,
          post (login2_request fmt md5 a.current_tag name password secret) (login2_reply h) ∷ [],
        )
  unfolding invoke aquire_unique_tag
  on_login1 s r name password secret h a o w f n c l v =
      on_response fmt md5 lex keep s r (login1_reply name password h) a o w f
      ∙ rw (
        challenge_of_hex r secret n c l,
        login2_lem fmt md5 a.current_tag name password secret l v,
      )

  -- The answer to the first request of a login, when it holds a challenge: the second request is sent
  -- under the next tag, and its words are the command, the tag, the user name, and the response, which
  -- is 00 and the hexadecimal text of the MD5 digest of a zero byte, the password and the 16 bytes
  -- of the challenge. Nobody is logged in by it, and nothing waits under the old tag any more. This
  -- holds for a response of type !done whose parameter `ret` is the hexadecimal text of 16 bytes.
  pub handle_response-login1 :
      (s : List Bytes) (r : ResponseSentence) (name password secret : Bytes) (h : Handler) (a : Api)
      → is_open a ≡ true
      → IsResponse lex s r
      → find_callback r.tag a.read_cbs ≡ some (login1_reply name password h)
      → is_normal r ≡ true
      → lookup challenge_param r.params ≡ some (encode_hex_string secret)
      → length secret ≡ 16
      → All (λ b. b < 256) secret
      → (b : Api) × (handle_response fmt md5 lex keep s a
          ≡ ok (
            b,
            post
                  (record {
                    words = login2_words fmt md5 a.current_tag name password secret;
                    tag = a.current_tag;
                  })
                  (login2_reply h)
                ∷ [],
          ))
        × (b.logged_in ≡ a.logged_in)
        × (find_callback r.tag b.read_cbs ≡ none)
  handle_response-login1 s r name password secret h a o w f n c l v =
      let (gone, others) = find_callback-erase_callback r.tag a.read_cbs in
      (after_login1 r.tag a, on_login1 s r name password secret h a o w f n c l v, refl, gone)

  pub on_login2 :
      (s : List Bytes) (r : ResponseSentence) (h : Handler) (a : Api)
      → is_open a ≡ true
      → IsResponse lex s r
      → find_callback r.tag a.read_cbs ≡ some (login2_reply h)
      → handle_response fmt md5 lex keep s a
        ≡ ok (
          after_login2 r a,
          finished h (if is_normal r then none else some invalid_login_credentials) ∷ [],
        )
  unfolding invoke is_normal
  on_login2 s r h a o w f = elim (Bool-cases (is_normal r)) [
    | inl good ↦ on_response fmt md5 lex keep s r (login2_reply h) a o w f ∙ rw good
    | inr bad ↦ on_response fmt md5 lex keep s r (login2_reply h) a o w f ∙ rw bad
  ]

  -- The answer to the second request of a login: a response of type !done logs the connection in and
  -- reports success, any other reports invalid credentials and leaves it as it was; the connection
  -- stays open, and nothing waits under that tag any more.
  pub handle_response-login2 :
      (s : List Bytes) (r : ResponseSentence) (h : Handler) (a : Api)
      → is_open a ≡ true
      → IsResponse lex s r
      → find_callback r.tag a.read_cbs ≡ some (login2_reply h)
      → (b : Api) × (handle_response fmt md5 lex keep s a
          ≡ ok (b, finished h (if is_normal r then none else some invalid_login_credentials) ∷ []))
        × (b.logged_in ≡ (if is_normal r then true else a.logged_in))
        × (is_open b ≡ true)
        × (find_callback r.tag b.read_cbs ≡ none)
  unfolding is_open
  handle_response-login2 s r h a o w f =
      let (gone, others) = find_callback-erase_callback r.tag a.read_cbs in
      (after_login2 r a, on_login2 s r h a o w f, refl, o, gone)
