-- ===== src/RouterOs/Api/Challenge.antt =====
-- Every answer that the first request of a login may get: src/plugins/eztik/routeros/src/api.cpp,
-- the function that `api::login` sends the request with.
use tiksrv.Base.{
  ℕ, ◌+◌, ◌%◌, ◌^◌, ◌<◌, ◌≡◌, ◌⊎◌, refl, sym, ap, ◌∙◌, Bool, true, false, Bool-cases, inl, inr,
  Option, ◌&&◌, none, some, List, [], ◌∷◌, ◌==◌, Bytes, length, All, ok, arith,
}
use tiksrv.Base.Outcome.{Outcome, returned, thrown, runtime_error}
use tiksrv.RouterOs.Sentence.{Fmt}
use tiksrv.RouterOs.Response.{LexicalCast, ResponseSentence, is_normal, lookup}
use tiksrv.RouterOs.Hex.{decode_hex_string}
use tiksrv.RouterOs.Hex.Decoding.{IsHexDigit, decode_hex_string_cases}
use tiksrv.RouterOs.Password.{Md5, challenge_param, challenge_size}
use tiksrv.RouterOs.Password.Login.{login2-returned, login2-thrown}
use tiksrv.RouterOs.Api.State.{
  Reply, login1_reply, login2_reply, invalid_response, fatal_response, Api, finished, post,
  on_error, is_open, find_callback, erase_callback, Handler, aquire_unique_tag,
}
use tiksrv.RouterOs.Api.Callbacks.{find_callback-erase_callback}
use tiksrv.RouterOs.Api.Sending.{challenge_in, challenge_of, invoke}
use tiksrv.RouterOs.Api.Reading.{handle_response}
use tiksrv.RouterOs.Api.Exchange.{IsResponse, on_response}
use tiksrv.RouterOs.Api.Early.{shut, fail_open}
use tiksrv.RouterOs.Api.Login.{after_login1, login2_request}

-- The response is of type !done and has a parameter `ret` of 32 characters, which is `cha`.
pub record IsChallenge (r : ResponseSentence) (cha : Bytes) : Type 0 where
  pub done : is_normal r ≡ true
  pub present : lookup challenge_param r.params ≡ some cha
  pub sized : length cha ≡ 32

abbrev Judged : ResponseSentence → Option Bytes → Type 0
Judged r o =
    ((cha : Bytes) × IsChallenge r cha × (o ≡ some cha))
    ⊎ (((cha : Bytes) → ¬ IsChallenge r cha) × (o ≡ none))

pub same_text : {x y : Bytes} → some x ≡ some y → x ≡ y
same_text h = cc

challenge_in_cases :
    (r : ResponseSentence) (o : Option Bytes)
    → lookup challenge_param r.params ≡ o
    → Judged r (challenge_in r o)
challenge_in_cases r none e = inr (λ cha k. cc (e, k.present), refl)
challenge_in_cases r (some cha) e =
    elim (Bool-cases (is_normal r && (length cha == challenge_size))) [
      | inl good ↦
          inl (cha, record { done = ground arith; present = e; sized = ground arith }, rw good)
      | inr bad ↦ inr (
        λ c k.
            let same : c ≡ cha = same_text (sym k.present ∙ e) in
            let size : length cha ≡ 32 = ap length (sym same) ∙ k.sized in
            ground (arith, k.done, size),
        rw bad,
      )
    ]

challenge_of_cases : (r : ResponseSentence) → Judged r (challenge_of r)
unfolding challenge_of
challenge_of_cases r = challenge_in_cases r (lookup challenge_param r.params) refl

module _ (fmt : Fmt) (md5 : Md5) (lex : LexicalCast) (keep : ℕ → Reply → Outcome Bool) where
  abbrev tag_taken : Api → Api
  tag_taken a = record a { current_tag = (a.current_tag + 1) % 2 ^ 32 }

  unchallenged :
      (s : List Bytes) (r : ResponseSentence) (name password : Bytes) (h : Handler) (a : Api)
      → is_open a ≡ true
      → IsResponse lex s r
      → find_callback r.tag a.read_cbs ≡ some (login1_reply name password h)
      → challenge_of r ≡ none
      → handle_response fmt md5 lex keep s a
        ≡ ok (
          record a { read_cbs = erase_callback r.tag a.read_cbs },
          finished h (some invalid_response) ∷ [],
        )
  unfolding invoke
  unchallenged s r name password h a o w f c =
      on_response fmt md5 lex keep s r (login1_reply name password h) a o w f ∙ rw c

  challenged :
      (s : List Bytes) (r : ResponseSentence) (name password cha secret : Bytes) (h : Handler)
      (a : Api)
      → is_open a ≡ true
      → IsResponse lex s r
      → find_callback r.tag a.read_cbs ≡ some (login1_reply name password h)
      → challenge_of r ≡ some cha
      → length cha ≡ 32
      → decode_hex_string 16 cha ≡ returned secret
      → handle_response fmt md5 lex keep s a
        ≡ ok (
          after_login1 r.tag a,
          post (login2_request fmt md5 a.current_tag name password secret) (login2_reply h) ∷ [],
        )
  unfolding invoke aquire_unique_tag
  challenged s r name password cha secret h a o w f c l d =
      on_response fmt md5 lex keep s r (login1_reply name password h) a o w f
      ∙ rw (c, login2-returned fmt md5 a.current_tag name password cha secret l d)

  misled :
      (s : List Bytes) (r : ResponseSentence) (name password cha : Bytes) (h : Handler) (a : Api)
      → is_open a ≡ true
      → IsResponse lex s r
      → find_callback r.tag a.read_cbs ≡ some (login1_reply name password h)
      → challenge_of r ≡ some cha
      → length cha ≡ 32
      → decode_hex_string 16 cha ≡ thrown runtime_error
      → handle_response fmt md5 lex keep s a ≡ ok (shut (tag_taken a), on_error fatal_response ∷ [])
  unfolding invoke aquire_unique_tag is_open
  misled s r name password cha h a o w f c l d =
      on_response fmt md5 lex keep s r (login1_reply name password h) a o w f
      ∙ rw (
        c,
        login2-thrown fmt md5 a.current_tag name password cha runtime_error l d,
        fail_open fatal_response (tag_taken a) o,
      )

  -- The three ends of an answer to the first request of a login.
  abbrev pub Ends : List Bytes → ResponseSentence → Bytes → Bytes → Handler → Api → Api → Type 0
  Ends s r name password h a b =
      (((cha : Bytes) → ¬ IsChallenge r cha)
        × (handle_response fmt md5 lex keep s a ≡ ok (b, finished h (some invalid_response) ∷ []))
        × (is_open b ≡ true)
        × (find_callback r.tag b.read_cbs ≡ none))
      ⊎ (((cha : Bytes) × (secret : Bytes) × IsChallenge r cha
            × All IsHexDigit cha
            × (decode_hex_string 16 cha ≡ returned secret)
            × (length secret ≡ 16)
            × (handle_response fmt md5 lex keep s a
                ≡ ok (
                  b,
                  post (login2_request fmt md5 a.current_tag name password secret) (login2_reply h)
                      ∷ [],
                ))
            × (is_open b ≡ true)
            × (find_callback r.tag b.read_cbs ≡ none))
          ⊎ ((cha : Bytes) × IsChallenge r cha
              × (¬ All IsHexDigit cha)
              × (handle_response fmt md5 lex keep s a ≡ ok (b, on_error fatal_response ∷ []))
              × (is_open b ≡ false)
              × (find_callback r.tag b.read_cbs ≡ some (login1_reply name password h))))

  -- Every answer to the first request of a login has one of three ends. When it is no challenge, so
  -- not of type !done or without 32 characters as its parameter `ret`, invalid_response is reported,
  -- the connection stays open and nothing waits under the tag. When the 32 characters are
  -- hexadecimal digits, the second request is sent under the next tag, with the response to the 16
  -- bytes that they denote in its words, and the connection is open and nobody logged in by it. When
  -- one of them is no such digit, the connection is closed with fatal_response, and the login's
  -- function is not called and waits on. This holds for a parameter `ret` of characters below 256.
  pub handle_response-login1_cases :
      (s : List Bytes) (r : ResponseSentence) (name password : Bytes) (h : Handler) (a : Api)
      → is_open a ≡ true
      → IsResponse lex s r
      → find_callback r.tag a.read_cbs ≡ some (login1_reply name password h)
      → ((cha : Bytes) → lookup challenge_param r.params ≡ some cha → All (λ b. b < 256) cha)
      → (b : Api) × (b.logged_in ≡ a.logged_in) × Ends s r name password h a b
  unfolding is_open
  handle_response-login1_cases s r name password h a o w f v =
      let (gone, others) = find_callback-erase_callback r.tag a.read_cbs in
      elim (challenge_of_cases r) [
        | inr (unfit, c) ↦ (
          record a { read_cbs = erase_callback r.tag a.read_cbs },
          refl,
          inl (unfit, unchallenged s r name password h a o w f c, o, gone),
        )
        | inl (cha, k, c) ↦ elim (decode_hex_string_cases 16 cha k.sized (v cha k.present)) [
          | inl (secret, d, n, digits) ↦ (
            after_login1 r.tag a,
            refl,
            inr (
                inl (
                  cha,
                  secret,
                  k,
                  digits,
                  d,
                  n,
                  challenged s r name password cha secret h a o w f c k.sized d,
                  o,
                  gone,
                )),
          )
          | inr (d, unfit) ↦ (
            shut (tag_taken a),
            refl,
            inr (inr (cha, k, unfit, misled s r name password cha h a o w f c k.sized d, refl, f)),
          )
        ]
      ]
