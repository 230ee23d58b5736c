-- ===== src/RouterOs/Tests/Login.antt =====
-- A login at concrete inputs.
use tiksrv.Base.{
  ℕ, ◌≡◌, ◌<◌, All, subst, refl, true, false, none, some, List, [], ◌∷◌, Bytes, codes, ok, arith,
  ◌>>◌, if◌then◌else◌,
}
use tiksrv.Base.Decimal.{digits_value}
use tiksrv.Base.Tests.{str_eq}
use tiksrv.RouterOs.Sentence.{RequestSentence, encode}
use tiksrv.RouterOs.Response.{
  ResponseSentence, normal, is_normal, lookup, is_valid_response, response_sentence, response_type,
  add_word, param_groups, tag_group,
}
use tiksrv.RouterOs.Hex.{encode_hex_string}
use tiksrv.RouterOs.Password.{challenge_param, login1}
use tiksrv.RouterOs.Api.State.{
  login1_reply, login2_reply, Api, async_send, finished, post, invalid_login_credentials, is_open,
  find_callback, login,
}
use tiksrv.RouterOs.Api.Exchange.{IsResponse}
use tiksrv.RouterOs.Api.Login.{login2_request}
use tiksrv.RouterOs.Api.Challenge.{Ends, handle_response-login1_cases, same_text}
use tiksrv.RouterOs.Api.Authenticating.{exchange, login-exchanges}
use tiksrv.RouterOs.Tests.{substituting, digits_cast, digest, digest_bytes, one_digest, keep}
use tiksrv.RouterOs.Tests.Session.{ready}

abbrev challenge_words : List Bytes
challenge_words =
    codes "!done" ∷ codes "=ret=00112233445566778899aabbccddeeff" ∷ codes ".tag=1" ∷ []

abbrev challenge : ResponseSentence
challenge = record {
  params = (codes "ret", codes "00112233445566778899aabbccddeeff") ∷ [];
  type = normal;
  tagged = true;
  tag = 1;
}

challenge-IsResponse : IsResponse digits_cast challenge_words challenge
unfolding response_sentence is_valid_response response_type param_groups tag_group str_eq add_word
    digits_value
challenge-IsResponse = record { starts = refl; long = omega arith; parses = refl; has_tag = refl }

challenge-is_normal : is_normal challenge ≡ true
unfolding is_normal
challenge-is_normal = refl

challenge_found : lookup challenge_param challenge.params ≡ some (encode_hex_string digest)
unfolding lookup encode_hex_string str_eq
challenge_found = refl

abbrev accepted_words : List Bytes
accepted_words = codes "!done" ∷ codes ".tag=2" ∷ []

abbrev accepted : ResponseSentence
accepted = record { params = []; type = normal; tagged = true; tag = 2 }

accepted-IsResponse : IsResponse digits_cast accepted_words accepted
unfolding response_sentence is_valid_response response_type param_groups tag_group str_eq add_word
    digits_value
accepted-IsResponse = record { starts = refl; long = omega arith; parses = refl; has_tag = refl }

abbrev unlogged : Api
unlogged = record ready { current_tag = 1 }

unlogged-is_open : is_open unlogged ≡ true
unfolding is_open
unlogged-is_open = refl

nothing_waits : (t : ℕ) → find_callback t unlogged.read_cbs ≡ none
unfolding find_callback
nothing_waits t = refl

abbrev first : RequestSentence
first = login1 substituting 1

abbrev second : RequestSentence
second = login2_request substituting one_digest 2 (codes "admin") (codes "secret") digest

login-exchanges_example :
    (b : Api) × ((login substituting (codes "admin") (codes "secret") 8
          >> exchange substituting one_digest digits_cast keep first
              (login1_reply (codes "admin") (codes "secret") 8)
              challenge_words
          >> exchange substituting one_digest digits_cast keep second
              (login2_reply 8)
              accepted_words)
        unlogged
      ≡ ok (
        b,
        post first (login1_reply (codes "admin") (codes "secret") 8)
            ∷ async_send
                (encode first.words)
                first
                (login1_reply (codes "admin") (codes "secret") 8)
            ∷ post second (login2_reply 8)
            ∷ async_send (encode second.words) second (login2_reply 8)
            ∷ finished 8 (if is_normal accepted then none else some invalid_login_credentials)
            ∷ [],
      ))
    × (b.logged_in ≡ (if is_normal accepted then true else false))
    × (is_open b ≡ true)
    × (b.send_queue ≡ [])
    × ((t : ℕ) → find_callback t b.read_cbs ≡ find_callback t unlogged.read_cbs)
login-exchanges_example =
    login-exchanges substituting one_digest digits_cast keep challenge_words accepted_words
      challenge accepted (codes "admin") (codes "secret") digest 8 unlogged unlogged-is_open refl
      (nothing_waits 1) (nothing_waits 2) challenge-IsResponse refl challenge-is_normal
      challenge_found refl digest_bytes accepted-IsResponse refl

abbrev asked_name : Api
asked_name = record ready { read_cbs = (1, login1_reply (codes "admin") (codes "secret") 8) ∷ [] }

asked_name-is_open : is_open asked_name ≡ true
unfolding is_open
asked_name-is_open = refl

login1_waits :
    find_callback 1 asked_name.read_cbs ≡ some (login1_reply (codes "admin") (codes "secret") 8)
unfolding find_callback
login1_waits = refl

abbrev wrong_words : List Bytes
wrong_words = codes "!done" ∷ codes "=ret=0011223344556677x899aabbccddeeff" ∷ codes ".tag=1" ∷ []

abbrev wrong : ResponseSentence
wrong = record challenge { params = (codes "ret", codes "0011223344556677x899aabbccddeeff") ∷ [] }

wrong-IsResponse : IsResponse digits_cast wrong_words wrong
unfolding response_sentence is_valid_response response_type param_groups tag_group str_eq add_word
    digits_value
wrong-IsResponse = record { starts = refl; long = omega arith; parses = refl; has_tag = refl }

wrong-chars :
    (cha : Bytes) → lookup challenge_param wrong.params ≡ some cha → All (λ b. b < 256) cha
unfolding lookup str_eq
wrong-chars cha e = subst (All (λ b. b < 256)) (same_text e) (ground arith)

handle_response-login1_cases_example :
    (b : Api) × (b.logged_in ≡ false)
    × Ends substituting one_digest digits_cast keep wrong_words wrong
        (codes "admin")
        (codes "secret")
        8
        asked_name
        b
handle_response-login1_cases_example =
    handle_response-login1_cases substituting one_digest digits_cast keep wrong_words wrong
      (codes "admin") (codes "secret") 8 asked_name asked_name-is_open wrong-IsResponse login1_waits
      wrong-chars
