-- ===== src/RouterOs/Tests/Session.antt =====
-- A connection at concrete inputs: sentences on the wire, requests, and replies.
use tiksrv.Base.{
  ℕ, zero, suc, ◌+◌, ◌^◌, ◌≤◌, ◌<◌, ◌≡◌, ◌≢◌, refl, sym, ap, subst, true, false, none, some, List,
  [], ◌∷◌, ◌++◌, Bytes, codes, length, All, replicate, ok, prepend, arith, if◌then◌else◌,
}
use tiksrv.Base.Stream.{feed}
use tiksrv.Base.Decimal.{digits_value}
use tiksrv.Base.Tests.{str_eq}
use tiksrv.RouterOs.Sentence.{RequestSentence}
use tiksrv.RouterOs.Response.{
  ResponseSentence, re, is_valid_response, response_sentence, response_type, add_word, param_groups,
  tag_group,
}
use tiksrv.RouterOs.Api.State.{
  reading_length, other, Api, async_read, reply, response, is_open, find_callback,
}
use tiksrv.RouterOs.Api.Early.{send_posted-handle_response}
use tiksrv.RouterOs.Api.State.{async_send, on_error, invalid_response_tag, closed}
use tiksrv.RouterOs.Sentence.{encode}
use tiksrv.RouterOs.Api.Sending.{send_posted, send_completed}
use tiksrv.RouterOs.Api.Reading.{handle_response}
use tiksrv.RouterOs.Api.Steps.{IsReady}
use tiksrv.RouterOs.Api.Portions.{whole, size, deliver, wanted}
use tiksrv.RouterOs.Api.Words.{calls_for, after_words, stream, rounds, IsWord}
use tiksrv.Base.{aborted}
use tiksrv.RouterOs.Sentence.{encode_word}
use tiksrv.RouterOs.Api.LongWords.{feed-encode_word}
use tiksrv.RouterOs.Api.Words.{calls_for_length, rounds_of}
use tiksrv.RouterOs.Api.Portions.{collect}
use tiksrv.RouterOs.Api.Sentences.{ready_again, feed-sentence}
use tiksrv.RouterOs.Api.Tags.{nth_tag, aquire_unique_tag-distinct}
use tiksrv.RouterOs.Api.Exchange.{IsResponse, send_completed-handle_response}
use tiksrv.RouterOs.Tests.{substituting, digits_cast, one_digest, keep}

abbrev pub ready : Api
ready = record {
  sock_open = true;
  state = reading_length;
  buffer = 0 ∷ [];
  sentence = [];
  logged_in = false;
  current_tag = 2;
  read_cbs = [];
  send_queue = [];
}

ready-IsReady : IsReady ready
ready-IsReady = record { socket_open = refl; expects_length = refl; room = refl }

abbrev words : List Bytes
words = codes "!re" ∷ codes ".tag=1" ∷ []

words-IsWord : All IsWord words
words-IsWord = (
  record { present = omega arith; fits = omega arith },
  (record { present = omega arith; fits = omega arith }, tt),
)

abbrev response_1 : ResponseSentence
response_1 = record { params = []; type = re; tagged = true; tag = 1 }

response_1-IsResponse : IsResponse digits_cast words response_1
unfolding response_sentence is_valid_response response_type param_groups tag_group str_eq add_word
    digits_value
response_1-IsResponse = record { starts = refl; long = omega arith; parses = refl; has_tag = refl }

abbrev asked : Api
asked = record ready { read_cbs = (1, other 5) ∷ [] }

answered :
    handle_response substituting one_digest digits_cast keep words
      (record (after_words asked words) { buffer = 0 ∷ [] })
    ≡ ok (
      record (after_words asked words) { buffer = 0 ∷ []; read_cbs = [] },
      reply 5 (response response_1) ∷ [],
    )
unfolding handle_response response_sentence is_valid_response response_type param_groups tag_group
    str_eq add_word digits_value
answered = refl

answered-is_open :
    is_open (record (after_words asked words) { buffer = 0 ∷ []; read_cbs = [] }) ≡ true
unfolding is_open
answered-is_open = refl

feed-sentence_example :
    (feed size
        (deliver substituting one_digest digits_cast keep)
        wanted
        (rounds words 2)
        (whole 1)
        (stream words ++ ((0 ∷ []) ++ []))
        asked
      ≡ prepend (calls_for words ++ ((reply 5 (response response_1) ∷ []) ++ (async_read 1 ∷ []))) (
          feed size
            (deliver substituting one_digest digits_cast keep)
            wanted
            1
            (whole 1)
            []
            (ready_again (record (after_words asked words) { buffer = 0 ∷ []; read_cbs = [] }))))
    × IsReady (ready_again (record (after_words asked words) { buffer = 0 ∷ []; read_cbs = [] }))
feed-sentence_example =
    feed-sentence substituting one_digest digits_cast keep asked
      (record (after_words asked words) { buffer = 0 ∷ []; read_cbs = [] }) words [] 1
      (reply 5 (response response_1) ∷ [])
      (record { socket_open = refl; expects_length = refl; room = refl }) refl words-IsWord answered
      answered-is_open

abbrev long_word : Bytes
long_word = replicate 0x4000 7

length-replicate : (n x : ℕ) → length (replicate n x) ≡ n
length-replicate zero x = refl
length-replicate (suc n) x = ap suc (length-replicate n x)

long_word-ge : 0x4000 ≤ length long_word
long_word-ge = subst (λ n. 0x4000 ≤ n) (sym (length-replicate 0x4000 7)) (omega arith)

long_word-lt : length long_word < 2 ^ 32
long_word-lt = subst (λ n. n < 2 ^ 32) (sym (length-replicate 0x4000 7)) (omega arith)

long_word-pos : 0 < length long_word
long_word-pos = subst (λ n. 0 < n) (sym (length-replicate 0x4000 7)) (omega arith)

feed-encode_word_example :
    (length long_word < 0x4000
      → feed size
          (deliver substituting one_digest digits_cast keep)
          wanted
          (rounds_of long_word 0)
          (whole 1)
          (encode_word long_word ++ [])
          ready
        ≡ prepend (calls_for_length (length long_word) ++ (async_read 1 ∷ [])) (
            feed size
              (deliver substituting one_digest digits_cast keep)
              wanted
              0
              (whole 1)
              []
              (collect ready long_word)))
    × (0x4000 ≤ length long_word
        → feed size
            (deliver substituting one_digest digits_cast keep)
            wanted
            2
            (whole 1)
            (encode_word long_word ++ [])
            ready
          ≡ aborted)
feed-encode_word_example =
    feed-encode_word substituting one_digest digits_cast keep ready long_word [] 0 ready-IsReady
      long_word-pos long_word-lt

aquire_unique_tag-distinct_example :
    (5 < 3 + 2 ^ 32 → nth_tag 3 ready ≢ nth_tag 5 ready)
    × (nth_tag (3 + 2 ^ 32) ready ≡ nth_tag 3 ready)
aquire_unique_tag-distinct_example =
    aquire_unique_tag-distinct ready 3 5 (omega arith) (omega arith)

ready-is_open : is_open ready ≡ true
unfolding is_open
ready-is_open = refl

abbrev request : RequestSentence
request = record { words = codes "/ip/address/getall" ∷ codes ".tag=1" ∷ []; tag = 1 }

not_waiting : find_callback 1 ready.read_cbs ≡ none
unfolding find_callback
not_waiting = refl

send_completed-handle_response_example :
    (b : Api) × (c : Api) × (send_completed substituting one_digest request (other 5) none ready
      ≡ ok (b, []))
    × (handle_response substituting one_digest digits_cast keep words b
        ≡ ok (c, reply 5 (response response_1) ∷ []))
    × (is_open c ≡ true)
    × (find_callback 1 c.read_cbs ≡ (if false then some (other 5) else none))
    × ((t : ℕ) → t ≢ 1 → find_callback t c.read_cbs ≡ find_callback t ready.read_cbs)
send_completed-handle_response_example =
    send_completed-handle_response substituting one_digest digits_cast keep request 5 false words
      response_1 ready ready-is_open refl not_waiting response_1-IsResponse refl refl

send_posted-handle_response_example :
    (b : Api) × (c : Api) × (send_posted substituting one_digest request (other 5) ready
      ≡ ok (b, async_send (encode request.words) request (other 5) ∷ []))
    × (handle_response substituting one_digest digits_cast keep words b
        ≡ ok (c, on_error invalid_response_tag ∷ []))
    × (c.sock_open ≡ false)
    × (c.state ≡ closed)
send_posted-handle_response_example =
    send_posted-handle_response substituting one_digest digits_cast keep request (other 5) words
      response_1 ready ready-is_open refl not_waiting response_1-IsResponse
