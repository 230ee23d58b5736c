-- ===== src/RouterOs/Api/Reading.antt =====
-- Bytes on their way in: lengths, words, and the responses that they make up.
use tiksrv.Base.{
  ℕ, Bool, true, false, ◌&&◌, Option, none, some, List, [], ◌∷◌, ◌++◌, Bytes, length, take, drop,
  resize, min, Result, aborted, Act, prepend, ◌>>◌, skip, emit, modify, assert, reading, ◌==◌, ltb,
  leb, if◌then◌else◌,
}
use tiksrv.Base.Outcome.{Outcome, returned, thrown, stopped}
use tiksrv.RouterOs.Sentence.{Fmt}
use tiksrv.RouterOs.Length.{
  Prefix, end_of_sentence, short, long, invalid, length_prefix, join_length,
}
use tiksrv.RouterOs.Response.{LexicalCast, ResponseSentence, is_valid_response, response_sentence}
use tiksrv.RouterOs.Password.{Md5}
use tiksrv.RouterOs.Api.State.{
  ErrorCode, message_size, invalid_response, fatal_response, untagged_response,
  invalid_response_tag, ReadState, idle, reading_length, reading_word, Reply, response, Callback,
  login1_reply, login2_reply, other, Api, Call, async_read, async_read_length, finished, is_idle,
  is_reading_length, is_reading_word, is_closed, is_open, set_state, fail, find_callback,
  erase_callback, Handler,
}
use tiksrv.RouterOs.Api.Sending.{Attempt, completed, threw, halted, invoke}

unfoldable pub read_next : ℕ → Act Api Call
unfolding is_open
read_next n =
    reading (λ a. assert (is_open a))
    >> modify (λ a. record a { buffer = resize n 0 a.buffer })
    >> emit (async_read n)

unfoldable pub read_next_word : Act Api Call
unfolding is_open read_next
read_next_word = reading λ a.
    if is_open a
    then (assert (is_idle a.state) >> set_state reading_length >> read_next 1)
    else skip

unfoldable pub start : Act Api Call
unfolding read_next_word is_open
start = reading (λ a. assert (is_open a && is_idle a.state)) >> read_next_word

-- The completion of `open`'s connection attempt.
unfoldable pub connect_completed : Handler → Option ErrorCode → Act Api Call
unfolding start
connect_completed cb err =
    elim err [ some x ↦ skip | none ↦ set_state idle >> start ] >> emit (finished cb err)

unfoldable pub on_reading_word : Bytes → Act Api Call
unfolding is_open read_next_word
on_reading_word view =
    reading (λ a. assert (is_open a && is_reading_word a.state))
    >> modify (λ a. record a { sentence = a.sentence ++ (view ∷ []); state = idle })
    >> read_next_word

-- `keep k r`: how the function `k` ends on the reply `r`: with the answer whether it waits on, with an
-- exception, or with a failed assertion, which ends the program.
module _ (fmt : Fmt) (md5 : Md5) (lex : LexicalCast) (keep : ℕ → Reply → Outcome Bool) where
  abbrev pub keeps : Callback → Reply → Outcome Bool
  keeps (login1_reply name password h) r = returned false
  keeps (login2_reply h) r = returned false
  keeps (other k) r = keep k r

  abbrev pub erase_unless : Bool → ℕ → Act Api Call
  erase_unless true tag = skip
  erase_unless false tag = modify λ a. record a { read_cbs = erase_callback tag a.read_cbs }

  -- An exception of the callback is caught.
  abbrev pub conclude : Outcome Bool → ℕ → Act Api Call
  conclude (returned kept) tag = erase_unless kept tag
  conclude (thrown x) tag = fail fatal_response
  conclude stopped tag = λ _. aborted

  abbrev pub settle : Outcome Bool → ℕ → Attempt → Result (Api × List Call)
  settle kept tag (completed a cs) = prepend cs (conclude kept tag a)
  settle kept tag (threw a cs) = prepend cs (fail fatal_response a)
  settle kept tag halted = aborted

  abbrev pub deliver : ResponseSentence → Option Callback → Act Api Call
  deliver r none a = fail invalid_response_tag a
  deliver r (some cb) a = settle (keeps cb (response r)) r.tag (invoke fmt md5 cb (response r) a)

  unfoldable pub handle_tagged : ResponseSentence → Act Api Call
  unfolding fail invoke find_callback erase_callback
  handle_tagged r =
      reading
        λ a. if r.tagged then deliver r (find_callback r.tag a.read_cbs) else fail untagged_response

  abbrev pub parsed : Outcome ResponseSentence → Act Api Call
  parsed (returned r) = handle_tagged r
  parsed (thrown x) = fail fatal_response
  parsed stopped = λ _. aborted

  unfoldable pub handle_response : List Bytes → Act Api Call
  unfolding handle_tagged is_open fail
  handle_response s =
      reading (λ a. assert (is_open a))
      >> (if is_valid_response s
          then (if leb (length s) 1 then skip else parsed (response_sentence lex s))
          else fail invalid_response)

  unfoldable pub end_sentence : Act Api Call
  unfolding handle_response read_next_word
  end_sentence =
      reading (λ a. handle_response a.sentence)
      >> modify (λ a. record a { sentence = []; state = idle })
      >> read_next_word

  -- `boost::asio::buffer(context().buffer(), mbytes)` is no longer than the string.
  unfoldable pub by_prefix : Prefix → Act Api Call
  unfolding end_sentence read_next fail
  by_prefix end_of_sentence = end_sentence
  by_prefix (short n) = set_state reading_word >> read_next n
  by_prefix (long high mbytes) =
      reading λ a. emit (async_read_length high mbytes (min (length a.buffer) mbytes))
  by_prefix invalid = fail message_size

  abbrev first_byte : Bytes → ℕ
  first_byte [] = 0
  first_byte (b ∷ bs) = b

  unfoldable pub on_reading_length : Bytes → Act Api Call
  unfolding is_open by_prefix length_prefix
  on_reading_length view =
      reading (λ a. assert (is_open a && is_reading_length a.state))
      >> assert (length view == 1)
      >> by_prefix (length_prefix (first_byte view))

  -- The completion of the read of the further bytes of a length.
  unfoldable pub length_completed : ℕ → ℕ → Option ErrorCode → Bytes → Act Api Call
  unfolding is_open fail read_next join_length
  length_completed high mbytes err received =
      modify (λ a. record a { buffer = received ++ drop (length received) a.buffer })
      >> reading λ a.
        if is_open a
        then elim err [
          | some x ↦ fail x
          | none ↦
              assert (length received == mbytes)
              >> set_state reading_word
              >> read_next (join_length high (take mbytes a.buffer))
        ]
        else skip

  -- In any other state the code throws, and nothing catches it.
  unfoldable pub dispatch_read : ReadState → Bytes → Act Api Call
  unfolding on_reading_length on_reading_word
  dispatch_read reading_length view = on_reading_length view
  dispatch_read reading_word view = on_reading_word view
  dispatch_read _ view = λ _. aborted

  unfoldable pub handle_read : Option ErrorCode → Bytes → Act Api Call
  unfolding dispatch_read fail
  handle_read err view = reading λ a. if is_closed a.state then skip else elim err [
    | some x ↦ fail x
    | none ↦ assert (ltb 0 (length view)) >> dispatch_read a.state view
  ]

  -- The completion of `read_next`'s read.
  unfoldable pub read_completed : Option ErrorCode → Bytes → Act Api Call
  unfolding handle_read is_open
  read_completed err received =
      modify (λ a. record a { buffer = received ++ drop (length received) a.buffer })
      >> reading λ a. if is_open a then handle_read err (take (length received) a.buffer) else skip
