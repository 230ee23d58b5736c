-- ===== src/RouterOs/Api/State.antt =====
-- The state of an API connection, the calls that it makes, and its simple operations.
use tiksrv.Base.{
  ℕ, ◌+◌, ◌%◌, ◌^◌, Bool, true, false, not, ◌&&◌, Option, none, some, List, [], ◌∷◌, ◌++◌, Bytes,
  Act, ◌>>◌, skip, emit, modify, assert, reading, ◌==◌, if◌then◌else◌,
}
use tiksrv.RouterOs.Sentence.{Fmt, RequestSentence, request_sentence}
use tiksrv.RouterOs.Response.{ResponseSentence}
use tiksrv.RouterOs.Password.{login1}

-- boost::system::error_code, when it holds an error: two of Boost.Asio's, those of
-- eztik::error_code, and any other.
pub data ErrorCode : Type 0 where
  message_size not_connected : ErrorCode
  invalid_response fatal_response untagged_response invalid_response_tag : ErrorCode
  invalid_login_credentials : ErrorCode
  failed : ℕ → ErrorCode

pub data ReadState : Type 0 where
  idle reading_length reading_word closed : ReadState

-- What a function given to `send` is called with: an error and an empty response, or a response.
pub data Reply : Type 0 where
  failure : ErrorCode → Reply
  response : ResponseSentence → Reply

-- Functions given to `login` and `open`, and to `send`: the two of `login`, which hold what the
-- lambdas capture, and any other.
abbrev pub Handler : Type 0
Handler = ℕ

pub data Callback : Type 0 where
  login1_reply : Bytes → Bytes → Handler → Callback
  login2_reply : Handler → Callback
  other : ℕ → Callback

-- `sock_open` is `sock_.is_open()`; `buffer` and `sentence` are the read context's.
pub record Api : Type 0 where
  pub sock_open : Bool
  pub state : ReadState
  pub buffer : Bytes
  pub sentence : List Bytes
  pub logged_in : Bool
  pub current_tag : ℕ
  pub read_cbs : List (ℕ × Callback)
  pub send_queue : List (RequestSentence × Callback)

-- `async_read_length` holds the high bits and the byte count that its completion knows, and the size
-- of the buffer that it is given.
pub data Call : Type 0 where
  async_connect : Bytes → ℕ → Handler → Call
  async_read : ℕ → Call
  async_read_length : ℕ → ℕ → ℕ → Call
  async_send : Bytes → RequestSentence → Callback → Call
  on_error : ErrorCode → Call
  reply : ℕ → Reply → Call
  finished : Handler → Option ErrorCode → Call
  post : RequestSentence → Callback → Call

abbrev pub is_idle : ReadState → Bool
is_idle idle = true
is_idle _ = false

abbrev pub is_reading_length : ReadState → Bool
is_reading_length reading_length = true
is_reading_length _ = false

abbrev pub is_reading_word : ReadState → Bool
is_reading_word reading_word = true
is_reading_word _ = false

abbrev pub is_closed : ReadState → Bool
is_closed closed = true
is_closed _ = false

unfoldable pub is_open : Api → Bool
is_open a = a.sock_open && not (is_closed a.state)

abbrev pub set_state : ReadState → Act Api Call
set_state r = modify λ a. record a { state = r }

-- `api::close`: a socket that is not open any more is left alone.
unfoldable pub close : Act Api Call
close =
    reading (λ a. assert (not (is_closed a.state)))
    >> modify (λ a. record a { sock_open = false })
    >> set_state closed

-- `api::on_error`; the call `on_error` is the handler's.
unfoldable pub fail : ErrorCode → Act Api Call
unfolding close is_open
fail err = reading (λ a. if is_open a then close else skip) >> emit (on_error err)

-- `aquire_unique_tag`: the current tag, which then goes up by one in std::uint32_t.
unfoldable pub aquire_unique_tag : Api → ℕ × Api
aquire_unique_tag a = (a.current_tag, record a { current_tag = (a.current_tag + 1) % 2 ^ 32 })

unfoldable pub make_request : Fmt → Bytes → Api → RequestSentence × Api
unfolding aquire_unique_tag
make_request fmt command a =
    let (tag, a') = aquire_unique_tag a in (request_sentence fmt command tag, a')

unfoldable pub send : RequestSentence → Callback → Act Api Call
send req cb = emit (post req cb)

unfoldable pub login : Fmt → Bytes → Bytes → Handler → Act Api Call
unfolding send aquire_unique_tag
login fmt username password cb a =
    let (tag, a') = aquire_unique_tag a in
    send (login1 fmt tag) (login1_reply username password cb) a'

-- `open`, where `bad_address` is what Boost's `from_string` says of the host; connecting opens the
-- socket.
unfoldable pub open_connection : Option ErrorCode → Bytes → ℕ → Handler → Act Api Call
open_connection bad_address host port cb = elim bad_address [
  | some err ↦ emit (finished cb (some err))
  | none ↦ modify (λ a. record a { sock_open = true }) >> emit (async_connect host port cb)
]

unfoldable pub find_callback : ℕ → List (ℕ × Callback) → Option Callback
find_callback tag [] = none
find_callback tag ((t, cb) ∷ cbs) = if t == tag then some cb else find_callback tag cbs

unfoldable pub erase_callback : ℕ → List (ℕ × Callback) → List (ℕ × Callback)
erase_callback tag [] = []
erase_callback tag ((t, cb) ∷ cbs) =
    if t == tag then erase_callback tag cbs else (t, cb) ∷ erase_callback tag cbs

abbrev keep_present :
    Option Callback → List (ℕ × Callback) → List (ℕ × Callback) → List (ℕ × Callback)
keep_present (some cb) present added = present
keep_present none present added = added

-- `emplace` keeps a callback that is there.
unfoldable pub emplace_callback : ℕ → Callback → List (ℕ × Callback) → List (ℕ × Callback)
unfolding find_callback
emplace_callback tag cb cbs = keep_present (find_callback tag cbs) cbs (cbs ++ ((tag, cb) ∷ []))
