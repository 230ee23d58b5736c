-- ===== src/Net/Client.antt =====
-- src/net/include/net/tcp_client.hpp, src/net/src/tcp_client.cpp and the read state machine below
-- it (src/net/include/net/read_state_machine.hpp, src/net/src/read_state_machine.cpp).
-- Boost.Asio completes the reads and sends that an operation starts; a completion is a call of
-- `read_completed` or `send_completed`. A moved-from string is empty here: the next `read_next`
-- resizes it, and nothing reads it before the read has filled it.
pub mod Connection
pub mod Framing
pub mod Requests
pub mod Sending
use tiksrv.Base.{
  ℕ, ◌+◌, ◌≡◌, Bool, true, false, not, ◌&&◌, Option, none, some, List, [], ◌∷◌, ◌++◌, Bytes, length,
  take, drop, resize, Result, ok, aborted, Act, ◌>>◌, skip, emit, modify, assert, reading, ltb,
  ◌==◌, if◌then◌else◌,
}
use tiksrv.Net.Message.{
  Endian, RequestHeader, Request, Response, ResponseCode, response_code, header_size, decode,
  update_header_buffer, new_response, set_body, set_code, set_flags, set_tag,
}

-- boost::system::error_code, when it holds an error. `failed` is any other error of a socket.
pub data ErrorCode : Type 0 where
  eof message_size not_connected : ErrorCode
  failed : ℕ → ErrorCode

pub data ReadState : Type 0 where
  idle reading_header reading_body closed : ReadState

-- A function given to `respond`, by its number.
abbrev pub SendHandler : Type 0
SendHandler = ℕ

-- `sock_open` is `sock_.is_open()`; `header` and `buffer` are the read context's.
pub record Client : Type 0 where
  pub id : ℕ
  pub sock_open : Bool
  pub state : ReadState
  pub header : RequestHeader
  pub buffer : Bytes
  pub send_queue : List (Response × SendHandler)

-- The calls that a client makes: on its socket, on its handler (the server), on the function that
-- came with a response, and on the I/O context.
pub data Call : Type 0 where
  async_read : ℕ → Call
  async_send : Bytes → Bytes → SendHandler → Call
  on_request : Request → Call
  on_error : ErrorCode → Call
  handler : SendHandler → Option ErrorCode → Call
  post : Response → SendHandler → Call

abbrev pub is_idle : ReadState → Bool
is_idle idle = true
is_idle _ = false

abbrev pub is_reading_header : ReadState → Bool
is_reading_header reading_header = true
is_reading_header _ = false

abbrev pub is_reading_body : ReadState → Bool
is_reading_body reading_body = true
is_reading_body _ = false

abbrev pub is_closed : ReadState → Bool
is_closed closed = true
is_closed _ = false

abbrev pub is_empty {ℓ} : {A : Type ℓ} → List A → Bool
is_empty [] = true
is_empty _ = false

unfoldable pub is_open : Client → Bool
is_open c = c.sock_open && not (is_closed c.state)

abbrev set_state : ReadState → Act Client Call
set_state r = modify λ c. record c { state = r }

abbrev set_buffer : Bytes → Act Client Call
set_buffer b = modify λ c. record c { buffer = b }

abbrev pub max_allowed_body_size : ℕ
max_allowed_body_size = 0x4000

unfoldable pub read_next : ℕ → Act Client Call
unfolding is_open
read_next n =
    reading
      λ c. if is_open c then (set_buffer (resize n 0 c.buffer) >> emit (async_read n)) else skip

unfoldable pub start : Act Client Call
unfolding read_next
start = reading (λ c. assert (is_idle c.state)) >> set_state reading_header >> read_next header_size

unfoldable pub close : Act Client Call
close =
    reading (λ c. assert (not (is_closed c.state)))
    >> modify (λ c. record c { sock_open = false })
    >> set_state closed

-- `tcp_client::on_error`; the call `on_error` is the handler's.
unfoldable pub fail : ErrorCode → Act Client Call
unfolding close
fail err = emit (on_error err) >> close

-- `handler_.on_request` gets the header and the buffer, which is moved out.
unfoldable pub deliver_request : Act Client Call
deliver_request =
    reading (λ c. emit (on_request (record { header = c.header; body = c.buffer })))
    >> set_buffer []

module _ (e : Endian) where
  unfoldable pub decode_header : Bytes → Act Client Call
  unfolding decode
  decode_header view c = elim (decode e view) [
    | ok h ↦ ok (record c { header = h }, [])
    | aborted ↦ aborted
  ]

  unfoldable pub on_reading_header : Bytes → Act Client Call
  unfolding decode_header fail read_next deliver_request
  on_reading_header view =
      reading (λ c. assert (is_reading_header c.state))
      >> assert (length view == header_size)
      >> decode_header view
      >> reading λ c.
        if ltb max_allowed_body_size c.header.body_size
        then fail message_size
        else if ltb 0 c.header.body_size
        then (set_state reading_body >> read_next c.header.body_size)
        else (deliver_request >> read_next header_size)

  unfoldable pub on_reading_body : Act Client Call
  unfolding read_next deliver_request
  on_reading_body =
      reading (λ c. assert (is_reading_body c.state))
      >> deliver_request
      >> set_state reading_header
      >> read_next header_size

  -- The `switch` of `handle_read`.
  unfoldable pub dispatch_read : ReadState → Bytes → Act Client Call
  unfolding on_reading_header on_reading_body
  dispatch_read reading_header view = on_reading_header view
  dispatch_read reading_body view = on_reading_body
  dispatch_read _ view = skip

  unfoldable pub handle_good_read : Bytes → Act Client Call
  unfolding dispatch_read fail
  handle_good_read view =
      reading λ c. if length view == 0 then fail eof else dispatch_read c.state view

  unfoldable pub handle_read : Option ErrorCode → Bytes → Act Client Call
  unfolding handle_good_read
  handle_read err view = reading λ c.
      if is_closed c.state
      then skip
      else elim err [ some x ↦ fail x | none ↦ handle_good_read view ]

  -- The completion of `read_next`'s read: `received` is what the read has put into the buffer.
  unfoldable pub read_completed : Option ErrorCode → Bytes → Act Client Call
  unfolding handle_read is_open
  read_completed err received =
      modify (λ c. record c { buffer = received ++ drop (length received) c.buffer })
      >> reading λ c. if is_open c then handle_read err (take (length received) c.buffer) else skip

  -- The front of the queue; on an empty one the assertion fails.
  unfoldable pub send_front : List (Response × SendHandler) → Act Client Call
  unfolding is_open update_header_buffer
  send_front [] = λ _. aborted
  send_front ((resp, cb) ∷ rest) =
      modify (λ c. record c { send_queue = rest })
      >> reading λ c.
        if is_open c
        then emit (async_send (update_header_buffer e resp).header_buffer resp.body cb)
        else emit (handler cb (some not_connected))

  unfoldable pub send_next : Act Client Call
  unfolding send_front
  send_next = reading λ c. send_front c.send_queue

  -- The completion of `send_next`'s send.
  unfoldable pub send_completed : SendHandler → Option ErrorCode → Act Client Call
  unfolding send_next is_open fail
  send_completed cb err = reading λ c.
      if is_open c
      then (emit (handler cb err) >> elim err [
        | some x ↦ fail x
        | none ↦ reading λ d. if is_empty d.send_queue then skip else send_next
      ])
      else emit (handler cb (some not_connected))

  -- What `respond` has posted.
  unfoldable pub respond_posted : Response → SendHandler → Act Client Call
  unfolding send_next
  respond_posted resp cb =
      modify (λ c. record c { send_queue = c.send_queue ++ ((resp, cb) ∷ []) }) >> send_next

unfoldable pub respond : Response → SendHandler → Act Client Call
respond resp cb = emit (post resp cb)

-- The overloads of `respond`.
unfoldable pub build_response : Bytes → ℕ → ℕ → Response
unfolding set_code set_flags set_tag set_body
build_response str code tag = set_body str (set_tag tag (set_flags 0 (set_code code new_response)))

unfoldable pub respond_body : Bytes → ℕ → ℕ → SendHandler → Act Client Call
unfolding build_response respond
respond_body str code tag cb = respond (build_response str code tag) cb

unfoldable pub respond_success : Bytes → ℕ → SendHandler → Act Client Call
unfolding respond_body
respond_success str tag cb = respond_body str 0 tag cb

unfoldable pub respond_number : ℕ → ℕ → SendHandler → Act Client Call
unfolding respond_body
respond_number code tag cb = respond_body [] code tag cb

unfoldable pub respond_code : ResponseCode → ℕ → SendHandler → Act Client Call
unfolding respond_number response_code
respond_code code tag cb = respond_number (response_code code) tag cb
