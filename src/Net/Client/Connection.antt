-- ===== src/Net/Client/Connection.antt =====
-- A client together with what it has under way, and the events that Boost.Asio and the server may
-- bring: the life of a connection as a step relation.
pub mod Steps
pub mod Safety
use tiksrv.Base.{
  ◌^◌, ℕ, ◌+◌, ◌≤◌, ◌<◌, ◌≡◌, refl, ap, ◌∙◌, Bool, true, false, not, Option, none, some, List, [],
  ◌∷◌, ◌++◌, Bytes, length, drop, resize, Result, ok, aborted, Act, Returns, Returns-eq_ok,
  Returns-exists, arith, ltb, drop-all, take-all, append-nil, length-resize, Bool-cases, inl, inr,
}
use tiksrv.Net.Message.{
  update_header_buffer, set_body, set_code, set_tag, set_flags, new_response, Endian, RequestHeader,
  Response, header_size, decode,
}
use tiksrv.Net.Message.RoundTrip.{decode_total, update_header_buffer-set_body}
use tiksrv.Net.Client.{
  build_response, async_send, Client, Call, async_read, ReadState, idle, reading_header,
  reading_body, closed, ErrorCode, SendHandler, is_closed, max_allowed_body_size, is_open, start,
  read_completed, send_completed, respond_posted, handle_read,
}
use tiksrv.Net.Client.Sending.{posted_open, posted_shut, sent_open, sent_failed, sent_shut}
use tiksrv.Net.Client.Framing.{
  received_whole, read_shut, read_failed, on_header, on_empty_header, on_large_header, on_body,
}

pub data Event : Type 0 where
  started : Event
  read_done : Option ErrorCode → Bytes → Event
  send_done : SendHandler → Option ErrorCode → Event
  posted : Response → SendHandler → Event

-- `reads` holds the sizes of the reads under way.
pub record Connection : Type 0 where
  pub client : Client
  pub reads : List ℕ

abbrev pub reads_of : List Call → List ℕ
reads_of [] = []
reads_of (async_read n ∷ cs) = n ∷ reads_of cs
reads_of (_ ∷ cs) = reads_of cs

abbrev pub after_event : Event → List ℕ → List ℕ
after_event (read_done err bytes) reads = drop 1 reads
after_event _ reads = reads

-- The server starts a client once, before anything else. A read ends with as many bytes as it asked
-- for, or with an error and at most as many. Sends end, and responses are posted, at any time.
pub data Allowed (k : Connection) : Event → Type 0 where
  may_start : k.client.state ≡ idle → Allowed k started
  may_read :
      (n : ℕ) (ns : List ℕ) (bytes : Bytes)
      → k.reads ≡ n ∷ ns
      → length bytes ≡ n
      → Allowed k (read_done none bytes)
  may_break :
      (n : ℕ) (ns : List ℕ) (bytes : Bytes) (x : ErrorCode)
      → k.reads ≡ n ∷ ns
      → length bytes ≤ n
      → Allowed k (read_done (some x) bytes)
  may_send : (cb : SendHandler) (err : Option ErrorCode) → Allowed k (send_done cb err)
  may_post : (r : Response) (cb : SendHandler) → Allowed k (posted r cb)

-- What each state of the reader knows of the reads under way and of the buffer.
abbrev pub Expects : ReadState → List ℕ → ℕ → ℕ → Type 0
Expects idle reads size room = reads ≡ []
Expects reading_header reads size room = (reads ≡ header_size ∷ []) × (room ≡ header_size)
Expects reading_body reads size room =
    (reads ≡ size ∷ []) × (room ≡ size) × (0 < size) × (size ≤ max_allowed_body_size)
Expects closed reads size room = length reads ≤ 1

pub record IsSound (k : Connection) : Type 0 where
  pub socket : k.client.sock_open ≡ not (is_closed k.client.state)
  pub nothing_queued : k.client.send_queue ≡ []
  pub expected : Expects k.client.state k.reads k.client.header.body_size (length k.client.buffer)

-- A client that the listener has just accepted.
pub record IsAccepted (c : Client) : Type 0 where
  pub socket_open : c.sock_open ≡ true
  pub not_started : c.state ≡ idle
  pub nothing_queued : c.send_queue ≡ []

abbrev pub accepted : Client → Connection
accepted c = record { client = c; reads = [] }

module _ (e : Endian) where
  abbrev pub handle : Event → Act Client Call
  handle started = start
  handle (read_done err bytes) = read_completed e err bytes
  handle (send_done cb err) = send_completed e cb err
  handle (posted r cb) = respond_posted e r cb

  abbrev pub settle : Event → List ℕ → Result (Client × List Call) → Result Connection
  settle ev reads (ok (c, cs)) =
      ok (record { client = c; reads = after_event ev reads ++ reads_of cs })
  settle ev reads aborted = aborted

  unfoldable pub advance : Event → Connection → Result Connection
  advance ev k = settle ev k.reads (handle ev k.client)

  -- What a history of allowed events leads to.
  pub data Reaches (k : Connection) : Connection → Type 0 where
    here : Reaches k k
    next :
        {l m : Connection} (ev : Event)
        → Reaches k l
        → Allowed l ev
        → advance ev l ≡ ok m
        → Reaches k m
