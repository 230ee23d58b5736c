-- ===== src/RouterOs/Api/Connection.antt =====
-- An API connection together with what it has under way, and the events that Boost.Asio, the
-- commands and the destructor of `session` (services/include/eztik/services/sessions.hpp) may bring:
-- the life of a connection as a step relation.
pub mod Steps
pub mod Reads
pub mod Verdicts
pub mod FirstByte
pub mod Ends
pub mod Safety
pub mod Closed
use tiksrv.Base.{
  ℕ, ◌≤◌, ◌≡◌, Bool, true, false, Option, none, some, List, [], ◌∷◌, ◌++◌, Bytes, length, drop,
  Result, ok, aborted, Act, reading, skip, if◌then◌else◌,
}
use tiksrv.Base.Outcome.{Outcome, stopped}
use tiksrv.RouterOs.Sentence.{Fmt, RequestSentence}
use tiksrv.RouterOs.Response.{LexicalCast, is_valid_response, response_sentence}
use tiksrv.RouterOs.Password.{Md5}
use tiksrv.RouterOs.Api.State.{
  ErrorCode, ReadState, idle, reading_length, reading_word, closed, Reply, Handler, Callback, Api,
  Call, is_open, close, login, open_connection,
}
use tiksrv.RouterOs.Api.Sending.{send_posted, send_completed}
use tiksrv.RouterOs.Api.Reading.{read_completed, length_completed, connect_completed}
use tiksrv.RouterOs.Api.Replies.{FailsReply}
use tiksrv.RouterOs.Api.Portions.{Pending, whole, further, size, pending_of}

pub data Event : Type 0 where
  opening : Option ErrorCode → Bytes → ℕ → Handler → Event
  connected : Handler → Option ErrorCode → Event
  logging_in : Bytes → Bytes → Handler → Event
  posted : RequestSentence → Callback → Event
  send_done : RequestSentence → Callback → Option ErrorCode → Event
  read_done : Pending → Option ErrorCode → Bytes → Event
  session_gone : Event

-- Before `open`, while it connects, and after that.
pub data Phase : Type 0 where
  fresh connecting running : Phase

-- `pending` holds the reads under way.
pub record Connection : Type 0 where
  pub api : Api
  pub phase : Phase
  pub pending : List Pending

abbrev pub phase_after : Event → Phase → Phase
phase_after (opening none host port cb) p = connecting
phase_after (opening (some err) host port cb) p = running
phase_after (connected cb err) p = running
phase_after _ p = p

abbrev pub pending_after : Event → List Pending → List Pending
pending_after (read_done p err bytes) ps = drop 1 ps
pending_after _ ps = ps

-- A connection is opened once. A read ends with as many bytes as it asked for, or with an error and
-- at most as many. Sends end, requests are posted and logins start at any time. A session may go
-- at any time.
pub data Allowed (k : Connection) : Event → Type 0 where
  may_open :
      (bad_address : Option ErrorCode) (host : Bytes) (port : ℕ) (cb : Handler)
      → k.phase ≡ fresh
      → Allowed k (opening bad_address host port cb)
  may_connect :
      (cb : Handler) (err : Option ErrorCode) → k.phase ≡ connecting → Allowed k (connected cb err)
  may_log_in : (name password : Bytes) (cb : Handler) → Allowed k (logging_in name password cb)
  may_post : (req : RequestSentence) (cb : Callback) → Allowed k (posted req cb)
  may_send :
      (req : RequestSentence) (cb : Callback) (err : Option ErrorCode)
      → Allowed k (send_done req cb err)
  may_read :
      (p : Pending) (ps : List Pending) (bytes : Bytes)
      → k.pending ≡ p ∷ ps
      → length bytes ≡ size p
      → Allowed k (read_done p none bytes)
  may_break :
      (p : Pending) (ps : List Pending) (bytes : Bytes) (x : ErrorCode)
      → k.pending ≡ p ∷ ps
      → length bytes ≤ size p
      → Allowed k (read_done p (some x) bytes)
  may_go : Allowed k session_gone

-- The read under way while a length is awaited: of its first byte, or of its further bytes, for which
-- the buffer has room for one only.
abbrev pub AwaitsLength : List Pending → Type 0
AwaitsLength (whole n ∷ []) = n ≡ 1
AwaitsLength (further high mbytes room ∷ []) = (room ≡ 1) × (1 ≤ mbytes)
AwaitsLength _ = ⊥

-- What each state of the reader knows once the connection is no longer being opened. It is idle only
-- with its socket closed: after a sentence that has led to an error.
abbrev pub Expects : ReadState → Api → List Pending → Type 0
Expects idle a ps = (a.sock_open ≡ false) × (ps ≡ [])
Expects reading_length a ps = (a.sock_open ≡ true) × (length a.buffer ≡ 1) × AwaitsLength ps
Expects reading_word a ps = (a.sock_open ≡ true) × (ps ≡ whole (length a.buffer) ∷ [])
Expects closed a ps = length ps ≤ 1

abbrev pub InPhase : Phase → Api → List Pending → Type 0
InPhase fresh a ps = (a.state ≡ closed) × (a.sock_open ≡ false) × (ps ≡ [])
InPhase connecting a ps = (a.state ≡ closed) × (a.sock_open ≡ true) × (ps ≡ [])
InPhase running a ps = Expects a.state a ps

pub record IsSound (k : Connection) : Type 0 where
  pub nothing_queued : k.api.send_queue ≡ []
  pub expected : InPhase k.phase k.api k.pending

-- `api::create`.
abbrev pub created : Connection
created = record {
  api = record {
    sock_open = false;
    state = closed;
    buffer = [];
    sentence = [];
    logged_in = false;
    current_tag = 0;
    read_cbs = [];
    send_queue = [];
  };
  phase = fresh;
  pending = [];
}

-- The destructor of `session`, and that of `api`.
unfoldable pub destroy : Act Api Call
unfolding close is_open
destroy = reading λ a. if is_open a then close else skip

module _ (fmt : Fmt) (md5 : Md5) (lex : LexicalCast) (keep : ℕ → Reply → Outcome Bool) where
  abbrev pub complete : Pending → Option ErrorCode → Bytes → Act Api Call
  complete (whole n) = read_completed fmt md5 lex keep
  complete (further high mbytes room) = length_completed fmt md5 lex keep high mbytes

  abbrev pub handle : Event → Act Api Call
  handle (opening bad_address host port cb) = open_connection bad_address host port cb
  handle (connected cb err) = connect_completed cb err
  handle (logging_in name password cb) = login fmt name password cb
  handle (posted req cb) = send_posted fmt md5 req cb
  handle (send_done req cb err) = send_completed fmt md5 req cb err
  handle (read_done p err bytes) = complete p err bytes
  handle session_gone = destroy

  abbrev pub settle : Event → Connection → Result (Api × List Call) → Result Connection
  settle ev k (ok (a, cs)) = ok (record {
    api = a;
    phase = phase_after ev k.phase;
    pending = pending_after ev k.pending ++ pending_of cs;
  })
  settle ev k aborted = aborted

  unfoldable pub advance : Event → Connection → Result Connection
  advance ev k = settle ev k (handle ev k.api)

  -- What a history of allowed events leads to.
  pub data Reaches (k : Connection) : Connection → Type 0 where
    here : Reaches k k
    next :
        {l m : Connection} (ev : Event)
        → Reaches k l
        → Allowed l ev
        → advance ev l ≡ ok m
        → Reaches k m

-- The events on an open connection that end the program: the end of a sentence that has a second tag,
-- and of one for a waiting function that fails an assertion on it, the second byte of a length of three bytes or more, and the end of an empty word, which only a
-- length of two bytes can announce.
pub data Fails (lex : LexicalCast) (keep : ℕ → Reply → Outcome Bool) (k : Connection)
    : Event → Type 0 where
  second_tag :
      (n : ℕ) (bytes : Bytes)
      → is_open k.api ≡ true
      → k.api.state ≡ reading_length
      → bytes ≡ 0 ∷ []
      → is_valid_response k.api.sentence ≡ true
      → 2 ≤ length k.api.sentence
      → response_sentence lex k.api.sentence ≡ stopped
      → Fails lex keep k (read_done (whole n) none bytes)
  failing_reply :
      (n : ℕ) (bytes : Bytes)
      → is_open k.api ≡ true
      → k.api.state ≡ reading_length
      → bytes ≡ 0 ∷ []
      → FailsReply lex keep k.api.sentence k.api.read_cbs
      → Fails lex keep k (read_done (whole n) none bytes)
  wide_length :
      (high mbytes room : ℕ) (bytes : Bytes)
      → is_open k.api ≡ true
      → 2 ≤ mbytes
      → Fails lex keep k (read_done (further high mbytes room) none bytes)
  empty_word :
      (n : ℕ) (bytes : Bytes)
      → is_open k.api ≡ true
      → k.api.state ≡ reading_word
      → bytes ≡ []
      → Fails lex keep k (read_done (whole n) none bytes)
