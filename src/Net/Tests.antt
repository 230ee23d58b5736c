-- ===== src/Net/Tests.antt =====
-- Runs of the protocol at concrete inputs, on a machine that keeps the least significant byte first.
use tiksrv.Base.{
  ℕ, ◌+◌, ◌*◌, ◌/◌, ◌%◌, ◌^◌, ◌<◌, ◌≡◌, refl, true, [], ◌∷◌, ◌++◌, Bytes, codes, length, ok, arith,
}
use tiksrv.Base.Stream.{feed}
use tiksrv.Net.Message.{Endian, ResponseHeader, Request, header_size, encode, decode}
use tiksrv.Net.Message.RoundTrip.{decode-encode, as_request_header}
use tiksrv.Net.Client.{
  Client, async_send, idle, reading_header, build_response, respond_posted, start, is_open,
}
use tiksrv.Net.Client.Requests.{
  stream, calls_for_all, last_client, rounds, portion_size, deliver_portion, wanted, feed-stream,
}
use tiksrv.Net.Client.Connection.{
  started, posted, Connection, accepted, may_start, may_post, advance, Reaches, here, next, IsSound,
}
use tiksrv.Net.Client.Connection.Safety.{advance-safe, respond_posted-wire}

abbrev pub load : Bytes → ℕ
load (a ∷ b ∷ c ∷ d ∷ s) = a + b * 2 ^ 8 + c * 2 ^ 16 + d * 2 ^ 24
load s = 0

abbrev pub swap : ℕ → ℕ
swap v = v % 256 * 2 ^ 24 + v / 2 ^ 8 % 256 * 2 ^ 16 + v / 2 ^ 16 % 256 * 2 ^ 8 + v / 2 ^ 24 % 256

abbrev pub store : ℕ → Bytes
store v = (v % 256) ∷ (v / 2 ^ 8 % 256) ∷ (v / 2 ^ 16 % 256) ∷ (v / 2 ^ 24 % 256) ∷ []

pub swap-load :
    (a b c d : ℕ)
    → a < 256
    → b < 256
    → c < 256
    → d < 256
    → swap (a + b * 2 ^ 8 + c * 2 ^ 16 + d * 2 ^ 24) ≡ a * 2 ^ 24 + b * 2 ^ 16 + c * 2 ^ 8 + d
swap-load a b c d ha hb hc hd =
    let s : ℕ = a + b * 2 ^ 8 + c * 2 ^ 16 + d * 2 ^ 24 in
    let sa : s % 256 ≡ a = omega arith in
    let sb : s / 2 ^ 8 % 256 ≡ b = omega arith in
    let sc : s / 2 ^ 16 % 256 ≡ c = omega arith in
    let sd : s / 2 ^ 24 % 256 ≡ d = omega arith in rw (sa, sb, sc, sd)

pub store-swap :
    (v : ℕ)
    → v < 2 ^ 32
    → store (swap v) ≡ (v / 2 ^ 24 % 256) ∷ (v / 2 ^ 16 % 256) ∷ (v / 2 ^ 8 % 256) ∷ (v % 256) ∷ []
store-swap v h =
    let lowest : swap v % 256 ≡ v / 2 ^ 24 % 256 = omega arith in
    let low : swap v / 2 ^ 8 % 256 ≡ v / 2 ^ 16 % 256 = omega arith in
    let high : swap v / 2 ^ 16 % 256 ≡ v / 2 ^ 8 % 256 = omega arith in
    let highest : swap v / 2 ^ 24 % 256 ≡ v % 256 = omega arith in rw (lowest, low, high, highest)

abbrev pub little_endian : Endian
little_endian = record {
  load = load;
  store = store;
  big_to_native = swap;
  native_to_big = swap;
  big_to_native-load = swap-load;
  store-native_to_big = store-swap;
}

abbrev header : ResponseHeader
header = record { code = 1; flags = 0; tag = 7; body_size = 0x1234 }

decode-encode_example :
    (length (encode little_endian header) ≡ header_size)
    × (decode little_endian (encode little_endian header ++ (9 ∷ []))
        ≡ ok (as_request_header header))
decode-encode_example = decode-encode little_endian header (9 ∷ []) (record {
  command_fits = omega arith;
  flags_fits = omega arith;
  tag_fits = omega arith;
  body_size_fits = omega arith;
})

abbrev ping : Request
ping = record {
  header = record { command = 0x10001; flags = 0; tag = 5; body_size = 4 };
  body = codes "ping";
}

abbrev nothing : Request
nothing = record {
  header = record { command = 0x10001; flags = 0; tag = 6; body_size = 0 };
  body = [];
}

abbrev pub fresh : Client
fresh = record {
  id = 3;
  sock_open = true;
  state = idle;
  header = record { command = 0; flags = 0; tag = 0; body_size = 0 };
  buffer = [];
  send_queue = [];
}

abbrev pub waiting : Client
waiting = record fresh { state = reading_header; buffer = codes "0123456789abcdef" }

feed-stream_example :
    feed portion_size
      (deliver_portion little_endian)
      wanted
      (rounds (ping ∷ nothing ∷ []) 0)
      header_size
      (stream (ping ∷ nothing ∷ []))
      waiting
    ≡ ok (last_client waiting (ping ∷ nothing ∷ []), calls_for_all (ping ∷ nothing ∷ []))
feed-stream_example =
    feed-stream little_endian waiting (ping ∷ nothing ∷ []) 0
      (record { socket_open = refl; expects_header = refl; room = refl })
      (
        record {
          header_fits = record {
            command_fits = omega arith;
            flags_fits = omega arith;
            tag_fits = omega arith;
            body_size_fits = omega arith;
          };
          announced = refl;
          allowed = omega arith;
        },
        (
          record {
            header_fits = record {
              command_fits = omega arith;
              flags_fits = omega arith;
              tag_fits = omega arith;
              body_size_fits = omega arith;
            };
            announced = refl;
            allowed = omega arith;
          },
          tt,
        ),
      )

abbrev running : Connection
running = record {
  client = record fresh {
    state = reading_header;
    buffer = 0 ∷ 0 ∷ 0 ∷ 0 ∷ 0 ∷ 0 ∷ 0 ∷ 0 ∷ 0 ∷ 0 ∷ 0 ∷ 0 ∷ 0 ∷ 0 ∷ 0 ∷ 0 ∷ [];
  };
  reads = 16 ∷ [];
}

started-running : Reaches little_endian (accepted fresh) running
unfolding advance start
started-running = next started here (may_start refl) refl

running-is_open : is_open running.client ≡ true
unfolding is_open
running-is_open = refl

advance-safe_example :
    (m : Connection) × (advance little_endian (posted (build_response (codes "pong") 0 5) 9) running
      ≡ ok m)
    × IsSound m
advance-safe_example =
    advance-safe little_endian fresh (posted (build_response (codes "pong") 0 5) 9)
      (record { socket_open = refl; not_started = refl; nothing_queued = refl }) started-running
      (may_post _ _)

respond_posted-wire_example :
    (head : Bytes) × (respond_posted little_endian
        (build_response (codes "pong") 0 5)
        9
        running.client
      ≡ ok (running.client, async_send head (codes "pong") 9 ∷ []))
    × (decode little_endian head
        ≡ ok (record { command = 0; flags = 0; tag = 5; body_size = length (codes "pong") }))
respond_posted-wire_example =
    respond_posted-wire little_endian fresh (codes "pong") 0 5 9
      (record { socket_open = refl; not_started = refl; nothing_queued = refl }) started-running
      running-is_open (omega arith) (omega arith) (omega arith)
