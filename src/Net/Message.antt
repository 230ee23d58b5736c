-- ===== src/Net/Message.antt =====
-- src/net/include/net/message.hpp and src/net/src/message.cpp: headers and responses.
pub mod RoundTrip
use tiksrv.Base.{
  ℕ, ◌+◌, ◌*◌, ◌/◌, ◌%◌, ◌^◌, ◌<◌, ◌≡◌, [], ◌∷◌, ◌++◌, Bytes, length, take, drop, Result, ok,
  aborted, ltb, if◌then◌else◌,
}

-- A 32-bit integer as its four bytes, the most significant first.
abbrev pub big_endian : ℕ → Bytes
big_endian v = (v / 2 ^ 24 % 256) ∷ (v / 2 ^ 16 % 256) ∷ (v / 2 ^ 8 % 256) ∷ (v % 256) ∷ []

-- The machine's own byte order and Boost.Endian, which turns a value to and from big-endian order
-- in place: `load` and `store` are std::memcpy from and to a std::uint32_t.
pub record Endian : Type 0 where
  pub load : Bytes → ℕ
  pub store : ℕ → Bytes
  pub big_to_native : ℕ → ℕ
  pub native_to_big : ℕ → ℕ
  pub big_to_native-load :
      (a b c d : ℕ)
      → a < 256
      → b < 256
      → c < 256
      → d < 256
      → big_to_native (load (a ∷ b ∷ c ∷ d ∷ [])) ≡ a * 2 ^ 24 + b * 2 ^ 16 + c * 2 ^ 8 + d
  pub store-native_to_big : (v : ℕ) → v < 2 ^ 32 → store (native_to_big v) ≡ big_endian v

pub record RequestHeader : Type 0 where
  pub command : ℕ
  pub flags : ℕ
  pub tag : ℕ
  pub body_size : ℕ

pub record ResponseHeader : Type 0 where
  pub code : ℕ
  pub flags : ℕ
  pub tag : ℕ
  pub body_size : ℕ

-- `request_header::size` and `response_header::size`.
abbrev pub header_size : ℕ
header_size = 16

pub record Request : Type 0 where
  pub header : RequestHeader
  pub body : Bytes

pub record Response : Type 0 where
  pub header : ResponseHeader
  pub header_buffer : Bytes
  pub body : Bytes

pub data ResponseCode : Type 0 where
  success unknown_command invalid_request empty_request operation_pending unknown_error :
      ResponseCode

-- `static_cast<std::uint32_t>` of a `response_code`.
unfoldable pub response_code : ResponseCode → ℕ
response_code success = 0
response_code unknown_command = 1
response_code invalid_request = 2
response_code empty_request = 3
response_code operation_pending = 4
response_code unknown_error = 5

-- `request_header::decode`: four integers, each 4 bytes further on. `aborted` is the failed assertion.
module _ (e : Endian) where
  unfoldable pub extract_integer : Bytes → ℕ
  extract_integer buf = e.big_to_native (e.load (take 4 buf))

  unfoldable pub decode : Bytes → Result RequestHeader
  unfolding extract_integer
  decode buf =
      if ltb (length buf) header_size
      then aborted
      else ok (record {
        command = extract_integer buf;
        flags = extract_integer (drop 4 buf);
        tag = extract_integer (drop 8 buf);
        body_size = extract_integer (drop 12 buf);
      })

  unfoldable pub append_integer : ℕ → Bytes
  append_integer value = e.store (e.native_to_big value)

  -- `response_header::encode`, which fills the 16 bytes of its array.
  unfoldable pub encode : ResponseHeader → Bytes
  unfolding append_integer
  encode h =
      append_integer h.code
      ++ (append_integer h.flags ++ (append_integer h.tag ++ append_integer h.body_size))

  unfoldable pub update_header_buffer : Response → Response
  unfolding encode
  update_header_buffer r = record r { header_buffer = encode r.header }

-- A new `response`: the source leaves its header and buffer unset until they are written.
abbrev pub new_response : Response
new_response = record {
  header = record { code = 0; flags = 0; tag = 0; body_size = 0 };
  header_buffer = [];
  body = [];
}

-- `response::body(value)`: the size goes into a std::uint32_t.
unfoldable pub set_body : Bytes → Response → Response
set_body value r = record r {
  body = value;
  header = record r.header { body_size = length value % 2 ^ 32 };
}

unfoldable pub set_code : ℕ → Response → Response
set_code value r = record r { header = record r.header { code = value } }

unfoldable pub set_flags : ℕ → Response → Response
set_flags value r = record r { header = record r.header { flags = value } }

unfoldable pub set_tag : ℕ → Response → Response
set_tag value r = record r { header = record r.header { tag = value } }
