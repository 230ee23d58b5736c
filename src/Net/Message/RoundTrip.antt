-- ===== src/Net/Message/RoundTrip.antt =====
-- Headers on the wire: what is written is read back, and the other way round.
use native.Mathlib.Nat.{mod-eq_of_lt}
use tiksrv.Base.{
  ℕ, ◌/◌, ◌%◌, ◌^◌, ◌<◌, ◌≡◌, refl, [], ◌++◌, Bytes, length, drop, ok, arith, append-nil, ltb-false,
}
use tiksrv.Net.Message.{
  Endian, big_endian, RequestHeader, ResponseHeader, Response, header_size, extract_integer, decode,
  append_integer, encode, update_header_buffer, set_body,
}

abbrev pub IsByte : ℕ → Type 0
IsByte b = b < 256

abbrev pub IsU32 : ℕ → Type 0
IsU32 v = v < 2 ^ 32

-- The fields of a header are std::uint32_t.
pub record IsHeader (h : RequestHeader) : Type 0 where
  pub command_fits : IsU32 h.command
  pub flags_fits : IsU32 h.flags
  pub tag_fits : IsU32 h.tag
  pub body_size_fits : IsU32 h.body_size

-- The protocol's header: four integers in network byte order.
abbrev pub header_bytes : RequestHeader → Bytes
header_bytes h =
    big_endian h.command ++ (big_endian h.flags ++ (big_endian h.tag ++ big_endian h.body_size))

-- The two kinds of header have one layout.
abbrev pub as_request_header : ResponseHeader → RequestHeader
as_request_header h = record {
  command = h.code;
  flags = h.flags;
  tag = h.tag;
  body_size = h.body_size;
}

abbrev pub as_response_header : RequestHeader → ResponseHeader
as_response_header h = record {
  code = h.command;
  flags = h.flags;
  tag = h.tag;
  body_size = h.body_size;
}

module _ (e : Endian) where
  extract_integer-big_endian :
      (v : ℕ) (rest : Bytes) → IsU32 v → extract_integer e (big_endian v ++ rest) ≡ v
  unfolding extract_integer
  extract_integer-big_endian v rest h = omega (
    arith,
    e.big_to_native-load (v / 2 ^ 24 % 256) (v / 2 ^ 16 % 256) (v / 2 ^ 8 % 256) (v % 256)
        (omega arith) (omega arith) (omega arith) (omega arith),
  )

  -- A header in front of any bytes is decoded to its fields.
  pub decode-header_bytes :
      (h : RequestHeader) (rest : Bytes) → IsHeader h → decode e (header_bytes h ++ rest) ≡ ok h
  unfolding decode
  decode-header_bytes h rest v = rw (
    ltb-false (length (header_bytes h ++ rest)) header_size (omega arith),
    extract_integer-big_endian h.command _ v.command_fits,
    extract_integer-big_endian h.flags _ v.flags_fits,
    extract_integer-big_endian h.tag _ v.tag_fits,
    extract_integer-big_endian h.body_size rest v.body_size_fits,
  )

  encode-header_bytes :
      (h : ResponseHeader)
      → IsHeader (as_request_header h)
      → encode e h ≡ header_bytes (as_request_header h)
  unfolding encode append_integer
  encode-header_bytes h v = rw (
    e.store-native_to_big h.code v.command_fits,
    e.store-native_to_big h.flags v.flags_fits,
    e.store-native_to_big h.tag v.tag_fits,
    e.store-native_to_big h.body_size v.body_size_fits,
  )

  -- A response header that `encode` writes takes 16 bytes, and `decode` reads its four fields back,
  -- whatever bytes follow and whatever the byte order of the machine.
  pub decode-encode :
      (h : ResponseHeader) (rest : Bytes)
      → IsHeader (as_request_header h)
      → (length (encode e h) ≡ header_size)
        × (decode e (encode e h ++ rest) ≡ ok (as_request_header h))
  decode-encode h rest v =
      rw (encode-header_bytes h v) (refl, decode-header_bytes (as_request_header h) rest v)

  -- The size that a response announces is the length of its body, as long as that is below 2 ^ 32.
  pub update_header_buffer-set_body :
      (r : Response) (body : Bytes)
      → IsU32 r.header.code
      → IsU32 r.header.flags
      → IsU32 r.header.tag
      → length body < 2 ^ 32
      → decode e (update_header_buffer e (set_body body r)).header_buffer
        ≡ ok (record {
          command = r.header.code;
          flags = r.header.flags;
          tag = r.header.tag;
          body_size = length body;
        })
  unfolding update_header_buffer set_body
  update_header_buffer-set_body r body hc hf ht hb = rw (mod-eq_of_lt hb) (
      rw (append-nil) at (
        (decode-encode (record r.header { body_size = length body }) []
          (record { command_fits = hc; flags_fits = hf; tag_fits = ht; body_size_fits = hb })).1))

  -- Sixteen bytes always decode.
  pub decode_total :
      (buf : Bytes) → length buf ≡ header_size → (h : RequestHeader) × (decode e buf ≡ ok h)
  unfolding decode
  decode_total buf n = (
    record {
      command = extract_integer e buf;
      flags = extract_integer e (drop 4 buf);
      tag = extract_integer e (drop 8 buf);
      body_size = extract_integer e (drop 12 buf);
    },
    rw (ltb-false (length buf) header_size (omega arith)),
  )
