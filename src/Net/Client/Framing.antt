-- ===== src/Net/Client/Framing.antt =====
-- Each completion of a read, in the state that it finds the reader in.
use tiksrv.Base.{
  drop, Option, some, ◌++◌, ◌≤◌, ◌<◌, ◌≡◌, true, false, none, [], ◌∷◌, Bytes, length, resize, ok,
  arith, append-nil, take-all, drop-all,
}
use tiksrv.Net.Message.{Endian, RequestHeader, header_size, decode}
use tiksrv.Net.Client.{
  Client, ErrorCode, async_read, on_request, reading_header, reading_body, closed, message_size,
  on_error, max_allowed_body_size, handle_read, is_open, read_completed,
}

module _ (e : Endian) where
  pub received_whole :
      (bytes : Bytes) (c : Client)
      → is_open c ≡ true
      → length bytes ≡ length c.buffer
      → read_completed e none bytes c ≡ handle_read e none bytes (record c { buffer = bytes })
  unfolding read_completed is_open
  received_whole bytes c o n =
      ground (arith, drop-all bytes c.buffer n, append-nil bytes, take-all bytes)

  pub on_header :
      (c : Client) (buf : Bytes) (h : RequestHeader)
      → c.sock_open ≡ true
      → c.state ≡ reading_header
      → length buf ≡ header_size
      → decode e buf ≡ ok h
      → 0 < h.body_size
      → h.body_size ≤ max_allowed_body_size
      → handle_read e none buf c
        ≡ ok (
          record c { header = h; buffer = resize h.body_size 0 c.buffer; state = reading_body },
          async_read h.body_size ∷ [],
        )
  unfolding handle_read
  on_header c buf h o w n d lo hi = ground arith

  pub on_empty_header :
      (c : Client) (buf : Bytes) (h : RequestHeader)
      → c.sock_open ≡ true
      → c.state ≡ reading_header
      → length buf ≡ header_size
      → decode e buf ≡ ok h
      → h.body_size ≡ 0
      → handle_read e none buf c
        ≡ ok (
          record c { header = h; buffer = resize header_size 0 []; state = reading_header },
          on_request (record { header = h; body = c.buffer }) ∷ async_read header_size ∷ [],
        )
  unfolding handle_read
  on_empty_header c buf h o w n d z = ground arith

  pub on_large_header :
      (c : Client) (buf : Bytes) (h : RequestHeader)
      → c.sock_open ≡ true
      → c.state ≡ reading_header
      → length buf ≡ header_size
      → decode e buf ≡ ok h
      → max_allowed_body_size < h.body_size
      → handle_read e none buf c
        ≡ ok
            (record c { header = h; sock_open = false; state = closed }, on_error message_size ∷ [])
  unfolding handle_read
  on_large_header c buf h o w n d z = ground arith

  pub on_body :
      (c : Client) (buf : Bytes)
      → c.sock_open ≡ true
      → c.state ≡ reading_body
      → 0 < length buf
      → handle_read e none buf c
        ≡ ok (
          record c { state = reading_header; buffer = resize header_size 0 [] },
          on_request (record { header = c.header; body = c.buffer }) ∷ async_read header_size ∷ [],
        )
  unfolding handle_read
  on_body c buf o w n = ground arith

  pub read_shut :
      (err : Option ErrorCode) (bytes : Bytes) (c : Client)
      → is_open c ≡ false
      → read_completed e err bytes c
        ≡ ok (record c { buffer = bytes ++ drop (length bytes) c.buffer }, [])
  unfolding read_completed is_open
  read_shut err bytes c o = ground arith

  pub read_failed :
      (x : ErrorCode) (bytes : Bytes) (c : Client)
      → is_open c ≡ true
      → read_completed e (some x) bytes c
        ≡ ok (
          record c {
            buffer = bytes ++ drop (length bytes) c.buffer;
            sock_open = false;
            state = closed;
          },
          on_error x ∷ [],
        )
  unfolding read_completed is_open
  read_failed x bytes c o = ground arith
