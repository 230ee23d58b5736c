-- ===== src/RouterOs/Password.antt =====
-- routeros/src/util.cpp and routeros/include/eztik/routeros/commands.hpp: the answer to a login
-- challenge, and the requests of the login and of a listing.
pub mod Assertions
pub mod Hashing
pub mod Login
use tiksrv.Base.{
  ℕ, ◌+◌, ◌*◌, ◌<◌, ◌≡◌, ◌≢◌, refl, ap, ◌∙◌, true, false, not, List, [], ◌∷◌, ◌++◌, Bytes, codes,
  length, All, arith, ◌==◌, append-nil, if◌then◌else◌, ==_refl,
}
use tiksrv.Base.Outcome.{
  Outcome, returned, thrown, out_of_range, runtime_error, ◌>>=◌, ◌>>◌, throw_if,
}
use tiksrv.RouterOs.Sentence.{
  Fmt, text, RequestSentence, request_sentence, push_param, push_param_format,
}
use tiksrv.RouterOs.Hex.{decode_hex_string, encode_hex_string}
use tiksrv.RouterOs.Hex.RoundTrip.{decode_hex_string-encode_hex_string, length-encode_hex_string}

-- Crypto++'s MD5 over all that `Update` was given, in order.
pub record Md5 : Type 0 where
  pub digest : Bytes → Bytes
  pub length-digest : (s : Bytes) → length (digest s) ≡ 16
  pub digest_bytes : (s : Bytes) → All (λ b. b < 256) (digest s)

abbrev pub md5_size : ℕ
md5_size = 16

abbrev pub challenge_str_size : ℕ
challenge_str_size = md5_size * 2

challenge-len :
    (secret : Bytes)
    → length secret ≡ md5_size
    → (length (encode_hex_string secret) == challenge_str_size) ≡ true
challenge-len secret n = ground (arith, length-encode_hex_string secret)

decode_16 :
    (secret : Bytes)
    → length secret ≡ md5_size
    → All (λ b. b < 256) secret
    → decode_hex_string md5_size (encode_hex_string secret) ≡ returned secret
decode_16 secret n h = rw (n, append-nil) at (decode_hex_string-encode_hex_string secret [] h)

module _ (md5 : Md5) where
  unfoldable pub hash_password : Bytes → Bytes → Outcome Bytes
  hash_password plain cha = do
    throw_if (not (length cha == challenge_str_size)) out_of_range
    cha_bytes ← decode_hex_string md5_size cha
    returned (encode_hex_string (md5.digest (0 ∷ (plain ++ cha_bytes))))

  -- For a challenge that is the hexadecimal text of 16 bytes there is an answer of 32 characters,
  -- which reads back as the MD5 digest of a zero byte, the password and the 16 bytes.
  pub hash_password_lem :
      (plain secret : Bytes)
      → length secret ≡ md5_size
      → All (λ b. b < 256) secret
      → (answer : Bytes) × (hash_password plain (encode_hex_string secret) ≡ returned answer)
        × (length answer ≡ challenge_str_size)
        × (decode_hex_string md5_size answer ≡ returned (md5.digest (0 ∷ (plain ++ secret))))
  unfolding hash_password
  hash_password_lem plain secret n h =
      let hash : Bytes = md5.digest (0 ∷ (plain ++ secret)) in
      (
        encode_hex_string hash,
        rw (challenge-len secret n, decode_16 secret n h),
        omega (arith, length-encode_hex_string hash, md5.length-digest (0 ∷ (plain ++ secret))),
        decode_16 hash (md5.length-digest (0 ∷ (plain ++ secret)))
            (md5.digest_bytes (0 ∷ (plain ++ secret))),
      )

module _ (fmt : Fmt) where
  unfoldable pub login1 : ℕ → RequestSentence
  login1 tag = request_sentence fmt (codes "/login") tag

  unfoldable pub login2 : Md5 → ℕ → Bytes → Bytes → Bytes → Outcome RequestSentence
  unfolding login1
  login2 md5 tag name password cha = do
    answer ← hash_password md5 password cha
    returned (
        push_param_format fmt (codes "response") (codes "00{}") (text answer ∷ [])
          (push_param fmt (codes "name") name (login1 tag)))

  unfoldable pub getall : ℕ → Bytes → RequestSentence
  getall tag path = request_sentence fmt (path ++ codes "/getall") tag

-- `login2::challenge_param` and `login2::challenge_size`.
abbrev pub challenge_param : Bytes
challenge_param = codes "ret"

abbrev pub challenge_size : ℕ
challenge_size = 32
