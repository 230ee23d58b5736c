-- ===== src/RouterOs/Password/Login.antt =====
-- The words of the second request of a login.
use tiksrv.Base.{ℕ, ◌<◌, ◌≡◌, List, [], ◌∷◌, ◌++◌, Bytes, codes, length, All, ap, arith, ◌==◌, true}
use tiksrv.Base.Decimal.{decimal}
use tiksrv.Base.Outcome.{Exception, returned, thrown}
use tiksrv.RouterOs.Sentence.{Fmt, request_sentence, push_param, push_param_format}
use tiksrv.RouterOs.Hex.{decode_hex_string, encode_hex_string}
use tiksrv.RouterOs.Hex.RoundTrip.{length-encode_hex_string}
use tiksrv.RouterOs.Password.{
  Md5, md5_size, challenge_str_size, decode_16, hash_password, login1, login2,
}

size_right :
    (cha : Bytes) → length cha ≡ challenge_str_size → (length cha == challenge_str_size) ≡ true
size_right cha n = ground arith

module _ (fmt : Fmt) (md5 : Md5) where
  abbrev pub login2_words : ℕ → Bytes → Bytes → Bytes → List Bytes
  login2_words tag name password secret =
      codes "/login"
      ∷ (codes ".tag=" ++ decimal tag)
      ∷ (codes "=name=" ++ name)
      ∷ (codes "=response=00" ++ encode_hex_string (md5.digest (0 ∷ (password ++ secret))))
      ∷ []

  pub login2-returned :
      (tag : ℕ) (name password cha secret : Bytes)
      → length cha ≡ challenge_str_size
      → decode_hex_string md5_size cha ≡ returned secret
      → login2 fmt md5 tag name password cha
        ≡ returned (record { words = login2_words tag name password secret; tag = tag })
  unfolding login2 hash_password push_param push_param_format request_sentence login1
  login2-returned tag name password cha secret n d =
      rw (size_right cha n, d)
        (ap (λ w. returned (record { words = w; tag = tag }))
          (rw (
            fmt.format_tag tag,
            fmt.format_response (encode_hex_string (md5.digest (0 ∷ (password ++ secret)))),
            fmt.format_param (codes "name") name,
            fmt.format_param (codes "response")
                (codes "00" ++ encode_hex_string (md5.digest (0 ∷ (password ++ secret)))),
          )))

  pub login2-thrown :
      (tag : ℕ) (name password cha : Bytes) (x : Exception)
      → length cha ≡ challenge_str_size
      → decode_hex_string md5_size cha ≡ thrown x
      → login2 fmt md5 tag name password cha ≡ thrown x
  unfolding login2 hash_password
  login2-thrown tag name password cha x n d = rw (size_right cha n, d)

  pub login2_lem :
      (tag : ℕ) (name password secret : Bytes)
      → length secret ≡ md5_size
      → All (λ b. b < 256) secret
      → login2 fmt md5 tag name password (encode_hex_string secret)
        ≡ returned (record { words = login2_words tag name password secret; tag = tag })
  login2_lem tag name password secret n v =
      login2-returned tag name password (encode_hex_string secret) secret
        (omega (arith, length-encode_hex_string secret, n)) (decode_16 secret n v)
