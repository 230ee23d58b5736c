-- ===== src/RouterOs/Password/Assertions.antt =====
-- The answer to a challenge fails no assertion: it is computed or it throws.
use tiksrv.Base.{ℕ, zero, suc, ◌*◌, [], ◌∷◌, Bytes, length, ltb, arith}
use tiksrv.Base.Outcome.{Goes, out_of_range, throw_if, >>=-Goes, throw_if-Goes}
use tiksrv.RouterOs.Sentence.{Fmt}
use tiksrv.RouterOs.Hex.{digit_value, decode_pairs, decode_hex_string}
use tiksrv.RouterOs.Password.{Md5, md5_size, hash_password, login2}

digit_value-Goes : (d : ℕ) → Goes (digit_value d)
unfolding digit_value
digit_value-Goes d = ground arith

decode_pairs-Goes : (n : ℕ) (s : Bytes) → Goes (decode_pairs n s)
unfolding decode_pairs
decode_pairs-Goes zero s = tt
decode_pairs-Goes (suc n) [] = tt
decode_pairs-Goes (suc n) (a ∷ []) = tt
decode_pairs-Goes (suc n) (a ∷ b ∷ s) = >>=-Goes (digit_value a) _ (digit_value-Goes a) λ high.
    >>=-Goes (digit_value b) _ (digit_value-Goes b)
      λ low. >>=-Goes (decode_pairs n s) _ (decode_pairs-Goes n s) λ rest. tt

decode_hex_string-Goes : (n : ℕ) (s : Bytes) → Goes (decode_hex_string n s)
unfolding decode_hex_string
decode_hex_string-Goes n s =
    >>=-Goes (throw_if (ltb (length s) (n * 2)) out_of_range) _
      (throw_if-Goes (ltb (length s) (n * 2)) out_of_range) λ u. decode_pairs-Goes n s

module _ (md5 : Md5) where
  hash_password-Goes : (plain cha : Bytes) → Goes (hash_password md5 plain cha)
  unfolding hash_password
  hash_password-Goes plain cha =
      >>=-Goes (throw_if _ out_of_range) _ (throw_if-Goes _ out_of_range) λ u.
        >>=-Goes (decode_hex_string md5_size cha) _ (decode_hex_string-Goes md5_size cha)
          λ bytes. tt

  pub login2-Goes :
      (fmt : Fmt) (tag : ℕ) (name password cha : Bytes)
      → Goes (login2 fmt md5 tag name password cha)
  unfolding login2
  login2-Goes fmt tag name password cha =
      >>=-Goes (hash_password md5 password cha) _ (hash_password-Goes password cha) λ answer. tt
