-- ===== src/RouterOs/Password/Hashing.antt =====
-- Which challenges are answered, and how: `hash_password` of routeros/src/util.cpp.
use tiksrv.Base.{
  ◌<◌, ◌≡◌, ◌↔◌, inl, inr, sym, Bool-cases, true, ◌∷◌, ◌++◌, Bytes, length, All, arith, ◌==◌,
}
use tiksrv.Base.Outcome.{returned, thrown, out_of_range, >>=-eq-returned}
use tiksrv.RouterOs.Hex.{decode_hex_string, encode_hex_string}
use tiksrv.RouterOs.Hex.Spelling.{Spells, decode_hex_string_iff}
use tiksrv.RouterOs.Password.{Md5, md5_size, challenge_str_size, hash_password}

refused : {y : Bytes} → thrown out_of_range ≡ returned y → ⊥
refused h = cc

same_answer : {x y : Bytes} → returned x ≡ returned y → x ≡ y
same_answer h = cc

module _ (md5 : Md5) where
  abbrev pub Answers : Bytes → Bytes → Bytes → Type 0
  Answers plain cha answer =
      (bs : Bytes) × (length cha ≡ 32)
      × Spells cha bs
      × (answer ≡ encode_hex_string (md5.digest (0 ∷ (plain ++ bs))))

  answered :
      (plain cha answer : Bytes)
      → All (λ b. b < 256) cha
      → hash_password md5 plain cha ≡ returned answer
      → Answers plain cha answer
  unfolding hash_password
  answered plain cha answer v e = elim (Bool-cases (length cha == challenge_str_size)) [
    | inr bad ↦ absurd (refused (rw bad at e))
    | inl good ↦
        let (bs, d, f) = >>=-eq-returned (decode_hex_string md5_size cha) _ (rw good at e) in
        let size : length cha ≡ 32 = ground (arith, good) in
        (bs, size, (decode_hex_string_iff md5_size cha bs size v).0 d, sym (same_answer f))
  ]

  answers :
      (plain cha answer : Bytes)
      → All (λ b. b < 256) cha
      → Answers plain cha answer
      → hash_password md5 plain cha ≡ returned answer
  unfolding hash_password
  answers plain cha answer v (bs, size, k, e) =
      let good : (length cha == challenge_str_size) ≡ true = ground (arith, size) in
      rw (good, (decode_hex_string_iff md5_size cha bs size v).1 k, e)

  -- A challenge has the answer `answer` exactly when it is 32 characters long, spells some bytes in
  -- hexadecimal digits of either case, and `answer` is the hexadecimal text of the MD5 digest of a
  -- zero byte, the password and those bytes; for any other challenge there is no answer. This holds
  -- for a challenge of characters below 256.
  pub hash_password_iff :
      (plain cha answer : Bytes)
      → All (λ b. b < 256) cha
      → (hash_password md5 plain cha ≡ returned answer) ↔ Answers plain cha answer
  hash_password_iff plain cha answer v = (answered plain cha answer v, answers plain cha answer v)
