-- ===== src/RouterOs/Tests/Wire.antt =====
-- Lengths, words, responses and challenges at concrete inputs.
use tiksrv.Base.{
  ◌<◌, All, ◌≡◌, ◌≢◌, refl, ◌↔◌, true, false, some, [], ◌∷◌, ◌++◌, Bytes, codes, All, arith,
}
use tiksrv.Base.Decimal.{IsDigit, digits_value}
use tiksrv.Base.Tests.{str_eq}
use tiksrv.Base.Outcome.{returned}
use tiksrv.RouterOs.Response.{
  ResponseSentence, normal, re, lookup, is_valid_response, response_type, response_sentence,
  add_word, param_groups, tag_group,
}
use tiksrv.RouterOs.Response.Patterns.{IsKey, IsValue, param_groups_iff, tag_group_iff}
use tiksrv.RouterOs.Response.Parameters.{first_value, response_sentence-params}
use tiksrv.RouterOs.Response.Tags.{tags, tag_of, tag_of_words, response_sentence-tags}
use tiksrv.RouterOs.Hex.{encode_hex_string}
use tiksrv.RouterOs.Password.Hashing.{Answers, hash_password_iff}
use tiksrv.RouterOs.Password.{hash_password}
use tiksrv.RouterOs.Tests.{digits_cast, digest, one_digest}

param_groups_iff_example : (param_groups (codes "=a=b=c") ≡ some (codes "a", codes "b=c")) ↔ (
    (codes "=a=b=c" ≡ b'=' ∷ (codes "a" ++ (b'=' ∷ codes "b=c")))
    × IsKey (codes "a")
    × IsValue (codes "b=c"))
param_groups_iff_example = param_groups_iff (codes "=a=b=c") (codes "a") (codes "b=c")

tag_group_iff_example : (tag_group (codes ".tag=42") ≡ some (codes "42")) ↔ (
    (codes ".tag=42" ≡ codes ".tag=" ++ codes "42") × (codes "42" ≢ []) × All IsDigit (codes "42"))
tag_group_iff_example = tag_group_iff (codes ".tag=42") (codes "42")

abbrev done : ResponseSentence
done = record { params = (codes "ret", codes "x") ∷ []; type = normal; tagged = false; tag = 0 }

parsed :
    response_sentence digits_cast (codes "!done" ∷ codes "=ret=x" ∷ codes "=ret=y" ∷ [])
    ≡ returned done
unfolding response_sentence is_valid_response response_type param_groups tag_group str_eq add_word
    digits_value
parsed = refl

response_sentence-params_example :
    (response_type (codes "!done") ≡ returned normal)
    × ((key : Bytes)
        → lookup key done.params
          ≡ first_value key (codes "!done" ∷ codes "=ret=x" ∷ codes "=ret=y" ∷ []))
response_sentence-params_example =
    response_sentence-params digits_cast (codes "!done") (codes "=ret=x" ∷ codes "=ret=y" ∷ []) done
      parsed

valid : is_valid_response (codes "!re" ∷ codes ".tag=7" ∷ []) ≡ true
unfolding is_valid_response
valid = refl

named : response_type (codes "!re") ≡ returned re
unfolding response_type str_eq
named = refl

response_sentence-tags_example :
    tag_of (response_sentence digits_cast (codes "!re" ∷ codes ".tag=7" ∷ []))
    ≡ tag_of_words (tags (codes "!re" ∷ codes ".tag=7" ∷ [])) false 0
response_sentence-tags_example =
    response_sentence-tags digits_cast (codes "!re") (codes ".tag=7" ∷ []) re valid named

abbrev upper_case : Bytes
upper_case = codes "00112233445566778899AABBCCDDEEFF"

upper_case-chars : All (λ b. b < 256) upper_case
upper_case-chars = ground arith

hash_password_iff_example :
    (hash_password one_digest (codes "secret") upper_case ≡ returned (encode_hex_string digest))
    ↔ Answers one_digest (codes "secret") upper_case (encode_hex_string digest)
hash_password_iff_example =
    hash_password_iff one_digest (codes "secret") upper_case (encode_hex_string digest)
      upper_case-chars
