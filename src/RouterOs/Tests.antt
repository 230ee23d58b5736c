-- ===== src/RouterOs/Tests.antt =====
-- Runs of the router's protocol at concrete inputs.
pub mod Wire
pub mod Session
pub mod Login
pub mod Connection
use tiksrv.Base.{
  ℕ, zero, suc, ◌+◌, ◌*◌, ◌^◌, ◌≤◌, ◌<◌, ◌≡◌, ◌≢◌, refl, ap, ◌↔◌, Bool, true, false, ◌&&◌, Option,
  none, some, List, [], ◌∷◌, ◌++◌, Bytes, codes, length, All, replicate, ok, aborted, Returns,
  arith, append-nil, ltb, ◌==◌, if◌then◌else◌, prepend, inl, inr,
}
use tiksrv.Base.Decimal.{IsDigit, decimal, digits_value}
use tiksrv.Base.Outcome.{Outcome, returned, Goes}
use tiksrv.RouterOs.Sentence.{Arg, text, uint, Fmt}
use tiksrv.RouterOs.Response.{LexicalCast}
use tiksrv.RouterOs.Password.{Md5}
use tiksrv.RouterOs.Api.State.{Reply}
use tiksrv.RouterOs.Hex.{digit_value, encode_hex_string, decode_hex_string}

abbrev show : Arg → Bytes
show (text s) = s
show (uint n) = decimal n

-- `{}` is replaced by the next argument.
abbrev show_next : List Arg → Bytes
show_next [] = []
show_next (a ∷ rest) = show a

abbrev rest_args : List Arg → List Arg
rest_args [] = []
rest_args (a ∷ rest) = rest

abbrev is_hole : ℕ → Bytes → Bool
is_hole c [] = false
is_hole c (d ∷ s) = c == 123 && d == 125

-- The pattern up to a hole's closing brace, which is dropped.
abbrev substitute : Bytes → Bool → List Arg → Bytes
substitute [] skip args = []
substitute (c ∷ s) true args = substitute s false args
substitute (c ∷ s) false args =
    let filled = substitute s true (rest_args args) in
    let copied = substitute s false args in
    if is_hole c s then show_next args ++ filled else c ∷ copied

abbrev pub substituting : Fmt
substituting = record {
  format = λ s args. substitute s false args;
  format_tag = λ n. ap (λ l. codes ".tag=" ++ l) (append-nil (decimal n));
  format_param = λ k v. ap (λ l. b'=' ∷ (k ++ (b'=' ∷ l))) (append-nil v);
  format_response = λ h. ap (λ l. codes "00" ++ l) (append-nil h);
}

abbrev pub digits_cast : LexicalCast
digits_cast = record {
  to_uint32 = λ s. if ltb (digits_value 0 s) (2 ^ 32) then some (digits_value 0 s) else none;
  to_uint32_digits = λ s h ne. refl;
}

-- A hash of one value.
abbrev pub digest : Bytes
digest = 0 ∷ 17 ∷ 34 ∷ 51 ∷ 68 ∷ 85 ∷ 102 ∷ 119 ∷ 136 ∷ 153 ∷ 170 ∷ 187 ∷ 204 ∷ 221 ∷ 238 ∷ 255 ∷ []

pub digest_bytes : All (λ b. b < 256) digest
digest_bytes = ground arith

abbrev pub one_digest : Md5
one_digest = record {
  digest = λ s. digest;
  length-digest = λ s. refl;
  digest_bytes = λ s. digest_bytes;
}

-- Functions 0 go on waiting, all others are done.
abbrev pub keep : ℕ → Reply → Outcome Bool
keep k r = returned (k == 0)
