-- ===== src/RouterOs/Sentence.antt =====
-- routeros/include/eztik/routeros/sentence.hpp and the encoder of routeros/src/sentence.cpp:
-- sentences, requests and their wire form; commands.hpp is in Password.
use tiksrv.Base.{
  ℕ, zero, suc, ◌*◌, ◌/◌, ◌^◌, ◌≡◌, List, [], ◌∷◌, ◌++◌, Bytes, codes, length, bit_and, bit_or, ltb,
  if◌then◌else◌,
}
use tiksrv.Base.Decimal.{decimal}

-- An argument of fmt::format: a text or an unsigned integer.
pub data Arg : Type 0 where
  text : Bytes → Arg
  uint : ℕ → Arg

-- The {fmt} library: each `{}` of the pattern stands for the next argument, an integer in decimal.
-- These are the patterns that the program uses.
pub record Fmt : Type 0 where
  pub format : Bytes → List Arg → Bytes
  pub format_tag : (n : ℕ) → format (codes ".tag={}") (uint n ∷ []) ≡ codes ".tag=" ++ decimal n
  pub format_param :
      (k v : Bytes) → format (codes "={}={}") (text k ∷ text v ∷ []) ≡ b'=' ∷ (k ++ (b'=' ∷ v))
  pub format_response : (h : Bytes) → format (codes "00{}") (text h ∷ []) ≡ codes "00" ++ h

-- `append_uint<T, size>`: the low `size` bytes, the most significant first.
unfoldable pub append_uint : ℕ → ℕ → Bytes
append_uint zero val = []
append_uint (suc k) val = bit_and (val / 2 ^ (8 * k)) 0xff ∷ append_uint k val

unfoldable pub encode_length : ℕ → Bytes
unfolding append_uint
encode_length len =
    if ltb len 0x80
    then append_uint 1 len
    else if ltb len 0x4000
    then append_uint 2 (bit_or len 0x8000)
    else if ltb len 0x200000
    then append_uint 3 (bit_or len 0xc00000)
    else if ltb len 0x10000000
    then append_uint 4 (bit_or len 0xe0000000)
    else append_uint 1 0xf0 ++ append_uint 4 len

unfoldable pub encode_word : Bytes → Bytes
unfolding encode_length
encode_word word = encode_length (length word) ++ word

-- `sentence::encode`: the words, and a zero byte behind them.
unfoldable pub encode : List Bytes → Bytes
unfolding encode_word
encode [] = 0 ∷ []
encode (w ∷ ws) = encode_word w ++ encode ws

pub record RequestSentence : Type 0 where
  pub words : List Bytes
  pub tag : ℕ

unfoldable pub push : Bytes → RequestSentence → RequestSentence
push word s = record s { words = s.words ++ (word ∷ []) }

module _ (fmt : Fmt) where
  unfoldable pub request_sentence : Bytes → ℕ → RequestSentence
  request_sentence command tag = record {
    words = command ∷ fmt.format (codes ".tag={}") (uint tag ∷ []) ∷ [];
    tag = tag;
  }

  unfoldable pub push_param : Bytes → Bytes → RequestSentence → RequestSentence
  unfolding push
  push_param key value s = push (fmt.format (codes "={}={}") (text key ∷ text value ∷ [])) s

  -- `std::to_string` of a number.
  unfoldable pub push_param_number : Bytes → ℕ → RequestSentence → RequestSentence
  unfolding push_param
  push_param_number key value s = push_param key (decimal value) s

  unfoldable pub push_param_format : Bytes → Bytes → List Arg → RequestSentence → RequestSentence
  unfolding push_param
  push_param_format key layout args s = push_param key (fmt.format layout args) s
