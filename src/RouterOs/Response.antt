-- ===== src/RouterOs/Response.antt =====
-- The response half of routeros/include/eztik/routeros/sentence.hpp and routeros/src/sentence.cpp.
-- A parameter map is a list of pairs with distinct keys; its order stands for the unspecified one of
-- std::unordered_map.
pub mod Patterns
pub mod Parameters
pub mod Tags
use tiksrv.Base.{
  ℕ, ◌+◌, ◌^◌, ◌<◌, ◌≡◌, ◌≢◌, refl, Bool, true, false, not, ◌&&◌, Option, none, some, List, [], ◌∷◌,
  ◌++◌, Bytes, codes, All, ltb, leb, ◌==◌, if◌then◌else◌, str_eq, length,
}
use tiksrv.Base.Decimal.{IsDigit, digits_value}
use tiksrv.Base.Outcome.{
  Outcome, returned, thrown, stopped, runtime_error, out_of_range, bad_lexical_cast, ◌>>=◌, ◌>>◌,
  asserting, throw_if,
}

-- Boost's lexical_cast to std::uint32_t: a text of digits is its number if that fits, and any other
-- number is refused (bad_lexical_cast).
pub record LexicalCast : Type 0 where
  pub to_uint32 : Bytes → Option ℕ
  pub to_uint32_digits :
      (s : Bytes)
      → All IsDigit s
      → s ≢ []
      → to_uint32 s ≡ (if ltb (digits_value 0 s) (2 ^ 32) then some (digits_value 0 s) else none)

-- `re` is the source's `data`.
pub data ResponseType : Type 0 where
  normal re trap : ResponseType

pub record ResponseSentence : Type 0 where
  pub params : List (Bytes × Bytes)
  pub type : ResponseType
  pub tagged : Bool
  pub tag : ℕ

unfoldable pub lookup : Bytes → List (Bytes × Bytes) → Option Bytes
lookup key [] = none
lookup key ((k, v) ∷ ps) = if str_eq k key then some v else lookup key ps

abbrev pub is_some {ℓ} : {A : Type ℓ} → Option A → Bool
is_some none = false
is_some (some a) = true

unfoldable pub has : Bytes → ResponseSentence → Bool
unfolding lookup
has key r = is_some (lookup key r.params)

-- `operator[]`: `at` throws on a missing key, which ends the program, since the operator is noexcept.
unfoldable pub value_at : Bytes → ResponseSentence → Outcome Bytes
unfolding lookup
value_at key r = elim (lookup key r.params) [ none ↦ stopped | some v ↦ returned v ]

unfoldable pub empty : ResponseSentence → Bool
empty r = elim r.params [ [] ↦ true | _ ∷ _ ↦ false ]

unfoldable pub is_normal : ResponseSentence → Bool
is_normal r = elim r.type [ normal ↦ true | _ ↦ false ]

unfoldable pub is_data : ResponseSentence → Bool
is_data r = elim r.type [ re ↦ true | _ ↦ false ]

unfoldable pub is_trap : ResponseSentence → Bool
is_trap r = elim r.type [ trap ↦ true | _ ↦ false ]

-- `emplace` keeps a value that is there.
unfoldable pub emplace : Bytes → Bytes → ResponseSentence → ResponseSentence
unfolding has
emplace key value r = if has key r then r else record r { params = r.params ++ ((key, value) ∷ []) }

-- A character that `.` of a POSIX regular expression matches.
abbrev pub any_char : ℕ → Bool
any_char c = not (c == 0)

abbrev pub digit_char : ℕ → Bool
digit_char c = leb b'0' c && leb c b'9'

abbrev pub every : (ℕ → Bool) → Bytes → Bool
every test [] = true
every test (c ∷ cs) = test c && every test cs

-- `=(.*)` behind the key, which has a character at least.
abbrev pub end_of_key : Bytes → Bytes → Option (Bytes × Bytes)
end_of_key [] cs = none
end_of_key (k ∷ ks) cs = if every any_char cs then some (k ∷ ks, cs) else none

-- Behind the first `=`: `([^=]+)=(.*)`, with the key read so far.
unfoldable pub match_param : Bytes → Bytes → Option (Bytes × Bytes)
match_param key [] = none
match_param key (c ∷ cs) =
    let rest = match_param (key ++ (c ∷ [])) cs in if c == b'=' then end_of_key key cs else rest

-- `regex_match` against `=([^=]+)=(.*)`, and its two groups.
unfoldable pub param_groups : Bytes → Option (Bytes × Bytes)
unfolding match_param
param_groups [] = none
param_groups (c ∷ cs) = if c == b'=' then match_param [] cs else none

abbrev pub drop_prefix : Bytes → Bytes → Option Bytes
drop_prefix [] s = some s
drop_prefix (p ∷ ps) [] = none
drop_prefix (p ∷ ps) (c ∷ cs) = if c == p then drop_prefix ps cs else none

abbrev pub digits_group : Bytes → Option Bytes
digits_group [] = none
digits_group (c ∷ cs) = if every digit_char (c ∷ cs) then some (c ∷ cs) else none

abbrev pub and_digits : Option Bytes → Option Bytes
and_digits none = none
and_digits (some s) = digits_group s

-- `regex_match` against `\.tag=([0-9]+)`, and its group.
unfoldable pub tag_group : Bytes → Option Bytes
tag_group s = and_digits (drop_prefix (codes ".tag=") s)

-- `s[0][0] == '!'`; the first character of an empty string reads as 0.
unfoldable pub is_valid_response : List Bytes → Bool
is_valid_response [] = false
is_valid_response ([] ∷ ws) = false
is_valid_response ((c ∷ cs) ∷ ws) = c == b'!'

-- The type of a response from its first word. `!fatal` throws with a message.
unfoldable pub response_type : Bytes → Outcome ResponseType
response_type s =
    if str_eq s (codes "!fatal")
    then thrown runtime_error
    else if str_eq s (codes "!done")
    then returned normal
    else if str_eq s (codes "!re")
    then returned re
    else if str_eq s (codes "!trap")
    then returned trap
    else thrown runtime_error

module _ (lex : LexicalCast) where
  unfoldable pub extract_tag : Bytes → Outcome ℕ
  extract_tag digits = elim (lex.to_uint32 digits) [
    | none ↦ thrown bad_lexical_cast
    | some n ↦ returned n
  ]

  unfoldable pub set_tag : Bytes → ResponseSentence → Outcome ResponseSentence
  unfolding extract_tag
  set_tag digits r = do
    asserting (not r.tagged)
    n ← extract_tag digits
    returned (record r { tag = n; tagged = true })

  -- One word of the constructor's loop: a parameter, else a tag, else nothing.
  unfoldable pub add_groups :
      Option (Bytes × Bytes) → Option Bytes → ResponseSentence → Outcome ResponseSentence
  unfolding set_tag emplace
  add_groups (some (key, value)) t r = returned (emplace key value r)
  add_groups none (some digits) r = set_tag digits r
  add_groups none none r = returned r

  unfoldable pub add_word : Bytes → ResponseSentence → Outcome ResponseSentence
  unfolding add_groups
  add_word word r = add_groups (param_groups word) (tag_group word) r

  unfoldable pub add_words : List Bytes → ResponseSentence → Outcome ResponseSentence
  add_words [] r = returned r
  add_words (w ∷ ws) r = add_word w r >>= add_words ws

  abbrev first_word : List Bytes → Bytes
  first_word [] = []
  first_word (w ∷ ws) = w

  -- The constructor from a sentence; the tag is unset until a tag is found.
  unfoldable pub response_sentence : List Bytes → Outcome ResponseSentence
  unfolding is_valid_response response_type add_words
  response_sentence s = do
    asserting (is_valid_response s)
    t ← response_type (first_word s)
    add_words s (record { params = []; type = t; tagged = false; tag = 0 })
