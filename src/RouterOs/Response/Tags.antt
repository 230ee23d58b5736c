-- ===== src/RouterOs/Response/Tags.antt =====
-- The tag that the constructor of a response finds among its words.
use tiksrv.Base.{
  ℕ, ◌^◌, ◌≡◌, ◌≢◌, refl, ◌∙◌, Bool, true, false, Option, none, some, List, [], ◌∷◌, Bytes, All,
  arith, Bool-cases, inl, inr, if◌then◌else◌, ltb,
}
use tiksrv.Base.Decimal.{IsDigit, digits_value}
use tiksrv.Base.Outcome.{Outcome, returned, thrown, stopped, bad_lexical_cast, ◌>>=◌}
use tiksrv.RouterOs.Response.{
  LexicalCast, ResponseType, ResponseSentence, emplace, param_groups, tag_group, is_valid_response,
  response_type, extract_tag, set_tag, add_groups, add_word, add_words, response_sentence,
}
use tiksrv.RouterOs.Response.Patterns.{tag_group_iff}

-- The digits of the tag words that are no parameters.
abbrev tags_with : Option (Bytes × Bytes) → Option Bytes → List Bytes → List Bytes
tags_with (some kv) t rest = rest
tags_with none none rest = rest
tags_with none (some digits) rest = digits ∷ rest

abbrev pub tags : List Bytes → List Bytes
tags [] = []
tags (w ∷ ws) = tags_with (param_groups w) (tag_group w) (tags ws)

-- The tag that the tag words of a sentence give, where one may be there already.
abbrev pub tag_of_words : List Bytes → Bool → ℕ → Outcome (Bool × ℕ)
tag_of_words [] tagged tag = returned (tagged, tag)
tag_of_words (d ∷ ds) true tag = stopped
tag_of_words (d ∷ ds) false tag =
    if ltb (digits_value 0 d) (2 ^ 32)
    then tag_of_words ds true (digits_value 0 d)
    else thrown bad_lexical_cast

abbrev pub tag_of : Outcome ResponseSentence → Outcome (Bool × ℕ)
tag_of (returned r) = returned (r.tagged, r.tag)
tag_of (thrown x) = thrown x
tag_of stopped = stopped

emplace-tag : (k v : Bytes) (r : ResponseSentence) → (emplace k v r).tag ≡ r.tag
unfolding emplace
emplace-tag k v r = ground arith

emplace-tagged : (k v : Bytes) (r : ResponseSentence) → (emplace k v r).tagged ≡ r.tagged
unfolding emplace
emplace-tagged k v r = ground arith

tag_group-digits : (w d : Bytes) → tag_group w ≡ some d → (d ≢ []) × All IsDigit d
tag_group-digits w d e = let (_, ne, good) = (tag_group_iff w d).0 e in (ne, good)

module _ (lex : LexicalCast) where
  extract_tag-lt :
      (d : Bytes)
      → All IsDigit d
      → d ≢ []
      → ltb (digits_value 0 d) (2 ^ 32) ≡ true
      → extract_tag lex d ≡ returned (digits_value 0 d)
  unfolding extract_tag
  extract_tag-lt d h ne fits = ground (arith, lex.to_uint32_digits d h ne)

  extract_tag-ge :
      (d : Bytes)
      → All IsDigit d
      → d ≢ []
      → ltb (digits_value 0 d) (2 ^ 32) ≡ false
      → extract_tag lex d ≡ thrown bad_lexical_cast
  unfolding extract_tag
  extract_tag-ge d h ne large = ground (arith, lex.to_uint32_digits d h ne)

  set_tag-tag :
      (d : Bytes) (r : ResponseSentence) (k : ResponseSentence → Outcome ResponseSentence)
      (ds : List Bytes)
      → All IsDigit d
      → d ≢ []
      → ((r' : ResponseSentence) → tag_of (k r') ≡ tag_of_words ds r'.tagged r'.tag)
      → tag_of (set_tag lex d r >>= k) ≡ tag_of_words (d ∷ ds) r.tagged r.tag
  unfolding set_tag
  set_tag-tag d r k ds h ne ih = elim (Bool-cases r.tagged) [
    | inl old ↦ rw old
    | inr new ↦ elim (Bool-cases (ltb (digits_value 0 d) (2 ^ 32))) [
      | inl fits ↦
          rw (new, extract_tag-lt d h ne fits, fits)
            (ih (record r { tagged = true; tag = digits_value 0 d }))
      | inr large ↦ rw (new, extract_tag-ge d h ne large, large)
    ]
  ]

  add_groups-tag :
      (p : Option (Bytes × Bytes)) (t : Option Bytes) (ws : List Bytes) (r : ResponseSentence)
      → ((d : Bytes) → t ≡ some d → (d ≢ []) × All IsDigit d)
      → ((r' : ResponseSentence)
          → tag_of (add_words lex ws r') ≡ tag_of_words (tags ws) r'.tagged r'.tag)
      → tag_of (add_groups lex p t r >>= add_words lex ws)
        ≡ tag_of_words (tags_with p t (tags ws)) r.tagged r.tag
  unfolding add_groups
  add_groups-tag (some (k, v)) t ws r good ih =
      ih (emplace k v r) ∙ rw (emplace-tag k v r, emplace-tagged k v r)
  add_groups-tag none (some d) ws r good ih =
      set_tag-tag d r (add_words lex ws) (tags ws) (good d refl).1 (good d refl).0 ih
  add_groups-tag none none ws r good ih = ih r

  add_words-tag :
      (ws : List Bytes) (r : ResponseSentence)
      → tag_of (add_words lex ws r) ≡ tag_of_words (tags ws) r.tagged r.tag
  unfolding add_words add_word
  add_words-tag [] r = refl
  add_words-tag (w ∷ ws) r =
      add_groups-tag (param_groups w) (tag_group w) ws r (λ d e. (tag_group-digits w d e))
        (add_words-tag ws)

  -- Where the first word names a type, the outcome turns on the tag words alone: with none the
  -- response is untagged, with one whose number is below 2 ^ 32 it has that tag, with a larger number
  -- the constructor throws bad_lexical_cast, and a second tag word fails an assertion.
  pub response_sentence-tags :
      (w : Bytes) (ws : List Bytes) (t : ResponseType)
      → is_valid_response (w ∷ ws) ≡ true
      → response_type w ≡ returned t
      → tag_of (response_sentence lex (w ∷ ws)) ≡ tag_of_words (tags (w ∷ ws)) false 0
  unfolding response_sentence
  response_sentence-tags w ws t valid named =
      rw (valid, named)
        (add_words-tag (w ∷ ws) (record { params = []; type = t; tagged = false; tag = 0 }))
