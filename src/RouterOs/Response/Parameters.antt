-- ===== src/RouterOs/Response/Parameters.antt =====
-- What the constructor of a response makes of its words.
use tiksrv.Base.{
  ◌≡◌, refl, sym, ap, ◌∙◌, false, Option, none, some, List, [], ◌∷◌, ◌++◌, Bytes, arith,
  if◌then◌else◌, str_eq, str_eq_iff,
}
use tiksrv.Base.Outcome.{returned, asserting, >>=-eq-returned}
use tiksrv.RouterOs.Response.{
  LexicalCast, ResponseSentence, lookup, has, emplace, param_groups, tag_group, is_valid_response,
  response_type, set_tag, add_groups, add_word, add_words, response_sentence,
}

abbrev or_else : Option Bytes → Option Bytes → Option Bytes
or_else none o = o
or_else (some v) o = some v

-- The value that the groups of a parameter give to the key.
abbrev value_in : Bytes → Option (Bytes × Bytes) → Option Bytes
value_in key none = none
value_in key (some (k, v)) = if str_eq k key then some v else none

-- The value of the first parameter word with the key.
abbrev pub first_value : Bytes → List Bytes → Option Bytes
first_value key [] = none
first_value key (w ∷ ws) = or_else (value_in key (param_groups w)) (first_value key ws)

lookup-append :
    (key k v : Bytes) (ps : List (Bytes × Bytes))
    → lookup key (ps ++ ((k, v) ∷ []))
      ≡ or_else (lookup key ps) (if str_eq k key then some v else none)
unfolding lookup
lookup-append key k v [] = refl
lookup-append key k v ((j, w) ∷ ps) = ground (arith, lookup-append key k v ps)

lookup-emplace :
    (key k v : Bytes) (r : ResponseSentence)
    → lookup key (emplace k v r).params
      ≡ or_else (lookup key r.params) (if str_eq k key then some v else none)
unfolding emplace has
lookup-emplace key k v r = ground (arith, lookup-append key k v r.params, str_eq_iff k key)

emplace-type : (k v : Bytes) (r : ResponseSentence) → (emplace k v r).type ≡ r.type
unfolding emplace
emplace-type k v r = ground arith

module _ (lex : LexicalCast) where
  set_tag-params :
      (digits : Bytes) (r r' : ResponseSentence)
      → set_tag lex digits r ≡ returned r'
      → (r'.params ≡ r.params) × (r'.type ≡ r.type)
  unfolding set_tag
  set_tag-params digits r r' e = ground arith

  add_groups-lookup :
      (key : Bytes) (p : Option (Bytes × Bytes)) (t : Option Bytes) (r r' : ResponseSentence)
      → add_groups lex p t r ≡ returned r'
      → (lookup key r'.params ≡ or_else (lookup key r.params) (value_in key p)) × (r'.type ≡ r.type)
  unfolding add_groups
  add_groups-lookup key (some (k, v)) t r r' e =
      ground (arith, lookup-emplace key k v r, emplace-type k v r)
  add_groups-lookup key none (some d) r r' e = ground (arith, set_tag-params d r r')
  add_groups-lookup key none none r r' e = ground arith

  add_word-lookup :
      (key w : Bytes) (r r' : ResponseSentence)
      → add_word lex w r ≡ returned r'
      → (lookup key r'.params ≡ or_else (lookup key r.params) (value_in key (param_groups w)))
        × (r'.type ≡ r.type)
  unfolding add_word
  add_word-lookup key w r r' e = add_groups-lookup key (param_groups w) (tag_group w) r r' e

  add_words-lookup :
      (key : Bytes) (ws : List Bytes) (r r' : ResponseSentence)
      → add_words lex ws r ≡ returned r'
      → (lookup key r'.params ≡ or_else (lookup key r.params) (first_value key ws))
        × (r'.type ≡ r.type)
  unfolding add_words
  add_words-lookup key [] r r' e = ground arith
  add_words-lookup key (w ∷ ws) r r' e =
      let (r1, one, rest) = >>=-eq-returned (add_word lex w r) (add_words lex ws) e in
      ground (arith, add_word-lookup key w r r1 one, add_words-lookup key ws r1 r' rest)

  -- A response that the constructor makes has the type that its first word names, and its map holds,
  -- for each key, the value of the first parameter word with that key, and no other key.
  pub response_sentence-params :
      (w : Bytes) (ws : List Bytes) (r : ResponseSentence)
      → response_sentence lex (w ∷ ws) ≡ returned r
      → (response_type w ≡ returned r.type)
        × ((key : Bytes) → lookup key r.params ≡ first_value key (w ∷ ws))
  unfolding response_sentence
  response_sentence-params w ws r e =
      let (u, valid, rest) = >>=-eq-returned (asserting (is_valid_response (w ∷ ws))) _ e in
      let (t, named, made) = >>=-eq-returned (response_type w) _ rest in
      let start : ResponseSentence = record { params = []; type = t; tagged = false; tag = 0 } in
      (
        named ∙ ap returned (sym (add_words-lookup [] (w ∷ ws) start r made).1),
        λ key. (add_words-lookup key (w ∷ ws) start r made).0 ∙ unfold lookup in refl,
      )
