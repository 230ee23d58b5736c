-- ===== src/RouterOs/Response/Patterns.antt =====
-- The two regular expressions of sentence.cpp against the texts that they describe.
use tiksrv.Base.{
  ◌<◌, ◌≡◌, ◌≢◌, ◌↔◌, refl, sym, ap, ◌∙◌, true, false, Option, none, some, [], ◌∷◌, ◌++◌, Bytes,
  codes, All, arith, ==_iff, append_assoc, append-nil, Bool-cases, Option-cases, inl, inr, ◌==◌,
}
use tiksrv.Base.Decimal.{IsDigit}
use tiksrv.RouterOs.Response.{
  every, any_char, digit_char, end_of_key, match_param, param_groups, tag_group, drop_prefix,
  digits_group,
}

abbrev pub IsKey : Bytes → Type 0
IsKey k = (k ≢ []) × All (λ c. c ≢ b'=') k

-- No zero byte, which `.` does not match.
abbrev pub IsValue : Bytes → Type 0
IsValue v = All (λ c. 0 < c) v

every-any_char : (v : Bytes) → (every any_char v ≡ true) ↔ IsValue v
every-any_char [] = ground arith
every-any_char (c ∷ cs) = ground (arith, every-any_char cs)

every-digit_char : (v : Bytes) → (every digit_char v ≡ true) ↔ All IsDigit v
every-digit_char [] = ground arith
every-digit_char (c ∷ cs) = ground (arith, every-digit_char cs)

none-ne-some {ℓ} : {A : Type ℓ} {a : A} → none ≡ some a → ⊥
none-ne-some e = cc

end_of_key-some : (key cs : Bytes) → key ≢ [] → IsValue cs → end_of_key key cs ≡ some (key, cs)
end_of_key-some [] cs ne v = absurd (ne refl)
end_of_key-some (k ∷ ks) cs ne v = rw ((every-any_char cs).1 v)

end_of_key-inv :
    (key cs k v : Bytes)
    → end_of_key key cs ≡ some (k, v)
    → (key ≡ k) × (cs ≡ v) × (k ≢ []) × IsValue v
end_of_key-inv [] cs k v e = cc
end_of_key-inv (x ∷ xs) cs k v e = elim (Bool-cases (every any_char cs)) [
  | inl good ↦
      let got : ◌≡◌ {A = Option (Bytes × Bytes)} (some (x ∷ xs, cs)) (some (k, v)) = rw good at e in
      let same : cs ≡ v = cc in
      let front : x ∷ xs ≡ k = cc in
      (front, same, λ z. cc, rw (← same) ((every-any_char cs).0 good))
  | inr bad ↦ absurd (none-ne-some (rw bad at e))
]

match_param_complete :
    (key k v : Bytes)
    → key ++ k ≢ []
    → All (λ c. c ≢ b'=') k
    → IsValue v
    → match_param key (k ++ (b'=' ∷ v)) ≡ some (key ++ k, v)
unfolding match_param
match_param_complete key [] v ne k0 hv =
    rw append-nil (end_of_key-some key v (rw append-nil at ne) hv)
match_param_complete key (c ∷ cs) v ne ks hv =
    let other : (c == b'=') ≡ false = ground (arith, ks.0) in
    rw other (
      match_param_complete (key ++ (c ∷ [])) cs v (rw append_assoc ne) ks.1 hv
      ∙ ap (λ (t : Bytes). some (t, v)) (append_assoc key (c ∷ []) cs))

match_param_sound :
    (key s k v : Bytes)
    → match_param key s ≡ some (k, v)
    → (front : Bytes) × (k ≡ key ++ front)
      × (s ≡ front ++ (b'=' ∷ v))
      × (k ≢ [])
      × All (λ c. c ≢ b'=') front
      × IsValue v
unfolding match_param
match_param_sound key [] k v e = cc
match_param_sound key (c ∷ cs) k v e = elim (Bool-cases (c == b'=')) [
  | inl hit ↦
      let (whole, same, ne, good) = end_of_key-inv key cs k v (rw hit at e) in
      let eq : c ≡ b'=' = ground arith in
      ([], sym whole ∙ sym (append-nil key), rw (eq, same), ne, tt, good)
  | inr miss ↦
      let (front, whole, split, ne, free, good) =
        match_param_sound (key ++ (c ∷ [])) cs k v (rw miss at e) in
      (
        c ∷ front,
        whole ∙ append_assoc key (c ∷ []) front,
        ap (λ (t : Bytes). c ∷ t) split,
        ne,
        (ground arith, free),
        good,
      )
]

-- A word is taken for a parameter exactly when it is `=`, a key, `=` and a value, where the key has
-- a character at least and no `=`, and the value has no zero byte; the groups are key and value.
pub param_groups_iff :
    (s k v : Bytes)
    → (param_groups s ≡ some (k, v)) ↔ ((s ≡ b'=' ∷ (k ++ (b'=' ∷ v))) × IsKey k × IsValue v)
unfolding param_groups
param_groups_iff [] k v = (λ e. cc, λ h. cc (h.0))
param_groups_iff (c ∷ cs) k v = (there, back)
  where
    there :
        param_groups (c ∷ cs) ≡ some (k, v)
        → (c ∷ cs ≡ b'=' ∷ (k ++ (b'=' ∷ v))) × IsKey k × IsValue v
    there e = elim (Bool-cases (c == b'=')) [
      | inl hit ↦
          let (front, whole, split, ne, free, good) = match_param_sound [] cs k v (rw hit at e) in
          let eq : c ≡ b'=' = (==_iff c b'=').0 hit in
          (rw (eq, split, whole), (ne, rw whole free), good)
      | inr miss ↦ absurd (none-ne-some (rw miss at e))
    ]

    back :
        (c ∷ cs ≡ b'=' ∷ (k ++ (b'=' ∷ v))) × IsKey k × IsValue v
        → param_groups (c ∷ cs) ≡ some (k, v)
    back (split, key, good) =
        let eq : c ≡ b'=' = cc (split) in
        let rest : cs ≡ k ++ (b'=' ∷ v) = cc (split) in
        rw (eq, rest) (match_param_complete [] k v key.0 key.1 good)

drop_prefix_iff : (p s d : Bytes) → (drop_prefix p s ≡ some d) ↔ (s ≡ p ++ d)
drop_prefix_iff [] s d = ground arith
drop_prefix_iff (x ∷ p) [] d = ground arith
drop_prefix_iff (x ∷ p) (c ∷ cs) d = ground (arith, drop_prefix_iff p cs d)

digits_group-some : (d : Bytes) → d ≢ [] → All IsDigit d → digits_group d ≡ some d
digits_group-some [] ne h = absurd (ne refl)
digits_group-some (c ∷ cs) ne h = rw ((every-digit_char (c ∷ cs)).1 h)

digits_group-inv : (s d : Bytes) → digits_group s ≡ some d → (s ≡ d) × (s ≢ []) × All IsDigit s
digits_group-inv [] d e = cc
digits_group-inv (c ∷ cs) d e = elim (Bool-cases (every digit_char (c ∷ cs))) [
  | inl good ↦
      let got : ◌≡◌ {A = Option Bytes} (some (c ∷ cs)) (some d) = rw good at e in
      (cc (got), λ z. cc, (every-digit_char (c ∷ cs)).0 good)
  | inr bad ↦ absurd (none-ne-some (rw bad at e))
]

-- A word is taken for a tag exactly when it is `.tag=` and one or more digits; the group is the
-- digits.
pub tag_group_iff :
    (s d : Bytes) → (tag_group s ≡ some d) ↔ ((s ≡ codes ".tag=" ++ d) × (d ≢ []) × All IsDigit d)
unfolding tag_group
tag_group_iff s d = (there, back)
  where
    there : tag_group s ≡ some d → (s ≡ codes ".tag=" ++ d) × (d ≢ []) × All IsDigit d
    there e = elim (Option-cases (drop_prefix (codes ".tag=") s)) [
      | inl miss ↦ absurd (none-ne-some (rw miss at e))
      | inr (r, hit) ↦
          let (same, ne, good) = digits_group-inv r d (rw hit at e) in
          (
            (drop_prefix_iff (codes ".tag=") s r).0 hit
                ∙ ap (λ (t : Bytes). codes ".tag=" ++ t) same,
            rw (← same) ne,
            rw (← same) good,
          )
    ]

    back : (s ≡ codes ".tag=" ++ d) × (d ≢ []) × All IsDigit d → tag_group s ≡ some d
    back (split, ne, good) =
        rw ((drop_prefix_iff (codes ".tag=") s d).1 split) (digits_group-some d ne good)
