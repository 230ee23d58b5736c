-- ===== src/RouterOs/Api/Tags.antt =====
-- The tags that a connection gives to its requests.
use tiksrv.Base.{ℕ, zero, suc, ◌+◌, ◌%◌, ◌^◌, ◌<◌, ◌≡◌, ◌≢◌, sym, ◌∙◌, arith}
use tiksrv.RouterOs.Api.State.{Api, aquire_unique_tag}

abbrev pub after_tags : ℕ → Api → Api
unfolding aquire_unique_tag
after_tags zero a = a
after_tags (suc i) a = after_tags i ((aquire_unique_tag a).1)

-- The tag that comes after `i` others.
abbrev pub nth_tag : ℕ → Api → ℕ
unfolding aquire_unique_tag
nth_tag i a = (aquire_unique_tag (after_tags i a)).0

nth_tag_lem :
    (i : ℕ) (a : Api) → a.current_tag < 2 ^ 32 → nth_tag i a ≡ (a.current_tag + i) % 2 ^ 32
unfolding aquire_unique_tag after_tags nth_tag
nth_tag_lem zero a h = omega arith
nth_tag_lem (suc i) a h =
    nth_tag_lem i (record a { current_tag = (a.current_tag + 1) % 2 ^ 32 }) (omega arith)
    ∙ omega arith

-- Of any 2 ^ 32 requests that a connection makes one after the other, no two have the same tag, and
-- the request after those has the tag of the first again. This holds for a counter of 32 bits.
pub aquire_unique_tag-distinct :
    (a : Api) (i j : ℕ)
    → a.current_tag < 2 ^ 32
    → i < j
    → (j < i + 2 ^ 32 → nth_tag i a ≢ nth_tag j a) × (nth_tag (i + 2 ^ 32) a ≡ nth_tag i a)
unfolding aquire_unique_tag after_tags nth_tag
aquire_unique_tag-distinct a i j h lt = (
  λ near same. omega (arith, sym (nth_tag_lem i a h) ∙ same ∙ nth_tag_lem j a h),
  nth_tag_lem (i + 2 ^ 32) a h ∙ omega arith ∙ sym (nth_tag_lem i a h),
)
