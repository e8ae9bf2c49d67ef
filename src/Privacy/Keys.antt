-- ===== src/Privacy/Keys.antt =====
-- Which keys truepresence/sdk/privacy.py takes for raw content (the helpers of its scans).
use true_presence_ese.Base.{ℕ, ◌≡◌, ap, Bool, false, ◌&&◌, ◌||◌, List, [], ◌∷◌, any}
use true_presence_ese.Base.Text.{Text, codes, mem_text, contains, strip, lower, dash_to_underscore}
use true_presence_ese.Json.{Value, str}
use true_presence_ese.Privacy.Sets.{raw_content_exact, raw_content_fragments, sensitive_input_types}

abbrev pub descriptor_keys : List Text
descriptor_keys = codes "input_type" ∷ codes "field_type" ∷ codes "autocomplete" ∷ []

module _ (wide : ℕ → Text) where
  unfoldable pub normalize_key : Text → Text
  unfolding strip lower dash_to_underscore
  normalize_key key = dash_to_underscore (lower wide (strip key))

  unfoldable pub is_raw_content_key : Text → Bool
  unfolding normalize_key mem_text contains
  is_raw_content_key key =
      let normalized = normalize_key key in
      mem_text normalized raw_content_exact
      || any (λ fragment. contains normalized fragment) raw_content_fragments

module _ (wide : ℕ → Text) {N : Type 0} where
  describes_sensitive : Value N → Bool
  unfolding strip lower mem_text
  describes_sensitive (str s) = mem_text (lower wide (strip s)) sensitive_input_types
  describes_sensitive _ = false

  unfoldable pub is_sensitive_field_descriptor : Text → Value N → Bool
  unfolding normalize_key mem_text describes_sensitive
  is_sensitive_field_descriptor key value =
      mem_text (normalize_key wide key) descriptor_keys && describes_sensitive value

  -- The test that the scans make before they look at a field's value.
  abbrev pub is_forbidden : Text → Value N → Bool
  is_forbidden key value = is_raw_content_key wide key || is_sensitive_field_descriptor key value

  pub not_descriptor-not-sensitive :
      (key : Text) (value : Value N)
      → mem_text (normalize_key wide key) descriptor_keys ≡ false
      → is_sensitive_field_descriptor key value ≡ false
  unfolding is_sensitive_field_descriptor
  not_descriptor-not-sensitive key value h = ap (λ b. b && describes_sensitive value) h
