-- ===== src/Privacy/Strip.antt =====
-- What `strip_raw_content` of truepresence/sdk/privacy.py leaves.
use true_presence_ese.Base.{ℕ, ◌≡◌, refl, ap, ◌↔◌, Bool-cases, inl, inr, subst, List}
use true_presence_ese.Base.Text.{Text}
use true_presence_ese.Json.{
  Value, null, bool, num, str, arr, obj, Items, nil, cons, Fields, end, field,
}
use true_presence_ese.Privacy.Keys.{is_forbidden, is_sensitive_field_descriptor}
use true_presence_ese.Privacy.Scan.{global_scan}
use true_presence_ese.Privacy.Accepts.{global_scan_exact}
use true_presence_ese.Privacy.Guard.{strip_raw_content, strip_items, strip_fields}
use true_presence_ese.Privacy.Clean.{IsClean, AreClean, HasCleanFields}

module _ (wide : ℕ → Text) {N : Type 0} where
  mutual
    unfolding strip_raw_content

    strip-keeps : (v : Value N) → IsClean wide v → strip_raw_content wide v ≡ v
    strip-keeps null h = refl
    strip-keeps (bool b) h = refl
    strip-keeps (num n) h = refl
    strip-keeps (str s) h = refl
    strip-keeps (arr items) h = ap arr (strip_items-keeps items h)
    strip-keeps (obj fields) h = ap obj (strip_fields-keeps fields h)

    strip_items-keeps : (items : Items N) → AreClean wide items → strip_items wide items ≡ items
    strip_items-keeps nil h = refl
    strip_items-keeps (cons item items) h = cc (strip-keeps item h.0, strip_items-keeps items h.1)

    strip_fields-keeps :
        (fields : Fields N) → HasCleanFields wide fields → strip_fields wide fields ≡ fields
    strip_fields-keeps end h = refl
    strip_fields-keeps (field key value fields) h =
        rw h.0 (cc (strip-keeps value h.1, strip_fields-keeps fields h.2))

  -- Stripping a value does not change whether its field is forbidden.
  is_forbidden-strip :
      (key : Text) (v : Value N)
      → is_forbidden wide key (strip_raw_content wide v) ≡ is_forbidden wide key v
  unfolding strip_raw_content is_sensitive_field_descriptor
  is_forbidden-strip key (str s) = refl
  is_forbidden-strip key _ = refl

  mutual
    unfolding strip_raw_content

    strip-IsClean_at : (v : Value N) → IsClean wide (strip_raw_content wide v)
    strip-IsClean_at null = tt
    strip-IsClean_at (bool b) = tt
    strip-IsClean_at (num n) = tt
    strip-IsClean_at (str s) = tt
    strip-IsClean_at (arr items) = strip_items-AreClean items
    strip-IsClean_at (obj fields) = strip_fields-AreClean fields

    strip_items-AreClean : (items : Items N) → AreClean wide (strip_items wide items)
    strip_items-AreClean nil = tt
    strip_items-AreClean (cons item items) = (strip-IsClean_at item, strip_items-AreClean items)

    strip_fields-AreClean : (fields : Fields N) → HasCleanFields wide (strip_fields wide fields)
    strip_fields-AreClean end = tt
    strip_fields-AreClean (field key value fields) =
        elim (Bool-cases (is_forbidden wide key value)) [
          | inl bad ↦ rw bad (strip_fields-AreClean fields)
          | inr good ↦ rw good (
            rw (is_forbidden-strip key value) good,
            strip-IsClean_at value,
            strip_fields-AreClean fields,
          )
        ]

  -- Whatever the payload, what is left after the strip holds no forbidden key at any depth.
  pub strip_raw_content-IsClean : (v : Value N) → IsClean wide (strip_raw_content wide v)
  strip_raw_content-IsClean v = strip-IsClean_at v

  -- The strip leaves a payload as it is exactly when no field at any depth is forbidden.
  pub strip_raw_content-eq_self : (v : Value N) → (strip_raw_content wide v ≡ v) ↔ IsClean wide v
  strip_raw_content-eq_self v =
      ((λ e. subst (IsClean wide) e (strip_raw_content-IsClean v)), (λ c. strip-keeps v c))

  -- The guard's recursive scan finds nothing in what the strip leaves, and a second strip changes
  -- nothing.
  pub global_scan-strip_raw_content :
      (v : Value N) (path : Text) (vs : List Text)
      → (global_scan wide (strip_raw_content wide v) path vs ≡ vs)
        × (strip_raw_content wide (strip_raw_content wide v) ≡ strip_raw_content wide v)
  global_scan-strip_raw_content v path vs =
      let clean = strip_raw_content-IsClean v in
      (
        (global_scan_exact wide (strip_raw_content wide v) path vs).1 clean,
        strip-keeps (strip_raw_content wide v) clean,
      )
