-- ===== src/Memory/Features.antt =====
-- The features of truepresence/memory/identity_graph.py lie in the unit interval.
use true_presence_ese.Base.{
  ◌*◌, ◌≡◌, true, false, All, Always, arith, Bool-cases, Option-cases, inl, inr,
}
use true_presence_ese.Base.Text.{codes}
use true_presence_ese.Json.{Value, null, bool, num, str, arr, obj, Fields, end, get_or}
use true_presence_ese.Float.{Floats, IsFloats, InUnit, lt, whole, min_f, max_f}
use true_presence_ese.Float.Laws.{min_f-le_right, le-min_f, le-max_f_right, zero_le_one, dec-InUnit}
use true_presence_ese.Memory.IdentityGraph.{
  normalize_feature, as_dict, features_of, extract_features,
}

module _ (o : Floats) (l : IsFloats o) where
  open o use {F, dec, le, div}

  capped-InUnit : (x : F) → le (dec 0) x ≡ true → InUnit o (min_f o x (dec 100))
  capped-InUnit x h =
      (le-min_f o l x (dec 100) (dec 0) h (zero_le_one o l), min_f-le_right o l x (dec 100))

  large-nonneg : (x : F) → lt o (whole o 1000) x ≡ true → le (dec 0) x ≡ true
  large-nonneg x h =
      l.le_trans (dec 0) (whole o 1000) x (l.dec_nonneg (1000 * 100))
        (l.le_total x (whole o 1000) (ground arith))

  pub normalize_feature-InUnit : (v : Value F) → InUnit o (normalize_feature o v)
  unfolding normalize_feature
  normalize_feature-InUnit (num x) = elim (Bool-cases (lt o (whole o 1000) x)) [
    | inl e ↦ rw e (
        capped-InUnit (div x (whole o 10000)) (
          l.div_nonneg x (whole o 10000) (large-nonneg x e)
            (ground (arith, l.le_dec (10000 * 100) 0))))
    | inr e ↦ rw e (capped-InUnit (max_f o x (dec 0)) (le-max_f_right o l x (dec 0)))
  ]
  normalize_feature-InUnit (bool true) = dec-InUnit o l 100 (omega arith)
  normalize_feature-InUnit (bool false) = dec-InUnit o l 0 (omega arith)
  normalize_feature-InUnit null = dec-InUnit o l 50 (omega arith)
  normalize_feature-InUnit (str s) = dec-InUnit o l 50 (omega arith)
  normalize_feature-InUnit (arr items) = dec-InUnit o l 50 (omega arith)
  normalize_feature-InUnit (obj fields) = dec-InUnit o l 50 (omega arith)

  features_of-InUnit :
      (session behavior detection : Fields F)
      → All (InUnit o) (features_of o session behavior detection)
  unfolding features_of
  features_of-InUnit session behavior detection =
      let n = normalize_feature-InUnit in (n _, (n _, (n _, (n _, (n _, (n _, (n _, (n _, tt))))))))

  -- Whatever a session holds, the features that are read from it lie between 0 and 1.
  pub extract_features-InUnit :
      (session : Fields F) → Always (All (InUnit o)) (extract_features o session)
  unfolding extract_features
  extract_features-InUnit session =
      elim (Option-cases (as_dict o (get_or (codes "behavior") (obj end) session))) [
        | inl e ↦ rw (e, extract_features) tt
        | inr b ↦ elim (Option-cases (as_dict o (get_or (codes "detection") (obj end) session))) [
          | inl e ↦ rw (b.1, extract_features) (rw e tt)
          | inr d ↦ rw (b.1, extract_features) (rw d.1 (features_of-InUnit session b.0 d.0))
        ]
      ]
