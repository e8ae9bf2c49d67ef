-- ===== src/Privacy/Clean.antt =====
-- What it means that a payload holds no raw content at any depth, and that the recursive scan of
-- truepresence/sdk/privacy.py decides it.
use true_presence_ese.Base.{ℕ, ◌+◌, ◌≡◌, false}
use true_presence_ese.Base.Text.{Text}
use true_presence_ese.Json.{
  Value, null, bool, num, str, arr, obj, Items, nil, cons, Fields, end, field,
}
use true_presence_ese.Privacy.Keys.{is_forbidden}
use true_presence_ese.Privacy.Scan.{child_or_root, item_path, global_scan, scan_items, scan_fields}
use true_presence_ese.Privacy.Decides.{
  Decides, Decides-nothing, Decides-then, Decides-refuse, Decides-iff,
}

module _ (wide : ℕ → Text) {N : Type 0} where
  -- No field at any depth has a forbidden key.
  abbrev mutual
    pub IsClean : Value N → Type 0
    IsClean null = Unit
    IsClean (bool b) = Unit
    IsClean (num n) = Unit
    IsClean (str s) = Unit
    IsClean (arr items) = AreClean items
    IsClean (obj fields) = HasCleanFields fields

    pub AreClean : Items N → Type 0
    AreClean nil = Unit
    AreClean (cons item items) = IsClean item × AreClean items

    pub HasCleanFields : Fields N → Type 0
    HasCleanFields end = Unit
    HasCleanFields (field key value fields) =
        (is_forbidden wide key value ≡ false) × IsClean value × HasCleanFields fields

  mutual
    unfolding global_scan

    global_scan-Decides_at :
        (v : Value N) (path : Text) → Decides (global_scan wide v path) (IsClean v)
    global_scan-Decides_at null path = Decides-nothing
    global_scan-Decides_at (bool b) path = Decides-nothing
    global_scan-Decides_at (num n) path = Decides-nothing
    global_scan-Decides_at (str s) path = Decides-nothing
    global_scan-Decides_at (arr items) path = scan_items-Decides items 0 path
    global_scan-Decides_at (obj fields) path = scan_fields-Decides fields path

    scan_items-Decides :
        (items : Items N) (i : ℕ) (path : Text)
        → Decides (scan_items wide items i path) (AreClean items)
    scan_items-Decides nil i path = Decides-nothing
    scan_items-Decides (cons item items) i path =
        Decides-then (global_scan-Decides_at item (item_path path i))
          (scan_items-Decides items (i + 1) path)

    scan_fields-Decides :
        (fields : Fields N) (path : Text)
        → Decides (scan_fields wide fields path) (HasCleanFields fields)
    scan_fields-Decides end path = Decides-nothing
    scan_fields-Decides (field key value fields) path =
        Decides-iff (λ p. (p.0.0, p.0.1, p.1)) (λ p. ((p.0, p.1), p.2))
          (Decides-then
            (Decides-refuse (is_forbidden wide key value) (child_or_root path key)
              (global_scan-Decides_at value (child_or_root path key)))
            (scan_fields-Decides fields path))

  pub global_scan-Decides :
      (v : Value N) (path : Text) → Decides (global_scan wide v path) (IsClean v)
  global_scan-Decides v path = global_scan-Decides_at v path
