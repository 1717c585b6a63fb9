-- ===== src/Profile/Paths.antt =====
-- What a merged profile holds at each path of keys, however deep.
use fake_gpu_operator.Base.{
  String, ◌≡◌, refl, ap, ◌∙◌, subst, inl, inr, Option, none, some, List, [], ◌∷◌, ◌==◌, ◌⊎◌,
  Bool-cases,
}
use fake_gpu_operator.Profile.Yaml.{
  Value, null, boolean, str, int, int64, float64, array, object, Fields, end, field, get,
  DistinctKeys,
}
use fake_gpu_operator.Profile.{merge, merge_value}
use fake_gpu_operator.Profile.Merge.{merged_value, merge_lem}

-- The maps of a value have each key once, as Go maps do.
abbrev mutual
  pub WellKeyed : Value → Type 0
  WellKeyed (object m) = AreWellKeyed m
  WellKeyed null = Unit
  WellKeyed (boolean b) = Unit
  WellKeyed (str s) = Unit
  WellKeyed (int n) = Unit
  WellKeyed (int64 n) = Unit
  WellKeyed (float64 n f) = Unit
  WellKeyed (array vs) = Unit

  pub AreWellKeyed : Fields → Type 0
  AreWellKeyed end = Unit
  AreWellKeyed (field key value rest) = (get key rest ≡ none) × WellKeyed value × AreWellKeyed rest

abbrev HoldsWellKeyed : Option Value → Type 0
HoldsWellKeyed none = Unit
HoldsWellKeyed (some value) = WellKeyed value

AreWellKeyed-DistinctKeys : (m : Fields) → AreWellKeyed m → DistinctKeys m
AreWellKeyed-DistinctKeys end w = tt
AreWellKeyed-DistinctKeys (field key value rest) (fresh, v, w) =
    (fresh, AreWellKeyed-DistinctKeys rest w)

get-HoldsWellKeyed : (k : String) (m : Fields) → AreWellKeyed m → HoldsWellKeyed (get k m)
unfolding get
get-HoldsWellKeyed k end w = tt
get-HoldsWellKeyed k (field key value rest) (fresh, v, w) = elim (Bool-cases (key == k)) [
  | inl e ↦ rw e v
  | inr e ↦ rw e (get-HoldsWellKeyed k rest w)
]

-- Of a map it is only told that it is one.
abbrev pub outline : Value → Value
outline (object m) = object end
outline v = v

abbrev pub fields_of : Value → Fields
fields_of (object m) = m
fields_of v = end

-- What is found from a value along a path of keys.
abbrev pub entry_at : List String → Option Value → Option Value
entry_at path none = none
entry_at [] (some v) = some (outline v)
entry_at (key ∷ path) (some v) = entry_at path (get key (fields_of v))

abbrev pub both_maps : Value → Option Value → Option (Fields × Fields)
both_maps (object overrides) (some (object base)) = some (base, overrides)
both_maps _ _ = none

-- What is to be found: along the maps that both sides have, the value of the overrides, or where they
-- have none that of the base.
abbrev pub override_at : List String → Option Value → Option Value → Option Value
override_at path base none = entry_at path base
override_at [] base (some v) = some (outline v)
override_at (key ∷ path) base (some v) = elim (both_maps v base) [
  | none ↦ entry_at (key ∷ path) (some v)
  | some (b, o) ↦ override_at path (get key b) (get key o)
]

-- Either both values are maps, or the override replaces the base.
merge_value-cases :
    (v : Value) (base : Option Value)
    → ((b o : Fields) × (v ≡ object o) × (base ≡ some (object b)))
      ⊎ ((both_maps v base ≡ none) × (merge_value base v ≡ v))
unfolding merge_value
merge_value-cases null base = inr (refl, refl)
merge_value-cases (boolean b) base = inr (refl, refl)
merge_value-cases (str s) base = inr (refl, refl)
merge_value-cases (int n) base = inr (refl, refl)
merge_value-cases (int64 n) base = inr (refl, refl)
merge_value-cases (float64 n f) base = inr (refl, refl)
merge_value-cases (array vs) base = inr (refl, refl)
merge_value-cases (object o) none = inr (refl, refl)
merge_value-cases (object o) (some null) = inr (refl, refl)
merge_value-cases (object o) (some (boolean b)) = inr (refl, refl)
merge_value-cases (object o) (some (str s)) = inr (refl, refl)
merge_value-cases (object o) (some (int n)) = inr (refl, refl)
merge_value-cases (object o) (some (int64 n)) = inr (refl, refl)
merge_value-cases (object o) (some (float64 n f)) = inr (refl, refl)
merge_value-cases (object o) (some (array vs)) = inr (refl, refl)
merge_value-cases (object o) (some (object b)) = inl (b, o, refl, refl)

outline-merge_value : (base : Option Value) (v : Value) → outline (merge_value base v) ≡ outline v
unfolding merge_value
outline-merge_value base v = elim (merge_value-cases v base) [
  | inl (b, o, is, was) ↦ rw (is, was) refl
  | inr (apart, replaced) ↦ ap outline replaced
]

merged_value-override_at :
    (path : List String) (base over : Option Value)
    → HoldsWellKeyed over
    → entry_at path (merged_value over base) ≡ override_at path base over
unfolding merge_value
merged_value-override_at path base none w = refl
merged_value-override_at [] base (some v) w = ap some (outline-merge_value base v)
merged_value-override_at (key ∷ path) base (some v) w = elim (merge_value-cases v base) [
  | inl (b, o, is, was) ↦
      let keyed : AreWellKeyed o = subst WellKeyed is w in
      rw (is, was)
        (ap (entry_at path) (merge_lem key b o (AreWellKeyed-DistinctKeys o keyed))
          ∙ merged_value-override_at path (get key b) (get key o) (get-HoldsWellKeyed key o keyed))
  | inr (apart, replaced) ↦ rw (override_at, apart, replaced) refl
]

-- At each path of keys, however deep, the merged profile has what the overrides have there, or where
-- they have nothing what the base has, along the maps that both have; a value of the overrides replaces
-- one that is not a map, and a map that stands over no map. The overrides' maps have distinct keys.
pub merge-override_at :
    (path : List String) (base overrides : Fields)
    → AreWellKeyed overrides
    → entry_at path (some (object (merge base overrides)))
      ≡ override_at path (some (object base)) (some (object overrides))
unfolding merge_value
merge-override_at path base overrides w =
    merged_value-override_at path (some (object base)) (some (object overrides)) w
