-- ===== src/Profile/Merge.antt =====
-- What a merged profile holds under each key.
use fake_gpu_operator.Base.{
  String, ◌≡◌, refl, ap, ◌∙◌, inl, inr, Option, none, some, ◌==◌, if◌then◌else◌, eq_iff, Bool-cases,
}
use fake_gpu_operator.Profile.Yaml.{Value, Fields, end, field, get, put, get-put, DistinctKeys}
use fake_gpu_operator.Profile.{merge, merge_value}

-- The value under a key that the overrides and the base have a value for, or not.
abbrev pub merged_value : Option Value → Option Value → Option Value
merged_value none base = base
merged_value (some value) base = some (merge_value base value)

same_key :
    (key k : String) (value : Value) (base rest : Fields)
    → key ≡ k
    → get key rest ≡ none
    → merged_value (get k rest) (some (merge_value (get key base) value))
      ≡ some (merge_value (get k base) value)
same_key key k value base rest q fresh = rw (← q, fresh) refl

first_key :
    (key k : String) (value : Value) (base rest : Fields)
    → get key rest ≡ none
    → merged_value
        (get k rest)
        (if key == k then some (merge_value (get key base) value) else get k base)
      ≡ merged_value (if key == k then some value else get k rest) (get k base)
first_key key k value base rest fresh = elim (Bool-cases (key == k)) [
  | inl e ↦ rw e (same_key key k value base rest ((eq_iff key k).0 e) fresh)
  | inr e ↦ rw e refl
]

-- Under each key the merged profile holds what the base holds if the overrides have nothing there,
-- and else the merge of the two values: overrides with distinct keys are all applied, and no other
-- key of the base changes.
pub merge_lem :
    (k : String) (base overrides : Fields)
    → DistinctKeys overrides
    → get k (merge base overrides) ≡ merged_value (get k overrides) (get k base)
unfolding merge get
merge_lem k base end d = refl
merge_lem k base (field key value rest) (fresh, d) =
    merge_lem k (put key (merge_value (get key base) value) base) rest d
    ∙ ap (merged_value (get k rest)) (get-put key k (merge_value (get key base) value) base)
    ∙ first_key key k value base rest fresh
