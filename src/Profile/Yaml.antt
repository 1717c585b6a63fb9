-- ===== src/Profile/Yaml.antt =====
-- Untyped YAML values, the `map[string]interface{}` of internal/common/profile/profile.go and of
-- internal/common/topology/normalize.go and resolve.go.
use fake_gpu_operator.Base.{
  ℕ, zero, suc, String, Bool, Option, none, some, ◌==◌, ◌≡◌, if◌then◌else◌, arith, eq_iff, refl, ap,
}
use fake_gpu_operator.Base.Int.{ℤ}

-- Of a float64 the code reads only the integral part, rounded towards zero, which is the first
-- argument; the second stands for the fraction and is only copied.
mutual
  pub data Value : Type 0 where
    null : Value
    boolean : Bool → Value
    str : String → Value
    int : ℤ → Value
    int64 : ℤ → Value
    float64 : ℤ → ℕ → Value
    array : Values → Value
    object : Fields → Value

  pub data Values : Type 0 where
    nil : Values
    cons : Value → Values → Values

  pub data Fields : Type 0 where
    end : Fields
    field : String → Value → Fields → Fields

-- m[key]
unfoldable pub get : String → Fields → Option Value
get k end = none
get k (field j v m) = if j == k then some v else get k m

-- m[key] = value
unfoldable pub put : String → Value → Fields → Fields
put k v end = field k v end
put k v (field j w m) = let rest = put k v m in if j == k then field k v m else field j w rest

abbrev pub length_values : Values → ℕ
length_values nil = 0
length_values (cons v vs) = suc (length_values vs)

-- `n` copies of one value.
abbrev pub replicate_values : ℕ → Value → Values
replicate_values zero v = nil
replicate_values (suc n) v = cons v (replicate_values n v)

pub length_values-replicate_values : (n : ℕ) (v : Value) → length_values (replicate_values n v) ≡ n
length_values-replicate_values zero v = refl
length_values-replicate_values (suc n) v = ap suc (length_values-replicate_values n v)

pub get-put :
    (k j : String) (v : Value) (m : Fields)
    → get j (put k v m) ≡ (if k == j then some v else get j m)
unfolding get put
get-put k j v end = refl
get-put k j v (field i w m) = ground (arith, eq_iff k j, eq_iff i k, eq_iff i j, get-put k j v m)

-- Each key once, as in a Go map.
abbrev pub DistinctKeys : Fields → Type 0
DistinctKeys end = Unit
DistinctKeys (field k v m) = (get k m ≡ none) × DistinctKeys m
