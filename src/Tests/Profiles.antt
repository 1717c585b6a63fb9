-- ===== src/Tests/Profiles.antt =====
-- A profile whose device defaults are overridden in part.
use fake_gpu_operator.Base.{String, ◌≡◌, refl, List, [], ◌∷◌, some}
use fake_gpu_operator.Base.Int.{pos}
use fake_gpu_operator.Profile.Yaml.{Fields, end, field, object, str, int, get, put}
use fake_gpu_operator.Profile.{merge}
use fake_gpu_operator.Profile.Paths.{AreWellKeyed, entry_at, override_at, merge-override_at}

abbrev base : Fields
base =
    field "device_defaults"
      (object (field "name" (str "A100") (field "architecture" (str "ampere") end)))
      (field "device_count" (int (pos 8)) end)

abbrev overrides : Fields
overrides = field "device_defaults" (object (field "name" (str "T4") end)) end

merged :
    merge base overrides
    ≡ field "device_defaults"
        (object (field "name" (str "T4") (field "architecture" (str "ampere") end)))
        (field "device_count" (int (pos 8)) end)
unfolding merge put get
merged = refl

overrides-AreWellKeyed : AreWellKeyed overrides
unfolding get
overrides-AreWellKeyed = (refl, (refl, tt, tt), tt)

abbrev architecture : List String
architecture = "device_defaults" ∷ "architecture" ∷ []

-- The overrides' map of defaults does not hide the base's architecture.
kept : override_at architecture (some (object base)) (some (object overrides)) ≡ some (str "ampere")
unfolding get
kept = refl

merge-override_at_example :
    entry_at architecture (some (object (merge base overrides)))
    ≡ override_at architecture (some (object base)) (some (object overrides))
merge-override_at_example = merge-override_at architecture base overrides overrides-AreWellKeyed
