-- ===== src/Base/Replace.antt =====
-- strings.ReplaceAll with two texts of one character.
use Prim.Native.Nat.{ℕ}
use Prim.Native.Char.{code}
use Prim.Native.String.{String, [], ◌∷◌}
use Prim.Native.String
use fake_gpu_operator.Base.Tests.{nat_beq, if◌then◌else◌}

-- By the code of the old character.
unfoldable pub replace_char : ℕ → String → String → String
replace_char old new [] = []
replace_char old new (c ∷ s) =
    let rest = replace_char old new s in
    if nat_beq (code c) old then String.◌++◌ new rest else c ∷ rest
