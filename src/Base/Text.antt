-- ===== src/Base/Text.antt =====
-- The functions of Go's `strings` and `strconv` that the program calls, over ASCII text.
use Prim.Native.Nat.{ℕ, zero, suc, ◌/◌, ◌%◌, ◌+◌, ◌-◌, ◌*◌, ◌^◌}
use Prim.Native.Char.{code}
use Prim.Native.String.{String, compare}
use Prim.Native.String
use mathlib.Core.Bool.{Bool, true, false, ◌&&◌, ◌||◌}
use mathlib.Core.List.{List, [], ◌∷◌}
use mathlib.Core.Option.{Option, none, some}
use text.Mathlib.Text.{starts_with, is_lt}
use fake_gpu_operator.Base.Tests.{leb, ltb, nat_beq, if◌then◌else◌}
use fake_gpu_operator.Base.Lists.{get_elem?}
use fake_gpu_operator.Base.Int.{ℤ, pos, sub_ℕ}

-- The code points of a text: its bytes, if it is ASCII.
abbrev pub codes : String → List ℕ
codes String.[] = []
codes (String.◌∷◌ c s) = code c ∷ codes s

abbrev pub to_lower : ℕ → ℕ
to_lower c = if leb b'A' c && leb c b'Z' then c + 32 else c

abbrev pub fold_eq : List ℕ → List ℕ → Bool
fold_eq [] [] = true
fold_eq (c ∷ cs) (d ∷ ds) = nat_beq (to_lower c) (to_lower d) && fold_eq cs ds
fold_eq _ _ = false

-- strings.EqualFold
unfoldable pub equal_fold : String → String → Bool
equal_fold s t = fold_eq (codes s) (codes t)

-- strings.Contains
unfoldable pub contains : String → String → Bool
contains String.[] t = starts_with String.[] t
contains (String.◌∷◌ c s) t = let rest = contains s t in starts_with (String.◌∷◌ c s) t || rest

abbrev pub is_digit : ℕ → Bool
is_digit c = leb b'0' c && leb c b'9'

abbrev digits : ℕ → List ℕ → Option ℕ
digits n [] = some n
digits n (c ∷ cs) = let rest = digits (n * 10 + (c - b'0')) cs in if is_digit c then rest else none

-- strconv.Atoi on digits without a sign, as `calculateUtilizationFromAnnotation` calls it.
unfoldable pub parse_digits : List ℕ → Option ℕ
parse_digits [] = none
parse_digits (c ∷ cs) = elim (digits 0 (c ∷ cs)) [
  | none ↦ none
  | some n ↦ if ltb n (2 ^ 63) then some n else none
]

-- strconv.Atoi, which takes a sign and fails beyond 64 bits.
abbrev atoi_codes : List ℕ → Option ℤ
atoi_codes [] = none
atoi_codes (c ∷ cs) =
    if nat_beq c b'-'
    then elim cs [
      | [] ↦ none
      | d ∷ ds ↦ elim (digits 0 (d ∷ ds)) [
        | none ↦ none
        | some n ↦ if leb n (2 ^ 63) then some (sub_ℕ 0 n) else none
      ]
    ]
    else if nat_beq c b'+'
    then elim (parse_digits cs) [ none ↦ none | some n ↦ some (pos n) ]
    else elim (parse_digits (c ∷ cs)) [ none ↦ none | some n ↦ some (pos n) ]

unfoldable pub atoi : String → Option ℤ
unfolding parse_digits
atoi s = atoi_codes (codes s)

-- len(bytes.TrimSpace(data)) == 0, over ASCII white space.
abbrev all_space : List ℕ → Bool
all_space [] = true
all_space (c ∷ cs) = (nat_beq c b' ' || (leb 9 c && leb c 13)) && all_space cs

unfoldable pub is_blank : String → Bool
is_blank s = all_space (codes s)

-- `<` on strings.
abbrev pub str_lt : String → String → Bool
str_lt s t = is_lt (compare s t)

abbrev digit_texts : List String
digit_texts = "0" ∷ "1" ∷ "2" ∷ "3" ∷ "4" ∷ "5" ∷ "6" ∷ "7" ∷ "8" ∷ "9" ∷ []

abbrev digit_text : ℕ → String
digit_text n = elim (get_elem? digit_texts n) [ none ↦ "" | some s ↦ s ]

-- The decimal digits of a number in front of a text; fuel above the number is enough.
abbrev decimal_onto : ℕ → ℕ → String → String
decimal_onto zero n s = s
decimal_onto (suc fuel) n s =
    let more = decimal_onto fuel (n / 10) (String.◌++◌ (digit_text (n % 10)) s) in
    if ltb n 10 then String.◌++◌ (digit_text n) s else more

-- strconv.FormatInt(n, 10) of a number that is not negative.
unfoldable pub decimal : ℕ → String
decimal n = decimal_onto (suc n) n ""
