-- ===== src/NodeLabels/Sanitize.antt =====
-- What sanitizeLabelValue promises: a value that Kubernetes takes.
use fake_gpu_operator.Base.{
  ℕ, zero, suc, ◌≤◌, ◌≡◌, refl, Bool, true, false, inl, inr, List, [], ◌∷◌, length, All, arith,
  Bool-cases, leb, leb→le, if◌then◌else◌,
}
use fake_gpu_operator.NodeLabels.{
  is_alphanumeric, is_label_char, replace_invalid, take, trim_left, trim_right, limit,
  sanitize_label_value,
}

abbrev pub IsLabelText : List ℕ → Type 0
IsLabelText = All (λ c. is_label_char c ≡ true)

abbrev pub last_is_alphanumeric : List ℕ → Bool
last_is_alphanumeric [] = true
last_is_alphanumeric (c ∷ []) = is_alphanumeric c
last_is_alphanumeric (c ∷ d ∷ ds) = last_is_alphanumeric (d ∷ ds)

abbrev pub first_is_alphanumeric : List ℕ → Bool
first_is_alphanumeric [] = true
first_is_alphanumeric (c ∷ cs) = is_alphanumeric c

-- The label values that Kubernetes takes: at most 63 characters, all of them valid, the first and
-- the last a letter or a digit.
abbrev pub IsLabelValue : List ℕ → Type 0
IsLabelValue cs =
    (length cs ≤ 63)
    × IsLabelText cs
    × (first_is_alphanumeric cs ≡ true)
    × (last_is_alphanumeric cs ≡ true)

replace_invalid-IsLabelText : (cs : List ℕ) → IsLabelText (replace_invalid cs)
unfolding replace_invalid
replace_invalid-IsLabelText [] = tt
replace_invalid-IsLabelText (c ∷ cs) = (ground arith, replace_invalid-IsLabelText cs)

-- A text that is no longer than another and has no invalid character if the other has none.
abbrev Shortens : List ℕ → List ℕ → Type 0
Shortens cs ds = (length cs ≤ length ds) × (IsLabelText ds → IsLabelText cs)

take-length : (n : ℕ) (cs : List ℕ) → length (take n cs) ≤ n
unfolding take
take-length zero cs = omega arith
take-length (suc n) [] = omega arith
take-length (suc n) (c ∷ cs) = omega (arith, take-length n cs)

take-IsLabelText : (n : ℕ) (cs : List ℕ) → IsLabelText cs → IsLabelText (take n cs)
unfolding take
take-IsLabelText zero cs h = tt
take-IsLabelText (suc n) [] h = tt
take-IsLabelText (suc n) (c ∷ cs) (v, h) = (v, take-IsLabelText n cs h)

limit_lem : (cs : List ℕ) → IsLabelText cs → (length (limit cs) ≤ 63) × IsLabelText (limit cs)
limit_lem cs h = elim (Bool-cases (leb (length cs) 63)) [
  | inl e ↦ rw e (leb→le _ _ e, h)
  | inr e ↦ rw e (take-length 63 cs, take-IsLabelText 63 cs h)
]

kept_or_trimmed :
    (keep : Bool) (c : ℕ) (cs rest : List ℕ)
    → Shortens rest cs
    → Shortens (if keep then c ∷ cs else rest) (c ∷ cs)
kept_or_trimmed true c cs rest h = (omega arith, λ v. v)
kept_or_trimmed false c cs rest (shorter, valid) = (omega (arith, shorter), λ (v, h). valid h)

trim_left-Shortens : (cs : List ℕ) → Shortens (trim_left cs) cs
unfolding trim_left
trim_left-Shortens [] = (omega arith, λ h. tt)
trim_left-Shortens (c ∷ cs) =
    kept_or_trimmed (is_alphanumeric c) c cs (trim_left cs) (trim_left-Shortens cs)

trim_left-first : (cs : List ℕ) → first_is_alphanumeric (trim_left cs) ≡ true
unfolding trim_left
trim_left-first [] = refl
trim_left-first (c ∷ cs) = elim (Bool-cases (is_alphanumeric c)) [
  | inl e ↦ rw e e
  | inr e ↦ rw e (trim_left-first cs)
]

-- Trimming on the right keeps the first character where it leaves any.
abbrev Trimmed : List ℕ → List ℕ → Type 0
Trimmed cs ds =
    Shortens cs ds
    × (first_is_alphanumeric ds ≡ true → first_is_alphanumeric cs ≡ true)
    × (last_is_alphanumeric cs ≡ true)

last-Trimmed :
    (keep : Bool) (c : ℕ) (cs : List ℕ)
    → is_alphanumeric c ≡ keep
    → Trimmed (if keep then c ∷ [] else []) (c ∷ cs)
last-Trimmed true c cs e = ((omega arith, λ (v, h). (v, tt)), (λ h. h), e)
last-Trimmed false c cs e = ((omega arith, λ h. tt), (λ h. refl), refl)

trim_right-Trimmed : (cs : List ℕ) → Trimmed (trim_right cs) cs
unfolding trim_right
trim_right-Trimmed [] = ((omega arith, λ h. tt), (λ h. h), refl)
trim_right-Trimmed (c ∷ cs) = go (trim_right cs) (trim_right-Trimmed cs)
  where
    go :
        (rest : List ℕ)
        → Trimmed rest cs
        → Trimmed
            (elim rest [ [] ↦ if is_alphanumeric c then c ∷ [] else [] | d ∷ ds ↦ c ∷ d ∷ ds ])
            (c ∷ cs)
    go [] t = last-Trimmed (is_alphanumeric c) c cs refl
    go (d ∷ ds) ((shorter, valid), first, last) =
        ((omega (arith, shorter), λ (v, h). (v, valid h)), (λ h. h), last)

-- Every text is sanitized to a label value that Kubernetes takes.
pub sanitize_label_value-IsLabelValue : (cs : List ℕ) → IsLabelValue (sanitize_label_value cs)
unfolding sanitize_label_value
sanitize_label_value-IsLabelValue cs =
    let (short, valid) = limit_lem (replace_invalid cs) (replace_invalid-IsLabelText cs) in
    let (shorter, still) = trim_left-Shortens (limit (replace_invalid cs)) in
    let ((shortest, kept), first, last) =
      trim_right-Trimmed (trim_left (limit (replace_invalid cs))) in
    (
      omega (arith, short, shorter, shortest),
      kept (still valid),
      first (trim_left-first (limit (replace_invalid cs))),
      last,
    )
