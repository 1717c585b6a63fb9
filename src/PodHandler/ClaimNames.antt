-- ===== src/PodHandler/ClaimNames.antt =====
-- The names of the resource claims of a pod.
use fake_gpu_operator.Base.{
  String, ◌≡◌, refl, ap, ◌∙◌, inl, inr, Bool-cases, Bool, true, false, not, ◌&&◌, ◌||◌, List, [],
  ◌∷◌, ◌++◌, none, some, Option, All, ◌==◌, if◌then◌else◌, arith, eq_iff,
}
use fake_gpu_operator.Platform.{Pod}
use fake_gpu_operator.PodHandler.Dra.{
  contains_name, add_claim_names, get_resource_claim_names_from_pod,
}

abbrev pub distinct_names : List String → Bool
distinct_names [] = true
distinct_names (n ∷ ns) = not (contains_name n ns) && distinct_names ns

-- Names that are distinct and not empty.
abbrev pub AreClaimNames : List String → Type 0
AreClaimNames ns = (distinct_names ns ≡ true) × All (λ n. (n == "") ≡ false) ns

contains_name-append :
    (y x : String) (ns : List String)
    → contains_name y (ns ++ x ∷ []) ≡ (contains_name y ns || (x == y))
contains_name-append y x [] = ground arith
contains_name-append y x (n ∷ ns) = ground (arith, contains_name-append y x ns)

distinct_names-append :
    (x : String) (ns : List String)
    → contains_name x ns ≡ false
    → distinct_names ns ≡ true
    → distinct_names (ns ++ x ∷ []) ≡ true
distinct_names-append x [] h d = refl
distinct_names-append x (n ∷ ns) h d =
    ground (arith, eq_iff n x, eq_iff x n, contains_name-append n x ns, distinct_names-append x ns)

All-append :
    (x : String) (ns : List String)
    → (x == "") ≡ false
    → All (λ n. (n == "") ≡ false) ns
    → All (λ n. (n == "") ≡ false) (ns ++ x ∷ [])
All-append x [] h a = (h, tt)
All-append x (n ∷ ns) h (k, a) = (k, All-append x ns h a)

added-AreClaimNames :
    (x : String) (ns : List String) (empty known : Bool)
    → (x == "") ≡ empty
    → contains_name x ns ≡ known
    → AreClaimNames ns
    → AreClaimNames (if empty then ns else if known then ns else ns ++ x ∷ [])
added-AreClaimNames x ns true known e k h = h
added-AreClaimNames x ns false true e k h = h
added-AreClaimNames x ns false false e k (d, a) =
    (distinct_names-append x ns k d, All-append x ns e a)

add_claim_names-AreClaimNames :
    (claims : List (Option String)) (seen : List String)
    → AreClaimNames seen
    → AreClaimNames (add_claim_names claims seen)
unfolding add_claim_names
add_claim_names-AreClaimNames [] seen h = h
add_claim_names-AreClaimNames (none ∷ claims) seen h = add_claim_names-AreClaimNames claims seen h
add_claim_names-AreClaimNames (some x ∷ claims) seen h =
    add_claim_names-AreClaimNames claims _
      (added-AreClaimNames x seen (x == "") (contains_name x seen) refl refl h)

or_false : (b : Bool) → b ≡ (b || false)
or_false b = ground arith

or_assoc : (a b c : Bool) → ((a || b) || c) ≡ (a || (b || c))
or_assoc a b c = ground arith

-- Some entry has the name.
abbrev pub mentions : String → List (Option String) → Bool
mentions x [] = false
mentions x (none ∷ claims) = mentions x claims
mentions x (some y ∷ claims) = y == x || mentions x claims

added-contains_name :
    (x y : String) (ns : List String) (empty known : Bool)
    → (y == "") ≡ empty
    → contains_name y ns ≡ known
    → (x == "") ≡ false
    → contains_name x (if empty then ns else if known then ns else ns ++ y ∷ [])
      ≡ (contains_name x ns || (y == x))
added-contains_name x y ns true known e k ne = ground (arith, eq_iff y x, eq_iff y "", eq_iff x "")
added-contains_name x y ns false true e k ne = elim (Bool-cases (y == x)) [
  | inl same ↦ rw (same, ← (eq_iff y x).0 same, k) refl
  | inr other ↦ rw other (or_false (contains_name x ns))
]
added-contains_name x y ns false false e k ne = contains_name-append x y ns

add_claim_names-mentions :
    (x : String) (claims : List (Option String)) (seen : List String)
    → (x == "") ≡ false
    → contains_name x (add_claim_names claims seen) ≡ (contains_name x seen || mentions x claims)
unfolding add_claim_names
add_claim_names-mentions x [] seen ne = or_false (contains_name x seen)
add_claim_names-mentions x (none ∷ claims) seen ne = add_claim_names-mentions x claims seen ne
add_claim_names-mentions x (some y ∷ claims) seen ne =
    add_claim_names-mentions x claims _ ne
    ∙ ap (λ b. b || mentions x claims)
        (added-contains_name x y seen (y == "") (contains_name y seen) refl refl ne)
    ∙ or_assoc (contains_name x seen) (y == x) (mentions x claims)

-- The claims that are looked up are those that the pod or its status names, each once, and none
-- under an empty name.
pub get_resource_claim_names_from_pod-AreClaimNames :
    (pod : Pod)
    → AreClaimNames (get_resource_claim_names_from_pod pod)
      × ((x : String)
          → (x == "") ≡ false
          → contains_name x (get_resource_claim_names_from_pod pod)
            ≡ (mentions x pod.resource_claim_statuses || mentions x pod.resource_claims))
unfolding get_resource_claim_names_from_pod
get_resource_claim_names_from_pod-AreClaimNames pod = (
  add_claim_names-AreClaimNames pod.resource_claims _
      (add_claim_names-AreClaimNames pod.resource_claim_statuses [] (refl, tt)),
  λ x ne.
      add_claim_names-mentions x pod.resource_claims _ ne
      ∙ ap (λ b. b || mentions x pod.resource_claims)
          (add_claim_names-mentions x pod.resource_claim_statuses [] ne),
)
