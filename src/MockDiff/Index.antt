-- ===== src/MockDiff/Index.antt =====
-- The maps by name of the comparison: which object stands under a name.
use fake_gpu_operator.Base.{
  String, ◌≡◌, refl, sym, subst, Bool, true, false, ap, ◌∙◌, Option, none, some, List, [], ◌∷◌,
  ◌==◌, if◌then◌else◌, eq_iff, eq_refl, Bool-cases, inl, inr, All, arith,
}
use fake_gpu_operator.Base.Dict.{Dict, lookup, insert, lookup-insert}
use fake_gpu_operator.MockDiff.{by_name}

module _ {V : Type 0} where
  -- Each key once, as in a Go map.
  abbrev pub HasDistinctKeys : Dict V → Type 0
  HasDistinctKeys [] = Unit
  HasDistinctKeys ((key, value) ∷ entries) = (lookup key entries ≡ none) × HasDistinctKeys entries

  insert_fresh :
      (k j : String) (v : V) (m : Dict V)
      → (j == k) ≡ false
      → lookup j m ≡ none
      → lookup j (insert k v m) ≡ none
  insert_fresh k j v m ne fresh = lookup-insert k j v m ∙ ground (arith, eq_iff k j, eq_iff j k)

  pub insert-HasDistinctKeys :
      (k : String) (v : V) (m : Dict V) → HasDistinctKeys m → HasDistinctKeys (insert k v m)
  unfolding insert lookup
  insert-HasDistinctKeys k v [] d = (refl, tt)
  insert-HasDistinctKeys k v ((j, w) ∷ m) (fresh, d) = elim (Bool-cases (j == k)) [
    | inl e ↦ rw e (ap (λ i. lookup i m) (sym ((eq_iff j k).0 e)) ∙ fresh, d)
    | inr e ↦ rw e (insert_fresh k j v m e fresh, insert-HasDistinctKeys k v m d)
  ]

  later :
      (k key : String) (v want : V) (m : Dict V)
      → lookup k m ≡ none
      → lookup key m ≡ some want
      → lookup key ((k, v) ∷ m) ≡ some want
  unfolding lookup
  later k key v want m fresh found = elim (Bool-cases (k == key)) [
    | inl e ↦ let same = (eq_iff k key).0 e in cc
    | inr e ↦ rw e found
  ]

  -- What holds of the value under each key holds of all entries.
  pub lookup-All :
      (P : String × V → Type 0) (m : Dict V)
      → HasDistinctKeys m
      → ((key : String) (want : V) → lookup key m ≡ some want → P (key, want))
      → All P m
  unfolding lookup
  lookup-All P [] d h = tt
  lookup-All P ((k, v) ∷ m) (fresh, d) h = (
    h k v (rw (eq_refl k) refl),
    lookup-All P m d (λ key want found. h key want (later k key v want m fresh found)),
  )

  pub All-lookup :
      (P : String × V → Type 0) (m : Dict V)
      → All P m
      → (key : String) (want : V) → lookup key m ≡ some want
      → P (key, want)
  unfolding lookup
  All-lookup P [] all key want found = cc
  All-lookup P ((k, v) ∷ m) (p, all) key want found = elim (Bool-cases (k == key)) [
    | inl e ↦
        let is : v ≡ want = cc (rw e at found) in
        subst (λ j. P (j, want)) ((eq_iff k key).0 e) (subst (λ o. P (k, o)) is p)
    | inr e ↦ All-lookup P m all key want (rw e at found)
  ]

abbrev pub or_else : {O : Type 0} → Option O → Option O → Option O
or_else none other = other
or_else (some o) other = some o

module _ {O : Type 0} (name : O → String) (needs_update : O → O → Bool) (stamp : O → O → O) where
  -- The last object of a name.
  abbrev pub last_named : String → List O → Option O
  last_named key [] = none
  last_named key (o ∷ os) = or_else (last_named key os) (if name o == key then some o else none)

  or_else-step :
      (later first : Option O) (same : Bool) (o : O)
      → or_else later (if same then some o else first)
        ≡ or_else (or_else later (if same then some o else none)) first
  or_else-step none first true o = refl
  or_else-step none first false o = refl
  or_else-step (some l) first same o = refl

  pub lookup-by_name :
      (key : String) (os : List O) (m : Dict O)
      → lookup key (by_name name needs_update stamp os m)
        ≡ or_else (last_named key os) (lookup key m)
  unfolding by_name
  lookup-by_name key [] m = refl
  lookup-by_name key (o ∷ os) m =
      lookup-by_name key os (insert (name o) o m)
      ∙ ap (or_else (last_named key os)) (lookup-insert (name o) key o m)
      ∙ or_else-step (last_named key os) (lookup key m) (name o == key) o

  pub by_name-HasDistinctKeys :
      (os : List O) (m : Dict O)
      → HasDistinctKeys m
      → HasDistinctKeys (by_name name needs_update stamp os m)
  unfolding by_name
  by_name-HasDistinctKeys [] m d = d
  by_name-HasDistinctKeys (o ∷ os) m d =
      by_name-HasDistinctKeys os (insert (name o) o m) (insert-HasDistinctKeys (name o) o m d)

  or_else-none : (o : Option O) → or_else o none ≡ o
  or_else-none none = refl
  or_else-none (some o) = refl

  -- Under each name the map has the last object of that name.
  pub lookup-by_name_last :
      (key : String) (os : List O)
      → lookup key (by_name name needs_update stamp os []) ≡ last_named key os
  unfolding lookup
  lookup-by_name_last key os = lookup-by_name key os [] ∙ or_else-none (last_named key os)
