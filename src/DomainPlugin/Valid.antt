-- ===== src/DomainPlugin/Valid.antt =====
-- The invariant of a checkpoint of the compute-domain plugin, and its two updates.
use fake_gpu_operator.Base.{
  ℕ, suc, ◌+◌, ◌≤◌, ◌≡◌, refl, sym, ap, ◌∙◌, String, Bool, true, false, inl, inr, Option, none,
  some, List, [], ◌∷◌, ◌++◌, All, ◌==◌, if◌then◌else◌, arith, eq_iff, eq_refl, Bool-cases,
  Option-cases,
}
use mathlib.Core.Option.{some-injective}
use fake_gpu_operator.Base.Dict.{Dict, lookup, insert, lookup-insert, lookup-erase}
use fake_gpu_operator.DomainPlugin.{
  Checkpoint, DomainInfo, PreparedDevice, get_or_create_domain, remove_claim, has_claim,
  release_domains, prepared, unprepared, kept,
}

-- How often a claim is listed, in one domain and in all of them.
abbrev pub count : String → List String → ℕ
count u [] = 0
count u (c ∷ cs) = if c == u then suc (count u cs) else count u cs

abbrev pub occurrences : String → Dict DomainInfo → ℕ
occurrences u [] = 0
occurrences u ((id, info) ∷ m) = count u info.claims + occurrences u m

abbrev pub is_some : Option (List PreparedDevice) → Bool
is_some none = false
is_some (some devices) = true

abbrev pub is_prepared : String → Checkpoint → Bool
is_prepared u cp = is_some (lookup u cp.prepared_claims)

abbrev pub is_empty : List String → Bool
is_empty [] = true
is_empty (c ∷ cs) = false

abbrev pub HasClaims : String × DomainInfo → Type 0
HasClaims (id, info) = is_empty info.claims ≡ false

-- Every prepared claim is listed exactly once in all the domains together, no other claim is listed
-- at all, and no domain is without claims.
pub record IsValid (cp : Checkpoint) : Type 0 where
  pub listed : (u : String) → occurrences u cp.domains ≡ (if is_prepared u cp then 1 else 0)
  pub in_use : All HasClaims cp.domains

abbrev pub one_if : Bool → ℕ
one_if b = if b then 1 else 0

pub count-append :
    (u v : String) (cs : List String) → count u (cs ++ v ∷ []) ≡ count u cs + one_if (v == u)
count-append u v [] = ground arith
count-append u v (c ∷ cs) = ground (arith, count-append u v cs)

pub count-remove_claim :
    (u v : String) (cs : List String)
    → has_claim v cs ≡ true
    → count u (remove_claim v cs) + one_if (v == u) ≡ count u cs
unfolding remove_claim
count-remove_claim u v [] h = cc
count-remove_claim u v (c ∷ cs) h =
    ground (arith, eq_iff c u, eq_iff v u, eq_iff c v, count-remove_claim u v cs)

pub count_zero : (u : String) (cs : List String) → count u cs ≡ 0 → has_claim u cs ≡ false
count_zero u [] h = refl
count_zero u (c ∷ cs) h = ground (arith, count_zero u cs)

has_claim-count : (u : String) (cs : List String) → has_claim u cs ≡ false → count u cs ≡ 0
has_claim-count u [] h = refl
has_claim-count u (c ∷ cs) h = ground (arith, has_claim-count u cs)

occurrences-insert :
    (u id : String) (info new : DomainInfo) (m : Dict DomainInfo)
    → lookup id m ≡ some info
    → occurrences u (insert id new m) + count u info.claims ≡ occurrences u m + count u new.claims
unfolding lookup insert
occurrences-insert u id info new [] h = cc
occurrences-insert u id info new ((j, old) ∷ m) h = elim (Bool-cases (j == id)) [
  | inl e ↦
      let same : old ≡ info = some-injective old info (rw (e, lookup) at h) in
      rw (e, ← same) (omega arith)
  | inr e ↦ rw e (omega (arith, occurrences-insert u id info new m (rw (e, lookup) at h)))
]

occurrences-insert_new :
    (u id : String) (new : DomainInfo) (m : Dict DomainInfo)
    → lookup id m ≡ none
    → occurrences u (insert id new m) ≡ occurrences u m + count u new.claims
unfolding lookup insert
occurrences-insert_new u id new [] h = omega arith
occurrences-insert_new u id new ((j, old) ∷ m) h = elim (Bool-cases (j == id)) [
  | inl e ↦ cc (rw (e, lookup) at h)
  | inr e ↦ rw e (omega (arith, occurrences-insert_new u id new m (rw (e, lookup) at h)))
]

pub occurrences-get_or_create_domain :
    (u v id : String) (now : ℕ) (m : Dict DomainInfo)
    → occurrences u (get_or_create_domain m id v now) ≡ occurrences u m + one_if (v == u)
unfolding get_or_create_domain
occurrences-get_or_create_domain u v id now m = elim (Option-cases (lookup id m)) [
  | inl e ↦ rw e (omega (arith, occurrences-insert_new u id _ m e))
  | inr (info, e) ↦ rw e (
      omega (
        arith,
        occurrences-insert u id info (record info { claims = info.claims ++ v ∷ [] }) m e,
        count-append u v info.claims,
      ))
]

insert-HasClaims :
    (id : String) (new : DomainInfo) (m : Dict DomainInfo)
    → is_empty new.claims ≡ false
    → All HasClaims m
    → All HasClaims (insert id new m)
unfolding insert
insert-HasClaims id new [] h a = (h, tt)
insert-HasClaims id new ((j, old) ∷ m) h (o, a) = elim (Bool-cases (j == id)) [
  | inl e ↦ rw e (h, a)
  | inr e ↦ rw e (o, insert-HasClaims id new m h a)
]

append-not_empty : (cs : List String) (v : String) → is_empty (cs ++ v ∷ []) ≡ false
append-not_empty [] v = refl
append-not_empty (c ∷ cs) v = refl

get_or_create_domain-HasClaims :
    (v id : String) (now : ℕ) (m : Dict DomainInfo)
    → All HasClaims m
    → All HasClaims (get_or_create_domain m id v now)
unfolding get_or_create_domain
get_or_create_domain-HasClaims v id now m a = elim (Option-cases (lookup id m)) [
  | inl e ↦ rw e (insert-HasClaims id _ m refl a)
  | inr (info, e) ↦ rw e (insert-HasClaims id _ m (append-not_empty info.claims v) a)
]

occurrences-kept :
    (u id : String) (info : DomainInfo) (left : List String) (m : Dict DomainInfo)
    → occurrences u (kept id info left m) ≡ count u left + occurrences u m
occurrences-kept u id info [] m = omega arith
occurrences-kept u id info (c ∷ cs) m = refl

-- The release of a claim leaves every other claim where it is.
occurrences-release_domains :
    (u v : String) (m : Dict DomainInfo)
    → (v == u) ≡ false
    → occurrences u (release_domains v m) ≡ occurrences u m
unfolding release_domains
occurrences-release_domains u v [] ne = refl
occurrences-release_domains u v ((id, info) ∷ m) ne =
    let rest = occurrences-release_domains u v m ne in
    elim (Bool-cases (has_claim v info.claims)) [
      | inl e ↦
          let removed = rw ne at (count-remove_claim u v info.claims e) in
          rw e (
            occurrences-kept u id info (remove_claim v info.claims) (release_domains v m)
            ∙ omega (arith, rest, removed))
      | inr e ↦ rw e (omega (arith, rest))
    ]

-- A claim that was listed at most once is not listed after its release.
released-occurrences :
    (v : String) (m : Dict DomainInfo)
    → occurrences v m ≤ 1
    → occurrences v (release_domains v m) ≡ 0
unfolding release_domains
released-occurrences v [] h = refl
released-occurrences v ((id, info) ∷ m) h =
    let rest = released-occurrences v m (omega (arith, h)) in
    elim (Bool-cases (has_claim v info.claims)) [
      | inl e ↦
          let removed = rw (eq_refl v) at (count-remove_claim v v info.claims e) in
          rw e (
            occurrences-kept v id info (remove_claim v info.claims) (release_domains v m)
            ∙ omega (arith, rest, removed, h))
      | inr e ↦ rw e (omega (arith, rest, has_claim-count v info.claims e))
    ]

kept-HasClaims :
    (id : String) (info : DomainInfo) (left : List String) (m : Dict DomainInfo)
    → All HasClaims m
    → All HasClaims (kept id info left m)
kept-HasClaims id info [] m a = a
kept-HasClaims id info (c ∷ cs) m a = (refl, a)

release_domains-HasClaims :
    (v : String) (m : Dict DomainInfo) → All HasClaims m → All HasClaims (release_domains v m)
unfolding release_domains
release_domains-HasClaims v [] a = tt
release_domains-HasClaims v ((id, info) ∷ m) (h, a) =
    let rest = release_domains-HasClaims v m a in
    elim (Bool-cases (has_claim v info.claims)) [
      | inl e ↦
          rw e (kept-HasClaims id info (remove_claim v info.claims) (release_domains v m) rest)
      | inr e ↦ rw e (h, rest)
    ]

is_some-if :
    (b : Bool) (o o' : Option (List PreparedDevice))
    → is_some (if b then o else o') ≡ (if b then is_some o else is_some o')
is_some-if true o o' = refl
is_some-if false o o' = refl

is_prepared-prepared :
    (u v id : String) (now : ℕ) (devices : List PreparedDevice) (cp : Checkpoint)
    → is_prepared u (prepared v id now devices cp) ≡ (if v == u then true else is_prepared u cp)
unfolding prepared
is_prepared-prepared u v id now devices cp =
    ap is_some (lookup-insert v u devices cp.prepared_claims)
    ∙ is_some-if (v == u) (some devices) (lookup u cp.prepared_claims)

is_prepared-unprepared :
    (u v : String) (cp : Checkpoint)
    → is_prepared u (unprepared v cp) ≡ (if v == u then false else is_prepared u cp)
unfolding unprepared
is_prepared-unprepared u v cp =
    ap is_some (lookup-erase v u cp.prepared_claims)
    ∙ is_some-if (v == u) none (lookup u cp.prepared_claims)

-- The count of a claim after one was added, or taken away, by whether it is the same one.
added_count :
    (n : ℕ) (same known : Bool)
    → (same ≡ true → known ≡ false)
    → n ≡ one_if known
    → n + one_if same ≡ one_if (if same then true else known)
added_count n true known new h = rw (h, new refl) refl
added_count n false known new h = omega (arith, h)

-- Preparing a claim that is not prepared keeps the invariant.
pub prepared-IsValid :
    (v id : String) (now : ℕ) (devices : List PreparedDevice) (cp : Checkpoint)
    → is_prepared v cp ≡ false
    → IsValid cp
    → IsValid (prepared v id now devices cp)
unfolding prepared
prepared-IsValid v id now devices cp new valid = record {
  listed = λ u.
      occurrences-get_or_create_domain u v id now cp.domains
      ∙ added_count (occurrences u cp.domains) (v == u) (is_prepared u cp)
          (λ same. rw (← (eq_iff v u).0 same) new) (valid.listed u)
      ∙ ap one_if (sym (is_prepared-prepared u v id now devices cp));
  in_use = get_or_create_domain-HasClaims v id now cp.domains valid.in_use;
}

one_if-le : (b : Bool) → one_if b ≤ 1
one_if-le true = omega arith
one_if-le false = omega arith

released_count :
    (v u : String) (m : Dict DomainInfo) (known : Bool) (same : Bool)
    → (v == u) ≡ same
    → occurrences u m ≡ one_if known
    → occurrences u (release_domains v m) ≡ one_if (if same then false else known)
released_count v u m known true e h =
    let once : occurrences v m ≤ 1 = rw ((eq_iff v u).0 e, h) (one_if-le known) in
    rw (← (eq_iff v u).0 e) (released-occurrences v m once)
released_count v u m known false e h = occurrences-release_domains u v m e ∙ h

-- Unpreparing a claim keeps the invariant.
pub unprepared-IsValid : (v : String) (cp : Checkpoint) → IsValid cp → IsValid (unprepared v cp)
unfolding unprepared
unprepared-IsValid v cp valid = record {
  listed = λ u.
      released_count v u cp.domains (is_prepared u cp) (v == u) refl (valid.listed u)
      ∙ ap one_if (sym (is_prepared-unprepared u v cp));
  in_use = release_domains-HasClaims v cp.domains valid.in_use;
}
