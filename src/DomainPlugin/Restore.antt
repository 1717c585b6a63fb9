-- ===== src/DomainPlugin/Restore.antt =====
-- Preparing a claim and unpreparing it again, on checkpoints.
use fake_gpu_operator.Base.{
  ℕ, ◌+◌, ◌≡◌, refl, sym, ap, ap₂, ◌∙◌, String, true, false, inl, inr, Option, none, some, List, [],
  ◌∷◌, ◌++◌, All, ◌==◌, arith, eq_iff, eq_refl, Bool-cases, Option-cases,
}
use mathlib.Core.Option.{some-injective}
use fake_gpu_operator.Base.Dict.{Dict, lookup, insert, erase}
use fake_gpu_operator.DomainPlugin.{
  Checkpoint, DomainInfo, PreparedDevice, get_or_create_domain, remove_claim, has_claim, kept,
  release_domains, prepared, unprepared,
}
use fake_gpu_operator.DomainPlugin.Valid.{
  count, occurrences, is_prepared, is_some, is_empty, HasClaims, IsValid, count_zero,
}

erase-none : {V : Type 0} (v : String) (m : Dict V) → lookup v m ≡ none → erase v m ≡ m
unfolding lookup erase
erase-none v [] h = refl
erase-none v ((j, x) ∷ m) h = elim (Bool-cases (j == v)) [
  | inl e ↦ cc (rw (e, lookup) at h)
  | inr e ↦ rw e (ap (λ r. (j, x) ∷ r) (erase-none v m (rw (e, lookup) at h)))
]

erase-insert :
    {V : Type 0} (v : String) (d : V) (m : Dict V) → lookup v m ≡ none → erase v (insert v d m) ≡ m
unfolding lookup insert erase
erase-insert v d [] h = rw (eq_refl v) refl
erase-insert v d ((j, x) ∷ m) h = elim (Bool-cases (j == v)) [
  | inl e ↦ cc (rw (e, lookup) at h)
  | inr e ↦ rw e (rw e (ap (λ r. (j, x) ∷ r) (erase-insert v d m (rw (e, lookup) at h))))
]

has_claim-append : (v : String) (cs : List String) → has_claim v (cs ++ v ∷ []) ≡ true
has_claim-append v [] = rw (eq_refl v) refl
has_claim-append v (c ∷ cs) = ground (arith, has_claim-append v cs)

remove_claim-append :
    (v : String) (cs : List String) → has_claim v cs ≡ false → remove_claim v (cs ++ v ∷ []) ≡ cs
unfolding remove_claim
remove_claim-append v [] h = rw (eq_refl v) refl
remove_claim-append v (c ∷ cs) h = elim (Bool-cases (c == v)) [
  | inl e ↦ cc (rw e at h)
  | inr e ↦ rw e (ap (λ r. c ∷ r) (remove_claim-append v cs (rw e at h)))
]

kept_claims :
    (id : String) (info : DomainInfo) (cs : List String) (m : Dict DomainInfo)
    → is_empty cs ≡ false
    → kept id info cs m ≡ (id, record info { claims = cs }) ∷ m
kept_claims id info [] m h = cc
kept_claims id info (c ∷ cs) m h = refl

unlisted :
    (v : String) (info : DomainInfo) (m : Dict DomainInfo)
    → count v info.claims + occurrences v m ≡ 0
    → (has_claim v info.claims ≡ false) × (occurrences v m ≡ 0)
unlisted v info m h = (count_zero v info.claims (omega (arith, h)), omega (arith, h))

release_domains_none :
    (v : String) (m : Dict DomainInfo) → occurrences v m ≡ 0 → release_domains v m ≡ m
unfolding release_domains
release_domains_none v [] h = refl
release_domains_none v ((id, info) ∷ m) h =
    let (here, rest) = unlisted v info m h in
    rw here (ap (λ r. (id, info) ∷ r) (release_domains_none v m rest))

release_domains-insert :
    (v id : String) (info : DomainInfo) (m : Dict DomainInfo)
    → lookup id m ≡ some info
    → occurrences v m ≡ 0
    → All HasClaims m
    → release_domains v (insert id (record info { claims = info.claims ++ v ∷ [] }) m) ≡ m
unfolding lookup insert release_domains
release_domains-insert v id info [] h o a = cc
release_domains-insert v id info ((j, old) ∷ m) h o (used, a) =
    let (here, rest) = unlisted v old m o in
    elim (Bool-cases (j == id)) [
      | inl e ↦
          let same : old ≡ info = some-injective old info (rw (e, lookup) at h) in
          rw (e, ← same, has_claim-append v old.claims, remove_claim-append v old.claims here)
            (kept_claims id (record old { claims = old.claims ++ v ∷ [] }) old.claims
                (release_domains v m) used
              ∙ ap₂ (λ x r. (x, old) ∷ r) (sym ((eq_iff j id).0 e)) (release_domains_none v m rest))
      | inr e ↦
          rw (e, here)
            (ap (λ r. (j, old) ∷ r)
              (release_domains-insert v id info m (rw (e, lookup) at h) rest a))
    ]

release_domains-insert_new :
    (v id : String) (now : ℕ) (m : Dict DomainInfo)
    → lookup id m ≡ none
    → occurrences v m ≡ 0
    → release_domains v (insert id (record { domain_id = id; claims = v ∷ []; created_at = now }) m)
      ≡ m
unfolding lookup insert release_domains remove_claim
release_domains-insert_new v id now [] h o = rw (eq_refl v) refl
release_domains-insert_new v id now ((j, old) ∷ m) h o =
    let (here, rest) = unlisted v old m o in
    elim (Bool-cases (j == id)) [
      | inl e ↦ cc (rw (e, lookup) at h)
      | inr e ↦
          rw (e, here)
            (ap (λ r. (j, old) ∷ r)
              (release_domains-insert_new v id now m (rw (e, lookup) at h) rest))
    ]

release_domains-get_or_create_domain :
    (v id : String) (now : ℕ) (m : Dict DomainInfo)
    → occurrences v m ≡ 0
    → All HasClaims m
    → release_domains v (get_or_create_domain m id v now) ≡ m
unfolding get_or_create_domain
release_domains-get_or_create_domain v id now m o a = elim (Option-cases (lookup id m)) [
  | inl e ↦ rw e (release_domains-insert_new v id now m e o)
  | inr (info, e) ↦ rw e (release_domains-insert v id info m e o a)
]

is_some-none : (o : Option (List PreparedDevice)) → is_some o ≡ false → o ≡ none
is_some-none none h = refl
is_some-none (some d) h = cc

-- Unpreparing undoes preparing: the very checkpoint comes back.
pub unprepared-prepared :
    (v id : String) (now : ℕ) (devices : List PreparedDevice) (cp : Checkpoint)
    → is_prepared v cp ≡ false
    → IsValid cp
    → unprepared v (prepared v id now devices cp) ≡ cp
unfolding unprepared prepared
unprepared-prepared v id now devices cp new valid =
    let o : occurrences v cp.domains ≡ 0 = valid.listed v ∙ rw new refl in
    ap₂
      (λ (c : Dict (List PreparedDevice)) (d : Dict DomainInfo). record {
        prepared_claims = c;
        domains = d;
      })
      (erase-insert v devices cp.prepared_claims (is_some-none (lookup v cp.prepared_claims) new))
      (release_domains-get_or_create_domain v id now cp.domains o valid.in_use)
