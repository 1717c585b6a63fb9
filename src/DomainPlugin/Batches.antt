-- ===== src/DomainPlugin/Batches.antt =====
-- What a call of the kubelet for many claims leaves.
use fake_gpu_operator.Base.{
  ◌≡◌, refl, ap, ◌∙◌, subst, String, Bool, true, false, ◌||◌, Option, none, some, List, [], ◌∷◌,
  All, ◌==◌, if◌then◌else◌, eq_refl, arith,
}
use fake_gpu_operator.Base.Dict.{Dict, lookup, insert, lookup-insert}
use fake_gpu_operator.Base.Result.{Result, ok, err, panic, ok-injective, panic-ne-ok}
use fake_gpu_operator.DomainPlugin.{Checkpoint, DomainClaim, PreparedDevice}
use fake_gpu_operator.DomainPlugin.Files.{Node}
use fake_gpu_operator.DomainPlugin.Calls.{prepare}
use fake_gpu_operator.DomainPlugin.Valid.{IsValid}
use fake_gpu_operator.DomainPlugin.Refines.{
  KeepsCheckpoint, prepare_claim, after_all-IsValid, checkpoint_of,
}
use fake_gpu_operator.DomainPlugin.Driver.{
  KubeletDevice, prepare_result, enter, prepare_resource_claims,
}

abbrev pub Entries : Type 0
Entries = Dict (Result (List KubeletDevice))

abbrev pub is_entry : Option (Result (List KubeletDevice)) → Bool
is_entry none = false
is_entry (some r) = true

abbrev pub has_entry : String → Entries → Bool
has_entry uid entries = is_entry (lookup uid entries)

has_entry-insert :
    (u uid : String) (r : Result (List KubeletDevice)) (entries : Entries)
    → has_entry u (insert uid r entries) ≡ ((uid == u) || has_entry u entries)
has_entry-insert u uid r entries =
    ap is_entry (lookup-insert uid u r entries) ∙ go (uid == u) (lookup u entries)
  where
    go :
        (b : Bool) (o : Option (Result (List KubeletDevice)))
        → is_entry (if b then some r else o) ≡ (b || is_entry o)
    go true o = refl
    go false o = refl

or_true : (b : Bool) → (b || true) ≡ true
or_true b = ground arith

module _ (n : Node) (k : KeepsCheckpoint n) (allocatable : List String) where
  -- The checkpoint file that is there is valid.
  abbrev pub HoldsValid : n.State → Type 0
  HoldsValid s =
      (stored : Option Checkpoint) × (n.get_checkpoint s ≡ ok stored)
      × IsValid (checkpoint_of stored)

  prepare-HoldsValid :
      (claim : DomainClaim) (s : n.State)
      → HoldsValid s
      → HoldsValid (prepare n allocatable claim s).0
  prepare-HoldsValid claim s (stored, h, valid) =
      after_all-IsValid n k allocatable (prepare_claim claim ∷ []) s stored h valid

  -- An entry that is there when the loop goes on is there at its end.
  entry-keeps :
      (u : String) (claims : List DomainClaim) (entries entries' : Entries) (s s' : n.State)
      → prepare_resource_claims n allocatable claims entries s ≡ (s', ok entries')
      → has_entry u entries ≡ true
      → has_entry u entries' ≡ true
  unfolding prepare_resource_claims
  entry-keeps u [] entries entries' s s' e h =
      subst (λ m. has_entry u m ≡ true) (ok-injective (ap (λ q. q.1) e)) h
  entry-keeps u (claim ∷ claims) entries entries' s s' e h =
      go (prepare n allocatable claim s)
        (λ r. entry-keeps u claims (insert claim.uid (prepare_result r) entries) entries') e
    where
      kept : (r : Result (List KubeletDevice)) → has_entry u (insert claim.uid r entries) ≡ true
      kept r =
          has_entry-insert u claim.uid r entries
          ∙ ap (λ b. (claim.uid == u) || b) h
          ∙ or_true (claim.uid == u)

      go :
          (q : n.State × Result (List PreparedDevice))
          → ((r : Result (List PreparedDevice)) (s s' : n.State)
              → prepare_resource_claims n allocatable claims
                  (insert claim.uid (prepare_result r) entries)
                  s
                ≡ (s', ok entries')
              → has_entry u (insert claim.uid (prepare_result r) entries) ≡ true
              → has_entry u entries' ≡ true)
          → enter q.1
              (λ r.
                prepare_resource_claims n allocatable claims
                  (insert claim.uid (prepare_result r) entries))
              q.0
            ≡ (s', ok entries')
          → has_entry u entries' ≡ true
      go (t, ok a) rest run = rest (ok a) t s' run (kept (prepare_result (ok a)))
      go (t, err x) rest run = rest (err x) t s' run (kept (err x))
      go (t, panic) rest run = absurd (panic-ne-ok (ap (λ q. q.1) run))

  -- A call of the kubelet to prepare any claims leaves a valid checkpoint file valid, whichever
  -- claims fail; and if it returns, every claim has its entry in the result.
  pub prepare_resource_claims-HoldsValid :
      (claims : List DomainClaim) (entries : Entries) (s : n.State)
      → HoldsValid s
      → HoldsValid (prepare_resource_claims n allocatable claims entries s).0
        × ((entries' : Entries)
            → (prepare_resource_claims n allocatable claims entries s).1 ≡ ok entries'
            → All (λ (c : DomainClaim). has_entry c.uid entries' ≡ true) claims)
  unfolding prepare_resource_claims
  prepare_resource_claims-HoldsValid [] entries s h = (h, λ entries' e. tt)
  prepare_resource_claims-HoldsValid (claim ∷ claims) entries s h =
      go (prepare n allocatable claim s) (prepare-HoldsValid claim s h) (λ r.
        prepare_resource_claims-HoldsValid claims (insert claim.uid (prepare_result r) entries))
    where
      next : Result (List PreparedDevice) → n.State → n.State × Result Entries
      next r =
          prepare_resource_claims n allocatable claims (insert claim.uid (prepare_result r) entries)

      noted :
          (r : Result (List KubeletDevice))
          → has_entry claim.uid (insert claim.uid r entries) ≡ true
      noted r = has_entry-insert claim.uid claim.uid r entries ∙ rw (eq_refl claim.uid) refl

      go :
          (q : n.State × Result (List PreparedDevice))
          → HoldsValid q.0
          → ((r : Result (List PreparedDevice)) (t : n.State)
              → HoldsValid t
              → HoldsValid (next r t).0
                × ((entries' : Entries)
                    → (next r t).1 ≡ ok entries'
                    → All (λ (c : DomainClaim). has_entry c.uid entries' ≡ true) claims))
          → HoldsValid (enter q.1 next q.0).0
            × ((entries' : Entries)
                → (enter q.1 next q.0).1 ≡ ok entries'
                → (has_entry claim.uid entries' ≡ true)
                  × All (λ (c : DomainClaim). has_entry c.uid entries' ≡ true) claims)
      go (t, ok a) v rest =
          let (v', all) = rest (ok a) t v in
          (
            v',
            λ entries' e. (
              entry-keeps claim.uid claims (insert claim.uid (prepare_result (ok a)) entries)
                  entries' t (next (ok a) t).0 (λ i. ((next (ok a) t).0, e i))
                  (noted (prepare_result (ok a))),
              all entries' e,
            ),
          )
      go (t, err x) v rest =
          let (v', all) = rest (err x) t v in
          (
            v',
            λ entries' e. (
              entry-keeps claim.uid claims (insert claim.uid (err x) entries) entries' t
                  (next (err x) t).0 (λ i. ((next (err x) t).0, e i)) (noted (err x)),
              all entries' e,
            ),
          )
      go (t, panic) v rest = (v, λ entries' e. absurd (panic-ne-ok e))
