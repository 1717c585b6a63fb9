-- ===== src/PodHandler/Release.antt =====
-- What a deletion gives back: the GPUs that the pod held, and nothing else.
use fake_gpu_operator.Base.{
  ◌<◌, String, ◌≡◌, refl, sym, ap, ◌∙◌, Bool, true, false, ◌&&◌, ◌||◌, inl, inr, List, [], ◌∷◌, map,
  any, All, ◌==◌, eq_refl, arith, if◌then◌else◌, Bool-cases, or-false, ap₂,
}
use fake_gpu_operator.Topology.{GpuDetails}
use fake_gpu_operator.Platform.{Pod}
use fake_gpu_operator.PodHandler.Gpus.{is_free, is_occupied_by_container, empty_status, release}
use fake_gpu_operator.PodHandler.Allocation.{holder, allocated_by, Granted, Grants, free_count}

-- A GPU with no pod has no namespace and no container either.
abbrev pub IsClean : GpuDetails → Type 0
IsClean gpu = is_free gpu ≡ true → allocated_by gpu ≡ empty_status.allocated_by

pub occupied_of_holder :
    (pod : Pod) (container : String) (g : GpuDetails)
    → allocated_by g ≡ holder pod container
    → is_occupied_by_container pod container g ≡ true
occupied_of_holder pod container g e =
    ap (λ a. (a.namespace == pod.namespace && a.pod == pod.name) && a.container == container) e
    ∙ simp eq_refl

fewer_rest :
    (g g' : GpuDetails) (gs gs' : List GpuDetails)
    → g' ≡ g
    → free_count (g' ∷ gs') < free_count (g ∷ gs)
    → free_count gs' < free_count gs
fewer_rest g g' gs gs' e h = elim (Bool-cases (is_free g)) [
  | inl free ↦ let h' = rw (e, free) at h in omega arith
  | inr taken ↦ let h' = rw (e, taken) at h in omega arith
]

or-true_right : (a b : Bool) → b ≡ true → (a || b) ≡ true
or-true_right a b h = ground arith

module _ (pod : Pod) (container : String) where
  release-allocated_by :
      (g g' : GpuDetails)
      → IsClean g
      → is_occupied_by_container pod container g ≡ false
      → Granted pod container g g'
      → allocated_by (
          if is_occupied_by_container pod container g'
          then record g' { status = empty_status }
          else g')
        ≡ allocated_by g
  release-allocated_by g g' clean other (inl e) = rw (e, other) refl
  release-allocated_by g g' clean other (inr (free, held, id)) =
      rw (occupied_of_holder pod container g' held) (sym (clean free))

  pub release-Grants :
      (gs gs' : List GpuDetails)
      → All IsClean gs
      → any (is_occupied_by_container pod container) gs ≡ false
      → Grants pod container gs gs'
      → map allocated_by (release (is_occupied_by_container pod container) gs')
        ≡ map allocated_by gs
  unfolding release
  release-Grants [] [] clean other grants = refl
  release-Grants [] (x ∷ xs) clean other grants = absurd grants
  release-Grants (g ∷ gs) [] clean other grants = absurd grants
  release-Grants (g ∷ gs) (g' ∷ gs') clean other grants =
      let (here, there) = or-false _ _ other in
      ap₂ ◌∷◌ (release-allocated_by g g' clean.0 here grants.0)
        (release-Grants gs gs' clean.1 there grants.1)

  -- Where a GPU was free and fewer are free now, the pod holds one.
  pub occupied-Grants :
      (gs gs' : List GpuDetails)
      → Grants pod container gs gs'
      → free_count gs' < free_count gs
      → any (is_occupied_by_container pod container) gs' ≡ true
  occupied-Grants [] [] grants fewer = absurd (omega arith)
  occupied-Grants [] (x ∷ xs) grants fewer = absurd grants
  occupied-Grants (g ∷ gs) [] grants fewer = absurd grants
  occupied-Grants (g ∷ gs) (g' ∷ gs') (inl e, rest) fewer =
      or-true_right _ _ (occupied-Grants gs gs' rest (fewer_rest g g' gs gs' e fewer))
  occupied-Grants (g ∷ gs) (g' ∷ gs') (inr (free, held, id), rest) fewer =
      rw (occupied_of_holder pod container g' held) refl
