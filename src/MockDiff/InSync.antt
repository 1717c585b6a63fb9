-- ===== src/MockDiff/InSync.antt =====
-- When there is nothing to do.
use fake_gpu_operator.Base.{
  String, ◌≡◌, refl, sym, ap, ◌∙◌, Bool, false, ◌↔◌, inl, inr, some, List, [], ◌∷◌, All, All-map,
  Option-cases, Bool-cases,
}
use fake_gpu_operator.Base.Dict.{Dict, lookup}
use fake_gpu_operator.MockDiff.Index.{
  last_named, lookup-by_name_last, lookup-All, All-lookup, by_name-HasDistinctKeys,
}
use fake_gpu_operator.MockDiff.{Diff, by_name, created, updated, deleted, diff}

module _ {O : Type 0} (name : O → String) (needs_update : O → O → Bool) (stamp : O → O → O) where
  -- The desired object of a name is there and needs no update.
  abbrev pub UpToDate : Dict O → String × O → Type 0
  UpToDate actual (key, want) =
      (have : O) × (lookup key actual ≡ some have) × (needs_update want have ≡ false)

  -- The last desired object of each name has the last actual one of that name, which needs no update;
  -- and every actual object has a desired one of its name.
  abbrev pub IsInSync : List O → List O → Type 0
  IsInSync desired actual =
      ((key : String) (want : O)
        → last_named name needs_update stamp key desired ≡ some want
        → (have : O) × (last_named name needs_update stamp key actual ≡ some have)
          × (needs_update want have ≡ false))
      × All
          (λ have.
            (want : O) × (last_named name needs_update stamp (name have) desired ≡ some want))
          actual

  entries-steady :
      (actual m : Dict O)
      → All (UpToDate actual) m
      → (created name needs_update stamp actual m ≡ [])
        × (updated name needs_update stamp actual m ≡ [])
  unfolding created updated
  entries-steady actual [] h = (refl, refl)
  entries-steady actual ((key, want) ∷ rest) ((have, found, same), h) =
      let (c, u) = entries-steady actual rest h in
      (rw (found, created) c, rw (found, updated, same) u)

  deleted-steady :
      (m : Dict O) (actual : List O)
      → All (λ have. (want : O) × (lookup (name have) m ≡ some want)) actual
      → deleted name needs_update stamp m actual ≡ []
  unfolding deleted
  deleted-steady m [] h = refl
  deleted-steady m (have ∷ rest) ((want, found), h) = rw (found, deleted) (deleted-steady m rest h)

  entries-UpToDate :
      (actual m : Dict O)
      → created name needs_update stamp actual m ≡ []
      → updated name needs_update stamp actual m ≡ []
      → All (UpToDate actual) m
  unfolding created updated
  entries-UpToDate actual [] c u = tt
  entries-UpToDate actual ((key, want) ∷ rest) c u = elim (Option-cases (lookup key actual)) [
    | inl e ↦ cc (rw (e, created) at c)
    | inr (have, e) ↦ elim (Bool-cases (needs_update want have)) [
      | inl n ↦ cc (rw (e, updated, n) at u)
      | inr n ↦ (
        (have, e, n),
        entries-UpToDate actual rest (rw (e, created) at c) (rw (e, updated, n) at u),
      )
    ]
  ]

  deleted-desired :
      (m : Dict O) (actual : List O)
      → deleted name needs_update stamp m actual ≡ []
      → All (λ have. (want : O) × (lookup (name have) m ≡ some want)) actual
  unfolding deleted
  deleted-desired m [] d = tt
  deleted-desired m (have ∷ rest) d = elim (Option-cases (lookup (name have) m)) [
    | inl e ↦ cc (rw (e, deleted) at d)
    | inr (want, e) ↦ ((want, e), deleted-desired m rest (rw (e, deleted) at d))
  ]

  abbrev pub nothing : Diff O
  nothing = record { to_create = []; to_update = []; to_delete = [] }

  current :
      (desired actual : List O)
      → ((key : String) (want : O)
          → last_named name needs_update stamp key desired ≡ some want
          → (have : O) × (last_named name needs_update stamp key actual ≡ some have)
            × (needs_update want have ≡ false))
      → All
          (UpToDate (by_name name needs_update stamp actual []))
          (by_name name needs_update stamp desired [])
  current desired actual h =
      lookup-All (UpToDate (by_name name needs_update stamp actual []))
        (by_name name needs_update stamp desired [])
        (by_name-HasDistinctKeys name needs_update stamp desired [] tt)
        (λ key want found.
          let (have, last, same) =
            h key want (sym (lookup-by_name_last name needs_update stamp key desired) ∙ found) in
          (have, lookup-by_name_last name needs_update stamp key actual ∙ last, same))

  -- There is nothing to create, to update or to delete exactly when the last desired object of each
  -- name has an actual one, the last of that name, which needs no update, and every actual object has a
  -- desired one of its name.
  pub diff-IsInSync :
      (desired actual : List O)
      → (diff name needs_update stamp desired actual ≡ nothing) ↔ IsInSync desired actual
  unfolding diff
  diff-IsInSync desired actual =
      let names = by_name name needs_update stamp in
      let last = lookup-by_name_last name needs_update stamp in
      (
        λ e. (
          λ key want found.
              let (have, there, same) =
                All-lookup (UpToDate (names actual [])) (names desired [])
                  (entries-UpToDate (names actual []) (names desired []) (ap (λ d. d.to_create) e)
                    (ap (λ d. d.to_update) e))
                  key want (last key desired ∙ found) in
              (have, sym (last key actual) ∙ there, same),
          All-map (λ have p. (p.0, sym (last (name have) desired) ∙ p.1)) actual
              (deleted-desired (names desired []) actual (ap (λ d. d.to_delete) e)),
        ),
        λ (kept, wanted).
            let (c, u) =
              entries-steady (names actual []) (names desired []) (current desired actual kept) in
            let d =
              deleted-steady (names desired []) actual
                (All-map (λ have p. (p.0, last (name have) desired ∙ p.1)) actual wanted) in
            rw (c, u, d) refl,
      )
