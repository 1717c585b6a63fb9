-- ===== src/DomainController/Settled.antt =====
-- What a reconciliation that succeeded leaves, and that the next one has nothing to write.
use fake_gpu_operator.Base.Int.{ℤ, pos, ◌≤ℤ◌, ◌<ℤ◌, ltb_ℤ}
use fake_gpu_operator.Base.{
  suc, map, inl, inr, ◌==◌, Bool-cases, and-true, nat_beq→eq, eq_iff, ℕ, arith, ◌≡◌, refl, sym, ap,
  ◌∙◌, ap₂, subst, String, Bool, true, false, List, [], ◌∷◌, length, nat_beq,
}
use fake_gpu_operator.Base.Result.{ok}
use fake_gpu_operator.Base.Effect.{◌>>◌, lift, reads, >>=-eq-ok}
use fake_gpu_operator.Platform.{ResourceClaim}
use fake_gpu_operator.DomainController.{
  ComputeDomain, DomainApi, DomainNode, DomainStatus, Template, compute_domain_finalizer,
  compute_domain_claim_label, template_name, nodes_of_claims, status_of_nodes, status_equal,
  same_names,
}
use fake_gpu_operator.DomainController.Calls.{
  ensure_finalizer, ensure_resource_claim_templates, update_status, maintain, reconcile,
  add_missing, write_status,
}
use fake_gpu_operator.DomainController.Laws.{KeepsObjects, IsSettled, name_of}
use fake_gpu_operator.DomainController.Templates.{templates-ok}

abbrev head_of : List String → String
head_of [] = ""
head_of (x ∷ xs) = x

abbrev tail_of : List String → List String
tail_of [] = []
tail_of (x ∷ xs) = xs

cons_injective : (a b : String) (xs ys : List String) → (a ∷ xs) ≡ (b ∷ ys) → (a ≡ b) × (xs ≡ ys)
cons_injective a b xs ys h = (ap head_of h, ap tail_of h)

nat_beq_refl : (n : ℕ) → nat_beq n n ≡ true
nat_beq_refl n = ground arith

-- The loop of statusEqual finds the names equal, if the lists are of one length, only where they are.
same_names-names :
    (old new : List DomainNode)
    → length old ≡ length new
    → same_names old new ≡ true
    → map name_of old ≡ map name_of new
same_names-names [] [] l h = refl
same_names-names [] (m ∷ new) l h = absurd (omega (arith, l))
same_names-names (n ∷ old) [] l h = cc
same_names-names (n ∷ old) (m ∷ new) l h =
    let (same, rest) = and-true (n.name == m.name) (same_names old new) h in
    ap₂ (λ a b. a ∷ b) ((eq_iff n.name m.name).0 same)
      (same_names-names old new (omega (arith, l)) rest)

names-same_names :
    (old new : List DomainNode)
    → map name_of old ≡ map name_of new
    → (length old ≡ length new) × (same_names old new ≡ true)
names-same_names [] [] h = (refl, refl)
names-same_names [] (m ∷ new) h = cc
names-same_names (n ∷ old) [] h = cc
names-same_names (n ∷ old) (m ∷ new) h =
    let (first, rest) = cons_injective n.name m.name (map name_of old) (map name_of new) h in
    let (l, same) = names-same_names old new rest in
    (ap suc l, rw ((eq_iff n.name m.name).1 first) same)

status_equal-names :
    (old : DomainStatus) (new : List DomainNode) (status : String)
    → status_equal old new status ≡ true
    → (old.status ≡ status) × (map name_of old.nodes ≡ map name_of new)
unfolding status_equal
status_equal-names old new status h =
    let (same, rest) = and-true (old.status == status) _ h in
    let (l, names) = and-true (nat_beq (length old.nodes) (length new)) _ rest in
    ((eq_iff old.status status).0 same, same_names-names old.nodes new (nat_beq→eq _ _ l) names)

names-status_equal :
    (old : DomainStatus) (new : List DomainNode) (status : String)
    → old.status ≡ status
    → map name_of old.nodes ≡ map name_of new
    → status_equal old new status ≡ true
unfolding status_equal
names-status_equal old new status same names =
    let (l, h) = names-same_names old.nodes new names in
    rw ((eq_iff old.status status).1 same, l, nat_beq_refl (length new)) h

module _ (api : DomainApi) where
  -- A domain is ready if and only if it wants no more nodes than there are.
  status_enough :
      (num : ℤ) (nodes : List DomainNode)
      → num ≤ℤ pos (length nodes)
      → status_of_nodes api num nodes ≡ api.ready
  unfolding status_of_nodes
  status_enough num nodes h = ground arith

  status_few :
      (num : ℤ) (nodes : List DomainNode)
      → pos (length nodes) <ℤ num
      → status_of_nodes api num nodes ≡ api.not_ready
  unfolding status_of_nodes
  status_few num nodes h = ground arith

  status_as_wanted :
      (num : ℤ) (nodes : List DomainNode) (status : String)
      → (num ≤ℤ pos (length nodes) → status ≡ api.ready)
      → (pos (length nodes) <ℤ num → status ≡ api.not_ready)
      → status ≡ status_of_nodes api num nodes
  status_as_wanted num nodes status enough few =
      elim (Bool-cases (ltb_ℤ (pos (length nodes)) num)) [
        | inl e ↦ few (ground arith) ∙ sym (status_few num nodes (ground arith))
        | inr e ↦ enough (ground arith) ∙ sym (status_enough num nodes (ground arith))
      ]

  -- A reconciliation of a domain that is settled writes nothing.
  pub reconcile-idle :
      (s : api.State) (namespace name : String)
      → IsSettled api s namespace name
      → reconcile api namespace name s ≡ (s, ok tt)
  unfolding reconcile template_name
  reconcile-idle s namespace name i =
      let nodes = nodes_of_claims api i.claims in
      let known =
        names-status_equal i.domain.status nodes (status_of_nodes api i.domain.num_nodes nodes)
          (status_as_wanted i.domain.num_nodes nodes i.domain.status.status i.enough_nodes
            i.few_nodes)
          i.nodes_known in
      rw (i.stored, i.live, i.has_finalizer, i.has_template, i.listed, known) refl

module _ (api : DomainApi) (k : KeepsObjects api) where
  -- The domain after its finalizer was ensured.
  record HasFinalizer (s : api.State) (namespace name : String) (d : ComputeDomain) : Type 0 where
    same_namespace : d.namespace ≡ namespace
    same_name : d.name ≡ name
    stored : api.get_domain s namespace name ≡ ok d
    live : d.deleted ≡ false
    has_finalizer : api.contains_finalizer d.finalizers compute_domain_finalizer ≡ true

  add_missing-HasFinalizer :
      (s s' : api.State) (d d' : ComputeDomain) (b : Bool)
      → api.contains_finalizer d.finalizers compute_domain_finalizer ≡ b
      → api.get_domain s d.namespace d.name ≡ ok d
      → d.deleted ≡ false
      → add_missing api b d s ≡ (s', ok d')
      → HasFinalizer s' d.namespace d.name d'
  unfolding add_missing
  add_missing-HasFinalizer s s' d d' true has stored live e =
      subst (λ q. HasFinalizer q.0 d.namespace d.name (elim q.1 [ ok x ↦ x | _ ↦ d ])) e
        (record {
          same_namespace = refl;
          same_name = refl;
          stored = stored;
          live = live;
          has_finalizer = has;
        })
  add_missing-HasFinalizer s s' d d' false has stored live e =
      let added = api.add_finalizer d.finalizers compute_domain_finalizer in
      let (stored', (version, status, same)) =
        k.updated s s' (record d { finalizers = added }) d' live e in
      let d2 : ComputeDomain = record d {
        finalizers = added;
        resource_version = version;
        status = status;
      } in
      subst (HasFinalizer s' d.namespace d.name) (sym same) (record {
        same_namespace = refl;
        same_name = refl;
        stored = stored' ∙ ap ok same;
        live = live;
        has_finalizer = k.finalizer_added d.finalizers compute_domain_finalizer;
      })

  update_status-IsSettled :
      (s s' : api.State) (namespace name : String) (d : ComputeDomain) (t : Template)
      → HasFinalizer s namespace name d
      → api.get_template s d.namespace (template_name d) ≡ ok t
      → update_status api d s ≡ (s', ok tt)
      → IsSettled api s' namespace name
  unfolding update_status write_status template_name
  update_status-IsSettled s s' namespace name d t f found e =
      let (x, claims, e1, h1) =
        >>=-eq-ok (reads (λ s. api.list_claims s d.namespace compute_domain_claim_label d.name))
          (λ claims. write_status api (known claims) d claims) s e in
      let listed = ap (λ q. q.1) e1 in
      go claims listed (known claims) refl (
        subst (λ y. write_status api (known claims) d claims y ≡ (s', ok tt))
          (sym (ap (λ q. q.0) e1)) h1)
    where
      known : List ResourceClaim → Bool
      known claims =
          let nodes = nodes_of_claims api claims in
          status_equal d.status nodes (status_of_nodes api d.num_nodes nodes)

      go :
          (claims : List ResourceClaim)
          → api.list_claims s d.namespace compute_domain_claim_label d.name ≡ ok claims
          → (b : Bool) → known claims ≡ b
          → write_status api b d claims s ≡ (s', ok tt)
          → IsSettled api s' namespace name
      go claims listed true same h =
          subst (λ y. IsSettled api y namespace name) (ap (λ q. q.0) h)
            (record {
              domain = d;
              template = t;
              claims = claims;
              stored = f.stored;
              live = f.live;
              has_finalizer = f.has_finalizer;
              has_template = found;
              listed = listed;
              nodes_known = (status_equal-names d.status _ _ same).1;
              enough_nodes = λ enough.
                  (status_equal-names d.status _ _ same).0 ∙ status_enough api d.num_nodes _ enough;
              few_nodes = λ few.
                  (status_equal-names d.status _ _ same).0 ∙ status_few api d.num_nodes _ few;
            })
      go claims listed false same h =
          let nodes = nodes_of_claims api claims in
          let wanted : DomainStatus = record {
            status = status_of_nodes api d.num_nodes nodes;
            nodes = nodes;
          } in
          let d1 : ComputeDomain = record d { status = wanted } in
          let (x, d2, e2, h2) = >>=-eq-ok (λ s. api.update_status s d1) (λ d2. lift (ok tt)) s h in
          let e3 : api.update_status s d1 ≡ (s', ok d2) =
            subst (λ y. api.update_status s d1 ≡ (y, ok d2)) (ap (λ q. q.0) h2) e2 in
          let (stored, (version, same2)) = k.status_updated s s' d1 d2 e3 in
          let (templates, claims_kept) = k.status_keeps s d1 in
          let at : (api.update_status s d1).0 ≡ s' = ap (λ q. q.0) e3 in
          record {
            domain = record d1 { resource_version = version };
            template = t;
            claims = claims;
            stored =
                ap₂ (api.get_domain s') (sym f.same_namespace) (sym f.same_name)
                ∙ stored
                ∙ ap ok same2;
            live = f.live;
            has_finalizer = f.has_finalizer;
            has_template =
                subst (λ y. api.get_template y d.namespace (template_name d) ≡ ok t) at
                  (templates d.namespace (template_name d) ∙ found);
            listed =
                subst
                  (λ y. api.list_claims y d.namespace compute_domain_claim_label d.name ≡ ok claims)
                  at (claims_kept d.namespace compute_domain_claim_label d.name ∙ listed);
            nodes_known = refl;
            enough_nodes = status_enough api d.num_nodes nodes;
            few_nodes = status_few api d.num_nodes nodes;
          }

  -- A reconciliation of a live domain that succeeded leaves it settled: with the finalizer, with its
  -- template, and with a status that has the names of its claims' nodes and tells whether they are
  -- enough; and the next one succeeds and writes nothing.
  pub reconcile-IsSettled :
      (s s' : api.State) (namespace name : String) (d : ComputeDomain)
      → api.get_domain s namespace name ≡ ok d
      → d.deleted ≡ false
      → reconcile api namespace name s ≡ (s', ok tt)
      → IsSettled api s' namespace name × (reconcile api namespace name s' ≡ (s', ok tt))
  unfolding reconcile maintain ensure_finalizer
  reconcile-IsSettled s s' namespace name d read live e =
      let (same_namespace, same_name) = k.read_key s namespace name d read in
      let run : maintain api d s ≡ (s', ok tt) = sym (rw (read, live) refl) ∙ e in
      let (t1, d1, e1, h1) =
        >>=-eq-ok (ensure_finalizer api d)
          (λ d'. ensure_resource_claim_templates api d' >> update_status api d') s run in
      let f =
        add_missing-HasFinalizer s t1 d d1
          (api.contains_finalizer d.finalizers compute_domain_finalizer) refl
          (ap₂ (api.get_domain s) same_namespace same_name ∙ read) live e1 in
      let (t2, u, e2, h2) =
        >>=-eq-ok (ensure_resource_claim_templates api d1) (λ u. update_status api d1) t1 h1 in
      let ((t, found), same) = templates-ok api k t1 t2 d1 e2 in
      let f2 : HasFinalizer t2 namespace name d1 = record {
        same_namespace = f.same_namespace ∙ same_namespace;
        same_name = f.same_name ∙ same_name;
        stored =
            same namespace name
            ∙ ap₂ (api.get_domain t1) (sym same_namespace) (sym same_name)
            ∙ f.stored;
        live = f.live;
        has_finalizer = f.has_finalizer;
      } in
      let settled = update_status-IsSettled t2 s' namespace name d1 t f2 found h2 in
      (settled, reconcile-idle api s' namespace name settled)
