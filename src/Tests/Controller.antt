-- ===== src/Tests/Controller.antt =====
-- An API server with compute domains and templates in memory, and the reconciliation of a domain.
use fake_gpu_operator.Base.{
  String, true, false, ◌≡◌, refl, sym, ap, ◌∙◌, subst, ◌&&◌, Option, none, some, List, [], ◌∷◌, any,
  ◌==◌, if◌then◌else◌, eq_refl, inl, inr, ◌⊎◌,
}
use fake_gpu_operator.Base.Int.{pos}
use fake_gpu_operator.Base.Result.{
  Result, ok, err, not_found, already_exists, err-ne-ok, ok-injective,
}
use fake_gpu_operator.Platform.{ResourceClaim}
use fake_gpu_operator.DomainController.{
  ComputeDomain, DomainApi, Template, template_name, status_equal, status_of_nodes, nodes_of_claims,
}
use fake_gpu_operator.DomainController.Calls.{reconcile}
use fake_gpu_operator.DomainController.Laws.{KeepsObjects, IsSettled, SameDomains}
use fake_gpu_operator.DomainController.Settled.{reconcile-IsSettled}
use fake_gpu_operator.DomainController.Nodes.{Ascending, lists, in_claims, nodes_of_claims_exact}

-- Objects by namespace and name; an object's own two are those that it is stored under.
abbrev Objects : Type 0 → Type 0
Objects A = String → String → Option A

record Store : Type 0 where
  domains : Objects ComputeDomain
  templates : Objects Template

abbrev put : {A : Type 0} → Objects A → String → String → Option A → Objects A
put f namespace name v namespace' name' =
    if namespace == namespace' && name == name' then v else f namespace' name'

abbrev read_domain : String → String → Option ComputeDomain → Result ComputeDomain
read_domain namespace name none = err not_found
read_domain namespace name (some d) = ok (record d { namespace = namespace; name = name })

abbrev get_domain : Store → String → String → Result ComputeDomain
get_domain s namespace name = read_domain namespace name (s.domains namespace name)

abbrev read_template : String → String → Option Template → Result Template
read_template namespace name none = err not_found
read_template namespace name (some t) = ok (record t { namespace = namespace; name = name })

abbrev get_template : Store → String → String → Result Template
get_template s namespace name = read_template namespace name (s.templates namespace name)

abbrev put_template : Store → Template → Option Template → Store
put_template s t v = record s { templates = put s.templates t.namespace t.name v }

abbrev put_domain : Store → ComputeDomain → Store
put_domain s d = record s { domains = put s.domains d.namespace d.name (some d) }

abbrev create_absent : Store → Template → Option Template → Store × Result (Unit {0})
create_absent s t none = (put_template s t (some t), ok tt)
create_absent s t (some old) = (s, err already_exists)

abbrev mark : Store → Template → List String → Store
mark s t [] = put_template s t none
mark s t (f ∷ fs) = put_template s t (some (record t { deleted = true }))

abbrev delete_present : Store → Template → Option Template → Store × Result (Unit {0})
delete_present s t none = (s, err not_found)
delete_present s t (some old) =
    (mark s (record old { namespace = t.namespace; name = t.name }) old.finalizers, ok tt)

abbrev without : List String → String → List String
without [] f = []
without (g ∷ gs) f = let rest = without gs f in if g == f then rest else g ∷ rest

abbrev claims : List ResourceClaim
claims =
    record {
      allocation = some (
          record {
            request = "channel";
            driver = "compute-domain.nvidia.com";
            pool = "node-2";
            device = "channel-0";
          }
          ∷ record {
            request = "channel";
            driver = "compute-domain.nvidia.com";
            pool = "node-1";
            device = "channel-0";
          }
          ∷ []);
    }
    ∷ record { allocation = none }
    ∷ []

abbrev api : DomainApi
api = record {
  State = Store;
  get_domain = get_domain;
  update_domain = λ s d. (put_domain s d, ok d);
  update_status = λ s d. (put_domain s d, ok d);
  get_template = get_template;
  create_template = λ s t. create_absent s t (s.templates t.namespace t.name);
  update_template = λ s t. (put_template s t (some t), ok t);
  delete_template = λ s t. delete_present s t (s.templates t.namespace t.name);
  list_claims = λ s namespace key value. ok claims;
  contains_finalizer = λ fs f. any (λ g. g == f) fs;
  add_finalizer = λ fs f. f ∷ fs;
  remove_finalizer = without;
  set_controller_reference =
      λ d t. ok (record t { owners = record { kind = "ComputeDomain"; name = d.name } ∷ [] });
  ready = "Ready";
  not_ready = "NotReady";
}

put_found :
    {A : Type 0} (f : Objects A) (namespace name : String) (v : Option A)
    → put f namespace name v namespace name ≡ v
put_found f namespace name v = rw (eq_refl namespace, eq_refl name) refl

created :
    (s s' : Store) (t : Template) (old : Option Template)
    → s.templates t.namespace t.name ≡ old
    → create_absent s t old ≡ (s', ok tt)
    → (t' : Template) × (get_template s' t.namespace t.name ≡ ok t')
created s s' t none e h =
    subst (λ y. (t' : Template) × (get_template y t.namespace t.name ≡ ok t')) (ap (λ q. q.0) h)
      (t, ap (read_template t.namespace t.name) (put_found s.templates t.namespace t.name (some t)))
created s s' t (some old) e h = absurd (err-ne-ok (ap (λ q. q.1) h))

existed :
    (s s' : Store) (t : Template) (old : Option Template)
    → s.templates t.namespace t.name ≡ old
    → create_absent s t old ≡ (s', err already_exists)
    → (t' : Template) × (get_template s' t.namespace t.name ≡ ok t')
existed s s' t none e h = absurd (err-ne-ok (sym (ap (λ q. q.1) h)))
existed s s' t (some old) e h =
    subst (λ y. (t' : Template) × (get_template y t.namespace t.name ≡ ok t')) (ap (λ q. q.0) h)
      (
        record old { namespace = t.namespace; name = t.name },
        ap (read_template t.namespace t.name) e,
      )

create_keeps :
    (s : Store) (t : Template) (old : Option Template) → SameDomains api s (create_absent s t old).0
create_keeps s t none = λ namespace name. refl
create_keeps s t (some old) = λ namespace name. refl

put_domain_found :
    (s s' : Store) (d d' : ComputeDomain)
    → ◌≡◌ {A = Store × Result ComputeDomain} (put_domain s d, ok d) (s', ok d')
    → (get_domain s' d.namespace d.name ≡ ok d') × (d' ≡ d)
put_domain_found s s' d d' h =
    let same : d ≡ d' = ok-injective (ap (λ q. q.1) h) in
    (
      subst (λ y. get_domain y d.namespace d.name ≡ ok d) (ap (λ q. q.0) h)
            (ap (read_domain d.namespace d.name) (put_found s.domains d.namespace d.name (some d)))
          ∙ ap ok same,
      sym same,
    )

read_key :
    (namespace name : String) (d : ComputeDomain) (found : Option ComputeDomain)
    → read_domain namespace name found ≡ ok d
    → (d.namespace ≡ namespace) × (d.name ≡ name)
read_key namespace name d none h = absurd (err-ne-ok h)
read_key namespace name d (some x) h =
    let same = sym (ok-injective h) in
    (ap (λ (x : ComputeDomain). x.namespace) same, ap (λ (x : ComputeDomain). x.name) same)

keeps : KeepsObjects api
keeps = record {
  read_key = λ s namespace name d h. read_key namespace name d (s.domains namespace name) h;
  updated = λ s s' d d' live h.
      let (found, same) = put_domain_found s s' d d' h in
      (found, (d.resource_version, d.status, same));
  status_updated = λ s s' d d' h.
      let (found, same) = put_domain_found s s' d d' h in (found, (d.resource_version, same));
  status_keeps = λ s d. (λ namespace name. refl, λ namespace key value. refl);
  created = λ s s' t h. created s s' t (s.templates t.namespace t.name) refl h;
  existed = λ s s' t h. existed s s' t (s.templates t.namespace t.name) refl h;
  create_keeps = λ s t. create_keeps s t (s.templates t.namespace t.name);
  owned_key = λ d t t' h.
      let same = sym (ok-injective h) in
      (ap (λ (x : Template). x.namespace) same, ap (λ (x : Template). x.name) same);
  finalizer_added = λ fs f. rw (eq_refl f) refl;
}

marked :
    (s : Store) (t : Template) (fs : List String)
    → (get_template (mark s t fs) t.namespace t.name ≡ err not_found)
      ⊎ (get_template (mark s t fs) t.namespace t.name ≡ ok (record t { deleted = true }))
marked s t [] =
    inl (ap (read_template t.namespace t.name) (put_found s.templates t.namespace t.name none))
marked s t (f ∷ fs) = inr (
    ap (read_template t.namespace t.name)
      (put_found s.templates t.namespace t.name (some (record t { deleted = true }))))

deleted :
    (s s' : Store) (t : Template) (old : Option Template)
    → s.templates t.namespace t.name ≡ old
    → delete_present s t old ≡ (s', ok tt)
    → (get_template s' t.namespace t.name ≡ err not_found)
      ⊎ ((t' : Template) × (get_template s t.namespace t.name ≡ ok t')
          × (get_template s' t.namespace t.name ≡ ok (record t' { deleted = true })))
deleted s s' t none e h = absurd (err-ne-ok (ap (λ q. q.1) h))
deleted s s' t (some old) e h =
    let t' : Template = record old { namespace = t.namespace; name = t.name } in
    subst
      (λ y.
        (get_template y t.namespace t.name ≡ err not_found)
        ⊎ ((t' : Template) × (get_template s t.namespace t.name ≡ ok t')
            × (get_template y t.namespace t.name ≡ ok (record t' { deleted = true }))))
      (ap (λ q. q.0) h)
      (elim (marked s t' old.finalizers) [
        | inl gone ↦ inl gone
        | inr now ↦ inr (t', ap (read_template t.namespace t.name) e, now)
      ])

abbrev domain : ComputeDomain
domain = record {
  name = "cd";
  namespace = "default";
  uid = "uid-1";
  deleted = false;
  finalizers = [];
  num_nodes = pos 2;
  channel = some (record { allocation_mode = ""; template_name = "cd-template" });
  status = record { status = ""; nodes = [] };
  resource_version = "1";
}

abbrev start : Store
start = record {
  domains = put (λ namespace name. none) "default" "cd" (some domain);
  templates = λ namespace name. none;
}

abbrev reconciled : Store
reconciled = (reconcile api "default" "cd" start).0

reconciling : reconcile api "default" "cd" start ≡ (reconciled, ok tt)
unfolding reconcile status_equal status_of_nodes nodes_of_claims
reconciling = refl

reconcile-IsSettled_example :
    IsSettled api reconciled "default" "cd"
    × (reconcile api "default" "cd" reconciled ≡ (reconciled, ok tt))
reconcile-IsSettled_example =
    reconcile-IsSettled api keeps start reconciled "default" "cd" domain refl refl reconciling

nodes_of_claims_exact_example :
    Ascending (nodes_of_claims api claims)
    × ((u : String) → (u == "") ≡ false → lists u (nodes_of_claims api claims) ≡ in_claims u claims)
nodes_of_claims_exact_example = nodes_of_claims_exact api claims

-- The domain with the finalizer, under deletion.
abbrev leaving_domain : ComputeDomain
leaving_domain = record domain {
  deleted = true;
  finalizers = "computedomain.resource.nvidia.com/finalizer" ∷ [];
}
