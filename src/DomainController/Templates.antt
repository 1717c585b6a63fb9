-- ===== src/DomainController/Templates.antt =====
-- What ensureTemplate leaves.
use fake_gpu_operator.Base.{◌≡◌, refl, sym, ap, ◌∙◌, ap₂, subst, String}
use fake_gpu_operator.Base.Result.{
  Result, ok, err, panic, not_found, already_exists, err-ne-ok, panic-ne-ok,
}
use fake_gpu_operator.Base.Effect.{lift, >>=-eq-ok}
use fake_gpu_operator.DomainController.{
  ComputeDomain, DomainApi, Template, template_name, template_of,
}
use fake_gpu_operator.DomainController.Calls.{
  ensure_template, ensure_resource_claim_templates, create_missing, create_template,
  ignore_already_exists,
}
use fake_gpu_operator.DomainController.Laws.{SameDomains, KeepsObjects}

module _ (api : DomainApi) (k : KeepsObjects api) where
  create_template-ok :
      (s s' : api.State) (t : Template)
      → create_template api t s ≡ (s', ok tt)
      → ((t' : Template) × (api.get_template s' t.namespace t.name ≡ ok t')) × SameDomains api s s'
  create_template-ok s s' t e = go (api.create_template s t) refl (k.create_keeps s t) e
    where
      go :
          (q : api.State × Result (Unit {0}))
          → api.create_template s t ≡ q
          → SameDomains api s q.0
          → ◌≡◌ {A = api.State × Result (Unit {0})} (q.0, ignore_already_exists q.1) (s', ok tt)
          → ((t' : Template) × (api.get_template s' t.namespace t.name ≡ ok t'))
            × SameDomains api s s'
      go (x, ok _) c keeps h =
          subst
            (λ y.
              ((t' : Template) × (api.get_template y t.namespace t.name ≡ ok t'))
              × SameDomains api s y)
            (ap (λ q. q.0) h) (k.created s x t c, keeps)
      go (x, err already_exists) c keeps h =
          subst
            (λ y.
              ((t' : Template) × (api.get_template y t.namespace t.name ≡ ok t'))
              × SameDomains api s y)
            (ap (λ q. q.0) h) (k.existed s x t c, keeps)
      go (x, err e') c keeps h = absurd (err-ne-ok (ap (λ q. q.1) h))
      go (x, panic) c keeps h = absurd (panic-ne-ok (ap (λ q. q.1) h))

  pub templates-ok :
      (s s' : api.State) (d : ComputeDomain)
      → ensure_resource_claim_templates api d s ≡ (s', ok tt)
      → ((t : Template) × (api.get_template s' d.namespace (template_name d) ≡ ok t))
        × SameDomains api s s'
  unfolding ensure_resource_claim_templates ensure_template create_missing template_of
  templates-ok s s' d e = go (api.get_template s d.namespace (template_name d)) refl e
    where
      device_class : String
      device_class = "compute-domain-default-channel.nvidia.com"

      go :
          (r : Result Template)
          → api.get_template s d.namespace (template_name d) ≡ r
          → create_missing api d (template_name d) device_class "workload" r s ≡ (s', ok tt)
          → ((t : Template) × (api.get_template s' d.namespace (template_name d) ≡ ok t))
            × SameDomains api s s'
      go (ok t) found h =
          subst
            (λ y.
              ((t' : Template) × (api.get_template y d.namespace (template_name d) ≡ ok t'))
              × SameDomains api s y)
            (ap (λ q. q.0) h) ((t, found), λ namespace name. refl)
      go (err not_found) found h =
          let t = template_of d (template_name d) device_class "workload" in
          let (x, t1, e1, h1) =
            >>=-eq-ok (lift (api.set_controller_reference d t)) (create_template api) s h in
          let (same_namespace, same_name) = k.owned_key d t t1 (ap (λ q. q.1) e1) in
          let ((t2, stored), same) =
            create_template-ok s s' t1
              (subst (λ y. create_template api t1 y ≡ (s', ok tt)) (sym (ap (λ q. q.0) e1)) h1) in
          ((t2, ap₂ (api.get_template s') (sym same_namespace) (sym same_name) ∙ stored), same)
      go (err e') found h = absurd (err-ne-ok (ap (λ q. q.1) h))
      go panic found h = absurd (panic-ne-ok (ap (λ q. q.1) h))
