-- ===== src/DomainController/Calls.antt =====
-- internal/compute-domain-controller/computedomain_controller.go: the reconciliation.
use fake_gpu_operator.Base.{String, Bool, true, false, none, some, List, [], ◌∷◌}
use fake_gpu_operator.Base.Dict.{Dict, lookup}
use fake_gpu_operator.Base.Result.{Result, ok, err, panic, not_found, already_exists}
use fake_gpu_operator.Base.Effect.{Eff, ◌>>=◌, ◌>>◌, lift, reads}
use fake_gpu_operator.Platform.{ResourceClaim}
use fake_gpu_operator.DomainController.{
  ComputeDomain, DomainApi, Template, compute_domain_finalizer, compute_domain_claim_label,
  is_owned_by, template_name, template_of, nodes_of_claims, status_of_nodes, status_equal,
}

-- client.IgnoreNotFound and client.IgnoreAlreadyExists.
abbrev pub ignore_not_found : Result (Unit {0}) → Result (Unit {0})
ignore_not_found (err not_found) = ok tt
ignore_not_found r = r

abbrev pub ignore_already_exists : Result (Unit {0}) → Result (Unit {0})
ignore_already_exists (err already_exists) = ok tt
ignore_already_exists r = r

-- A claim's namespace and labels; the name and the namespace of the domain that it is of.
unfoldable pub map_resource_claim_to_compute_domain : String → Dict String → List (String × String)
map_resource_claim_to_compute_domain namespace labels =
    elim (lookup compute_domain_claim_label labels) [
      | none ↦ []
      | some domain_name ↦ (namespace, domain_name) ∷ []
    ]

module _ (api : DomainApi) where
  -- By whether the finalizer is there.
  unfoldable pub add_missing : Bool → ComputeDomain → Eff api.State ComputeDomain
  add_missing true domain = lift (ok domain)
  add_missing false domain = λ s.
      api.update_domain s (record domain {
        finalizers = api.add_finalizer domain.finalizers compute_domain_finalizer;
      })

  unfoldable pub ensure_finalizer : ComputeDomain → Eff api.State ComputeDomain
  unfolding add_missing
  ensure_finalizer domain =
      add_missing (api.contains_finalizer domain.finalizers compute_domain_finalizer) domain

  abbrev pub create_template : Template → Eff api.State (Unit {0})
  create_template template s =
      let (s', r) = api.create_template s template in (s', ignore_already_exists r)

  -- By what the read of the template found.
  unfoldable pub create_missing :
      ComputeDomain → String → String → String → Result Template → Eff api.State (Unit {0})
  create_missing domain name device_class template_type (ok existing) = lift (ok tt)
  create_missing domain name device_class template_type (err not_found) =
      lift
        (api.set_controller_reference domain (template_of domain name device_class template_type))
      >>= create_template
  create_missing domain name device_class template_type (err e) = lift (err e)
  create_missing domain name device_class template_type panic = lift panic

  unfoldable pub ensure_template :
      ComputeDomain → String → String → String → Eff api.State (Unit {0})
  unfolding create_missing
  ensure_template domain name device_class template_type s =
      create_missing domain name device_class template_type
        (api.get_template s domain.namespace name) s

  unfoldable pub ensure_resource_claim_templates : ComputeDomain → Eff api.State (Unit {0})
  unfolding ensure_template
  ensure_resource_claim_templates domain =
      ensure_template domain (template_name domain) "compute-domain-default-channel.nvidia.com"
        "workload"

  -- By whether the status is the wanted one.
  unfoldable pub write_status : Bool → ComputeDomain → List ResourceClaim → Eff api.State (Unit {0})
  write_status true domain claims = lift (ok tt)
  write_status false domain claims =
      (λ s. api.update_status s (record domain {
        status = record {
          status = status_of_nodes api domain.num_nodes (nodes_of_claims api claims);
          nodes = nodes_of_claims api claims;
        };
      }))
      >> lift (ok tt)

  unfoldable pub update_status : ComputeDomain → Eff api.State (Unit {0})
  unfolding write_status
  update_status domain =
      reads (λ s. api.list_claims s domain.namespace compute_domain_claim_label domain.name)
      >>= λ claims.
          (let nodes = nodes_of_claims api claims in
            write_status
              (status_equal domain.status nodes (status_of_nodes api domain.num_nodes nodes)) domain
              claims)

  -- The template without the finalizer, by whether it has it.
  unfoldable pub remove_present : Bool → Template → Eff api.State Template
  remove_present false template = lift (ok template)
  remove_present true template = λ s. api.update_template s (record template {
    finalizers = api.remove_finalizer template.finalizers compute_domain_finalizer;
  })

  abbrev pub delete_template : Template → Eff api.State (Unit {0})
  delete_template template s =
      let (s', r) = api.delete_template s template in (s', ignore_not_found r)

  -- A template that was read, by whether the domain owns it.
  unfoldable pub delete_owned : Bool → Template → Eff api.State (Unit {0})
  unfolding remove_present
  delete_owned false template = lift (ok tt)
  delete_owned true template =
      remove_present (api.contains_finalizer template.finalizers compute_domain_finalizer) template
      >>= delete_template

  unfoldable pub delete_found : ComputeDomain → Result Template → Eff api.State (Unit {0})
  unfolding delete_owned
  delete_found domain (ok template) = delete_owned (is_owned_by template domain) template
  delete_found domain (err not_found) = lift (ok tt)
  delete_found domain (err e) = lift (err e)
  delete_found domain panic = lift panic

  unfoldable pub delete_resource_claim_templates : ComputeDomain → Eff api.State (Unit {0})
  unfolding delete_found
  delete_resource_claim_templates domain s =
      delete_found domain (api.get_template s domain.namespace (template_name domain)) s

  abbrev pub release_domain : ComputeDomain → Eff api.State (Unit {0})
  release_domain domain =
      (λ s. api.update_domain s (record domain {
        finalizers = api.remove_finalizer domain.finalizers compute_domain_finalizer;
      }))
      >> lift (ok tt)

  -- By whether the domain has the finalizer.
  unfoldable pub finalize : Bool → ComputeDomain → Eff api.State (Unit {0})
  unfolding delete_resource_claim_templates
  finalize false domain = lift (ok tt)
  finalize true domain = delete_resource_claim_templates domain >> release_domain domain

  unfoldable pub handle_deletion : ComputeDomain → Eff api.State (Unit {0})
  unfolding finalize
  handle_deletion domain =
      finalize (api.contains_finalizer domain.finalizers compute_domain_finalizer) domain

  -- The domain after its update is the one that the rest works on.
  unfoldable pub maintain : ComputeDomain → Eff api.State (Unit {0})
  unfolding ensure_finalizer ensure_resource_claim_templates update_status
  maintain domain = ensure_finalizer domain >>= λ domain'.
      ensure_resource_claim_templates domain' >> update_status domain'

  unfoldable pub reconcile_found : Bool → ComputeDomain → Eff api.State (Unit {0})
  unfolding handle_deletion maintain
  reconcile_found true domain = handle_deletion domain
  reconcile_found false domain = maintain domain

  unfoldable pub reconcile_read : Result ComputeDomain → Eff api.State (Unit {0})
  unfolding reconcile_found
  reconcile_read (ok domain) = reconcile_found domain.deleted domain
  reconcile_read (err not_found) = lift (ok tt)
  reconcile_read (err e) = lift (err e)
  reconcile_read panic = lift panic

  -- By the namespace and the name of the request.
  unfoldable pub reconcile : String → String → Eff api.State (Unit {0})
  unfolding reconcile_read
  reconcile namespace name s = reconcile_read (api.get_domain s namespace name) s
