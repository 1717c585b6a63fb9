-- ===== src/DomainController/Laws.antt =====
-- What the reconciliation relies on of the API server, and what it is to leave there.
use fake_gpu_operator.Base.Int.{pos, ◌≤ℤ◌, ◌<ℤ◌}
use fake_gpu_operator.Base.{map, length, ◌⊎◌, ◌≡◌, String, true, false, List}
use fake_gpu_operator.Base.Result.{Result, ok, err, not_found, already_exists}
use fake_gpu_operator.Platform.{ResourceClaim}
use fake_gpu_operator.DomainController.{
  ComputeDomain, DomainApi, DomainStatus, Template, compute_domain_finalizer,
  compute_domain_claim_label, template_name, nodes_of_claims, DomainNode, is_owned_by,
}

-- What a write leaves alone.
module _ (api : DomainApi) (s s' : api.State) where
  abbrev pub SameDomains : Type 0
  SameDomains =
      (namespace name : String) → api.get_domain s' namespace name ≡ api.get_domain s namespace name

  abbrev pub SameTemplates : Type 0
  SameTemplates =
      (namespace name : String)
      → api.get_template s' namespace name ≡ api.get_template s namespace name

  abbrev pub SameClaims : Type 0
  SameClaims =
      (namespace key value : String)
      → api.list_claims s' namespace key value ≡ api.list_claims s namespace key value

-- The API server, with no other client in between: an object that was written is read back, under a
-- version of the server's choice; an update leaves the status alone, and an update of the status
-- everything else; a write of one kind of object leaves the others alone.
pub record KeepsObjects (api : DomainApi) : Type 0 where
  pub read_key :
      (s : api.State) (namespace name : String) (d : ComputeDomain)
      → api.get_domain s namespace name ≡ ok d
      → (d.namespace ≡ namespace) × (d.name ≡ name)
  pub updated :
      (s s' : api.State) (d d' : ComputeDomain)
      → d.deleted ≡ false
      → api.update_domain s d ≡ (s', ok d')
      → (api.get_domain s' d.namespace d.name ≡ ok d')
        × ((version : String) × (status : DomainStatus) × (d'
              ≡ record d { resource_version = version; status = status }))
  pub status_updated :
      (s s' : api.State) (d d' : ComputeDomain)
      → api.update_status s d ≡ (s', ok d')
      → (api.get_domain s' d.namespace d.name ≡ ok d')
        × ((version : String) × (d' ≡ record d { resource_version = version }))
  pub status_keeps :
      (s : api.State) (d : ComputeDomain)
      → SameTemplates api s (api.update_status s d).0 × SameClaims api s (api.update_status s d).0
  pub created :
      (s s' : api.State) (t : Template)
      → api.create_template s t ≡ (s', ok tt)
      → (t' : Template) × (api.get_template s' t.namespace t.name ≡ ok t')
  pub existed :
      (s s' : api.State) (t : Template)
      → api.create_template s t ≡ (s', err already_exists)
      → (t' : Template) × (api.get_template s' t.namespace t.name ≡ ok t')
  pub create_keeps : (s : api.State) (t : Template) → SameDomains api s (api.create_template s t).0
  pub owned_key :
      (d : ComputeDomain) (t t' : Template)
      → api.set_controller_reference d t ≡ ok t'
      → (t'.namespace ≡ t.namespace) × (t'.name ≡ t.name)
  pub finalizer_added :
      (finalizers : List String) (f : String)
      → api.contains_finalizer (api.add_finalizer finalizers f) f ≡ true

abbrev pub name_of : DomainNode → String
name_of node = node.name

-- The domain has the finalizer, its template exists, and its status is the one of its claims: the
-- names of its nodes are theirs, in order, and it is ready if and only if it wants no more nodes.
pub record IsSettled (api : DomainApi) (s : api.State) (namespace name : String) : Type 0 where
  pub domain : ComputeDomain
  pub template : Template
  pub claims : List ResourceClaim
  pub stored : api.get_domain s namespace name ≡ ok domain
  pub live : domain.deleted ≡ false
  pub has_finalizer : api.contains_finalizer domain.finalizers compute_domain_finalizer ≡ true
  pub has_template : api.get_template s domain.namespace (template_name domain) ≡ ok template
  pub listed : api.list_claims s domain.namespace compute_domain_claim_label domain.name ≡ ok claims
  pub nodes_known : map name_of domain.status.nodes ≡ map name_of (nodes_of_claims api claims)
  pub enough_nodes :
      domain.num_nodes ≤ℤ pos (length (nodes_of_claims api claims))
      → domain.status.status ≡ api.ready
  pub few_nodes :
      pos (length (nodes_of_claims api claims)) <ℤ domain.num_nodes
      → domain.status.status ≡ api.not_ready

-- What a deletion may leave of the template of a domain: nothing, a template of another owner, or one
-- that is under deletion and does not have the finalizer.
pub data Released (api : DomainApi) (domain : ComputeDomain) : Result Template → Type 0 where
  gone : Released api domain (err not_found)
  not_owned : (t : Template) → is_owned_by t domain ≡ false → Released api domain (ok t)
  leaving :
      (t : Template)
      → t.deleted ≡ true
      → api.contains_finalizer t.finalizers compute_domain_finalizer ≡ false
      → Released api domain (ok t)

-- The API server: a deletion marks the object, or removes it if no finalizer is left; an update
-- under deletion that takes the last finalizer removes the object.
pub record Deletes (api : DomainApi) : Type 0 where
  pub template_updated :
      (s s' : api.State) (t t' : Template)
      → api.update_template s t ≡ (s', ok t')
      → (t'.namespace ≡ t.namespace)
        × (t'.name ≡ t.name)
        × (t'.finalizers ≡ t.finalizers)
        × ((api.get_template s' t.namespace t.name ≡ err not_found)
            ⊎ (api.get_template s' t.namespace t.name ≡ ok t'))
  pub deleted :
      (s s' : api.State) (t : Template)
      → api.delete_template s t ≡ (s', ok tt)
      → (api.get_template s' t.namespace t.name ≡ err not_found)
        ⊎ ((t' : Template) × (api.get_template s t.namespace t.name ≡ ok t')
            × (api.get_template s' t.namespace t.name ≡ ok (record t' { deleted = true })))
  pub deleted_none :
      (s s' : api.State) (t : Template)
      → api.delete_template s t ≡ (s', err not_found)
      → api.get_template s' t.namespace t.name ≡ err not_found
  pub read_key :
      (s : api.State) (namespace name : String) (t : Template)
      → api.get_template s namespace name ≡ ok t
      → (t.namespace ≡ namespace) × (t.name ≡ name)
  pub domain_keeps :
      (s : api.State) (d : ComputeDomain) → SameTemplates api s (api.update_domain s d).0
  pub update_keeps : (s : api.State) (t : Template) → SameDomains api s (api.update_template s t).0
  pub delete_keeps : (s : api.State) (t : Template) → SameDomains api s (api.delete_template s t).0
  pub finalizer_removed :
      (finalizers : List String) (f : String)
      → api.contains_finalizer (api.remove_finalizer finalizers f) f ≡ false
