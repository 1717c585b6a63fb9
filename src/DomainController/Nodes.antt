-- ===== src/DomainController/Nodes.antt =====
-- The nodes that the status of a compute domain lists, and the comparison of statuses.
use fake_gpu_operator.Base.{
  ◌≡◌, refl, sym, ap, ◌∙◌, String, Bool, true, false, ◌||◌, inl, inr, Option, none, some, List, [],
  ◌∷◌, map, any, ◌==◌, eq_iff, eq_refl, arith, Bool-cases, or-false,
}
use mathlib.Core.Bool.{true≢false}
use fake_gpu_operator.Base.Text.{str_lt}
use fake_gpu_operator.Base.Order.{str_lt-total}
use fake_gpu_operator.Platform.{AllocationResult, ResourceClaim}
use fake_gpu_operator.DomainController.{
  DomainApi, DomainNode, insert_node, sort_nodes, add_pool, pools_of_results, pools_of_claim,
  pools_of_claims, ready_node, nodes_of_claims,
}

abbrev pub lists : String → List DomainNode → Bool
lists name nodes = any (λ node. node.name == name) nodes

-- Each name comes before the next one.
abbrev pub IsBefore : String → List DomainNode → Type 0
IsBefore name [] = Unit
IsBefore name (node ∷ nodes) = str_lt name node.name ≡ true

abbrev pub Ascending : List DomainNode → Type 0
Ascending [] = Unit
Ascending (node ∷ nodes) = IsBefore node.name nodes × Ascending nodes

insert_node-lists :
    (u : String) (n : DomainNode) (ns : List DomainNode)
    → lists u (insert_node n ns) ≡ ((n.name == u) || lists u ns)
unfolding insert_node
insert_node-lists u n [] = refl
insert_node-lists u n (m ∷ ns) = ground (arith, insert_node-lists u n ns)

insert_node-IsBefore :
    (name : String) (n : DomainNode) (ns : List DomainNode)
    → str_lt name n.name ≡ true
    → IsBefore name ns
    → IsBefore name (insert_node n ns)
unfolding insert_node
insert_node-IsBefore name n [] h b = h
insert_node-IsBefore name n (m ∷ ns) h b = elim (Bool-cases (str_lt m.name n.name)) [
  | inl e ↦ rw e b
  | inr e ↦ rw e h
]

insert_node-Ascending :
    (n : DomainNode) (ns : List DomainNode)
    → lists n.name ns ≡ false
    → Ascending ns
    → Ascending (insert_node n ns)
unfolding insert_node
insert_node-Ascending n [] new a = (tt, tt)
insert_node-Ascending n (m ∷ ns) new (b, a) =
    let (other, rest) = or-false (m.name == n.name) (lists n.name ns) new in
    elim (Bool-cases (str_lt m.name n.name)) [
      | inl e ↦ rw e (insert_node-IsBefore m.name n ns e b, insert_node-Ascending n ns rest a)
      | inr e ↦ rw e (
        elim (str_lt-total m.name n.name e) [
          | inl same ↦ absurd (true≢false (sym ((eq_iff m.name n.name).1 same) ∙ other))
          | inr lt ↦ lt
        ],
        (b, a),
      )
    ]

or_true : (b : Bool) → true ≡ (b || true)
or_true b = ground arith

or_false : (b : Bool) → b ≡ (b || false)
or_false b = ground arith

-- Each name is listed once.
abbrev Distinct : List String → Type 0
Distinct [] = Unit
Distinct (u ∷ us) = (any (λ v. v == u) us ≡ false) × Distinct us

sort_nodes-lists : (u : String) (ns : List DomainNode) → lists u (sort_nodes ns) ≡ lists u ns
unfolding sort_nodes
sort_nodes-lists u [] = refl
sort_nodes-lists u (n ∷ ns) =
    insert_node-lists u n (sort_nodes ns) ∙ ap (λ b. (n.name == u) || b) (sort_nodes-lists u ns)

-- A pool that some result of the claims is in, and that has a name.
abbrev pub in_results : String → List AllocationResult → Bool
in_results u results = any (λ result. result.pool == u) results

abbrev pub in_claim : String → Option (List AllocationResult) → Bool
in_claim u none = false
in_claim u (some results) = in_results u results

abbrev pub in_claims : String → List ResourceClaim → Bool
in_claims u claims = any (λ claim. in_claim u claim.allocation) claims

abbrev has : String → List String → Bool
has u pools = any (λ pool. pool == u) pools

add_pool-has :
    (u : String) (r : AllocationResult) (pools : List String)
    → (u == "") ≡ false
    → has u (add_pool r pools) ≡ (has u pools || (r.pool == u))
add_pool-has u r pools ne = elim (Bool-cases (r.pool == u)) [
  | inl e ↦ elim (Bool-cases (has u pools)) [
    | inl h ↦ rw ((eq_iff r.pool u).0 e, h, ← or_true (u == ""), h) refl
    | inr h ↦ rw ((eq_iff r.pool u).0 e, ne, h, eq_refl u) refl
  ]
  | inr e ↦ elim (Bool-cases (r.pool == "" || has r.pool pools)) [
    | inl h ↦ rw (h, e) (or_false (has u pools))
    | inr h ↦ rw (h, e) (or_false (has u pools))
  ]
]

add_pool-Distinct :
    (r : AllocationResult) (pools : List String) → Distinct pools → Distinct (add_pool r pools)
add_pool-Distinct r pools d = elim (Bool-cases (r.pool == "" || has r.pool pools)) [
  | inl h ↦ rw h d
  | inr h ↦ rw h ((or-false (r.pool == "") (has r.pool pools) h).1, d)
]

or_assoc : (a b c : Bool) → ((a || b) || c) ≡ (a || (b || c))
or_assoc a b c = ground arith

pools_of_results-has :
    (u : String) (rs : List AllocationResult) (pools : List String)
    → (u == "") ≡ false
    → has u (pools_of_results rs pools) ≡ (has u pools || in_results u rs)
unfolding pools_of_results
pools_of_results-has u [] pools ne = (or_false (has u pools))
pools_of_results-has u (r ∷ rs) pools ne =
    pools_of_results-has u rs (add_pool r pools) ne
    ∙ ap (λ b. b || in_results u rs) (add_pool-has u r pools ne)
    ∙ or_assoc (has u pools) (r.pool == u) (in_results u rs)

pools_of_claim-has :
    (u : String) (results : Option (List AllocationResult)) (pools : List String)
    → (u == "") ≡ false
    → has u (pools_of_claim results pools) ≡ (has u pools || in_claim u results)
pools_of_claim-has u none pools ne = (or_false (has u pools))
pools_of_claim-has u (some rs) pools ne = pools_of_results-has u rs pools ne

pools_of_claims-has :
    (u : String) (claims : List ResourceClaim) (pools : List String)
    → (u == "") ≡ false
    → has u (pools_of_claims claims pools) ≡ (has u pools || in_claims u claims)
unfolding pools_of_claims
pools_of_claims-has u [] pools ne = (or_false (has u pools))
pools_of_claims-has u (c ∷ cs) pools ne =
    pools_of_claims-has u cs (pools_of_claim c.allocation pools) ne
    ∙ ap (λ b. b || in_claims u cs) (pools_of_claim-has u c.allocation pools ne)
    ∙ or_assoc (has u pools) (in_claim u c.allocation) (in_claims u cs)

pools_of_results-Distinct :
    (rs : List AllocationResult) (pools : List String)
    → Distinct pools
    → Distinct (pools_of_results rs pools)
unfolding pools_of_results
pools_of_results-Distinct [] pools d = d
pools_of_results-Distinct (r ∷ rs) pools d =
    pools_of_results-Distinct rs (add_pool r pools) (add_pool-Distinct r pools d)

pools_of_claim-Distinct :
    (results : Option (List AllocationResult)) (pools : List String)
    → Distinct pools
    → Distinct (pools_of_claim results pools)
pools_of_claim-Distinct none pools d = d
pools_of_claim-Distinct (some rs) pools d = pools_of_results-Distinct rs pools d

pools_of_claims-Distinct :
    (claims : List ResourceClaim) (pools : List String)
    → Distinct pools
    → Distinct (pools_of_claims claims pools)
unfolding pools_of_claims
pools_of_claims-Distinct [] pools d = d
pools_of_claims-Distinct (c ∷ cs) pools d =
    pools_of_claims-Distinct cs (pools_of_claim c.allocation pools)
      (pools_of_claim-Distinct c.allocation pools d)

module _ (api : DomainApi) where
  ready-lists :
      (u : String) (pools : List String) → lists u (map (ready_node api) pools) ≡ has u pools
  ready-lists u [] = refl
  ready-lists u (p ∷ ps) = ap (λ b. (p == u) || b) (ready-lists u ps)

  sorted-Ascending :
      (pools : List String) → Distinct pools → Ascending (sort_nodes (map (ready_node api) pools))
  unfolding sort_nodes
  sorted-Ascending [] d = tt
  sorted-Ascending (p ∷ ps) (new, d) =
      insert_node-Ascending (ready_node api p) (sort_nodes (map (ready_node api) ps))
        (sort_nodes-lists p (map (ready_node api) ps) ∙ ready-lists p ps ∙ new)
        (sorted-Ascending ps d)

  -- The nodes of the status are in ascending order of their names, none twice, and a node with a
  -- name is listed if and only if some allocated claim has a result in its pool.
  pub nodes_of_claims_exact :
      (claims : List ResourceClaim)
      → Ascending (nodes_of_claims api claims)
        × ((u : String)
            → (u == "") ≡ false
            → lists u (nodes_of_claims api claims) ≡ in_claims u claims)
  unfolding nodes_of_claims
  nodes_of_claims_exact claims = (
    sorted-Ascending (pools_of_claims claims []) (pools_of_claims-Distinct claims [] tt),
    λ u ne.
        sort_nodes-lists u (map (ready_node api) (pools_of_claims claims []))
        ∙ ready-lists u (pools_of_claims claims [])
        ∙ pools_of_claims-has u claims [] ne,
  )
