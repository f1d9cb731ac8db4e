-- ===== src/Reach/Validate.antt =====
-- `validate_reachability_witnesses`, and the whole construction, which ends with it.
use chip_chain_v.Prelude.{
  ℕ, ℕ_eq, leb, String, String_eq, Bool, true, false, ◌&&◌, ◌||◌, ◌==◌, option_eq, iff, Eq, Option,
  none, some, List, [], ◌∷◌, map, all, any, contains, length, is_nonempty, if◌then◌else◌, Result,
  ok, err, ◌>>◌, ◌>>=◌, require, traverse,
}
use chip_chain_v.Capability.{is_distinct}
use chip_chain_v.Reach.Catalog.{
  SourceIdentities, FunctionBinding, CfgNode, CfgEdge, FunctionEdge, Cfg, node_named, edge_named,
  function_edge_named, is_reachable, FunctionFact, SiteFact, ReachabilityCatalog, check_cfg,
}
use chip_chain_v.Reach.Build.{
  binding_named, pairs_from, judge_pair, function_pairs, Site, judge_site, catalog_of, canonical,
  function_key,
}

abbrev pub list_eq {ℓ} : {A : Type ℓ} ⦃e : Eq A⦄ → List A → List A → Bool
list_eq [] [] = true
list_eq (x ∷ xs) (y ∷ ys) = x == y && list_eq xs ys
list_eq _ _ = false

-- `==` of the identities.
unfoldable pub same_identities : SourceIdentities → SourceIdentities → Bool
same_identities a b =
    a.case_id == b.case_id
    && a.elf_artifact_id == b.elf_artifact_id
    && a.elf_sha256 == b.elf_sha256
    && a.elf_size == b.elf_size
    && a.a2_sha256 == b.a2_sha256
    && a.a3_sha256 == b.a3_sha256
    && a.a4_sha256 == b.a4_sha256
    && a.address_policy == b.address_policy
    && list_eq a.function_starts b.function_starts

abbrev pub pair_eq : String × String → String × String → Bool
pair_eq a b = a.0 == b.0 && a.1 == b.1

-- `a in pairs`
abbrev pub has_pair : List (String × String) → String × String → Bool
has_pair ps a = any (pair_eq a) ps

-- The identifiers of all pairs of different functions.
abbrev pub expected_pairs : List FunctionBinding → List (String × String)
expected_pairs bs = map (λ q. (q.0.function_id, q.1.function_id)) (pairs_from bs bs)

abbrev pub first_of {ℓ} : {A : Type ℓ} → List A → Option A
first_of [] = none
first_of (x ∷ xs) = some x

abbrev pub last_of {ℓ} : {A : Type ℓ} → List A → Option A
last_of [] = none
last_of (x ∷ []) = some x
last_of (x ∷ y ∷ xs) = last_of (y ∷ xs)

-- A test of `(a, b, id)` for each element of `zip(path, path[1:], ids)`.
unfoldable pub steps_ok {ℓ} : {N : Type ℓ} → (N → N → String → Bool) → List N → List String → Bool
steps_ok test (x ∷ y ∷ path) (i ∷ ids) = test x y i && steps_ok test (y ∷ path) ids
steps_ok test _ _ = true

abbrev pub entry_in : Option FunctionBinding → Result ℕ
entry_in none = err "KeyError"
entry_in (some b) = ok b.expected_entry_address

-- `bindings[id].expected_entry_address`, where a missing key raises.
unfoldable pub entry_of : List FunctionBinding → Option String → Result ℕ
entry_of bs o = entry_in (binding_named bs o)

abbrev joins_function : Option FunctionEdge → ℕ → ℕ → Bool
joins_function none a b = false
joins_function (some x) a b = x.source_address == a && x.target_address == b

abbrev pub function_step : Cfg → ℕ → ℕ → String → Bool
function_step c a b i = joins_function (function_edge_named c.function_edges i) a b

-- The body of the loop over the facts on functions.
unfoldable pub check_function_witness : Cfg → ℕ → FunctionFact → Result (Unit {0})
unfolding steps_ok entry_of
check_function_witness c bound f =
    let checks = do
      require (leb (length f.witness_edge_ids) bound) "Function path exceeds bound"
      source ← entry_of c.function_bindings (some f.source_function_id)
      target ← entry_of c.function_bindings (some f.target_function_id)
      require
          (option_eq (first_of f.witness_function_addresses) (some source)
            && option_eq (last_of f.witness_function_addresses) (some target))
          "Wrong witness endpoints"
      require (steps_ok (function_step c) f.witness_function_addresses f.witness_edge_ids)
          "Broken function witness"
    in if is_reachable f.status then checks else ok tt

abbrev pub owned_in : Option CfgNode → ℕ → Bool
owned_in none owner = false
owned_in (some n) owner = option_eq n.function_canonical_address (some owner)

abbrev pub is_owned : List CfgNode → ℕ → String → Bool
is_owned nodes owner i = owned_in (node_named nodes i) owner

abbrev pub starts_at : Option CfgNode → ℕ → Bool
starts_at none owner = false
starts_at (some n) owner = n.canonical_address == owner

abbrev pub holds_site : Option CfgNode → ℕ → Bool
holds_site none address = false
holds_site (some n) address = contains n.instruction_addresses address

abbrev pub named_at : List CfgNode → Option String → Option CfgNode
named_at nodes none = none
named_at nodes (some i) = node_named nodes i

abbrev pub joins_nodes : Option CfgEdge → String → String → Bool
joins_nodes none a b = false
joins_nodes (some x) a b =
    x.source_node_id == a
    && x.target_node_id == b
    && (x.edge_kind == "branch" || x.edge_kind == "fakeret")

abbrev pub site_step : Cfg → String → String → String → Bool
site_step c a b i = joins_nodes (edge_named c.edges i) a b

abbrev pub is_fake : Option CfgEdge → Bool
is_fake none = false
is_fake (some x) = x.edge_kind == "fakeret"

-- The body of the loop over the facts on sites.
unfoldable pub check_site_witness : Cfg → ℕ → SiteFact → Result (Unit {0})
unfolding steps_ok entry_of
check_site_witness c bound s =
    let checks = do
      owner ← entry_of c.function_bindings s.owner_function_id
      require (leb (length s.witness_edge_ids) bound) "Site bound exceeded"
      require (all (is_owned c.nodes owner) s.witness_node_ids) "Site witness leaves owner"
      require
          (starts_at (named_at c.nodes (first_of s.witness_node_ids)) owner
            && holds_site (named_at c.nodes (last_of s.witness_node_ids)) s.site_address)
          "Site endpoint mismatch"
      require (steps_ok (site_step c) s.witness_node_ids s.witness_edge_ids) "Invalid site edge"
      require (iff s.uses_fakeret (any (λ i. is_fake (edge_named c.edges i)) s.witness_edge_ids))
          "FakeRet mismatch"
    in if is_nonempty s.witness_node_ids then checks else ok tt

-- The hash of a graph is a parameter.
module _ (cfg_sha256 : Cfg → String) where
  unfoldable pub validate_witnesses : ReachabilityCatalog → Cfg → Result (Unit {0})
  unfolding same_identities check_function_witness check_site_witness
  validate_witnesses k c = do
    require (same_identities k.identities c.identities && k.cfg_sha256 == cfg_sha256 c)
        "Reachability/CFG source identity mismatch"
    let actual = map function_key k.function_reachability
    let expected = expected_pairs c.function_bindings
    require
        (all (has_pair expected) actual
          && all (has_pair actual) expected
          && length actual == length expected)
        "Pair coverage mismatch"
    functions ←
        traverse (check_function_witness c k.max_function_path_edges) k.function_reachability
    require (is_distinct (map (λ s. s.site_id) k.site_reachability)) "Duplicate site"
    sites ← traverse (check_site_witness c k.max_site_path_edges) k.site_reachability
    ok tt

  -- `build_static_reachability`. The serialized catalog is read back as it was written.
  unfoldable pub build_static_reachability : Cfg → List Site → Result ReachabilityCatalog
  unfolding validate_witnesses
  build_static_reachability c sites = do
    check_cfg c
    facts ← traverse (judge_pair c) (function_pairs c)
    site_facts ← traverse (judge_site c) sites
    let k = canonical (catalog_of cfg_sha256 c facts site_facts)
    validate_witnesses k c
    ok k
