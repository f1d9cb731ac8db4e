-- ===== src/Reach/Build.antt =====
-- `build_static_reachability`: the facts on all pairs of functions and on all sites.
use Prim.Native.Nat.{Ordering, compare}
use chip_chain_v.Prelude.{
  ℕ, ℕ_eq, leb, String, String_eq, Bool, true, false, not, ◌&&◌, ◌||◌, ◌==◌, option_eq, Option,
  none, some, List, [], ◌∷◌, ◌++◌, map, any, contains, select, find_first, only, length,
  is_nonempty, if◌then◌else◌, Result, ok, err, ◌>>◌, ◌>>=◌, sorted_with, text_leb, pair_leb,
}
use chip_chain_v.Reach.Search.{Arc, bounded_bfs}
use chip_chain_v.Reach.Catalog.{
  FunctionBinding, is_exact, CfgNode, FunctionEdge, Cfg, FunctionStatus, reachable_static,
  not_found_within_bound, source_mapping_missing, target_mapping_missing, FunctionFact,
  check_function_fact, SiteStatus, SiteFact, check_site_fact, ReachabilityCatalog,
}

abbrev pub max_function_path_edges_default : ℕ
max_function_path_edges_default = 16

abbrev pub max_site_path_edges_default : ℕ
max_site_path_edges_default = 256

-- The order of Python's tuples of an address and an edge's identifier.
abbrev pub address_leb : ℕ × String → ℕ × String → Bool
address_leb a b = elim (compare a.0 b.0) [
  | Ordering.lt ↦ true
  | Ordering.eq ↦ text_leb a.1 b.1
  | Ordering.gt ↦ false
]

-- The search's result. That its fuel suffices is a theorem of `Ends`.
abbrev pub returned {ℓ} : {A : Type ℓ} → Option A → Result A
returned (some r) = ok r
returned none = err "out of fuel"

abbrev pub function_arcs : List FunctionEdge → List (Arc ℕ)
function_arcs edges =
    map (λ x. record { source = x.source_address; target = x.target_address; edge_id = x.edge_id })
      edges

-- A fact on a pair, and its validation.
abbrev pub function_limitations : List ℕ → List String
function_limitations path =
    if is_nonempty path then "static_only" ∷ [] else "static_only" ∷ "not_negative_proof" ∷ []

abbrev pub function_fact :
    FunctionBinding → FunctionBinding → FunctionStatus → List ℕ × List String → FunctionFact
function_fact a b status r = record {
  source_function_id = a.function_id;
  target_function_id = b.function_id;
  status = status;
  witness_function_addresses = r.0;
  witness_edge_ids = r.1;
  path_edge_count = length r.1;
  supports_static_reachability = is_nonempty r.0;
  limitations = function_limitations r.0;
}

unfoldable pub make_function_fact :
    FunctionBinding → FunctionBinding → FunctionStatus → List ℕ × List String → Result FunctionFact
make_function_fact a b status r = do
  check_function_fact (function_fact a b status r)
  ok (function_fact a b status r)

abbrev pub search_functions :
    Cfg → FunctionBinding → FunctionBinding → Option (List ℕ × List String)
search_functions c a b =
    bounded_bfs address_leb (function_arcs c.function_edges) a.expected_entry_address
      (b.expected_entry_address ∷ []) max_function_path_edges_default

-- The body of the loop over the pairs.
unfoldable pub judge_pair : Cfg → FunctionBinding × FunctionBinding → Result FunctionFact
unfolding make_function_fact
judge_pair c pair =
    let a = pair.0 in
    let b = pair.1 in
    let found = do
      r ← returned (search_functions c a b)
      make_function_fact a b (if is_nonempty r.0 then reachable_static else not_found_within_bound)
          r
    in if not (is_exact a.binding_status)
      then make_function_fact a b source_mapping_missing ([], [])
      else if not (is_exact b.binding_status)
      then make_function_fact a b target_mapping_missing ([], [])
      else found

-- `sorted(bindings)`, with the bindings in place of their identifiers.
abbrev pub sorted_bindings : List FunctionBinding → List FunctionBinding
sorted_bindings bs = sorted_with (λ a b. text_leb a.function_id b.function_id) bs

abbrev pub other_than : FunctionBinding → FunctionBinding → Bool
other_than a b = not (a.function_id == b.function_id)

-- The pairs of a source with the targets of another identifier.
unfoldable pub pairs_from :
    List FunctionBinding → List FunctionBinding → List (FunctionBinding × FunctionBinding)
pairs_from [] targets = []
pairs_from (a ∷ sources) targets =
    map (λ b. (a, b)) (select (other_than a) targets) ++ pairs_from sources targets

abbrev pub function_pairs : Cfg → List (FunctionBinding × FunctionBinding)
function_pairs c =
    pairs_from (sorted_bindings c.function_bindings) (sorted_bindings c.function_bindings)

-- A site: identifier, address, kind and owner.
pub record Site : Type 0 where
  pub site_id : String
  pub address : ℕ
  pub kind : String
  pub owner : Option String

-- `bindings.get(owner)`
abbrev pub binding_named : List FunctionBinding → Option String → Option FunctionBinding
binding_named bs none = none
binding_named bs (some i) = find_first (λ b. b.function_id == i) bs

abbrev pub candidates : Cfg → ℕ → List CfgNode
candidates c pc = select (λ n. contains n.instruction_addresses pc) c.nodes

abbrev pub owned_nodes : Cfg → ℕ → List CfgNode
owned_nodes c entry = select (λ n. option_eq n.function_canonical_address (some entry)) c.nodes

abbrev pub node_ids : List CfgNode → List String
node_ids nodes = map (λ n. n.node_id) nodes

abbrev pub starts_of : List CfgNode → ℕ → List String
starts_of owned entry =
    sorted_with text_leb (node_ids (select (λ n. n.canonical_address == entry) owned))

abbrev pub targets_of : Cfg → ℕ → List CfgNode → List String
targets_of c pc owned = select (contains (node_ids owned)) (node_ids (candidates c pc))

abbrev pub follows : Bool → String → Bool
follows allow_fake kind = kind == "branch" || allow_fake && kind == "fakeret"

-- `local`: the edges inside the function that may be followed.
abbrev pub local_arcs : Cfg → List CfgNode → Bool → List (Arc String)
local_arcs c owned allow_fake =
    map (λ x. record { source = x.source_node_id; target = x.target_node_id; edge_id = x.edge_id })
      (select
        (λ x.
          contains (node_ids owned) x.source_node_id
          && contains (node_ids owned) x.target_node_id
          && follows allow_fake x.edge_kind)
        c.edges)

abbrev pub search_site :
    Cfg → List CfgNode → List String → Bool → String → Option (List String × List String)
search_site c owned targets allow_fake start =
    bounded_bfs pair_leb (local_arcs c owned allow_fake) start targets max_site_path_edges_default

-- `any(e.edge_kind=='fakeret' and e.edge_id in edges for e in cfg.edges)`
abbrev pub uses_fake : Cfg → List String → Bool
uses_fake c ids = any (λ x. x.edge_kind == "fakeret" && contains ids x.edge_id) c.edges

-- What the search for a site establishes.
pub record SiteOutcome : Type 0 where
  pub status : SiteStatus
  pub path : List String
  pub edges : List String
  pub uses : Bool

abbrev pub nothing_found : SiteStatus → SiteOutcome
nothing_found status = record { status = status; path = []; edges = []; uses = false }

abbrev pub site_found : Cfg → List String × List String → SiteOutcome
site_found c r =
    let uses = uses_fake c r.1 in
    record {
      status =
          if uses
          then SiteStatus.reachable_static_with_fakeret
          else SiteStatus.reachable_static_no_fakeret;
      path = r.0;
      edges = r.1;
      uses = uses;
    }

-- The two rounds of `for allow_fake in (False, True)`.
unfoldable pub second_round : Cfg → List CfgNode → List String → String → Result SiteOutcome
second_round c owned targets start = do
  r ← returned (search_site c owned targets true start)
  ok (if is_nonempty r.0 then site_found c r else nothing_found SiteStatus.not_found_in_cfg)

unfoldable pub first_round : Cfg → List CfgNode → List String → String → Result SiteOutcome
unfolding second_round
first_round c owned targets start = do
  r ← returned (search_site c owned targets false start)
  let second = second_round c owned targets start
  if is_nonempty r.0 then ok (site_found c r) else second

unfoldable pub search_from : Cfg → List CfgNode → List String → Option String → Result SiteOutcome
unfolding first_round
search_from c owned targets none = ok (nothing_found SiteStatus.not_found_in_cfg)
search_from c owned targets (some start) = first_round c owned targets start

unfoldable pub search_owner : Cfg → ℕ → Option FunctionBinding → Result SiteOutcome
unfolding search_from
search_owner c pc none = ok (nothing_found SiteStatus.source_mapping_missing)
search_owner c pc (some b) =
    let owned = owned_nodes c b.expected_entry_address in
    let found =
      search_from c owned (targets_of c pc owned)
        (only (starts_of owned b.expected_entry_address)) in
    if is_exact b.binding_status
    then found
    else ok (nothing_found SiteStatus.source_mapping_missing)

unfoldable pub judge_owner : Cfg → ℕ → Option String → Result SiteOutcome
unfolding search_owner
judge_owner c pc none = ok (nothing_found SiteStatus.owner_mapping_missing)
judge_owner c pc (some i) = search_owner c pc (binding_named c.function_bindings (some i))

-- A list without the later repetitions, and `sorted({...})` of addresses.
unfoldable pub unique : List ℕ → List ℕ
unique [] = []
unique (x ∷ xs) = x ∷ select (λ y. not (y == x)) (unique xs)

abbrev pub owner_addresses : List CfgNode → List ℕ
owner_addresses [] = []
owner_addresses (n ∷ nodes) =
    let rest = owner_addresses nodes in
    elim n.function_canonical_address [ none ↦ rest | some a ↦ a ∷ rest ]

abbrev pub angr_owners : Cfg → ℕ → List ℕ
angr_owners c pc = sorted_with leb (unique (owner_addresses (candidates c pc)))

abbrev pub site_limitations : SiteOutcome → List String
site_limitations o =
    "static_only"
    ∷ ((if o.uses then "assumes_callee_returns" ∷ [] else [])
        ++ (if is_nonempty o.path then [] else "not_negative_proof" ∷ []))

abbrev pub site_fact : Cfg → Site → SiteOutcome → SiteFact
site_fact c s o = record {
  site_id = s.site_id;
  site_address = s.address;
  site_kind = s.kind;
  owner_function_id = s.owner;
  status = o.status;
  witness_node_ids = o.path;
  witness_edge_ids = o.edges;
  uses_fakeret = o.uses;
  angr_owner_addresses = angr_owners c s.address;
  supports_static_reachability = is_nonempty o.path;
  limitations = site_limitations o;
}

-- The body of the loop over the sites.
unfoldable pub judge_site : Cfg → Site → Result SiteFact
unfolding judge_owner
judge_site c s = do
  o ← judge_owner c s.address s.owner
  check_site_fact (site_fact c s o)
  ok (site_fact c s o)

abbrev pub function_key : FunctionFact → String × String
function_key f = (f.source_function_id, f.target_function_id)

abbrev pub fact_leb : FunctionFact → FunctionFact → Bool
fact_leb f g = pair_leb (function_key f) (function_key g)

abbrev owner_text : Option String → String
owner_text none = ""
owner_text (some i) = i

-- The order of the tuples of an owner, an address and an identifier.
abbrev pub site_leb : SiteFact → SiteFact → Bool
site_leb s t =
    let a = owner_text s.owner_function_id in
    let b = owner_text t.owner_function_id in
    if a == b
    then address_leb (s.site_address, s.site_id) (t.site_address, t.site_id)
    else text_leb a b

-- The sorted lists of `_canonical`, which the serialized catalog has.
unfoldable pub canonical : ReachabilityCatalog → ReachabilityCatalog
canonical k = record k {
  function_reachability = sorted_with fact_leb k.function_reachability;
  site_reachability = sorted_with site_leb k.site_reachability;
}

abbrev pub catalog_of :
    (Cfg → String) → Cfg → List FunctionFact → List SiteFact → ReachabilityCatalog
catalog_of cfg_sha256 c facts sites = record {
  identities = c.identities;
  cfg_sha256 = cfg_sha256 c;
  max_function_path_edges = max_function_path_edges_default;
  max_site_path_edges = max_site_path_edges_default;
  function_reachability = facts;
  site_reachability = sites;
}
