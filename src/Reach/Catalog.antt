-- ===== src/Reach/Catalog.antt =====
-- The recovered graph, the facts of a catalog and their validators.
use chip_chain_v.Prelude.{
  ℕ, ℕ_eq, ◌+◌, ltb, String, String_eq, Bool, true, false, not, ◌&&◌, ◌||◌, ◌==◌, is_some,
  option_eq, iff, Option, none, some, List, map, all, contains, find_first, length, is_nonempty,
  if◌then◌else◌, Result, ◌>>◌, ◌>>=◌, require, traverse,
}
use text.Mathlib.Text.{starts_with}
use chip_chain_v.Capability.{is_distinct, is_subset}

-- `SourceIdentities`, without the constants of its configuration.
pub record SourceIdentities : Type 0 where
  pub case_id : String
  pub elf_artifact_id : String
  pub elf_sha256 : String
  pub elf_size : ℕ
  pub a2_sha256 : String
  pub a3_sha256 : String
  pub a4_sha256 : String
  pub address_policy : String
  pub function_starts : List ℕ

pub data BindingStatus : Type 0 where
  exact missing conflict : BindingStatus

abbrev pub is_exact : BindingStatus → Bool
is_exact exact = true
is_exact _ = false

-- `StaticFunctionBinding`
pub record FunctionBinding : Type 0 where
  pub function_id : String
  pub expected_entry_address : ℕ
  pub angr_raw_address : Option ℕ
  pub angr_canonical_address : Option ℕ
  pub binding_status : BindingStatus

-- The validator `binding`.
unfoldable pub check_binding : FunctionBinding → Result (Unit {0})
check_binding b = do
  require
      (not (is_exact b.binding_status)
        || is_some b.angr_raw_address
          && option_eq b.angr_canonical_address (some b.expected_entry_address))
      "Exact binding requires matching entry"
  require
      (is_exact b.binding_status
        || not (is_some b.angr_raw_address) && not (is_some b.angr_canonical_address))
      "Missing/conflicting binding cannot select an entry"

pub record CfgNode : Type 0 where
  pub node_id : String
  pub raw_address : ℕ
  pub canonical_address : ℕ
  pub size : ℕ
  pub function_canonical_address : Option ℕ
  pub instruction_addresses : List ℕ

pub record CfgEdge : Type 0 where
  pub edge_id : String
  pub source_node_id : String
  pub target_node_id : String
  pub source_address : ℕ
  pub target_address : ℕ
  pub instruction_address : Option ℕ
  pub jumpkind : String
  pub edge_kind : String

pub record FunctionEdge : Type 0 where
  pub edge_id : String
  pub source_address : ℕ
  pub target_address : ℕ

pub record TransferComparison : Type 0 where
  pub relation_id : String
  pub site_address : ℕ
  pub a4_kind : String
  pub a4_status : String
  pub angr_successor_addresses : List ℕ
  pub angr_jumpkinds : List String
  pub successor_edge_ids : List String
  pub comparison_status : String

-- `FirmwareAngrCFGResult`
pub record Cfg : Type 0 where
  pub identities : SourceIdentities
  pub function_bindings : List FunctionBinding
  pub nodes : List CfgNode
  pub edges : List CfgEdge
  pub function_edges : List FunctionEdge
  pub transfer_comparisons : List TransferComparison

unfoldable pub normalize_jumpkind : String → String
normalize_jumpkind k =
    if k == "Ijk_Call"
    then "call"
    else if k == "Ijk_Boring"
    then "branch"
    else if k == "Ijk_Ret"
    then "return"
    else if k == "Ijk_FakeRet"
    then "fakeret"
    else if starts_with k "Ijk_Sys"
    then "syscall"
    else "unknown"

-- `nodes.get(id)`, where the identifiers are distinct.
abbrev pub node_named : List CfgNode → String → Option CfgNode
node_named nodes i = find_first (λ n. n.node_id == i) nodes

-- `edges.get(id)` and `function_edges.get(id)`.
abbrev pub edge_named : List CfgEdge → String → Option CfgEdge
edge_named edges i = find_first (λ x. x.edge_id == i) edges

abbrev pub function_edge_named : List FunctionEdge → String → Option FunctionEdge
function_edge_named edges i = find_first (λ x. x.edge_id == i) edges

abbrev has_address : Option CfgNode → ℕ → Bool
has_address none address = false
has_address (some n) address = n.canonical_address == address

-- The body of the loop over the edges.
unfoldable pub check_edge : List CfgNode → CfgEdge → Result (Unit {0})
unfolding normalize_jumpkind
check_edge nodes x = do
  require
      (is_some (node_named nodes x.source_node_id) && is_some (node_named nodes x.target_node_id))
      "Edge node missing"
  require
      (has_address (node_named nodes x.source_node_id) x.source_address
        && has_address (node_named nodes x.target_node_id) x.target_address)
      "Edge address mismatch"
  require (x.edge_kind == normalize_jumpkind x.jumpkind) "Jumpkind mismatch"

-- `len({...}) == len(objects)` for each kind of object.
abbrev pub identifiers_ok : Cfg → Bool
identifiers_ok c =
    is_distinct (map (λ n. n.node_id) c.nodes)
    && is_distinct (map (λ x. x.edge_id) c.edges)
    && is_distinct (map (λ x. x.edge_id) c.function_edges)
    && is_distinct (map (λ b. b.function_id) c.function_bindings)
    && is_distinct (map (λ t. t.relation_id) c.transfer_comparisons)

-- The validator `references`.
unfoldable pub check_cfg : Cfg → Result (Unit {0})
unfolding check_edge
check_cfg c = do
  require (identifiers_ok c) "Duplicate graph identity"
  done ← traverse (check_edge c.nodes) c.edges
  require
      (all (λ t. is_subset t.successor_edge_ids (map (λ x. x.edge_id) c.edges))
        c.transfer_comparisons)
      "Comparison references missing edge"

pub data FunctionStatus : Type 0 where
  reachable_static not_found_within_bound : FunctionStatus
  source_mapping_missing target_mapping_missing : FunctionStatus

abbrev pub is_reachable : FunctionStatus → Bool
is_reachable reachable_static = true
is_reachable _ = false

-- `StaticFunctionReachabilityFact`; of the capabilities one is not constant.
pub record FunctionFact : Type 0 where
  pub source_function_id : String
  pub target_function_id : String
  pub status : FunctionStatus
  pub witness_function_addresses : List ℕ
  pub witness_edge_ids : List String
  pub path_edge_count : ℕ
  pub supports_static_reachability : Bool
  pub limitations : List String

-- Its validator `witness`.
unfoldable pub check_function_fact : FunctionFact → Result (Unit {0})
check_function_fact f = do
  require (iff f.supports_static_reachability (is_reachable f.status)) "Static capability mismatch"
  require
      (not (is_reachable f.status)
        || ltb 0 f.path_edge_count
          && f.path_edge_count == length f.witness_edge_ids
          && length f.witness_function_addresses == f.path_edge_count + 1)
      "Invalid function witness"
  require
      (is_reachable f.status
        || not (
            is_nonempty f.witness_function_addresses
            || is_nonempty f.witness_edge_ids
            || ltb 0 f.path_edge_count))
      "Negative/missing query cannot carry witness"
  require
      (contains f.limitations "static_only"
        && (is_reachable f.status || contains f.limitations "not_negative_proof"))
      "Static query limitations missing"

pub data SiteStatus : Type 0 where
  owner_mapping_missing source_mapping_missing reachable_static_no_fakeret : SiteStatus
  reachable_static_with_fakeret not_found_in_cfg : SiteStatus

-- `self.status.startswith('reachable_static_')`
abbrev pub is_positive : SiteStatus → Bool
is_positive SiteStatus.reachable_static_no_fakeret = true
is_positive SiteStatus.reachable_static_with_fakeret = true
is_positive _ = false

abbrev pub with_fakeret : SiteStatus → Bool
with_fakeret SiteStatus.reachable_static_with_fakeret = true
with_fakeret _ = false

-- `StaticSiteReachabilityFact`
pub record SiteFact : Type 0 where
  pub site_id : String
  pub site_address : ℕ
  pub site_kind : String
  pub owner_function_id : Option String
  pub status : SiteStatus
  pub witness_node_ids : List String
  pub witness_edge_ids : List String
  pub uses_fakeret : Bool
  pub angr_owner_addresses : List ℕ
  pub supports_static_reachability : Bool
  pub limitations : List String

-- Its validator `witness`.
unfoldable pub check_site_fact : SiteFact → Result (Unit {0})
check_site_fact s = do
  require
      (iff s.supports_static_reachability (is_positive s.status)
        && iff s.uses_fakeret (with_fakeret s.status))
      "Site capability/status mismatch"
  require
      (not (is_positive s.status)
        || is_nonempty s.witness_node_ids
          && length s.witness_node_ids == length s.witness_edge_ids + 1)
      "Invalid site witness"
  require
      (is_positive s.status
        || not (is_nonempty s.witness_node_ids || is_nonempty s.witness_edge_ids))
      "Non-positive site has witness"
  require
      (contains s.limitations "static_only"
        && (not s.uses_fakeret || contains s.limitations "assumes_callee_returns")
        && (is_positive s.status || contains s.limitations "not_negative_proof"))
      "Site limitations missing"

-- `FirmwareStaticReachabilityCatalog`
pub record ReachabilityCatalog : Type 0 where
  pub identities : SourceIdentities
  pub cfg_sha256 : String
  pub max_function_path_edges : ℕ
  pub max_site_path_edges : ℕ
  pub function_reachability : List FunctionFact
  pub site_reachability : List SiteFact
