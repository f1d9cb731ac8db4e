-- ===== src/Reach/Tests.antt =====
-- A search in a small call graph, with an alias, and the reachability that is built from it.
use chip_chain_v.Prelude.{
  ℕ, ℕ_eq, ◌≡◌, ◌≢◌, refl, sym, String, String_eq, true, some, List, [], ◌∷◌, map, ok, err,
  traverse, Returns, Memᴰ, Memᴰ-in_two, length, ◌≤◌, is_nonempty, arith, sorted_with, insert_with,
}
use chip_chain_v.Capability.{is_distinct, is_subset}
use chip_chain_v.Reach.Search.{Arc, bounded_bfs, loop, expand, scan, offer, neighbors}
use chip_chain_v.Reach.Walk.{Walk, here, step}
use chip_chain_v.Reach.Catalog.{
  exact, is_exact, check_cfg, FunctionBinding, FunctionEdge, Cfg, ReachabilityCatalog,
}
use chip_chain_v.Reach.Build.{address_leb, other_than, Site, judge_pair, judge_site}
use chip_chain_v.Reach.Validate.{validate_witnesses, build_static_reachability}
use chip_chain_v.Reach.Ends.{bounded_bfs_ends}
use chip_chain_v.Reach.Sound.{IsWitness, bounded_bfs-IsWitness}
use chip_chain_v.Reach.Shortest.{bounded_bfs-shortest}
use chip_chain_v.Reach.Accepted.{judge_pair-Returns, judge_pair-alias}
use chip_chain_v.Reach.Sites.{judge_site-Returns}
use chip_chain_v.Reach.Built.{build_static_reachability-Returns}

abbrev start : ℕ
start = 0x1000

abbrev end : ℕ
end = 0x3000

abbrev arc : ℕ → ℕ → String → Arc ℕ
arc a b id = record { source = a; target = b; edge_id = id }

-- A path of two edges, and a direct edge that comes later in the list.
abbrev arcs : List (Arc ℕ)
arcs = arc start 0x2000 "e1" ∷ arc 0x2000 end "e2" ∷ arc start end "e3" ∷ []

finds : bounded_bfs address_leb arcs start (end ∷ []) 16 ≡ some (start ∷ end ∷ [], "e3" ∷ [])
unfolding bounded_bfs loop expand scan offer neighbors sorted_with insert_with
finds = refl

stops : bounded_bfs address_leb arcs start (end ∷ []) 0 ≡ some ([], [])
unfolding bounded_bfs loop expand scan offer neighbors sorted_with insert_with
stops = refl

abbrev short_ids : List String
short_ids = "e3" ∷ []

abbrev long_ids : List String
long_ids = "e1" ∷ "e2" ∷ []

long : Walk arcs start end (start ∷ 0x2000 ∷ end ∷ []) long_ids
long =
    step (arc 0x2000 end "e2") (Memᴰ.tail (Memᴰ.head refl))
      (step (arc start 0x2000 "e1") (Memᴰ.head refl) here)

bounded_bfs_ends_example :
    (r : List ℕ × List String) × (bounded_bfs address_leb arcs start (end ∷ []) 16 ≡ some r)
bounded_bfs_ends_example = bounded_bfs_ends address_leb arcs start (end ∷ []) 16

bounded_bfs-IsWitness_example : IsWitness arcs start (end ∷ []) 16 (start ∷ end ∷ []) ("e3" ∷ [])
bounded_bfs-IsWitness_example =
    bounded_bfs-IsWitness address_leb arcs start (end ∷ []) 16 (start ∷ end ∷ []) ("e3" ∷ []) finds
      refl

bounded_bfs-shortest_example :
    (is_nonempty (start ∷ end ∷ []) ≡ true) × (length short_ids ≤ length long_ids)
bounded_bfs-shortest_example =
    bounded_bfs-shortest address_leb arcs start (end ∷ []) 16 (start ∷ end ∷ []) ("e3" ∷ []) finds
      (Memᴰ.head refl) long (omega arith)

abbrev function_at : String → ℕ → FunctionBinding
function_at id address = record {
  function_id = id;
  expected_entry_address = address;
  angr_raw_address = some address;
  angr_canonical_address = some address;
  binding_status = exact;
}

abbrev main_function : FunctionBinding
main_function = function_at "main" start

abbrev read_function : FunctionBinding
read_function = function_at "read" end

abbrev alias_function : FunctionBinding
alias_function = function_at "alias" start

abbrev edge : ℕ → ℕ → String → FunctionEdge
edge a b id = record { edge_id = id; source_address = a; target_address = b }

abbrev graph : Cfg
graph = record {
  identities = record {
    case_id = "case";
    elf_artifact_id = "elf";
    elf_sha256 = "sha";
    elf_size = 64;
    a2_sha256 = "a2";
    a3_sha256 = "a3";
    a4_sha256 = "a4";
    address_policy = "identity/v1";
    function_starts = start ∷ end ∷ [];
  };
  function_bindings = main_function ∷ read_function ∷ [];
  nodes = [];
  edges = [];
  function_edges = edge start end "f1" ∷ [];
  transfer_comparisons = [];
}

apart : start ≢ end
apart h = omega (arith, h)

judge_pair-Returns_example : Returns (judge_pair graph (main_function, read_function))
judge_pair-Returns_example = judge_pair-Returns graph main_function read_function (λ h k. apart)

judge_pair-alias_example :
    judge_pair graph (main_function, alias_function) ≡ err "Invalid function witness"
judge_pair-alias_example = judge_pair-alias graph main_function alias_function refl refl refl

abbrev site : Site
site = record { site_id = "site"; address = start; kind = "mmio"; owner = some "main" }

judge_site-Returns_example : Returns (judge_site graph site)
judge_site-Returns_example = judge_site-Returns graph site

abbrev no_hash : Cfg → String
no_hash c = "cfg"

graph-accepted : check_cfg graph ≡ ok tt
unfolding check_cfg is_distinct is_subset traverse
graph-accepted = refl

site_ids-distinct : is_distinct (map (λ s. s.site_id) (site ∷ [])) ≡ true
unfolding is_distinct
site_ids-distinct = refl

abbrev Apart : FunctionBinding → FunctionBinding → Type 0
Apart a b =
    other_than a b ≡ true
    → is_exact a.binding_status ≡ true
    → is_exact b.binding_status ≡ true
    → a.expected_entry_address ≢ b.expected_entry_address

no_alias :
    (a b : FunctionBinding)
    → Memᴰ a graph.function_bindings
    → Memᴰ b graph.function_bindings
    → Apart a b
no_alias a b m n =
    Memᴰ-in_two (λ x. (y : FunctionBinding) → Memᴰ y graph.function_bindings → Apart x y)
      main_function read_function
      (Memᴰ-in_two (Apart main_function) main_function read_function (λ o h k. cc) (λ o h k. apart))
      (Memᴰ-in_two (Apart read_function) main_function read_function (λ o h k e. apart (sym e))
        (λ o h k. cc))
      a m b n

build_static_reachability-Returns_example :
    (k : ReachabilityCatalog) × (build_static_reachability no_hash graph (site ∷ []) ≡ ok k)
    × (validate_witnesses no_hash k graph ≡ ok tt)
build_static_reachability-Returns_example =
    build_static_reachability-Returns no_hash graph (site ∷ []) graph-accepted site_ids-distinct
      no_alias
