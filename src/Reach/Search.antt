-- ===== src/Reach/Search.antt =====
-- `bounded_bfs`: the breadth-first search for a witness of at most so many edges.
use chip_chain_v.Prelude.{
  ℕ, zero, suc, leb, String, Bool, ◌==◌, Eq, Option, none, some, List, [], ◌∷◌, ◌++◌, map, select,
  contains, length, if◌then◌else◌, sorted_with,
}

-- An edge of the graph whose adjacency lists are searched.
pub record Arc {ℓ} (N : Type ℓ) : Type ℓ where
  pub source : N
  pub target : N
  pub edge_id : String

-- An entry of the queue: a node with the path and the edges that lead to it.
pub record Item {ℓ} (N : Type ℓ) : Type ℓ where
  pub node : N
  pub path : List N
  pub edges : List String

pub record Search {ℓ} (N : Type ℓ) : Type ℓ where
  pub queue : List (Item N)
  pub visited : List N

abbrev pub depth {ℓ} : {N : Type ℓ} → Item N → ℕ
depth i = length i.edges

abbrev pub extend {ℓ} : {N : Type ℓ} → Item N → N × String → Item N
extend i step = record {
  node = step.0;
  path = i.path ++ step.0 ∷ [];
  edges = i.edges ++ step.1 ∷ [];
}

abbrev pub start {ℓ} : {N : Type ℓ} → N → Item N
start source = record { node = source; path = source ∷ []; edges = [] }

-- `leq` is the order of `sorted` on pairs of a node and an edge's identifier.
module _ {ℓ} {N : Type ℓ} ⦃e : Eq N⦄ (leq : N × String → N × String → Bool) where
  -- `sorted(adjacency.get(node, []))`
  unfoldable pub neighbors : List (Arc N) → N → List (N × String)
  neighbors arcs n =
      sorted_with leq (map (λ a. (a.target, a.edge_id)) (select (λ a. a.source == n) arcs))

  -- The body of the loop over the neighbors.
  unfoldable pub offer : Item N → Search N → N × String → Search N
  offer i s step =
      if contains s.visited step.0
      then s
      else record { queue = s.queue ++ extend i step ∷ []; visited = step.0 ∷ s.visited }

  unfoldable pub scan : Item N → Search N → List (N × String) → Search N
  unfolding offer
  scan i s [] = s
  scan i s (step ∷ steps) = scan i (offer i s step) steps

  -- One round of the loop after the test of the targets, `rest` being the queue.
  unfoldable pub expand : List (Arc N) → ℕ → Item N → List (Item N) → List N → Search N
  unfolding scan neighbors
  expand arcs max_edges i rest visited =
      let s : Search N = record { queue = rest; visited = visited } in
      if leb max_edges (depth i) then s else scan i s (neighbors arcs i.node)

  -- The `while` loop. No result says that the fuel did not suffice.
  unfoldable pub loop :
      List (Arc N) → List N → ℕ → ℕ → List (Item N) → List N → Option (List N × List String)
  unfolding expand
  loop arcs targets max_edges zero queue visited = none
  loop arcs targets max_edges (suc fuel) [] visited = some ([], [])
  loop arcs targets max_edges (suc fuel) (i ∷ rest) visited =
      let next = expand arcs max_edges i rest visited in
      let later = loop arcs targets max_edges fuel next.queue next.visited in
      if contains targets i.node then some (i.path, i.edges) else later

  -- Each round takes an item from the queue, and each node that is queued was not visited before.
  unfoldable pub bounded_bfs : List (Arc N) → N → List N → ℕ → Option (List N × List String)
  unfolding loop
  bounded_bfs arcs source targets max_edges =
      loop arcs targets max_edges (suc (suc (length arcs))) (start source ∷ []) (source ∷ [])
