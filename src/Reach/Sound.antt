-- ===== src/Reach/Sound.antt =====
-- What the search returns is a witness.
use chip_chain_v.Prelude.{
  ℕ, zero, suc, ◌≤◌, ◌<◌, leb, ◌≡◌, refl, sym, ap, subst, String, Bool, true, false, Eq, some, List,
  [], ◌∷◌, contains, contains→Memᴰ, length, length-append, Memᴰ, is_nonempty, length-nonempty,
  Bool-cases, some-injective, ◌⊎◌, inl, inr, arith, All, All-append,
}
use chip_chain_v.Reach.Search.{
  Arc, Item, Search, depth, extend, neighbors, offer, scan, expand, loop, start, bounded_bfs,
}
use chip_chain_v.Reach.Walk.{Walk, here, step, Walk-length}
use chip_chain_v.Reach.Ends.{neighbors-Memᴰ}

-- A path and edges from the source to a target, of at most so many edges.
pub record IsWitness {ℓ} {N : Type ℓ} (arcs : List (Arc N)) (source : N) (targets : List N)
    (max_edges : ℕ) (path : List N) (ids : List String) : Type ℓ where
  pub target : N
  pub hit : Memᴰ target targets
  pub walk : Walk arcs source target path ids
  pub bounded : length ids ≤ max_edges

module _ {ℓ} {N : Type ℓ} ⦃e : Eq N⦄ (leq : N × String → N × String → Bool) (arcs : List (Arc N))
    (source : N) (max_edges : ℕ) where
  abbrev pub IsReached : Item N → Type ℓ
  IsReached i = Walk arcs source i.node i.path i.edges × (depth i ≤ max_edges)

  pub extend-IsReached :
      (i : Item N) (t : N × String)
      → IsReached i
      → depth i < max_edges
      → Memᴰ t (neighbors leq arcs i.node)
      → IsReached (extend i t)
  extend-IsReached i t h room m =
      let (a, inside, from, same) = neighbors-Memᴰ leq arcs i.node t m in
      let walk = subst (λ n. Walk arcs source n i.path i.edges) (sym from) h.0 in
      let reached : IsReached (extend i (a.target, a.edge_id)) =
        (step a inside walk, omega (arith, room, length-append i.edges (a.edge_id ∷ []))) in
      subst (λ u. IsReached (extend i u)) (sym same) reached

  offer-IsReached :
      (i : Item N) (s : Search N) (t : N × String)
      → All IsReached s.queue
      → IsReached (extend i t)
      → All IsReached (offer leq i s t).queue
  unfolding offer
  offer-IsReached i s t h new = elim (Bool-cases (contains s.visited t.0)) [
    | inl old ↦ rw old h
    | inr fresh ↦ rw fresh (All-append IsReached s.queue (extend i t ∷ []) h (new, tt))
  ]

  scan-IsReached :
      (i : Item N) (s : Search N) (steps : List (N × String))
      → All IsReached s.queue
      → ((t : N × String) → Memᴰ t steps → IsReached (extend i t))
      → All IsReached (scan leq i s steps).queue
  unfolding scan
  scan-IsReached i s [] h new = h
  scan-IsReached i s (t ∷ steps) h new =
      scan-IsReached i (offer leq i s t) steps (offer-IsReached i s t h (new t (Memᴰ.head refl)))
        (λ u m. new u (Memᴰ.tail m))

  pub expand-IsReached :
      (i : Item N) (rest : List (Item N)) (visited : List N)
      → IsReached i
      → All IsReached rest
      → All IsReached (expand leq arcs max_edges i rest visited).queue
  unfolding expand
  expand-IsReached i rest visited h others = elim (Bool-cases (leb max_edges (depth i))) [
    | inl full ↦ rw full others
    | inr room ↦ rw room (
        scan-IsReached i (record { queue = rest; visited = visited }) (neighbors leq arcs i.node)
          others (λ t m. extend-IsReached i t h (ground arith) m))
  ]

  loop-IsWitness :
      (targets : List N) (fuel : ℕ) (queue : List (Item N)) (visited : List N)
      (r : List N × List String)
      → All IsReached queue
      → loop leq arcs targets max_edges fuel queue visited ≡ some r
      → (r ≡ ([], [])) ⊎ IsWitness arcs source targets max_edges r.0 r.1
  unfolding loop
  loop-IsWitness targets zero queue visited r h ends = cc
  loop-IsWitness targets (suc fuel) [] visited r h ends = inl (sym (some-injective ends))
  loop-IsWitness targets (suc fuel) (i ∷ rest) visited r h ends =
      elim (Bool-cases (contains targets i.node)) [
        | inl hit ↦
            let same : (i.path, i.edges) ≡ r = some-injective (simp hit at ends) in
            inr (
              subst (λ w. IsWitness arcs source targets max_edges w.0 w.1) same
                (record {
                  target = i.node;
                  hit = contains→Memᴰ targets i.node hit;
                  walk = h.0.0;
                  bounded = h.0.1;
                }))
        | inr miss ↦
            let next = expand leq arcs max_edges i rest visited in
            loop-IsWitness targets fuel next.queue next.visited r
              (expand-IsReached i rest visited h.0 h.1) (simp miss at ends)
      ]

-- A path that the search finds is a walk from the source to one of the targets, along edges of the
-- graph and with their identifiers, of at most the given number of edges.
pub bounded_bfs-IsWitness {ℓ} :
    {N : Type ℓ} ⦃e : Eq N⦄ (leq : N × String → N × String → Bool) (arcs : List (Arc N))
    (source : N) (targets : List N) (max_edges : ℕ) (path : List N) (ids : List String)
    → bounded_bfs leq arcs source targets max_edges ≡ some (path, ids)
    → is_nonempty path ≡ true
    → IsWitness arcs source targets max_edges path ids
unfolding bounded_bfs
bounded_bfs-IsWitness leq arcs source targets max_edges path ids h found =
    elim (loop-IsWitness leq arcs source max_edges targets (suc (suc (length arcs)))
      (start source ∷ []) (source ∷ []) (path, ids) ((here, omega arith), tt) h) [
        | inl nothing ↦ let empty : path ≡ [] = ap (λ r. r.0) nothing in cc
        | inr witness ↦ witness
      ]

-- A search that finds no path finds no edges.
pub bounded_bfs-empty {ℓ} :
    {N : Type ℓ} ⦃e : Eq N⦄ (leq : N × String → N × String → Bool) (arcs : List (Arc N))
    (source : N) (targets : List N) (max_edges : ℕ) (r : List N × List String)
    → bounded_bfs leq arcs source targets max_edges ≡ some r
    → is_nonempty r.0 ≡ false
    → r ≡ ([], [])
unfolding bounded_bfs
bounded_bfs-empty leq arcs source targets max_edges r h empty =
    elim (loop-IsWitness leq arcs source max_edges targets (suc (suc (length arcs)))
      (start source ∷ []) (source ∷ []) r ((here, omega arith), tt) h) [
        | inl nothing ↦ nothing
        | inr witness ↦ let filled = length-nonempty r.0 (Walk-length witness.walk) in cc
      ]

-- A source that is a target is found at once, without an edge.
pub bounded_bfs-start {ℓ} :
    {N : Type ℓ} ⦃e : Eq N⦄ (leq : N × String → N × String → Bool) (arcs : List (Arc N))
    (source : N) (targets : List N) (max_edges : ℕ)
    → contains targets source ≡ true
    → bounded_bfs leq arcs source targets max_edges ≡ some (source ∷ [], [])
unfolding bounded_bfs loop
bounded_bfs-start leq arcs source targets max_edges hit = simp hit
