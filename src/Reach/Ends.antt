-- ===== src/Reach/Ends.antt =====
-- The search ends: the fuel that is given suffices.
use chip_chain_v.Prelude.{
  ℕ, zero, suc, ◌+◌, ◌≤◌, ◌<◌, ◌≡◌, refl, sym, ap, subst, String, Bool, true, false, ◌==◌, Eq, some,
  List, [], ◌∷◌, select, select-Memᴰ, contains, length, if◌then◌else◌, Memᴰ, Bool-cases, inl, inr,
  arith, sorted_with-Memᴰ, length-append, Memᴰ-map_in, Memᴰ-map_out, Memᴰ-select, Memᴰ-sorted_with,
}
use mathlib.Core.List.Memᴰ
use chip_chain_v.Reach.Search.{
  Arc, Item, Search, extend, neighbors, offer, scan, expand, loop, start, bounded_bfs,
}

-- The edges into nodes that were not visited.
abbrev unseen {ℓ} : {N : Type ℓ} ⦃e : Eq N⦄ → List (Arc N) → List N → ℕ
unseen [] visited = 0
unseen (a ∷ arcs) visited =
    let rest = unseen arcs visited in if contains visited a.target then rest else suc rest

module _ {ℓ} {N : Type ℓ} ⦃e : Eq N⦄ where
  unseen-grow :
      (arcs : List (Arc N)) (n : N) (visited : List N)
      → unseen arcs (n ∷ visited) ≤ unseen arcs visited
  unseen-grow [] n visited = omega arith
  unseen-grow (a ∷ arcs) n visited = ground (arith, unseen-grow arcs n visited)

  unseen-visit :
      (arcs : List (Arc N)) (a : Arc N) (visited : List N)
      → Memᴰ a arcs
      → contains visited a.target ≡ false
      → unseen arcs (a.target ∷ visited) < unseen arcs visited
  unseen-visit [] a visited m h = absurd (Memᴰ.not-nil m)
  unseen-visit (b ∷ arcs) a visited m h = elim (Memᴰ.cases_cons m) [
    | inl same ↦
        let back : contains visited b.target ≡ false =
          subst (λ (x : Arc N). contains visited x.target ≡ false) same h in
        let hit : (b.target == a.target) ≡ true =
          (e.beq_iff b.target a.target).1 (ap (λ x. x.target) (sym same)) in
        let less = unseen-grow arcs a.target visited in ground arith
    | inr later ↦ let less = unseen-visit arcs a visited later h in ground arith
  ]

  unseen-length : (arcs : List (Arc N)) (visited : List N) → unseen arcs visited ≤ length arcs
  unseen-length [] visited = omega arith
  unseen-length (a ∷ arcs) visited = ground (arith, unseen-length arcs visited)

module _ {ℓ} {N : Type ℓ} ⦃e : Eq N⦄ (leq : N × String → N × String → Bool)
    (arcs : List (Arc N)) where
  -- A neighbor is the target of an edge from the node, and each such target is one.
  pub neighbors-Memᴰ :
      (n : N) (step : N × String)
      → Memᴰ step (neighbors leq arcs n)
      → (a : Arc N) × Memᴰ a arcs × (a.source ≡ n) × (step ≡ (a.target, a.edge_id))
  unfolding neighbors
  neighbors-Memᴰ n step m =
      let (a, found, same) =
        Memᴰ-map_in (λ (a : Arc N). (a.target, a.edge_id)) (select (λ a. a.source == n) arcs) step
          (sorted_with-Memᴰ leq step _ m) in
      let (inside, from) = select-Memᴰ (λ a. a.source == n) arcs a found in
      (a, inside, (e.beq_iff a.source n).0 from, same)

  pub Memᴰ-neighbors :
      (a : Arc N) → Memᴰ a arcs → Memᴰ (a.target, a.edge_id) (neighbors leq arcs a.source)
  unfolding neighbors
  Memᴰ-neighbors a m =
      let from = (e.beq_iff a.source a.source).1 refl in
      Memᴰ-sorted_with leq (a.target, a.edge_id) _
        (Memᴰ-map_out (λ (b : Arc N). (b.target, b.edge_id))
          (select (λ b. b.source == a.source) arcs) a
          (Memᴰ-select (λ b. b.source == a.source) arcs a m from))

  abbrev work : Search N → ℕ
  work s = unseen arcs s.visited + length s.queue

  offer-work :
      (i : Item N) (s : Search N) (a : Arc N)
      → Memᴰ a arcs
      → work (offer leq i s (a.target, a.edge_id)) ≤ work s
  unfolding offer
  offer-work i s a m = elim (Bool-cases (contains s.visited a.target)) [
    | inl old ↦ ground arith
    | inr new ↦
        let less = unseen-visit arcs a s.visited m new in
        let longer = length-append s.queue (extend i (a.target, a.edge_id) ∷ []) in ground arith
  ]

  scan-work :
      (i : Item N) (s : Search N) (steps : List (N × String))
      → ((step : N × String) → Memᴰ step steps → Memᴰ step (neighbors leq arcs i.node))
      → work (scan leq i s steps) ≤ work s
  unfolding scan
  scan-work i s [] h = omega arith
  scan-work i s (step ∷ steps) h =
      let (a, inside, _, same) = neighbors-Memᴰ i.node step (h step (Memᴰ.head refl)) in
      let first =
        subst (λ t. work (offer leq i s t) ≤ work s) (sym same) (offer-work i s a inside) in
      let others = scan-work i (offer leq i s step) steps (λ t m. h t (Memᴰ.tail m)) in
      omega (arith, first, others)

  expand-work :
      (max_edges : ℕ) (i : Item N) (rest : List (Item N)) (visited : List N)
      → work (expand leq arcs max_edges i rest visited) ≤ unseen arcs visited + length rest
  unfolding expand
  expand-work max_edges i rest visited =
      let scanned =
        scan-work i (record { queue = rest; visited = visited }) (neighbors leq arcs i.node)
          (λ t m. m) in
      ground arith

  loop_ends :
      (targets : List N) (max_edges fuel : ℕ) (queue : List (Item N)) (visited : List N)
      → unseen arcs visited + length queue < fuel
      → (r : List N × List String) × (loop leq arcs targets max_edges fuel queue visited ≡ some r)
  unfolding loop
  loop_ends targets max_edges zero queue visited h = ground arith
  loop_ends targets max_edges (suc fuel) [] visited h = (([], []), refl)
  loop_ends targets max_edges (suc fuel) (i ∷ rest) visited h =
      elim (Bool-cases (contains targets i.node)) [
        | inl hit ↦ ((i.path, i.edges), simp hit)
        | inr miss ↦
            let next = expand leq arcs max_edges i rest visited in
            let less = expand-work max_edges i rest visited in
            let (r, ends) =
              loop_ends targets max_edges fuel next.queue next.visited (omega (arith, less, h)) in
            (r, simp (miss, ends))
      ]

-- The search ends on every graph: its queue is empty, or a target is found, before the rounds that
-- the model allows, the number of edges plus two, are used up.
pub bounded_bfs_ends {ℓ} :
    {N : Type ℓ} ⦃e : Eq N⦄ (leq : N × String → N × String → Bool) (arcs : List (Arc N))
    (source : N) (targets : List N) (max_edges : ℕ)
    → (r : List N × List String) × (bounded_bfs leq arcs source targets max_edges ≡ some r)
unfolding bounded_bfs
bounded_bfs_ends leq arcs source targets max_edges =
    loop_ends leq arcs targets max_edges (suc (suc (length arcs))) (start source ∷ []) (source ∷ [])
      (omega (arith, unseen-length arcs (source ∷ [])))
