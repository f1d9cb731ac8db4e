-- ===== src/Reach/Shortest.antt =====
-- The search finds a shortest walk wherever there is one within the bound.
use chip_chain_v.Prelude.{
  ℕ, zero, suc, ◌≤◌, ◌<◌, leb, ◌≡◌, refl, sym, ap, subst, String, Bool, true, false, ◌==◌, Eq, some,
  some-injective, List, [], ◌∷◌, contains, Memᴰ→contains, length, length-append, is_nonempty,
  length-nonempty, Memᴰ, Bool-cases, inl, inr, arith, All,
}
use mathlib.Core.List.Memᴰ
use chip_chain_v.Reach.Search.{Arc, Item, Search, depth, expand, loop, start, bounded_bfs}
use chip_chain_v.Reach.Walk.{Walk, here, step, Walk-length}
use chip_chain_v.Reach.Sound.{IsReached, expand-IsReached}
use chip_chain_v.Reach.Layers.{Layered, Layered-tail, Layered-bounds}
use chip_chain_v.Reach.Frame.{Known}
use chip_chain_v.Reach.Rounds.{Inv, expand-Inv}

module _ {ℓ} {N : Type ℓ} ⦃e : Eq N⦄ (leq : N × String → N × String → Bool) (arcs : List (Arc N))
    (source : N) (targets : List N) (max_edges : ℕ) where
  -- A walk that is shorter than all that is queued ends in a processed item.
  Walk-processed :
      (d m : ℕ) (old : List (Item N)) (s : Search N)
      → Inv leq arcs source targets max_edges d old s
      → ((j : Item N) → Memᴰ j s.queue → m ≤ depth j)
      → m ≤ suc max_edges
      → {target : N} {path : List N} {ids : List String} → Walk arcs source target path ids
      → length ids < m
      → (j : Item N) × Memᴰ j old × (j.node ≡ target) × (depth j ≤ length ids)
  Walk-processed d m old s h far bounded here short =
      let o = h.frame.origin in
      elim o.place [
        | inl before ↦ (o.item, before, o.node, o.near)
        | inr waiting ↦ absurd (omega (arith, far o.item waiting, o.near, short))
      ]
  Walk-processed d m old s h far bounded (step {path} {ids} a inside walk) short =
      let longer = length-append ids (a.edge_id ∷ []) in
      let (j, before, node, near) =
        Walk-processed d m old s h far bounded walk (omega (arith, short, longer)) in
      let k =
        (h.processed j before).closed (omega (arith, near, short, longer, bounded)) a inside
          (sym node) in
      elim k.place [
        | inl taken ↦ (k.item, taken, k.node, omega (arith, k.near, near, longer))
        | inr waiting ↦ absurd (omega (arith, far k.item waiting, k.near, near, short, longer))
      ]

  -- No target is at the end of such a walk.
  no_short_walk :
      (d m : ℕ) (old : List (Item N)) (s : Search N)
      → Inv leq arcs source targets max_edges d old s
      → ((j : Item N) → Memᴰ j s.queue → m ≤ depth j)
      → m ≤ suc max_edges
      → {target : N} {path : List N} {ids : List String} → Memᴰ target targets
      → Walk arcs source target path ids
      → m ≤ length ids
  no_short_walk d m old s h far bounded {target} {path} {ids} hit walk =
      elim (Bool-cases (leb m (length ids))) [
        | inl long ↦ ground arith
        | inr short ↦
            let (j, before, node, _) = Walk-processed d m old s h far bounded walk (ground arith) in
            let miss = (h.processed j before).no_target in
            let found = Memᴰ→contains targets target hit in
            let same = subst (λ n. contains targets n ≡ false) node miss in cc
      ]

  head-nearest :
      (d : ℕ) (i : Item N) (rest : List (Item N)) (j : Item N)
      → Layered d (i ∷ rest)
      → Memᴰ j (i ∷ rest)
      → depth i ≤ depth j
  head-nearest d i rest j h m = elim (Memᴰ.cases_cons m) [
    | inl same ↦ omega (arith, ap depth same)
    | inr later ↦ (Layered-bounds (depth i) rest j (Layered-tail d i rest h).1 later).0
  ]

  loop-shortest :
      (d fuel : ℕ) (old queue : List (Item N)) (visited : List N) (r : List N × List String)
      → Inv leq arcs source targets max_edges d old (record { queue = queue; visited = visited })
      → All (IsReached leq arcs source max_edges) queue
      → loop leq arcs targets max_edges fuel queue visited ≡ some r
      → {target : N} {path : List N} {ids : List String} → Memᴰ target targets
      → Walk arcs source target path ids
      → length ids ≤ max_edges
      → (is_nonempty r.0 ≡ true) × (length r.1 ≤ length ids)
  unfolding loop
  loop-shortest d zero old queue visited r h reached ends hit walk short = cc
  loop-shortest d (suc fuel) old [] visited r h reached ends {target} {path} {ids} hit walk short =
      absurd (
        omega (
          arith,
          short,
          no_short_walk d (suc max_edges) old (record { queue = []; visited = visited }) h
              (λ j m. absurd (Memᴰ.not-nil m)) (omega arith) hit walk,
        ))
  loop-shortest d (suc fuel) old (i ∷ rest) visited r h reached ends {target} {path} {ids} hit walk
        short =
      elim (Bool-cases (contains targets i.node)) [
        | inl found ↦
            let same : (i.path, i.edges) ≡ r = some-injective (simp found at ends) in
            subst (λ w. (is_nonempty w.0 ≡ true) × (length w.1 ≤ length ids)) same
              (
                length-nonempty i.path (Walk-length reached.0.0),
                no_short_walk d (depth i) old (record { queue = i ∷ rest; visited = visited }) h
                    (λ j m. head-nearest d i rest j h.frame.layered m) (omega (arith, reached.0.1))
                    hit walk,
              )
        | inr miss ↦
            let next = expand leq arcs max_edges i rest visited in
            loop-shortest (depth i) fuel (i ∷ old) next.queue next.visited r
              (expand-Inv leq arcs source targets max_edges d i old rest visited h miss)
              (expand-IsReached leq arcs source max_edges i rest visited reached.0 reached.1)
              (simp miss at ends) hit walk short
      ]

  start-Inv :
      Inv leq arcs source targets max_edges 0 []
        (record { queue = start source ∷ []; visited = source ∷ [] })
  start-Inv =
      let known : Known [] (start source ∷ []) source 0 = record {
        item = start source;
        place = inr (Memᴰ.head refl);
        node = refl;
        near = omega arith;
      } in
      record {
        frame = record {
          known = λ n h.
              let same : (n == source) ≡ true = ground arith in
              record {
                item = start source;
                place = inr (Memᴰ.head refl);
                node = sym ((e.beq_iff n source).0 same);
                near = omega arith;
              };
          origin = known;
          layered = inl (refl, tt);
          low = λ j m. absurd (Memᴰ.not-nil m);
        };
        processed = λ j m. absurd (Memᴰ.not-nil m);
      }

-- Where some walk of at most the given number of edges leads from the source to a target, the search
-- finds a path, and it has no more edges than that walk.
pub bounded_bfs-shortest {ℓ} :
    {N : Type ℓ} ⦃e : Eq N⦄ (leq : N × String → N × String → Bool) (arcs : List (Arc N))
    (source : N) (targets : List N) (max_edges : ℕ) (found : List N) (edges : List String)
    → bounded_bfs leq arcs source targets max_edges ≡ some (found, edges)
    → {target : N} {path : List N} {ids : List String} → Memᴰ target targets
    → Walk arcs source target path ids
    → length ids ≤ max_edges
    → (is_nonempty found ≡ true) × (length edges ≤ length ids)
unfolding bounded_bfs
bounded_bfs-shortest leq arcs source targets max_edges found edges h hit walk short =
    loop-shortest leq arcs source targets max_edges 0 (suc (suc (length arcs))) []
      (start source ∷ []) (source ∷ []) (found, edges) (start-Inv leq arcs source targets max_edges)
      ((here, omega arith), tt) h hit walk short
