-- ===== src/Reach/Rounds.antt =====
-- The invariant of the search, and that a round keeps it.
use chip_chain_v.Prelude.{
  ℕ, suc, ◌<◌, leb, ◌≡◌, refl, sym, ap, subst, String, Bool, false, Eq, List, ◌∷◌, contains, Memᴰ,
  Bool-cases, inl, inr, arith,
}
use mathlib.Core.List.Memᴰ
use chip_chain_v.Reach.Search.{Arc, Item, Search, depth, neighbors, scan, expand}
use chip_chain_v.Reach.Ends.{Memᴰ-neighbors}
use chip_chain_v.Reach.Layers.{Layered-tail}
use chip_chain_v.Reach.Frame.{Known, Frame, Known-grow, scan-grows, scan-Frame}

module _ {ℓ} {N : Type ℓ} ⦃e : Eq N⦄ (leq : N × String → N × String → Bool) (arcs : List (Arc N))
    (source : N) (targets : List N) (max_edges : ℕ) where
  -- A processed item is no target, and the search knows the nodes that its edges lead to.
  pub record IsDone (old queue : List (Item N)) (i : Item N) : Type ℓ where
    pub no_target : contains targets i.node ≡ false
    pub closed :
        depth i < max_edges
        → (a : Arc N) → Memᴰ a arcs
        → a.source ≡ i.node
        → Known old queue a.target (suc (depth i))

  pub record Inv (d : ℕ) (old : List (Item N)) (s : Search N) : Type ℓ where
    pub frame : Frame leq arcs source d old s
    pub processed : (i : Item N) → Memᴰ i old → IsDone old s.queue i

  IsDone-grow :
      (old queue longer : List (Item N)) (i : Item N)
      → ((j : Item N) → Memᴰ j queue → Memᴰ j longer)
      → IsDone old queue i
      → IsDone old longer i
  IsDone-grow old queue longer i grows h = record {
    no_target = h.no_target;
    closed = λ room a m from.
        Known-grow leq arcs source old queue longer a.target (suc (depth i)) grows
          (h.closed room a m from);
  }

  -- The head of the queue becomes a processed item.
  Known-pop :
      (i : Item N) (old rest : List (Item N)) (n : N) (k : ℕ)
      → Known old (i ∷ rest) n k
      → Known (i ∷ old) rest n k
  Known-pop i old rest n k h = record {
    item = h.item;
    place = elim h.place [
      | inl before ↦ inl (Memᴰ.tail before)
      | inr waiting ↦ elim (Memᴰ.cases_cons waiting) [
        | inl head ↦ inl (Memᴰ.head head)
        | inr later ↦ inr later
      ]
    ];
    node = h.node;
    near = h.near;
  }

  Frame-pop :
      (d : ℕ) (i : Item N) (old rest : List (Item N)) (visited : List N)
      → Frame leq arcs source d old (record { queue = i ∷ rest; visited = visited })
      → Frame leq arcs source (depth i) (i ∷ old) (record { queue = rest; visited = visited })
  Frame-pop d i old rest visited f =
      let (deeper, layered) = Layered-tail d i rest f.layered in
      record {
        known = λ n h.
            let k = Known-pop i old rest n (suc d) (f.known n h) in
            record {
              item = k.item;
              place = k.place;
              node = k.node;
              near = omega (arith, k.near, deeper);
            };
        origin = Known-pop i old rest source 0 f.origin;
        layered = layered;
        low = λ j m. elim (Memᴰ.cases_cons m) [
          | inl same ↦ omega (arith, ap depth same)
          | inr before ↦ omega (arith, f.low j before, deeper)
        ];
      }

  -- A round keeps the invariant, `after` being the search after it.
  round-Inv :
      (d : ℕ) (i : Item N) (old rest : List (Item N)) (visited : List N) (after : Search N)
      → Inv d old (record { queue = i ∷ rest; visited = visited })
      → contains targets i.node ≡ false
      → ((j : Item N) → Memᴰ j rest → Memᴰ j after.queue)
      → Frame leq arcs source (depth i) (i ∷ old) after
      → (depth i < max_edges
          → (a : Arc N) → Memᴰ a arcs
          → a.source ≡ i.node
          → Known (i ∷ old) after.queue a.target (suc (depth i)))
      → Inv (depth i) (i ∷ old) after
  round-Inv d i old rest visited after h miss grows frame closed = record {
    frame = frame;
    processed = λ j m. elim (Memᴰ.cases_cons m) [
      | inl same ↦
          subst (IsDone (i ∷ old) after.queue) (sym same)
            (record { no_target = miss; closed = closed })
      | inr before ↦
          let done = h.processed j before in
          IsDone-grow (i ∷ old) rest after.queue j grows (record {
            no_target = done.no_target;
            closed = λ room a inside from.
                Known-pop i old rest a.target (suc (depth j)) (done.closed room a inside from);
          })
    ];
  }

  pub expand-Inv :
      (d : ℕ) (i : Item N) (old rest : List (Item N)) (visited : List N)
      → Inv d old (record { queue = i ∷ rest; visited = visited })
      → contains targets i.node ≡ false
      → Inv (depth i) (i ∷ old) (expand leq arcs max_edges i rest visited)
  unfolding expand
  expand-Inv d i old rest visited h miss =
      let s : Search N = record { queue = rest; visited = visited } in
      let popped = Frame-pop d i old rest visited h.frame in
      elim (Bool-cases (leb max_edges (depth i))) [
        | inl full ↦
            let kept : expand leq arcs max_edges i rest visited ≡ s = simp full in
            subst (Inv (depth i) (i ∷ old)) (sym kept)
              (round-Inv d i old rest visited s h miss (λ j m. m) popped (λ room. ground arith))
        | inr open_end ↦
            let steps = neighbors leq arcs i.node in
            let made : expand leq arcs max_edges i rest visited ≡ scan leq i s steps =
              simp open_end in
            let (frame, found) =
              scan-Frame leq arcs source (depth i) (i ∷ old) i s steps popped refl in
            subst (Inv (depth i) (i ∷ old)) (sym made) (
              round-Inv d i old rest visited (scan leq i s steps) h miss
                (λ j m. scan-grows leq arcs source i s steps j m) frame
                (λ room a inside from.
                  found (a.target, a.edge_id)
                    (subst (λ n. Memᴰ (a.target, a.edge_id) (neighbors leq arcs n)) from
                      (Memᴰ-neighbors leq arcs a inside))))
      ]
