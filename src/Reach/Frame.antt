-- ===== src/Reach/Frame.antt =====
-- What holds of the items that were taken from the queue and of those in it.
use chip_chain_v.Prelude.{
  ℕ, suc, ◌≤◌, ◌≡◌, refl, sym, ap, ◌∙◌, subst, String, Bool, true, ◌==◌, Eq, List, [], ◌∷◌, ◌++◌,
  contains, length-append, Memᴰ, Bool-cases, ◌⊎◌, inl, inr, arith,
}
use mathlib.Core.List.Memᴰ
use chip_chain_v.Reach.Search.{Arc, Item, Search, depth, extend, offer, scan}
use chip_chain_v.Reach.Layers.{Layered, Layered-snoc}

-- The node has an item of at most the given depth, taken from the queue before or still in it.
pub record Known {ℓ} {N : Type ℓ} (old queue : List (Item N)) (n : N) (k : ℕ) : Type ℓ where
  pub item : Item N
  pub place : Memᴰ item old ⊎ Memᴰ item queue
  pub node : item.node ≡ n
  pub near : depth item ≤ k

module _ {ℓ} {N : Type ℓ} ⦃e : Eq N⦄ (leq : N × String → N × String → Bool) (arcs : List (Arc N))
    (source : N) where
  -- What holds during a round, `old` being the items that were taken from the queue.
  pub record Frame (d : ℕ) (old : List (Item N)) (s : Search N) : Type ℓ where
    pub known : (n : N) → contains s.visited n ≡ true → Known old s.queue n (suc d)
    pub origin : Known old s.queue source 0
    pub layered : Layered d s.queue
    pub low : (i : Item N) → Memᴰ i old → depth i ≤ suc d

  pub Known-grow :
      (old queue longer : List (Item N)) (n : N) (k : ℕ)
      → ((j : Item N) → Memᴰ j queue → Memᴰ j longer)
      → Known old queue n k
      → Known old longer n k
  Known-grow old queue longer n k grows h = record {
    item = h.item;
    place = elim h.place [ inl before ↦ inl before | inr waiting ↦ inr (grows h.item waiting) ];
    node = h.node;
    near = h.near;
  }

  offer-grows :
      (i : Item N) (s : Search N) (t : N × String) (j : Item N)
      → Memᴰ j s.queue
      → Memᴰ j (offer leq i s t).queue
  unfolding offer
  offer-grows i s t j m = elim (Bool-cases (contains s.visited t.0)) [
    | inl seen ↦ rw seen m
    | inr fresh ↦ rw fresh (Memᴰ.append_left (extend i t ∷ []) m)
  ]

  fresh_search : Item N → Search N → N × String → Search N
  fresh_search i s t = record { queue = s.queue ++ extend i t ∷ []; visited = t.0 ∷ s.visited }

  extend-depth : (i : Item N) (t : N × String) → depth (extend i t) ≡ suc (depth i)
  extend-depth i t = omega (arith, length-append i.edges (t.1 ∷ []))

  fresh-Known :
      (d : ℕ) (old : List (Item N)) (i : Item N) (s : Search N) (t : N × String)
      → depth i ≡ d
      → Known old (fresh_search i s t).queue t.0 (suc d)
  unfolding fresh_search
  fresh-Known d old i s t same = record {
    item = extend i t;
    place = inr (Memᴰ.append_right s.queue (Memᴰ.head refl));
    node = refl;
    near = omega (arith, extend-depth i t, same);
  }

  fresh-Frame :
      (d : ℕ) (old : List (Item N)) (i : Item N) (s : Search N) (t : N × String)
      → Frame d old s
      → depth i ≡ d
      → Frame d old (fresh_search i s t)
  unfolding fresh_search
  fresh-Frame d old i s t f same =
      let grows : (j : Item N) → Memᴰ j s.queue → Memᴰ j (s.queue ++ extend i t ∷ []) =
        λ j m. Memᴰ.append_left (extend i t ∷ []) m in
      record {
        known = λ n h. elim (Bool-cases (n == t.0)) [
          | inl new ↦
              subst (λ m. Known old (s.queue ++ extend i t ∷ []) m (suc d))
                (sym ((e.beq_iff n t.0).0 new)) (fresh-Known d old i s t same)
          | inr other ↦ Known-grow old s.queue _ n (suc d) grows (f.known n (ground arith))
        ];
        origin = Known-grow old s.queue _ source 0 grows f.origin;
        layered = Layered-snoc d s.queue (extend i t) f.layered (extend-depth i t ∙ ap suc same);
        low = f.low;
      }

  -- After the offer of a neighbor the frame holds, and the neighbor is known.
  offer-Frame :
      (d : ℕ) (old : List (Item N)) (i : Item N) (s : Search N) (t : N × String)
      → Frame d old s
      → depth i ≡ d
      → Frame d old (offer leq i s t) × Known old (offer leq i s t).queue t.0 (suc d)
  unfolding offer fresh_search
  offer-Frame d old i s t f same = elim (Bool-cases (contains s.visited t.0)) [
    | inl seen ↦
        let kept : offer leq i s t ≡ s = simp seen in
        subst (λ q. Frame d old q × Known old q.queue t.0 (suc d)) (sym kept) (f, f.known t.0 seen)
    | inr fresh ↦
        let made : offer leq i s t ≡ fresh_search i s t = simp fresh in
        subst (λ q. Frame d old q × Known old q.queue t.0 (suc d)) (sym made)
          (fresh-Frame d old i s t f same, fresh-Known d old i s t same)
  ]

  pub scan-grows :
      (i : Item N) (s : Search N) (steps : List (N × String)) (j : Item N)
      → Memᴰ j s.queue
      → Memᴰ j (scan leq i s steps).queue
  unfolding scan
  scan-grows i s [] j m = m
  scan-grows i s (t ∷ steps) j m = scan-grows i (offer leq i s t) steps j (offer-grows i s t j m)

  pub scan-Frame :
      (d : ℕ) (old : List (Item N)) (i : Item N) (s : Search N) (steps : List (N × String))
      → Frame d old s
      → depth i ≡ d
      → Frame d old (scan leq i s steps)
        × ((t : N × String) → Memᴰ t steps → Known old (scan leq i s steps).queue t.0 (suc d))
  unfolding scan
  scan-Frame d old i s [] f same = (f, λ t m. absurd (Memᴰ.not-nil m))
  scan-Frame d old i s (u ∷ steps) f same =
      let first = offer-Frame d old i s u f same in
      let others = scan-Frame d old i (offer leq i s u) steps first.0 same in
      (
        others.0,
        λ t m. elim (Memᴰ.cases_cons m) [
          | inl e ↦
              subst
                (λ (v : N × String).
                  Known old (scan leq i (offer leq i s u) steps).queue v.0 (suc d))
                (sym e)
                (Known-grow old (offer leq i s u).queue _ u.0 (suc d)
                  (scan-grows i (offer leq i s u) steps) first.1)
          | inr later ↦ others.1 t later
        ],
      )
