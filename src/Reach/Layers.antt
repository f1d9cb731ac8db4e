-- ===== src/Reach/Layers.antt =====
-- The queue of the search holds the nodes of one depth, then those of the next.
use chip_chain_v.Prelude.{
  ℕ, suc, ◌≤◌, ◌≡◌, sym, ap, subst, List, [], ◌∷◌, ◌++◌, Memᴰ, ◌⊎◌, inl, inr, arith, All,
  All-append, All-Memᴰ,
}
use mathlib.Core.List.Memᴰ
use chip_chain_v.Reach.Search.{Item, depth}

module _ {ℓ} {N : Type ℓ} where
  -- The items are of depth d, and after them of depth d + 1.
  abbrev pub Layered : ℕ → List (Item N) → Type ℓ
  Layered d [] = Unit
  Layered d (i ∷ is) = ((depth i ≡ d) × Layered d is) ⊎ All (λ j. depth j ≡ suc d) (i ∷ is)

  pub Layered-All : (d : ℕ) (is : List (Item N)) → All (λ j. depth j ≡ d) is → Layered d is
  Layered-All d [] h = tt
  Layered-All d (i ∷ is) h = inl (h.0, Layered-All d is h.1)

  pub Layered-snoc :
      (d : ℕ) (is : List (Item N)) (j : Item N)
      → Layered d is
      → depth j ≡ suc d
      → Layered d (is ++ j ∷ [])
  Layered-snoc d [] j h e = inr (e, tt)
  Layered-snoc d (i ∷ is) j (inl h) e = inl (h.0, Layered-snoc d is j h.1 e)
  Layered-snoc d (i ∷ is) j (inr h) e =
      inr (All-append (λ k. depth k ≡ suc d) (i ∷ is) (j ∷ []) h (e, tt))

  -- Without its head, the queue is layered from the head's depth on.
  pub Layered-tail :
      (d : ℕ) (i : Item N) (is : List (Item N))
      → Layered d (i ∷ is)
      → (d ≤ depth i) × Layered (depth i) is
  Layered-tail d i is (inl h) = (omega (arith, h.0), subst (λ k. Layered k is) (sym h.0) h.1)
  Layered-tail d i is (inr h) =
      (omega (arith, h.0), subst (λ k. Layered k is) (sym h.0) (Layered-All (suc d) is h.1))

  pub Layered-bounds :
      (d : ℕ) (is : List (Item N)) (j : Item N)
      → Layered d is
      → Memᴰ j is
      → (d ≤ depth j) × (depth j ≤ suc d)
  Layered-bounds d [] j h m = absurd (Memᴰ.not-nil m)
  Layered-bounds d (i ∷ is) j (inl h) m = elim (Memᴰ.cases_cons m) [
    | inl e ↦ let same = ap depth e in (omega (arith, same, h.0), omega (arith, same, h.0))
    | inr later ↦ Layered-bounds d is j h.1 later
  ]
  Layered-bounds d (i ∷ is) j (inr h) m =
      let same = All-Memᴰ (λ k. depth k ≡ suc d) (i ∷ is) h m in
      (omega (arith, same), omega (arith, same))
