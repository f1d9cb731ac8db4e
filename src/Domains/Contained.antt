-- ===== src/Domains/Contained.antt =====
-- What a comparison of two domains says of their values.
use chip_chain_v.Prelude.{
  ℕ, ℕ_eq, ◌≤◌, ◌≡◌, refl, sym, ◌∙◌, ap, Bool, true, not, ◌&&◌, ◌||◌, is_some, iff, Option, none,
  some, String, Bool-cases, inl, inr, arith, ok, >>=-eq-ok, ok-injective,
}
use chip_chain_v.Domains.Data.{
  NumericDomain, compatible, unknown, FieldComparison, is_ordered, check_domain, bounds, bounds_of,
  compare_bounds, compare_numeric_domains,
}

abbrev pub Is : Option ℕ → ℕ → Type 0
Is none v = Unit
Is (some x) v = v ≡ x

abbrev pub Above : Option ℕ → ℕ → Type 0
Above none v = Unit
Above (some a) v = a ≤ v

abbrev pub Below : Option ℕ → ℕ → Type 0
Below none v = Unit
Below (some b) v = v ≤ b

-- The value meets each bound that the domain states.
pub record IsValue (d : NumericDomain) (v : ℕ) : Type 0 where
  pub exactly : Is d.exact v
  pub above : Above d.minimum v
  pub below : Below d.maximum v

-- The endpoints that a consistent domain states, with what they say of a value.
bounds_lem :
    (e a b : Option ℕ) (lo hi : ℕ)
    → iff (is_some a) (is_some b) ≡ true
    → is_ordered a b ≡ true
    → not (is_some e && is_some a) ≡ true
    → bounds e a b ≡ some (lo, hi)
    → (lo ≤ hi)
      × ((v : ℕ) → Is e v → Above a v → Below b v → (lo ≤ v) × (v ≤ hi))
      × ((v : ℕ) → lo ≤ v → v ≤ hi → Is e v × Above a v × Below b v)
unfolding bounds is_ordered
bounds_lem (some x) none none lo hi p q r h =
    let low : x ≡ lo = ground arith in
    let high : x ≡ hi = ground arith in
    (
      omega (arith, low, high),
      λ v i j k. (omega (arith, low, i), omega (arith, high, i)),
      λ v i j. (omega (arith, low, high, i, j), tt, tt),
    )
bounds_lem none (some x) (some y) lo hi p q r h =
    let low : x ≡ lo = ground arith in
    let high : y ≡ hi = ground arith in
    let order : x ≤ y = ground arith in
    (
      omega (arith, low, high, order),
      λ v i j k. (omega (arith, low, j), omega (arith, high, k)),
      λ v i j. (tt, omega (arith, low, i), omega (arith, high, j)),
    )
bounds_lem (some x) (some y) b lo hi p q r h = cc
bounds_lem (some x) none (some y) lo hi p q r h = cc
bounds_lem none none b lo hi p q r h = cc
bounds_lem none (some x) none lo hi p q r h = cc

-- The endpoints of an accepted domain.
record HasBounds (d : NumericDomain) (lo hi : ℕ) : Type 0 where
  ordered : lo ≤ hi
  inside : (v : ℕ) → IsValue d v → (lo ≤ v) × (v ≤ hi)
  filled : (v : ℕ) → lo ≤ v → v ≤ hi → IsValue d v

check_domain-HasBounds :
    (d : NumericDomain) (lo hi : ℕ)
    → check_domain d ≡ ok tt
    → bounds_of d ≡ some (lo, hi)
    → HasBounds d lo hi
unfolding check_domain
check_domain-HasBounds d lo hi checked h =
    let (ordered, inside, filled) =
      bounds_lem d.exact d.minimum d.maximum lo hi (ground arith) (ground arith) (ground arith) h in
    record {
      ordered = ordered;
      inside = λ v i. inside v i.exactly i.above i.below;
      filled =
          λ v i j. let (e, a, b) = filled v i j in record { exactly = e; above = a; below = b };
    }

compare_bounds-compatible :
    (q : Bool) (dimension : String) (fw hw : Option (ℕ × ℕ))
    → (compare_bounds q dimension fw hw).outcome ≡ compatible
    → (f : ℕ × ℕ) × (h : ℕ × ℕ) × (fw ≡ some f) × (hw ≡ some h) × (f.0 ≤ h.0) × (h.1 ≤ f.1)
unfolding compare_bounds
compare_bounds-compatible q dimension (some f) (some g) h =
    (f, g, refl, refl, ground arith, ground arith)
compare_bounds-compatible q dimension none hw h = cc
compare_bounds-compatible q dimension (some f) none h = cc

-- A comparison that decides went through the endpoints of two consistent domains.
record Decided (q : Bool) (dimension : String) (p r : NumericDomain) (c : FieldComparison)
    : Type 0 where
  provided_ok : check_domain p ≡ ok tt
  required_ok : check_domain r ≡ ok tt
  by_bounds : c ≡ compare_bounds q dimension (bounds_of p) (bounds_of r)

compare_numeric_domains-Decided :
    (q : Bool) (dimension : String) (p r : NumericDomain) (c : FieldComparison)
    → compare_numeric_domains q dimension (some p) (some r) ≡ ok c
    → (c.outcome ≡ unknown → ⊥)
    → Decided q dimension p r c
unfolding compare_numeric_domains
compare_numeric_domains-Decided q dimension p r c h decided =
    let (u, provided, h1) = >>=-eq-ok (check_domain p) _ h in
    let (w, required, h2) = >>=-eq-ok (check_domain r) _ h1 in
    elim (Bool-cases (is_some p.mask || is_some r.mask)) [
      | inl masked ↦ absurd (decided (ap (λ x. x.outcome) (sym (ok-injective (simp masked at h2)))))
      | inr plain ↦ record {
        provided_ok = provided;
        required_ok = required;
        by_bounds = sym (ok-injective (simp plain at h2));
      }
    ]

pub compatible-contained :
    (contains_all : Bool) (dimension : String) (p r : NumericDomain) (c : FieldComparison)
    → compare_numeric_domains contains_all dimension (some p) (some r) ≡ ok c
    → c.outcome ≡ compatible
    → (v : ℕ) → IsValue r v
    → IsValue p v
compatible-contained q dimension p r c h e v i =
    let d = compare_numeric_domains-Decided q dimension p r c h (λ k. cc) in
    let (f, g, fw, hw, low, high) =
      compare_bounds-compatible q dimension (bounds_of p) (bounds_of r)
        (ap (λ x. x.outcome) (sym d.by_bounds) ∙ e) in
    let provided = check_domain-HasBounds p f.0 f.1 d.provided_ok fw in
    let required = check_domain-HasBounds r g.0 g.1 d.required_ok hw in
    let (above, below) = required.inside v i in
    provided.filled v (omega (arith, low, above)) (omega (arith, high, below))
