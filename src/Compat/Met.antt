-- ===== src/Compat/Met.antt =====
-- What the outcomes `compatible` say of a primitive and a trigger.
use chip_chain_v.Prelude.{
  ℕ, ℕ_eq, ◌≡◌, refl, sym, ap, subst, ◌∙◌, String, String_eq, true, false, not, ◌&&◌, ◌||◌, ◌==◌,
  Option, none, some, List, [], ◌∷◌, ◌++◌, Memᴰ, any, all, contains, is_nonempty, Bool-cases,
  Option-cases, inl, inr, and_split, ok, ok-injective, some-injective, all-Memᴰ, select-Memᴰ,
  Memᴰ-map_out,
}
use mathlib.Core.List.Memᴰ
use chip_chain_v.Domains.{
  NumericDomain, Outcome, compatible, incompatible, unknown, FieldComparison,
  compare_numeric_domains,
}
use chip_chain_v.Domains.Contained.{IsValue, compatible-contained}
use chip_chain_v.Capability.{
  is_modelled, Primitive, Constraint, constraint_id_of, status_of, kind_of, Capability,
}
use chip_chain_v.Compat.Data.{
  is_compatible, is_incompatible, aggregate_required, aggregate_alternatives, outcomes,
}
use chip_chain_v.Compat.Fields.{
  constraints_of, is_field, by_kind, domain_in, exact_in, exact_domain, equal_number,
}
use chip_chain_v.Compat.Trigger.{is_known, equal_text}

pub is_compatible-eq : (o : Outcome) → is_compatible o ≡ true → o ≡ compatible
is_compatible-eq Outcome.compatible h = refl
is_compatible-eq Outcome.incompatible h = cc
is_compatible-eq Outcome.unknown h = cc

-- A required list that is compatible has only compatible members.
pub aggregate_required-compatible :
    (os : List Outcome) → aggregate_required os ≡ compatible → all is_compatible os ≡ true
unfolding aggregate_required
aggregate_required-compatible os h = elim (Bool-cases (any is_incompatible os)) [
  | inl bad ↦ cc
  | inr good ↦ elim (Bool-cases (is_nonempty os && all is_compatible os)) [
    | inl each ↦ (and_split (is_nonempty os) (all is_compatible os) each).1
    | inr other ↦ cc
  ]
]

-- Alternatives that are compatible have a compatible member.
pub aggregate_alternatives-compatible :
    (os : List Outcome) → aggregate_alternatives os ≡ compatible → any is_compatible os ≡ true
unfolding aggregate_alternatives
aggregate_alternatives-compatible os h = elim (Bool-cases (any is_compatible os)) [
  | inl one ↦ one
  | inr other ↦ elim (Bool-cases (is_nonempty os && all is_incompatible os)) [
    | inl each ↦ cc
    | inr neither ↦ cc
  ]
]

abbrev pub AreCompatible : List FieldComparison → Type 0
AreCompatible cs = (c : FieldComparison) → Memᴰ c cs → c.outcome ≡ compatible

pub aggregate_required-AreCompatible :
    (cs : List FieldComparison) → aggregate_required (outcomes cs) ≡ compatible → AreCompatible cs
aggregate_required-AreCompatible cs h c m = is_compatible-eq c.outcome (
    all-Memᴰ is_compatible (outcomes cs) c.outcome (aggregate_required-compatible (outcomes cs) h)
      (Memᴰ-map_out (λ x. x.outcome) cs c m))

pub AreCompatible-split :
    (xs ys : List FieldComparison) → AreCompatible (xs ++ ys) → AreCompatible xs × AreCompatible ys
AreCompatible-split xs ys h =
    (λ c m. h c (Memᴰ.append_left ys m), λ c m. h c (Memᴰ.append_right xs m))

pub AreCompatible-tail :
    (x : FieldComparison) (xs : List FieldComparison) → AreCompatible (x ∷ xs) → AreCompatible xs
AreCompatible-tail x xs h c m = h c (Memᴰ.tail m)

-- A constraint that the primitive refers to, of the kind, and modelled.
pub record IsFieldOf (fw : Capability) (p : Primitive) (kind : String) (c : Constraint)
    : Type 0 where
  pub inside : Memᴰ c fw.constraints
  pub own : contains p.constraint_ids (constraint_id_of c) ≡ true
  pub named : kind_of c ≡ kind
  pub modelled : is_modelled (status_of c) ≡ true

abbrev pub ProvidesValue : Capability → Primitive → String → ℕ → Type 0
ProvidesValue fw p kind v =
    (c : Constraint) × (d : NumericDomain) × IsFieldOf fw p kind c
    × (domain_in (some c) ≡ some d)
    × IsValue d v

abbrev pub ProvidesExact : Capability → Primitive → String → ℕ → Type 0
ProvidesExact fw p kind w =
    (c : Constraint) × IsFieldOf fw p kind c × (exact_in (domain_in (some c)) ≡ some w)

abbrev pub ProvidesText :
    (Option Constraint → Option String) → Capability → Primitive → String → String → Type 0
ProvidesText field fw p kind s =
    (c : Constraint) × IsFieldOf fw p kind c × (field (some c) ≡ some s)

by_kind-field :
    (kind : String) (cs : List Constraint) (c : Constraint)
    → by_kind kind cs ≡ some c
    → Memᴰ c cs × (is_field kind c ≡ true)
unfolding by_kind
by_kind-field kind [] c h = cc
by_kind-field kind (x ∷ xs) c h = elim (Option-cases (by_kind kind xs)) [
  | inl nothing ↦ elim (Bool-cases (is_field kind x)) [
    | inl hit ↦
        let same : x ≡ c = some-injective (simp (nothing, hit) at h) in
        (Memᴰ.head (sym same), subst (λ y. is_field kind y ≡ true) same hit)
    | inr miss ↦ cc
  ]
  | inr (d, found) ↦
      let same : d ≡ c = some-injective (simp found at h) in
      let (m, hit) = by_kind-field kind xs c (found ∙ ap some same) in (Memᴰ.tail m, hit)
]

pub by_kind-IsFieldOf :
    (fw : Capability) (p : Primitive) (kind : String) (c : Constraint)
    → by_kind kind (constraints_of fw.constraints p) ≡ some c
    → IsFieldOf fw p kind c
by_kind-IsFieldOf fw p kind c h =
    let (m, hit) = by_kind-field kind (constraints_of fw.constraints p) c h in
    let (named, modelled) = and_split (kind_of c == kind) (is_modelled (status_of c)) hit in
    let (inside, own) =
      select-Memᴰ (λ x. contains p.constraint_ids (constraint_id_of x)) fw.constraints c m in
    record {
      inside = inside;
      own = own;
      named = (String_eq.beq_iff (kind_of c) kind).0 named;
      modelled = modelled;
    }

-- Equal texts that are compatible are given, and are the same.
pub equal_text-compatible :
    (lower : String → String) (dimension : String) (p : Option String) (s : String)
    → (equal_text lower dimension p (some s)).outcome ≡ compatible
    → p ≡ some s
unfolding equal_text
equal_text-compatible lower dimension none s h = cc
equal_text-compatible lower dimension (some q) s h =
    elim (Bool-cases (not (is_known lower (some q)) || not (is_known lower (some s)))) [
      | inl open_one ↦ let bad : unknown ≡ compatible = simp open_one at h in cc
      | inr known ↦ elim (Bool-cases (q == s)) [
        | inl same ↦ ap some ((String_eq.beq_iff q s).0 same)
        | inr apart ↦ let bad : incompatible ≡ compatible = simp (known, apart) at h in cc
      ]
    ]

pub equal_number-compatible :
    (dimension : String) (p : Option ℕ) (n : ℕ)
    → (equal_number dimension p (some n)).outcome ≡ compatible
    → p ≡ some n
unfolding equal_number
equal_number-compatible dimension none n h = cc
equal_number-compatible dimension (some m) n h = elim (Bool-cases (m == n)) [
  | inl same ↦ ap some ((ℕ_eq.beq_iff m n).0 same)
  | inr apart ↦ let bad : incompatible ≡ compatible = simp apart at h in cc
]

-- A domain that is compatible with an exact number has the number as a value.
pub compare_exact-compatible :
    (dimension : String) (p : Option NumericDomain) (v : ℕ) (c : FieldComparison)
    → compare_numeric_domains false dimension p (some (exact_domain v)) ≡ ok c
    → c.outcome ≡ compatible
    → (d : NumericDomain) × (p ≡ some d) × IsValue d v
unfolding compare_numeric_domains
compare_exact-compatible dimension none v c h e =
    let same : unknown ≡ c.outcome = ap (λ x. x.outcome) (ok-injective h) in cc
compare_exact-compatible dimension (some d) v c h e = (
  d,
  refl,
  compatible-contained false dimension d (exact_domain v) c h e v
      (record { exactly = refl; above = tt; below = tt }),
)

pub by_kind-ProvidesValue :
    (fw : Capability) (p : Primitive) (kind : String) (v : ℕ) (d : NumericDomain)
    → domain_in (by_kind kind (constraints_of fw.constraints p)) ≡ some d
    → IsValue d v
    → ProvidesValue fw p kind v
by_kind-ProvidesValue fw p kind v d h i =
    elim (Option-cases (by_kind kind (constraints_of fw.constraints p))) [
      | inl nothing ↦ let bad : domain_in none ≡ some d = simp nothing at h in cc
      | inr (c, found) ↦ (c, d, by_kind-IsFieldOf fw p kind c found, simp found at h, i)
    ]
