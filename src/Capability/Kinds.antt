-- ===== src/Capability/Kinds.antt =====
-- The constraints that an accepted capability's primitives select.
use chip_chain_v.Prelude.{
  ◌≡◌, refl, sym, ap, subst, String, String_eq, Bool, true, false, not, ◌==◌, some, List, [], ◌∷◌,
  map, contains, select, length, ◌≤◌, Memᴰ, ok, Result-cases, Returns, traverse, traverse-each,
  Bool-cases, inl, inr, arith,
}
use mathlib.Core.List.Memᴰ
use chip_chain_v.Domains.{NumericDomain}
use chip_chain_v.Capability.Data.{
  Primitive, Base, Constraint, target_resource, numeric, identified, target_set, ordering, kind_of,
  Capability,
}
use chip_chain_v.Capability.Check.{is_distinct}
use chip_chain_v.Capability.References.{
  selected_of, domain_of, check_kinds, check_reference, check_references,
}

abbrev is_competing : String → Bool
is_competing k = not (k == "ordering")

abbrev kinds_of : List Constraint → List String
kinds_of cs = select is_competing (map kind_of cs)

-- The constraints of a kind.
abbrev pub of_kind : String → List Constraint → List Constraint
of_kind k cs = select (λ c. kind_of c == k) cs

kind_of-kinds_of :
    (c : Constraint) (cs : List Constraint)
    → Memᴰ c cs
    → is_competing (kind_of c) ≡ true
    → contains (kinds_of cs) (kind_of c) ≡ true
kind_of-kinds_of c [] m h = absurd (Memᴰ.not-nil m)
kind_of-kinds_of c (x ∷ cs) m h = elim (Memᴰ.cases_cons m) [
  | inl e ↦
      let same = (String_eq.beq_iff (kind_of c) (kind_of x)).1 (ap kind_of e) in
      let competing : is_competing (kind_of x) ≡ true =
        subst (λ y. is_competing (kind_of y) ≡ true) e h in
      ground arith
  | inr later ↦ let rest = kind_of-kinds_of c cs later h in ground arith
]

is_distinct-tail :
    (x : Constraint) (cs : List Constraint)
    → is_distinct (kinds_of (x ∷ cs)) ≡ true
    → is_distinct (kinds_of cs) ≡ true
unfolding is_distinct
is_distinct-tail x cs h = ground arith

is_distinct-head :
    (x : Constraint) (cs : List Constraint)
    → is_distinct (kinds_of (x ∷ cs)) ≡ true
    → is_competing (kind_of x) ≡ true
    → contains (kinds_of cs) (kind_of x) ≡ false
unfolding is_distinct
is_distinct-head x cs h k = ground arith

-- A constraint before the only one of a kind is of another kind.
passed-domain_of :
    (x : Constraint) (k : String) (cs : List Constraint) (d : NumericDomain)
    → (is_competing (kind_of x) ≡ true → contains (kinds_of cs) (kind_of x) ≡ false)
    → contains (kinds_of cs) k ≡ true
    → is_competing k ≡ true
    → domain_of k cs ≡ some d
    → domain_of k (x ∷ cs) ≡ some d
unfolding domain_of
passed-domain_of (target_resource b kind name) k cs d u m h r = r
passed-domain_of (numeric b kind other) k cs d u m h r = elim (Bool-cases (kind == k)) [
  | inl same ↦
      let e = (String_eq.beq_iff kind k).0 same in
      let absent = u (subst (λ z. is_competing z ≡ true) (sym e) h) in
      let present = subst (λ z. contains (kinds_of cs) z ≡ true) (sym e) m in cc
  | inr apart ↦ simp (apart, r)
]
passed-domain_of (identified b kind name) k cs d u m h r = r
passed-domain_of (target_set b targets) k cs d u m h r = r
passed-domain_of (ordering b before after gap) k cs d u m h r = r

-- Among constraints of distinct kinds, the domain of a kind is that of its only constraint.
numeric-domain_of :
    (b : Base) (k : String) (d : NumericDomain) (cs : List Constraint)
    → is_distinct (kinds_of cs) ≡ true
    → is_competing k ≡ true
    → Memᴰ (numeric b k d) cs
    → domain_of k cs ≡ some d
unfolding domain_of
numeric-domain_of b k d [] u h m = absurd (Memᴰ.not-nil m)
numeric-domain_of b k d (x ∷ cs) u h m =
    let unique = is_distinct-tail x cs u in
    elim (Memᴰ.cases_cons m) [
      | inl e ↦
          let same : (k == k) ≡ true = (String_eq.beq_iff k k).1 refl in
          subst (λ y. domain_of k (y ∷ cs) ≡ some d) e (simp same)
      | inr later ↦
          let rest = numeric-domain_of b k d cs unique h later in
          let inside = kind_of-kinds_of (numeric b k d) cs later h in
          passed-domain_of x k cs d (is_distinct-head x cs u) inside h rest
    ]

check_references-traverse :
    (c : Capability)
    → check_references c ≡ ok tt
    → Returns (traverse (check_reference c) c.primitives)
unfolding check_references
check_references-traverse c h = elim (Result-cases (traverse (check_reference c) c.primitives)) [
  | inl returned ↦ returned
  | inr (reason, raised) ↦ ground arith
]

-- What an accepted reference selects.
check_reference-selected :
    (c : Capability) (p : Primitive) {done : Unit {0}}
    → check_reference c p ≡ ok done
    → (cs : List Constraint) × (selected_of c.constraints p ≡ ok cs) × (check_kinds p cs ≡ ok done)
unfolding check_reference
check_reference-selected c p h = elim (Result-cases (selected_of c.constraints p)) [
  | inl (cs, found) ↦ (cs, found, ground arith)
  | inr (reason, raised) ↦ ground arith
]

check_kinds-distinct :
    (p : Primitive) (cs : List Constraint) {done : Unit {0}}
    → check_kinds p cs ≡ ok done
    → is_distinct (kinds_of cs) ≡ true
unfolding check_kinds
check_kinds-distinct p cs h = ground arith

-- Where a kind does not stand among the kinds, no constraint is of it.
absent-of_kind :
    (k : String) (cs : List Constraint)
    → is_competing k ≡ true
    → contains (kinds_of cs) k ≡ false
    → of_kind k cs ≡ []
absent-of_kind k [] h u = refl
absent-of_kind k (x ∷ cs) h u = elim (Bool-cases (kind_of x == k)) [
  | inl same ↦
      let e = (String_eq.beq_iff (kind_of x) k).0 same in
      let competing = subst (λ z. is_competing z ≡ true) (sym e) h in
      let back = (String_eq.beq_iff k (kind_of x)).1 (sym e) in ground arith
  | inr apart ↦
      let rest : contains (kinds_of cs) k ≡ false = elim (Bool-cases (is_competing (kind_of x))) [
        | inl competing ↦ ground arith
        | inr other ↦ ground arith
      ] in
      simp (apart, absent-of_kind k cs h rest)
]

-- Among constraints of distinct kinds, at most one is of a kind.
length-of_kind :
    (k : String) (cs : List Constraint)
    → is_competing k ≡ true
    → is_distinct (kinds_of cs) ≡ true
    → length (of_kind k cs) ≤ 1
length-of_kind k [] h u = omega arith
length-of_kind k (x ∷ cs) h u =
    let rest = length-of_kind k cs h (is_distinct-tail x cs u) in
    elim (Bool-cases (kind_of x == k)) [
      | inl same ↦
          let e = (String_eq.beq_iff (kind_of x) k).0 same in
          let alone = is_distinct-head x cs u (subst (λ z. is_competing z ≡ true) (sym e) h) in
          let none_left =
            absent-of_kind k cs h (subst (λ z. contains (kinds_of cs) z ≡ false) e alone) in
          let one : of_kind k (x ∷ cs) ≡ x ∷ [] = simp (same, none_left) in
          subst (λ l. length l ≤ 1) (sym one) (omega arith)
      | inr apart ↦ simp apart rest
    ]

-- The primitives of an accepted capability select their constraints without a missing key.
pub selected_of-Returns :
    (c : Capability) (p : Primitive)
    → check_references c ≡ ok tt
    → Memᴰ p c.primitives
    → Returns (selected_of c.constraints p)
selected_of-Returns c p h m =
    let (_, all_checked) = check_references-traverse c h in
    let (_, checked) = traverse-each (check_reference c) c.primitives p all_checked m in
    let (cs, found, _) = check_reference-selected c p checked in (cs, found)

-- Every primitive of an accepted capability selects its constraints without a missing key. For a kind
-- other than `ordering`, at most one of the selected constraints is of the kind, and where it is
-- numeric, the domain that is looked up for the kind is its domain.
pub check_references-selected :
    (c : Capability) (p : Primitive) (k : String)
    → check_references c ≡ ok tt
    → Memᴰ p c.primitives
    → (k == "ordering") ≡ false
    → (cs : List Constraint) × (selected_of c.constraints p ≡ ok cs)
      × (length (of_kind k cs) ≤ 1)
      × ((b : Base) (d : NumericDomain) → Memᴰ (numeric b k d) cs → domain_of k cs ≡ some d)
check_references-selected c p k h m apart =
    let (_, all_checked) = check_references-traverse c h in
    let (_, checked) = traverse-each (check_reference c) c.primitives p all_checked m in
    let (cs, found, kinds) = check_reference-selected c p checked in
    let distinct = check_kinds-distinct p cs kinds in
    (
      cs,
      found,
      length-of_kind k cs (ap not apart) distinct,
      λ b d inside. numeric-domain_of b k d cs distinct (ap not apart) inside,
    )
