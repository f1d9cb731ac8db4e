-- ===== src/Compat/Payload.antt =====
-- What the checks of a trigger's payload say where all of them are compatible.
use chip_chain_v.Prelude.{
  ℕ, ltb, ◌^◌, ◌≡◌, refl, sym, ap, subst, ◌∙◌, String, Bool, true, false, is_some, Option, none,
  some, List, [], ◌∷◌, ◌++◌, Memᴰ, if◌then◌else◌, Bool-cases, Option-cases, inl, inr, ok,
  ok-injective, >>=-eq-ok, text_append,
}
use chip_chain_v.Domains.{
  NumericDomain, compatible, incompatible, unknown, unsupported, FieldComparison, unknown_field,
}
use chip_chain_v.Domains.Contained.{IsValue}
use chip_chain_v.Capability.{PrimitiveKind, Primitive, Constraint, Capability}
use chip_chain_v.Matching.{ValueConstraint, AccessKind, MmioAtom, CsrAtom}
use chip_chain_v.Compat.Fields.{
  InstructionAtom, Payload, instruction, csr_access, mmio_access, constraints_of, direction_of,
  allows, direction_check, by_kind, resource_kind_of, identity_of, domain_in, exact_in,
  equal_number, is_exact, operator_reason, exact_requirement, numeric_requirement, value_checks,
  width_checks, address_check, csr_address_checks, given_field, instruction_checks,
}
use chip_chain_v.Compat.Trigger.{equal_text, csr_identity_checks}
use chip_chain_v.Compat.Met.{
  AreCompatible, AreCompatible-split, ProvidesValue, ProvidesExact, ProvidesText, by_kind-IsFieldOf,
  equal_text-compatible, equal_number-compatible, compare_exact-compatible, by_kind-ProvidesValue,
}

-- The required value is an exact one, and the primitive provides it.
abbrev pub ProvidesRequired : Capability → Primitive → Option ValueConstraint → Type 0
ProvidesRequired fw p none = Unit
ProvidesRequired fw p (some v) =
    (n : ℕ) × (is_exact v ≡ true) × (v.value ≡ some n) × ProvidesValue fw p "value" n

abbrev pub ProvidesWidth : Capability → Primitive → Option ℕ → Type 0
ProvidesWidth fw p none = Unit
ProvidesWidth fw p (some w) = ProvidesExact fw p "access_width" w

abbrev pub ProvidesRegister : Capability → Primitive → Option String → Type 0
ProvidesRegister fw p none = Unit
ProvidesRegister fw p (some name) = ProvidesText identity_of fw p "CSR" name

-- The primitive's modelled constraints provide the access of an atom.
pub record ProvidesMmio (fw : Capability) (p : Primitive) (a : MmioAtom) : Type 0 where
  pub direction : allows a.access (direction_of p.kind) ≡ true
  pub resource : ProvidesText resource_kind_of fw p "target_resource" "mmio"
  pub address : ProvidesValue fw p "address" a.address
  pub width : ProvidesWidth fw p a.width_bits
  pub value : ProvidesRequired fw p a.value_constraint

pub record ProvidesCsr (fw : Capability) (p : Primitive) (a : CsrAtom) : Type 0 where
  pub direction : allows a.access (direction_of p.kind) ≡ true
  pub resource : ProvidesText resource_kind_of fw p "target_resource" "csr"
  pub register : ProvidesRegister fw p a.csr_identity
  pub unaddressed : a.csr_address ≡ none
  pub value : ProvidesRequired fw p a.value_constraint

-- An instruction without a field that the comparison reads.
pub record IsBare (i : InstructionAtom) : Type 0 where
  pub mnemonic : is_some i.mnemonic ≡ false
  pub encoding : is_some i.encoding ≡ false
  pub encoding_mask : is_some i.encoding_mask ≡ false
  pub operand_pattern : i.has_operand_pattern ≡ false
  pub stage_requirement : is_some i.stage_requirement ≡ false

abbrev pub AreBare : List InstructionAtom → Type 0
AreBare [] = Unit
AreBare (i ∷ is) = IsBare i × AreBare is

-- What the payload asks of the primitive.
abbrev pub MeetsPayload : Capability → Primitive → Payload → Type 0
MeetsPayload fw p (mmio_access (some a)) = ProvidesMmio fw p a
MeetsPayload fw p (csr_access (some a)) = ProvidesCsr fw p a
MeetsPayload fw p (instruction (i ∷ is)) = AreBare (i ∷ is)
MeetsPayload fw p _ = ⊥

pub direction_check-allows :
    (a : AccessKind) (k : PrimitiveKind)
    → (direction_check a k).outcome ≡ compatible
    → allows a (direction_of k) ≡ true
unfolding direction_check
direction_check-allows a k h = elim (Bool-cases (allows a (direction_of k))) [
  | inl fits ↦ fits
  | inr misses ↦ let bad : incompatible ≡ compatible = simp misses at h in cc
]

given_field-absent :
    (given : Bool) (name : String) → AreCompatible (given_field given name) → given ≡ false
given_field-absent false name h = refl
given_field-absent true name h =
    let bad : unknown ≡ compatible =
      h
        (unknown_field (text_append "instruction." name) "FW_TYPED_INSTRUCTION_FIELD_UNAVAILABLE"
          unsupported)
        (Memᴰ.head refl) in
    cc

-- The checks of the five fields, and the rest.
AreCompatible-fields :
    (a b c d e rest : List FieldComparison)
    → AreCompatible (a ++ b ++ c ++ d ++ e ++ rest)
    → AreCompatible a
      × AreCompatible b
      × AreCompatible c
      × AreCompatible d
      × AreCompatible e
      × AreCompatible rest
AreCompatible-fields a b c d e rest h =
    let (h, hr) = AreCompatible-split (a ++ b ++ c ++ d ++ e) rest h in
    let (h, he) = AreCompatible-split (a ++ b ++ c ++ d) e h in
    let (h, hd) = AreCompatible-split (a ++ b ++ c) d h in
    let (h, hc) = AreCompatible-split (a ++ b) c h in
    let (ha, hb) = AreCompatible-split a b h in (ha, hb, hc, hd, he, hr)

pub instruction_checks-AreBare :
    (is : List InstructionAtom) → AreCompatible (instruction_checks is) → AreBare is
unfolding instruction_checks
instruction_checks-AreBare [] h = tt
instruction_checks-AreBare (i ∷ is) h =
    let (a, b, c, d, e, rest) =
      AreCompatible-fields (given_field (is_some i.mnemonic) "mnemonic")
        (given_field (is_some i.encoding) "encoding")
        (given_field (is_some i.encoding_mask) "encoding_mask")
        (given_field i.has_operand_pattern "operand_pattern")
        (given_field (is_some i.stage_requirement) "stage_requirement") (instruction_checks is) h in
    (
      record {
        mnemonic = given_field-absent (is_some i.mnemonic) "mnemonic" a;
        encoding = given_field-absent (is_some i.encoding) "encoding" b;
        encoding_mask = given_field-absent (is_some i.encoding_mask) "encoding_mask" c;
        operand_pattern = given_field-absent i.has_operand_pattern "operand_pattern" d;
        stage_requirement = given_field-absent (is_some i.stage_requirement) "stage_requirement" e;
      },
      instruction_checks-AreBare is rest,
    )

exact_requirement-compatible :
    (dimension reason : String) (v : Option ℕ) (p : Option NumericDomain) (c : FieldComparison)
    → exact_requirement dimension reason v p ≡ ok c
    → c.outcome ≡ compatible
    → (n : ℕ) × (d : NumericDomain) × (v ≡ some n) × (p ≡ some d) × IsValue d n
unfolding exact_requirement
exact_requirement-compatible dimension reason none p c h e =
    let same : unknown ≡ c.outcome = ap (λ x. x.outcome) (ok-injective h) in cc
exact_requirement-compatible dimension reason (some v) p c h e =
    elim (Bool-cases (ltb v (2 ^ 64))) [
      | inl low ↦
          let (d, given, inside) = compare_exact-compatible dimension p v c (simp low at h) e in
          (v, d, refl, given, inside)
      | inr high ↦
          let raised : ok (unknown_field dimension reason unsupported) ≡ ok c = simp high at h in
          let same : unknown ≡ c.outcome = ap (λ x. x.outcome) (ok-injective raised) in cc
    ]

pub value_checks-ProvidesRequired :
    (fw : Capability) (p : Primitive) (v : Option ValueConstraint) (cs : List FieldComparison)
    → value_checks v (constraints_of fw.constraints p) ≡ ok cs
    → AreCompatible cs
    → ProvidesRequired fw p v
unfolding value_checks numeric_requirement
value_checks-ProvidesRequired fw p none cs h good = tt
value_checks-ProvidesRequired fw p (some v) cs h good =
    let given = domain_in (by_kind "value" (constraints_of fw.constraints p)) in
    let (c, made, one) = >>=-eq-ok (numeric_requirement v "value" given) (λ x. ok (x ∷ [])) h in
    let e = good c (subst (Memᴰ c) (ok-injective one) (Memᴰ.head refl)) in
    let (n, d, exact, provided, inside) =
      exact_requirement-compatible "value" (operator_reason v)
        (if is_exact v then v.value else none) given c made e in
    let provides = by_kind-ProvidesValue fw p "value" n d provided inside in
    elim (Bool-cases (is_exact v)) [
      | inl is_eq ↦ (n, is_eq, simp is_eq at exact, provides)
      | inr misses ↦ let bad : none ≡ some n = simp misses at exact in cc
    ]

pub width_checks-ProvidesWidth :
    (fw : Capability) (p : Primitive) (w : Option ℕ)
    → AreCompatible (width_checks w (constraints_of fw.constraints p))
    → ProvidesWidth fw p w
unfolding width_checks
width_checks-ProvidesWidth fw p none good = tt
width_checks-ProvidesWidth fw p (some w) good =
    let found = by_kind "access_width" (constraints_of fw.constraints p) in
    let same : exact_in (domain_in found) ≡ some w =
      equal_number-compatible "width" (exact_in (domain_in found)) w
        (good (equal_number "width" (exact_in (domain_in found)) (some w)) (Memᴰ.head refl)) in
    elim (Option-cases found) [
      | inl nothing ↦ let bad : none ≡ some w = simp nothing at same in cc
      | inr (c, here) ↦ (c, by_kind-IsFieldOf fw p "access_width" c here, simp here at same)
    ]

pub address_check-ProvidesValue :
    (fw : Capability) (p : Primitive) (a : ℕ) (c : FieldComparison)
    → address_check a (constraints_of fw.constraints p) ≡ ok c
    → c.outcome ≡ compatible
    → ProvidesValue fw p "address" a
unfolding address_check
address_check-ProvidesValue fw p a c h e =
    let given = domain_in (by_kind "address" (constraints_of fw.constraints p)) in
    elim (Bool-cases (ltb a (2 ^ 64))) [
      | inl low ↦
          let (d, provided, inside) =
            compare_exact-compatible "mmio_address" given a c (simp low at h) e in
          by_kind-ProvidesValue fw p "address" a d provided inside
      | inr high ↦
          let raised : ok (unknown_field "mmio_address" "NUMERIC_WIDTH_UNSUPPORTED" unsupported)
              ≡ ok c =
            simp high at h in
          let same : unknown ≡ c.outcome = ap (λ x. x.outcome) (ok-injective raised) in cc
    ]

-- A text that compares as equal stands in a constraint.
pub text-ProvidesText :
    (lower : String → String) (dimension : String) (field : Option Constraint → Option String)
    (fw : Capability) (p : Primitive) (kind s : String)
    → field none ≡ none
    → (equal_text lower dimension
        (field (by_kind kind (constraints_of fw.constraints p)))
        (some s)).outcome
      ≡ compatible
    → ProvidesText field fw p kind s
text-ProvidesText lower dimension field fw p kind s empty h =
    let found = by_kind kind (constraints_of fw.constraints p) in
    let same : field found ≡ some s = equal_text-compatible lower dimension (field found) s h in
    elim (Option-cases found) [
      | inl nothing ↦ let bad : none ≡ some s = sym empty ∙ sym (ap field nothing) ∙ same in cc
      | inr (c, here) ↦ (c, by_kind-IsFieldOf fw p kind c here, sym (ap field here) ∙ same)
    ]

pub csr_identity_checks-ProvidesRegister :
    (lower : String → String) (fw : Capability) (p : Primitive) (name : Option String)
    → AreCompatible (csr_identity_checks lower name (constraints_of fw.constraints p))
    → ProvidesRegister fw p name
csr_identity_checks-ProvidesRegister lower fw p none good = tt
csr_identity_checks-ProvidesRegister lower fw p (some name) good =
    text-ProvidesText lower "csr_identity" identity_of fw p "CSR" name refl (
      good
        (equal_text lower "csr_identity"
          (identity_of (by_kind "CSR" (constraints_of fw.constraints p))) (some name))
        (Memᴰ.head refl))

pub csr_address_checks-none : (a : Option ℕ) → AreCompatible (csr_address_checks a) → a ≡ none
csr_address_checks-none none good = refl
csr_address_checks-none (some a) good =
    let bad : unknown ≡ compatible =
      good (unknown_field "csr_address" "FW_NUMERIC_CSR_ADDRESS_UNAVAILABLE" unsupported)
        (Memᴰ.head refl) in
    cc
