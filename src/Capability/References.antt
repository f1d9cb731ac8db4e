-- ===== src/Capability/References.antt =====
-- The references from the primitives of a capability to its constraints: the last loops of
-- `validate_bindings`, and the choice of a primitive's constraints.
use chip_chain_v.Prelude.{
  ℕ, String, String_eq, Bool, true, false, not, ◌&&◌, ◌||◌, ◌==◌, is_some, option_eq, Option, none,
  some, List, [], ◌∷◌, map, all, contains, select, find_first, if◌then◌else◌, Result, ok, err, ◌>>◌,
  ◌>>=◌, require, traverse, ℕ_eq,
}
use chip_chain_v.Domains.{NumericDomain}
use chip_chain_v.Capability.Data.{
  is_formalized, PrimitiveKind, Primitive, Constraint, target_resource, numeric, identified,
  ordering, constraint_id_of, kind_of, Capability,
}
use chip_chain_v.Capability.Check.{
  is_distinct, is_subset, is_direct, is_indirect, is_memory_kind, is_mmio_kind, is_csr_kind,
  is_flow_kind,
}

abbrev key_error : Option Constraint → String → Result Constraint
key_error (some c) key = ok c
key_error none key = err key

-- `constraints[key]`, where a missing key raises.
unfoldable pub constraint_named : List Constraint → String → Result Constraint
constraint_named cs key = key_error (find_first (λ c. constraint_id_of c == key) cs) key

-- `[constraints[key] for key in primitive.constraint_ids]`
unfoldable pub selected_of : List Constraint → Primitive → Result (List Constraint)
selected_of cs p = traverse (constraint_named cs) p.constraint_ids

-- `next((x.domain for x in selected if x.kind == kind), None)` for a numeric constraint.
unfoldable pub domain_of : String → List Constraint → Option NumericDomain
domain_of k [] = none
domain_of k (numeric b kind d ∷ cs) =
    let later = domain_of k cs in if kind == k then some d else later
domain_of k (c ∷ cs) = domain_of k cs

-- `next((x.identity for x in selected if isinstance(x, IdentityConstraint) and x.kind == 'CSR'), None)`
unfoldable pub csr_of : List Constraint → Option String
csr_of [] = none
csr_of (identified b kind name ∷ cs) =
    let later = csr_of cs in if kind == "CSR" then some name else later
csr_of (c ∷ cs) = csr_of cs

-- The kind of the first target resource.
unfoldable pub resource_of : List Constraint → Option String
resource_of [] = none
resource_of (target_resource b kind name ∷ cs) = some kind
resource_of (c ∷ cs) = resource_of cs

abbrev exact_in : Option NumericDomain → Option ℕ
exact_in none = none
exact_in (some d) = d.exact

-- `next((x.domain.exact for x in selected if ... and x.kind == kind), None)`
abbrev pub exact_of : String → List Constraint → Option ℕ
exact_of k cs = exact_in (domain_of k cs)

-- The resource that a kind of primitive acts on.
abbrev expected_resource : PrimitiveKind → Option String
expected_resource k =
    if is_memory_kind k
    then some "memory"
    else if is_mmio_kind k
    then some "mmio"
    else if is_csr_kind k
    then some "csr"
    else if is_flow_kind k
    then some "control_flow"
    else none

-- `not (resource and expected and resource.resource_kind != expected)`
abbrev agrees : Option String → Option String → Bool
agrees (some a) (some b) = a == b
agrees _ _ = true

abbrev is_addressed : PrimitiveKind → Bool
is_addressed PrimitiveKind.partial_address_control = true
is_addressed PrimitiveKind.length_control = true
is_addressed k = is_memory_kind k || is_mmio_kind k

abbrev is_write_bounded : PrimitiveKind → Bool
is_write_bounded PrimitiveKind.write_bounded = true
is_write_bounded _ = false

abbrev has_low : Option NumericDomain → Bool
has_low none = false
has_low (some d) = is_some d.exact || is_some d.minimum

abbrev has_high : Option NumericDomain → Bool
has_high none = false
has_high (some d) = is_some d.exact || is_some d.maximum

-- The kinds that a formalized access needs.
abbrev required_kinds : PrimitiveKind → List String
required_kinds k =
    if is_csr_kind k
    then "CSR" ∷ []
    else if is_memory_kind k || is_mmio_kind k
    then "address" ∷ "access_width" ∷ []
    else []

-- What the constraints that a primitive selects have to be.
unfoldable pub check_kinds : Primitive → List Constraint → Result (Unit {0})
unfolding is_distinct is_subset
check_kinds p selected = do
  let kinds = map kind_of selected
  require (is_distinct (select (λ k. not (k == "ordering")) kinds))
      "Multiple competing constraints of the same kind"
  require (agrees (resource_of selected) (expected_resource p.kind))
      "Constraint resource incompatible with primitive"
  require (not (contains kinds "CSR") || is_csr_kind p.kind)
      "CSR constraint incompatible with primitive"
  require (not (contains kinds "address" || contains kinds "length") || is_addressed p.kind)
      "Memory constraint incompatible with primitive"
  require (not (contains kinds "target_set") || is_flow_kind p.kind)
      "Target set incompatible with primitive"
  require (not (is_direct p.kind) || contains kinds "target_set")
      "Direct transfer requires concrete target constraint"
  require (not (is_indirect p.kind && contains kinds "target_set"))
      "Indirect target must remain unknown"
  require
      (not (is_write_bounded p.kind)
        || is_some (resource_of selected)
          && has_low (domain_of "address" selected)
          && has_high (domain_of "length" selected))
      "Bounded write requires resource, bounded addresses and length"
  require
      (not (is_formalized p.formalization_status && is_some (expected_resource p.kind))
        || is_some (resource_of selected))
      "Formalized primitive requires target resource"
  require (not (is_formalized p.formalization_status) || is_subset (required_kinds p.kind) kinds)
      "Formalized access lacks resource constraints"

-- `primitive.source_pc is not None and primitive.source_pc != self.entry.pc`
abbrev at_entry : Option ℕ → Option ℕ → Bool
at_entry none pc = true
at_entry (some a) pc = option_eq (some a) pc

-- The loop over the primitives, as far as the evidence of a control declaration.
unfoldable pub check_reference : Capability → Primitive → Result (Unit {0})
unfolding is_subset
check_reference c p = do
  require (p.entry_id == c.entry.entry_id) "Primitive references unknown entry"
  require (is_subset p.condition_ids (map (λ x. x.condition_id) c.conditions))
      "Primitive references unknown condition"
  require (is_subset p.constraint_ids (map constraint_id_of c.constraints))
      "Primitive references unknown constraint"
  require (at_entry p.source_pc c.entry.pc) "Primitive site differs from entry"
  selected ← selected_of c.constraints p
  check_kinds p selected

-- The endpoints of an ordering constraint are primitives.
abbrev is_bound_order : List String → Constraint → Bool
is_bound_order ids (ordering b before after gap) = contains ids before && contains ids after
is_bound_order ids _ = true

-- The identifiers are unique, and the references from the primitives are to the capability's parts.
unfoldable pub check_references : Capability → Result (Unit {0})
check_references c = do
  require (is_distinct (map (λ x. x.condition_id) c.conditions)) "Duplicate condition_id"
  require (is_distinct (map (λ x. x.primitive_id) c.primitives)) "Duplicate primitive_id"
  require (is_distinct (map constraint_id_of c.constraints)) "Duplicate constraint_id"
  require (all (is_bound_order (map (λ x. x.primitive_id) c.primitives)) c.constraints)
      "Ordering references unknown primitive"
  done ← traverse (check_reference c) c.primitives
  ok tt
