-- ===== src/Compat/Fields.antt =====
-- What `_trigger_alternative` reads of a trigger, a primitive and its constraints, field by field.
use chip_chain_v.Prelude.{
  ℕ, ℕ_eq, ltb, ◌^◌, String, String_eq, Bool, true, false, not, ◌&&◌, ◌||◌, ◌==◌, is_some, Option,
  none, some, List, [], ◌∷◌, ◌++◌, map, select, contains, if◌then◌else◌, Result, ok, ◌>>=◌,
  text_append,
}
use chip_chain_v.Domains.{
  NumericDomain, compatible, incompatible, missing, unsupported, FieldComparison, unknown_field,
  compare_numeric_domains,
}
use chip_chain_v.Capability.{
  Formalization, is_modelled, PrimitiveKind, is_unknown_basis, Primitive, Constraint,
  target_resource, numeric, identified, constraint_id_of, status_of, kind_of, Condition,
}
use chip_chain_v.Matching.{AccessKind, ValueOperator, ValueConstraint, MmioAtom, CsrAtom}
use chip_chain_v.Compat.Data.{field_check}

-- `InstructionTriggerAtom`; of the operand pattern it is read whether there is one.
pub record InstructionAtom : Type 0 where
  pub mnemonic : Option String
  pub encoding : Option ℕ
  pub encoding_mask : Option ℕ
  pub has_operand_pattern : Bool
  pub stage_requirement : Option String

-- The kind of a trigger, with the payload that its validator lets it have.
pub data Payload : Type 0 where
  instruction : List InstructionAtom → Payload
  csr_access : Option CsrAtom → Payload
  mmio_access : Option MmioAtom → Payload
  other_kind : Payload

-- `TriggerCondition`
pub record Trigger : Type 0 where
  pub condition_id : String
  pub formalization_status : Formalization
  pub payload : Payload
  pub source_artifact_ids : List String
  pub evidence_ids : List String

-- `_MAPPING`
abbrev pub is_mapped : Payload → PrimitiveKind → Bool
is_mapped (instruction _) PrimitiveKind.instruction_execution = true
is_mapped (csr_access _) PrimitiveKind.csr_read = true
is_mapped (csr_access _) PrimitiveKind.csr_write = true
is_mapped (mmio_access _) PrimitiveKind.mmio_read = true
is_mapped (mmio_access _) PrimitiveKind.mmio_write = true
is_mapped _ _ = false

-- `_RESOURCE`
abbrev pub resource_class : PrimitiveKind → Option String
resource_class PrimitiveKind.memory_read = some "memory"
resource_class PrimitiveKind.memory_write = some "memory"
resource_class PrimitiveKind.write_bounded = some "memory"
resource_class PrimitiveKind.read_oob = some "memory"
resource_class PrimitiveKind.write_oob = some "memory"
resource_class PrimitiveKind.csr_read = some "csr"
resource_class PrimitiveKind.csr_write = some "csr"
resource_class PrimitiveKind.mmio_read = some "mmio"
resource_class PrimitiveKind.mmio_write = some "mmio"
resource_class _ = none

abbrev pub required_resource : Payload → Option String
required_resource (csr_access _) = some "csr"
required_resource (mmio_access _) = some "mmio"
required_resource _ = none

abbrev pub classes_conflict : Option String → Option String → Bool
classes_conflict (some r) (some q) = not (q == r)
classes_conflict _ _ = false

-- The only check where the kinds are not mapped.
unfoldable pub unmapped_check : Payload → PrimitiveKind → FieldComparison
unmapped_check t k =
    if classes_conflict (required_resource t) (resource_class k)
    then field_check "resource" incompatible "EXPLICIT_RESOURCE_CLASS_CONFLICT"
    else unknown_field "mapping" "NO_SUPPORTED_MAPPING" unsupported

-- `_constraints`
abbrev pub constraints_of : List Constraint → Primitive → List Constraint
constraints_of cs p = select (λ c. contains p.constraint_ids (constraint_id_of c)) cs

-- `kind.endswith('_READ')` for the kinds that are mapped.
abbrev pub direction_of : PrimitiveKind → AccessKind
direction_of PrimitiveKind.csr_read = AccessKind.read
direction_of PrimitiveKind.mmio_read = AccessKind.read
direction_of PrimitiveKind.memory_read = AccessKind.read
direction_of _ = AccessKind.write

-- `access in (direction, 'either')`
abbrev pub allows : AccessKind → AccessKind → Bool
allows AccessKind.either d = true
allows AccessKind.read AccessKind.read = true
allows AccessKind.write AccessKind.write = true
allows _ d = false

unfoldable pub direction_check : AccessKind → PrimitiveKind → FieldComparison
direction_check a k =
    if allows a (direction_of k)
    then field_check "direction" compatible "ACCESS_DIRECTION_ALLOWED"
    else field_check "direction" incompatible "ACCESS_DIRECTION_CONFLICT"

-- `by_kind.get(kind)` for a kind other than `ordering`: the last modelled constraint counts.
abbrev pub is_field : String → Constraint → Bool
is_field kind c = kind_of c == kind && is_modelled (status_of c)

abbrev or_first : Option Constraint → Option Constraint → Option Constraint
or_first (some d) c = some d
or_first none c = c

unfoldable pub by_kind : String → List Constraint → Option Constraint
by_kind kind [] = none
by_kind kind (c ∷ cs) = or_first (by_kind kind cs) (if is_field kind c then some c else none)

abbrev pub resource_kind_of : Option Constraint → Option String
resource_kind_of (some (target_resource b kind name)) = some kind
resource_kind_of _ = none

abbrev pub identity_of : Option Constraint → Option String
identity_of (some (identified b kind name)) = some name
identity_of _ = none

abbrev pub domain_in : Option Constraint → Option NumericDomain
domain_in (some (numeric b kind d)) = some d
domain_in _ = none

abbrev pub exact_in : Option NumericDomain → Option ℕ
exact_in none = none
exact_in (some d) = d.exact

abbrev pub exact_domain : ℕ → NumericDomain
exact_domain n = record {
  exact = some n;
  minimum = none;
  maximum = none;
  mask = none;
  masked_value = none;
  controlled_bits = none;
  bit_width = none;
}

-- `_equal` on numbers, which are known where they are given.
unfoldable pub equal_number : String → Option ℕ → Option ℕ → FieldComparison
equal_number dimension (some p) (some r) =
    if p == r
    then field_check dimension compatible "EXACT_MATCH"
    else field_check dimension incompatible "EXPLICIT_VALUE_CONFLICT"
equal_number dimension _ _ = unknown_field dimension "MISSING_TYPED_VALUE" missing

-- `_numeric_requirement`, for values that are not negative.
abbrev pub is_exact : ValueConstraint → Bool
is_exact v = elim v.operator [ ValueOperator.eq ↦ true | _ ↦ false ]

abbrev pub operator_reason : ValueConstraint → String
operator_reason v = elim v.operator [
  | ValueOperator.in_range ↦ "RANGE_QUANTIFIER_UNSPECIFIED"
  | _ ↦ "VALUE_OPERATOR_UNSUPPORTED"
]

unfoldable pub exact_requirement :
    String → String → Option ℕ → Option NumericDomain → Result FieldComparison
exact_requirement dimension reason (some v) provided =
    if ltb v (2 ^ 64)
    then compare_numeric_domains false dimension provided (some (exact_domain v))
    else ok (unknown_field dimension reason unsupported)
exact_requirement dimension reason none provided = ok (unknown_field dimension reason unsupported)

unfoldable pub numeric_requirement :
    ValueConstraint → String → Option NumericDomain → Result FieldComparison
unfolding exact_requirement
numeric_requirement v dimension provided =
    exact_requirement dimension (operator_reason v) (if is_exact v then v.value else none) provided

unfoldable pub value_checks :
    Option ValueConstraint → List Constraint → Result (List FieldComparison)
value_checks none cs = ok []
value_checks (some v) cs = do
  c ← numeric_requirement v "value" (domain_in (by_kind "value" cs))
  ok (c ∷ [])

unfoldable pub width_checks : Option ℕ → List Constraint → List FieldComparison
width_checks none cs = []
width_checks (some w) cs =
    equal_number "width" (exact_in (domain_in (by_kind "access_width" cs))) (some w) ∷ []

unfoldable pub address_check : ℕ → List Constraint → Result FieldComparison
address_check a cs =
    if ltb a (2 ^ 64)
    then compare_numeric_domains false "mmio_address" (domain_in (by_kind "address" cs))
        (some (exact_domain a))
    else ok (unknown_field "mmio_address" "NUMERIC_WIDTH_UNSUPPORTED" unsupported)

abbrev pub csr_address_checks : Option ℕ → List FieldComparison
csr_address_checks none = []
csr_address_checks (some a) =
    unknown_field "csr_address" "FW_NUMERIC_CSR_ADDRESS_UNAVAILABLE" unsupported ∷ []

-- The fields of an instruction that a firmware capability has no typed value for.
abbrev pub given_field : Bool → String → List FieldComparison
given_field given name =
    if given
    then unknown_field (text_append "instruction." name) "FW_TYPED_INSTRUCTION_FIELD_UNAVAILABLE"
        unsupported
      ∷ []
    else []

unfoldable pub instruction_checks : List InstructionAtom → List FieldComparison
instruction_checks [] = []
instruction_checks (i ∷ is) =
    given_field (is_some i.mnemonic) "mnemonic"
    ++ given_field (is_some i.encoding) "encoding"
    ++ given_field (is_some i.encoding_mask) "encoding_mask"
    ++ given_field i.has_operand_pattern "operand_pattern"
    ++ given_field (is_some i.stage_requirement) "stage_requirement"
    ++ instruction_checks is

abbrev pub unmodelled_constraints : List Constraint → List FieldComparison
unmodelled_constraints cs =
    map
      (λ c.
        unknown_field (text_append "fw_constraint:" (constraint_id_of c))
          "FW_CONSTRAINT_NOT_MODELED" missing)
      (select (λ c. not (is_modelled (status_of c))) cs)

abbrev pub definition_checks : Formalization → List FieldComparison
definition_checks s =
    if is_modelled s
    then []
    else unknown_field "definition" "HW_REQUIREMENT_NOT_FORMALIZED" missing ∷ []

abbrev pub primitive_checks : Primitive → List FieldComparison
primitive_checks p =
    if not (is_modelled p.formalization_status) || is_unknown_basis p.basis
    then unknown_field "fw_definition" "FW_PRIMITIVE_NOT_FORMALIZED" missing ∷ []
    else []

abbrev pub is_unmodelled_condition : Primitive → Condition → Bool
is_unmodelled_condition p c =
    contains p.condition_ids c.condition_id
    && (not (is_some c.predicate) || not (is_modelled c.formalization_status))

abbrev pub unmodelled_conditions : List Condition → Primitive → List FieldComparison
unmodelled_conditions conditions p =
    map
      (λ c.
        unknown_field (text_append "fw_condition:" c.condition_id) "FW_CONDITION_NOT_MODELED"
          missing)
      (select (is_unmodelled_condition p) conditions)
