-- ===== src/Matching/Data.antt =====
-- The atoms of a trigger condition, the contract as the matcher reads it, and its answers.
use chip_chain_v.Prelude.{
  ℕ, ℕ_eq, leb, String, Bool, false, not, ◌&&◌, ◌||◌, ◌==◌, is_some, Option, none, some, List,
  Result, ◌>>◌, require,
}
use chip_chain_v.Domains.{and_numbers, fits_mask, is_ordered}
use chip_chain_v.Capability.{Operand, PrimitiveKind}
use chip_chain_v.Binding.{Binding}

pub data ValueOperator : Type 0 where
  eq neq masked_eq in_range : ValueOperator

-- `ValueConstraint`, for numbers that are not negative.
pub record ValueConstraint : Type 0 where
  pub operator : ValueOperator
  pub value : Option ℕ
  pub mask : Option ℕ
  pub range_min : Option ℕ
  pub range_max : Option ℕ

-- The fields that the operator needs, and no others.
abbrev fields_match : ValueConstraint → Bool
fields_match v = elim v.operator [
  | eq ↦ is_some v.value && not (is_some v.mask || is_some v.range_min || is_some v.range_max)
  | neq ↦ is_some v.value && not (is_some v.mask || is_some v.range_min || is_some v.range_max)
  | masked_eq ↦
      is_some v.value && is_some v.mask && not (is_some v.range_min || is_some v.range_max)
  | in_range ↦ is_some v.range_min && is_some v.range_max && not (is_some v.value || is_some v.mask)
]

-- The validator `operands`.
unfoldable pub check_value_constraint : ValueConstraint → Result (Unit {0})
check_value_constraint v = do
  require (fields_match v) "Value fields do not match operator"
  require (fits_mask v.mask v.value) "Masked value must fit mask"
  require (is_ordered v.range_min v.range_max) "Reversed range"

abbrev equals : Option ℕ → ℕ → Bool
equals none x = false
equals (some v) x = x == v

abbrev masked : Option ℕ → Option ℕ → ℕ → Bool
masked (some m) (some v) x = and_numbers x m == v
masked _ _ x = false

abbrev between : Option ℕ → Option ℕ → ℕ → Bool
between (some low) (some high) x = leb low x && leb x high
between _ _ x = false

-- The comparison of a known value with the constraint.
unfoldable pub satisfies : ValueConstraint → ℕ → Bool
satisfies v x = elim v.operator [
  | eq ↦ equals v.value x
  | neq ↦ not (equals v.value x)
  | masked_eq ↦ masked v.mask v.value x
  | in_range ↦ between v.range_min v.range_max x
]

pub data AccessKind : Type 0 where
  read write either : AccessKind

-- `MMIOTriggerAtom`
pub record MmioAtom : Type 0 where
  pub address : ℕ
  pub access : AccessKind
  pub value_constraint : Option ValueConstraint
  pub width_bits : Option ℕ

-- `CSRTriggerAtom`
pub record CsrAtom : Type 0 where
  pub csr_identity : Option String
  pub csr_address : Option ℕ
  pub access : AccessKind
  pub value_constraint : Option ValueConstraint

-- The validator `identity`.
unfoldable pub check_csr_atom : CsrAtom → Result (Unit {0})
check_csr_atom a =
    require (is_some a.csr_identity || is_some a.csr_address) "CSR identity or address is required"

pub data RelationOperator : Type 0 where
  eq neq masked_eq in_range present before : RelationOperator

pub record Relation : Type 0 where
  pub subject : String
  pub operator : RelationOperator
  pub operands : List Operand

-- A trigger condition by its kind, with the payload that its validator lets it have.
pub data Requirement : Type 0 where
  mmio_access : Option MmioAtom → Requirement
  csr_access : Option CsrAtom → Requirement
  memory_operation : Option Relation → Requirement
  other_kind : Requirement

pub record TriggerCondition : Type 0 where
  pub condition_id : String
  pub requirement : Requirement

-- `HardwareBehaviorContract`: of the other conditions the identifiers are read.
pub record Contract : Type 0 where
  pub contract_id : String
  pub architecture : String
  pub trigger : List TriggerCondition
  pub preconditions : List String
  pub deviation : List String
  pub observation : List String

-- An element of `options`: a primitive with its exact constraints and its binding.
pub record Item : Type 0 where
  pub capability_id : String
  pub kind : PrimitiveKind
  pub address : Option ℕ
  pub value : Option ℕ
  pub width : Option ℕ
  pub binding : Option Binding
  pub csr : Option String

pub data Status : Type 0 where
  supported contradicted unknown ambiguous : Status

-- `CrossLayerRequirementMatch`, without the identifier that is the hash of the other fields.
pub record RequirementMatch : Type 0 where
  pub requirement_id : String
  pub matched_capability_ids : List String
  pub resource_binding_ids : List String
  pub static_compatibility_status : Status
  pub reason : String
  pub missing_requirements : List String

-- `CrossLayerCandidate`, without its identifier.
pub record Candidate : Type 0 where
  pub contract_id : String
  pub capability_ids : List String
  pub binding_set_id : String
  pub requirements : List RequirementMatch
  pub static_compatibility_status : Status
  pub verification_required : Bool
  pub missing_requirements : List String

-- The validator of a candidate.
unfoldable pub check_candidate : Candidate → Result (Unit {0})
check_candidate c =
    require c.verification_required "Static candidate always requires runtime verification"
