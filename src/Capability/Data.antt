-- ===== src/Capability/Data.antt =====
-- Capabilities, as far as the code that is modelled reads them.
use chip_chain_v.Prelude.{ℕ, String, Bool, true, false, Option, List}
use chip_chain_v.Domains.{NumericDomain}

pub data Formalization : Type 0 where
  formalized partially_formalized unformalized unknown : Formalization

-- `formalization_status not in ('unknown', 'unformalized')`
abbrev pub is_modelled : Formalization → Bool
is_modelled Formalization.formalized = true
is_modelled Formalization.partially_formalized = true
is_modelled _ = false

abbrev pub is_formalized : Formalization → Bool
is_formalized Formalization.formalized = true
is_formalized _ = false

pub data PrimitiveKind : Type 0 where
  instruction_execution direct_control_transfer indirect_control_transfer : PrimitiveKind
  memory_read memory_write mmio_read mmio_write csr_read csr_write : PrimitiveKind
  exception_return interrupt_handling read_oob write_oob write_bounded : PrimitiveKind
  partial_address_control partial_value_control length_control : PrimitiveKind
  control_flow_influence control_flow_hijack callback_influence : PrimitiveKind
  denial_of_service other unknown : PrimitiveKind

pub data ControlStatus : Type 0 where
  not_established firmware_determined input_influenced bounded_external_control : ControlStatus
  full_external_control vulnerability_derived_control unknown : ControlStatus

pub record ControlAuthority : Type 0 where
  pub status : ControlStatus
  pub dimensions : List String
  pub support_basis : String
  pub source_artifact_ids : List String
  pub evidence_ids : List String

pub data Basis : Type 0 where
  static_instruction source_instruction_retirement explicit_definition unknown : Basis

pub data TargetStatus : Type 0 where
  resolved_direct indirect_unknown unknown not_applicable : TargetStatus

pub record Primitive : Type 0 where
  pub primitive_id : String
  pub architecture : String
  pub kind : PrimitiveKind
  pub entry_id : String
  pub formalization_status : Formalization
  pub basis : Basis
  pub control : ControlAuthority
  pub constraint_ids : List String
  pub condition_ids : List String
  pub source_pc : Option ℕ
  pub target_status : TargetStatus
  pub retirement_observation_ids : List String
  pub source_artifact_ids : List String
  pub evidence_ids : List String

-- `ConstraintBase`
pub record Base : Type 0 where
  pub constraint_id : String
  pub formalization_status : Formalization
  pub source_artifact_ids : List String
  pub evidence_ids : List String

-- `Constraint`: the five classes with their own fields. The field `kind` of a numeric or an
-- identity constraint is its first one.
pub data Constraint : Type 0 where
  target_resource : Base → (resource_kind : String) → (identity : Option String) → Constraint
  numeric : Base → (kind : String) → NumericDomain → Constraint
  identified : Base → (kind identity : String) → Constraint
  target_set : Base → (targets : List ℕ) → Constraint
  ordering : Base → (before_primitive_id after_primitive_id : String) → Option ℕ → Constraint

abbrev pub base_of : Constraint → Base
base_of (target_resource b _ _) = b
base_of (numeric b _ _) = b
base_of (identified b _ _) = b
base_of (target_set b _) = b
base_of (ordering b _ _ _) = b

abbrev pub constraint_id_of : Constraint → String
constraint_id_of c = (base_of c).constraint_id

abbrev pub status_of : Constraint → Formalization
status_of c = (base_of c).formalization_status

-- The field `kind`.
abbrev pub kind_of : Constraint → String
kind_of (target_resource _ _ _) = "target_resource"
kind_of (numeric _ k _) = k
kind_of (identified _ k _) = k
kind_of (target_set _ _) = "target_set"
kind_of (ordering _ _ _ _) = "ordering"

-- An operand of a predicate: a text, an integer or a truth value.
pub data Operand : Type 0 where
  text : String → Operand
  int : ℕ → Operand
  bool : Bool → Operand

pub data Operator : Type 0 where
  eq neq in_range present before : Operator

pub record Predicate : Type 0 where
  pub subject : String
  pub operator : Operator
  pub operands : List Operand

pub record Condition : Type 0 where
  pub condition_id : String
  pub condition_kind : String
  pub formalization_status : Formalization
  pub predicate : Option Predicate
  pub source_artifact_ids : List String
  pub evidence_ids : List String

pub record Entry : Type 0 where
  pub entry_id : String
  pub pc : Option ℕ
  pub function_id : Option String

-- `Scope`, with the fields of its `TargetDescriptor` that are compared.
pub record Scope : Type 0 where
  pub processor_id : Option String
  pub word_size_bits : Option ℕ
  pub endianness : String
  pub platform_id : Option String
  pub applicability : String
  pub source_artifact_ids : List String
  pub evidence_ids : List String

pub record Capability : Type 0 where
  pub capability_id : String
  pub architecture : String
  pub entry : Entry
  pub conditions : List Condition
  pub primitives : List Primitive
  pub constraints : List Constraint
  pub scope : Scope
  pub source_artifact_ids : List String
  pub evidence_ids : List String
