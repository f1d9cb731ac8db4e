-- ===== src/Verifier/Data.antt =====
-- The evidence and the contract, as far as the verifier reads them.
use chip_chain_v.Prelude.{ℕ, String, Bool, Option, List}
use chip_chain_v.Trace.{Trace}

pub data Status : Type 0 where
  supported contradicted unknown : Status

-- `ConditionVerification`, without the identifier that is the hash of the other fields.
pub record Verdict : Type 0 where
  pub requirement_id : String
  pub status : Status
  pub reason_code : String
  pub evidence_ids : List String
  pub missing_requirements : List String

pub data Value : Type 0 where
  text : String → Value
  int : ℕ → Value
  bool : Bool → Value

pub data Operator : Type 0 where
  eq neq masked_eq in_range present before : Operator

pub record Predicate : Type 0 where
  pub subject : String
  pub operator : Operator
  pub operands : List Value

pub data Operation : Type 0 where
  read write : Operation

pub data AccessKind : Type 0 where
  reads writes either : AccessKind

pub record ValueConstraint : Type 0 where
  pub operator : Operator
  pub value : Option ℕ

-- `MMIOTriggerAtom`
pub record MmioAtom : Type 0 where
  pub address : ℕ
  pub access : AccessKind
  pub value_constraint : Option ValueConstraint
  pub width_bits : Option ℕ

-- The access of a trigger requirement. A CSR atom has no field `address`.
pub data AccessAtom : Type 0 where
  mmio : MmioAtom → AccessAtom
  csr : AccessKind → AccessAtom

-- `OrderingTriggerAtom`
pub record OrderingAtom : Type 0 where
  pub before_atom_id : String
  pub after_atom_id : String
  pub max_gap_events : Option ℕ
  pub max_gap_time : Option ℕ

-- `FormalizationStatus` is read only by comparison with `FORMALIZED`.
pub data TriggerKind : Type 0 where
  mmio_access ordering other_kind : TriggerKind

pub record TriggerCondition : Type 0 where
  pub condition_id : String
  pub condition_kind : TriggerKind
  pub formalized : Bool
  pub access : Option AccessAtom
  pub order : Option OrderingAtom

pub record Precondition : Type 0 where
  pub condition_id : String
  pub formalized : Bool
  pub required_relation : Option Predicate

pub record Deviation : Type 0 where
  pub condition_id : String
  pub formalized : Bool
  pub deviation_kind : String
  pub expected_behavior : Option Predicate
  pub deviating_behavior : Option Predicate
  pub specification_ref : Option String
  pub hardware_constraint_status : String

pub record ObservationRequirement : Type 0 where
  pub condition_id : String
  pub formalized : Bool
  pub deviation_ids : List String
  pub observable_target : Option String
  pub judgement_kind : String
  pub required_backend : Option String
  pub expected_observation : Option Predicate
  pub deviation_observation : Option Predicate

pub record Platform : Type 0 where
  pub platform_id : Option String
  pub rtl_identity : Option String
  pub rtl_revision : Option String
  pub processor_id : Option String

pub record Scope : Type 0 where
  pub formalized : Bool
  pub applicability : String
  pub source_authority : String
  pub rtl_revisions : List String
  pub applicable_platforms : List String

pub record SourceArtifact : Type 0 where
  pub artifact_id : String
  pub sha256 : String
  pub source_kind : String

-- `HardwareBehaviorContract`
pub record Contract : Type 0 where
  pub contract_id : String
  pub architecture : String
  pub platform : Platform
  pub preconditions : List Precondition
  pub trigger : List TriggerCondition
  pub deviation : List Deviation
  pub observation : List ObservationRequirement
  pub scope : Scope
  pub source_artifacts : List SourceArtifact

-- `RuntimeMmioObservation`
pub record Observation : Type 0 where
  pub observation_id : String
  pub transaction_id : ℕ
  pub request_cycle : ℕ
  pub reset_epoch : ℕ
  pub operation : Operation
  pub address : ℕ
  pub width_bits : ℕ
  pub write_value : Option ℕ
  pub read_value : Option ℕ
  pub raw_trace_artifact_id : String

-- `AttestedMmioExecutionBinding`, keyed by its static fact.
pub record BridgeBinding : Type 0 where
  pub binding_id : String
  pub static_fact_id : String
  pub runtime_observation_id : Option String
  pub overall_status : String

-- `AttestedBusObservation`
pub record BusObservation : Type 0 where
  pub observation_id : String
  pub runtime_observation : Observation

-- A `NumericConstraint` of a capability, with `domain.exact`.
pub record NumericConstraint : Type 0 where
  pub kind : String
  pub exact : Option ℕ

-- `FirmwareCapability`: the kinds of its primitives, the identifiers of its evidence references and
-- of its cited evidence, the execution status of its entry and its numeric constraints.
pub record Capability : Type 0 where
  pub capability_id : String
  pub primitive_kinds : List String
  pub evidence : List String
  pub evidence_ids : List String
  pub execution_status : String
  pub constraints : List NumericConstraint

pub record JointRun : Type 0 where
  pub joint_run_id : String
  pub firmware_sha256 : String
  pub rtl_tree_sha256 : String
  pub input_sha256 : String
  pub execution_context_sha256 : String
  pub bus_trace_sha256 : String

pub record ObservationBinding : Type 0 where
  pub binding_id : String
  pub joint_run_id : String
  pub runtime_attestation_id : String
  pub raw_trace_sha256 : String
  pub rtl_tree_sha256 : String
  pub map_id : String

pub record StateBinding : Type 0 where
  pub binding_id : String
  pub source_artifact_id : String
  pub source_sha256 : String
  pub enable_subject : String
  pub enable_address : ℕ
  pub enable_reset_value : ℕ
  pub status_subject : String
  pub status_address : ℕ
  pub status_reset_value : ℕ

-- `RunEvidence` after `_validate_run`, which replays the run and returns the parsed bus trace.
pub record RunEvidence : Type 0 where
  pub joint_run : JointRun
  pub bindings : List BridgeBinding
  pub bus_observations : List BusObservation
  pub processor_rule : String
  pub map_id : String
  pub architecture : String
  pub attestation_id : String
  pub runtime_observations : List Observation
  pub capabilities : List Capability
  pub observation_binding : Option ObservationBinding
  pub parsed : Trace

-- What `verify_controlled_source` returns, with the hash of the reference peripheral.
pub record ControlledSource : Type 0 where
  pub source_id : String
  pub reference_peripheral_sha256 : String

-- A bound execution of an access: the capability, its observation and the binding that links them.
pub record Executed : Type 0 where
  pub capability : Capability
  pub observation : Observation
  pub binding : BridgeBinding
