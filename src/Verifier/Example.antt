-- ===== src/Verifier/Example.antt =====
-- A contract, a target run whose status deviates, a reference run whose status does not, and the
-- binding and the source that go with them.
use Prim.Native.String.{◌++◌ as text_append}
use chip_chain_v.Prelude.{ℕ, String, Option, none, some, List, [], ◌∷◌, true, false}
use chip_chain_v.Trace.Example.{trace_with}
use chip_chain_v.Verifier.Data.{
  Operator, Predicate, int, read, write, reads, writes, Operation, ValueConstraint, MmioAtom, mmio,
  mmio_access, ordering, AccessAtom, csr, TriggerCondition, Deviation, Contract, Observation,
  BridgeBinding, NumericConstraint, Capability, StateBinding, RunEvidence, ControlledSource,
  Executed,
}
use chip_chain_v.Verifier.Scope.{ref_tree, var_tree}

abbrev is_value : String → ℕ → Option Predicate
is_value subject n =
    some (record { subject = subject; operator = Operator.eq; operands = int n ∷ [] })

abbrev pub write_atom : ℕ → ℕ → MmioAtom
write_atom address value = record {
  address = address;
  access = writes;
  value_constraint = some (record { operator = Operator.eq; value = some value });
  width_bits = some 32;
}

-- A read of the status register, with a constraint on its value or none.
abbrev pub status_atom : Option ValueConstraint → MmioAtom
status_atom constraint = record {
  address = 0x40008;
  access = reads;
  value_constraint = constraint;
  width_bits = some 32;
}

abbrev access_requirement : String → AccessAtom → TriggerCondition
access_requirement i atom = record {
  condition_id = i;
  condition_kind = mmio_access;
  formalized = true;
  access = some atom;
  order = none;
}

abbrev enable_requirement : TriggerCondition
enable_requirement = access_requirement "enable" (mmio (write_atom 0x40000 1))

abbrev command_requirement : TriggerCondition
command_requirement = access_requirement "command" (mmio (write_atom 0x40004 7))

abbrev order_requirement : TriggerCondition
order_requirement = record {
  condition_id = "order";
  condition_kind = ordering;
  formalized = true;
  access = none;
  order = some (record {
    before_atom_id = "enable";
    after_atom_id = "command";
    max_gap_events = none;
    max_gap_time = none;
  });
}

abbrev requirement : Deviation
requirement = record {
  condition_id = "deviation";
  formalized = true;
  deviation_kind = "wrong_value";
  expected_behavior = is_value "status" 1;
  deviating_behavior = is_value "status" 9;
  specification_ref = some "artifact";
  hardware_constraint_status = "specified";
}

abbrev pub contract_with : List TriggerCondition → List Deviation → Contract
contract_with trigger deviations = record {
  contract_id = "contract";
  architecture = "rv32imc";
  platform = record {
    platform_id = some "map";
    rtl_identity = some (text_append "rtl-tree:" var_tree);
    rtl_revision = some (text_append "rtl-tree:" var_tree);
    processor_id = some "rule";
  };
  preconditions =
      record {
        condition_id = "enabled";
        formalized = true;
        required_relation = is_value "enable" 1;
      }
      ∷ [];
  trigger = trigger;
  deviation = deviations;
  observation =
      record {
        condition_id = "observation";
        formalized = true;
        deviation_ids = "deviation" ∷ [];
        observable_target = some "status";
        judgement_kind = "comparison";
        required_backend = some "controlled-syn-mmio-postupdate+busread/v1";
        expected_observation = is_value "status" 1;
        deviation_observation = is_value "status" 9;
      }
      ∷ [];
  scope = record {
    formalized = true;
    applicability = "synthetic_only";
    source_authority = "synthetic_fixture";
    rtl_revisions = text_append "rtl-tree:" var_tree ∷ [];
    applicable_platforms = "map" ∷ [];
  };
  source_artifacts =
      record { artifact_id = "artifact"; sha256 = "peripheral"; source_kind = "synthetic_fixture" }
      ∷ [];
}

abbrev pub contract : Contract
contract =
    contract_with (enable_requirement ∷ command_requirement ∷ order_requirement ∷ [])
      (requirement ∷ [])

-- The same with a CSR trigger requirement.
abbrev pub csr_contract : Contract
csr_contract = contract_with (access_requirement "csr" (csr writes) ∷ []) (requirement ∷ [])

-- A deviation that is not formalized and states no values.
abbrev pub unstated : Deviation
unstated = record requirement {
  formalized = false;
  expected_behavior = none;
  deviating_behavior = none;
}

abbrev pub unstated_contract : Contract
unstated_contract =
    contract_with (enable_requirement ∷ command_requirement ∷ order_requirement ∷ [])
      (unstated ∷ [])

abbrev observation : String → ℕ → ℕ → Operation → ℕ → Option ℕ → Option ℕ → Observation
observation i id cycle operation address written got = record {
  observation_id = i;
  transaction_id = id;
  request_cycle = cycle;
  reset_epoch = 1;
  operation = operation;
  address = address;
  width_bits = 32;
  write_value = written;
  read_value = got;
  raw_trace_artifact_id = "trace";
}

abbrev pub enable_observation : Observation
enable_observation = observation "o1" 1 2 write 0x40000 (some 1) none

abbrev pub command_observation : Observation
command_observation = observation "o2" 2 3 write 0x40004 (some 7) none

abbrev pub status_observation : ℕ → Observation
status_observation status = observation "o3" 3 4 read 0x40008 none (some status)

abbrev binding : String → String → String → BridgeBinding
binding i fact o = record {
  binding_id = i;
  static_fact_id = fact;
  runtime_observation_id = some o;
  overall_status = "bound";
}

abbrev constraint : String → ℕ → NumericConstraint
constraint kind n = record { kind = kind; exact = some n }

abbrev capability : String → String → String → String → String → List NumericConstraint → Capability
capability run i kind fact b constraints = record {
  capability_id = i;
  primitive_kinds = kind ∷ [];
  evidence = fact ∷ [];
  evidence_ids = b ∷ run ∷ [];
  execution_status = "source_instruction_retired";
  constraints = constraint "access_width" 32 ∷ constraints;
}

-- A run of the firmware on a hardware tree, in which the status becomes `status`.
abbrev pub run_with : String → String → ℕ → RunEvidence
run_with i tree status = record {
  joint_run = record {
    joint_run_id = i;
    firmware_sha256 = "firmware";
    rtl_tree_sha256 = tree;
    input_sha256 = "input";
    execution_context_sha256 = "context";
    bus_trace_sha256 = "trace-sha";
  };
  bindings = binding "b1" "f1" "o1" ∷ binding "b2" "f2" "o2" ∷ binding "b3" "f3" "o3" ∷ [];
  bus_observations =
      record { observation_id = "o1"; runtime_observation = enable_observation }
      ∷ record { observation_id = "o2"; runtime_observation = command_observation }
      ∷ record { observation_id = "o3"; runtime_observation = status_observation status }
      ∷ [];
  processor_rule = "rule";
  map_id = "map";
  architecture = "rv32imc";
  attestation_id = "attestation";
  runtime_observations = enable_observation ∷ command_observation ∷ status_observation status ∷ [];
  capabilities =
      capability i "c1" "MMIO_WRITE" "f1" "b1"
        (constraint "address" 0x40000 ∷ constraint "value" 1 ∷ [])
      ∷ capability i "c2" "MMIO_WRITE" "f2" "b2"
          (constraint "address" 0x40004 ∷ constraint "value" 7 ∷ [])
      ∷ capability i "c3" "MMIO_READ" "f3" "b3" (constraint "address" 0x40008 ∷ [])
      ∷ [];
  observation_binding = some (record {
    binding_id = "link";
    joint_run_id = i;
    runtime_attestation_id = "attestation";
    raw_trace_sha256 = "trace-sha";
    rtl_tree_sha256 = tree;
    map_id = "map";
  });
  parsed = trace_with status;
}

abbrev pub target : RunEvidence
target = run_with "target" var_tree 9

abbrev pub reference : RunEvidence
reference = run_with "reference" ref_tree 1

abbrev pub state_binding : StateBinding
state_binding = record {
  binding_id = "state";
  source_artifact_id = "artifact";
  source_sha256 = "peripheral";
  enable_subject = "enable";
  enable_address = 0x40000;
  enable_reset_value = 0;
  status_subject = "status";
  status_address = 0x40008;
  status_reset_value = 0;
}

abbrev pub source : ControlledSource
source = record { source_id = "source"; reference_peripheral_sha256 = "peripheral" }

-- The execution of the status read, in the run where the status becomes 9.
abbrev pub status_execution : Executed
status_execution = record {
  capability = capability "target" "c3" "MMIO_READ" "f3" "b3" (constraint "address" 0x40008 ∷ []);
  observation = status_observation 9;
  binding = binding "b3" "f3" "o3";
}
