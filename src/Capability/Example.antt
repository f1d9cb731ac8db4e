-- ===== src/Capability/Example.antt =====
-- A capability with one read of a device register.
use chip_chain_v.Prelude.{ℕ, String, String_eq, none, some, List, [], ◌∷◌, ok, ◌≡◌, refl, traverse}
use chip_chain_v.Domains.{NumericDomain}
use chip_chain_v.Capability.Data.{
  Formalization, PrimitiveKind, ControlStatus, Basis, TargetStatus, Primitive, Base, Constraint,
  target_resource, numeric, Capability,
}
use chip_chain_v.Capability.Check.{is_distinct, is_subset}
use chip_chain_v.Capability.References.{
  constraint_named, selected_of, domain_of, resource_of, check_kinds, check_reference,
  check_references,
}

abbrev exactly : ℕ → NumericDomain
exactly n = record {
  exact = some n;
  minimum = none;
  maximum = none;
  mask = none;
  masked_value = none;
  controlled_bits = none;
  bit_width = none;
}

abbrev base : String → Base
base id = record {
  constraint_id = id;
  formalization_status = Formalization.formalized;
  source_artifact_ids = "elf" ∷ [];
  evidence_ids = [];
}

abbrev pub base_address : Base
base_address = base "c-address"

abbrev pub address_domain : NumericDomain
address_domain = exactly 0x4000

abbrev pub width_domain : NumericDomain
width_domain = exactly 32

abbrev pub constraints : List Constraint
constraints =
    target_resource (base "c-resource") "mmio" (some "device")
    ∷ numeric base_address "address" address_domain
    ∷ numeric (base "c-width") "access_width" width_domain
    ∷ []

abbrev pub read_primitive : Primitive
read_primitive = record {
  primitive_id = "p-read";
  architecture = "riscv";
  kind = PrimitiveKind.mmio_read;
  entry_id = "entry";
  formalization_status = Formalization.formalized;
  basis = Basis.static_instruction;
  control = record {
    status = ControlStatus.not_established;
    dimensions = [];
    support_basis = "not_established";
    source_artifact_ids = "elf" ∷ [];
    evidence_ids = [];
  };
  constraint_ids = "c-resource" ∷ "c-address" ∷ "c-width" ∷ [];
  condition_ids = [];
  source_pc = none;
  target_status = TargetStatus.not_applicable;
  retirement_observation_ids = [];
  source_artifact_ids = "elf" ∷ [];
  evidence_ids = [];
}

abbrev pub capability : Capability
capability = record {
  capability_id = "fwcap:1";
  architecture = "riscv";
  entry = record { entry_id = "entry"; pc = none; function_id = none };
  conditions = [];
  primitives = read_primitive ∷ [];
  constraints = constraints;
  scope = record {
    processor_id = none;
    word_size_bits = none;
    endianness = "little";
    platform_id = none;
    applicability = "unknown";
    source_artifact_ids = "elf" ∷ [];
    evidence_ids = [];
  };
  source_artifact_ids = "elf" ∷ [];
  evidence_ids = [];
}

pub capability-accepted : check_references capability ≡ ok tt
unfolding check_references check_reference check_kinds selected_of constraint_named domain_of
    resource_of is_distinct is_subset traverse
capability-accepted = refl
