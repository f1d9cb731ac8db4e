-- ===== src/Binding/Example.antt =====
-- A catalog of two registers, and the hashes of an example: each names what it is given.
use chip_chain_v.Prelude.{ℕ, String, none, some, List, [], ◌∷◌}
use chip_chain_v.Binding.Data.{
  ResourceKind, Access, Resource, Catalog, StaticBehaviorKind, BehaviorFact, Analysis, Draft,
  SetDraft, ExplicitManualBinding,
}

abbrev pub same_text : String → String
same_text s = s

abbrev pub draft_id : Draft → String
draft_id d = d.firmware_behavior_id

abbrev pub set_id : SetDraft → String
set_id s = s.firmware_source_id

abbrev pub capset_id : List String → String
capset_id ids = "fwcapset"

abbrev register_at : String → ℕ → Resource
register_at id address = record {
  resource_id = id;
  kind = ResourceKind.mmio_register;
  architecture = "riscv";
  name = id;
  address_start = some address;
  address_end = some address;
  register_identity = none;
  width_bits = some 32;
  access = Access.read ∷ [];
  source_id = "catalog";
  scope = "device";
}

abbrev pub status_register : Resource
status_register = register_at "status" 0x4000

abbrev pub catalog : Catalog
catalog = record {
  catalog_id = "hwcatalog:1";
  architecture = "riscv";
  source_id = "catalog";
  scope = "device";
  resources = status_register ∷ register_at "data" 0x4004 ∷ [];
}

abbrev pub read_fact : BehaviorFact
read_fact = record {
  fact_id = "fact-1";
  instruction_id = "insn-1";
  kind = StaticBehaviorKind.mmio_read;
  address = some 0x4000;
  access_width_bits = some 32;
  system_register = none;
}

abbrev pub analysis : Analysis
analysis = record {
  analysis_id = "analysis-1";
  architecture = "riscv";
  sha256 = "elf";
  behaviors = read_fact ∷ [];
}

abbrev pub declaration : ExplicitManualBinding
declaration = record {
  firmware_behavior_id = "fact-1";
  hardware_resource_id = "status";
  source_id = "manual";
  reason = "declared";
}
