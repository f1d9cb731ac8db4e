-- ===== src/Binding/Data.antt =====
-- Resources, their catalog, and the facts that are bound to them.
use chip_chain_v.Prelude.{
  ℕ, leb, String, String_eq, Bool, true, false, not, ◌||◌, ◌==◌, is_some, iff, Option, some, List,
  map, all, Result, ◌>>◌, require,
}
use chip_chain_v.Capability.{PrimitiveKind, is_distinct, is_given}

pub data ResourceKind : Type 0 where
  mmio_register memory_region system_register csr interrupt exception_interface : ResourceKind
  cache_tlb_resource bus_resource device_state other : ResourceKind

pub data Access : Type 0 where
  read write execute : Access

-- `HardwareResource`
pub record Resource : Type 0 where
  pub resource_id : String
  pub kind : ResourceKind
  pub architecture : String
  pub name : String
  pub address_start : Option ℕ
  pub address_end : Option ℕ
  pub register_identity : Option String
  pub width_bits : Option ℕ
  pub access : List Access
  pub source_id : String
  pub scope : String

-- `HardwareResourceCatalog`
pub record Catalog : Type 0 where
  pub catalog_id : String
  pub architecture : String
  pub source_id : String
  pub scope : String
  pub resources : List Resource

-- `kind in {MMIO_REGISTER, MEMORY_REGION}` and `kind in {SYSTEM_REGISTER, CSR}`
abbrev pub is_addressed : ResourceKind → Bool
is_addressed ResourceKind.mmio_register = true
is_addressed ResourceKind.memory_region = true
is_addressed _ = false

abbrev pub is_register : ResourceKind → Bool
is_register ResourceKind.system_register = true
is_register ResourceKind.csr = true
is_register _ = false

abbrev in_order : Option ℕ → Option ℕ → Bool
in_order (some a) (some b) = leb a b
in_order _ _ = true

-- The hash of a resource's or a catalog's other fields is a parameter.
module _ (resource_hash : Resource → String) (catalog_hash : Catalog → String) where
  -- The validator `identity` of a resource.
  unfoldable pub check_resource : Resource → Result (Unit {0})
  check_resource r = do
    require (iff (is_some r.address_start) (is_some r.address_end))
        "Resource address range requires both endpoints"
    require (in_order r.address_start r.address_end) "Resource address range reversed"
    require (not (is_addressed r.kind) || is_some r.address_start)
        "Addressed resource lacks address range"
    require (not (is_register r.kind) || is_given r.register_identity)
        "Register resource lacks objective identity"
    require (r.resource_id == resource_hash r) "Hardware resource identity mismatch"

  -- The validator `identity` of a catalog.
  unfoldable pub check_catalog : Catalog → Result (Unit {0})
  check_catalog c = do
    require (all (λ r. r.architecture == c.architecture) c.resources)
        "Catalog architecture conflict"
    require (is_distinct (map (λ r. r.resource_id) c.resources)) "Duplicate resource"
    require (c.catalog_id == catalog_hash c) "Hardware catalog identity mismatch"

pub data StaticBehaviorKind : Type 0 where
  instruction direct_call indirect_call direct_branch conditional_branch : StaticBehaviorKind
  indirect_branch return memory_load memory_store mmio_read mmio_write : StaticBehaviorKind
  system_register_read system_register_write memory_barrier : StaticBehaviorKind
  instruction_barrier atomic_load atomic_store tlb_invalidate : StaticBehaviorKind
  exception_return other unknown : StaticBehaviorKind

-- The text `kind` is the value of one of the two enumerations.
pub data Kind : Type 0 where
  behavior : StaticBehaviorKind → Kind
  primitive : PrimitiveKind → Kind

-- `StaticBehaviorFact`, as far as it is bound.
pub record BehaviorFact : Type 0 where
  pub fact_id : String
  pub instruction_id : String
  pub kind : StaticBehaviorKind
  pub address : Option ℕ
  pub access_width_bits : Option ℕ
  pub system_register : Option String

-- `FirmwareStaticAnalysis`, with its artifact's fields.
pub record Analysis : Type 0 where
  pub analysis_id : String
  pub architecture : String
  pub sha256 : String
  pub behaviors : List BehaviorFact

pub data BindingStatus : Type 0 where
  supported contradicted unknown ambiguous not_applicable : BindingStatus

pub data BindingKind : Type 0 where
  exact_address range_containment exact_system_register exact_csr : BindingKind
  explicit_manual_binding unknown ambiguous : BindingKind

-- The fields of `HardwareResourceBinding` whose hash is its identifier.
pub record Draft : Type 0 where
  pub firmware_behavior_id : String
  pub hardware_resource_id : Option String
  pub binding_kind : BindingKind
  pub status : BindingStatus
  pub reason : String
  pub evidence_ids : List String

-- `HardwareResourceBinding`
pub record Binding : Type 0 where
  pub binding_id : String
  pub content : Draft

pub record ExplicitManualBinding : Type 0 where
  pub firmware_behavior_id : String
  pub hardware_resource_id : String
  pub source_id : String
  pub reason : String

-- The fields of `HardwareResourceBindingSet` whose hash is its identifier.
pub record SetDraft : Type 0 where
  pub firmware_source_id : String
  pub catalog_id : String
  pub bindings : List Binding

pub record BindingSet : Type 0 where
  pub binding_set_id : String
  pub content : SetDraft
