-- ===== src/Verifier/Scope.antt =====
-- The scope of a target run and the source of its state binding.
use Prim.Native.String.{◌++◌ as text_append}
use chip_chain_v.Prelude.{
  ℕ, String, Bool, true, false, not, ◌&&◌, ◌==◌, ℕ_eq, String_eq, option_eq, Option, none, some,
  List, [], ◌∷◌, ◌++◌, select, contains, is_some, length, if◌then◌else◌, Result, ok, err,
}
use chip_chain_v.Verifier.Data.{
  supported, unknown, Verdict, AccessKind, writes, AccessAtom, mmio, csr, TriggerKind, mmio_access,
  ordering, TriggerCondition, Contract, StateBinding, RunEvidence, ControlledSource,
}
use chip_chain_v.Verifier.Judge.{condition, Status_eq}
use chip_chain_v.Verifier.Access.{latest}

-- `REF_TREE` and `VAR_TREE`
abbrev pub ref_tree : String
ref_tree = "f882b80ccd16c9de7828b399196f079ee3b982e43fc54784c3f6e015430f4e1b"

abbrev pub var_tree : String
var_tree = "805480e150a838026c0b47dfe375a0548064381a4b175d79f9ea6bf02089b440"

abbrev pub is_kind : TriggerKind → TriggerKind → Bool
is_kind mmio_access mmio_access = true
is_kind ordering ordering = true
is_kind _ _ = false

-- `source_ok`
unfoldable pub source_ok : Contract → Option StateBinding → Option ControlledSource → Bool
unfolding latest
source_ok contract (some b) (some source) =
    elim (latest (λ a. a.artifact_id) contract.source_artifacts b.source_artifact_id) [
      | none ↦ false
      | some a ↦
          a.source_kind == "synthetic_fixture"
          && a.sha256 == b.source_sha256
          && b.source_sha256 == source.reference_peripheral_sha256
          && b.enable_reset_value == b.status_reset_value
          && b.status_reset_value == 0
    ]
source_ok contract _ _ = false

-- `r.access.address`, which only an MMIO atom has.
abbrev pub address_of : AccessAtom → Result ℕ
address_of (mmio a) = ok a.address
address_of (csr a) = err "AttributeError"

abbrev pub access_kind : AccessAtom → AccessKind
access_kind (mmio a) = a.access
access_kind (csr a) = a

abbrev pub is_write : AccessKind → Bool
is_write writes = true
is_write _ = false

-- The requirements `r.condition_kind == 'MMIO_access' and r.access`, whose atoms are MMIO atoms.
unfoldable pub is_mmio_requirement : TriggerCondition → Bool
is_mmio_requirement r = is_kind r.condition_kind mmio_access && is_some r.access

-- `r.access.address`: the contract's validator lets such a requirement have an MMIO atom only, so the
-- case of a CSR atom, where the source would raise, does not occur.
abbrev pub has_address : (ℕ → Bool) → TriggerCondition → Bool
has_address p r = elim r.access [
  | none ↦ false
  | some a ↦ (elim a [ mmio m ↦ p m.address | csr k ↦ false ])
]

unfoldable pub orders_between :
    List TriggerCondition → List TriggerCondition → List TriggerCondition → Bool
orders_between (o ∷ []) (e ∷ []) (c ∷ []) = elim o.order [
  | none ↦ false
  | some atom ↦ atom.before_atom_id == e.condition_id && atom.after_atom_id == c.condition_id
]
orders_between _ _ _ = false

-- `shape_ok`: one enable access, one command access and the ordering between them.
unfoldable pub shape_ok : Contract → Option StateBinding → Bool
unfolding is_mmio_requirement orders_between
shape_ok contract none = false
shape_ok contract (some b) =
    let accesses = select is_mmio_requirement contract.trigger in
    length contract.trigger == 3
    && length accesses == 2
    && length contract.preconditions == 1
    && length contract.deviation == 1
    && length contract.observation == 1
    && orders_between
        (select (λ r. is_kind r.condition_kind ordering && is_some r.order) contract.trigger)
        (select (has_address (λ a. a == b.enable_address)) accesses)
        (select (has_address (λ a. not (a == b.enable_address))) accesses)

abbrev pub is_member : Option String → List String → Bool
is_member none xs = false
is_member (some x) xs = contains xs x

-- `scope_ok`
unfoldable pub scope_ok : Contract → RunEvidence → Option StateBinding → Bool
unfolding shape_ok
scope_ok contract target state_binding =
    shape_ok contract state_binding
    && contract.scope.formalized
    && contract.scope.applicability == "synthetic_only"
    && contract.scope.source_authority == "synthetic_fixture"
    && option_eq contract.platform.rtl_identity (some (text_append "rtl-tree:" var_tree))
    && option_eq contract.platform.rtl_revision
        (some (text_append "rtl-tree:" target.joint_run.rtl_tree_sha256))
    && is_member contract.platform.rtl_revision contract.scope.rtl_revisions
    && option_eq contract.platform.platform_id (some target.map_id)
    && is_member contract.platform.platform_id contract.scope.applicable_platforms
    && target.joint_run.rtl_tree_sha256 == var_tree
    && contract.architecture == target.architecture
    && option_eq contract.platform.processor_id (some target.processor_rule)

abbrev pub id_of : Option StateBinding → List String
id_of none = []
id_of (some b) = b.binding_id ∷ []

abbrev pub source_id_of : Option ControlledSource → List String
source_id_of none = []
source_id_of (some s) = s.source_id ∷ []

unfoldable pub scope_verdict :
    Contract → RunEvidence → Option StateBinding → Option ControlledSource → Result Verdict
unfolding scope_ok source_ok
scope_verdict contract target state_binding source =
    if scope_ok contract target state_binding && source_ok contract state_binding source
    then condition "type2:target-scope" supported "PINNED_VARIANT_SCOPE"
        (contract.contract_id ∷ target.joint_run.joint_run_id ∷ source_id_of source
          ++ id_of state_binding)
        []
    else condition "type2:target-scope" unknown "SCOPE_OR_SOURCE_BINDING_MISSING" []
        ("variant_revision" ∷ "synthetic_spec_source" ∷ "state_binding" ∷ [])
