-- ===== src/Compat/Trigger.antt =====
-- `_trigger_alternative`: one trigger of the contract against one primitive of the capability.
use chip_chain_v.Prelude.{
  ℕ_eq, String, String_eq, Bool, false, not, ◌||◌, ◌==◌, Option, none, some, List, [], ◌∷◌, ◌++◌,
  map, contains, is_nonempty, if◌then◌else◌, Result, ok, ◌>>=◌, ◌>>◌, sorted_texts, sorted_with,
  text_leb, traverse,
}
use chip_chain_v.Domains.{compatible, incompatible, missing, FieldComparison, unknown_field}
use chip_chain_v.Capability.{
  PrimitiveKind, Primitive, Constraint, constraint_id_of, base_of, Condition, Capability,
}
use chip_chain_v.Compat.Data.{
  aggregate_required, field_check, outcomes, Alternative, check_alternative, Object, Row, make_row,
}
use chip_chain_v.Compat.Fields.{
  Payload, Trigger, address_check, by_kind, constraints_of, csr_access, csr_address_checks,
  definition_checks, direction_check, identity_of, instruction, instruction_checks, is_mapped,
  mmio_access, primitive_checks, required_resource, resource_kind_of, unmapped_check,
  unmodelled_conditions, unmodelled_constraints, value_checks, width_checks,
}

abbrev pub alternative_of : List Constraint → Primitive → List FieldComparison → Alternative
alternative_of cs p checks = record {
  firmware_primitive_id = p.primitive_id;
  firmware_constraint_ids = sorted_texts (map constraint_id_of cs);
  firmware_condition_ids = sorted_texts p.condition_ids;
  checks = checks;
  outcome = aggregate_required (outcomes checks);
}

abbrev primitive_object : Primitive → Object
primitive_object p = record {
  side = "firmware";
  source_artifact_ids = p.source_artifact_ids;
  evidence_ids = p.evidence_ids;
  primitive_id = some p.primitive_id;
  constraint_id = none;
  condition_id = none;
}

abbrev constraint_object : Constraint → Object
constraint_object c = record {
  side = "firmware";
  source_artifact_ids = (base_of c).source_artifact_ids;
  evidence_ids = (base_of c).evidence_ids;
  primitive_id = none;
  constraint_id = some (constraint_id_of c);
  condition_id = none;
}

abbrev condition_object : Condition → Object
condition_object c = record {
  side = "firmware";
  source_artifact_ids = c.source_artifact_ids;
  evidence_ids = c.evidence_ids;
  primitive_id = none;
  constraint_id = none;
  condition_id = some c.condition_id;
}

abbrev trigger_object : Trigger → Object
trigger_object t = record {
  side = "hardware";
  source_artifact_ids = t.source_artifact_ids;
  evidence_ids = t.evidence_ids;
  primitive_id = none;
  constraint_id = none;
  condition_id = some t.condition_id;
}

abbrev pub objects_of : Capability → Trigger → List Object
objects_of fw t =
    trigger_object t ∷ map primitive_object fw.primitives
    ++ map constraint_object fw.constraints
    ++ map condition_object fw.conditions

abbrev pub missing_primitives : List Primitive → List FieldComparison
missing_primitives ps =
    if is_nonempty ps then [] else unknown_field "mapping" "NO_FW_PRIMITIVES" missing ∷ []

-- `str.lower` is a parameter.
module _ (lower : String → String) where
  -- `_known` on a text.
  abbrev pub is_known : Option String → Bool
  is_known none = false
  is_known (some s) = not (contains ("" ∷ "unknown" ∷ "unspecified" ∷ []) (lower s))

  abbrev same_text : Option String → Option String → Bool
  same_text (some p) (some r) = p == r
  same_text _ _ = false

  -- `_equal` on texts.
  unfoldable pub equal_text : String → Option String → Option String → FieldComparison
  equal_text dimension p r =
      if not (is_known p) || not (is_known r)
      then unknown_field dimension "MISSING_TYPED_VALUE" missing
      else if same_text p r
      then field_check dimension compatible "EXACT_MATCH"
      else field_check dimension incompatible "EXPLICIT_VALUE_CONFLICT"

  abbrev pub csr_identity_checks : Option String → List Constraint → List FieldComparison
  csr_identity_checks none cs = []
  csr_identity_checks (some name) cs =
      equal_text "csr_identity" (identity_of (by_kind "CSR" cs)) (some name) ∷ []

  abbrev pub resource_check : Payload → List Constraint → FieldComparison
  resource_check t cs =
      equal_text "resource" (resource_kind_of (by_kind "target_resource" cs)) (required_resource t)

  -- The checks of the payload.
  unfoldable pub payload_checks :
      Payload → PrimitiveKind → List Constraint → Result (List FieldComparison)
  unfolding equal_text value_checks width_checks address_check
  payload_checks (instruction []) k cs =
      ok (unknown_field "instruction" "HW_INSTRUCTION_MISSING" missing ∷ [])
  payload_checks (instruction (i ∷ is)) k cs = ok (instruction_checks (i ∷ is))
  payload_checks (csr_access (some a)) k cs = do
    value ← value_checks a.value_constraint cs
    ok (
        direction_check a.access k
          ∷ resource_check (csr_access (some a)) cs
          ∷ csr_identity_checks a.csr_identity cs
        ++ csr_address_checks a.csr_address
        ++ value)
  payload_checks (mmio_access (some a)) k cs = do
    address ← address_check a.address cs
    value ← value_checks a.value_constraint cs
    ok (
        direction_check a.access k
          ∷ resource_check (mmio_access (some a)) cs
          ∷ address
          ∷ width_checks a.width_bits cs
        ++ value)
  payload_checks _ k cs = ok (unknown_field "access" "HW_ACCESS_MISSING" missing ∷ [])

  unfoldable pub mapped_checks :
      List Constraint → List Condition → Trigger → Primitive → Result (List FieldComparison)
  unfolding payload_checks
  mapped_checks cs conditions t p = do
    payload ← payload_checks t.payload p.kind cs
    ok (
        field_check "mapping" compatible "WHITELIST_MAPPING" ∷ unmodelled_constraints cs
        ++ definition_checks t.formalization_status
        ++ primitive_checks p
        ++ payload
        ++ unmodelled_conditions conditions p)

  unfoldable pub trigger_checks :
      List Constraint → List Condition → Trigger → Primitive → Result (List FieldComparison)
  unfolding mapped_checks
  trigger_checks cs conditions t p =
      if is_mapped t.payload p.kind
      then mapped_checks cs conditions t p
      else ok (unmapped_check t.payload p.kind ∷ [])

  -- `_trigger_alternative`
  unfoldable pub trigger_alternative : Capability → Trigger → Primitive → Result Alternative
  unfolding trigger_checks
  trigger_alternative fw t p = do
    checks ← trigger_checks (constraints_of fw.constraints p) fw.conditions t p
    check_alternative (alternative_of (constraints_of fw.constraints p) p checks)
    ok (alternative_of (constraints_of fw.constraints p) p checks)

  -- `_trigger`
  unfoldable pub make_trigger_row : Capability → Trigger → Result Row
  unfolding trigger_alternative
  make_trigger_row fw t = do
    alternatives ←
        traverse (trigger_alternative fw t)
          (sorted_with (λ p q. text_leb p.primitive_id q.primitive_id) fw.primitives)
    make_row t.condition_id "trigger" (missing_primitives fw.primitives) alternatives
        (objects_of fw t)
