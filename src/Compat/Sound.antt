-- ===== src/Compat/Sound.antt =====
-- What a compatible alternative and a compatible row of a trigger establish.
use chip_chain_v.Prelude.{
  ◌≡◌, refl, sym, ap, subst, ◌∙◌, String, String_eq, true, false, not, ◌||◌, none, some, List, [],
  ◌∷◌, ◌++◌, Memᴰ, contains, Bool-cases, inl, inr, arith, ok, ok-injective, >>=-eq-ok, Memᴰ-select,
  Memᴰ-map_out, text_append,
}
use chip_chain_v.Domains.{
  compatible, incompatible, unknown, missing, FieldComparison, unknown_field,
}
use chip_chain_v.Capability.{
  Formalization, is_modelled, is_unknown_basis, PrimitiveKind, Primitive, Constraint,
  constraint_id_of, status_of, Condition, Capability,
}
use chip_chain_v.Compat.Data.{field_check, Alternative, check_alternative}
use chip_chain_v.Compat.Fields.{
  Payload, instruction, csr_access, mmio_access, other_kind, Trigger, is_mapped, resource_class,
  classes_conflict, required_resource, unmapped_check, constraints_of, direction_check,
  csr_address_checks, value_checks, width_checks, address_check, unmodelled_constraints,
  definition_checks, primitive_checks, is_unmodelled_condition, unmodelled_conditions,
  resource_kind_of,
}
use chip_chain_v.Compat.Trigger.{
  resource_check, csr_identity_checks, payload_checks, mapped_checks, trigger_checks,
  alternative_of, trigger_alternative,
}
use chip_chain_v.Compat.Met.{
  AreCompatible, AreCompatible-split, AreCompatible-tail, aggregate_required-AreCompatible,
}
use chip_chain_v.Compat.Payload.{
  MeetsPayload, direction_check-allows, instruction_checks-AreBare, value_checks-ProvidesRequired,
  width_checks-ProvidesWidth, address_check-ProvidesValue, text-ProvidesText,
  csr_identity_checks-ProvidesRegister, csr_address_checks-none,
}

-- A primitive whose declared and modelled constraints meet a trigger.
pub record IsMet (fw : Capability) (t : Trigger) (p : Primitive) : Type 0 where
  pub mapped : is_mapped t.payload p.kind ≡ true
  pub formal : is_modelled t.formalization_status ≡ true
  pub primitive : is_modelled p.formalization_status ≡ true
  pub based : is_unknown_basis p.basis ≡ false
  pub constraints :
      (c : Constraint)
      → Memᴰ c fw.constraints
      → contains p.constraint_ids (constraint_id_of c) ≡ true
      → is_modelled (status_of c) ≡ true
  pub conditions : (c : Condition) → Memᴰ c fw.conditions → is_unmodelled_condition p c ≡ false
  pub payload : MeetsPayload fw p t.payload

module _ (lower : String → String) (fw : Capability) (p : Primitive) where
  payload_checks-MeetsPayload :
      (t : Payload) (cs : List FieldComparison)
      → payload_checks lower t p.kind (constraints_of fw.constraints p) ≡ ok cs
      → AreCompatible cs
      → MeetsPayload fw p t
  unfolding payload_checks
  payload_checks-MeetsPayload (mmio_access (some a)) cs h good =
      let own = constraints_of fw.constraints p in
      let direction = direction_check a.access p.kind in
      let resource = resource_check lower (mmio_access (some a)) own in
      let widths = width_checks a.width_bits own in
      let (address, made, h) = >>=-eq-ok (address_check a.address own) _ h in
      let (value, asked, h) = >>=-eq-ok (value_checks a.value_constraint own) _ h in
      let good : AreCompatible (direction ∷ resource ∷ address ∷ widths ++ value) =
        subst AreCompatible (sym (ok-injective h)) good in
      let (of_width, of_value) =
        AreCompatible-split widths value (λ c m. good c (Memᴰ.tail (Memᴰ.tail (Memᴰ.tail m)))) in
      record {
        direction = direction_check-allows a.access p.kind (good direction (Memᴰ.head refl));
        resource =
            text-ProvidesText lower "resource" resource_kind_of fw p "target_resource" "mmio" refl
              (good resource (Memᴰ.tail (Memᴰ.head refl)));
        address =
            address_check-ProvidesValue fw p a.address address made
              (good address (Memᴰ.tail (Memᴰ.tail (Memᴰ.head refl))));
        width = width_checks-ProvidesWidth fw p a.width_bits of_width;
        value = value_checks-ProvidesRequired fw p a.value_constraint value asked of_value;
      }
  payload_checks-MeetsPayload (csr_access (some a)) cs h good =
      let own = constraints_of fw.constraints p in
      let direction = direction_check a.access p.kind in
      let resource = resource_check lower (csr_access (some a)) own in
      let names = csr_identity_checks lower a.csr_identity own in
      let numbers = csr_address_checks a.csr_address in
      let (value, asked, h) = >>=-eq-ok (value_checks a.value_constraint own) _ h in
      let good : AreCompatible (direction ∷ resource ∷ names ++ numbers ++ value) =
        subst AreCompatible (sym (ok-injective h)) good in
      let (front, of_value) =
        AreCompatible-split (names ++ numbers) value (λ c m. good c (Memᴰ.tail (Memᴰ.tail m))) in
      let (of_name, of_number) = AreCompatible-split names numbers front in
      record {
        direction = direction_check-allows a.access p.kind (good direction (Memᴰ.head refl));
        resource =
            text-ProvidesText lower "resource" resource_kind_of fw p "target_resource" "csr" refl
              (good resource (Memᴰ.tail (Memᴰ.head refl)));
        register = csr_identity_checks-ProvidesRegister lower fw p a.csr_identity of_name;
        unaddressed = csr_address_checks-none a.csr_address of_number;
        value = value_checks-ProvidesRequired fw p a.value_constraint value asked of_value;
      }
  payload_checks-MeetsPayload (instruction (i ∷ is)) cs h good =
      instruction_checks-AreBare (i ∷ is) (subst AreCompatible (sym (ok-injective h)) good)
  payload_checks-MeetsPayload (instruction []) cs h good =
      let bad : unknown ≡ compatible =
        good (unknown_field "instruction" "HW_INSTRUCTION_MISSING" missing)
          (subst (Memᴰ _) (ok-injective h) (Memᴰ.head refl)) in
      cc
  payload_checks-MeetsPayload (mmio_access none) cs h good =
      let bad : unknown ≡ compatible =
        good (unknown_field "access" "HW_ACCESS_MISSING" missing)
          (subst (Memᴰ _) (ok-injective h) (Memᴰ.head refl)) in
      cc
  payload_checks-MeetsPayload (csr_access none) cs h good =
      let bad : unknown ≡ compatible =
        good (unknown_field "access" "HW_ACCESS_MISSING" missing)
          (subst (Memᴰ _) (ok-injective h) (Memᴰ.head refl)) in
      cc
  payload_checks-MeetsPayload other_kind cs h good =
      let bad : unknown ≡ compatible =
        good (unknown_field "access" "HW_ACCESS_MISSING" missing)
          (subst (Memᴰ _) (ok-injective h) (Memᴰ.head refl)) in
      cc

  modelled_constraints :
      AreCompatible (unmodelled_constraints (constraints_of fw.constraints p))
      → (c : Constraint) → Memᴰ c fw.constraints
      → contains p.constraint_ids (constraint_id_of c) ≡ true
      → is_modelled (status_of c) ≡ true
  modelled_constraints good c m own = elim (Bool-cases (is_modelled (status_of c))) [
    | inl fits ↦ fits
    | inr misses ↦
        let chosen =
          Memᴰ-select (λ x. contains p.constraint_ids (constraint_id_of x)) fw.constraints c m
            own in
        let open_one =
          Memᴰ-select (λ x. not (is_modelled (status_of x))) (constraints_of fw.constraints p) c
            chosen (simp misses) in
        let bad : unknown ≡ compatible =
          good
            (unknown_field (text_append "fw_constraint:" (constraint_id_of c))
              "FW_CONSTRAINT_NOT_MODELED" missing)
            (Memᴰ-map_out
              (λ x.
                unknown_field (text_append "fw_constraint:" (constraint_id_of x))
                  "FW_CONSTRAINT_NOT_MODELED" missing)
              _ c open_one) in
        cc
  ]

  modelled_conditions :
      AreCompatible (unmodelled_conditions fw.conditions p)
      → (c : Condition) → Memᴰ c fw.conditions
      → is_unmodelled_condition p c ≡ false
  modelled_conditions good c m = elim (Bool-cases (is_unmodelled_condition p c)) [
    | inl misses ↦
        let bad : unknown ≡ compatible =
          good
            (unknown_field (text_append "fw_condition:" c.condition_id) "FW_CONDITION_NOT_MODELED"
              missing)
            (Memᴰ-map_out
              (λ x.
                unknown_field (text_append "fw_condition:" x.condition_id)
                  "FW_CONDITION_NOT_MODELED" missing)
              _ c (Memᴰ-select (is_unmodelled_condition p) fw.conditions c m misses)) in
        cc
    | inr fits ↦ fits
  ]

  definition_checks-modelled :
      (s : Formalization) → AreCompatible (definition_checks s) → is_modelled s ≡ true
  definition_checks-modelled s good = elim (Bool-cases (is_modelled s)) [
    | inl fits ↦ fits
    | inr misses ↦
        let bad : unknown ≡ compatible =
          good (unknown_field "definition" "HW_REQUIREMENT_NOT_FORMALIZED" missing)
            (rw misses (Memᴰ.head refl)) in
        cc
  ]

  primitive_checks-modelled :
      AreCompatible (primitive_checks p)
      → (is_modelled p.formalization_status ≡ true) × (is_unknown_basis p.basis ≡ false)
  primitive_checks-modelled good =
      elim (Bool-cases (not (is_modelled p.formalization_status) || is_unknown_basis p.basis)) [
        | inl misses ↦
            let bad : unknown ≡ compatible =
              good (unknown_field "fw_definition" "FW_PRIMITIVE_NOT_FORMALIZED" missing)
                (rw misses (Memᴰ.head refl)) in
            cc
        | inr fits ↦ (ground arith, ground arith)
      ]

  mapped_checks-IsMet :
      (t : Trigger) (cs : List FieldComparison)
      → is_mapped t.payload p.kind ≡ true
      → mapped_checks lower (constraints_of fw.constraints p) fw.conditions t p ≡ ok cs
      → AreCompatible cs
      → IsMet fw t p
  unfolding mapped_checks
  mapped_checks-IsMet t cs mapped h good =
      let own = constraints_of fw.constraints p in
      let (payload, made, h) = >>=-eq-ok (payload_checks lower t.payload p.kind own) _ h in
      let front = unmodelled_constraints own in
      let definition = definition_checks t.formalization_status in
      let primitive = primitive_checks p in
      let last = unmodelled_conditions fw.conditions p in
      let good : AreCompatible (
          field_check "mapping" compatible "WHITELIST_MAPPING" ∷ front
          ++ definition
          ++ primitive
          ++ payload
          ++ last) =
        subst AreCompatible (sym (ok-injective h)) good in
      let all_of =
        AreCompatible-tail _ (front ++ definition ++ primitive ++ payload ++ last) good in
      let (rest, of_last) =
        AreCompatible-split (front ++ definition ++ primitive ++ payload) last all_of in
      let (rest, of_payload) =
        AreCompatible-split (front ++ definition ++ primitive) payload rest in
      let (rest, of_primitive) = AreCompatible-split (front ++ definition) primitive rest in
      let (of_front, of_definition) = AreCompatible-split front definition rest in
      let (formal, based) = primitive_checks-modelled of_primitive in
      record {
        mapped = mapped;
        formal = definition_checks-modelled t.formalization_status of_definition;
        primitive = formal;
        based = based;
        constraints = modelled_constraints of_front;
        conditions = modelled_conditions of_last;
        payload = payload_checks-MeetsPayload t.payload payload made of_payload;
      }

  unmapped-not_compatible :
      (t : Payload) (k : PrimitiveKind) → (unmapped_check t k).outcome ≡ compatible → ⊥
  unfolding unmapped_check
  unmapped-not_compatible t k h =
      elim (Bool-cases (classes_conflict (required_resource t) (resource_class k))) [
        | inl apart ↦ let bad : incompatible ≡ compatible = simp apart at h in cc
        | inr open_one ↦ let bad : unknown ≡ compatible = simp open_one at h in cc
      ]

  trigger_checks-IsMet :
      (t : Trigger) (cs : List FieldComparison)
      → trigger_checks lower (constraints_of fw.constraints p) fw.conditions t p ≡ ok cs
      → AreCompatible cs
      → IsMet fw t p
  unfolding trigger_checks
  trigger_checks-IsMet t cs h good = elim (Bool-cases (is_mapped t.payload p.kind)) [
    | inl mapped ↦ mapped_checks-IsMet t cs mapped (simp mapped at h) good
    | inr other ↦
        let one : ok (unmapped_check t.payload p.kind ∷ []) ≡ ok cs = simp other at h in
        absurd (
          unmapped-not_compatible t.payload p.kind (
            good (unmapped_check t.payload p.kind)
              (subst (Memᴰ (unmapped_check t.payload p.kind)) (ok-injective one) (Memᴰ.head refl))))
  ]

-- Where the alternative of a primitive is compatible, the primitive meets the trigger: their kinds
-- are mapped, neither side has a part that is not modelled, and the modelled constraints to which
-- the primitive refers provide what the payload asks for. For an access these are the direction, the
-- resource class, a domain that holds the address or the register's name, the width, and a domain
-- that holds an exact required value. A numeric CSR address or a typed instruction field is never
-- met.
pub trigger_alternative-IsMet :
    (lower : String → String) (fw : Capability) (t : Trigger) (p : Primitive) (a : Alternative)
    → trigger_alternative lower fw t p ≡ ok a
    → a.outcome ≡ compatible
    → (a.firmware_primitive_id ≡ p.primitive_id) × IsMet fw t p
unfolding trigger_alternative
trigger_alternative-IsMet lower fw t p a h e =
    let own = constraints_of fw.constraints p in
    let (cs, made, h) = >>=-eq-ok (trigger_checks lower own fw.conditions t p) _ h in
    let (done, accepted, h) = >>=-eq-ok (check_alternative (alternative_of own p cs)) _ h in
    let same : alternative_of own p cs ≡ a = ok-injective h in
    (
      sym (ap (λ x. x.firmware_primitive_id) same),
      trigger_checks-IsMet lower fw p t cs made
          (aggregate_required-AreCompatible cs (ap (λ x. x.outcome) same ∙ e)),
    )
