-- ===== src/Compat/Tests.antt =====
-- A trigger on a device register, against the capability of the example.
use chip_chain_v.Prelude.{
  ℕ, ℕ_eq, ◌≡◌, refl, String, String_eq, true, none, some, [], ◌∷◌, Memᴰ, is_ok, value_of,
  value_of-ok, Result, traverse, sorted_with, insert_with, sorted_set, sorted_texts,
}
use chip_chain_v.Domains.{
  compatible, incompatible, compare_numeric_domains, compare_bounds, check_domain, fields_bounded,
  bounds, is_ordered, fits_mask, is_narrow, fits_width, agrees_with_mask,
}
use chip_chain_v.Capability.{Formalization, Primitive, is_distinct}
use chip_chain_v.Capability.Example.{capability, read_primitive}
use chip_chain_v.Matching.{AccessKind, MmioAtom}
use chip_chain_v.Compat.Data.{
  Alternative, Row, aggregate_required, aggregate_alternatives, check_alternative, check_row,
  make_row,
}
use chip_chain_v.Compat.Fields.{
  Trigger, mmio_access, address_check, width_checks, value_checks, equal_number, by_kind,
  direction_check,
}
use chip_chain_v.Compat.Trigger.{
  trigger_alternative, make_trigger_row, trigger_checks, mapped_checks, payload_checks, equal_text,
}
use chip_chain_v.Compat.Sound.{IsMet, trigger_alternative-IsMet}
use chip_chain_v.Compat.Rows.{matched-IsMet, make_trigger_row-IsMet}

abbrev lower : String → String
lower s = s

abbrev atom : ℕ → MmioAtom
atom address = record {
  address = address;
  access = AccessKind.read;
  value_constraint = none;
  width_bits = some 32;
}

abbrev trigger : ℕ → Trigger
trigger address = record {
  condition_id = "t";
  formalization_status = Formalization.formalized;
  payload = mmio_access (some (atom address));
  source_artifact_ids = "rtl" ∷ [];
  evidence_ids = [];
}

abbrev row : Result Row
row = make_trigger_row lower capability (trigger 0x4000)

row-ok : is_ok row ≡ true
unfolding make_trigger_row make_row trigger_alternative trigger_checks mapped_checks payload_checks
    address_check width_checks value_checks equal_text equal_number by_kind direction_check
    aggregate_required aggregate_alternatives check_alternative check_row compare_numeric_domains
    compare_bounds check_domain fields_bounded bounds is_distinct sorted_with insert_with sorted_set
    sorted_texts traverse is_ordered fits_mask is_narrow fits_width agrees_with_mask
row-ok = refl

abbrev made : Row
made = value_of row row-ok

made-compatible : made.outcome ≡ compatible
unfolding make_trigger_row make_row trigger_alternative trigger_checks mapped_checks payload_checks
    address_check width_checks value_checks equal_text equal_number by_kind direction_check
    aggregate_required aggregate_alternatives check_alternative check_row compare_numeric_domains
    compare_bounds check_domain fields_bounded bounds is_distinct sorted_with insert_with sorted_set
    sorted_texts traverse is_ordered fits_mask is_narrow fits_width agrees_with_mask
made-compatible = refl

read-matched : Memᴰ "p-read" made.matched_primitive_ids
unfolding make_trigger_row make_row trigger_alternative trigger_checks mapped_checks payload_checks
    address_check width_checks value_checks equal_text equal_number by_kind direction_check
    aggregate_required aggregate_alternatives check_alternative check_row compare_numeric_domains
    compare_bounds check_domain fields_bounded bounds is_distinct sorted_with insert_with sorted_set
    sorted_texts traverse is_ordered fits_mask is_narrow fits_width agrees_with_mask
read-matched = Memᴰ.head refl

matched-IsMet_example :
    (p : Primitive) × Memᴰ p capability.primitives
    × (p.primitive_id ≡ "p-read")
    × IsMet capability (trigger 0x4000) p
matched-IsMet_example =
    matched-IsMet lower capability (trigger 0x4000) made "p-read" (value_of-ok row row-ok)
      read-matched

make_trigger_row-IsMet_example :
    (p : Primitive) × Memᴰ p capability.primitives
    × IsMet capability (trigger 0x4000) p
    × Memᴰ p.primitive_id made.matched_primitive_ids
make_trigger_row-IsMet_example =
    make_trigger_row-IsMet lower capability (trigger 0x4000) made (value_of-ok row row-ok)
      made-compatible

abbrev alternative : Result Alternative
alternative = trigger_alternative lower capability (trigger 0x4000) read_primitive

alternative-ok : is_ok alternative ≡ true
unfolding make_trigger_row make_row trigger_alternative trigger_checks mapped_checks payload_checks
    address_check width_checks value_checks equal_text equal_number by_kind direction_check
    aggregate_required aggregate_alternatives check_alternative check_row compare_numeric_domains
    compare_bounds check_domain fields_bounded bounds is_distinct sorted_with insert_with sorted_set
    sorted_texts traverse is_ordered fits_mask is_narrow fits_width agrees_with_mask
alternative-ok = refl

alternative-compatible : (value_of alternative alternative-ok).outcome ≡ compatible
unfolding make_trigger_row make_row trigger_alternative trigger_checks mapped_checks payload_checks
    address_check width_checks value_checks equal_text equal_number by_kind direction_check
    aggregate_required aggregate_alternatives check_alternative check_row compare_numeric_domains
    compare_bounds check_domain fields_bounded bounds is_distinct sorted_with insert_with sorted_set
    sorted_texts traverse is_ordered fits_mask is_narrow fits_width agrees_with_mask
alternative-compatible = refl

trigger_alternative-IsMet_example :
    ((value_of alternative alternative-ok).firmware_primitive_id ≡ "p-read")
    × IsMet capability (trigger 0x4000) read_primitive
trigger_alternative-IsMet_example =
    trigger_alternative-IsMet lower capability (trigger 0x4000) read_primitive
      (value_of alternative alternative-ok) (value_of-ok alternative alternative-ok)
      alternative-compatible

-- Another address conflicts.
abbrev other_row : Result Row
other_row = make_trigger_row lower capability (trigger 0x5000)

other_row-ok : is_ok other_row ≡ true
unfolding make_trigger_row make_row trigger_alternative trigger_checks mapped_checks payload_checks
    address_check width_checks value_checks equal_text equal_number by_kind direction_check
    aggregate_required aggregate_alternatives check_alternative check_row compare_numeric_domains
    compare_bounds check_domain fields_bounded bounds is_distinct sorted_with insert_with sorted_set
    sorted_texts traverse is_ordered fits_mask is_narrow fits_width agrees_with_mask
other_row-ok = refl

other_row-incompatible : (value_of other_row other_row-ok).outcome ≡ incompatible
unfolding make_trigger_row make_row trigger_alternative trigger_checks mapped_checks payload_checks
    address_check width_checks value_checks equal_text equal_number by_kind direction_check
    aggregate_required aggregate_alternatives check_alternative check_row compare_numeric_domains
    compare_bounds check_domain fields_bounded bounds is_distinct sorted_with insert_with sorted_set
    sorted_texts traverse is_ordered fits_mask is_narrow fits_width agrees_with_mask
other_row-incompatible = refl
