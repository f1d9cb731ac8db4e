-- ===== src/Capability/Authority.antt =====
-- The rest of the loop over the primitives in `validate_bindings`: vulnerability kinds, the width of
-- the value, and the evidence for a declaration of control.
use chip_chain_v.Prelude.{
  ℕ, ℕ_eq, ◌-◌, ◌^◌, String, String_eq, Bool, true, false, not, ◌&&◌, ◌||◌, ◌==◌, is_some,
  option_eq, Option, none, some, List, [], ◌∷◌, map, all, any, contains, lookup, is_nonempty,
  if◌then◌else◌, Result, ok, err, ◌>>◌, require,
}
use chip_chain_v.Domains.{NumericDomain, below_width}
use chip_chain_v.Capability.Data.{
  PrimitiveKind, ControlStatus, ControlAuthority, Basis, Primitive, Constraint, kind_of,
}
use chip_chain_v.Capability.Check.{is_subset, is_positive}
use chip_chain_v.Capability.References.{domain_of, exact_of}

pub data OriginKind : Type 0 where
  normal_behavior vulnerability_derived manual_research_input synthetic_fixture unknown : OriginKind

pub data SourceKind : Type 0 where
  firmware_a6 firmware_a5 firmware_a4 processor_behavior_ir runtime_trace : SourceKind
  firmware_mmio_static fuzzware_observation firmware_vulnerability_record : SourceKind
  manual_research_input synthetic_fixture : SourceKind

-- `self.origin.kind`, and the dictionaries `sources` and `refs`: the kind of a source, and the source
-- of an evidence. The validator has found every reference to them before.
pub record Registry : Type 0 where
  pub origin_kind : OriginKind
  pub sources : List (String × SourceKind)
  pub refs : List (String × String)

-- `_VULNERABILITY` and `_CONTROL_PRIMITIVES`
abbrev pub is_vulnerability : PrimitiveKind → Bool
is_vulnerability PrimitiveKind.read_oob = true
is_vulnerability PrimitiveKind.write_oob = true
is_vulnerability PrimitiveKind.control_flow_hijack = true
is_vulnerability PrimitiveKind.denial_of_service = true
is_vulnerability _ = false

abbrev pub is_control_primitive : PrimitiveKind → Bool
is_control_primitive PrimitiveKind.partial_address_control = true
is_control_primitive PrimitiveKind.partial_value_control = true
is_control_primitive PrimitiveKind.length_control = true
is_control_primitive PrimitiveKind.control_flow_influence = true
is_control_primitive PrimitiveKind.control_flow_hijack = true
is_control_primitive PrimitiveKind.callback_influence = true
is_control_primitive _ = false

abbrev is_vulnerability_origin : OriginKind → Bool
is_vulnerability_origin OriginKind.vulnerability_derived = true
is_vulnerability_origin OriginKind.synthetic_fixture = true
is_vulnerability_origin OriginKind.manual_research_input = true
is_vulnerability_origin _ = false

abbrev is_explicit : Basis → Bool
is_explicit Basis.explicit_definition = true
is_explicit _ = false

-- A source whose kind is not `firmware_vulnerability_record`.
abbrev is_other_source : Option SourceKind → Bool
is_other_source (some SourceKind.firmware_vulnerability_record) = false
is_other_source (some k) = true
is_other_source none = false

unfoldable pub check_vulnerability : Registry → Primitive → Result (Unit {0})
check_vulnerability g p = do
  require (not (is_vulnerability p.kind) || is_vulnerability_origin g.origin_kind)
      "Normal behavior does not establish vulnerability capability"
  require
      (not (is_vulnerability p.kind || is_control_primitive p.kind)
        || is_explicit p.basis
          && is_nonempty p.evidence_ids
          && any (λ a. is_other_source (lookup a g.sources)) p.source_artifact_ids)
      "Finding alone does not establish a capability"

-- `x.bit_length() <= width` for the numbers of the value's domain, that is `x < 2 ** width`.
unfoldable pub fits_access : Option ℕ → Option NumericDomain → Bool
fits_access (some w) (some d) =
    all (below_width w)
      (d.exact ∷ d.minimum ∷ d.maximum ∷ d.mask ∷ d.masked_value ∷ d.controlled_bits ∷ [])
fits_access _ _ = true

abbrev pub is_allowed_source : Option SourceKind → Bool
is_allowed_source (some SourceKind.manual_research_input) = true
is_allowed_source (some SourceKind.synthetic_fixture) = true
is_allowed_source _ = false

-- `sources[refs[e].artifact_id].source_kind`
abbrev pub evidence_kind : Registry → String → Option SourceKind
evidence_kind g e = elim (lookup e g.refs) [ none ↦ none | some a ↦ lookup a g.sources ]

abbrev is_synthetic_origin : OriginKind → Bool
is_synthetic_origin OriginKind.synthetic_fixture = true
is_synthetic_origin _ = false

abbrev is_derived_origin : OriginKind → Bool
is_derived_origin OriginKind.vulnerability_derived = true
is_derived_origin _ = false

abbrev is_derived_control : ControlStatus → Bool
is_derived_control ControlStatus.vulnerability_derived_control = true
is_derived_control _ = false

abbrev pub is_full_control : ControlStatus → Bool
is_full_control ControlStatus.full_external_control = true
is_full_control _ = false

-- `dimensions[d]`
abbrev dimension_kind : String → String
dimension_kind d = if d == "target" then "target_set" else d

-- `(1 << width) - 1`
abbrev pub all_ones : ℕ → ℕ
all_ones w = 2 ^ w - 1

-- All bits of the width are controlled.
abbrev pub controls_all : Option ℕ → Option ℕ → Bool
controls_all none controlled = false
controls_all (some w) controlled = option_eq controlled (some (all_ones w))

abbrev is_zero_mask : Option ℕ → Bool
is_zero_mask none = true
is_zero_mask (some m) = m == 0

abbrev pub is_full_range : Option ℕ → Option ℕ → Option ℕ → Bool
is_full_range none maximum width = true
is_full_range (some low) maximum none = false
is_full_range (some low) maximum (some w) = low == 0 && option_eq maximum (some (all_ones w))

-- The body of the loop over `('address', 'value')`. A declared dimension has a constraint of its kind.
unfoldable pub check_full : Option NumericDomain → Result (Unit {0})
check_full none = err "StopIteration"
check_full (some d) = do
  require (controls_all d.bit_width d.controlled_bits)
      "Full control requires all bits of the declared dimension"
  require
      (not (is_some d.exact)
        && is_zero_mask d.mask
        && is_full_range d.minimum d.maximum d.bit_width)
      "Full control conflicts with a restricted numeric domain"

unfoldable pub check_dimension : ControlAuthority → List Constraint → String → Result (Unit {0})
unfolding check_full
check_dimension a selected dimension =
    let checked = check_full (domain_of dimension selected) in
    if is_full_control a.status && contains a.dimensions dimension then checked else ok tt

-- The conditions before the loop.
unfoldable pub check_support : Registry → ControlAuthority → List Constraint → Result (Unit {0})
unfolding is_subset
check_support g a selected = do
  require (any (λ e. is_allowed_source (evidence_kind g e)) a.evidence_ids)
      "Control cannot be established by analyzer/retirement/finding source labels alone"
  require (not (a.support_basis == "synthetic_definition") || is_synthetic_origin g.origin_kind)
      "Synthetic control requires synthetic origin"
  require (not (is_derived_control a.status) || is_derived_origin g.origin_kind)
      "Vulnerability control requires vulnerability origin"
  require (is_subset (map dimension_kind a.dimensions) (map kind_of selected))
      "Control dimensions require typed constraints"

unfoldable pub check_authority : Registry → ControlAuthority → List Constraint → Result (Unit {0})
unfolding check_support check_dimension
check_authority g a selected = do
  check_support g a selected
  check_dimension a selected "address"
  check_dimension a selected "value"

-- The checks of a primitive that follow those of its constraints' kinds.
unfoldable pub check_evidence : Registry → Primitive → List Constraint → Result (Unit {0})
unfolding check_vulnerability check_authority
check_evidence g p selected = do
  check_vulnerability g p
  require (fits_access (exact_of "access_width" selected) (domain_of "value" selected))
      "Value domain incompatible with access width"
  let authority = check_authority g p.control selected
  if is_positive p.control.status then authority else ok tt
