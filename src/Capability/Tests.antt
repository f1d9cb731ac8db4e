-- ===== src/Capability/Tests.antt =====
-- An accepted capability, and an accepted declaration of control.
use chip_chain_v.Prelude.{
  ℕ_eq, ◌≡◌, ◌≤◌, refl, String_eq, none, some, List, [], ◌∷◌, length, ok, Memᴰ,
}
use chip_chain_v.Domains.{NumericDomain}
use chip_chain_v.Capability.Data.{
  Formalization, ControlStatus, Primitive, Base, Constraint, numeric,
}
use chip_chain_v.Capability.References.{selected_of, domain_of}
use chip_chain_v.Capability.Authority.{OriginKind, SourceKind, Registry}
use chip_chain_v.Capability.Kinds.{of_kind, check_references-selected}
use chip_chain_v.Capability.Example.{capability, read_primitive, capability-accepted}

check_references-selected_example :
    (cs : List Constraint) × (selected_of capability.constraints read_primitive ≡ ok cs)
    × (length (of_kind "address" cs) ≤ 1)
    × ((b : Base) (d : NumericDomain)
        → Memᴰ (numeric b "address" d) cs
        → domain_of "address" cs ≡ some d)
check_references-selected_example =
    check_references-selected capability read_primitive "address" capability-accepted
      (Memᴰ.head refl) refl

-- Full control of a 16-bit address, declared by a synthetic fixture.
abbrev address_domain : NumericDomain
address_domain = record {
  exact = none;
  minimum = some 0;
  maximum = some 0xffff;
  mask = none;
  masked_value = none;
  controlled_bits = some 0xffff;
  bit_width = some 16;
}

abbrev address : Constraint
address =
    numeric
      (record {
        constraint_id = "c-address";
        formalization_status = Formalization.formalized;
        source_artifact_ids = "fixture" ∷ [];
        evidence_ids = "e" ∷ [];
      })
      "address" address_domain

abbrev controlled : Primitive
controlled = record read_primitive {
  control = record {
    status = ControlStatus.full_external_control;
    dimensions = "address" ∷ [];
    support_basis = "synthetic_definition";
    source_artifact_ids = "fixture" ∷ [];
    evidence_ids = "e" ∷ [];
  };
}

abbrev registry : Registry
registry = record {
  origin_kind = OriginKind.synthetic_fixture;
  sources = ("fixture", SourceKind.synthetic_fixture) ∷ [];
  refs = ("e", "fixture") ∷ [];
}
