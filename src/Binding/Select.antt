-- ===== src/Binding/Select.antt =====
-- `_select`: the binding of one fact.
use chip_chain_v.Prelude.{
  ℕ, ℕ_eq, leb, String, String_eq, Bool, true, false, not, ◌&&◌, ◌||◌, ◌==◌, is_some, option_eq,
  Option, none, some, List, [], ◌∷◌, ◌++◌, any, select, find_first, is_nonempty, if◌then◌else◌,
  Result, ok, err, ◌>>◌, require, text_append,
}
use chip_chain_v.Capability.{PrimitiveKind, is_given}
use chip_chain_v.Binding.Data.{
  ResourceKind, is_addressed, is_register, Access, Resource, Catalog, StaticBehaviorKind, Kind,
  behavior, primitive, BindingStatus, supported, contradicted, unknown, ambiguous, not_applicable,
  BindingKind, Draft, Binding, ExplicitManualBinding,
}

-- The arguments that describe the fact.
pub record Fact : Type 0 where
  pub fact_id : String
  pub architecture : String
  pub kind : Kind
  pub address : Option ℕ
  pub register : Option String
  pub width_bits : Option ℕ
  pub evidence_ids : List String

abbrev pub is_memory : Kind → Bool
is_memory (behavior StaticBehaviorKind.memory_load) = true
is_memory (behavior StaticBehaviorKind.memory_store) = true
is_memory (behavior StaticBehaviorKind.mmio_read) = true
is_memory (behavior StaticBehaviorKind.mmio_write) = true
is_memory (primitive PrimitiveKind.memory_read) = true
is_memory (primitive PrimitiveKind.memory_write) = true
is_memory (primitive PrimitiveKind.mmio_read) = true
is_memory (primitive PrimitiveKind.mmio_write) = true
is_memory _ = false

-- `kind.startswith("CSR")`
abbrev pub is_csr : Kind → Bool
is_csr (primitive PrimitiveKind.csr_read) = true
is_csr (primitive PrimitiveKind.csr_write) = true
is_csr _ = false

abbrev pub is_system : Kind → Bool
is_system (behavior StaticBehaviorKind.system_register_read) = true
is_system (behavior StaticBehaviorKind.system_register_write) = true
is_system k = is_csr k

-- `"read" if kind.endswith(("LOAD", "READ")) else "write"`
abbrev pub access_of : Kind → Access
access_of (behavior StaticBehaviorKind.memory_load) = Access.read
access_of (behavior StaticBehaviorKind.mmio_read) = Access.read
access_of (behavior StaticBehaviorKind.system_register_read) = Access.read
access_of (behavior StaticBehaviorKind.atomic_load) = Access.read
access_of (primitive PrimitiveKind.memory_read) = Access.read
access_of (primitive PrimitiveKind.mmio_read) = Access.read
access_of (primitive PrimitiveKind.csr_read) = Access.read
access_of _ = Access.write

abbrev pub is_access : Access → Access → Bool
is_access Access.read Access.read = true
is_access Access.write Access.write = true
is_access Access.execute Access.execute = true
is_access _ _ = false

-- `not item.access or access in item.access`
abbrev pub permits : Access → List Access → Bool
permits a accesses = not (is_nonempty accesses) || any (is_access a) accesses

abbrev access_text : Access → String
access_text Access.read = "read"
access_text Access.write = "write"
access_text Access.execute = "execute"

-- `address_start <= address <= address_end`. A checked resource of an addressed kind has both.
abbrev pub within : Option ℕ → Option ℕ → Option ℕ → Bool
within (some low) (some high) (some a) = leb low a && leb a high
within _ _ _ = false

abbrev outside : Option ℕ → Option ℕ → Option ℕ → Bool
outside (some low) (some high) (some a) = not (leb low a && leb a high)
outside _ _ _ = false

-- The register kinds that a fact may be bound to.
abbrev pub is_allowed : Fact → ResourceKind → Bool
is_allowed f ResourceKind.mmio_register = is_memory f.kind
is_allowed f ResourceKind.memory_region = is_memory f.kind
is_allowed f ResourceKind.csr =
    not (is_memory f.kind) && (f.architecture == "riscv" || is_csr f.kind)
is_allowed f ResourceKind.system_register =
    not (is_memory f.kind) && not (f.architecture == "riscv" || is_csr f.kind)
is_allowed f _ = false

-- Whether the width that the resource fixes is the fact's.
pub data WidthMatch : Type 0 where
  fits not_established conflicts : WidthMatch

abbrev pub width_match : Option ℕ → Option ℕ → WidthMatch
width_match none width = WidthMatch.fits
width_match (some w) none = WidthMatch.not_established
width_match (some w) (some v) = if v == w then WidthMatch.fits else WidthMatch.conflicts

abbrev is_csr_resource : ResourceKind → Bool
is_csr_resource ResourceKind.csr = true
is_csr_resource _ = false

abbrev kind_of_match : Fact → Resource → BindingKind
kind_of_match f r =
    if is_memory f.kind
    then (if option_eq r.address_start r.address_end
        then BindingKind.exact_address
        else BindingKind.range_containment)
    else if is_csr_resource r.kind
    then BindingKind.exact_csr
    else BindingKind.exact_system_register

abbrev unbound : Fact → BindingKind → BindingStatus → String → Draft
unbound f kind status reason = record {
  firmware_behavior_id = f.fact_id;
  hardware_resource_id = none;
  binding_kind = kind;
  status = status;
  reason = reason;
  evidence_ids = f.evidence_ids;
}

abbrev bound : Fact → Resource → BindingStatus → String → Draft
bound f r status reason = record {
  firmware_behavior_id = f.fact_id;
  hardware_resource_id = some r.resource_id;
  binding_kind = kind_of_match f r;
  status = status;
  reason = reason;
  evidence_ids = f.evidence_ids;
}

unfoldable pub judge_width : Fact → Resource → WidthMatch → Draft
judge_width f r WidthMatch.fits = bound f r supported "Unique exact typed resource match"
judge_width f r WidthMatch.not_established = bound f r unknown "Access width not established"
judge_width f r WidthMatch.conflicts =
    bound f r contradicted "Access width conflicts with resource width"

-- The binding of a fact to its only match.
unfoldable pub judge_match : Fact → Resource → Draft
unfolding judge_width
judge_match f r =
    if permits (access_of f.kind) r.access
    then judge_width f r (width_match r.width_bits f.width_bits)
    else bound f r contradicted (text_append "Resource prohibits " (access_text (access_of f.kind)))

unfoldable pub judge_matches : Fact → List Resource → Draft
unfolding judge_match
judge_matches f [] =
    unbound f BindingKind.unknown unknown "No catalog resource contains the exact identity"
judge_matches f (r ∷ []) = judge_match f r
judge_matches f (r ∷ q ∷ rs) =
    unbound f BindingKind.ambiguous ambiguous
      "Multiple typed resources overlap; no automatic selection"

-- `str.casefold` is a parameter.
module _ (casefold : String → String) where
  abbrev pub same_register : Option String → Option String → Bool
  same_register (some a) (some b) = casefold a == casefold b
  same_register _ _ = false

  -- The test of the comprehension `matches`.
  unfoldable pub matches : Fact → Resource → Bool
  matches f r =
      is_allowed f r.kind
      && (if is_memory f.kind
          then within r.address_start r.address_end f.address
          else same_register r.register_identity f.register)

  -- The binding without a manual declaration.
  unfoldable pub automatic : Fact → Catalog → Draft
  unfolding matches judge_matches
  automatic f c =
      if not (is_memory f.kind) && not (is_system f.kind)
      then unbound f BindingKind.unknown not_applicable
          "No current typed resource requirement for this behavior"
      else if is_memory f.kind && not (is_some f.address)
          || is_system f.kind && not (is_given f.register)
      then unbound f BindingKind.unknown unknown "Exact address/register identity not established"
      else judge_matches f (select (matches f) c.resources)

  abbrev different_register : Option String → Option String → Bool
  different_register (some a) (some b) = not (casefold a == casefold b)
  different_register _ _ = false

  -- The declaration contradicts the fact's exact identity.
  unfoldable pub manual_conflict : Fact → Resource → Bool
  manual_conflict f r =
      outside r.address_start r.address_end f.address
      || different_register f.register r.register_identity

  unfoldable pub manual_draft : Fact → Resource → ExplicitManualBinding → Draft
  manual_draft f r m =
      let conflict = manual_conflict f r in
      record {
        firmware_behavior_id = f.fact_id;
        hardware_resource_id = some r.resource_id;
        binding_kind = BindingKind.explicit_manual_binding;
        status = if conflict then contradicted else unknown;
        reason =
            if conflict
            then "Manual declaration conflicts with exact static identity"
            else text_append
                "Manual resource declaration recorded; independent exact binding not established: "
                m.reason;
        evidence_ids = f.evidence_ids ++ m.source_id ∷ [];
      }

-- `str.casefold` and the hash of a binding are parameters.
module _ (casefold : String → String) (content_id : Draft → String) where
  -- `_binding`
  abbrev pub make_binding : Draft → Binding
  make_binding d = record { binding_id = content_id d; content = d }

  unfoldable pub bind_manual : Fact → ExplicitManualBinding → Option Resource → Result Binding
  bind_manual f m none = err "Manual binding selects unknown hardware resource"
  bind_manual f m (some r) = do
    require (is_memory f.kind && is_addressed r.kind || is_system f.kind && is_register r.kind)
        "Manual binding resource kind conflicts with behavior kind"
    ok (make_binding (manual_draft casefold f r m))

  unfoldable pub select_kind : Fact → Catalog → Option ExplicitManualBinding → Result Binding
  select_kind f c none = ok (make_binding (automatic casefold f c))
  select_kind f c (some m) =
      bind_manual f m (find_first (λ r. r.resource_id == m.hardware_resource_id) c.resources)

  -- `_select`
  unfoldable pub select_binding : Fact → Catalog → Option ExplicitManualBinding → Result Binding
  unfolding select_kind
  select_binding f c m = do
    require (f.architecture == c.architecture) "Firmware and hardware architecture differ"
    select_kind f c m
