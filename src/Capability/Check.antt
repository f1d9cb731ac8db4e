-- ===== src/Capability/Check.antt =====
-- The validators of a capability's parts, and of the references from its primitives.
use chip_chain_v.Prelude.{
  ℕ, ℕ_eq, leb, String, String_eq, Bool, true, false, not, ◌&&◌, ◌||◌, ◌==◌, is_some, option_eq,
  Option, none, some, List, [], ◌∷◌, all, length, contains, is_nonempty, Result, ok, ◌>>◌, require,
  Eq,
}
use chip_chain_v.Capability.Data.{
  is_formalized, PrimitiveKind, ControlStatus, ControlAuthority, Basis, TargetStatus, Primitive,
  Constraint, target_resource, numeric, ordering, Operand, int, Operator, Predicate, Condition,
}

-- `len(values) != len(set(values))` is the negation.
unfoldable pub is_distinct {ℓ} : {A : Type ℓ} ⦃e : Eq A⦄ → List A → Bool
is_distinct [] = true
is_distinct (x ∷ xs) = not (contains xs x) && is_distinct xs

-- `set(xs) <= set(ys)`
unfoldable pub is_subset : List String → List String → Bool
is_subset xs ys = all (contains ys) xs

abbrev is_int : Operand → Bool
is_int (int n) = true
is_int _ = false

-- `operands[0] <= operands[1]`, behind the test that both are integers.
abbrev in_order : List Operand → Bool
in_order (int a ∷ int b ∷ _) = leb a b
in_order _ = true

abbrev arity_of : Operator → ℕ
arity_of Operator.eq = 1
arity_of Operator.neq = 1
arity_of Operator.in_range = 2
arity_of Operator.present = 0
arity_of Operator.before = 1

abbrev is_range : Operator → Bool
is_range Operator.in_range = true
is_range _ = false

-- The validator `arity` of a predicate.
unfoldable pub check_predicate : Predicate → Result (Unit {0})
check_predicate p = do
  require (length p.operands == arity_of p.operator) "Predicate operand count mismatch"
  require (not (is_range p.operator) || all is_int p.operands && in_order p.operands)
      "Invalid range operands"

-- The validator `structured` of a condition.
unfoldable pub check_condition : Condition → Result (Unit {0})
check_condition c =
    require (not (is_formalized c.formalization_status) || is_some c.predicate)
      "Formalized condition needs a predicate"

-- `not self.identity`, for an optional text.
abbrev pub is_given : Option String → Bool
is_given none = false
is_given (some s) = not (s == "")

-- The validators `known`, `size` and `distinct` of the constraints.
unfoldable pub check_constraint : Constraint → Result (Unit {0})
check_constraint (target_resource b k identity) =
    require
      (not (is_formalized b.formalization_status) || not (k == "unknown") && is_given identity)
      "Formalized resource requires kind and identity"
check_constraint (numeric b k d) = do
  require
      (not (k == "access_width" || k == "length")
        || not (is_some d.mask || is_some d.controlled_bits))
      "Width/length require numeric bounds, not bit masks"
  require (not (k == "access_width") || is_some d.exact) "Access width must be exact in CAP0"
  require (not (k == "access_width") || not (option_eq d.exact (some 0)))
      "Access width must be positive"
check_constraint (ordering b before after gap) =
    require (not (before == after)) "Ordering endpoints must differ"
check_constraint _ = ok tt

-- `status not in ('not_established', 'unknown')`
abbrev pub is_positive : ControlStatus → Bool
is_positive ControlStatus.not_established = false
is_positive ControlStatus.unknown = false
is_positive _ = true

-- The validator `support_required` of a declaration of control.
unfoldable pub check_control : ControlAuthority → Result (Unit {0})
check_control a = do
  require
      (not (is_positive a.status)
        || is_nonempty a.evidence_ids
          && not (a.support_basis == "not_established")
          && is_nonempty a.dimensions)
      "Control declaration needs dimensions and independent explicit support"
  require
      (is_positive a.status
        || not (is_nonempty a.dimensions) && a.support_basis == "not_established")
      "Unknown control cannot declare controlled dimensions"

abbrev is_unknown_kind : PrimitiveKind → Bool
is_unknown_kind PrimitiveKind.unknown = true
is_unknown_kind _ = false

abbrev pub is_direct : PrimitiveKind → Bool
is_direct PrimitiveKind.direct_control_transfer = true
is_direct _ = false

abbrev pub is_indirect : PrimitiveKind → Bool
is_indirect PrimitiveKind.indirect_control_transfer = true
is_indirect _ = false

abbrev pub is_unknown_basis : Basis → Bool
is_unknown_basis Basis.unknown = true
is_unknown_basis _ = false

abbrev is_retirement : Basis → Bool
is_retirement Basis.source_instruction_retirement = true
is_retirement _ = false

abbrev is_resolved : TargetStatus → Bool
is_resolved TargetStatus.resolved_direct = true
is_resolved _ = false

abbrev is_unresolved : TargetStatus → Bool
is_unresolved TargetStatus.indirect_unknown = true
is_unresolved _ = false

-- The validator `structured` of a primitive.
unfoldable pub check_primitive : Primitive → Result (Unit {0})
check_primitive p = do
  require
      (not (is_formalized p.formalization_status)
        || not (is_unknown_kind p.kind || is_unknown_basis p.basis || p.architecture == "unknown"))
      "Unknown primitive cannot be formalized"
  require (not (is_direct p.kind) || is_resolved p.target_status)
      "Direct transfer needs resolved target status"
  require (not (is_indirect p.kind) || is_unresolved p.target_status)
      "Indirect transfer target must remain unknown in CAP0"
  require (not (is_retirement p.basis) || is_nonempty p.retirement_observation_ids)
      "Retirement basis requires observations"
  require (not (is_nonempty p.retirement_observation_ids) || is_retirement p.basis)
      "Retirement references require corresponding basis"

-- `_MEMORY`, `_MMIO`, `_CSR` and `_FLOW`
abbrev pub is_memory_kind : PrimitiveKind → Bool
is_memory_kind PrimitiveKind.memory_read = true
is_memory_kind PrimitiveKind.memory_write = true
is_memory_kind PrimitiveKind.read_oob = true
is_memory_kind PrimitiveKind.write_oob = true
is_memory_kind PrimitiveKind.write_bounded = true
is_memory_kind _ = false

abbrev pub is_mmio_kind : PrimitiveKind → Bool
is_mmio_kind PrimitiveKind.mmio_read = true
is_mmio_kind PrimitiveKind.mmio_write = true
is_mmio_kind _ = false

abbrev pub is_csr_kind : PrimitiveKind → Bool
is_csr_kind PrimitiveKind.csr_read = true
is_csr_kind PrimitiveKind.csr_write = true
is_csr_kind _ = false

abbrev pub is_flow_kind : PrimitiveKind → Bool
is_flow_kind PrimitiveKind.direct_control_transfer = true
is_flow_kind PrimitiveKind.indirect_control_transfer = true
is_flow_kind PrimitiveKind.control_flow_influence = true
is_flow_kind PrimitiveKind.control_flow_hijack = true
is_flow_kind PrimitiveKind.callback_influence = true
is_flow_kind PrimitiveKind.exception_return = true
is_flow_kind _ = false
