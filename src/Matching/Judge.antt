-- ===== src/Matching/Judge.antt =====
-- The match of one trigger condition.
use chip_chain_v.Prelude.{
  ℕ, ℕ_eq, String, String_eq, Bool, true, false, not, ◌&&◌, ◌||◌, ◌==◌, option_eq, Option, none,
  some, List, [], ◌∷◌, ◌++◌, map, any, select, is_nonempty, if◌then◌else◌, sorted_set,
}
use chip_chain_v.Capability.{PrimitiveKind, Operand, int}
use chip_chain_v.Binding.{Binding, BindingStatus}
use chip_chain_v.Matching.Data.{
  ValueConstraint, satisfies, AccessKind, MmioAtom, CsrAtom, RelationOperator, Relation, Item,
  Status, supported, contradicted, unknown, ambiguous, RequirementMatch,
}

-- `kind.value == f"MMIO_{access.upper()}"`, or either access.
abbrev pub mmio_allows : AccessKind → PrimitiveKind → Bool
mmio_allows AccessKind.either k = true
mmio_allows AccessKind.read PrimitiveKind.mmio_read = true
mmio_allows AccessKind.write PrimitiveKind.mmio_write = true
mmio_allows _ k = false

abbrev pub csr_allows : AccessKind → PrimitiveKind → Bool
csr_allows AccessKind.either k = true
csr_allows AccessKind.read PrimitiveKind.csr_read = true
csr_allows AccessKind.write PrimitiveKind.csr_write = true
csr_allows _ k = false

abbrev pub has_status : BindingStatus → Option Binding → Bool
has_status s none = false
has_status BindingStatus.supported (some b) = elim b.content.status [
  | BindingStatus.supported ↦ true
  | _ ↦ false
]
has_status BindingStatus.contradicted (some b) = elim b.content.status [
  | BindingStatus.contradicted ↦ true
  | _ ↦ false
]
has_status BindingStatus.ambiguous (some b) = elim b.content.status [
  | BindingStatus.ambiguous ↦ true
  | _ ↦ false
]
has_status _ (some b) = false

abbrev pub is_supported : Item → Bool
is_supported i = has_status BindingStatus.supported i.binding

abbrev pub is_contradicted : Item → Bool
is_contradicted i = has_status BindingStatus.contradicted i.binding

abbrev pub is_ambiguous : Item → Bool
is_ambiguous i = has_status BindingStatus.ambiguous i.binding

-- The list that the loop over the eligible items puts one on.
pub data Fate : Type 0 where
  compatible conflicted undetermined : Fate

abbrev pub is_compatible : Fate → Bool
is_compatible Fate.compatible = true
is_compatible _ = false

abbrev pub is_conflicted : Fate → Bool
is_conflicted Fate.conflicted = true
is_conflicted _ = false

abbrev pub is_undetermined : Fate → Bool
is_undetermined Fate.undetermined = true
is_undetermined _ = false

-- The required width against the exact one.
abbrev pub width_conflicts : Option ℕ → Option ℕ → Bool
width_conflicts (some w) (some v) = not (w == v)
width_conflicts _ _ = false

abbrev pub width_missing : Option ℕ → Option ℕ → Bool
width_missing (some w) none = true
width_missing _ _ = false

unfoldable pub value_fate : Option ValueConstraint → Option ℕ → Fate
value_fate none value = Fate.compatible
value_fate (some v) none = Fate.undetermined
value_fate (some v) (some x) = if satisfies v x then Fate.compatible else Fate.conflicted

-- The body of the loop.
unfoldable pub mmio_fate : MmioAtom → Item → Fate
unfolding value_fate
mmio_fate a i =
    if not (is_supported i || is_contradicted i)
    then Fate.undetermined
    else if is_contradicted i || width_conflicts a.width_bits i.width
    then Fate.conflicted
    else if width_missing a.width_bits i.width
    then Fate.undetermined
    else value_fate a.value_constraint i.value

abbrev pub mmio_eligible : MmioAtom → Item → Bool
mmio_eligible a i = option_eq i.address (some a.address) && mmio_allows a.access i.kind

-- `xs or ys`
abbrev pub or_else : List Item → List Item → List Item
or_else xs ys = if is_nonempty xs then xs else ys

abbrev binding_ids : List Item → List String
binding_ids [] = []
binding_ids (i ∷ is) =
    let rest = binding_ids is in elim i.binding [ none ↦ rest | some b ↦ b.binding_id ∷ rest ]

abbrev pub match_of : String → List Item → Status → String → List String → RequirementMatch
match_of id chosen status reason missing = record {
  requirement_id = id;
  matched_capability_ids = sorted_set (map (λ i. i.capability_id) chosen);
  resource_binding_ids = sorted_set (binding_ids chosen);
  static_compatibility_status = status;
  reason = reason;
  missing_requirements = missing;
}

abbrev mmio_reason : Status → String
mmio_reason supported = "Exact typed resource, access, width and known value compatible"
mmio_reason contradicted =
    "Exact address access conflicts with required value, width or resource permission"
mmio_reason ambiguous = "Resource binding ambiguous"
mmio_reason unknown = "Matching address/access or exact value not established"

abbrev mmio_missing : Status → List String
mmio_missing supported = []
mmio_missing contradicted = []
mmio_missing _ = "exact_access_and_resource_binding" ∷ []

abbrev pub with_fate : (Fate → Bool) → MmioAtom → List Item → List Item
with_fate test a options = select (λ i. test (mmio_fate a i)) (select (mmio_eligible a) options)

unfoldable pub mmio_status : MmioAtom → List Item → Status
unfolding mmio_fate
mmio_status a options =
    if is_nonempty (with_fate is_compatible a options)
    then supported
    else if is_nonempty (with_fate is_conflicted a options)
    then contradicted
    else if any is_ambiguous (with_fate is_undetermined a options)
    then ambiguous
    else unknown

unfoldable pub judge_mmio : String → MmioAtom → List Item → RequirementMatch
unfolding mmio_status
judge_mmio id a options =
    let chosen =
      or_else (with_fate is_compatible a options)
        (or_else (with_fate is_conflicted a options) (with_fate is_undetermined a options)) in
    let status = mmio_status a options in
    match_of id chosen status (mmio_reason status) (mmio_missing status)

-- `x[3] is not None`, and the comparison of the value.
abbrev pub value_known : Option ValueConstraint → Item → Bool
value_known none i = true
value_known (some v) i = elim i.value [ none ↦ false | some x ↦ satisfies v x ]

abbrev pub value_refuted : Option ValueConstraint → Item → Bool
value_refuted none i = false
value_refuted (some v) i = elim i.value [ none ↦ false | some x ↦ not (satisfies v x) ]

-- `str.casefold`, and `int(text, 0)` with no number where it raises, are parameters.
module _ (casefold : String → String) (parse_int : String → Option ℕ) where
  abbrev csr_address_equal : Option ℕ → Option ℕ → Bool
  csr_address_equal (some x) (some a) = x == a
  csr_address_equal _ _ = false

  unfoldable pub csr_equal : CsrAtom → Option String → Bool
  csr_equal a none = false
  csr_equal a (some text) = elim a.csr_identity [
    | some name ↦ casefold text == casefold name
    | none ↦ csr_address_equal (parse_int text) a.csr_address
  ]

  abbrev pub csr_eligible : CsrAtom → List Item → List Item
  csr_eligible a options = select (λ i. csr_equal a i.csr && csr_allows a.access i.kind) options

  abbrev pub csr_known : CsrAtom → List Item → List Item
  csr_known a options =
      select (value_known a.value_constraint) (select is_supported (csr_eligible a options))

  abbrev pub csr_contradicted : CsrAtom → List Item → List Item
  csr_contradicted a options =
      select is_contradicted (csr_eligible a options)
      ++ select (value_refuted a.value_constraint) (select is_supported (csr_eligible a options))

  unfoldable pub csr_status : CsrAtom → List Item → Status
  unfolding csr_equal
  csr_status a options =
      if is_nonempty (csr_known a options)
      then supported
      else if is_nonempty (csr_contradicted a options)
      then contradicted
      else unknown

  abbrev csr_reason : Status → String
  csr_reason supported = "Typed CSR identity, access and value match"
  csr_reason contradicted = "Observed static CSR constraint conflicts"
  csr_reason _ = "Exact CSR capability or resource binding missing"

  abbrev csr_missing : Status → List String
  csr_missing unknown = "exact_csr_binding" ∷ []
  csr_missing _ = []

  unfoldable pub judge_csr : String → CsrAtom → List Item → RequirementMatch
  unfolding csr_status
  judge_csr id a options =
      let chosen =
        or_else (csr_known a options)
          (or_else (csr_contradicted a options) (csr_eligible a options)) in
      let status = csr_status a options in
      match_of id chosen status (csr_reason status) (csr_missing status)

-- `subject != "address" or operator != "eq" or type(operands[0]) is not int` has no address.
abbrev first_int : List Operand → Option ℕ
first_int (int n ∷ _) = some n
first_int _ = none

abbrev pub relation_address : Relation → Option ℕ
relation_address r = elim r.operator [
  | RelationOperator.eq ↦ if r.subject == "address" then first_int r.operands else none
  | _ ↦ none
]

abbrev pub is_memory_access : PrimitiveKind → Bool
is_memory_access PrimitiveKind.memory_read = true
is_memory_access PrimitiveKind.memory_write = true
is_memory_access _ = false

abbrev pub memory_eligible : ℕ → List Item → List Item
memory_eligible address options =
    select (λ i. option_eq i.address (some address) && is_memory_access i.kind) options

unfoldable pub judge_memory : String → Option ℕ → List Item → RequirementMatch
judge_memory id none options =
    match_of id [] unknown "Memory predicate not expressible as an exact static address"
      ("typed_memory_predicate" ∷ [])
judge_memory id (some address) options =
    let eligible = memory_eligible address options in
    let bound = select is_supported eligible in
    if is_nonempty bound
    then match_of id bound supported "Exact memory address and typed resource match" []
    else match_of id eligible unknown "Exact memory resource binding not established"
        ("exact_memory_binding" ∷ [])

abbrev pub runtime_only : String → RequirementMatch
runtime_only id =
    match_of id [] unknown
      "Ordering/state requires runtime evidence; static sequence is insufficient"
      ("runtime_order_or_state_evidence" ∷ [])
