-- ===== src/Verifier/Access.antt =====
-- Which accesses a run executed, and the verdict on one access requirement.
use chip_chain_v.Prelude.{
  ℕ, ◌+◌, leb, String, Bool, true, false, not, ◌&&◌, ◌||◌, ◌==◌, ℕ_eq, String_eq, option_eq, Option,
  none, some, List, [], ◌∷◌, select, contains, is_some, only, if◌then◌else◌, Result, ok, ◌>>=◌,
}
use chip_chain_v.Verifier.Data.{
  Verdict, supported, contradicted, unknown, Operator, Operation, read, write, AccessKind, reads,
  writes, either, MmioAtom, AccessAtom, mmio, csr, Observation, BridgeBinding, BusObservation,
  Capability, RunEvidence, Executed,
}
use chip_chain_v.Verifier.Judge.{condition}

-- `{key(x): x for x in xs}.get(k)`: the last entry for a key counts.
unfoldable pub latest {ℓ} : {A : Type ℓ} → (A → String) → List A → String → Option A
latest key [] k = none
latest key (x ∷ xs) k = elim (latest key xs k) [
  | some y ↦ some y
  | none ↦ if key x == k then some x else none
]

abbrev pub operator_eq : Operator → Bool
operator_eq Operator.eq = true
operator_eq _ = false

abbrev pub operation_eq : Operation → Operation → Bool
operation_eq read read = true
operation_eq write write = true
operation_eq _ _ = false

-- `o.operation == atom.access`
abbrev pub performs : Operation → AccessKind → Bool
performs read reads = true
performs write writes = true
performs _ _ = false

-- `'MMIO_WRITE' if o.operation == 'write' else 'MMIO_READ'`
abbrev pub primitive_of : Operation → String
primitive_of write = "MMIO_WRITE"
primitive_of read = "MMIO_READ"

-- The value that an access moved.
abbrev pub moved : Observation → Option ℕ
moved o = elim o.operation [ write ↦ o.write_value | read ↦ o.read_value ]

-- `constraints.get(kind)`, for the dictionary from kinds to exact values.
unfoldable pub declared : Capability → String → Option ℕ
unfolding latest
declared c kind = elim (latest (λ n. n.kind) c.constraints kind) [ none ↦ none | some n ↦ n.exact ]

-- The only evidence reference of a capability that names a static fact of the bridge.
unfoldable pub bound_fact : RunEvidence → Capability → Option BridgeBinding
unfolding latest
bound_fact run c =
    elim (only (select (λ f. is_some (latest (λ b. b.static_fact_id) run.bindings f)) c.evidence)) [
      | none ↦ none
      | some f ↦ latest (λ b. b.static_fact_id) run.bindings f
    ]

unfoldable pub is_mmio_primitive : List String → Bool
is_mmio_primitive (kind ∷ []) = kind == "MMIO_WRITE" || kind == "MMIO_READ"
is_mmio_primitive _ = false

abbrev pub observation_of : RunEvidence → Option String → Option BusObservation
observation_of run none = none
observation_of run (some i) = latest (λ b. b.observation_id) run.bus_observations i

-- One round of the loop of `_capability_transactions`.
unfoldable pub executed_by : RunEvidence → Capability → Option Executed
unfolding bound_fact is_mmio_primitive latest
executed_by run c =
    if is_mmio_primitive c.primitive_kinds
    then (elim (bound_fact run c) [
      | none ↦ none
      | some b ↦
          if b.overall_status == "bound"
            && c.execution_status == "source_instruction_retired"
            && contains c.evidence_ids b.binding_id
            && contains c.evidence_ids run.joint_run.joint_run_id
          then (elim (observation_of run b.runtime_observation_id) [
            | none ↦ none
            | some o ↦
                some (record { capability = c; observation = o.runtime_observation; binding = b })
          ])
          else none
    ])
    else none

unfoldable pub filter_map {ℓ κ} : {A : Type ℓ} {B : Type κ} → (A → Option B) → List A → List B
filter_map f [] = []
filter_map f (x ∷ xs) = let rest = filter_map f xs in elim (f x) [ none ↦ rest | some y ↦ y ∷ rest ]

-- `_capability_transactions`
unfoldable pub capability_transactions : RunEvidence → List Executed
unfolding executed_by filter_map
capability_transactions run = filter_map (executed_by run) run.capabilities

-- `c.primitives[0].kind.value == kind`
abbrev pub has_first_kind : List String → String → Bool
has_first_kind [] kind = false
has_first_kind (k ∷ ks) kind = k == kind

-- What the capability declares is what the bus saw.
unfoldable pub agrees : Executed → Bool
unfolding declared
agrees x =
    let o = x.observation in
    has_first_kind x.capability.primitive_kinds (primitive_of o.operation)
    && option_eq (declared x.capability "address") (some o.address)
    && option_eq (declared x.capability "access_width") (some o.width_bits)
    && (operation_eq o.operation read || option_eq (declared x.capability "value") (moved o))

-- `atom.value_constraint.value if atom.value_constraint else None`
abbrev pub wanted_value : MmioAtom → Option ℕ
wanted_value a = elim a.value_constraint [ none ↦ none | some v ↦ v.value ]

unfoldable pub same_address : MmioAtom → Executed → Bool
same_address a x = x.observation.address == a.address

unfoldable pub same_width : MmioAtom → Executed → Bool
same_width a x = option_eq (some x.observation.width_bits) a.width_bits

unfoldable pub same_value : MmioAtom → Executed → Bool
same_value a x = option_eq (moved x.observation) (wanted_value a)

-- `actual == want`
unfoldable pub is_exact : MmioAtom → Executed → Bool
unfolding same_address same_width same_value
is_exact a x =
    performs x.observation.operation a.access
    && same_address a x
    && same_width a x
    && same_value a x

abbrev pub to_int : Bool → ℕ
to_int true = 1
to_int false = 0

-- Two of the comparisons hold, for the same kind of access.
unfoldable pub is_conflicting : MmioAtom → Executed → Bool
unfolding is_exact
is_conflicting a x =
    not (is_exact a x)
    && performs x.observation.operation a.access
    && leb 2 (
        to_int (same_address a x)
        + to_int (same_width a x)
        + to_int (is_some a.value_constraint && same_value a x))

-- The access predicates that the verifier supports.
unfoldable pub is_supported : MmioAtom → Bool
is_supported a = is_some a.width_bits && (elim a.access [
  | reads ↦ true
  | either ↦ false
  | writes ↦ (elim a.value_constraint [ none ↦ false | some v ↦ operator_eq v.operator ])
])

abbrev pub cited : RunEvidence → Executed → List String
cited run x =
    x.capability.capability_id ∷ x.binding.binding_id ∷ x.observation.observation_id
    ∷ run.joint_run.joint_run_id ∷ []

unfoldable pub no_unique_access : String → Result (Verdict × Option Executed)
no_unique_access requirement_id = do
  v ←
      condition requirement_id unknown "NO_UNIQUE_EXECUTED_ACCESS" []
        ("unique_completed_matching_transaction" ∷ [])
  ok (v, none)

-- The verdict from the exact and the conflicting executions.
unfoldable pub judge_access :
    String → RunEvidence → List Executed → List Executed → Result (Verdict × Option Executed)
judge_access requirement_id run (x ∷ []) conflicting = do
  v ← condition requirement_id supported "EXACT_EXECUTED_MMIO" (cited run x) []
  ok (v, some x)
judge_access requirement_id run [] (x ∷ []) = do
  v ← condition requirement_id contradicted "EXECUTED_CONFLICTING_MMIO" (cited run x) []
  ok (v, none)
judge_access requirement_id run _ _ = no_unique_access requirement_id

-- `_access_atom`
unfoldable pub access_atom :
    AccessAtom → String → RunEvidence → List Executed → Result (Verdict × Option Executed)
access_atom (csr a) requirement_id run pairs = do
  v ←
      condition requirement_id unknown "UNSUPPORTED_ACCESS_PREDICATE" []
        ("exact_access_requirement" ∷ [])
  ok (v, none)
access_atom (mmio a) requirement_id run pairs =
    if is_supported a
    then judge_access requirement_id run (select (is_exact a) (select agrees pairs))
        (select (is_conflicting a) (select agrees pairs))
    else (do
      v ←
          condition requirement_id unknown "UNSUPPORTED_ACCESS_PREDICATE" []
            ("exact_access_requirement" ∷ [])
      ok (v, none))
