-- ===== src/Verifier/Reference.antt =====
-- The reference control of `verify_type2`.
use chip_chain_v.Prelude.{
  ℕ, String, Bool, true, false, not, ◌&&◌, ◌==◌, ℕ_eq, String_eq, option_eq, Option, none, some,
  List, [], ◌∷◌, ◌++◌, any, all, is_some, length, only, iff, if◌then◌else◌, Result, ok, err, ◌>>=◌,
  ◌>>◌, require, sorted_set,
}
use chip_chain_v.Verifier.Data.{
  Status, supported, unknown, Verdict, mmio, csr, MmioAtom, Value, text, int, bool, Predicate,
  TriggerCondition, Precondition, Deviation, Contract, Observation, StateBinding, RunEvidence,
  ControlledSource, Executed,
}
use chip_chain_v.Verifier.Judge.{condition, Status_eq}
use chip_chain_v.Verifier.Access.{to_int, access_atom, capability_transactions}
use chip_chain_v.Verifier.State.{PreState, state_before, predicate_eq, Sampling, sample_read}
use chip_chain_v.Verifier.Trigger.{in_order, first_value, operands_of}
use chip_chain_v.Verifier.Scope.{is_write}

-- `predicate.operands[0]`
unfoldable pub first_operand : Option Predicate → Result Value
first_operand none = err "AttributeError"
first_operand (some p) = elim p.operands [ [] ↦ err "IndexError" | v ∷ vs ↦ ok v ]

-- Python's `==` between a number and an operand, where `True` is 1 and `False` is 0.
abbrev pub equals_value : Option ℕ → Value → Bool
equals_value none v = false
equals_value (some n) (text s) = false
equals_value (some n) (int m) = n == m
equals_value (some n) (bool b) = n == to_int b

-- `ReferenceControlVerification`
pub record Control : Type 0 where
  pub reference_joint_run_id : Option String
  pub trigger_status : Status
  pub expected_behavior_status : Status
  pub deviation_observed : Option Bool
  pub evidence_ids : List String
  pub reason_code : String
  pub trigger_condition : Verdict
  pub expected_condition : Verdict
  pub no_deviation_condition : Verdict

abbrev is_false : Option Bool → Bool
is_false (some false) = true
is_false _ = false

-- The validator `ReferenceControlVerification.consistent`.
unfoldable pub check_control : Control → Result Control
check_control c = do
  require
      (c.trigger_status == c.trigger_condition.status
        && c.expected_behavior_status == c.expected_condition.status
        && iff (is_false c.deviation_observed) (c.no_deviation_condition.status == supported))
      "REFERENCE_CONTROL_STATUS_MISMATCH"
  ok c

-- A reference access requirement: its identifier, its atom, the verdict and the selected execution.
pub record RefAccess : Type 0 where
  pub condition_id : String
  pub atom : MmioAtom
  pub verdict : Verdict
  pub selected : Option Executed

-- The verdict counts only for a formalized requirement; the execution is selected for any.
unfoldable pub judge_reference :
    RunEvidence → List Executed → TriggerCondition → MmioAtom → Result RefAccess
judge_reference run pairs r atom = do
  p ← access_atom (mmio atom) r.condition_id run pairs
  v ← condition r.condition_id unknown "UNFORMALIZED_TRIGGER" [] ("formalized_trigger" ∷ [])
  ok (record {
    condition_id = r.condition_id;
    atom = atom;
    verdict = if r.formalized then p.0 else v;
    selected = p.1;
  })

-- `reference_atoms` and what was found for them.
unfoldable pub reference_accesses :
    RunEvidence → List Executed → List TriggerCondition → Result (List RefAccess)
unfolding judge_reference
reference_accesses run pairs [] = ok []
reference_accesses run pairs (r ∷ rs) =
    let rest = reference_accesses run pairs rs in
    elim r.access [
      | none ↦ rest
      | some atom ↦ (elim atom [
        | csr k ↦ rest
        | mmio a ↦ (do x ← judge_reference run pairs r a; xs ← rest; ok (x ∷ xs))
      ])
    ]

-- `ref_selected.get(id)`, where the last entry for an identifier counts.
unfoldable pub reference_selected : List RefAccess → String → Option Executed
reference_selected [] i = none
reference_selected (x ∷ xs) i = elim (any (λ y. y.condition_id == i) xs) [
  | true ↦ reference_selected xs i
  | false ↦ if x.condition_id == i then x.selected else none
]

unfoldable pub reference_commands : StateBinding → List RefAccess → List RefAccess → List Executed
unfolding reference_selected
reference_commands b all_of [] = []
reference_commands b all_of (x ∷ xs) =
    let rest = reference_commands b all_of xs in
    if not (x.atom.address == b.enable_address) && is_write x.atom.access
    then (elim (reference_selected all_of x.condition_id) [ none ↦ rest | some e ↦ e ∷ rest ])
    else rest

-- The tests on one ordering requirement of the reference.
unfoldable pub reference_order_ok : List RefAccess → TriggerCondition → Bool
unfolding reference_selected
reference_order_ok xs r = elim r.order [
  | none ↦ true
  | some atom ↦
      r.formalized
      && not (is_some atom.max_gap_time)
      && (elim (reference_selected xs atom.before_atom_id) [
        | none ↦ false
        | some before ↦ (elim (reference_selected xs atom.after_atom_id) [
          | none ↦ false
          | some after ↦ in_order atom before.observation after.observation
        ])
      ])
]

-- `next((pre.required_relation.operands[0] for pre in ... if _predicate_eq(...)), None)`
unfoldable pub required_prestate : StateBinding → List Precondition → Option ℕ
required_prestate b [] = none
required_prestate b (p ∷ ps) =
    let later = required_prestate b ps in
    if predicate_eq p.required_relation b.enable_subject
    then first_value (operands_of p.required_relation)
    else later

unfoldable pub reference_prestate_ok : PreState → Observation → Option ℕ → Bool
reference_prestate_ok state command want = option_eq state.value want && (elim state.last_enable [
  | none ↦ false
  | some last ↦ last.reset_epoch == command.reset_epoch
])

unfoldable pub reference_triggered :
    Contract → RunEvidence → StateBinding → List RefAccess → Observation → Bool
unfolding reference_order_ok required_prestate reference_prestate_ok
reference_triggered contract run b xs command =
    length xs == 2
    && all (λ x. x.verdict.status == supported) xs
    && all (reference_order_ok xs) contract.trigger
    && reference_prestate_ok (state_before run.parsed command (some b)) command
        (required_prestate b contract.preconditions)

abbrev pub status_if : Bool → Status
status_if true = supported
status_if false = unknown

abbrev pub kept_if {ℓ} : {A : Type ℓ} → Bool → List A → List A
kept_if true xs = xs
kept_if false xs = []

abbrev pub evidence_of : List RefAccess → List String
evidence_of [] = []
evidence_of (x ∷ xs) = x.verdict.evidence_ids ++ evidence_of xs

-- The control record from its three answers.
unfoldable pub build_control :
    String → Bool → Bool → Bool → List String → List String → Result Control
unfolding check_control
build_control joint_run_id triggered expected no_deviation ref_ids evidence = do
  t ←
      condition "type2:reference-trigger" (status_if triggered)
        (if triggered then "REFERENCE_EXECUTED_TRIGGER" else "REFERENCE_TRIGGER_INCOMPLETE")
        (kept_if triggered evidence)
        (kept_if (not triggered) ("reference_trigger_and_prestate" ∷ []))
  e ←
      condition "type2:reference-expected" (status_if expected)
        (if expected then "REFERENCE_EXPECTED_STATUS" else "REFERENCE_STATUS_INCOMPLETE")
        (kept_if expected ref_ids)
        (kept_if (not expected) ("reference_bound_status_observation" ∷ []))
  n ←
      condition "type2:reference-no-deviation" (status_if no_deviation)
        (if no_deviation then "EXPECTED_NOT_DEVIATING" else "REFERENCE_DEVIATION_UNASSESSED")
        (kept_if no_deviation ref_ids)
        (kept_if (not no_deviation) ("reference_expected_not_deviating" ∷ []))
  check_control (record {
    reference_joint_run_id = some joint_run_id;
    trigger_status = status_if triggered;
    expected_behavior_status = status_if expected;
    deviation_observed = if no_deviation then some false else none;
    evidence_ids = evidence;
    reason_code =
        if triggered && expected
        then "REFERENCE_TRIGGER_EXPECTED_NO_DEVIATION"
        else "REFERENCE_INCOMPLETE";
    trigger_condition = t;
    expected_condition = e;
    no_deviation_condition = n;
  })

abbrev pub no_sample : Sampling
no_sample = record { value = none; evidence = []; reason = "NO_REF_COMMAND" }

unfoldable pub reference_sampling : RunEvidence → StateBinding → Option Executed → Sampling
reference_sampling run b none = no_sample
reference_sampling run b (some x) = sample_read run b.status_address x.observation

unfoldable pub reference_answer :
    Contract → RunEvidence → StateBinding → List RefAccess → Option Executed → Bool
unfolding reference_triggered
reference_answer contract run b xs none = false
reference_answer contract run b xs (some x) = reference_triggered contract run b xs x.observation

-- `ref_value == expected and ref_reason == 'SAMPLE_READ_AGREE'`
unfoldable pub expected_seen : Sampling → Value → Bool
expected_seen s v = equals_value s.value v && s.reason == "SAMPLE_READ_AGREE"

-- The deviating value is read only if the expected value was seen.
unfoldable pub not_deviating : Bool → Sampling → Option Predicate → Result Bool
unfolding first_operand
not_deviating false s p = ok false
not_deviating true s p = do v ← first_operand p; ok (not (equals_value s.value v))

-- The reference control where a reference, a command, one deviation, a state binding and the
-- controlled source are given.
unfoldable pub reference_control :
    Contract → RunEvidence → StateBinding → Deviation → Result Control
unfolding reference_accesses reference_commands reference_answer build_control reference_sampling
    first_operand expected_seen not_deviating
reference_control contract run b d = do
  xs ← reference_accesses run (capability_transactions run) contract.trigger
  let command = only (reference_commands b xs xs)
  let s = reference_sampling run b command
  expected ← first_operand d.expected_behavior
  no_deviation ← not_deviating (expected_seen s expected) s d.deviating_behavior
  build_control run.joint_run.joint_run_id (reference_answer contract run b xs command)
      (expected_seen s expected) no_deviation s.evidence (sorted_set (s.evidence ++ evidence_of xs))

unfoldable pub missing_control : Option RunEvidence → Result Control
unfolding check_control
missing_control reference = do
  t ← condition "type2:reference-trigger" unknown "REFERENCE_MISSING" [] ("reference_trigger" ∷ [])
  e ← condition "type2:reference-expected" unknown "REFERENCE_MISSING" [] ("reference_status" ∷ [])
  n ←
      condition "type2:reference-no-deviation" unknown "REFERENCE_MISSING" []
        ("reference_status" ∷ [])
  check_control (record {
    reference_joint_run_id = elim reference [
      | none ↦ none
      | some run ↦ some run.joint_run.joint_run_id
    ];
    trigger_status = unknown;
    expected_behavior_status = unknown;
    deviation_observed = none;
    evidence_ids = [];
    reason_code = "REFERENCE_MISSING_OR_UNASSESSED";
    trigger_condition = t;
    expected_condition = e;
    no_deviation_condition = n;
  })

-- The reference is a control only: it never satisfies the scope of the contract.
unfoldable pub verify_control :
    Contract
    → Option RunEvidence
    → Option StateBinding
    → Option ControlledSource
    → Option Observation
    → Result Control
unfolding reference_control missing_control
verify_control contract (some reference) (some b) (some source) (some command) =
    elim (only contract.deviation) [
      | none ↦ missing_control (some reference)
      | some d ↦ reference_control contract reference b d
    ]
verify_control contract reference _ _ _ = missing_control reference
