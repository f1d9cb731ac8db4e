-- ===== src/Verifier/Trigger.antt =====
-- The trigger requirements and the preconditions, as `verify_type2` judges them.
use Prim.Native.String.{◌++◌ as text_append}
use chip_chain_v.Prelude.{
  traverse, ℕ, ◌+◌, leb, ltb, String, Bool, true, false, not, ◌&&◌, ◌||◌, ◌==◌, ℕ_eq, String_eq,
  option_eq, Option, none, some, List, [], ◌∷◌, ◌++◌, is_some, only, if◌then◌else◌, Result, ok,
  ◌>>=◌, decimal,
}
use chip_chain_v.Verifier.Data.{
  Status, supported, contradicted, unknown, Verdict, AccessAtom, OrderingAtom, Value, int,
  Predicate, mmio_access, ordering, TriggerCondition, Precondition, Contract, Observation,
  StateBinding, RunEvidence, ControlledSource, Executed,
}
use chip_chain_v.Verifier.Judge.{condition, aggregate, Status_eq}
use chip_chain_v.Verifier.Access.{latest, access_atom}
use chip_chain_v.Verifier.State.{PreState, state_before, predicate_eq}
use chip_chain_v.Verifier.Scope.{
  is_kind, source_ok, address_of, access_kind, is_write, is_mmio_requirement, scope_verdict,
}

-- A requirement that was judged, with the execution that was selected for it.
pub record Judged : Type 0 where
  pub condition_id : String
  pub verdict : Verdict
  pub selected : Option Executed

unfoldable pub judge_requirement :
    RunEvidence → List Executed → TriggerCondition → AccessAtom → Result Judged
judge_requirement run pairs r atom =
    if r.formalized
    then (do
      p ← access_atom atom r.condition_id run pairs
      ok (record { condition_id = r.condition_id; verdict = p.0; selected = p.1 }))
    else (do
      v ← condition r.condition_id unknown "UNFORMALIZED_TRIGGER" [] ("formalized_trigger" ∷ [])
      ok (record { condition_id = r.condition_id; verdict = v; selected = none }))

-- The loop over the access requirements.
unfoldable pub judge_accesses :
    RunEvidence → List Executed → List TriggerCondition → Result (List Judged)
unfolding judge_requirement is_mmio_requirement
judge_accesses run pairs [] = ok []
judge_accesses run pairs (r ∷ rs) =
    let rest = judge_accesses run pairs rs in
    if is_kind r.condition_kind mmio_access
    then (elim r.access [
      | none ↦ rest
      | some atom ↦ (do j ← judge_requirement run pairs r atom; js ← rest; ok (j ∷ js))
    ])
    else rest

-- `selected.get(id)`
unfoldable pub selected_for : List Judged → String → Option Executed
selected_for [] i = none
selected_for (j ∷ js) i = elim (selected_for js i) [
  | some x ↦ some x
  | none ↦ if j.condition_id == i then j.selected else none
]

-- The command comes after the enable access, in one epoch, and within the bound on events.
unfoldable pub in_order : OrderingAtom → Observation → Observation → Bool
in_order atom left right =
    left.reset_epoch == right.reset_epoch
    && ltb left.request_cycle right.request_cycle
    && (elim atom.max_gap_events [
      | none ↦ true
      | some gap ↦ leb right.transaction_id (left.transaction_id + gap)
    ])

unfoldable pub judge_endpoints :
    RunEvidence
    → TriggerCondition
    → OrderingAtom
    → Option Executed
    → Option Executed
    → Result Verdict
unfolding in_order
judge_endpoints run r atom (some before) (some after) =
    let ids =
      before.observation.observation_id ∷ after.observation.observation_id
      ∷ run.joint_run.joint_run_id ∷ [] in
    if in_order atom before.observation after.observation
    then condition r.condition_id supported "ACCEPTED_REQUEST_ORDER" ids []
    else condition r.condition_id contradicted "ORDER_OR_EPOCH_CONFLICT" ids []
judge_endpoints run r atom _ _ =
    condition r.condition_id unknown "ORDER_ENDPOINT_MISSING" []
      ("two_bound_endpoint_transactions" ∷ [])

unfoldable pub judge_order : RunEvidence → List Judged → TriggerCondition → Result Verdict
unfolding judge_endpoints
judge_order run js r = elim r.order [
  | none ↦
      condition r.condition_id unknown "UNSUPPORTED_ORDERING_TIME_OR_FORMALIZATION" []
        ("formalized_cycle_order" ∷ [])
  | some atom ↦
      if not r.formalized || is_some atom.max_gap_time
      then condition r.condition_id unknown "UNSUPPORTED_ORDERING_TIME_OR_FORMALIZATION" []
          ("formalized_cycle_order" ∷ [])
      else judge_endpoints run r atom (selected_for js atom.before_atom_id)
          (selected_for js atom.after_atom_id)
]

-- The loop over the ordering requirements.
unfoldable pub judge_orders :
    RunEvidence → List Judged → List TriggerCondition → Result (List Judged)
unfolding judge_order
judge_orders run js [] = ok []
judge_orders run js (r ∷ rs) =
    let rest = judge_orders run js rs in
    if is_kind r.condition_kind ordering
    then (do
      v ← judge_order run js r
      others ← rest
      ok (record { condition_id = r.condition_id; verdict = v; selected = none } ∷ others))
    else rest

-- `[selected.get(...) for req in contract.trigger if req.access and ...]` without the missing ones.
unfoldable pub commands :
    StateBinding → List Judged → List TriggerCondition → Result (List Executed)
unfolding selected_for
commands b js [] = ok []
commands b js (r ∷ rs) =
    let rest = commands b js rs in
    elim r.access [
      | none ↦ rest
      | some atom ↦ (do
        address ← address_of atom
        others ← rest
        ok (
            if not (address == b.enable_address) && is_write (access_kind atom)
            then (elim (selected_for js r.condition_id) [ none ↦ others | some x ↦ x ∷ others ])
            else others))
    ]

abbrev pub first_value : List Value → Option ℕ
first_value (int n ∷ vs) = some n
first_value _ = none

-- The accepted enable write precedes the command in its epoch and left the required value.
unfoldable pub prestate_accepted : PreState → Observation → Option ℕ → Bool
prestate_accepted state command want = elim state.last_enable [
  | none ↦ false
  | some last ↦
      last.reset_epoch == command.reset_epoch
      && ltb last.cycle command.request_cycle
      && option_eq state.value want
]

unfoldable pub prestate_evidence : RunEvidence → PreState → Observation → List String
prestate_evidence run state command =
    command.observation_id ∷ run.joint_run.joint_run_id ∷ (elim state.last_enable [
      | none ↦ []
      | some last ↦
          text_append run.joint_run.bus_trace_sha256
            (text_append ":enable-request:" (decimal last.sequence))
          ∷ []
    ])

unfoldable pub judge_prestate :
    RunEvidence → String → PreState → Observation → Option ℕ → Result Verdict
unfolding prestate_accepted prestate_evidence
judge_prestate run i state command want =
    if not (is_some state.value)
    then condition i unknown state.reason [] ("complete_enable_state_history" ∷ [])
    else if prestate_accepted state command want
    then condition i supported "ACCEPTED_ENABLE_PRESTATE" (prestate_evidence run state command) []
    else condition i contradicted "ENABLE_PRESTATE_CONFLICT" (prestate_evidence run state command)
        []

abbrev pub operands_of : Option Predicate → List Value
operands_of none = []
operands_of (some p) = p.operands

unfoldable pub judge_precondition :
    Contract
    → RunEvidence
    → Option StateBinding
    → Option ControlledSource
    → List Judged
    → Precondition
    → Result Verdict
unfolding source_ok judge_prestate
judge_precondition contract run none source js pre =
    condition pre.condition_id unknown "STATE_BINDING_OR_PREDICATE_MISSING" []
      ("synthetic_spec_state_binding" ∷ [])
judge_precondition contract run (some b) source js pre =
    if not (source_ok contract (some b) source)
      || not pre.formalized
      || not (predicate_eq pre.required_relation b.enable_subject)
    then condition pre.condition_id unknown "STATE_BINDING_OR_PREDICATE_MISSING" []
        ("synthetic_spec_state_binding" ∷ [])
    else (do
      found ← commands b js contract.trigger
      elim (only found) [
        | none ↦
            condition pre.condition_id unknown "COMMAND_ENDPOINT_MISSING" [] ("bound_command" ∷ [])
        | some x ↦
            judge_prestate run pre.condition_id (state_before run.parsed x.observation (some b))
              x.observation (first_value (operands_of pre.required_relation))
      ])

-- `by_condition.get(id, condition(..., 'UNSUPPORTED_TRIGGER', ...))`
unfoldable pub verdict_for : List Judged → TriggerCondition → Result Verdict
unfolding latest
verdict_for js r = elim (latest (λ j. j.condition_id) js r.condition_id) [
  | some j ↦ ok j.verdict
  | none ↦ condition r.condition_id unknown "UNSUPPORTED_TRIGGER" [] ("supported_trigger_kind" ∷ [])
]

-- `TriggerVerification`, with the executions that the other judgements use.
pub record TriggerVerification : Type 0 where
  pub conditions : List Verdict
  pub status : Status
  pub scope : Verdict
  pub judged : List Judged

unfoldable pub verify_trigger :
    Contract
    → RunEvidence
    → Option StateBinding
    → Option ControlledSource
    → List Executed
    → Result TriggerVerification
unfolding scope_verdict judge_accesses judge_orders verdict_for judge_precondition traverse
verify_trigger contract target state_binding source pairs = do
  scope ← scope_verdict contract target state_binding source
  accesses ← judge_accesses target pairs contract.trigger
  orders ← judge_orders target accesses contract.trigger
  pres ←
      traverse (judge_precondition contract target state_binding source accesses)
        contract.preconditions
  required ← traverse (verdict_for (accesses ++ orders)) contract.trigger
  let conditions = scope ∷ required ++ pres
  ok (record {
    conditions = conditions;
    status = if scope.status == supported then aggregate conditions else unknown;
    scope = scope;
    judged = accesses;
  })
