-- ===== src/Verifier/State.antt =====
-- The state before the command, and the status that was read after it.
use chip_chain_v.Prelude.{
  ℕ, ltb, String, Bool, true, false, ◌&&◌, ◌==◌, ℕ_eq, String_eq, option_eq, Option, none, some,
  List, [], ◌∷◌, ◌++◌, select, any, only, if◌then◌else◌, decimal,
}
use Prim.Native.String.{◌++◌ as text_append}
use chip_chain_v.Trace.{Event, Phase, Transaction, Trace, request, reset_assert, status_sample}
use chip_chain_v.Verifier.Data.{read, Value, int, Predicate, Observation, StateBinding, RunEvidence}
use chip_chain_v.Verifier.Access.{operator_eq, operation_eq, capability_transactions}

-- The request of an event, among the completed transactions.
unfoldable pub is_completed : List Transaction → Event → Bool
is_completed transactions e =
    any (λ t. t.asked.reset_epoch == e.reset_epoch && t.asked.transaction_id == e.transaction_id)
      transactions

-- What `_state_before` returns: the value, the request that wrote it and the reason.
pub record PreState : Type 0 where
  pub value : Option ℕ
  pub last_enable : Option Event
  pub reason : String

abbrev pub no_state : String → PreState
no_state reason = record { value = none; last_enable = none; reason = reason }

-- The variables of the loop.
pub record Register : Type 0 where
  pub value : Option ℕ
  pub last_enable : Option Event
  pub state_epoch : Option ℕ

abbrev pub unset : Register
unset = record { value = none; last_enable = none; state_epoch = none }

unfoldable pub is_command : Observation → Event → Bool
is_command command e =
    e.transaction_id == command.transaction_id && e.reset_epoch == command.reset_epoch

unfoldable pub found_command : Observation → Register → PreState
found_command command r =
    if option_eq r.state_epoch (some command.reset_epoch)
    then record { value = r.value; last_enable = r.last_enable; reason = "PRESTATE_OBSERVED" }
    else no_state "RESET_EPOCH_MISMATCH"

-- A request writes the enable register.
unfoldable pub writes_enable : StateBinding → Event → Bool
writes_enable b e = e.address == b.enable_address && e.write_enable == 1

unfoldable pub after_request : StateBinding → Event → Register → Register
after_request b e r =
    if writes_enable b e then record r { value = some e.write_data; last_enable = some e } else r

-- The loop of `_state_before`.
unfoldable pub scan_events :
    List Transaction → Observation → StateBinding → List Event → Register → PreState
unfolding found_command after_request
scan_events txs command b [] r = no_state "COMMAND_REQUEST_MISSING"
scan_events txs command b (e ∷ es) r = elim e.phase [
  | reset_assert ↦ scan_events txs command b es (record {
    value = some b.enable_reset_value;
    last_enable = none;
    state_epoch = some e.reset_epoch;
  })
  | request ↦ (elim (is_completed txs e) [
    | false ↦ no_state "REQUEST_NOT_COMPLETED"
    | true ↦ (elim (is_command command e) [
      | true ↦ found_command command r
      | false ↦ scan_events txs command b es (after_request b e r)
    ])
  ])
  | _ ↦ scan_events txs command b es r
]

-- `_state_before`
unfoldable pub state_before : Trace → Observation → Option StateBinding → PreState
unfolding scan_events
state_before parsed command none = no_state "STATE_BINDING_MISSING"
state_before parsed command (some b) = scan_events parsed.transactions command b parsed.events unset

abbrev pub is_int : Value → Bool
is_int (int n) = true
is_int _ = false

-- `len(operands) == 1 and type(operands[0]) is int`
abbrev pub is_one_int : List Value → Bool
is_one_int (v ∷ []) = is_int v
is_one_int _ = false

-- `_predicate_eq`
unfoldable pub predicate_eq : Option Predicate → String → Bool
predicate_eq none subject = false
predicate_eq (some p) subject =
    p.subject == subject && operator_eq p.operator && is_one_int p.operands

-- `observation_binding_for(run) == run.observation_binding`
unfoldable pub linked : RunEvidence → Bool
linked run = elim run.observation_binding [
  | none ↦ false
  | some link ↦
      link.joint_run_id == run.joint_run.joint_run_id
      && link.runtime_attestation_id == run.attestation_id
      && link.raw_trace_sha256 == run.joint_run.bus_trace_sha256
      && link.rtl_tree_sha256 == run.joint_run.rtl_tree_sha256
      && link.map_id == run.map_id
]

-- What `_sample_read` returns.
pub record Sampling : Type 0 where
  pub value : Option ℕ
  pub evidence : List String
  pub reason : String

abbrev pub no_sampling : String → Sampling
no_sampling reason = record { value = none; evidence = []; reason = reason }

-- The reads of the status register after the command, in its epoch.
unfoldable pub later_reads : RunEvidence → ℕ → Observation → List Observation
later_reads run read_address command =
    select
      (λ o.
        operation_eq o.operation read
        && o.address == read_address
        && o.reset_epoch == command.reset_epoch
        && ltb command.request_cycle o.request_cycle)
      run.runtime_observations

abbrev pub is_status_sample : Phase → Bool
is_status_sample status_sample = true
is_status_sample _ = false

-- The samples in the cycle of the command, in its epoch.
unfoldable pub update_samples : Trace → Observation → List Event
update_samples parsed command =
    select
      (λ e.
        is_status_sample e.phase
        && e.reset_epoch == command.reset_epoch
        && e.cycle == command.request_cycle)
      parsed.events

abbrev pub link_id : RunEvidence → List String
link_id run = elim run.observation_binding [ none ↦ [] | some link ↦ link.binding_id ∷ [] ]

unfoldable pub compare_sample : RunEvidence → Observation → Event → Sampling
compare_sample run status sample =
    let ids =
      run.joint_run.joint_run_id ∷ status.observation_id ∷ link_id run
      ++ (text_append status.raw_trace_artifact_id
            (text_append ":status-sample:" (decimal sample.sequence))
          ∷ []) in
    if option_eq (some sample.status_value) status.read_value
    then record { value = status.read_value; evidence = ids; reason = "SAMPLE_READ_AGREE" }
    else record { value = none; evidence = ids; reason = "SAMPLE_READ_CONFLICT" }

unfoldable pub is_executed : RunEvidence → Observation → Bool
is_executed run o =
    any (λ x. x.observation.observation_id == o.observation_id) (capability_transactions run)

unfoldable pub sample_at_command : RunEvidence → Observation → Observation → Sampling
unfolding update_samples compare_sample is_executed
sample_at_command run status command =
    if is_executed run status
    then (elim (only (update_samples run.parsed command)) [
      | none ↦ no_sampling "POST_UPDATE_SAMPLE_MISSING"
      | some sample ↦ compare_sample run status sample
    ])
    else no_sampling "STATUS_READ_NOT_BOUND_TO_CAPABILITY"

-- `_sample_read`
unfoldable pub sample_read : RunEvidence → ℕ → Observation → Sampling
unfolding linked later_reads sample_at_command
sample_read run read_address command =
    if linked run
    then (elim (only (later_reads run read_address command)) [
      | none ↦ no_sampling "STATUS_READ_MISSING_OR_AMBIGUOUS"
      | some status ↦ sample_at_command run status command
    ])
    else no_sampling "OBSERVATION_BINDING_MISSING"
