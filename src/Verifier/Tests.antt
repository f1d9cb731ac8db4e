-- ===== src/Verifier/Tests.antt =====
-- The verifier on the example, and the theorems about it there.
use chip_chain_v.Prelude.{
  is_ok, value_of, value_of-ok, traverse, Option, Memᴰ, [], ◌∷◌, ◌≡◌, refl, true, some, none,
  Result, ok, err, sorted_set, insert_text, sorted_texts, insert_sorted, sorted_by, insert_by,
  decimal,
}
use chip_chain_v.Trace.Link.{requests}
use chip_chain_v.Trace.Example.{trace_with, rows_with, parses, command_request, reply}
use chip_chain_v.Verifier.Data.{
  Verdict, Executed, mmio, Operator, ValueConstraint, contradicted, supported, Observation,
}
use chip_chain_v.Verifier.PreState.{observed, last_write, before_id, state_before-last_write}
use chip_chain_v.Verifier.Total.Verify.{verify_type2-Returns}
use chip_chain_v.Verifier.Sound.{IsEstablished, verified-IsEstablished, unscoped-unknown}
use chip_chain_v.Verifier.Status.{IsDeviating, supported-IsDeviating}
use chip_chain_v.Verifier.Executed.{
  IsUnique, access_atom-IsUnique, IsRead, read_without_value-contradicted,
  read_with_operator-supported,
}
use chip_chain_v.Verifier.Raises.{csr_trigger-raises, unstated_expected-raises}
use chip_chain_v.Verifier.Judge.{verified_controlled_type2_chain, unknown_chain}
use chip_chain_v.Verifier.Judge.{condition, aggregate, deviation_value, final_status}
use chip_chain_v.Verifier.Access.{
  latest, declared, bound_fact, is_mmio_primitive, executed_by, filter_map, capability_transactions,
  agrees, same_address, same_width, same_value, is_exact, is_conflicting, is_supported,
  no_unique_access, judge_access, access_atom,
}
use chip_chain_v.Verifier.State.{
  is_completed, is_command, found_command, writes_enable, after_request, scan_events, state_before,
  predicate_eq, linked, later_reads, update_samples, compare_sample, is_executed, sample_at_command,
  sample_read,
}
use chip_chain_v.Verifier.Trigger.{
  judge_requirement, judge_accesses, selected_for, in_order, judge_endpoints, judge_order,
  judge_orders, commands, prestate_accepted, prestate_evidence, judge_prestate, judge_precondition,
  verdict_for, verify_trigger,
}
use chip_chain_v.Verifier.Scope.{
  source_ok, is_mmio_requirement, orders_between, shape_ok, scope_ok, scope_verdict,
}
use chip_chain_v.Verifier.Deviation.{
  is_specified, unspecified, judge_value, unreliable, judge_read, judge_sample, judge_status,
  verify_deviation,
}
use chip_chain_v.Verifier.Reference.{
  first_operand, check_control, judge_reference, reference_accesses, reference_selected,
  reference_commands, reference_order_ok, required_prestate, reference_prestate_ok,
  reference_triggered, build_control, reference_sampling, reference_answer, expected_seen,
  not_deviating, reference_control, missing_control, verify_control,
}
use chip_chain_v.Verifier.Verify.{
  command_of, is_paired, same_behavior, same_behaviors, behavior, differs_in_hardware,
  check_differential, verify_differential, gate_open, final_gate, verify_type2,
}
use chip_chain_v.Verifier.Verify.{VerificationResult}
use chip_chain_v.Verifier.Example.{
  csr_contract, unstated, unstated_contract, status_execution, status_atom, write_atom,
  command_observation, contract, target, reference, state_binding, source,
}

abbrev verification : Result VerificationResult
verification = verify_type2 contract target (some reference) (some state_binding) (some source)

verification-is_ok : is_ok verification ≡ true
unfolding condition aggregate deviation_value final_status latest declared bound_fact
    is_mmio_primitive executed_by filter_map capability_transactions agrees same_address same_width
    same_value is_exact is_conflicting is_supported no_unique_access judge_access access_atom
    is_completed is_command found_command writes_enable after_request scan_events state_before
    predicate_eq linked later_reads update_samples compare_sample is_executed sample_at_command
    sample_read source_ok is_mmio_requirement orders_between shape_ok scope_ok scope_verdict
    judge_requirement judge_accesses selected_for in_order judge_endpoints judge_order judge_orders
    commands prestate_accepted prestate_evidence judge_prestate judge_precondition traverse
    verdict_for verify_trigger is_specified unspecified judge_value unreliable judge_read
    judge_sample judge_status verify_deviation first_operand check_control judge_reference
    reference_accesses reference_selected reference_commands reference_order_ok required_prestate
    reference_prestate_ok reference_triggered build_control reference_sampling reference_answer
    expected_seen not_deviating reference_control missing_control verify_control command_of
    is_paired same_behavior same_behaviors behavior differs_in_hardware check_differential
    verify_differential gate_open final_gate verify_type2 sorted_set insert_text sorted_texts
    insert_sorted insert_by sorted_by decimal
verification-is_ok = refl

abbrev result : VerificationResult
result = value_of verification verification-is_ok

result_verified :
    (result.final_status ≡ verified_controlled_type2_chain) × (result.deviation.status ≡ supported)
unfolding condition aggregate deviation_value final_status latest declared bound_fact
    is_mmio_primitive executed_by filter_map capability_transactions agrees same_address same_width
    same_value is_exact is_conflicting is_supported no_unique_access judge_access access_atom
    is_completed is_command found_command writes_enable after_request scan_events state_before
    predicate_eq linked later_reads update_samples compare_sample is_executed sample_at_command
    sample_read source_ok is_mmio_requirement orders_between shape_ok scope_ok scope_verdict
    judge_requirement judge_accesses selected_for in_order judge_endpoints judge_order judge_orders
    commands prestate_accepted prestate_evidence judge_prestate judge_precondition traverse
    verdict_for verify_trigger is_specified unspecified judge_value unreliable judge_read
    judge_sample judge_status verify_deviation first_operand check_control judge_reference
    reference_accesses reference_selected reference_commands reference_order_ok required_prestate
    reference_prestate_ok reference_triggered build_control reference_sampling reference_answer
    expected_seen not_deviating reference_control missing_control verify_control command_of
    is_paired same_behavior same_behaviors behavior differs_in_hardware check_differential
    verify_differential gate_open final_gate verify_type2 sorted_set insert_text sorted_texts
    insert_sorted insert_by sorted_by decimal
result_verified = (refl, refl)

-- The same runs without the state binding.
abbrev unbound : Result VerificationResult
unbound = verify_type2 contract target (some reference) none (some source)

unbound-is_ok : is_ok unbound ≡ true
unfolding condition aggregate deviation_value final_status latest declared bound_fact
    is_mmio_primitive executed_by filter_map capability_transactions agrees same_address same_width
    same_value is_exact is_conflicting is_supported no_unique_access judge_access access_atom
    is_completed is_command found_command writes_enable after_request scan_events state_before
    predicate_eq linked later_reads update_samples compare_sample is_executed sample_at_command
    sample_read source_ok is_mmio_requirement orders_between shape_ok scope_ok scope_verdict
    judge_requirement judge_accesses selected_for in_order judge_endpoints judge_order judge_orders
    commands prestate_accepted prestate_evidence judge_prestate judge_precondition traverse
    verdict_for verify_trigger is_specified unspecified judge_value unreliable judge_read
    judge_sample judge_status verify_deviation first_operand check_control judge_reference
    reference_accesses reference_selected reference_commands reference_order_ok required_prestate
    reference_prestate_ok reference_triggered build_control reference_sampling reference_answer
    expected_seen not_deviating reference_control missing_control verify_control command_of
    is_paired same_behavior same_behaviors behavior differs_in_hardware check_differential
    verify_differential gate_open final_gate verify_type2 sorted_set insert_text sorted_texts
    insert_sorted insert_by sorted_by decimal
unbound-is_ok = refl

verify_type2-Returns_example : (r : VerificationResult) × (verification ≡ ok r)
verify_type2-Returns_example =
    verify_type2-Returns contract target (some reference) (some state_binding) (some source) refl
      refl

verified-IsEstablished_example :
    IsEstablished contract target (some reference) (some state_binding) (some source) result
verified-IsEstablished_example =
    verified-IsEstablished contract target (some reference) (some state_binding) (some source)
      result (value_of-ok verification verification-is_ok) result_verified.0

unscoped-unknown_example : (value_of unbound unbound-is_ok).final_status ≡ unknown_chain
unfolding scope_ok shape_ok
unscoped-unknown_example =
    unscoped-unknown contract target (some reference) none (some source)
      (value_of unbound unbound-is_ok) (value_of-ok unbound unbound-is_ok) refl

supported-IsDeviating_example :
    (command : Option Observation) × (command_of contract (some state_binding) result.trigger.judged
      ≡ ok command)
    × IsDeviating contract target (some state_binding) command
supported-IsDeviating_example =
    supported-IsDeviating contract target (some reference) (some state_binding) (some source) result
      (value_of-ok verification verification-is_ok) result_verified.1

abbrev enable_judgement : Result (Verdict × Option Executed)
enable_judgement =
    access_atom (mmio (write_atom 0x40000 1)) "enable" target (capability_transactions target)

enable_judgement-is_ok : is_ok enable_judgement ≡ true
unfolding condition aggregate deviation_value final_status latest declared bound_fact
    is_mmio_primitive executed_by filter_map capability_transactions agrees same_address same_width
    same_value is_exact is_conflicting is_supported no_unique_access judge_access access_atom
    is_completed is_command found_command writes_enable after_request scan_events state_before
    predicate_eq linked later_reads update_samples compare_sample is_executed sample_at_command
    sample_read source_ok is_mmio_requirement orders_between shape_ok scope_ok scope_verdict
    judge_requirement judge_accesses selected_for in_order judge_endpoints judge_order judge_orders
    commands prestate_accepted prestate_evidence judge_prestate judge_precondition traverse
    verdict_for verify_trigger is_specified unspecified judge_value unreliable judge_read
    judge_sample judge_status verify_deviation first_operand check_control judge_reference
    reference_accesses reference_selected reference_commands reference_order_ok required_prestate
    reference_prestate_ok reference_triggered build_control reference_sampling reference_answer
    expected_seen not_deviating reference_control missing_control verify_control command_of
    is_paired same_behavior same_behaviors behavior differs_in_hardware check_differential
    verify_differential gate_open final_gate verify_type2 sorted_set insert_text sorted_texts
    insert_sorted insert_by sorted_by decimal
enable_judgement-is_ok = refl

abbrev enable_verdict : Verdict × Option Executed
enable_verdict = value_of enable_judgement enable_judgement-is_ok

enable_supported : enable_verdict.0.status ≡ supported
unfolding condition aggregate deviation_value final_status latest declared bound_fact
    is_mmio_primitive executed_by filter_map capability_transactions agrees same_address same_width
    same_value is_exact is_conflicting is_supported no_unique_access judge_access access_atom
    is_completed is_command found_command writes_enable after_request scan_events state_before
    predicate_eq linked later_reads update_samples compare_sample is_executed sample_at_command
    sample_read source_ok is_mmio_requirement orders_between shape_ok scope_ok scope_verdict
    judge_requirement judge_accesses selected_for in_order judge_endpoints judge_order judge_orders
    commands prestate_accepted prestate_evidence judge_prestate judge_precondition traverse
    verdict_for verify_trigger is_specified unspecified judge_value unreliable judge_read
    judge_sample judge_status verify_deviation first_operand check_control judge_reference
    reference_accesses reference_selected reference_commands reference_order_ok required_prestate
    reference_prestate_ok reference_triggered build_control reference_sampling reference_answer
    expected_seen not_deviating reference_control missing_control verify_control command_of
    is_paired same_behavior same_behaviors behavior differs_in_hardware check_differential
    verify_differential gate_open final_gate verify_type2 sorted_set insert_text sorted_texts
    insert_sorted insert_by sorted_by decimal
enable_supported = refl

access_atom-IsUnique_example :
    (x : Executed) × (enable_verdict.1 ≡ some x)
    × IsUnique (write_atom 0x40000 1) (capability_transactions target) x
access_atom-IsUnique_example =
    access_atom-IsUnique (write_atom 0x40000 1) "enable" target (capability_transactions target)
      enable_verdict (value_of-ok enable_judgement enable_judgement-is_ok) enable_supported

state_before-last_write_example :
    state_before (trace_with 9) command_observation (some state_binding)
    ≡ observed state_binding
        (last_write state_binding (before_id 2 (requests (trace_with 9).events)))
state_before-last_write_example =
    state_before-last_write (rows_with 9) (trace_with 9) state_binding command_observation
      (record { asked = command_request; answer = reply 8 4 2 0x40004 1 7 0 }) parses
      (Memᴰ.tail (Memᴰ.head refl)) refl refl

status_IsRead :
    (k : Option ValueConstraint) → IsRead (status_atom k) (status_execution ∷ []) status_execution 9
unfolding agrees declared latest
status_IsRead k = record {
  only_one = refl;
  reading = refl;
  read_it = refl;
  address = refl;
  width = refl;
  got = refl;
}

read_without_value-contradicted_example :
    (p : Verdict × Option Executed) × (access_atom
        (mmio (status_atom none))
        "status"
        target
        (status_execution ∷ [])
      ≡ ok p)
    × (p.0.status ≡ contradicted)
read_without_value-contradicted_example =
    read_without_value-contradicted (status_atom none) "status" target (status_execution ∷ [])
      status_execution 9 (status_IsRead none) refl

abbrev not_nine : ValueConstraint
not_nine = record { operator = Operator.neq; value = some 9 }

read_with_operator-supported_example :
    (p : Verdict × Option Executed) × (access_atom
        (mmio (status_atom (some not_nine)))
        "status"
        target
        (status_execution ∷ [])
      ≡ ok p)
    × (p.0.status ≡ supported)
read_with_operator-supported_example =
    read_with_operator-supported (status_atom (some not_nine)) "status" target
      (status_execution ∷ []) status_execution 9 not_nine (status_IsRead (some not_nine)) refl refl

csr_trigger-raises_example : ¬ (
    verify_type2 csr_contract target (some reference) (some state_binding) (some source)
    ≡ ok result)
csr_trigger-raises_example =
    csr_trigger-raises csr_contract target (some reference) state_binding (some source) result refl

unstated_expected-raises_example :
    verify_control unstated_contract
      (some reference)
      (some state_binding)
      (some source)
      (some command_observation)
    ≡ err "AttributeError"
unstated_expected-raises_example =
    unstated_expected-raises unstated_contract reference state_binding source command_observation
      unstated refl refl
