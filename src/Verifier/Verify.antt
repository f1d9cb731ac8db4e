-- ===== src/Verifier/Verify.antt =====
-- `verify_type2` after the validation of its inputs, and the gate of its result.
use chip_chain_v.Prelude.{
  String, Bool, true, false, not, ◌&&◌, ◌||◌, ◌==◌, ℕ_eq, String_eq, option_eq, Option, none, some,
  List, [], ◌∷◌, ◌++◌, all, is_some, is_nonempty, only, if◌then◌else◌, Result, ok, ◌>>=◌, ◌>>◌,
  require, sorted_set, sorted_texts, map, sorted_by,
}
use chip_chain_v.Verifier.Data.{
  Status, supported, contradicted, unknown, Verdict, Contract, Observation, StateBinding,
  RunEvidence, ControlledSource, Executed,
}
use chip_chain_v.Verifier.Judge.{
  Status_eq, final_status, FinalStatus, verified_controlled_type2_chain, trigger_contradicted,
  deviation_contradicted, unknown_chain,
}
use chip_chain_v.Verifier.Access.{operation_eq, capability_transactions}
use chip_chain_v.Verifier.Deviation.{Finding, verify_deviation}
use chip_chain_v.Verifier.Reference.{Control, verify_control}
use chip_chain_v.Verifier.Trigger.{commands, Judged, TriggerVerification, verify_trigger}
use chip_chain_v.Verifier.Scope.{ref_tree, var_tree}

unfoldable pub command_of :
    Contract → Option StateBinding → List Judged → Result (Option Observation)
unfolding commands
command_of contract none js = ok none
command_of contract (some b) js = do
  found ← commands b js contract.trigger
  ok (elim (only found) [ none ↦ none | some x ↦ some x.observation ])

-- `paired`
unfoldable pub is_paired : RunEvidence → RunEvidence → Bool
is_paired target reference =
    target.joint_run.firmware_sha256 == reference.joint_run.firmware_sha256
    && target.joint_run.input_sha256 == reference.joint_run.input_sha256
    && target.joint_run.execution_context_sha256 == reference.joint_run.execution_context_sha256
    && target.map_id == reference.map_id
    && reference.joint_run.rtl_tree_sha256 == ref_tree
    && target.joint_run.rtl_tree_sha256 == var_tree

unfoldable pub same_behavior : Observation → Observation → Bool
same_behavior a b =
    operation_eq a.operation b.operation
    && a.address == b.address
    && a.width_bits == b.width_bits
    && option_eq a.write_value b.write_value
    && a.reset_epoch == b.reset_epoch

unfoldable pub same_behaviors : List Executed → List Executed → Bool
unfolding same_behavior
same_behaviors [] [] = true
same_behaviors (x ∷ xs) (y ∷ ys) = same_behavior x.observation y.observation && same_behaviors xs ys
same_behaviors _ _ = false

-- The executed accesses in the order of their requests.
unfoldable pub behavior : RunEvidence → List Executed
unfolding capability_transactions
behavior run = sorted_by (λ x. x.observation.request_cycle) (capability_transactions run)

-- `diff_ok` where a reference and the controlled source are given.
unfoldable pub differs_in_hardware : RunEvidence → RunEvidence → Status → Finding → Control → Bool
unfolding is_paired same_behaviors behavior
differs_in_hardware target reference trigger found control =
    is_paired target reference
    && same_behaviors (behavior target) (behavior reference)
    && trigger == supported
    && found.deviation.status == supported
    && control.trigger_status == supported
    && control.expected_behavior_status == supported
    && (elim control.deviation_observed [ some false ↦ true | _ ↦ false ])
    && found.observation.status == supported

-- `ControlledDifferentialVerification`
pub record Differential : Type 0 where
  pub status : Status
  pub evidence_ids : List String
  pub reason_code : String
  pub missing_requirements : List String
  pub source_proof_id : Option String

-- With the validator `evidence_for_support`.
unfoldable pub check_differential : Differential → Result Differential
check_differential d = do
  require (not (d.status == supported) || (is_nonempty d.evidence_ids && is_some d.source_proof_id))
      "DIFFERENTIAL_WITHOUT_PROOF"
  ok d

abbrev proof_id : Option ControlledSource → Option String
proof_id none = none
proof_id (some s) = some s.source_id

-- The record where `diff_ok` is false.
abbrev pub no_difference : Option ControlledSource → Differential
no_difference source = record {
  status = unknown;
  evidence_ids = [];
  reason_code = "DIFFERENTIAL_REQUIREMENTS_MISSING";
  missing_requirements =
      "same_input_context_map" ∷ "source_delta" ∷ "reference_expected" ∷ "target_deviation" ∷ [];
  source_proof_id = proof_id source;
}

unfoldable pub verify_differential :
    RunEvidence
    → Option RunEvidence
    → Option ControlledSource
    → Status
    → Finding
    → Control
    → Result Differential
unfolding differs_in_hardware check_differential
verify_differential target (some reference) (some source) trigger found control =
    if differs_in_hardware target reference trigger found control
    then check_differential (record {
      status = supported;
      evidence_ids = sorted_set (
          target.joint_run.joint_run_id ∷ reference.joint_run.joint_run_id ∷ source.source_id
            ∷ found.observation.evidence_ids
          ++ control.evidence_ids);
      reason_code = "PINNED_CONTROLLED_REFERENCE_VARIANT_DIFFERENCE";
      missing_requirements = [];
      source_proof_id = some source.source_id;
    })
    else check_differential (no_difference (some source))
verify_differential target _ source trigger found control =
    check_differential (no_difference source)

-- `Type2VerificationResult`
pub record VerificationResult : Type 0 where
  pub contract_id : String
  pub target_joint_run_id : String
  pub capability_ids : List String
  pub trigger : TriggerVerification
  pub deviation : Verdict
  pub observation : Verdict
  pub reference_control : Control
  pub differential : Differential
  pub final_status : FinalStatus

-- The validator `final_gate`: what a result must show for its final status.
unfoldable pub gate_open : FinalStatus → VerificationResult → Bool
gate_open verified_controlled_type2_chain r =
    all (λ s. s == supported)
      (r.trigger.status ∷ r.deviation.status ∷ r.observation.status ∷ r.differential.status
        ∷ r.reference_control.trigger_status ∷ r.reference_control.expected_behavior_status ∷ [])
    && (elim r.reference_control.deviation_observed [ some false ↦ true | _ ↦ false ])
gate_open trigger_contradicted r = r.trigger.status == contradicted
gate_open deviation_contradicted r =
    r.trigger.status == supported
    && r.deviation.status == contradicted
    && r.observation.status == supported
gate_open unknown_chain r = true

abbrev gate_reason : FinalStatus → String
gate_reason verified_controlled_type2_chain = "POSITIVE_GATE_INCOMPLETE"
gate_reason trigger_contradicted = "TRIGGER_NEGATIVE_GATE"
gate_reason _ = "DEVIATION_NEGATIVE_GATE"

unfoldable pub final_gate : VerificationResult → Result VerificationResult
unfolding gate_open
final_gate r = do require (gate_open r.final_status r) (gate_reason r.final_status); ok r

unfoldable pub verify_type2 :
    Contract
    → RunEvidence
    → Option RunEvidence
    → Option StateBinding
    → Option ControlledSource
    → Result VerificationResult
unfolding command_of verify_differential final_gate
verify_type2 contract target reference state_binding source = do
  trigger ← verify_trigger contract target state_binding source (capability_transactions target)
  command ← command_of contract state_binding trigger.judged
  found ← verify_deviation contract target state_binding source trigger.scope command
  control ← verify_control contract reference state_binding source command
  diff ← verify_differential target reference source trigger.status found control
  final_gate (record {
    contract_id = contract.contract_id;
    target_joint_run_id = target.joint_run.joint_run_id;
    capability_ids = sorted_texts (map (λ c. c.capability_id) target.capabilities);
    trigger = trigger;
    deviation = found.deviation;
    observation = found.observation;
    reference_control = control;
    differential = diff;
    final_status =
        final_status trigger.status found.deviation.status found.observation.status diff.status;
  })
