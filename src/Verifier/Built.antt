-- ===== src/Verifier/Built.antt =====
-- The records that `verify_type2` builds its result from.
use chip_chain_v.Prelude.{
  traverse, ◌≡◌, refl, subst, Option, ok, >>=-eq-ok, require-eq-ok, ok-injective, List, ◌∷◌, ◌++◌,
  if◌then◌else◌, ◌==◌,
}
use chip_chain_v.Verifier.Data.{
  Contract, StateBinding, RunEvidence, ControlledSource, Observation, Verdict, supported, unknown,
}
use chip_chain_v.Verifier.Judge.{final_status, aggregate, Status_eq}
use chip_chain_v.Verifier.Access.{capability_transactions}
use chip_chain_v.Verifier.Trigger.{
  TriggerVerification, verify_trigger, judge_accesses, judge_orders, judge_precondition,
  verdict_for, Judged,
}
use chip_chain_v.Verifier.Scope.{scope_verdict}
use chip_chain_v.Verifier.Deviation.{Finding, verify_deviation}
use chip_chain_v.Verifier.Reference.{verify_control}
use chip_chain_v.Verifier.Verify.{
  command_of, verify_differential, VerificationResult, gate_open, final_gate, verify_type2,
}

module _ (c : Contract) (target : RunEvidence) (reference : Option RunEvidence)
    (b : Option StateBinding) (s : Option ControlledSource) where
  -- The records that a result was built from.
  pub record Built (r : VerificationResult) : Type 0 where
    pub command : Option Observation
    pub found : Finding
    pub triggered : verify_trigger c target b s (capability_transactions target) ≡ ok r.trigger
    pub selected : command_of c b r.trigger.judged ≡ ok command
    pub judged : verify_deviation c target b s r.trigger.scope command ≡ ok found
    pub controlled : verify_control c reference b s command ≡ ok r.reference_control
    pub compared :
        verify_differential target reference s r.trigger.status found r.reference_control
        ≡ ok r.differential
    pub deviation_kept : r.deviation ≡ found.deviation
    pub observation_kept : r.observation ≡ found.observation
    pub final :
        r.final_status
        ≡ final_status r.trigger.status r.deviation.status r.observation.status
            r.differential.status

  final_gate-eq-ok : (x : VerificationResult) {r : VerificationResult} → final_gate x ≡ ok r → x ≡ r
  unfolding final_gate
  final_gate-eq-ok x h = ok-injective (require-eq-ok (gate_open x.final_status x) _ (ok x) h).1

  pub verify_type2-Built :
      (r : VerificationResult) → verify_type2 c target reference b s ≡ ok r → Built r
  unfolding verify_type2
  verify_type2-Built r h =
      let (trigger, h1, k1) =
        >>=-eq-ok (verify_trigger c target b s (capability_transactions target)) _ h in
      let (command, h2, k2) = >>=-eq-ok (command_of c b trigger.judged) _ k1 in
      let (found, h3, k3) = >>=-eq-ok (verify_deviation c target b s trigger.scope command) _ k2 in
      let (control, h4, k4) = >>=-eq-ok (verify_control c reference b s command) _ k3 in
      let (diff, h5, k5) =
        >>=-eq-ok (verify_differential target reference s trigger.status found control) _ k4 in
      subst Built (final_gate-eq-ok _ k5) (record {
        command = command;
        found = found;
        triggered = h1;
        selected = h2;
        judged = h3;
        controlled = h4;
        compared = h5;
        deviation_kept = refl;
        observation_kept = refl;
        final = refl;
      })

  -- The same for the trigger.
  pub record TriggerBuilt (t : TriggerVerification) : Type 0 where
    pub required : List Verdict
    pub orders : List Judged
    pub scoped : scope_verdict c target b s ≡ ok t.scope
    pub accessed : judge_accesses target (capability_transactions target) c.trigger ≡ ok t.judged
    pub conditions : t.conditions ≡ t.scope ∷ required
    pub final : t.status ≡ (if t.scope.status == supported then aggregate t.conditions else unknown)

  pub verify_trigger-TriggerBuilt :
      (t : TriggerVerification)
      → verify_trigger c target b s (capability_transactions target) ≡ ok t
      → TriggerBuilt t
  unfolding verify_trigger
  verify_trigger-TriggerBuilt t h =
      let (scope, h1, k1) = >>=-eq-ok (scope_verdict c target b s) _ h in
      let (accesses, h2, k2) =
        >>=-eq-ok (judge_accesses target (capability_transactions target) c.trigger) _ k1 in
      let (orders, h3, k3) = >>=-eq-ok (judge_orders target accesses c.trigger) _ k2 in
      let (pres, h4, k4) =
        >>=-eq-ok (traverse (judge_precondition c target b s accesses) c.preconditions) _ k3 in
      let (required, h5, k5) =
        >>=-eq-ok (traverse (verdict_for (accesses ++ orders)) c.trigger) _ k4 in
      subst TriggerBuilt (ok-injective k5) (record {
        required = required ++ pres;
        orders = orders;
        scoped = h1;
        accessed = h2;
        conditions = refl;
        final = refl;
      })
