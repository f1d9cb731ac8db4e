-- ===== src/Verifier/Sound.antt =====
-- What a result of `verify_type2` with a positive final status rests on.
use chip_chain_v.Prelude.{
  ℕ_eq, ◌≡◌, refl, sym, ◌∙◌, ap, true, false, ◌&&◌, ◌==◌, String_eq, Option, none, some, List, [],
  ◌∷◌, All, ok, ok-injective, Bool-cases, inl, inr, arith,
}
use chip_chain_v.Verifier.Data.{
  Status, supported, unknown, Verdict, Contract, StateBinding, RunEvidence, ControlledSource,
}
use chip_chain_v.Verifier.Judge.{
  Status_eq, status_beq_iff, aggregate, final_status, verified_controlled_type2_chain,
  unknown_chain,
}
use chip_chain_v.Verifier.Access.{capability_transactions}
use chip_chain_v.Verifier.Trigger.{TriggerVerification, verify_trigger}
use chip_chain_v.Verifier.Scope.{scope_ok, source_ok, scope_verdict}
use chip_chain_v.Verifier.Verify.{
  is_paired, behavior, same_behaviors, VerificationResult, verify_type2,
}
use chip_chain_v.Verifier.Total.{condition-eq-ok}
use chip_chain_v.Verifier.Total.Verify.{
  IsClean, verify_differential-Returns, final_status-verified, differs_in_hardware-eq-true,
}
use chip_chain_v.Verifier.Built.{verify_type2-Built, verify_trigger-TriggerBuilt}

abbrev pub AllSupported : List Verdict → Type 0
AllSupported = All (λ v. v.status ≡ supported)

aggregate-supported : (vs : List Verdict) → aggregate vs ≡ supported → AllSupported vs
unfolding aggregate
aggregate-supported [] h = tt
aggregate-supported (v ∷ vs) h = (ground arith, aggregate-supported vs (ground arith))

scope_verdict-supported :
    (c : Contract) (run : RunEvidence) (b : Option StateBinding) (s : Option ControlledSource)
    {v : Verdict}
    → scope_verdict c run b s ≡ ok v
    → v.status ≡ supported
    → (scope_ok c run b && source_ok c b s) ≡ true
unfolding scope_verdict
scope_verdict-supported c run b s h k = elim (Bool-cases (scope_ok c run b && source_ok c b s)) [
  | inl good ↦ good
  | inr bad ↦ cc (sym k ∙ (condition-eq-ok _ _ _ _ _ (simp bad at h)).0)
]

source_ok-binding :
    (c : Contract) (b : Option StateBinding) (s : Option ControlledSource)
    → source_ok c b s ≡ true
    → (binding : StateBinding) × (b ≡ some binding)
unfolding source_ok
source_ok-binding c none s h = cc
source_ok-binding c (some b) s h = (b, refl)

-- What a verified chain needs.
pub record IsEstablished (c : Contract) (target : RunEvidence) (reference : Option RunEvidence)
    (b : Option StateBinding) (s : Option ControlledSource) (r : VerificationResult) : Type 0 where
  pub run : RunEvidence
  pub binding : StateBinding
  pub proof : ControlledSource
  pub run_given : reference ≡ some run
  pub binding_given : b ≡ some binding
  pub proof_given : s ≡ some proof
  pub scoped : scope_ok c target b ≡ true
  pub sourced : source_ok c b s ≡ true
  pub conditions : AllSupported r.trigger.conditions
  pub paired : is_paired target run ≡ true
  pub alike : same_behaviors (behavior target) (behavior run) ≡ true
  pub clean : IsClean r.reference_control
  pub observed : r.observation.status ≡ supported
  pub deviates : r.deviation.status ≡ supported

trigger-supported :
    (c : Contract) (target : RunEvidence) (b : Option StateBinding) (s : Option ControlledSource)
    (t : TriggerVerification)
    → verify_trigger c target b s (capability_transactions target) ≡ ok t
    → t.status ≡ supported
    → (t.scope.status ≡ supported) × AllSupported t.conditions
trigger-supported c target b s t h k =
    let built = verify_trigger-TriggerBuilt c target none b s t h in
    elim (Bool-cases (t.scope.status == supported)) [
      | inl good ↦
          let same : t.status ≡ aggregate t.conditions = built.final ∙ simp good in
          (
            (status_beq_iff t.scope.status supported).0 good,
            aggregate-supported t.conditions (sym same ∙ k),
          )
      | inr bad ↦ let same : t.status ≡ unknown = built.final ∙ simp bad in cc (sym same ∙ k)
    ]

final_status-unknown : (t d o x : Status) → t ≡ unknown → final_status t d o x ≡ unknown_chain
unfolding final_status
final_status-unknown t d o x h = ground arith

module _ (c : Contract) (target : RunEvidence) (reference : Option RunEvidence)
    (b : Option StateBinding) (s : Option ControlledSource) (r : VerificationResult)
    (returned : verify_type2 c target reference b s ≡ ok r) where
  -- A result with a verified chain was reached with a reference run, a state binding and a
  -- controlled source; the scope and the source of the contract hold of the target, every trigger
  -- condition is supported, the two runs have the same firmware, input, context and map on the two
  -- pinned hardware trees and executed the same accesses in the same order, the reference executed
  -- the trigger and showed the expected value and no deviation, and the target's status was
  -- observed and deviates.
  pub verified-IsEstablished :
      r.final_status ≡ verified_controlled_type2_chain → IsEstablished c target reference b s r
  verified-IsEstablished verified =
      let built = verify_type2-Built c target reference b s r returned in
      let (t, d, o, x) =
        final_status-verified r.trigger.status r.deviation.status r.observation.status
          r.differential.status (sym built.final ∙ verified) in
      let (diff, differential, compared) =
        verify_differential-Returns target reference s r.trigger.status built.found
          r.reference_control in
      let g =
        compared (ap (λ y. y.status) (ok-injective (sym differential ∙ built.compared)) ∙ x) in
      let (paired, alike, clean) =
        differs_in_hardware-eq-true target g.run r.trigger.status built.found r.reference_control
          g.differs in
      let (scope, conditions) = trigger-supported c target b s r.trigger built.triggered t in
      let both =
        scope_verdict-supported c target b s
          (verify_trigger-TriggerBuilt c target reference b s r.trigger built.triggered).scoped
          scope in
      let (binding, bound) = source_ok-binding c b s (ground arith) in
      record {
        run = g.run;
        binding = binding;
        proof = g.proof;
        run_given = g.run_given;
        binding_given = bound;
        proof_given = g.proof_given;
        scoped = ground arith;
        sourced = ground arith;
        conditions = conditions;
        paired = paired;
        alike = alike;
        clean = clean;
        observed = o;
        deviates = d;
      }

  -- Where the contract does not apply to the target or its source is not established, the result
  -- claims nothing: its final status is unknown, whatever the runs show.
  pub unscoped-unknown :
      (scope_ok c target b && source_ok c b s) ≡ false → r.final_status ≡ unknown_chain
  unscoped-unknown outside =
      let built = verify_type2-Built c target reference b s r returned in
      let t = verify_trigger-TriggerBuilt c target reference b s r.trigger built.triggered in
      let undecided : (r.trigger.scope.status == supported) ≡ false =
        elim (Bool-cases (r.trigger.scope.status == supported)) [
          | inl good ↦ cc (
              sym outside
              ∙ scope_verdict-supported c target b s t.scoped
                  ((status_beq_iff r.trigger.scope.status supported).0 good))
          | inr bad ↦ bad
        ] in
      built.final
      ∙ final_status-unknown r.trigger.status r.deviation.status r.observation.status
          r.differential.status (t.final ∙ simp undecided)
