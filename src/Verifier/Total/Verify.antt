-- ===== src/Verifier/Total/Verify.antt =====
-- `verify_type2` returns a result, and what its final status says.
use chip_chain_v.Prelude.{
  Returns, Returns->>=, ap, ◌≡◌, refl, sym, ◌∙◌, true, false, String_eq, Option, none, some, [],
  ◌∷◌, ◌++◌, all, is_nonempty, is_some, ok, ok-injective, Bool-cases, inl, inr, arith, sorted_set,
  sorted_set_nonempty,
}
use chip_chain_v.Verifier.Data.{
  Status, supported, contradicted, Contract, StateBinding, RunEvidence, ControlledSource,
}
use chip_chain_v.Verifier.Judge.{
  Status_eq, final_status, FinalStatus, verified_controlled_type2_chain, trigger_contradicted,
  deviation_contradicted, unknown_chain,
}
use chip_chain_v.Verifier.Access.{capability_transactions}
use chip_chain_v.Verifier.Trigger.{verify_trigger}
use chip_chain_v.Verifier.Deviation.{Finding, verify_deviation}
use chip_chain_v.Verifier.Reference.{Control, verify_control}
use chip_chain_v.Verifier.Verify.{
  is_paired, behavior, same_behaviors, command_of, differs_in_hardware, Differential,
  check_differential, no_difference, verify_differential, VerificationResult, gate_open, final_gate,
  verify_type2,
}
use chip_chain_v.Verifier.Total.Trigger.{has_no_csr, verify_trigger-Returns}
use chip_chain_v.Verifier.Total.Finding.{command_of-Returns, verify_deviation-Returns}
use chip_chain_v.Verifier.Total.Control.{has_values, verify_control-Returns}

-- The comparison of the two runs, where they are given with the source.
pub record Compared (target : RunEvidence) (reference : Option RunEvidence)
    (source : Option ControlledSource) (trigger : Status) (found : Finding) (control : Control)
    : Type 0 where
  pub run : RunEvidence
  pub proof : ControlledSource
  pub run_given : reference ≡ some run
  pub proof_given : source ≡ some proof
  pub differs : differs_in_hardware target run trigger found control ≡ true

unproved-Returns :
    (source : Option ControlledSource)
    → check_differential (no_difference source) ≡ ok (no_difference source)
unfolding check_differential
unproved-Returns source = refl

check_differential-Returns :
    (d : Differential)
    → is_nonempty d.evidence_ids ≡ true
    → is_some d.source_proof_id ≡ true
    → check_differential d ≡ ok d
unfolding check_differential
check_differential-Returns d p q = ground arith

-- The differential judgement returns, and it supports only what was compared.
pub verify_differential-Returns :
    (target : RunEvidence) (reference : Option RunEvidence) (source : Option ControlledSource)
    (trigger : Status) (found : Finding) (control : Control)
    → (d : Differential) × (verify_differential target reference source trigger found control
        ≡ ok d)
      × (d.status ≡ supported → Compared target reference source trigger found control)
unfolding verify_differential
verify_differential-Returns target none source trigger found control =
    (no_difference source, unproved-Returns source, λ h. cc)
verify_differential-Returns target (some run) none trigger found control =
    (no_difference none, unproved-Returns none, λ h. cc)
verify_differential-Returns target (some run) (some s) trigger found control =
    elim (Bool-cases (differs_in_hardware target run trigger found control)) [
      | inl good ↦
          let d : Differential = record {
            status = supported;
            evidence_ids = sorted_set (
                target.joint_run.joint_run_id ∷ run.joint_run.joint_run_id ∷ s.source_id
                  ∷ found.observation.evidence_ids
                ++ control.evidence_ids);
            reason_code = "PINNED_CONTROLLED_REFERENCE_VARIANT_DIFFERENCE";
            missing_requirements = [];
            source_proof_id = some s.source_id;
          } in
          (
            d,
            simp good (
                check_differential-Returns d
                  (sorted_set_nonempty
                    (target.joint_run.joint_run_id ∷ run.joint_run.joint_run_id ∷ s.source_id
                        ∷ found.observation.evidence_ids
                      ++ control.evidence_ids)
                    refl)
                  refl),
            λ h. record {
              run = run;
              proof = s;
              run_given = refl;
              proof_given = refl;
              differs = good;
            },
          )
      | inr bad ↦ (no_difference (some s), simp bad (unproved-Returns (some s)), λ h. cc)
    ]

-- What each final status needs.
pub final_status-verified :
    (t d o x : Status)
    → final_status t d o x ≡ verified_controlled_type2_chain
    → (t ≡ supported) × (d ≡ supported) × (o ≡ supported) × (x ≡ supported)
unfolding final_status
final_status-verified t d o x h = ground arith

final_status-trigger :
    (t d o x : Status) → final_status t d o x ≡ trigger_contradicted → t ≡ contradicted
unfolding final_status
final_status-trigger t d o x h = ground arith

final_status-deviation :
    (t d o x : Status)
    → final_status t d o x ≡ deviation_contradicted
    → (t ≡ supported) × (d ≡ contradicted) × (o ≡ supported)
unfolding final_status
final_status-deviation t d o x h = ground arith

-- The reference control shows the expected behavior and no deviation.
pub record IsClean (c : Control) : Type 0 where
  pub triggered : c.trigger_status ≡ supported
  pub expected : c.expected_behavior_status ≡ supported
  pub undeviating : c.deviation_observed ≡ some false

-- What the comparison of the two runs tests.
pub differs_in_hardware-eq-true :
    (target run : RunEvidence) (trigger : Status) (found : Finding) (control : Control)
    → differs_in_hardware target run trigger found control ≡ true
    → (is_paired target run ≡ true)
      × (same_behaviors (behavior target) (behavior run) ≡ true)
      × IsClean control
unfolding differs_in_hardware
differs_in_hardware-eq-true target run trigger found control h = (
  ground arith,
  ground arith,
  record { triggered = ground arith; expected = ground arith; undeviating = ground arith },
)

gate_open-true :
    (f : FinalStatus) (r : VerificationResult)
    → final_status r.trigger.status r.deviation.status r.observation.status r.differential.status
      ≡ f
    → (r.differential.status ≡ supported → IsClean r.reference_control)
    → gate_open f r ≡ true
unfolding gate_open
gate_open-true verified_controlled_type2_chain r h clean =
    let (t, d, o, x) =
      final_status-verified r.trigger.status r.deviation.status r.observation.status
        r.differential.status h in
    let k = clean x in simp (t, d, o, x, k.triggered, k.expected, k.undeviating)
gate_open-true trigger_contradicted r h clean = simp (
    final_status-trigger r.trigger.status r.deviation.status r.observation.status
      r.differential.status h)
gate_open-true deviation_contradicted r h clean =
    let (t, d, o) =
      final_status-deviation r.trigger.status r.deviation.status r.observation.status
        r.differential.status h in
    simp (t, d, o)
gate_open-true unknown_chain r h clean = refl

final_gate-Returns :
    (r : VerificationResult)
    → final_status r.trigger.status r.deviation.status r.observation.status r.differential.status
      ≡ r.final_status
    → (r.differential.status ≡ supported → IsClean r.reference_control)
    → Returns (final_gate r)
unfolding final_gate
final_gate-Returns r h clean = (r, simp (gate_open-true r.final_status r h clean))

module _ (c : Contract) (target : RunEvidence) (reference : Option RunEvidence)
    (b : Option StateBinding) (s : Option ControlledSource) where
  -- Where no trigger requirement has a CSR atom and every deviation states an expected and a
  -- deviating value, the verification returns a result: no check of an intermediate record, and not
  -- the gate of the result, ever rejects.
  pub verify_type2-Returns :
      all has_no_csr c.trigger ≡ true
      → all has_values c.deviation ≡ true
      → (r : VerificationResult) × (verify_type2 c target reference b s ≡ ok r)
  unfolding verify_type2
  verify_type2-Returns addressed valued =
      Returns->>= (verify_trigger c target b s (capability_transactions target)) _
        (verify_trigger-Returns c target b s (capability_transactions target) addressed)
        (λ trigger h1.
          Returns->>= (command_of c b trigger.judged) _
            (command_of-Returns c b trigger.judged addressed)
            (λ command h2.
              Returns->>= (verify_deviation c target b s trigger.scope command) _
                (verify_deviation-Returns c target b s trigger.scope command)
                (λ found h3.
                  Returns->>= (verify_control c reference b s command) _
                    (verify_control-Returns c reference b s command valued)
                    (λ control h4.
                      let (diff, h5, compared) =
                        verify_differential-Returns target reference s trigger.status found
                          control in
                      Returns->>=
                        (verify_differential target reference s trigger.status found control) _
                        (diff, h5)
                        (λ diff' h6. final_gate-Returns _ refl (λ k.
                          let same = ok-injective (sym h5 ∙ h6) in
                          let g = compared (ap (λ x. x.status) same ∙ k) in
                          (differs_in_hardware-eq-true target g.run trigger.status found control
                            g.differs).2))))))
