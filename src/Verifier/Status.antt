-- ===== src/Verifier/Status.antt =====
-- The status value behind a supported deviation.
use chip_chain_v.Prelude.{
  ℕ, ℕ_eq, ◌≡◌, refl, sym, ◌∙◌, ap, ◌&&◌, ◌==◌, String_eq, String, option_eq, Option, none, some,
  List, [], ok, >>=-eq-ok, ok-injective, Bool-cases, Option-cases, inl, inr, arith, only,
}
use chip_chain_v.Trace.{Event}
use chip_chain_v.Verifier.Data.{
  supported, unknown, Verdict, Contract, StateBinding, RunEvidence, ControlledSource, Observation,
  Deviation, ObservationRequirement,
}
use chip_chain_v.Verifier.Judge.{Status_eq, condition, deviation_value}
use chip_chain_v.Verifier.State.{
  Sampling, compare_sample, sample_at_command, sample_read, is_executed, update_samples, linked,
  later_reads,
}
use chip_chain_v.Verifier.Trigger.{first_value, operands_of}
use chip_chain_v.Verifier.Scope.{source_ok}
use chip_chain_v.Verifier.Deviation.{
  Finding, verify_deviation, judge_status, judge_sample, judge_read, judge_value, unreliable,
  unspecified, is_specified,
}
use chip_chain_v.Verifier.Verify.{VerificationResult, verify_type2, command_of}
use chip_chain_v.Verifier.Total.{condition-eq-ok}
use chip_chain_v.Verifier.Built.{verify_type2-Built}

-- The command's cycle has one status sample, the status register is read once after the command,
-- and both show the value.
pub record Shows (run : RunEvidence) (address : ℕ) (command : Observation) (value : ℕ)
    : Type 0 where
  pub reading : Observation
  pub sample : Event
  pub only_reading : only (later_reads run address command) ≡ some reading
  pub only_sample : only (update_samples run.parsed command) ≡ some sample
  pub read_it : reading.read_value ≡ some value
  pub sampled_it : sample.status_value ≡ value

compare_sample-value :
    (run : RunEvidence) (o : Observation) (e : Event) {v : ℕ}
    → (compare_sample run o e).value ≡ some v
    → (o.read_value ≡ some v) × (e.status_value ≡ v)
unfolding compare_sample
compare_sample-value run o e {v} h = elim (Option-cases o.read_value) [
  | inl missing ↦ cc (simp missing at h)
  | inr (w, found) ↦ rw found (ground arith)
]

-- A sampled value was shown.
pub sample_read-Shows :
    (run : RunEvidence) (address : ℕ) (command : Observation) (v : ℕ)
    → (sample_read run address command).value ≡ some v
    → Shows run address command v
unfolding sample_read sample_at_command
sample_read-Shows run address command v h = elim (Bool-cases (linked run)) [
  | inr bad ↦ cc (simp bad at h)
  | inl good ↦ (elim (Option-cases (only (later_reads run address command))) [
    | inl missing ↦ cc (simp (good, missing) at h)
    | inr (o, read) ↦ (elim (Bool-cases (is_executed run o)) [
      | inr unbound ↦ cc (simp (good, read, unbound) at h)
      | inl bound ↦ (elim (Option-cases (only (update_samples run.parsed command))) [
        | inl missing ↦ cc (simp (good, read, bound, missing) at h)
        | inr (e, sampled) ↦
            let (p, q) = compare_sample-value run o e (simp (good, read, bound, sampled) at h) in
            record {
              reading = o;
              sample = e;
              only_reading = read;
              only_sample = sampled;
              read_it = p;
              sampled_it = q;
            }
      ])
    ])
  ])
]

module _ (d : Deviation) (o : ObservationRequirement) where
  unreliable-unknown :
      (s : Sampling) {f : Finding} → unreliable d o s ≡ ok f → f.deviation.status ≡ unknown
  unfolding unreliable
  unreliable-unknown s h =
      let (obs, h1, k1) = >>=-eq-ok (condition o.condition_id unknown s.reason s.evidence _) _ h in
      let (dev, h2, k2) = >>=-eq-ok (condition d.condition_id unknown s.reason s.evidence _) _ k1 in
      ap (λ f. f.deviation.status) (sym (ok-injective k2)) ∙ (condition-eq-ok _ _ _ _ _ h2).0

  judge_value-status :
      (evidence : List String) (value expected deviating : ℕ) {f : Finding}
      → judge_value d o evidence value expected deviating ≡ ok f
      → f.deviation.status ≡ deviation_value value expected deviating
  unfolding judge_value
  judge_value-status evidence value expected deviating h =
      let (obs, h1, k1) =
        >>=-eq-ok (condition o.condition_id supported "INTERNAL_AND_BUS_STATUS_AGREE" evidence _) _
          h in
      let (dev, h2, k2) =
        >>=-eq-ok (condition d.condition_id (deviation_value value expected deviating) _ evidence _)
          _ k1 in
      ap (λ f. f.deviation.status) (sym (ok-injective k2)) ∙ (condition-eq-ok _ _ _ _ _ h2).0

  deviation_value-supported :
      (value expected deviating : ℕ)
      → deviation_value value expected deviating ≡ supported
      → value ≡ deviating
  unfolding deviation_value
  deviation_value-supported value expected deviating h = ground arith

  judge_read-supported :
      (s : Sampling) (value : ℕ) (expected deviating : Option ℕ) {f : Finding}
      → judge_read d o s value expected deviating ≡ ok f
      → f.deviation.status ≡ supported
      → deviating ≡ some value
  unfolding judge_read
  judge_read-supported s value (some x) (some y) h k =
      elim (Bool-cases (
        option_eq (first_value (operands_of o.expected_observation)) (some x)
        && option_eq (first_value (operands_of o.deviation_observation)) (some y)
        && s.reason == "SAMPLE_READ_AGREE")) [
          | inl good ↦ ap some (
              sym (
                deviation_value-supported value x y
                  (sym (judge_value-status s.evidence value x y (simp good at h)) ∙ k)))
          | inr bad ↦ cc (sym k ∙ unreliable-unknown s (simp bad at h))
        ]
  judge_read-supported s value none y h k = cc (sym k ∙ unreliable-unknown s h)
  judge_read-supported s value (some x) none h k = cc (sym k ∙ unreliable-unknown s h)

  -- The cases on the value that was sampled.
  valued-supported :
      (s : Sampling) (value : Option ℕ) {f : Finding}
      → (elim value [
        | none ↦ unreliable d o s
        | some v ↦
            judge_read d o s v
              (first_value (operands_of d.expected_behavior))
              (first_value (operands_of d.deviating_behavior))
      ])
        ≡ ok f
      → f.deviation.status ≡ supported
      → (v : ℕ) × (value ≡ some v) × (first_value (operands_of d.deviating_behavior) ≡ some v)
  valued-supported s none h k = cc (sym k ∙ unreliable-unknown s h)
  valued-supported s (some v) h k = (
    v,
    refl,
    judge_read-supported s v (first_value (operands_of d.expected_behavior))
        (first_value (operands_of d.deviating_behavior)) h k,
  )

  judge_sample-supported :
      (s : Sampling) {f : Finding}
      → judge_sample d o s ≡ ok f
      → f.deviation.status ≡ supported
      → (v : ℕ) × (s.value ≡ some v) × (first_value (operands_of d.deviating_behavior) ≡ some v)
  unfolding judge_sample
  judge_sample-supported s h k = valued-supported s s.value h k

unspecified-unknown :
    (d : Option Deviation) (o : Option ObservationRequirement) {f : Finding}
    → unspecified d o ≡ ok f
    → f.deviation.status ≡ unknown
unfolding unspecified
unspecified-unknown d o h =
    let (obs, h1, k1) = >>=-eq-ok (condition _ unknown "OBSERVATION_SPEC_INCOMPLETE" [] _) _ h in
    let (dev, h2, k2) = >>=-eq-ok (condition _ unknown "DEVIATION_SPEC_INCOMPLETE" [] _) _ k1 in
    ap (λ f. f.deviation.status) (sym (ok-injective k2)) ∙ (condition-eq-ok _ _ _ _ _ h2).0

-- What a supported deviation was judged on.
pub record IsDeviating (c : Contract) (target : RunEvidence) (b : Option StateBinding)
    (command : Option Observation) : Type 0 where
  pub binding : StateBinding
  pub triggering : Observation
  pub requirement : Deviation
  pub value : ℕ
  pub binding_given : b ≡ some binding
  pub command_found : command ≡ some triggering
  pub only_requirement : only c.deviation ≡ some requirement
  pub formalized : first_value (operands_of requirement.deviating_behavior) ≡ some value
  pub shown : Shows target binding.status_address triggering value

judge_status-IsDeviating :
    (c : Contract) (target : RunEvidence) (b : StateBinding) (s : Option ControlledSource)
    (scope : Verdict) (command : Observation) (d : Option Deviation)
    (o : Option ObservationRequirement) {f : Finding}
    → judge_status c target b s scope command d o ≡ ok f
    → only c.deviation ≡ d
    → f.deviation.status ≡ supported
    → IsDeviating c target (some b) (some command)
unfolding judge_status
judge_status-IsDeviating c target b s scope command (some d) (some o) h e k =
    elim (Bool-cases (scope.status == supported && source_ok c (some b) s && is_specified b d o)) [
      | inl good ↦
          let (v, sampled, formal) =
            judge_sample-supported d o (sample_read target b.status_address command)
              (simp good at h) k in
          record {
            binding = b;
            triggering = command;
            requirement = d;
            value = v;
            binding_given = refl;
            command_found = refl;
            only_requirement = e;
            formalized = formal;
            shown = sample_read-Shows target b.status_address command v sampled;
          }
      | inr bad ↦ cc (sym k ∙ unspecified-unknown (some d) (some o) (simp bad at h))
    ]
judge_status-IsDeviating c target b s scope command none o h e k =
    cc (sym k ∙ unspecified-unknown none o h)
judge_status-IsDeviating c target b s scope command (some d) none h e k =
    cc (sym k ∙ unspecified-unknown (some d) none h)

verify_deviation-IsDeviating :
    (c : Contract) (target : RunEvidence) (b : Option StateBinding) (s : Option ControlledSource)
    (scope : Verdict) (command : Option Observation) {f : Finding}
    → verify_deviation c target b s scope command ≡ ok f
    → f.deviation.status ≡ supported
    → IsDeviating c target b command
unfolding verify_deviation
verify_deviation-IsDeviating c target (some b) s scope (some command) h k =
    judge_status-IsDeviating c target b s scope command (only c.deviation) (only c.observation) h
      refl k
verify_deviation-IsDeviating c target none s scope command h k =
    cc (sym k ∙ unspecified-unknown (only c.deviation) (only c.observation) h)
verify_deviation-IsDeviating c target (some b) s scope none h k =
    cc (sym k ∙ unspecified-unknown (only c.deviation) (only c.observation) h)

-- A result whose deviation is supported, verified chain or not, selected one command from the
-- executed accesses; the only deviation of the contract states a deviating value, and both the only
-- status sample in the cycle of the command and the only later read of the status register on the
-- bus show this value.
pub supported-IsDeviating :
    (c : Contract) (target : RunEvidence) (reference : Option RunEvidence) (b : Option StateBinding)
    (s : Option ControlledSource) (r : VerificationResult)
    → verify_type2 c target reference b s ≡ ok r
    → r.deviation.status ≡ supported
    → (command : Option Observation) × (command_of c b r.trigger.judged ≡ ok command)
      × IsDeviating c target b command
supported-IsDeviating c target reference b s r returned deviates =
    let built = verify_type2-Built c target reference b s r returned in
    (
      built.command,
      built.selected,
      verify_deviation-IsDeviating c target b s r.trigger.scope built.command built.judged
          (ap (λ v. v.status) (sym built.deviation_kept) ∙ deviates),
    )
