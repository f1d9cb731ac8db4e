-- ===== src/Verifier/Total/Finding.antt =====
-- The judgements of the status return.
use chip_chain_v.Prelude.{
  Returns, Returns->>=, ℕ, ℕ_eq, ◌≡◌, refl, String, true, not, ◌&&◌, ◌||◌, ◌==◌, String_eq,
  option_eq, Option, none, some, List, [], all, is_nonempty, is_some, Bool-cases, inl, inr, arith,
  only,
}
use chip_chain_v.Verifier.Data.{
  supported, unknown, Verdict, Deviation, ObservationRequirement, Contract, Observation,
  StateBinding, RunEvidence, ControlledSource,
}
use chip_chain_v.Trace.{Event}
use chip_chain_v.Verifier.Judge.{condition, Status_eq, deviation_value}
use chip_chain_v.Verifier.State.{
  Sampling, no_sampling, compare_sample, sample_at_command, sample_read, is_executed,
  update_samples, linked, later_reads,
}
use chip_chain_v.Verifier.Trigger.{Judged, commands, first_value, operands_of}
use chip_chain_v.Verifier.Scope.{source_ok}
use chip_chain_v.Verifier.Deviation.{
  unspecified, is_specified, judge_value, unreliable, judge_read, judge_sample, judge_status,
  verify_deviation,
}
use chip_chain_v.Verifier.Verify.{command_of}
use chip_chain_v.Verifier.Total.{unknown-Returns, decided-Returns}
use chip_chain_v.Verifier.Total.Trigger.{has_no_csr, commands-Returns}

pub command_of-Returns :
    (c : Contract) (b : Option StateBinding) (js : List Judged)
    → all has_no_csr c.trigger ≡ true
    → Returns (command_of c b js)
unfolding command_of
command_of-Returns c none js addressed = (none, refl)
command_of-Returns c (some b) js addressed =
    Returns->>= (commands b js c.trigger) _ (commands-Returns b js c.trigger addressed)
      (λ found h. (_, refl))

-- A sampled value comes with evidence.
abbrev pub IsEvident : Sampling → Type 0
IsEvident s = (not (is_some s.value) || is_nonempty s.evidence) ≡ true

compare_sample-IsEvident :
    (run : RunEvidence) (o : Observation) (e : Event) → IsEvident (compare_sample run o e)
unfolding compare_sample
compare_sample-IsEvident run o e = ground arith

only_sample-IsEvident :
    (run : RunEvidence) (status : Observation) (o : Option Event)
    → IsEvident (elim o [
      | none ↦ no_sampling "POST_UPDATE_SAMPLE_MISSING"
      | some sample ↦ compare_sample run status sample
    ])
only_sample-IsEvident run status none = refl
only_sample-IsEvident run status (some e) = compare_sample-IsEvident run status e

sample_at_command-IsEvident :
    (run : RunEvidence) (status command : Observation)
    → IsEvident (sample_at_command run status command)
unfolding sample_at_command
sample_at_command-IsEvident run status command = elim (Bool-cases (is_executed run status)) [
  | inl good ↦ rw good (only_sample-IsEvident run status (only (update_samples run.parsed command)))
  | inr bad ↦ rw bad refl
]

only_read-IsEvident :
    (run : RunEvidence) (command : Observation) (o : Option Observation)
    → IsEvident (elim o [
      | none ↦ no_sampling "STATUS_READ_MISSING_OR_AMBIGUOUS"
      | some status ↦ sample_at_command run status command
    ])
only_read-IsEvident run command none = refl
only_read-IsEvident run command (some status) = sample_at_command-IsEvident run status command

pub sample_read-IsEvident :
    (run : RunEvidence) (address : ℕ) (command : Observation)
    → IsEvident (sample_read run address command)
unfolding sample_read
sample_read-IsEvident run address command = elim (Bool-cases (linked run)) [
  | inl good ↦ rw good (only_read-IsEvident run command (only (later_reads run address command)))
  | inr bad ↦ rw bad refl
]

unspecified-Returns :
    (d : Option Deviation) (o : Option ObservationRequirement) → Returns (unspecified d o)
unfolding unspecified
unspecified-Returns d o =
    Returns->>= (condition _ unknown "OBSERVATION_SPEC_INCOMPLETE" [] _) _
      (unknown-Returns _ _ [] _)
      (λ obs h1.
        Returns->>= (condition _ unknown "DEVIATION_SPEC_INCOMPLETE" [] _) _
          (unknown-Returns _ _ [] _) (λ dev h2. (_, refl)))

unreliable-Returns :
    (d : Deviation) (o : ObservationRequirement) (s : Sampling) → Returns (unreliable d o s)
unfolding unreliable
unreliable-Returns d o s =
    Returns->>= (condition o.condition_id unknown s.reason s.evidence _) _
      (unknown-Returns _ _ s.evidence _)
      (λ obs h1.
        Returns->>= (condition d.condition_id unknown s.reason s.evidence _) _
          (unknown-Returns _ _ s.evidence _) (λ dev h2. (_, refl)))

module _ (d : Deviation) (o : ObservationRequirement) where
  judge_value-Returns :
      (evidence : List String) (value expected deviating : ℕ)
      → is_nonempty evidence ≡ true
      → Returns (judge_value d o evidence value expected deviating)
  unfolding judge_value
  judge_value-Returns evidence value expected deviating h =
      Returns->>= (condition o.condition_id supported "INTERNAL_AND_BUS_STATUS_AGREE" evidence []) _
        (decided-Returns _ _ _ evidence _ h)
        (λ obs h1.
          Returns->>=
            (condition d.condition_id (deviation_value value expected deviating) _ evidence _) _
            (decided-Returns _ _ _ evidence _ h) (λ dev h2. (_, refl)))

  judge_read-Returns :
      (s : Sampling) (value : ℕ) (expected deviating : Option ℕ)
      → is_nonempty s.evidence ≡ true
      → Returns (judge_read d o s value expected deviating)
  unfolding judge_read
  judge_read-Returns s value (some x) (some y) h =
      elim (Bool-cases (
        option_eq (first_value (operands_of o.expected_observation)) (some x)
        && option_eq (first_value (operands_of o.deviation_observation)) (some y)
        && s.reason == "SAMPLE_READ_AGREE")) [
          | inl good ↦ rw good (judge_value-Returns s.evidence value x y h)
          | inr bad ↦ rw bad (unreliable-Returns d o s)
        ]
  judge_read-Returns s value none y h = unreliable-Returns d o s
  judge_read-Returns s value (some x) none h = unreliable-Returns d o s

  -- The cases on the value that was sampled.
  valued-Returns :
      (s : Sampling) (value : Option ℕ)
      → (not (is_some value) || is_nonempty s.evidence) ≡ true
      → Returns (elim value [
        | none ↦ unreliable d o s
        | some v ↦
            judge_read d o s v
              (first_value (operands_of d.expected_behavior))
              (first_value (operands_of d.deviating_behavior))
      ])
  valued-Returns s none h = unreliable-Returns d o s
  valued-Returns s (some v) h = judge_read-Returns s v _ _ h

  judge_sample-Returns : (s : Sampling) → IsEvident s → Returns (judge_sample d o s)
  unfolding judge_sample
  judge_sample-Returns s h = valued-Returns s s.value h

module _ (c : Contract) (run : RunEvidence) (b : StateBinding) (s : Option ControlledSource)
    (scope : Verdict) (command : Observation) where
  judge_status-Returns :
      (d : Option Deviation) (o : Option ObservationRequirement)
      → Returns (judge_status c run b s scope command d o)
  unfolding judge_status
  judge_status-Returns none o = unspecified-Returns none o
  judge_status-Returns (some d) none = unspecified-Returns (some d) none
  judge_status-Returns (some d) (some o) =
      elim (Bool-cases
        (scope.status == supported && source_ok c (some b) s && is_specified b d o)) [
          | inl good ↦ rw good (
              judge_sample-Returns d o (sample_read run b.status_address command)
                (sample_read-IsEvident run b.status_address command))
          | inr bad ↦ rw bad (unspecified-Returns (some d) (some o))
        ]

pub verify_deviation-Returns :
    (c : Contract) (run : RunEvidence) (b : Option StateBinding) (s : Option ControlledSource)
    (scope : Verdict) (command : Option Observation)
    → Returns (verify_deviation c run b s scope command)
unfolding verify_deviation
verify_deviation-Returns c run (some b) s scope (some command) =
    judge_status-Returns c run b s scope command (only c.deviation) (only c.observation)
verify_deviation-Returns c run none s scope command =
    unspecified-Returns (only c.deviation) (only c.observation)
verify_deviation-Returns c run (some b) s scope none =
    unspecified-Returns (only c.deviation) (only c.observation)
