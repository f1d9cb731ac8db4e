-- ===== src/Verifier/Deviation.antt =====
-- The observation and the deviation of the target, as `verify_type2` judges them.
use chip_chain_v.Prelude.{
  ℕ, String, Bool, false, ◌&&◌, ◌==◌, ℕ_eq, String_eq, option_eq, Option, none, some, List, [], ◌∷◌,
  only, if◌then◌else◌, Result, ok, ◌>>=◌,
}
use chip_chain_v.Verifier.Data.{
  Status, supported, contradicted, unknown, Verdict, Deviation, ObservationRequirement, Contract,
  Observation, StateBinding, RunEvidence, ControlledSource,
}
use chip_chain_v.Verifier.Judge.{condition, Status_eq, deviation_value}
use chip_chain_v.Verifier.State.{predicate_eq, Sampling, sample_read}
use chip_chain_v.Verifier.Trigger.{first_value, operands_of}
use chip_chain_v.Verifier.Scope.{source_ok}

-- The specification of the observable is complete, as the test before the status is read.
unfoldable pub is_specified : StateBinding → Deviation → ObservationRequirement → Bool
is_specified b d o =
    d.formalized
    && d.deviation_kind == "wrong_value"
    && d.hardware_constraint_status == "specified"
    && o.formalized
    && o.judgement_kind == "comparison"
    && option_eq o.required_backend (some "controlled-syn-mmio-postupdate+busread/v1")
    && option_eq o.observable_target (some b.status_subject)
    && predicate_eq d.expected_behavior b.status_subject
    && predicate_eq d.deviating_behavior b.status_subject
    && option_eq d.specification_ref (some b.source_artifact_id)
    && (elim o.deviation_ids [ i ∷ [] ↦ i == d.condition_id | _ ↦ false ])
    && predicate_eq o.expected_observation b.status_subject
    && predicate_eq o.deviation_observation b.status_subject

pub record Finding : Type 0 where
  pub observation : Verdict
  pub deviation : Verdict

abbrev deviation_id : Option Deviation → String
deviation_id none = "type2:deviation"
deviation_id (some d) = d.condition_id

abbrev observation_id : Option ObservationRequirement → String
observation_id none = "type2:observation"
observation_id (some o) = o.condition_id

unfoldable pub unspecified : Option Deviation → Option ObservationRequirement → Result Finding
unspecified d o = do
  obs ←
      condition (observation_id o) unknown "OBSERVATION_SPEC_INCOMPLETE" []
        ("formalized_status_spec" ∷ "source_bound_post_update_and_bus_read" ∷ [])
  dev ←
      condition (deviation_id d) unknown "DEVIATION_SPEC_INCOMPLETE" []
        ("formalized_expected_and_deviating_values" ∷ [])
  ok (record { observation = obs; deviation = dev })

abbrev pub deviation_reason : Status → String
deviation_reason supported = "FORMALIZED_DEVIATING_VALUE"
deviation_reason contradicted = "FORMALIZED_EXPECTED_VALUE"
deviation_reason unknown = "UNSPECIFIED_STATUS_VALUE"

abbrev pub deviation_missing : Status → List String
deviation_missing unknown = "status_in_formalized_domain" ∷ []
deviation_missing _ = []

-- The verdicts once the status was sampled and read with one value.
unfoldable pub judge_value :
    Deviation → ObservationRequirement → List String → ℕ → ℕ → ℕ → Result Finding
judge_value d o evidence value expected deviating = do
  let status = deviation_value value expected deviating
  obs ← condition o.condition_id supported "INTERNAL_AND_BUS_STATUS_AGREE" evidence []
  dev ←
      condition d.condition_id status (deviation_reason status) evidence (deviation_missing status)
  ok (record { observation = obs; deviation = dev })

unfoldable pub unreliable : Deviation → ObservationRequirement → Sampling → Result Finding
unreliable d o s = do
  obs ←
      condition o.condition_id unknown s.reason s.evidence
        ("consistent_bound_status_sample_and_bus_response" ∷ [])
  dev ← condition d.condition_id unknown s.reason s.evidence ("reliable_status_observation" ∷ [])
  ok (record { observation = obs; deviation = dev })

-- The reading is used if the contract states one expected and one deviating value. Where a value is
-- missing `is_specified` has failed.
unfoldable pub judge_read :
    Deviation → ObservationRequirement → Sampling → ℕ → Option ℕ → Option ℕ → Result Finding
unfolding judge_value unreliable
judge_read d o s value (some expected) (some deviating) =
    if option_eq (first_value (operands_of o.expected_observation)) (some expected)
      && option_eq (first_value (operands_of o.deviation_observation)) (some deviating)
      && s.reason == "SAMPLE_READ_AGREE"
    then judge_value d o s.evidence value expected deviating
    else unreliable d o s
judge_read d o s value _ _ = unreliable d o s

unfoldable pub judge_sample : Deviation → ObservationRequirement → Sampling → Result Finding
unfolding judge_read
judge_sample d o s = elim s.value [
  | none ↦ unreliable d o s
  | some value ↦
      judge_read d o s value (first_value (operands_of d.expected_behavior))
        (first_value (operands_of d.deviating_behavior))
]

-- The test before the status is read, and the two ways to go on.
unfoldable pub judge_status :
    Contract
    → RunEvidence
    → StateBinding
    → Option ControlledSource
    → Verdict
    → Observation
    → Option Deviation
    → Option ObservationRequirement
    → Result Finding
unfolding unspecified is_specified judge_sample source_ok
judge_status contract target b source scope command (some d) (some o) =
    if scope.status == supported && source_ok contract (some b) source && is_specified b d o
    then judge_sample d o (sample_read target b.status_address command)
    else unspecified (some d) (some o)
judge_status contract target b source scope command d o = unspecified d o

-- The observation and the deviation of the target.
unfoldable pub verify_deviation :
    Contract
    → RunEvidence
    → Option StateBinding
    → Option ControlledSource
    → Verdict
    → Option Observation
    → Result Finding
unfolding judge_status
verify_deviation contract target (some b) source scope (some command) =
    judge_status contract target b source scope command (only contract.deviation)
      (only contract.observation)
verify_deviation contract target _ source scope _ =
    unspecified (only contract.deviation) (only contract.observation)
