-- ===== src/Verifier/Judge.antt =====
-- Verdicts on single conditions and the ways in which they combine.
use chip_chain_v.Prelude.{
  ℕ, String, Bool, true, false, not, ◌&&◌, ◌||◌, ◌==◌, Eq, ◌≡◌, ◌↔◌, List, [], ◌∷◌, map, any, all,
  nat_eq, if◌then◌else◌, Result, ok, ◌>>◌, require, sorted_set, is_nonempty, arith,
}
use chip_chain_v.Verifier.Data.{Status, supported, contradicted, unknown, Verdict}

abbrev pub status_beq : Status → Status → Bool
status_beq supported supported = true
status_beq contradicted contradicted = true
status_beq unknown unknown = true
status_beq _ _ = false

pub status_beq_iff : (a b : Status) → (status_beq a b ≡ true) ↔ (a ≡ b)
status_beq_iff supported b = ground arith
status_beq_iff contradicted b = ground arith
status_beq_iff unknown b = ground arith

instance abbrev pub Status_eq : Eq Status
Status_eq = record { beq = status_beq; beq_iff = status_beq_iff }

-- `condition`, with the validator of `ConditionVerification`.
unfoldable pub condition : String → Status → String → List String → List String → Result Verdict
condition requirement_id status reason evidence missing = do
  let evidence' = sorted_set evidence
  require (not (status == supported) || is_nonempty evidence') "SUPPORTED_WITHOUT_EVIDENCE"
  require (status == unknown || is_nonempty evidence') "DECISION_WITHOUT_EVIDENCE"
  ok (record {
    requirement_id = requirement_id;
    status = status;
    reason_code = reason;
    evidence_ids = evidence';
    missing_requirements = sorted_set missing;
  })

-- `_aggregate`
unfoldable pub aggregate : List Verdict → Status
aggregate items =
    let values = map (λ v. v.status) items in
    if any (λ x. x == contradicted) values
    then contradicted
    else if any (λ x. x == unknown) values
    then unknown
    else supported

-- `_deviation_value`
unfoldable pub deviation_value : ℕ → ℕ → ℕ → Status
deviation_value value expected deviating =
    if nat_eq value deviating
    then supported
    else if nat_eq value expected
    then contradicted
    else unknown

pub data FinalStatus : Type 0 where
  verified_controlled_type2_chain trigger_contradicted deviation_contradicted unknown_chain :
      FinalStatus

-- `_final_status`
unfoldable pub final_status : Status → Status → Status → Status → FinalStatus
final_status trigger deviation observation differential =
    if trigger == contradicted
    then trigger_contradicted
    else if trigger == supported && deviation == contradicted && observation == supported
    then deviation_contradicted
    else if all (λ x. x == supported) (trigger ∷ deviation ∷ observation ∷ differential ∷ [])
    then verified_controlled_type2_chain
    else unknown_chain
