-- ===== src/Verifier/Total.antt =====
-- No internal validator of `verify_type2` rejects what the function builds.
use chip_chain_v.Prelude.{
  Returns, is_some, ℕ, ◌≡◌, refl, String, Bool, true, false, not, ◌&&◌, ◌||◌, ◌==◌, String_eq,
  Option, none, some, List, [], ◌∷◌, ◌++◌, all, is_nonempty, Result, ok, err, ◌>>=◌, ◌>>◌, require,
  sorted_set, sorted_set_nonempty, Bool-cases, inl, inr, arith, Option-cases, only, select,
  if◌then◌else◌,
}
use chip_chain_v.Verifier.Data.{
  mmio_access, ordering, OrderingAtom, Status, supported, contradicted, unknown, Verdict,
  AccessAtom, mmio, csr, MmioAtom, TriggerCondition, Deviation, Contract, StateBinding, RunEvidence,
  ControlledSource, Executed, Observation, ObservationRequirement, Predicate, Precondition,
}
use chip_chain_v.Verifier.Judge.{condition, Status_eq}
use chip_chain_v.Verifier.Access.{
  access_atom, judge_access, no_unique_access, cited, is_exact, agrees, is_conflicting,
  is_supported,
}
use chip_chain_v.Verifier.Trigger.{
  selected_for, Judged, judge_requirement, judge_accesses, judge_order, judge_orders,
  judge_endpoints, in_order, commands, judge_prestate, judge_precondition, prestate_evidence,
  verdict_for, TriggerVerification, verify_trigger,
}
use chip_chain_v.Verifier.Scope.{scope_verdict, scope_ok, source_ok, is_kind, address_of}
pub mod Trigger
pub mod Finding
pub mod Control
pub mod Verify

-- A decision with evidence, or no decision.
pub condition-Returns :
    (i : String) (s : Status) (reason : String) (evidence missing : List String)
    → (s == unknown || is_nonempty evidence) ≡ true
    → (v : Verdict) × (condition i s reason evidence missing ≡ ok v)
      × (v.status ≡ s)
      × (is_nonempty evidence ≡ true → is_nonempty v.evidence_ids ≡ true)
unfolding condition
condition-Returns i supported reason evidence missing h =
    let k = sorted_set_nonempty evidence h in
    (
      record {
        requirement_id = i;
        status = supported;
        reason_code = reason;
        evidence_ids = sorted_set evidence;
        missing_requirements = sorted_set missing;
      },
      simp k,
      refl,
      sorted_set_nonempty evidence,
    )
condition-Returns i contradicted reason evidence missing h =
    let k = sorted_set_nonempty evidence h in
    (
      record {
        requirement_id = i;
        status = contradicted;
        reason_code = reason;
        evidence_ids = sorted_set evidence;
        missing_requirements = sorted_set missing;
      },
      simp k,
      refl,
      sorted_set_nonempty evidence,
    )
condition-Returns i unknown reason evidence missing h = (
  record {
    requirement_id = i;
    status = unknown;
    reason_code = reason;
    evidence_ids = sorted_set evidence;
    missing_requirements = sorted_set missing;
  },
  refl,
  refl,
  sorted_set_nonempty evidence,
)

-- A verdict that was returned has the status that was asked for, and evidence where it supports.
pub condition-eq-ok :
    (i : String) (s : Status) (reason : String) (evidence missing : List String) {v : Verdict}
    → condition i s reason evidence missing ≡ ok v
    → (v.status ≡ s) × ((v.status == unknown || is_nonempty v.evidence_ids) ≡ true)
unfolding condition
condition-eq-ok i s reason evidence missing h = (ground arith, ground arith)

pub unknown-Returns :
    (i reason : String) (evidence missing : List String)
    → Returns (condition i unknown reason evidence missing)
unknown-Returns i reason evidence missing =
    let (v, h, _, _) = condition-Returns i unknown reason evidence missing refl in (v, h)

pub decided-Returns :
    (i : String) (s : Status) (reason : String) (evidence missing : List String)
    → is_nonempty evidence ≡ true
    → Returns (condition i s reason evidence missing)
decided-Returns i s reason evidence missing h =
    let (v, k, _, _) = condition-Returns i s reason evidence missing (ground arith) in (v, k)

-- A verdict that decides cites evidence.
abbrev pub IsCited : Verdict → Type 0
IsCited v = (v.status == unknown || is_nonempty v.evidence_ids) ≡ true
