-- ===== src/Verifier/Raises.antt =====
-- The inputs on which `verify_type2` raises.
use chip_chain_v.Prelude.{
  ◌≡◌, refl, sym, ◌∙◌, true, false, not, ◌&&◌, ◌==◌, ℕ_eq, Option, none, some, List, [], ◌∷◌, all,
  only, String, subst, Result, ok, err, ◌>>=◌, >>=-eq-ok, arith, if◌then◌else◌,
}
use chip_chain_v.Verifier.Data.{
  Contract, StateBinding, RunEvidence, ControlledSource, Observation, Deviation, TriggerCondition,
  AccessAtom, mmio, csr, Executed,
}
use chip_chain_v.Verifier.Access.{capability_transactions}
use chip_chain_v.Verifier.Trigger.{Judged, commands, selected_for}
use chip_chain_v.Verifier.Scope.{address_of, access_kind, is_write}
use chip_chain_v.Verifier.Reference.{
  verify_control, reference_control, missing_control, first_operand,
}
use chip_chain_v.Verifier.Verify.{VerificationResult, verify_type2, command_of}
use chip_chain_v.Verifier.Total.Trigger.{is_addressed, has_no_csr}
use chip_chain_v.Verifier.Total.Control.{reference_accesses-Returns}
use chip_chain_v.Verifier.Built.{verify_type2-Built}

-- One round of the comprehension over the requirements.
one_command-eq-ok :
    (b : StateBinding) (js : List Judged) (i : String) (rest : Result (List Executed))
    (access : Option AccessAtom) {found : List Executed}
    → (elim access [
      | none ↦ rest
      | some atom ↦ (do
        address ← address_of atom
        others ← rest
        ok (
            if not (address == b.enable_address) && is_write (access_kind atom)
            then (elim (selected_for js i) [ none ↦ others | some x ↦ x ∷ others ])
            else others))
    ])
      ≡ ok found
    → ((elim access [ none ↦ true | some a ↦ is_addressed a ]) ≡ true)
      × (others : List Executed) × (rest ≡ ok others)
one_command-eq-ok b js i rest none {found} h = (refl, found, h)
one_command-eq-ok b js i rest (some (mmio a)) h =
    let (others, k, _) = >>=-eq-ok rest _ h in (refl, others, k)
one_command-eq-ok b js i rest (some (csr k)) h = cc

commands-addressed :
    (b : StateBinding) (js : List Judged) (rs : List TriggerCondition) {found : List Executed}
    → commands b js rs ≡ ok found
    → all has_no_csr rs ≡ true
unfolding commands
commands-addressed b js [] h = refl
commands-addressed b js (r ∷ rs) h =
    let (one, others, rest) = one_command-eq-ok b js r.condition_id (commands b js rs) r.access h in
    let k = commands-addressed b js rs rest in ground arith

-- With a state binding, the verification of a contract that has a CSR trigger requirement returns no
-- result, whatever the runs and the source are.
pub csr_trigger-raises :
    (c : Contract) (target : RunEvidence) (reference : Option RunEvidence) (b : StateBinding)
    (s : Option ControlledSource) (r : VerificationResult)
    → all has_no_csr c.trigger ≡ false
    → ¬ (verify_type2 c target reference (some b) s ≡ ok r)
unfolding command_of
csr_trigger-raises c target reference b s r unaddressed returned =
    let built = verify_type2-Built c target reference (some b) s r returned in
    let (found, h, _) = >>=-eq-ok (commands b r.trigger.judged c.trigger) _ built.selected in
    cc (sym unaddressed ∙ commands-addressed b r.trigger.judged c.trigger h)

reference_control-raises :
    (c : Contract) (run : RunEvidence) (b : StateBinding) (d : Deviation)
    → d.expected_behavior ≡ none
    → reference_control c run b d ≡ err "AttributeError"
unfolding reference_control first_operand
reference_control-raises c run b d unstated =
    let (xs, h, _) = reference_accesses-Returns run (capability_transactions run) c.trigger in
    simp (h, unstated)

-- With a reference run, a command, a state binding and a controlled source, the reference control
-- raises where the only deviation of the contract states no expected behavior.
pub unstated_expected-raises :
    (c : Contract) (run : RunEvidence) (b : StateBinding) (s : ControlledSource)
    (command : Observation) (d : Deviation)
    → only c.deviation ≡ some d
    → d.expected_behavior ≡ none
    → verify_control c (some run) (some b) (some s) (some command) ≡ err "AttributeError"
unfolding verify_control
unstated_expected-raises c run b s command d one unstated =
    subst
      (λ o.
        (elim o [ none ↦ missing_control (some run) | some d ↦ reference_control c run b d ])
        ≡ err "AttributeError")
      (sym one) (reference_control-raises c run b d unstated)
