-- ===== src/Verifier/Total/Control.antt =====
-- The reference control is built, and its validator accepts it.
use chip_chain_v.Prelude.{
  Returns, Returns->>=, ℕ_eq, ◌≡◌, refl, sym, ◌∙◌, ap, String, Bool, true, false, not, ◌&&◌, ◌==◌,
  String_eq, Option, none, some, List, [], ◌∷◌, ◌++◌, all, All, length, is_nonempty, Result, ok,
  err, ◌>>=◌, >>=-eq-ok, ok-injective, Bool-cases, inl, inr, arith, only, if◌then◌else◌, sorted_set,
  sorted_set_nonempty, select, Option-cases,
}
use chip_chain_v.Verifier.Data.{
  Status, supported, unknown, Verdict, Deviation, Contract, Observation, StateBinding, AccessAtom,
  mmio, csr, MmioAtom, TriggerCondition, Value, RunEvidence, ControlledSource, Executed, Predicate,
}
use chip_chain_v.Verifier.Judge.{condition, Status_eq, status_beq_iff}
use chip_chain_v.Verifier.Access.{
  access_atom, judge_access, no_unique_access, is_supported, is_exact, is_conflicting, agrees,
  capability_transactions,
}
use chip_chain_v.Verifier.State.{Sampling}
use chip_chain_v.Verifier.Reference.{
  Control, check_control, RefAccess, judge_reference, reference_accesses, reference_triggered,
  status_if, kept_if, evidence_of, build_control, reference_sampling, reference_answer,
  expected_seen, not_deviating, reference_control, missing_control, verify_control, first_operand,
  equals_value, reference_commands,
}
use chip_chain_v.Verifier.Total.{IsCited, condition-Returns, condition-eq-ok}
use chip_chain_v.Verifier.Total.Trigger.{access_atom-Returns}
use chip_chain_v.Verifier.Total.Finding.{IsEvident, sample_read-IsEvident}

paired-eq-ok {ℓ κ} :
    {A : Type ℓ} {B : Type κ} (m : Result A) (b : B) {p : A × B}
    → (m >>= λ a. ok (a, b)) ≡ ok p
    → m ≡ ok p.0
paired-eq-ok m b h =
    let (a, h1, h2) = >>=-eq-ok m (λ a. ok (a, b)) h in h1 ∙ ap (λ q. ok q.0) (ok-injective h2)

judge_access-IsCited :
    (i : String) (run : RunEvidence) (exact conflicting : List Executed)
    {p : Verdict × Option Executed}
    → judge_access i run exact conflicting ≡ ok p
    → IsCited p.0
unfolding judge_access no_unique_access
judge_access-IsCited i run (x ∷ []) conflicting h =
    (condition-eq-ok _ _ _ _ _ (paired-eq-ok _ _ h)).1
judge_access-IsCited i run [] (x ∷ []) h = (condition-eq-ok _ _ _ _ _ (paired-eq-ok _ _ h)).1
judge_access-IsCited i run [] [] h = (condition-eq-ok _ _ _ _ _ (paired-eq-ok _ _ h)).1
judge_access-IsCited i run [] (x ∷ y ∷ ys) h = (condition-eq-ok _ _ _ _ _ (paired-eq-ok _ _ h)).1
judge_access-IsCited i run (x ∷ y ∷ ys) conflicting h =
    (condition-eq-ok _ _ _ _ _ (paired-eq-ok _ _ h)).1

access_atom-IsCited :
    (a : AccessAtom) (i : String) (run : RunEvidence) (pairs : List Executed)
    {p : Verdict × Option Executed}
    → access_atom a i run pairs ≡ ok p
    → IsCited p.0
unfolding access_atom
access_atom-IsCited (csr k) i run pairs h = (condition-eq-ok _ _ _ _ _ (paired-eq-ok _ _ h)).1
access_atom-IsCited (mmio a) i run pairs h = elim (Bool-cases (is_supported a)) [
  | inl good ↦
      judge_access-IsCited i run (select (is_exact a) (select agrees pairs))
        (select (is_conflicting a) (select agrees pairs)) (simp good at h)
  | inr bad ↦ (condition-eq-ok _ _ _ _ _ (paired-eq-ok _ _ (simp bad at h))).1
]

judge_reference-Returns :
    (run : RunEvidence) (pairs : List Executed) (r : TriggerCondition) (a : MmioAtom)
    → (x : RefAccess) × (judge_reference run pairs r a ≡ ok x) × IsCited x.verdict
unfolding judge_reference
judge_reference-Returns run pairs r a =
    let (p, h1) = access_atom-Returns (mmio a) r.condition_id run pairs in
    let (v, h2, _, _) =
      condition-Returns r.condition_id unknown "UNFORMALIZED_TRIGGER" [] ("formalized_trigger" ∷ [])
        refl in
    let c1 = access_atom-IsCited (mmio a) r.condition_id run pairs h1 in
    let c2 = (condition-eq-ok _ _ _ _ _ h2).1 in
    (
      record {
        condition_id = r.condition_id;
        atom = a;
        verdict = if r.formalized then p.0 else v;
        selected = p.1;
      },
      simp (h1, h2),
      elim (Bool-cases r.formalized) [ inl good ↦ rw good c1 | inr bad ↦ rw bad c2 ],
    )

pub reference_accesses-Returns :
    (run : RunEvidence) (pairs : List Executed) (rs : List TriggerCondition)
    → (xs : List RefAccess) × (reference_accesses run pairs rs ≡ ok xs)
      × All (λ x. IsCited x.verdict) xs
unfolding reference_accesses
reference_accesses-Returns run pairs [] = ([], refl, tt)
reference_accesses-Returns run pairs (r ∷ rs) =
    let (xs, rest, cited_all) = reference_accesses-Returns run pairs rs in
    elim (Option-cases r.access) [
      | inl missing ↦ (xs, simp (missing, rest), cited_all)
      | inr (csr k, found) ↦ (xs, simp (found, rest), cited_all)
      | inr (mmio a, found) ↦
          let (x, one, c) = judge_reference-Returns run pairs r a in
          (x ∷ xs, simp (found, one, rest), (c, cited_all))
    ]

append_nonempty {ℓ} :
    {A : Type ℓ} (xs ys : List A) → is_nonempty ys ≡ true → is_nonempty (xs ++ ys) ≡ true
append_nonempty [] ys h = h
append_nonempty (x ∷ xs) ys h = refl

append_nonempty_left {ℓ} :
    {A : Type ℓ} (xs ys : List A) → is_nonempty xs ≡ true → is_nonempty (xs ++ ys) ≡ true
append_nonempty_left [] ys h = cc
append_nonempty_left (x ∷ xs) ys h = refl

-- Two supported verdicts cite something.
evidence_of_supported :
    (xs : List RefAccess)
    → (length xs == 2) ≡ true
    → all (λ x. x.verdict.status == supported) xs ≡ true
    → All (λ x. IsCited x.verdict) xs
    → is_nonempty (evidence_of xs) ≡ true
evidence_of_supported [] h g c = ground arith
evidence_of_supported (x ∷ xs) h g c =
    append_nonempty_left x.verdict.evidence_ids (evidence_of xs) (ground arith)

reference_answer-evidence :
    (c : Contract) (run : RunEvidence) (b : StateBinding) (xs : List RefAccess)
    (command : Option Executed)
    → All (λ x. IsCited x.verdict) xs
    → reference_answer c run b xs command ≡ true
    → is_nonempty (evidence_of xs) ≡ true
unfolding reference_answer reference_triggered
reference_answer-evidence c run b xs none cited_all h = cc
reference_answer-evidence c run b xs (some x) cited_all h =
    evidence_of_supported xs (ground arith) (ground arith) cited_all

kept_condition-Returns :
    (i : String) (answer : Bool) (reason : String) (evidence missing : List String)
    → (answer ≡ true → is_nonempty evidence ≡ true)
    → (v : Verdict) × (condition i (status_if answer) reason (kept_if answer evidence) missing
        ≡ ok v)
      × (v.status ≡ status_if answer)
kept_condition-Returns i true reason evidence missing h =
    let (v, g, s, _) = condition-Returns i supported reason evidence missing (h refl) in (v, g, s)
kept_condition-Returns i false reason evidence missing h =
    let (v, g, s, _) = condition-Returns i unknown reason [] missing refl in (v, g, s)

status_beq_refl : (a : Status) → (a == a) ≡ true
status_beq_refl a = (status_beq_iff a a).1 refl

check_control-Returns :
    (c : Control) (answer : Bool)
    → c.trigger_status ≡ c.trigger_condition.status
    → c.expected_behavior_status ≡ c.expected_condition.status
    → c.deviation_observed ≡ (if answer then some false else none)
    → c.no_deviation_condition.status ≡ status_if answer
    → Returns (check_control c)
unfolding check_control
check_control-Returns c true p q r s = (
  c,
  simp (
    p,
    q,
    r,
    s,
    status_beq_refl c.trigger_condition.status,
    status_beq_refl c.expected_condition.status,
  ),
)
check_control-Returns c false p q r s = (
  c,
  simp (
    p,
    q,
    r,
    s,
    status_beq_refl c.trigger_condition.status,
    status_beq_refl c.expected_condition.status,
  ),
)

build_control-Returns :
    (i : String) (triggered expected no_deviation : Bool) (ids evidence : List String)
    → (triggered ≡ true → is_nonempty evidence ≡ true)
    → (expected ≡ true → is_nonempty ids ≡ true)
    → (no_deviation ≡ true → is_nonempty ids ≡ true)
    → Returns (build_control i triggered expected no_deviation ids evidence)
unfolding build_control
build_control-Returns i triggered expected no_deviation ids evidence f g h =
    let (t, h1, s1) = kept_condition-Returns "type2:reference-trigger" triggered _ evidence _ f in
    let (e, h2, s2) = kept_condition-Returns "type2:reference-expected" expected _ ids _ g in
    let (n, h3, s3) =
      kept_condition-Returns "type2:reference-no-deviation" no_deviation _ ids _ h in
    Returns->>= _ _ (t, h1)
      (λ t' k1.
        Returns->>= _ _ (e, h2)
          (λ e' k2.
            Returns->>= _ _ (n, h3)
              (λ n' k3.
                check_control-Returns _ no_deviation (sym (condition-eq-ok _ _ _ _ _ k1).0)
                  (sym (condition-eq-ok _ _ _ _ _ k2).0) refl (condition-eq-ok _ _ _ _ _ k3).0)))

-- The predicate states a value.
abbrev pub has_operand : Option Predicate → Bool
has_operand none = false
has_operand (some p) = is_nonempty p.operands

-- The deviation states an expected and a deviating value.
abbrev pub has_values : Deviation → Bool
has_values d = has_operand d.expected_behavior && has_operand d.deviating_behavior

first_of-Returns :
    (vs : List Value)
    → is_nonempty vs ≡ true
    → Returns (elim vs as (λ _. Result Value) [ [] ↦ err "IndexError" | v ∷ rest ↦ ok v ])
first_of-Returns [] h = cc
first_of-Returns (v ∷ vs) h = (v, refl)

first_operand-Returns : (p : Option Predicate) → has_operand p ≡ true → Returns (first_operand p)
unfolding first_operand
first_operand-Returns none h = cc
first_operand-Returns (some p) h = first_of-Returns p.operands h

not_deviating-Returns :
    (seen : Bool) (s : Sampling) (p : Option Predicate)
    → has_operand p ≡ true
    → (n : Bool) × (not_deviating seen s p ≡ ok n) × (n ≡ true → seen ≡ true)
unfolding not_deviating
not_deviating-Returns false s p h = (false, refl, λ k. k)
not_deviating-Returns true s p h =
    let (v, k) = first_operand-Returns p h in (not (equals_value s.value v), simp k, λ n. refl)

expected_seen-evidence :
    (s : Sampling) (v : Value)
    → IsEvident s
    → expected_seen s v ≡ true
    → is_nonempty s.evidence ≡ true
unfolding expected_seen
expected_seen-evidence s v evident h = elim (Option-cases s.value) [
  | inl missing ↦ cc (simp missing at h)
  | inr (n, found) ↦ simp found at evident
]

reference_sampling-IsEvident :
    (run : RunEvidence) (b : StateBinding) (command : Option Executed)
    → IsEvident (reference_sampling run b command)
unfolding reference_sampling
reference_sampling-IsEvident run b none = refl
reference_sampling-IsEvident run b (some x) =
    sample_read-IsEvident run b.status_address x.observation

reference_control-Returns :
    (c : Contract) (run : RunEvidence) (b : StateBinding) (d : Deviation)
    → has_values d ≡ true
    → Returns (reference_control c run b d)
unfolding reference_control
reference_control-Returns c run b d h =
    let (xs, h1, cited_all) =
      reference_accesses-Returns run (capability_transactions run) c.trigger in
    let command = only (reference_commands b xs xs) in
    let s = reference_sampling run b command in
    let evident = reference_sampling-IsEvident run b command in
    let (v, h2) = first_operand-Returns d.expected_behavior (ground arith) in
    let (n, h3, seen) =
      not_deviating-Returns (expected_seen s v) s d.deviating_behavior (ground arith) in
    let (control, built) =
      build_control-Returns run.joint_run.joint_run_id (reference_answer c run b xs command)
        (expected_seen s v) n s.evidence (sorted_set (s.evidence ++ evidence_of xs))
        (λ k. sorted_set_nonempty _ (
          append_nonempty s.evidence (evidence_of xs)
            (reference_answer-evidence c run b xs command cited_all k)))
        (expected_seen-evidence s v evident) (λ k. expected_seen-evidence s v evident (seen k)) in
    (control, rw h1 (rw h2 (rw h3 built)))

missing_control-Returns : (reference : Option RunEvidence) → Returns (missing_control reference)
unfolding missing_control
missing_control-Returns reference =
    let (t, h1, s1) =
      kept_condition-Returns "type2:reference-trigger" false "REFERENCE_MISSING" []
        ("reference_trigger" ∷ []) (λ h. h) in
    let (e, h2, s2) =
      kept_condition-Returns "type2:reference-expected" false "REFERENCE_MISSING" []
        ("reference_status" ∷ []) (λ h. h) in
    let (n, h3, s3) =
      kept_condition-Returns "type2:reference-no-deviation" false "REFERENCE_MISSING" []
        ("reference_status" ∷ []) (λ h. h) in
    Returns->>= _ _ (t, h1)
      (λ t' k1.
        Returns->>= _ _ (e, h2)
          (λ e' k2.
            Returns->>= _ _ (n, h3)
              (λ n' k3.
                check_control-Returns _ false (sym (condition-eq-ok _ _ _ _ _ k1).0)
                  (sym (condition-eq-ok _ _ _ _ _ k2).0) refl (condition-eq-ok _ _ _ _ _ k3).0)))

only_deviation-Returns :
    (c : Contract) (run : RunEvidence) (b : StateBinding) (ds : List Deviation)
    → all has_values ds ≡ true
    → Returns (elim (only ds) [
      | none ↦ missing_control (some run)
      | some d ↦ reference_control c run b d
    ])
only_deviation-Returns c run b [] h = missing_control-Returns (some run)
only_deviation-Returns c run b (d ∷ []) h = reference_control-Returns c run b d (ground arith)
only_deviation-Returns c run b (d ∷ d' ∷ ds) h = missing_control-Returns (some run)

pub verify_control-Returns :
    (c : Contract) (reference : Option RunEvidence) (b : Option StateBinding)
    (s : Option ControlledSource) (command : Option Observation)
    → all has_values c.deviation ≡ true
    → Returns (verify_control c reference b s command)
unfolding verify_control
verify_control-Returns c (some run) (some b) (some s) (some command) h =
    only_deviation-Returns c run b c.deviation h
verify_control-Returns c none b s command h = missing_control-Returns none
verify_control-Returns c (some run) none s command h = missing_control-Returns (some run)
verify_control-Returns c (some run) (some b) none command h = missing_control-Returns (some run)
verify_control-Returns c (some run) (some b) (some s) none h = missing_control-Returns (some run)
