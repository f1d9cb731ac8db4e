-- ===== src/Verifier/Total/Trigger.antt =====
-- The judgements of the trigger return.
use chip_chain_v.Prelude.{
  traverse-Returns, Returns, Returns->>=, traverse, ℕ_eq, is_some, ℕ, ◌≡◌, refl, String, Bool, true,
  false, not, ◌&&◌, ◌||◌, ◌==◌, String_eq, Option, none, some, List, [], ◌∷◌, ◌++◌, all, Result, ok,
  ◌>>=◌, Bool-cases, inl, inr, arith, Option-cases, only, select, if◌then◌else◌,
}
use chip_chain_v.Verifier.Data.{
  mmio_access, ordering, OrderingAtom, supported, contradicted, unknown, AccessAtom, mmio, csr,
  TriggerCondition, Contract, StateBinding, RunEvidence, ControlledSource, Executed, Observation,
  Precondition,
}
use chip_chain_v.Verifier.Judge.{condition, Status_eq}
use chip_chain_v.Verifier.Access.{
  access_atom, judge_access, no_unique_access, cited, is_exact, agrees, is_conflicting,
  is_supported,
}
use chip_chain_v.Verifier.Trigger.{
  selected_for, Judged, judge_requirement, judge_accesses, judge_order, judge_orders,
  judge_endpoints, in_order, commands, judge_prestate, judge_precondition, prestate_evidence,
  verdict_for, verify_trigger,
}
use chip_chain_v.Verifier.Scope.{scope_verdict, scope_ok, source_ok, is_kind, address_of}
use chip_chain_v.Verifier.Total.{unknown-Returns, decided-Returns}
use chip_chain_v.Verifier.State.{predicate_eq, PreState, state_before}
use chip_chain_v.Verifier.Access.{latest}
use chip_chain_v.Verifier.Trigger.{first_value, operands_of, prestate_accepted}
use chip_chain_v.Verifier.Scope.{is_write, access_kind}

judge_access-Returns :
    (i : String) (run : RunEvidence) (exact conflicting : List Executed)
    → Returns (judge_access i run exact conflicting)
unfolding judge_access no_unique_access
judge_access-Returns i run (x ∷ []) conflicting =
    let (v, h) = decided-Returns i supported "EXACT_EXECUTED_MMIO" (cited run x) [] refl in
    ((v, some x), rw h refl)
judge_access-Returns i run [] (x ∷ []) =
    let (v, h) = decided-Returns i contradicted "EXECUTED_CONFLICTING_MMIO" (cited run x) [] refl in
    ((v, none), rw h refl)
judge_access-Returns i run [] [] =
    let (v, h) =
      unknown-Returns i "NO_UNIQUE_EXECUTED_ACCESS" []
        ("unique_completed_matching_transaction" ∷ []) in
    ((v, none), rw h refl)
judge_access-Returns i run [] (x ∷ y ∷ ys) =
    let (v, h) =
      unknown-Returns i "NO_UNIQUE_EXECUTED_ACCESS" []
        ("unique_completed_matching_transaction" ∷ []) in
    ((v, none), rw h refl)
judge_access-Returns i run (x ∷ y ∷ ys) conflicting =
    let (v, h) =
      unknown-Returns i "NO_UNIQUE_EXECUTED_ACCESS" []
        ("unique_completed_matching_transaction" ∷ []) in
    ((v, none), rw h refl)

pub access_atom-Returns :
    (a : AccessAtom) (i : String) (run : RunEvidence) (pairs : List Executed)
    → Returns (access_atom a i run pairs)
unfolding access_atom
access_atom-Returns (csr k) i run pairs =
    let (v, h) =
      unknown-Returns i "UNSUPPORTED_ACCESS_PREDICATE" [] ("exact_access_requirement" ∷ []) in
    ((v, none), rw h refl)
access_atom-Returns (mmio a) i run pairs = elim (Bool-cases (is_supported a)) [
  | inl good ↦
      let (p, h) =
        judge_access-Returns i run (select (is_exact a) (select agrees pairs))
          (select (is_conflicting a) (select agrees pairs)) in
      (p, simp (good, h))
  | inr bad ↦
      let (v, h) =
        unknown-Returns i "UNSUPPORTED_ACCESS_PREDICATE" [] ("exact_access_requirement" ∷ []) in
      ((v, none), simp (bad, h))
]

scope_verdict-Returns :
    (c : Contract) (run : RunEvidence) (b : Option StateBinding) (s : Option ControlledSource)
    → Returns (scope_verdict c run b s)
unfolding scope_verdict
scope_verdict-Returns c run b s = elim (Bool-cases (scope_ok c run b && source_ok c b s)) [
  | inl good ↦
      rw good (decided-Returns "type2:target-scope" supported "PINNED_VARIANT_SCOPE" _ [] refl)
  | inr bad ↦ rw bad (unknown-Returns "type2:target-scope" "SCOPE_OR_SOURCE_BINDING_MISSING" [] _)
]

judge_requirement-Returns :
    (run : RunEvidence) (pairs : List Executed) (r : TriggerCondition) (a : AccessAtom)
    → Returns (judge_requirement run pairs r a)
unfolding judge_requirement
judge_requirement-Returns run pairs r a = elim (Bool-cases r.formalized) [
  | inl formal ↦
      let (p, h) = access_atom-Returns a r.condition_id run pairs in
      (record { condition_id = r.condition_id; verdict = p.0; selected = p.1 }, simp (formal, h))
  | inr open_one ↦
      let (v, h) =
        unknown-Returns r.condition_id "UNFORMALIZED_TRIGGER" [] ("formalized_trigger" ∷ []) in
      (record { condition_id = r.condition_id; verdict = v; selected = none }, simp (open_one, h))
]

judge_accesses-Returns :
    (run : RunEvidence) (pairs : List Executed) (rs : List TriggerCondition)
    → Returns (judge_accesses run pairs rs)
unfolding judge_accesses
judge_accesses-Returns run pairs [] = ([], refl)
judge_accesses-Returns run pairs (r ∷ rs) =
    let (js, rest) = judge_accesses-Returns run pairs rs in
    elim (Bool-cases (is_kind r.condition_kind mmio_access)) [
      | inl access ↦ (elim (Option-cases r.access) [
        | inl missing ↦ (js, simp (access, missing, rest))
        | inr (a, found) ↦
            let (j, one) = judge_requirement-Returns run pairs r a in
            (j ∷ js, simp (access, found, one, rest))
      ])
      | inr other ↦ (js, simp (other, rest))
    ]

judge_endpoints-Returns :
    (run : RunEvidence) (r : TriggerCondition) (atom : OrderingAtom)
    (before after : Option Executed)
    → Returns (judge_endpoints run r atom before after)
unfolding judge_endpoints
judge_endpoints-Returns run r atom (some x) (some y) =
    elim (Bool-cases (in_order atom x.observation y.observation)) [
      | inl good ↦
          rw good (decided-Returns r.condition_id supported "ACCEPTED_REQUEST_ORDER" _ [] refl)
      | inr bad ↦
          rw bad (decided-Returns r.condition_id contradicted "ORDER_OR_EPOCH_CONFLICT" _ [] refl)
    ]
judge_endpoints-Returns run r atom none after =
    unknown-Returns r.condition_id "ORDER_ENDPOINT_MISSING" [] _
judge_endpoints-Returns run r atom (some x) none =
    unknown-Returns r.condition_id "ORDER_ENDPOINT_MISSING" [] _

judge_order-Returns :
    (run : RunEvidence) (js : List Judged) (r : TriggerCondition) → Returns (judge_order run js r)
unfolding judge_order
judge_order-Returns run js r = elim (Option-cases r.order) [
  | inl missing ↦
      rw missing (unknown-Returns r.condition_id "UNSUPPORTED_ORDERING_TIME_OR_FORMALIZATION" [] _)
  | inr (atom, found) ↦
      rw found (elim (Bool-cases (not r.formalized || is_some atom.max_gap_time)) [
        | inl bad ↦
            rw bad
              (unknown-Returns r.condition_id "UNSUPPORTED_ORDERING_TIME_OR_FORMALIZATION" [] _)
        | inr good ↦ rw good (
            judge_endpoints-Returns run r atom (selected_for js atom.before_atom_id)
              (selected_for js atom.after_atom_id))
      ])
]

judge_orders-Returns :
    (run : RunEvidence) (js : List Judged) (rs : List TriggerCondition)
    → Returns (judge_orders run js rs)
unfolding judge_orders
judge_orders-Returns run js [] = ([], refl)
judge_orders-Returns run js (r ∷ rs) =
    let (others, rest) = judge_orders-Returns run js rs in
    elim (Bool-cases (is_kind r.condition_kind ordering)) [
      | inl order ↦
          let (v, one) = judge_order-Returns run js r in
          (
            record { condition_id = r.condition_id; verdict = v; selected = none } ∷ others,
            simp (order, one, rest),
          )
      | inr other ↦ (others, simp (other, rest))
    ]

-- An atom with an address, which is every atom but a CSR atom.
abbrev pub is_addressed : AccessAtom → Bool
is_addressed (mmio a) = true
is_addressed (csr k) = false

-- The requirement has no CSR atom.
abbrev pub has_no_csr : TriggerCondition → Bool
has_no_csr r = elim r.access [ none ↦ true | some a ↦ is_addressed a ]

address_of-Returns : (a : AccessAtom) → is_addressed a ≡ true → Returns (address_of a)
address_of-Returns (mmio a) h = (a.address, refl)
address_of-Returns (csr k) h = cc

-- One round of the comprehension.
one_command-Returns :
    (b : StateBinding) (js : List Judged) (i : String) (rest : Result (List Executed))
    (access : Option AccessAtom)
    → Returns rest
    → (elim access [ none ↦ true | some a ↦ is_addressed a ]) ≡ true
    → Returns (elim access [
      | none ↦ rest
      | some atom ↦ (do
        address ← address_of atom
        others ← rest
        ok (
            if not (address == b.enable_address) && is_write (access_kind atom)
            then (elim (selected_for js i) [ none ↦ others | some x ↦ x ∷ others ])
            else others))
    ])
one_command-Returns b js i rest none h addressed = h
one_command-Returns b js i rest (some a) h addressed =
    Returns->>= (address_of a) _ (address_of-Returns a addressed)
      (λ address h1. Returns->>= rest _ h (λ others h2. (_, refl)))

pub commands-Returns :
    (b : StateBinding) (js : List Judged) (rs : List TriggerCondition)
    → all has_no_csr rs ≡ true
    → Returns (commands b js rs)
unfolding commands
commands-Returns b js [] h = ([], refl)
commands-Returns b js (r ∷ rs) h =
    one_command-Returns b js r.condition_id (commands b js rs) r.access
      (commands-Returns b js rs (ground arith)) (ground arith)

judge_prestate-Returns :
    (run : RunEvidence) (i : String) (state : PreState) (command : Observation) (want : Option ℕ)
    → Returns (judge_prestate run i state command want)
unfolding judge_prestate prestate_evidence
judge_prestate-Returns run i state command want = elim (Bool-cases (not (is_some state.value))) [
  | inl missing ↦ rw missing (unknown-Returns i state.reason [] _)
  | inr found ↦ rw found (elim (Bool-cases (prestate_accepted state command want)) [
    | inl good ↦ rw good (decided-Returns i supported "ACCEPTED_ENABLE_PRESTATE" _ [] refl)
    | inr bad ↦ rw bad (decided-Returns i contradicted "ENABLE_PRESTATE_CONFLICT" _ [] refl)
  ])
]

only_command-Returns :
    (run : RunEvidence) (b : StateBinding) (pre : Precondition) (found : Option Executed)
    → Returns (elim found [
      | none ↦
          condition pre.condition_id unknown "COMMAND_ENDPOINT_MISSING" [] ("bound_command" ∷ [])
      | some x ↦
          judge_prestate run pre.condition_id
            (state_before run.parsed x.observation (some b))
            x.observation
            (first_value (operands_of pre.required_relation))
    ])
only_command-Returns run b pre none =
    unknown-Returns pre.condition_id "COMMAND_ENDPOINT_MISSING" [] _
only_command-Returns run b pre (some x) =
    judge_prestate-Returns run pre.condition_id _ x.observation _

module _ (c : Contract) (run : RunEvidence) (s : Option ControlledSource)
    (addressed : all has_no_csr c.trigger ≡ true) where
  judge_precondition-Returns :
      (b : Option StateBinding) (js : List Judged) (pre : Precondition)
      → Returns (judge_precondition c run b s js pre)
  unfolding judge_precondition
  judge_precondition-Returns none js pre =
      unknown-Returns pre.condition_id "STATE_BINDING_OR_PREDICATE_MISSING" [] _
  judge_precondition-Returns (some b) js pre =
      elim (Bool-cases (
        not (source_ok c (some b) s)
        || not pre.formalized
        || not (predicate_eq pre.required_relation b.enable_subject))) [
          | inl bad ↦
              rw bad (unknown-Returns pre.condition_id "STATE_BINDING_OR_PREDICATE_MISSING" [] _)
          | inr good ↦ rw good (
              Returns->>= (commands b js c.trigger) _ (commands-Returns b js c.trigger addressed)
                (λ found h. only_command-Returns run b pre (only found)))
        ]

found_verdict-Returns :
    (i : String) (o : Option Judged)
    → Returns (elim o [
      | some j ↦ ok j.verdict
      | none ↦ condition i unknown "UNSUPPORTED_TRIGGER" [] ("supported_trigger_kind" ∷ [])
    ])
found_verdict-Returns i (some j) = (j.verdict, refl)
found_verdict-Returns i none = unknown-Returns i "UNSUPPORTED_TRIGGER" [] _

verdict_for-Returns : (js : List Judged) (r : TriggerCondition) → Returns (verdict_for js r)
unfolding verdict_for
verdict_for-Returns js r =
    found_verdict-Returns r.condition_id (latest (λ j. j.condition_id) js r.condition_id)

pub verify_trigger-Returns :
    (c : Contract) (run : RunEvidence) (b : Option StateBinding) (s : Option ControlledSource)
    (pairs : List Executed)
    → all has_no_csr c.trigger ≡ true
    → Returns (verify_trigger c run b s pairs)
unfolding verify_trigger
verify_trigger-Returns c run b s pairs addressed =
    Returns->>= (scope_verdict c run b s) _ (scope_verdict-Returns c run b s) (λ scope h1.
      Returns->>= (judge_accesses run pairs c.trigger) _
        (judge_accesses-Returns run pairs c.trigger)
        (λ accesses h2.
          Returns->>= (judge_orders run accesses c.trigger) _
            (judge_orders-Returns run accesses c.trigger)
            (λ orders h3.
              Returns->>= (traverse (judge_precondition c run b s accesses) c.preconditions) _
                (traverse-Returns (judge_precondition c run b s accesses) c.preconditions
                  (judge_precondition-Returns c run s addressed b accesses))
                (λ pres h4.
                  Returns->>= (traverse (verdict_for (accesses ++ orders)) c.trigger) _
                    (traverse-Returns (verdict_for (accesses ++ orders)) c.trigger
                      (verdict_for-Returns (accesses ++ orders)))
                    (λ required h5. (_, refl))))))
