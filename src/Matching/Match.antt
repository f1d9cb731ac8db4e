-- ===== src/Matching/Match.antt =====
-- `match_requirements`: the options, the matches of all conditions and the overall status.
use chip_chain_v.Prelude.{
  ℕ, String, String_eq, Bool, true, false, ◌&&◌, ◌==◌, Option, none, some, List, [], ◌∷◌, ◌++◌, map,
  any, all, is_nonempty, if◌then◌else◌, Result, ok, ◌>>◌, ◌>>=◌, require, traverse, sorted_with,
  sorted_texts, sorted_set, text_leb,
}
use chip_chain_v.Capability.{Primitive, Constraint, Capability, selected_of, exact_of, csr_of}
use chip_chain_v.Binding.{Binding, BindingSet, concat}
use chip_chain_v.Matching.Data.{
  mmio_access, csr_access, memory_operation, TriggerCondition, Contract, Item, Status, supported,
  contradicted, unknown, ambiguous, RequirementMatch, Candidate, check_candidate,
}
use chip_chain_v.Matching.Judge.{
  match_of, judge_mmio, judge_csr, relation_address, judge_memory, runtime_only,
}

-- `by_primitive.get(id)`: the last binding for the key counts.
unfoldable pub binding_of : List Binding → String → Option Binding
binding_of [] i = none
binding_of (b ∷ bs) i =
    let later = binding_of bs i in
    elim later [
      | some c ↦ some c
      | none ↦ if b.content.firmware_behavior_id == i then some b else none
    ]

abbrev pub item_of : List Binding → Capability → Primitive → List Constraint → Item
item_of bs c p selected = record {
  capability_id = c.capability_id;
  kind = p.kind;
  address = exact_of "address" selected;
  value = exact_of "value" selected;
  width = exact_of "access_width" selected;
  binding = binding_of bs p.primitive_id;
  csr = csr_of selected;
}

-- The body of the loop over the primitives.
unfoldable pub option_of : List Binding → Capability → Primitive → Result Item
unfolding binding_of
option_of bs c p = do selected ← selected_of c.constraints p; ok (item_of bs c p selected)

unfoldable pub options_of : List Binding → List Capability → Result (List (List Item))
unfolding option_of
options_of bs cs = traverse (λ c. traverse (option_of bs c) c.primitives) cs

-- A match, and whether its status is one of `access_status`.
pub record Judged : Type 0 where
  pub requirement_match : RequirementMatch
  pub counts : Bool

abbrev pub counted : RequirementMatch → Judged
counted m = record { requirement_match = m; counts = true }

abbrev pub uncounted : RequirementMatch → Judged
uncounted m = record { requirement_match = m; counts = false }

abbrev pub contract_condition : String → String → RequirementMatch
contract_condition reason id =
    match_of id [] unknown "This contract condition requires authoritative runtime verification"
      (reason ∷ [])

abbrev pub platform_match : RequirementMatch
platform_match =
    match_of "hbc:platform-and-scope" [] unknown
      "Catalog identity and architecture match do not establish pinned platform, firmware or RTL scope"
      ("runtime_platform_and_source_binding" ∷ [])

-- The conditions that no static fact establishes.
unfoldable pub runtime_matches : Contract → List RequirementMatch
runtime_matches k =
    map (contract_condition "prestate_requires_runtime_evidence") k.preconditions
    ++ (map (contract_condition "deviation_requires_runtime_evidence") k.deviation
        ++ (map (contract_condition "observation_requires_runtime_evidence") k.observation
            ++ platform_match ∷ []))

abbrev pub is_supported_status : Status → Bool
is_supported_status supported = true
is_supported_status _ = false

abbrev pub is_contradicted_status : Status → Bool
is_contradicted_status contradicted = true
is_contradicted_status _ = false

abbrev pub is_ambiguous_status : Status → Bool
is_ambiguous_status ambiguous = true
is_ambiguous_status _ = false

-- The statuses of the access conditions.
abbrev pub access_status : List Judged → List Status
access_status [] = []
access_status (j ∷ js) =
    let rest = access_status js in
    if j.counts then j.requirement_match.static_compatibility_status ∷ rest else rest

unfoldable pub overall_status : List Status → Status
overall_status ss =
    if any is_contradicted_status ss
    then contradicted
    else if any is_ambiguous_status ss
    then ambiguous
    else if is_nonempty ss && all is_supported_status ss
    then supported
    else unknown

abbrev needs : List RequirementMatch → List String
needs [] = []
needs (m ∷ ms) = m.missing_requirements ++ needs ms

-- `str.casefold`, `int(text, 0)` and the hash of the capabilities' identifiers are parameters.
module _ (casefold : String → String) (parse_int : String → Option ℕ)
    (source_id_of : List String → String) where
  -- The body of the loop over the trigger conditions.
  unfoldable pub judge_condition : List Item → TriggerCondition → Judged
  judge_condition options t = elim t.requirement [
    | mmio_access (some a) ↦ counted (judge_mmio t.condition_id a options)
    | csr_access (some a) ↦ counted (judge_csr casefold parse_int t.condition_id a options)
    | memory_operation (some r) ↦ counted (judge_memory t.condition_id (relation_address r) options)
    | _ ↦ uncounted (runtime_only t.condition_id)
  ]

  abbrev pub judged_conditions : Contract → List Item → List Judged
  judged_conditions k options = map (judge_condition options) k.trigger

  abbrev pub all_matches : Contract → List Item → List RequirementMatch
  all_matches k options =
      map (λ j. j.requirement_match) (judged_conditions k options) ++ runtime_matches k

  abbrev pub candidate_of : List Capability → BindingSet → Contract → List Item → Candidate
  candidate_of cs set k options = record {
    contract_id = k.contract_id;
    capability_ids = sorted_texts (map (λ c. c.capability_id) cs);
    binding_set_id = set.binding_set_id;
    requirements =
        sorted_with (λ m n. text_leb m.requirement_id n.requirement_id) (all_matches k options);
    static_compatibility_status = overall_status (access_status (judged_conditions k options));
    verification_required = true;
    missing_requirements = sorted_set (needs (all_matches k options));
  }

  unfoldable pub match_requirements : List Capability → BindingSet → Contract → Result Candidate
  unfolding options_of judge_condition overall_status
  match_requirements cs set k = do
    require (all (λ c. c.architecture == k.architecture) cs)
        "Capability and contract architecture differ"
    require
        (set.content.firmware_source_id
          == source_id_of (sorted_texts (map (λ c. c.capability_id) cs)))
        "Resource bindings are for a different capability set"
    options ← options_of set.content.bindings cs
    check_candidate (candidate_of cs set k (concat options))
    ok (candidate_of cs set k (concat options))
