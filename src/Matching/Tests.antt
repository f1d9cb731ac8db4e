-- ===== src/Matching/Tests.antt =====
-- A contract whose one access the example capability performs.
use chip_chain_v.Prelude.{
  ◌≡◌, refl, String, String_eq, ℕ, true, Option, none, some, List, [], ◌∷◌, ok, is_ok, value_of,
  value_of-ok, Result, Returns, traverse, sorted_with, insert_with, Memᴰ, Memᴰ-in_one, sorted_texts,
  insert_sorted, is_nonempty,
}
use chip_chain_v.Capability.{
  is_distinct, is_subset, Capability, check_references, selected_of, constraint_named, domain_of,
  csr_of,
}
use chip_chain_v.Capability.Example.{capability, capability-accepted}
use chip_chain_v.Binding.{
  BindingSet, judge_width, judge_match, judge_matches, matches, automatic, select_kind,
  select_binding, make_set, bind_primitive, bind_capability, bind_capabilities, concat,
}
use chip_chain_v.Binding.Example.{same_text, draft_id, set_id, capset_id, catalog}
use chip_chain_v.Matching.Data.{
  AccessKind, mmio_access, check_candidate, TriggerCondition, Contract, Item, Candidate, supported,
}
use chip_chain_v.Matching.Judge.{value_fate, mmio_fate, mmio_status, judge_mmio}
use chip_chain_v.Matching.Match.{
  binding_of, option_of, options_of, access_status, judged_conditions, overall_status,
  judge_condition, match_requirements, runtime_matches,
}
use chip_chain_v.Matching.Candidates.{IsEstablished, match_requirements-IsEstablished}
use chip_chain_v.Matching.Total.{match_requirements-Returns}

abbrev no_number : String → Option ℕ
no_number s = none

abbrev set : Result BindingSet
set = bind_capabilities same_text draft_id set_id capset_id (capability ∷ []) catalog []

set-is_ok : is_ok set ≡ true
unfolding judge_width judge_match judge_matches matches automatic select_kind select_binding
    is_distinct is_subset traverse make_set bind_primitive bind_capability bind_capabilities
    selected_of constraint_named domain_of csr_of concat
set-is_ok = refl

abbrev bindings : BindingSet
bindings = value_of set set-is_ok

abbrev contract : Contract
contract = record {
  contract_id = "hwbehavior:1";
  architecture = "riscv";
  trigger =
      record {
        condition_id = "t-read";
        requirement = mmio_access (
            some (record {
              address = 0x4000;
              access = AccessKind.read;
              value_constraint = none;
              width_bits = some 32;
            }));
      }
      ∷ [];
  preconditions = "p-reset" ∷ [];
  deviation = "d-value" ∷ [];
  observation = "o-value" ∷ [];
}

abbrev candidate : Result Candidate
candidate = match_requirements same_text no_number capset_id (capability ∷ []) bindings contract

candidate-is_ok : is_ok candidate ≡ true
unfolding judge_width judge_match judge_matches matches automatic select_kind select_binding
    is_distinct is_subset traverse make_set bind_primitive bind_capability bind_capabilities
    selected_of constraint_named domain_of csr_of concat sorted_with insert_with sorted_texts
    insert_sorted binding_of option_of options_of match_requirements judge_condition overall_status
    runtime_matches check_candidate
candidate-is_ok = refl

abbrev result : Candidate
result = value_of candidate candidate-is_ok

result_supported : result.static_compatibility_status ≡ supported
unfolding judge_width judge_match judge_matches matches automatic select_kind select_binding
    is_distinct is_subset traverse make_set bind_primitive bind_capability bind_capabilities
    selected_of constraint_named domain_of csr_of concat sorted_with insert_with sorted_texts
    insert_sorted binding_of option_of options_of match_requirements judge_condition overall_status
    runtime_matches check_candidate value_fate mmio_fate mmio_status judge_mmio
result_supported = refl

match_requirements-IsEstablished_example :
    (options : List (List Item)) × (options_of bindings.content.bindings (capability ∷ [])
      ≡ ok options)
    × (is_nonempty (
          access_status (judged_conditions same_text no_number capset_id contract (concat options)))
        ≡ true)
    × ((t : TriggerCondition)
        → Memᴰ t contract.trigger
        → IsEstablished same_text no_number (concat options) t.requirement)
match_requirements-IsEstablished_example =
    match_requirements-IsEstablished same_text no_number capset_id (capability ∷ []) bindings
      contract result (value_of-ok candidate candidate-is_ok) result_supported

accepted :
    (c : Capability)
    → Memᴰ c (capability ∷ [])
    → (check_references c ≡ ok tt) × (c.architecture ≡ contract.architecture)
accepted =
    Memᴰ-in_one (λ c. (check_references c ≡ ok tt) × (c.architecture ≡ contract.architecture))
      capability (capability-accepted, refl)

match_requirements-Returns_example :
    Returns (match_requirements same_text no_number capset_id (capability ∷ []) bindings contract)
match_requirements-Returns_example =
    match_requirements-Returns same_text no_number draft_id set_id capset_id (capability ∷ [])
      catalog [] bindings contract accepted (value_of-ok set set-is_ok)
