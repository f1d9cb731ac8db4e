-- ===== src/Binding/Tests.antt =====
-- The bindings of an example.
use chip_chain_v.Prelude.{
  ◌≡◌, refl, String_eq, true, ◌&&◌, ◌||◌, none, some, [], ◌∷◌, ok, is_ok, value_of, value_of-ok,
  Result, Returns, traverse, Memᴰ, Memᴰ-in_one,
}
use chip_chain_v.Capability.{is_distinct, is_subset, Capability, check_references}
use chip_chain_v.Capability.Example.{capability, capability-accepted}
use chip_chain_v.Binding.Data.{
  supported, Binding, BindingSet, BehaviorFact, Resource, is_addressed, is_register,
}
use chip_chain_v.Binding.Select.{
  Fact, judge_width, judge_match, judge_matches, matches, automatic, manual_conflict, manual_draft,
  bind_manual, select_kind, select_binding, is_memory, is_system,
}
use chip_chain_v.Binding.Sets.{fact_of, make_set, bind_resources, bind_capabilities}
use chip_chain_v.Binding.Supported.{IsBound, select_binding-IsBound}
use chip_chain_v.Binding.Manual.{manual_status, select_binding-manual}
use chip_chain_v.Binding.Covered.{bind_resources-covered, bind_capabilities-Returns}
use chip_chain_v.Binding.Example.{
  same_text, draft_id, set_id, capset_id, catalog, read_fact, analysis, declaration,
}

abbrev fact : Fact
fact = fact_of analysis read_fact

abbrev bound : Result Binding
bound = select_binding same_text draft_id fact catalog none

bound-is_ok : is_ok bound ≡ true
unfolding judge_width judge_match judge_matches matches automatic select_kind select_binding
bound-is_ok = refl

bound_supported : (value_of bound bound-is_ok).content.status ≡ supported
unfolding judge_width judge_match judge_matches matches automatic select_kind select_binding
bound_supported = refl

select_binding-IsBound_example :
    (r : Resource) × IsBound same_text fact catalog r
    × ((value_of bound bound-is_ok).content.hardware_resource_id ≡ some r.resource_id)
select_binding-IsBound_example =
    select_binding-IsBound same_text draft_id fact catalog (value_of bound bound-is_ok)
      (value_of-ok bound bound-is_ok) bound_supported

abbrev declared : Result Binding
declared = select_binding same_text draft_id fact catalog (some declaration)

declared-is_ok : is_ok declared ≡ true
unfolding manual_conflict manual_draft bind_manual select_kind select_binding
declared-is_ok = refl

select_binding-manual_example :
    (r : Resource) × Memᴰ r catalog.resources
    × (r.resource_id ≡ declaration.hardware_resource_id)
    × ((value_of declared declared-is_ok).content.hardware_resource_id ≡ some r.resource_id)
    × ((is_memory fact.kind && is_addressed r.kind || is_system fact.kind && is_register r.kind)
        ≡ true)
    × ((value_of declared declared-is_ok).content.status
        ≡ manual_status (manual_conflict same_text fact r))
select_binding-manual_example =
    select_binding-manual same_text draft_id fact catalog declaration
      (value_of declared declared-is_ok) (value_of-ok declared declared-is_ok)

abbrev set : Result BindingSet
set = bind_resources same_text draft_id set_id capset_id analysis catalog []

set-is_ok : is_ok set ≡ true
unfolding judge_width judge_match judge_matches matches automatic select_kind select_binding
    is_distinct is_subset traverse make_set bind_resources
set-is_ok = refl

bind_resources-covered_example :
    ((b : BehaviorFact)
      → Memᴰ b analysis.behaviors
      → (x : Binding) × Memᴰ x (value_of set set-is_ok).content.bindings
        × (x.content.firmware_behavior_id ≡ b.fact_id))
    × ((x : Binding)
        → Memᴰ x (value_of set set-is_ok).content.bindings
        → (b : BehaviorFact) × Memᴰ b analysis.behaviors
          × (x.content.firmware_behavior_id ≡ b.fact_id)
          × (x.binding_id ≡ draft_id x.content))
bind_resources-covered_example =
    bind_resources-covered same_text draft_id set_id capset_id analysis catalog []
      (value_of set set-is_ok) (value_of-ok set set-is_ok)

accepted :
    (k : Capability)
    → Memᴰ k (capability ∷ [])
    → (check_references k ≡ ok tt) × (k.architecture ≡ catalog.architecture)
accepted =
    Memᴰ-in_one (λ k. (check_references k ≡ ok tt) × (k.architecture ≡ catalog.architecture))
      capability (capability-accepted, refl)

bind_capabilities-Returns_example :
    Returns (bind_capabilities same_text draft_id set_id capset_id (capability ∷ []) catalog [])
bind_capabilities-Returns_example =
    bind_capabilities-Returns same_text draft_id set_id capset_id (capability ∷ []) catalog accepted
