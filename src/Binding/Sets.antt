-- ===== src/Binding/Sets.antt =====
-- `bind_resources` and `bind_capabilities`: the bindings of all facts of an analysis, and of all
-- primitives of the given capabilities.
use chip_chain_v.Prelude.{
  String, String_eq, Bool, ◌&&◌, ◌==◌, Option, List, [], ◌∷◌, ◌++◌, map, find_first, Result, ok,
  ◌>>◌, ◌>>=◌, require, traverse, sorted_with, sorted_texts, pair_leb,
}
use chip_chain_v.Capability.{
  Primitive, Constraint, Capability, is_distinct, is_subset, selected_of, exact_of, csr_of,
}
use chip_chain_v.Binding.Data.{
  Catalog, behavior, primitive, BehaviorFact, Analysis, Draft, Binding, ExplicitManualBinding,
  SetDraft, BindingSet,
}
use chip_chain_v.Binding.Select.{Fact, select_binding}

abbrev binding_key : Binding → String × String
binding_key b = (b.content.firmware_behavior_id, b.binding_id)

abbrev binding_leb : Binding → Binding → Bool
binding_leb a b = pair_leb (binding_key a) (binding_key b)

abbrev manual_ids : List ExplicitManualBinding → List String
manual_ids ms = map (λ m. m.firmware_behavior_id) ms

-- `manual.get(fact_id)`, where the declarations have distinct facts.
abbrev pub manual_for : List ExplicitManualBinding → String → Option ExplicitManualBinding
manual_for ms i = find_first (λ m. m.firmware_behavior_id == i) ms

abbrev pub fact_of : Analysis → BehaviorFact → Fact
fact_of a b = record {
  fact_id = b.fact_id;
  architecture = a.architecture;
  kind = behavior b.kind;
  address = b.address;
  register = b.system_register;
  width_bits = b.access_width_bits;
  evidence_ids = b.instruction_id ∷ a.sha256 ∷ [];
}

abbrev pub fact_of_primitive : Capability → Primitive → List Constraint → Fact
fact_of_primitive c p selected = record {
  fact_id = p.primitive_id;
  architecture = c.architecture;
  kind = primitive p.kind;
  address = exact_of "address" selected;
  register = csr_of selected;
  width_bits = exact_of "access_width" selected;
  evidence_ids = c.capability_id ∷ [];
}

unfoldable pub concat {ℓ} : {A : Type ℓ} → List (List A) → List A
concat [] = []
concat (xs ∷ xss) = xs ++ concat xss

-- The hashes of a binding, of a set and of the identifiers of the capabilities are parameters.
module _ (casefold : String → String) (content_id : Draft → String) (set_id : SetDraft → String)
    (source_id_of : List String → String) where
  -- `_set`
  unfoldable pub make_set : String → Catalog → List Binding → BindingSet
  make_set source c bindings =
      let content : SetDraft = record {
        firmware_source_id = source;
        catalog_id = c.catalog_id;
        bindings = sorted_with binding_leb bindings;
      } in
      record { binding_set_id = set_id content; content = content }

  abbrev pub bind_fact :
      Analysis → Catalog → List ExplicitManualBinding → BehaviorFact → Result Binding
  bind_fact a c ms b = select_binding casefold content_id (fact_of a b) c (manual_for ms b.fact_id)

  unfoldable pub bind_resources :
      Analysis → Catalog → List ExplicitManualBinding → Result BindingSet
  unfolding make_set
  bind_resources a c ms = do
    require
        (is_distinct (manual_ids ms)
          && is_subset (manual_ids ms) (map (λ b. b.fact_id) a.behaviors))
        "Invalid manual behavior binding set"
    bindings ← traverse (bind_fact a c ms) a.behaviors
    ok (make_set a.analysis_id c bindings)

  -- The body of the loop over the primitives.
  unfoldable pub bind_primitive :
      Catalog → List ExplicitManualBinding → Capability → Primitive → Result Binding
  bind_primitive catalog ms c p = do
    selected ← selected_of c.constraints p
    select_binding casefold content_id (fact_of_primitive c p selected) catalog
        (manual_for ms p.primitive_id)

  unfoldable pub bind_capability :
      Catalog → List ExplicitManualBinding → Capability → Result (List Binding)
  unfolding bind_primitive
  bind_capability catalog ms c = traverse (bind_primitive catalog ms c) c.primitives

  unfoldable pub bind_capabilities :
      List Capability → Catalog → List ExplicitManualBinding → Result BindingSet
  unfolding make_set bind_capability
  bind_capabilities cs catalog ms = do
    require
        (is_distinct (manual_ids ms)
          && is_subset (manual_ids ms)
              (concat (map (λ c. map (λ p. p.primitive_id) c.primitives) cs)))
        "Invalid manual capability binding set"
    bindings ← traverse (bind_capability catalog ms) cs
    ok (
        make_set (source_id_of (sorted_texts (map (λ c. c.capability_id) cs))) catalog
          (concat bindings))
