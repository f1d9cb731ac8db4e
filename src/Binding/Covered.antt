-- ===== src/Binding/Covered.antt =====
-- A set of bindings covers the facts that it is about, and when the set is returned.
use chip_chain_v.Prelude.{
  ◌≡◌, refl, sym, ap, ◌∙◌, subst, String, String_eq, ◌==◌, Option, none, some, List, [], ◌∷◌, Memᴰ,
  arith, ok, ok-injective, require-eq-ok, >>=-eq-ok, Returns, Returns->>=, traverse, traverse-Memᴰ,
  traverse-in, traverse-Returns_inside, sorted_with-Memᴰ, Memᴰ-sorted_with, sorted_texts,
  find_first, select, map,
}
use chip_chain_v.Capability.{Capability, is_distinct, is_subset, selected_of, check_references}
use chip_chain_v.Capability.Kinds.{selected_of-Returns}
use chip_chain_v.Binding.Data.{
  BehaviorFact, Analysis, Resource, Catalog, Draft, Binding, ExplicitManualBinding, SetDraft,
  BindingSet,
}
use chip_chain_v.Binding.Select.{
  Fact, judge_width, judge_match, judge_matches, matches, make_binding, automatic, manual_draft,
  bind_manual, select_kind, select_binding,
}
use chip_chain_v.Binding.Sets.{
  manual_for, fact_of, fact_of_primitive, make_set, bind_fact, bind_resources, bind_primitive,
  bind_capability, bind_capabilities, concat,
}

judge_matches-fact :
    (f : Fact) (rs : List Resource) → (judge_matches f rs).firmware_behavior_id ≡ f.fact_id
unfolding judge_matches judge_match judge_width
judge_matches-fact f [] = refl
judge_matches-fact f (r ∷ []) = ground arith
judge_matches-fact f (r ∷ q ∷ rs) = refl

module _ (casefold : String → String) (content_id : Draft → String) where
  automatic-fact :
      (f : Fact) (c : Catalog) → (automatic casefold f c).firmware_behavior_id ≡ f.fact_id
  unfolding automatic
  automatic-fact f c =
      let decided = judge_matches-fact f (select (matches casefold f) c.resources) in ground arith

  -- A binding is made from some draft on the fact, and its identifier is the draft's hash.
  pub record IsMade (f : Fact) (b : Binding) : Type 0 where
    pub fact : b.content.firmware_behavior_id ≡ f.fact_id
    pub identifier : b.binding_id ≡ content_id b.content

  bind_manual-IsMade :
      (f : Fact) (m : ExplicitManualBinding) (o : Option Resource) (b : Binding)
      → bind_manual casefold content_id f m o ≡ ok b
      → IsMade f b
  unfolding bind_manual manual_draft
  bind_manual-IsMade f m none b h = cc
  bind_manual-IsMade f m (some r) b h =
      let (_, made) =
        require-eq-ok _ "Manual binding resource kind conflicts with behavior kind" _ h in
      let same = sym (ok-injective made) in
      record {
        fact = ap (λ x. x.content.firmware_behavior_id) same;
        identifier = ap (λ x. x.binding_id) same ∙ ap (λ x. content_id x.content) (sym same);
      }

  select_kind-IsMade :
      (f : Fact) (c : Catalog) (m : Option ExplicitManualBinding) (b : Binding)
      → select_kind casefold content_id f c m ≡ ok b
      → IsMade f b
  unfolding select_kind
  select_kind-IsMade f c none b h =
      let same = sym (ok-injective h) in
      record {
        fact = ap (λ x. x.content.firmware_behavior_id) same ∙ automatic-fact f c;
        identifier = ap (λ x. x.binding_id) same ∙ ap (λ x. content_id x.content) (sym same);
      }
  select_kind-IsMade f c (some m) b h =
      bind_manual-IsMade f m (find_first (λ r. r.resource_id == m.hardware_resource_id) c.resources)
        b h

  pub select_binding-IsMade :
      (f : Fact) (c : Catalog) (m : Option ExplicitManualBinding) (b : Binding)
      → select_binding casefold content_id f c m ≡ ok b
      → IsMade f b
  unfolding select_binding
  select_binding-IsMade f c m b h =
      let (_, made) = require-eq-ok (f.architecture == c.architecture) _ _ h in
      select_kind-IsMade f c m b made

  -- Without a manual declaration only the architecture can be wrong.
  select_binding-Returns :
      (f : Fact) (c : Catalog)
      → f.architecture ≡ c.architecture
      → Returns (select_binding casefold content_id f c none)
  unfolding select_binding select_kind
  select_binding-Returns f c same =
      let test = (String_eq.beq_iff f.architecture c.architecture).1 same in
      (make_binding casefold content_id (automatic casefold f c), simp test)

-- Where the bindings of an analysis are returned, each of its facts has a binding, each binding is
-- that of a fact, and the identifier of each binding is the hash of its fields.
pub bind_resources-covered :
    (casefold : String → String) (content_id : Draft → String) (set_id : SetDraft → String)
    (source_id_of : List String → String) (a : Analysis) (c : Catalog)
    (ms : List ExplicitManualBinding) (s : BindingSet)
    → bind_resources casefold content_id set_id source_id_of a c ms ≡ ok s
    → ((b : BehaviorFact)
        → Memᴰ b a.behaviors
        → (x : Binding) × Memᴰ x s.content.bindings × (x.content.firmware_behavior_id ≡ b.fact_id))
      × ((x : Binding)
          → Memᴰ x s.content.bindings
          → (b : BehaviorFact) × Memᴰ b a.behaviors
            × (x.content.firmware_behavior_id ≡ b.fact_id)
            × (x.binding_id ≡ content_id x.content))
unfolding bind_resources make_set
bind_resources-covered casefold content_id set_id source_id_of a c ms s h =
    let call = bind_fact casefold content_id set_id source_id_of a c ms in
    let (_, h1) = require-eq-ok _ "Invalid manual behavior binding set" _ h in
    let (xs, bound, h2) = >>=-eq-ok (traverse call a.behaviors) _ h1 in
    let same = ap (λ y. y.content.bindings) (ok-injective h2) in
    let made : (b : BehaviorFact) (x : Binding)
        → call b ≡ ok x
        → IsMade casefold content_id (fact_of a b) x =
      λ b x e.
        select_binding-IsMade casefold content_id (fact_of a b) c (manual_for ms b.fact_id) x e in
    (
      λ b m.
          let (x, found, inside) = traverse-in call a.behaviors b bound m in
          (x, subst (Memᴰ x) same (Memᴰ-sorted_with _ x xs inside), (made b x found).fact),
      λ x m.
          let inside = sorted_with-Memᴰ _ x xs (subst (Memᴰ x) (sym same) m) in
          let (b, known, found) = traverse-Memᴰ call a.behaviors xs x bound inside in
          (b, known, (made b x found).fact, (made b x found).identifier),
    )

-- Accepted capabilities of the catalog's architecture are bound, without manual declarations, and
-- no key is missing.
pub bind_capabilities-Returns :
    (casefold : String → String) (content_id : Draft → String) (set_id : SetDraft → String)
    (source_id_of : List String → String) (cs : List Capability) (c : Catalog)
    → ((k : Capability)
        → Memᴰ k cs
        → (check_references k ≡ ok tt) × (k.architecture ≡ c.architecture))
    → Returns (bind_capabilities casefold content_id set_id source_id_of cs c [])
unfolding bind_capabilities bind_capability bind_primitive is_distinct is_subset
bind_capabilities-Returns casefold content_id set_id source_id_of cs c accepted =
    let (xss, bound) =
      traverse-Returns_inside (bind_capability casefold content_id set_id source_id_of c []) cs
        (λ k m.
          traverse-Returns_inside (bind_primitive casefold content_id set_id source_id_of c [] k)
            k.primitives
            (λ p inside.
              let (checked, same) = accepted k m in
              let (selected, found) = selected_of-Returns k p checked inside in
              Returns->>= (selected_of k.constraints p) _ (selected, found)
                (λ constraints e.
                  select_binding-Returns casefold content_id (fact_of_primitive k p constraints) c
                    same))) in
    (
      make_set casefold content_id set_id source_id_of
          (source_id_of (sorted_texts (map (λ k. k.capability_id) cs))) c (concat xss),
      simp bound,
    )
