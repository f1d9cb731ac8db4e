-- ===== src/Matching/Total.antt =====
-- When a candidate is returned.
use chip_chain_v.Prelude.{
  ◌≡◌, refl, sym, ap, String, String_eq, true, ◌==◌, ℕ, Option, List, map, all, Memᴰ, ok,
  ok-injective, Returns, Returns->>=, >>=-eq-ok, require-eq-ok, traverse, traverse-Returns_inside,
  sorted_texts, Memᴰ-all,
}
use chip_chain_v.Capability.{Capability, check_references, selected_of}
use chip_chain_v.Capability.Kinds.{selected_of-Returns}
use chip_chain_v.Binding.{
  Catalog, Binding, Draft, SetDraft, BindingSet, ExplicitManualBinding, bind_capability,
  bind_capabilities, make_set, concat,
}
use chip_chain_v.Matching.Data.{Contract, check_candidate}
use chip_chain_v.Matching.Match.{item_of, option_of, options_of, candidate_of, match_requirements}

options_of-Returns :
    (bs : List Binding) (cs : List Capability)
    → ((c : Capability) → Memᴰ c cs → check_references c ≡ ok tt)
    → Returns (options_of bs cs)
unfolding options_of option_of
options_of-Returns bs cs accepted =
    traverse-Returns_inside (λ c. traverse (option_of bs c) c.primitives) cs
      (λ c m. traverse-Returns_inside (option_of bs c) c.primitives (λ p inside.
        let (selected, found) = selected_of-Returns c p (accepted c m) inside in
        Returns->>= (selected_of c.constraints p) _ (selected, found)
          (λ s e. (item_of bs c p s, refl))))

bind_capabilities-source :
    (casefold : String → String) (content_id : Draft → String) (set_id : SetDraft → String)
    (source_id_of : List String → String) (cs : List Capability) (catalog : Catalog)
    (ms : List ExplicitManualBinding) (set : BindingSet)
    → bind_capabilities casefold content_id set_id source_id_of cs catalog ms ≡ ok set
    → set.content.firmware_source_id ≡ source_id_of (sorted_texts (map (λ c. c.capability_id) cs))
unfolding bind_capabilities make_set
bind_capabilities-source casefold content_id set_id source_id_of cs catalog ms set h =
    let (_, h1) = require-eq-ok _ "Invalid manual capability binding set" _ h in
    let (xss, bound, h2) =
      >>=-eq-ok (traverse (bind_capability casefold content_id set_id source_id_of catalog ms) cs) _
        h1 in
    ap (λ s. s.content.firmware_source_id) (sym (ok-injective h2))

-- Capabilities of the contract's architecture that are accepted are matched with the bindings that
-- were made for them: no check fails, and no key is missing.
pub match_requirements-Returns :
    (casefold : String → String) (parse_int : String → Option ℕ) (content_id : Draft → String)
    (set_id : SetDraft → String) (source_id_of : List String → String) (cs : List Capability)
    (catalog : Catalog) (ms : List ExplicitManualBinding) (set : BindingSet) (k : Contract)
    → ((c : Capability)
        → Memᴰ c cs
        → (check_references c ≡ ok tt) × (c.architecture ≡ k.architecture))
    → bind_capabilities casefold content_id set_id source_id_of cs catalog ms ≡ ok set
    → Returns (match_requirements casefold parse_int source_id_of cs set k)
unfolding match_requirements check_candidate
match_requirements-Returns casefold parse_int content_id set_id source_id_of cs catalog ms set k
      accepted h =
    let architectures : all (λ c. c.architecture == k.architecture) cs ≡ true =
      Memᴰ-all (λ c. c.architecture == k.architecture) cs
        (λ c m. (String_eq.beq_iff c.architecture k.architecture).1 (accepted c m).1) in
    let source =
      (String_eq.beq_iff set.content.firmware_source_id
          (source_id_of (sorted_texts (map (λ c. c.capability_id) cs)))).1
        (bind_capabilities-source casefold content_id set_id source_id_of cs catalog ms set h) in
    let (options, found) = options_of-Returns set.content.bindings cs (λ c m. (accepted c m).0) in
    (
      candidate_of casefold parse_int source_id_of cs set k (concat options),
      simp (architectures, source, found),
    )
