-- ===== src/Binding/Manual.antt =====
-- Manual declarations, and when `_select` raises.
use chip_chain_v.Prelude.{
  ◌≡◌, refl, sym, ap, ◌∙◌, String, String_eq, Bool, true, false, ◌&&◌, ◌||◌, ◌==◌, Option, none,
  some, find_first, Memᴰ, arith, ok, ok-injective, require-eq-ok, find_first-Memᴰ,
}
use chip_chain_v.Binding.Data.{
  is_addressed, is_register, Resource, Catalog, BindingStatus, contradicted, Draft, Binding,
  ExplicitManualBinding,
}
use chip_chain_v.Binding.Select.{
  Fact, is_memory, is_system, manual_conflict, manual_draft, bind_manual, select_kind,
  select_binding,
}

-- The status of a binding by a manual declaration.
abbrev pub manual_status : Bool → BindingStatus
manual_status true = contradicted
manual_status false = BindingStatus.unknown

module _ (casefold : String → String) (content_id : Draft → String) where
  bind_manual-eq-ok :
      (f : Fact) (m : ExplicitManualBinding) (o : Option Resource) (b : Binding)
      → bind_manual casefold content_id f m o ≡ ok b
      → (r : Resource) × (o ≡ some r)
        × (b.content ≡ manual_draft casefold f r m)
        × ((is_memory f.kind && is_addressed r.kind || is_system f.kind && is_register r.kind)
            ≡ true)
  unfolding bind_manual
  bind_manual-eq-ok f m none b h = cc
  bind_manual-eq-ok f m (some r) b h =
      let (fits, made) =
        require-eq-ok
          (is_memory f.kind && is_addressed r.kind || is_system f.kind && is_register r.kind) _ _
          h in
      (r, refl, ap (λ x. x.content) (sym (ok-injective made)), fits)

-- A binding by a manual declaration names the declared resource, which the catalog has and whose
-- kind suits the fact. It is contradicted or unknown, never supported.
pub select_binding-manual :
    (casefold : String → String) (content_id : Draft → String) (f : Fact) (c : Catalog)
    (m : ExplicitManualBinding) (b : Binding)
    → select_binding casefold content_id f c (some m) ≡ ok b
    → (r : Resource) × Memᴰ r c.resources
      × (r.resource_id ≡ m.hardware_resource_id)
      × (b.content.hardware_resource_id ≡ some r.resource_id)
      × ((is_memory f.kind && is_addressed r.kind || is_system f.kind && is_register r.kind) ≡ true)
      × (b.content.status ≡ manual_status (manual_conflict casefold f r))
unfolding select_binding select_kind manual_draft
select_binding-manual casefold content_id f c m b h =
    let (_, made) = require-eq-ok (f.architecture == c.architecture) _ _ h in
    let (r, found, same, fits) =
      bind_manual-eq-ok casefold content_id f m
        (find_first (λ q. q.resource_id == m.hardware_resource_id) c.resources) b made in
    let (inside, named) =
      find_first-Memᴰ (λ q. q.resource_id == m.hardware_resource_id) c.resources r found in
    (
      r,
      inside,
      (String_eq.beq_iff r.resource_id m.hardware_resource_id).0 named,
      ap (λ d. d.hardware_resource_id) same,
      fits,
      ap (λ d. d.status) same ∙ ground arith,
    )
