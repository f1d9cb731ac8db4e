-- ===== src/Compat/Rows.antt =====
-- What the row of a trigger says of the firmware's primitives.
use chip_chain_v.Prelude.{
  ◌≡◌, refl, sym, ap, subst, ◌∙◌, String, String_eq, true, List, [], ◌∷◌, map, Memᴰ, select,
  is_nonempty, Bool-cases, inl, inr, ok, ok-injective, >>=-eq-ok, any-some, Memᴰ-select,
  select-Memᴰ, Memᴰ-map_in, Memᴰ-map_out, sorted_with, sorted_with-Memᴰ, Memᴰ-sorted_with, traverse,
  traverse-Memᴰ, text_leb,
}
use chip_chain_v.Domains.{compatible, unknown}
use chip_chain_v.Capability.{Primitive, Capability}
use chip_chain_v.Compat.Data.{
  is_compatible, aggregate_required, aggregate_alternatives, Alternative, Row, row_of, row_outcome,
  matched, check_row, make_row, outcomes,
}
use chip_chain_v.Compat.Fields.{Trigger}
use chip_chain_v.Compat.Trigger.{
  trigger_alternative, missing_primitives, objects_of, make_trigger_row,
}
use chip_chain_v.Compat.Met.{is_compatible-eq, aggregate_alternatives-compatible}
use chip_chain_v.Compat.Sound.{IsMet, trigger_alternative-IsMet}

missing_primitives-unknown :
    (ps : List Primitive) → aggregate_required (outcomes (missing_primitives ps)) ≡ unknown
unfolding aggregate_required
missing_primitives-unknown [] = refl
missing_primitives-unknown (p ∷ ps) = refl

-- The alternatives that a row was made of.
row_alternatives :
    (lower : String → String) (fw : Capability) (t : Trigger) (r : Row)
    → make_trigger_row lower fw t ≡ ok r
    → (alts : List Alternative) × (traverse
          (trigger_alternative lower fw t)
          (sorted_with (λ p q. text_leb p.primitive_id q.primitive_id) fw.primitives)
        ≡ ok alts)
      × (row_outcome (missing_primitives fw.primitives) alts ≡ r.outcome)
      × (matched alts ≡ r.matched_primitive_ids)
unfolding make_trigger_row make_row
row_alternatives lower fw t r h =
    let (alts, made, h) =
      >>=-eq-ok
        (traverse (trigger_alternative lower fw t)
          (sorted_with (λ p q. text_leb p.primitive_id q.primitive_id) fw.primitives))
        _ h in
    let row =
      row_of t.condition_id "trigger" (missing_primitives fw.primitives) alts (objects_of fw t) in
    let (done, accepted, h) = >>=-eq-ok (check_row row) _ h in
    let same : row ≡ r = ok-injective h in
    (alts, made, ap (λ x. x.outcome) same, ap (λ x. x.matched_primitive_ids) same)

-- Each primitive that the row of a trigger lists as matched is one of the firmware's that meets the
-- trigger.
pub matched-IsMet :
    (lower : String → String) (fw : Capability) (t : Trigger) (r : Row) (i : String)
    → make_trigger_row lower fw t ≡ ok r
    → Memᴰ i r.matched_primitive_ids
    → (p : Primitive) × Memᴰ p fw.primitives × (p.primitive_id ≡ i) × IsMet fw t p
matched-IsMet lower fw t r i h m =
    let (alts, made, _, names) = row_alternatives lower fw t r h in
    let listed =
      sorted_with-Memᴰ text_leb i
        (map (λ a. a.firmware_primitive_id) (select (λ a. is_compatible a.outcome) alts))
        (subst (Memᴰ i) (sym names) m) in
    let (a, chosen, named) =
      Memᴰ-map_in (λ a. a.firmware_primitive_id) (select (λ a. is_compatible a.outcome) alts) i
        listed in
    let (inside, good) = select-Memᴰ (λ a. is_compatible a.outcome) alts a chosen in
    let (p, sorted, of_p) =
      traverse-Memᴰ (trigger_alternative lower fw t)
        (sorted_with (λ p q. text_leb p.primitive_id q.primitive_id) fw.primitives) alts a made
        inside in
    let (same, met) =
      trigger_alternative-IsMet lower fw t p a of_p (is_compatible-eq a.outcome good) in
    (
      p,
      sorted_with-Memᴰ (λ p q. text_leb p.primitive_id q.primitive_id) p fw.primitives sorted,
      sym same ∙ sym named,
      met,
    )

-- Where the row of a trigger is compatible, some primitive of the firmware meets the trigger, and the
-- row lists it as matched.
pub make_trigger_row-IsMet :
    (lower : String → String) (fw : Capability) (t : Trigger) (r : Row)
    → make_trigger_row lower fw t ≡ ok r
    → r.outcome ≡ compatible
    → (p : Primitive) × Memᴰ p fw.primitives
      × IsMet fw t p
      × Memᴰ p.primitive_id r.matched_primitive_ids
make_trigger_row-IsMet lower fw t r h e =
    let (alts, made, by, names) = row_alternatives lower fw t r h in
    elim (Bool-cases (is_nonempty alts)) [
      | inr empty ↦
          let none_left : aggregate_required (outcomes (missing_primitives fw.primitives))
              ≡ r.outcome =
            simp empty at by in
          let bad : unknown ≡ compatible =
            sym (missing_primitives-unknown fw.primitives) ∙ none_left ∙ e in
          cc
      | inl some_left ↦
          let best : aggregate_alternatives (map (λ a. a.outcome) alts) ≡ r.outcome =
            simp some_left at by in
          let (o, m, good) =
            any-some is_compatible (map (λ a. a.outcome) alts)
              (aggregate_alternatives-compatible (map (λ a. a.outcome) alts) (best ∙ e)) in
          let (a, inside, same) = Memᴰ-map_in (λ a. a.outcome) alts o m in
          let listed =
            Memᴰ-sorted_with text_leb a.firmware_primitive_id
              (map (λ a. a.firmware_primitive_id) (select (λ a. is_compatible a.outcome) alts))
              (Memᴰ-map_out (λ a. a.firmware_primitive_id)
                (select (λ a. is_compatible a.outcome) alts) a
                (Memᴰ-select (λ a. is_compatible a.outcome) alts a inside
                  (subst (λ x. is_compatible x ≡ true) same good))) in
          let here = subst (Memᴰ a.firmware_primitive_id) names listed in
          let (p, mp, named, met) = matched-IsMet lower fw t r a.firmware_primitive_id h here in
          (p, mp, met, subst (λ x. Memᴰ x r.matched_primitive_ids) (sym named) here)
    ]
