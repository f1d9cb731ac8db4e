-- ===== src/Compat/Data.antt =====
-- The outcomes' aggregation, and the rows of the comparison with their validators.
use chip_chain_v.Prelude.{
  String, String_eq, Bool, true, false, not, ◌&&◌, ◌||◌, ◌==◌, Option, none, some, List, [], ◌∷◌,
  ◌++◌, map, all, any, select, is_nonempty, if◌then◌else◌, Result, ok, ◌>>◌, require, sorted_with,
  sorted_set, text_leb, pair_leb,
}
use chip_chain_v.Domains.{Outcome, compatible, incompatible, unknown, checked, FieldComparison}
use chip_chain_v.Capability.{is_distinct}

abbrev pub is_compatible : Outcome → Bool
is_compatible Outcome.compatible = true
is_compatible _ = false

abbrev pub is_incompatible : Outcome → Bool
is_incompatible Outcome.incompatible = true
is_incompatible _ = false

unfoldable pub aggregate_required : List Outcome → Outcome
aggregate_required values =
    if any is_incompatible values
    then incompatible
    else if is_nonempty values && all is_compatible values
    then compatible
    else unknown

-- `_alternatives`
unfoldable pub aggregate_alternatives : List Outcome → Outcome
aggregate_alternatives values =
    if any is_compatible values
    then compatible
    else if is_nonempty values && all is_incompatible values
    then incompatible
    else unknown

-- `_check` with the coverage `checked`.
abbrev pub field_check : String → Outcome → String → FieldComparison
field_check dimension outcome reason = record {
  dimension = dimension;
  outcome = outcome;
  reason = reason;
  coverage = checked;
}

abbrev pub outcomes : List FieldComparison → List Outcome
outcomes checks = map (λ c. c.outcome) checks

abbrev pub dimensions : List FieldComparison → List String
dimensions checks = map (λ c. c.dimension) checks

abbrev same_outcome : Outcome → Outcome → Bool
same_outcome Outcome.compatible o = is_compatible o
same_outcome Outcome.incompatible o = is_incompatible o
same_outcome Outcome.unknown o = not (is_compatible o || is_incompatible o)

abbrev same_texts : List String → List String → Bool
same_texts [] [] = true
same_texts (s ∷ ss) (t ∷ ts) = s == t && same_texts ss ts
same_texts _ _ = false

-- `AlternativeComparison`
pub record Alternative : Type 0 where
  pub firmware_primitive_id : String
  pub firmware_constraint_ids : List String
  pub firmware_condition_ids : List String
  pub checks : List FieldComparison
  pub outcome : Outcome

-- The validator `aggregation` of an alternative.
unfoldable pub check_alternative : Alternative → Result (Unit {0})
check_alternative a = do
  require (is_nonempty a.checks) "List should have at least 1 item"
  require (same_outcome a.outcome (aggregate_required (outcomes a.checks)))
      "Alternative outcome disagrees with field checks"
  require (is_distinct (dimensions a.checks)) "Duplicate dimension within alternative"

-- `RequirementResult`; a pointer is a pair of a side and an identity.
pub record Row : Type 0 where
  pub requirement_id : String
  pub section : String
  pub checks : List FieldComparison
  pub alternatives : List Alternative
  pub outcome : Outcome
  pub matched_primitive_ids : List String
  pub context_primitive_ids : List String
  pub firmware_constraint_ids : List String
  pub firmware_condition_ids : List String
  pub artifact_refs : List (String × String)
  pub evidence_refs : List (String × String)

abbrev pub row_outcome : List FieldComparison → List Alternative → Outcome
row_outcome checks alternatives =
    if is_nonempty alternatives
    then aggregate_alternatives (map (λ a. a.outcome) alternatives)
    else aggregate_required (outcomes checks)

abbrev pub matched : List Alternative → List String
matched alternatives =
    sorted_with text_leb
      (map (λ a. a.firmware_primitive_id) (select (λ a. is_compatible a.outcome) alternatives))

-- The validator `aggregation` of a row.
unfoldable pub check_row : Row → Result (Unit {0})
check_row r = do
  require (not (is_nonempty r.checks && is_nonempty r.alternatives))
      "Choose required checks or primitive alternatives"
  require (same_outcome r.outcome (row_outcome r.checks r.alternatives))
      "Requirement outcome disagrees with checks"
  require (same_texts (sorted_with text_leb r.matched_primitive_ids) (matched r.alternatives))
      "Matched primitive IDs must follow compatible alternatives"
  require (is_distinct (map (λ a. a.firmware_primitive_id) r.alternatives))
      "Duplicate primitive alternative"
  require (is_distinct (dimensions r.checks)) "Duplicate dimension"

-- An element of `objects`: its side, its sources, and its identifier if it has one of the three.
pub record Object : Type 0 where
  pub side : String
  pub source_artifact_ids : List String
  pub evidence_ids : List String
  pub primitive_id : Option String
  pub constraint_id : Option String
  pub condition_id : Option String

abbrev has_pair : List (String × String) → String × String → Bool
has_pair ps q = any (λ p. p.0 == q.0 && p.1 == q.1) ps

abbrev unique_pairs : List (String × String) → List (String × String)
unique_pairs [] = []
unique_pairs (p ∷ ps) = let rest = unique_pairs ps in if has_pair ps p then rest else p ∷ rest

abbrev pairs_of : (Object → List String) → List Object → List (String × String)
pairs_of field [] = []
pairs_of field (o ∷ os) = map (λ x. (o.side, x)) (field o) ++ pairs_of field os

abbrev pub pointers : (Object → List String) → List Object → List (String × String)
pointers field os = sorted_with pair_leb (unique_pairs (pairs_of field os))

abbrev ids_of : (Object → Option String) → List Object → List String
ids_of field [] = []
ids_of field (o ∷ os) =
    let rest = ids_of field os in
    elim (field o) [ none ↦ rest | some i ↦ if o.side == "firmware" then i ∷ rest else rest ]

abbrev pub row_of : String → String → List FieldComparison → List Alternative → List Object → Row
row_of id section checks alternatives objects = record {
  requirement_id = id;
  section = section;
  checks = checks;
  alternatives = alternatives;
  outcome = row_outcome checks alternatives;
  matched_primitive_ids = matched alternatives;
  context_primitive_ids = sorted_set (ids_of (λ o. o.primitive_id) objects);
  firmware_constraint_ids = sorted_set (ids_of (λ o. o.constraint_id) objects);
  firmware_condition_ids = sorted_set (ids_of (λ o. o.condition_id) objects);
  artifact_refs = pointers (λ o. o.source_artifact_ids) objects;
  evidence_refs = pointers (λ o. o.evidence_ids) objects;
}

-- `_row`
unfoldable pub make_row :
    String → String → List FieldComparison → List Alternative → List Object → Result Row
make_row id section checks alternatives objects = do
  check_row (row_of id section checks alternatives objects)
  ok (row_of id section checks alternatives objects)
