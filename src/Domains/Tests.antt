-- ===== src/Domains/Tests.antt =====
-- Comparisons of concrete domains.
use chip_chain_v.Prelude.{ℕ, ℕ_eq, none, some}
use chip_chain_v.Domains.Data.{NumericDomain, FieldComparison, compatible, incompatible, checked}

abbrev between : ℕ → ℕ → NumericDomain
between a b = record {
  exact = none;
  minimum = some a;
  maximum = some b;
  mask = none;
  masked_value = none;
  controlled_bits = none;
  bit_width = some 32;
}

abbrev inside : FieldComparison
inside = record {
  dimension = "value";
  outcome = compatible;
  reason = "REQUIRED_DOMAIN_CONTAINED";
  coverage = checked;
}

abbrev outside : FieldComparison
outside = record {
  dimension = "value";
  outcome = incompatible;
  reason = "REQUIRED_DOMAIN_NOT_CONTAINED";
  coverage = checked;
}
