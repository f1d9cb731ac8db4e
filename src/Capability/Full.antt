-- ===== src/Capability/Full.antt =====
-- What an accepted declaration of control rests on.
use chip_chain_v.Prelude.{ℕ, ◌-◌, ◌^◌, ◌<◌, ◌≡◌, String_eq, some}
use chip_chain_v.Domains.{NumericDomain}
use chip_chain_v.Domains.Contained.{IsValue}

-- A domain of `w` bits that are all controlled, and that holds every number of `w` bits.
pub record IsFull (d : NumericDomain) (w : ℕ) : Type 0 where
  pub wide : d.bit_width ≡ some w
  pub controlled : d.controlled_bits ≡ some (2 ^ w - 1)
  pub filled : (v : ℕ) → v < 2 ^ w → IsValue d v
