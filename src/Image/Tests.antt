-- ===== src/Image/Tests.antt =====
-- The translation on an example of two regions.
use chip_chain_v.Prelude.{
  ℕ, ℕ_eq, ◌≡◌, refl, Memᴰ, true, false, [], ◌∷◌, ok, arith, sorted_by, insert_by,
}
use chip_chain_v.Image.Data.{
  Region, Segment, Mapping, relocated, ImageIdentity, regions_eq, is_relocated, kind_matches,
  overlapping, check_mapping, covers, translate, elf_address, identity_regions, identity_mapping,
  declared_identity_mapping, check_regions, validate_source, backs,
}
use chip_chain_v.Image.Translate.{
  elf_address-region, elf_address-injective, Holds, declared_identity_mapping-elf_address,
  declared_identity_mapping-Holds,
}

abbrev start : ℕ
start = 0x2010

abbrev entry : ℕ
entry = 0x1004

abbrev low : Region
low = record { runtime_base = 0x1000; elf_virtual_base = 0x8000; size = 0x100 }

abbrev high : Region
high = record { runtime_base = 0x2000; elf_virtual_base = 0x4000; size = 0x80 }

abbrev mapping : Mapping
mapping = record {
  firmware_sha256 = "firmware";
  mapping_kind = relocated;
  regions = low ∷ high ∷ [];
}

mapping-accepted : check_mapping mapping ≡ ok tt
unfolding check_mapping regions_eq is_relocated kind_matches overlapping sorted_by insert_by
mapping-accepted = refl

translates : elf_address mapping 0x2010 4 ≡ ok 0x4010
unfolding elf_address translate covers
translates = refl

translates_short : elf_address mapping 0x2010 2 ≡ ok 0x4010
unfolding elf_address translate covers
translates_short = refl

elf_address-region_example : elf_address mapping 0x2010 4 ≡ ok 0x4010
elf_address-region_example =
    elf_address-region mapping high 0x2010 4 mapping-accepted (Memᴰ.tail (Memᴰ.head refl))
      (omega arith) (omega arith) (omega arith)

elf_address-injective_example : start ≡ start
elf_address-injective_example =
    elf_address-injective mapping 0x2010 4 0x2010 2 0x4010 mapping-accepted translates
      translates_short

abbrev image : ImageIdentity
image = record {
  sha256 = "firmware";
  bit_width = 32;
  segments =
      record { virtual_address = 0x8000; file_size = 0x40; executable = true }
      ∷ record { virtual_address = 0x1000; file_size = 0x20; executable = true }
      ∷ record { virtual_address = 0x3000; file_size = 0x20; executable = false }
      ∷ [];
}

image-declared : declared_identity_mapping image ≡ ok (identity_mapping image)
unfolding declared_identity_mapping check_mapping regions_eq is_relocated kind_matches overlapping
    sorted_by insert_by identity_regions validate_source check_regions backs
image-declared = refl

image-translates : elf_address (identity_mapping image) 0x1004 4 ≡ ok 0x1004
unfolding elf_address translate covers identity_regions sorted_by insert_by
image-translates = refl

declared_identity_mapping-elf_address_example :
    (s : Segment) × (entry ≡ entry) × Holds image entry 4 s
declared_identity_mapping-elf_address_example =
    declared_identity_mapping-elf_address image (identity_mapping image) 0x1004 4 0x1004
      image-declared image-translates

abbrev code : Segment
code = record { virtual_address = 0x1000; file_size = 0x20; executable = true }

code-Holds : Holds image 0x1008 4 code
code-Holds = record {
  inside = Memᴰ.tail (Memᴰ.head refl);
  executable = refl;
  above = omega arith;
  below = omega arith;
}

declared_identity_mapping-Holds_example : elf_address (identity_mapping image) 0x1008 4 ≡ ok 0x1008
declared_identity_mapping-Holds_example =
    declared_identity_mapping-Holds image (identity_mapping image) 0x1008 4 code image-declared
      (omega arith) code-Holds
