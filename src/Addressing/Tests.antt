-- ===== src/Addressing/Tests.antt =====
-- Runs of the address functions on a small standard: one channel, two ranks, four bank groups of
-- four banks, eight rows of sixteen columns, eight columns a burst.
use mathlib.Core.List.{Perm}
use ramulator.Prelude.{
  ℕ, ◌+◌, ◌*◌, ◌/◌, ◌<◌, ◌≡◌, ◌↔◌, refl, String, false, none, List, [], ◌∷◌, map, ok, err,
  value_error, arith, All₂, get_or, prod, length,
}
use ramulator.Prelude.Int.{pos, negsuc}
use ramulator.PyValue.{end, field, int, to_int, lower}
use ramulator.Addressing.Radix.{decompose, compose}
use ramulator.Addressing.Vector.{
  validate_addr_vec, addr_vec_from_byte_address, to_value, divide_last, check_coordinates,
  check_coordinate,
}
use ramulator.Addressing.Layout.{Dram, Layout, extract_dram_layout, build_layout}
use ramulator.Addressing.Layout.Extract.{extract_dram_layout-IsLayout}
use ramulator.Addressing.Layout.Banks.{extract_dram_layout-banks}
use ramulator.Addressing.Validation.{validate_addr_vec-ok_iff}
use ramulator.Addressing.Bijection

abbrev names : List String
names = "Channel" ∷ "Rank" ∷ "BankGroup" ∷ "Bank" ∷ "Row" ∷ "Column" ∷ []

abbrev sizes : List ℕ
sizes = 1 ∷ 2 ∷ 4 ∷ 4 ∷ 8 ∷ 16 ∷ []

abbrev names_3 : List String
names_3 = "Channel" ∷ "Rank" ∷ "Bank" ∷ []

abbrev radices : List ℕ
radices = 1 ∷ 2 ∷ 4 ∷ 4 ∷ 8 ∷ 2 ∷ []

abbrev pub small : Dram
small = record {
  class_name = "Small";
  level_names = names;
  organization = field "rank" (int (pos 2)) (
      field "bankgroup" (int (pos 4)) (
        field "bank" (int (pos 4)) (
          field "row" (int (pos 8))
            (field "column" (int (pos 16)) (field "channel_width" (int (pos 16)) end)))));
  internal_prefetch_size = pos 8;
  data_payload_bytes = none;
  subchannel_model = none;
}

abbrev pub small_layout : Layout
small_layout = record {
  dram_class = "Small";
  level_names = names;
  level_sizes = sizes;
  address_level_sizes = radices;
  channel_pos = 0;
  rank_pos = 1;
  bank_positions = 1 ∷ 3 ∷ 2 ∷ [];
  bank_counts = 2 ∷ 4 ∷ 4 ∷ [];
  controller_bank_positions = 1 ∷ 2 ∷ 3 ∷ [];
  controller_bank_counts = 2 ∷ 4 ∷ 4 ∷ [];
  total_bank_units = 32;
  row_pos = 4;
  col_pos = 5;
  num_rows = 8;
  num_cols = 16;
  internal_prefetch_size = 8;
  num_cls = 2;
  tx_bytes = 16;
  capacity_bytes = 8192;
}

extracted : extract_dram_layout small ≡ ok small_layout
unfolding extract_dram_layout build_layout lower to_int
extracted = refl

mapped :
    addr_vec_from_byte_address (to_value 5000) names (map to_value sizes) (pos 8) (pos 16)
    ≡ ok (0 ∷ 1 ∷ 0 ∷ 3 ∷ 4 ∷ 0 ∷ [])
unfolding addr_vec_from_byte_address validate_addr_vec decompose check_coordinates check_coordinate
    to_int
mapped = refl

negative :
    addr_vec_from_byte_address (int (negsuc 0)) names (map to_value sizes) (pos 8) (pos 16)
    ≡ err (value_error "host byte address must be a non-negative integer")
unfolding addr_vec_from_byte_address
negative = refl

small_IsLayout : Bijection.IsLayout names sizes 8 16
small_IsLayout = record {
  same_length = refl;
  column_last = refl;
  positive = omega arith;
  prefetch_pos = omega arith;
  divides = refl;
  tx_pos = omega arith;
}

validate_addr_vec-ok_iff_example :
    (validate_addr_vec (map to_value (0 ∷ 1 ∷ 3 ∷ [])) names_3 (map to_value (1 ∷ 2 ∷ 4 ∷ [])) false
      ≡ ok tt)
    ↔ ((length names_3 ≡ 3)
        × (ns : List ℕ) × (map to_value (0 ∷ 1 ∷ 3 ∷ []) ≡ map to_value ns)
        × All₂ ◌<◌ ns (1 ∷ 2 ∷ 4 ∷ []))
validate_addr_vec-ok_iff_example =
    validate_addr_vec-ok_iff (map to_value (0 ∷ 1 ∷ 3 ∷ [])) names_3 (1 ∷ 2 ∷ 4 ∷ [])

addr_vec_from_byte_address-in_range_example :
    (vec : List ℕ) × (Bijection.to_vector names sizes 8 16 small_IsLayout 5000 ≡ ok vec)
    × All₂ ◌<◌ vec radices
    × (compose radices vec ≡ 312)
addr_vec_from_byte_address-in_range_example =
    Bijection.addr_vec_from_byte_address-in_range names sizes 8 16 small_IsLayout 5000 (omega arith)

addr_vec_from_byte_address-onto_example :
    Bijection.to_vector names sizes 8 16 small_IsLayout
      (compose radices (0 ∷ 1 ∷ 2 ∷ 3 ∷ 4 ∷ 1 ∷ []) * 16 + 5)
    ≡ ok (0 ∷ 1 ∷ 2 ∷ 3 ∷ 4 ∷ 1 ∷ [])
addr_vec_from_byte_address-onto_example =
    Bijection.addr_vec_from_byte_address-onto names sizes 8 16 small_IsLayout
      (0 ∷ 1 ∷ 2 ∷ 3 ∷ 4 ∷ 1 ∷ []) 5 (omega arith) (omega arith)

addr_vec_from_byte_address-eq_iff_example :
    (Bijection.to_vector names sizes 8 16 small_IsLayout 5000
      ≡ Bijection.to_vector names sizes 8 16 small_IsLayout 5007)
    ↔ (5000 / 16 ≡ 5007 / 16)
addr_vec_from_byte_address-eq_iff_example =
    Bijection.addr_vec_from_byte_address-eq_iff names sizes 8 16 small_IsLayout 5000 5007
      (omega arith) (omega arith)

extract_dram_layout-IsLayout_example :
    Bijection.IsLayout names sizes 8 16 × (8192 ≡ 16 * prod (divide_last 8 sizes))
extract_dram_layout-IsLayout_example =
    extract_dram_layout-IsLayout small small_layout extracted refl

extract_dram_layout-banks_example :
    Perm small_layout.bank_positions small_layout.controller_bank_positions
    × (small_layout.bank_counts ≡ map (λ i. get_or sizes i 0) small_layout.bank_positions)
    × (prod (2 ∷ 4 ∷ 4 ∷ []) ≡ 32)
extract_dram_layout-banks_example = extract_dram_layout-banks small small_layout extracted
