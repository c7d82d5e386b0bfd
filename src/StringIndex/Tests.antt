-- ===== src/StringIndex/Tests.antt =====
-- Runs of the index conversions, and their theorems at concrete texts.
use prose_core_client.Base.{ℕ, ◌≡◌, refl, ◌↔◌, ◌≤◌, length}
use prose_core_client.Base.Result.{ok, err}
use prose_core_client.StringIndex.{
  not_at_char_boundary, out_of_bounds, chars, len_utf8, len_utf16, IndexRange, utf8_to_scalar_index,
  utf16_to_scalar_index, scalar_to_utf8_index, scalar_to_utf16_index, utf8_to_scalar_range,
  utf16_to_scalar_range, scalar_to_utf8_range, scalar_to_utf16_range,
}
use prose_core_client.StringIndex.RoundTrip.{
  utf8-scalar_iff, utf16-scalar_iff, scalar_index_bounds, ranges_round_trip,
}

-- The two texts of the tests in string_index.rs.
boundary_runs :
    (utf8_to_scalar_index 2 "😀a" ≡ err not_at_char_boundary)
    × (utf8_to_scalar_index 4 "😀a" ≡ ok 1)
    × (utf8_to_scalar_index 6 "😀a" ≡ err out_of_bounds)
    × (scalar_to_utf16_index 1 "😀a" ≡ ok 2)
    × (scalar_to_utf8_index 3 "😀a" ≡ err out_of_bounds)
unfolding utf8_to_scalar_index scalar_to_utf16_index scalar_to_utf8_index len_utf8 len_utf16
boundary_runs = (refl, refl, refl, refl, refl)

utf8-scalar_iff_example :
    (scalar_to_utf8_index 1 "😀a" ≡ ok 4) ↔ (utf8_to_scalar_index 4 "😀a" ≡ ok 1)
utf8-scalar_iff_example = utf8-scalar_iff "😀a" 1 4

utf16-scalar_iff_example :
    (scalar_to_utf16_index 1 "😀a" ≡ ok 2) ↔ (utf16_to_scalar_index 2 "😀a" ≡ ok 1)
utf16-scalar_iff_example = utf16-scalar_iff "😀a" 1 2

scalar_index_bounds_example :
    (((i : ℕ) × (scalar_to_utf8_index 2 "😀a" ≡ ok i)) ↔ (2 ≤ length (chars "😀a")))
    × (((j : ℕ) × (scalar_to_utf16_index 2 "😀a" ≡ ok j)) ↔ (2 ≤ length (chars "😀a")))
scalar_index_bounds_example = scalar_index_bounds "😀a" 2

abbrev emoji : IndexRange
emoji = record { start = 0; end = 2 }

abbrev emoji_scalars : IndexRange
emoji_scalars = record { start = 0; end = 1 }

ranges_round_trip_example :
    ((utf16_to_scalar_range emoji "😀a" ≡ ok emoji_scalars)
      ↔ (scalar_to_utf16_range emoji_scalars "😀a" ≡ ok emoji))
    × ((utf8_to_scalar_range emoji "😀a" ≡ ok emoji_scalars)
        ↔ (scalar_to_utf8_range emoji_scalars "😀a" ≡ ok emoji))
ranges_round_trip_example = ranges_round_trip "😀a" emoji emoji_scalars
