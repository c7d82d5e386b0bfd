-- ===== src/StringIndex/RoundTrip.antt =====
-- Round trips between the indices of string_index.rs, and what is rejected.
use prose_core_client.Base.{
  ℕ, ◌≤◌, ◌<◌, ◌≡◌, String, ◌↔◌, length, arith, ltb, ltb→lt, Bool-cases, inl, inr,
}
use prose_core_client.Base.Result.{Result, ok, err}
use prose_core_client.StringIndex.{
  IndexError, out_of_bounds, chars, len_utf8, len_utf16, IndexRange, convert_range,
  utf8_to_scalar_index, utf16_to_scalar_index, scalar_to_utf8_index, scalar_to_utf16_index,
  utf8_to_scalar_range, utf16_to_scalar_range, scalar_to_utf8_range, scalar_to_utf16_range,
}
use prose_core_client.StringIndex.Lemmas.{
  len_utf8_pos, len_utf16_pos, measure-scan_iff, measure_ok, measure_err,
}

-- For every text, the UTF-8 index that a scalar index n converts to is i exactly when the scalar
-- index that the UTF-8 index i converts to is n: each conversion accepts just what the other yields.
pub utf8-scalar_iff :
    (s : String) (n i : ℕ) → (scalar_to_utf8_index n s ≡ ok i) ↔ (utf8_to_scalar_index i s ≡ ok n)
unfolding scalar_to_utf8_index utf8_to_scalar_index
utf8-scalar_iff s n i = measure-scan_iff len_utf8 len_utf8_pos n i (chars s)

-- The same for UTF-16: a scalar index converts to i exactly when i converts back to it.
pub utf16-scalar_iff :
    (s : String) (n i : ℕ) → (scalar_to_utf16_index n s ≡ ok i) ↔ (utf16_to_scalar_index i s ≡ ok n)
unfolding scalar_to_utf16_index utf16_to_scalar_index
utf16-scalar_iff s n i = measure-scan_iff len_utf16 len_utf16_pos n i (chars s)

ok_bound :
    (f : ℕ → String → Result IndexError ℕ) (s : String) (n i : ℕ)
    → (length (chars s) < n → f n s ≡ err out_of_bounds)
    → f n s ≡ ok i
    → n ≤ length (chars s)
ok_bound f s n i short h = elim (Bool-cases (ltb (length (chars s)) n)) [
  | inl lt ↦ absurd (ground (arith, short (ltb→lt _ _ lt)))
  | inr le ↦ ground arith
]

-- A scalar index converts to UTF-8, and to UTF-16, exactly when it is at most the number of
-- characters of the text.
pub scalar_index_bounds :
    (s : String) (n : ℕ)
    → (((i : ℕ) × (scalar_to_utf8_index n s ≡ ok i)) ↔ (n ≤ length (chars s)))
      × (((j : ℕ) × (scalar_to_utf16_index n s ≡ ok j)) ↔ (n ≤ length (chars s)))
unfolding scalar_to_utf8_index scalar_to_utf16_index
scalar_index_bounds s n = (
  (
    λ h. ok_bound scalar_to_utf8_index s n h.0 (measure_err len_utf8 len_utf8_pos n (chars s)) h.1,
    λ h. (_, measure_ok len_utf8 len_utf8_pos n (chars s) h),
  ),
  (
    λ h.
        ok_bound scalar_to_utf16_index s n h.0 (measure_err len_utf16 len_utf16_pos n (chars s))
          h.1,
    λ h. (_, measure_ok len_utf16 len_utf16_pos n (chars s) h),
  ),
)

convert_range_inverse :
    (f g : ℕ → String → Result IndexError ℕ) (s : String) (r t : IndexRange)
    → ((n i : ℕ) → f i s ≡ ok n → g n s ≡ ok i)
    → convert_range f r s ≡ ok t
    → convert_range g t s ≡ ok r
unfolding convert_range
convert_range_inverse f g s r t back h = ground (arith, back t.start r.start, back t.end r.end)

-- A range of UTF-16 indices converts to a range of scalars exactly when that range converts back to
-- it, and the same for UTF-8.
pub ranges_round_trip :
    (s : String) (r t : IndexRange)
    → ((utf16_to_scalar_range r s ≡ ok t) ↔ (scalar_to_utf16_range t s ≡ ok r))
      × ((utf8_to_scalar_range r s ≡ ok t) ↔ (scalar_to_utf8_range t s ≡ ok r))
unfolding utf16_to_scalar_range scalar_to_utf16_range utf8_to_scalar_range scalar_to_utf8_range
ranges_round_trip s r t = (
  (
    convert_range_inverse utf16_to_scalar_index scalar_to_utf16_index s r t
        (λ n i. (utf16-scalar_iff s n i).1),
    convert_range_inverse scalar_to_utf16_index utf16_to_scalar_index s t r
        (λ n i. (utf16-scalar_iff s i n).0),
  ),
  (
    convert_range_inverse utf8_to_scalar_index scalar_to_utf8_index s r t
        (λ n i. (utf8-scalar_iff s n i).1),
    convert_range_inverse scalar_to_utf8_index utf8_to_scalar_index s t r
        (λ n i. (utf8-scalar_iff s i n).0),
  ),
)
