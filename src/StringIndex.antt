-- ===== src/StringIndex.antt =====
-- Positions in a text counted in UTF-8 code units, UTF-16 code units and Unicode scalars
-- (crates/prose-core-client/src/domain/shared/models/string_index.rs). A text is read through its
-- characters, as `str::chars` does; an error message is a constructor of `IndexError`.
mod Lemmas
pub mod RoundTrip
mod Tests
use Prim.Native.Char.{Char, code}
use prose_core_client.Base.{
  ℕ, zero, suc, ◌+◌, ◌-◌, String, List, [], ◌∷◌, map, length, take, ltb, nat_beq, if◌then◌else◌,
}
use prose_core_client.Base.Result.{Result, ok, err, ◌>>=◌}

pub data IndexError : Type 0 where
  not_at_char_boundary out_of_bounds : IndexError

-- `str::chars`
abbrev pub chars : String → List Char
chars String.[] = []
chars (String.◌∷◌ c s) = c ∷ chars s

-- `char::len_utf8`
unfoldable pub len_utf8 : Char → ℕ
len_utf8 c =
    if ltb (code c) 0x80
    then 1
    else if ltb (code c) 0x800
    then 2
    else if ltb (code c) 0x10000
    then 3
    else 4

-- `char::len_utf16`
unfoldable pub len_utf16 : Char → ℕ
len_utf16 c = if ltb (code c) 0x10000 then 1 else 2

abbrev pub sum : List ℕ → ℕ
sum [] = 0
sum (n ∷ ns) = n + sum ns

-- The loop of the two `to_scalar_index`: `idx` counts down, `scalar_idx` counts up.
unfoldable pub scan : (Char → ℕ) → ℕ → ℕ → List Char → Result IndexError ℕ
scan width idx scalar_idx [] = if nat_beq idx 0 then ok scalar_idx else err out_of_bounds
scan width idx scalar_idx (c ∷ cs) =
    if nat_beq idx 0
    then ok scalar_idx
    else if ltb idx (width c)
    then err not_at_char_boundary
    else scan width (idx - width c) (scalar_idx + 1) cs

-- The body of `to_utf8_index` and `to_utf16_index`.
unfoldable pub measure : (Char → ℕ) → ℕ → List Char → Result IndexError ℕ
measure width n cs =
    if ltb (length (take n cs)) n then err out_of_bounds else ok (sum (map width (take n cs)))

-- `Utf8Index::to_scalar_index`
unfoldable pub utf8_to_scalar_index : ℕ → String → Result IndexError ℕ
unfolding scan
utf8_to_scalar_index idx string = scan len_utf8 idx 0 (chars string)

-- `Utf16Index::to_scalar_index`
unfoldable pub utf16_to_scalar_index : ℕ → String → Result IndexError ℕ
unfolding scan
utf16_to_scalar_index idx string = scan len_utf16 idx 0 (chars string)

-- `UnicodeScalarIndex::to_utf16_index`
unfoldable pub scalar_to_utf16_index : ℕ → String → Result IndexError ℕ
unfolding measure
scalar_to_utf16_index idx string = measure len_utf16 idx (chars string)

-- `UnicodeScalarIndex::to_utf8_index`
unfoldable pub scalar_to_utf8_index : ℕ → String → Result IndexError ℕ
unfolding measure
scalar_to_utf8_index idx string = measure len_utf8 idx (chars string)

-- `Range<T>` for each kind of index.
pub record IndexRange : Type 0 where
  pub start : ℕ
  pub end : ℕ

-- The conversions of a range convert its start, then its end.
unfoldable pub convert_range :
    (ℕ → String → Result IndexError ℕ) → IndexRange → String → Result IndexError IndexRange
convert_range convert range string = do
  start ← convert range.start string
  end ← convert range.end string
  ok (record { start = start; end = end })

unfoldable pub utf8_to_scalar_range : IndexRange → String → Result IndexError IndexRange
unfolding convert_range
utf8_to_scalar_range = convert_range utf8_to_scalar_index

unfoldable pub utf16_to_scalar_range : IndexRange → String → Result IndexError IndexRange
unfolding convert_range
utf16_to_scalar_range = convert_range utf16_to_scalar_index

unfoldable pub scalar_to_utf16_range : IndexRange → String → Result IndexError IndexRange
unfolding convert_range
scalar_to_utf16_range = convert_range scalar_to_utf16_index

unfoldable pub scalar_to_utf8_range : IndexRange → String → Result IndexError IndexRange
unfolding convert_range
scalar_to_utf8_range = convert_range scalar_to_utf8_index
