-- ===== src/StringIndex/Lemmas.antt =====
-- The two loops of string_index.rs, for any width of a character.
use Prim.Native.Char.{Char}
use prose_core_client.Base.{
  ℕ, zero, suc, ◌+◌, ◌≤◌, ◌<◌, ◌≡◌, refl, ap, ◌∙◌, ◌-◌, ltb, List, [], ◌∷◌, map, length, take,
  arith, nat_beq, Bool-cases, inl, inr, ◌↔◌,
}
use prose_core_client.Base.Result.{ok, err}
use prose_core_client.StringIndex.{out_of_bounds, sum, scan, measure, len_utf8, len_utf16}

pub len_utf8_pos : (c : Char) → 1 ≤ len_utf8 c
unfolding len_utf8
len_utf8_pos c = ground arith

pub len_utf16_pos : (c : Char) → 1 ≤ len_utf16 c
unfolding len_utf16
len_utf16_pos c = ground arith

pub length-take_of_le : (n : ℕ) (cs : List Char) → n ≤ length cs → length (take n cs) ≡ n
length-take_of_le zero cs h = refl
length-take_of_le (suc n) [] h = absurd (omega arith)
length-take_of_le (suc n) (c ∷ cs) h = omega (arith, length-take_of_le n cs (omega arith))

pub length-take_short : (n : ℕ) (cs : List Char) → length cs < n → length (take n cs) < n
length-take_short zero cs h = absurd (omega arith)
length-take_short (suc n) [] h = omega arith
length-take_short (suc n) (c ∷ cs) h = omega (arith, length-take_short n cs (omega arith))

module _ (width : Char → ℕ) (width_pos : (c : Char) → 1 ≤ width c) where
  pub scan_prefix :
      (n k : ℕ) (cs : List Char)
      → n ≤ length cs
      → scan width (sum (map width (take n cs))) k cs ≡ ok (k + n)
  unfolding scan
  scan_prefix zero k [] h = ground arith
  scan_prefix zero k (c ∷ cs) h = ground arith
  scan_prefix (suc n) k [] h = absurd (omega arith)
  scan_prefix (suc n) k (c ∷ cs) h = ground (arith, width_pos c, scan_prefix n (k + 1) cs)

  -- What the loop accepts is the width of a prefix.
  pub scan_accepts :
      (idx k m : ℕ) (cs : List Char)
      → scan width idx k cs ≡ ok m
      → (n : ℕ) × (m ≡ k + n) × (n ≤ length cs) × (sum (map width (take n cs)) ≡ idx)
  unfolding scan
  scan_accepts idx k m [] h = (0, ground arith, omega arith, ground arith)
  scan_accepts idx k m (c ∷ cs) h = elim (Bool-cases (nat_beq idx 0)) [
    | inl done ↦ (0, ground arith, omega arith, ground arith)
    | inr more ↦ elim (Bool-cases (ltb idx (width c))) [
      | inl inside ↦ absurd (ground arith)
      | inr fits ↦
          let (n, e, l, s) = scan_accepts (idx - width c) (k + 1) m cs (ground arith) in
          (suc n, omega arith, omega arith, ground arith)
    ]
  ]

  pub measure_ok :
      (n : ℕ) (cs : List Char)
      → n ≤ length cs
      → measure width n cs ≡ ok (sum (map width (take n cs)))
  unfolding measure
  measure_ok n cs h = ground (arith, length-take_of_le n cs)

  pub measure_err :
      (n : ℕ) (cs : List Char) → length cs < n → measure width n cs ≡ err out_of_bounds
  unfolding measure
  measure_err n cs h = ground (arith, length-take_short n cs)

  pub measure-scan_iff :
      (n idx : ℕ) (cs : List Char) → (measure width n cs ≡ ok idx) ↔ (scan width idx 0 cs ≡ ok n)
  measure-scan_iff n idx cs = (
    λ h. elim (Bool-cases (ltb (length cs) n)) [
      | inl short ↦ absurd (ground (arith, measure_err n cs))
      | inr long ↦
          let e : sum (map width (take n cs)) ≡ idx = ground (arith, measure_ok n cs) in
          rw (← e) (scan_prefix n 0 cs (ground arith) ∙ ap ok (omega arith))
    ],
    λ h.
        let (m, e, l, s) = scan_accepts idx 0 n cs h in
        let e' : n ≡ m = omega arith in rw e' (measure_ok m cs l ∙ ap ok s),
  )
