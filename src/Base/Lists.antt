-- ===== src/Base/Lists.antt =====
-- Lists (`Vec`) measured by native numbers, with the operations of Rust's standard library that the
-- program calls.
use Prim.Native.Nat.{ℕ, zero, suc, ◌+◌, ◌≤◌}
use mathlib.Core.Path.{◌≡◌, refl, sym, subst}
use mathlib.Core.Logic.{◌⊎◌, inl, inr}
use mathlib.Core.Bool.{Bool, true, false, not, ◌||◌}
use mathlib.Core.Option.{Option, none, some}
use mathlib.Core.List.{List, [], ◌∷◌, ◌++◌}
use native.Mathlib.Omega.{arith}
use prose_core_client.Base.Tests.{if◌then◌else◌}
use prose_core_client.Base.Equality.{Eq}

module _ {ℓ} {A : Type ℓ} where
  abbrev pub length : List A → ℕ
  length [] = 0
  length (x ∷ xs) = suc (length xs)

  abbrev pub take : ℕ → List A → List A
  take zero xs = []
  take (suc n) [] = []
  take (suc n) (x ∷ xs) = x ∷ take n xs

  -- `Vec::first`
  abbrev pub first : List A → Option A
  first [] = none
  first (x ∷ xs) = some x

  -- `Vec::retain`, `Iterator::filter`
  abbrev pub retain : (A → Bool) → List A → List A
  retain p [] = []
  retain p (x ∷ xs) = let rest = retain p xs in if p x then x ∷ rest else rest

  -- `Iterator::any`, and `find(p).is_some()`
  abbrev pub any : (A → Bool) → List A → Bool
  any p [] = false
  any p (x ∷ xs) = p x || any p xs

  -- `Iterator::find`
  abbrev pub find : (A → Bool) → List A → Option A
  find p [] = none
  find p (x ∷ xs) = let rest = find p xs in if p x then some x else rest

  pub length-append : (xs ys : List A) → length (xs ++ ys) ≡ length xs + length ys
  length-append [] ys = omega arith
  length-append (x ∷ xs) ys = omega (arith, length-append xs ys)

  pub length-take-le : (n : ℕ) (xs : List A) → length (take n xs) ≤ n
  length-take-le zero xs = omega arith
  length-take-le (suc n) [] = omega arith
  length-take-le (suc n) (x ∷ xs) = omega (arith, length-take-le n xs)

  pub length-retain-le : (p : A → Bool) (xs : List A) → length (retain p xs) ≤ length xs
  length-retain-le p [] = omega arith
  length-retain-le p (x ∷ xs) = ground (arith, length-retain-le p xs)

-- Every element satisfies `P`.
abbrev pub All {ℓ κ} : {A : Type ℓ} → (A → Type κ) → List A → Type κ
All P [] = Unit
All P (a ∷ rest) = P a × All P rest

module _ {ℓ κ} {A : Type ℓ} (P : A → Type κ) where
  All-if :
      (b : Bool) (x : A) (xs ys : List A)
      → P x
      → All P xs
      → All P ys
      → All P (if b then x ∷ xs else ys)
  All-if true x xs ys p hx hy = (p, hx)
  All-if false x xs ys p hx hy = hy

  pub All-retain : (p : A → Bool) (xs : List A) → All P xs → All P (retain p xs)
  All-retain p [] h = h
  All-retain p (x ∷ xs) h = All-if (p x) x _ _ h.0 (All-retain p xs h.1) (All-retain p xs h.1)

  pub All-append : (xs ys : List A) → All P xs → All P ys → All P (xs ++ ys)
  All-append [] ys hx hy = hy
  All-append (x ∷ xs) ys hx hy = (hx.0, All-append xs ys hx.1 hy)

module _ {ℓ} {A : Type ℓ} ⦃e : Eq A⦄ where
  -- `Vec::contains`
  abbrev pub contains : A → List A → Bool
  contains a [] = false
  contains a (x ∷ xs) = e.equal x a || contains a xs

  pub contains-append :
      (a : A) (xs ys : List A) → contains a (xs ++ ys) ≡ (contains a xs || contains a ys)
  contains-append a [] ys = refl
  contains-append a (x ∷ xs) ys = ground (arith, contains-append a xs ys)

  -- `if !v.contains(a) { v.push(a) }`
  pub contains-push_new :
      (a b : A) (xs : List A)
      → contains b (if contains a xs then xs else xs ++ a ∷ []) ≡ (e.equal a b || contains b xs)
  contains-push_new a b xs = ground (arith, contains-append b xs (a ∷ []), e.equal_iff a b)

  pub contains-retain_ne :
      (a b : A) (xs : List A)
      → contains b (retain (λ x. not (e.equal x a)) xs)
        ≡ (if e.equal a b then false else contains b xs)
  contains-retain_ne a b [] = ground arith
  contains-retain_ne a b (x ∷ xs) =
      ground (arith, contains-retain_ne a b xs, e.equal_iff x a, e.equal_iff x b, e.equal_iff a b)

module _ {ℓ} {A : Type ℓ} where
  pub any-append : (p : A → Bool) (xs ys : List A) → any p (xs ++ ys) ≡ (any p xs || any p ys)
  any-append p [] ys = refl
  any-append p (x ∷ xs) ys = ground (arith, any-append p xs ys)

-- `x` stands in the list.
abbrev pub Occurs : {A : Type 0} → A → List A → Type 0
Occurs x [] = ⊥
Occurs x (y ∷ ys) = (x ≡ y) ⊎ Occurs x ys

module _ {κ} {A : Type 0} (P : A → Type κ) where
  pub All_at : (x : A) (xs : List A) → All P xs → Occurs x xs → P x
  All_at x [] h o = absurd o
  All_at x (y ∷ ys) h (inl e) = subst P (sym e) h.0
  All_at x (y ∷ ys) h (inr o) = All_at x ys h.1 o

module _ {A : Type 0} where
  pub Occurs-append_left : (x : A) (xs ys : List A) → Occurs x xs → Occurs x (xs ++ ys)
  Occurs-append_left x [] ys o = absurd o
  Occurs-append_left x (z ∷ zs) ys (inl e) = inl e
  Occurs-append_left x (z ∷ zs) ys (inr o) = inr (Occurs-append_left x zs ys o)

  pub Occurs-append_right : (x : A) (xs ys : List A) → Occurs x ys → Occurs x (xs ++ ys)
  Occurs-append_right x [] ys o = o
  Occurs-append_right x (z ∷ zs) ys o = inr (Occurs-append_right x zs ys o)
