-- ===== src/Base/Members.antt =====
-- What occurs in a filtered or mapped list, and in a map.
use mathlib.Core.Path.{◌≡◌, refl, sym, ap}
use mathlib.Core.Logic.{◌↔◌, inl, inr}
use mathlib.Core.Bool.{Bool, true}
use mathlib.Core.Option.{some}
use mathlib.Core.List.{List, [], ◌∷◌, map}
use native.Mathlib.Omega.{arith}
use prose_core_client.Base.Tests.{Bool-cases}
use prose_core_client.Base.Equality.{Eq}
use prose_core_client.Base.Lists.{Occurs, retain}
use prose_core_client.Base.Assoc.{lookup, IsUnique}

module _ {A : Type 0} where
  pub Occurs-retain :
      (x : A) (p : A → Bool) (xs : List A) → Occurs x (retain p xs) ↔ (Occurs x xs × (p x ≡ true))
  Occurs-retain x p [] = ground arith
  Occurs-retain x p (y ∷ ys) = elim (Bool-cases (p y)) [
    | inl keep ↦ rw keep (
      λ o. elim o [
        | inl e ↦ (inl e, rw e keep)
        | inr k ↦ (inr ((Occurs-retain x p ys).0 k).0, ((Occurs-retain x p ys).0 k).1)
      ],
      λ o. elim o.0 [ inl e ↦ inl e | inr k ↦ inr ((Occurs-retain x p ys).1 (k, o.1)) ],
    )
    | inr drop ↦ rw drop (
      λ o. (inr ((Occurs-retain x p ys).0 o).0, ((Occurs-retain x p ys).0 o).1),
      λ o. elim o.0 [
        | inl e ↦ absurd (cc (e, drop, o.1))
        | inr k ↦ (Occurs-retain x p ys).1 (k, o.1)
      ],
    )
  ]

module _ {A B : Type 0} (f : A → B) where
  pub map_Occurs : (x : A) (xs : List A) → Occurs x xs → Occurs (f x) (map f xs)
  map_Occurs x [] o = absurd o
  map_Occurs x (z ∷ zs) (inl e) = inl (ap f e)
  map_Occurs x (z ∷ zs) (inr o) = inr (map_Occurs x zs o)

  pub Occurs-map : (y : B) (xs : List A) → Occurs y (map f xs) → (x : A) × Occurs x xs × (y ≡ f x)
  Occurs-map y [] o = absurd o
  Occurs-map y (z ∷ zs) (inl e) = (z, inl refl, e)
  Occurs-map y (z ∷ zs) (inr o) = let (x, k, e) = Occurs-map y zs o in (x, inr k, e)

module _ {K V : Type 0} ⦃e : Eq K⦄ where
  -- An entry of a map with unique keys is what its key yields.
  pub Occurs-lookup :
      (k : K) (v : V) (m : List (K × V)) → IsUnique m → Occurs (k, v) m ↔ (lookup k m ≡ some v)
  unfolding lookup
  Occurs-lookup k v [] u = ground arith
  Occurs-lookup k v ((j, w) ∷ m) u = elim (Bool-cases (e.equal j k)) [
    | inl same ↦ rw same (
      λ o. elim o [
        | inl eq ↦ ap some (sym (ap (λ x. x.1) eq))
        | inr r ↦ ground (arith, (Occurs-lookup k v m u.1).0 r, u.0, e.equal_iff j k)
      ],
      λ eq. inl (ground (arith, e.equal_iff j k)),
    )
    | inr other ↦ rw other (
      λ o. elim o [
        | inl eq ↦ ground (arith, e.equal_iff j k, ap (λ x. x.0) eq)
        | inr r ↦ (Occurs-lookup k v m u.1).0 r
      ],
      λ eq. inr ((Occurs-lookup k v m u.1).1 eq),
    )
  ]
