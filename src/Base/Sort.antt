-- ===== src/Base/Sort.antt =====
-- `sort_by` and `sorted_by_key`: Rust's stable sorts, as an insertion sort. `le a b` says that the
-- comparison of `a` with `b` does not yield `Greater`.
use mathlib.Core.Path.{◌≡◌, refl}
use mathlib.Core.Logic.{◌↔◌, inl, inr}
use mathlib.Core.Bool.{Bool, true, false}
use mathlib.Core.List.{List, [], ◌∷◌, Perm}
use mathlib.Core.List.Perm
use native.Mathlib.Omega.{arith}
use prose_core_client.Base.Tests.{if◌then◌else◌, Bool-cases}
use prose_core_client.Base.Lists.{All, Occurs, retain}

-- What a sort needs of its order on the elements that satisfy `P`.
pub record TotalPreorder {A : Type 0} (P : A → Type 0) (le : A → A → Bool) : Type 0 where
  pub total : (a b : A) → P a → P b → le a b ≡ false → le b a ≡ true
  pub trans : (a b c : A) → P a → P b → P c → le a b ≡ true → le b c ≡ true → le a c ≡ true

module _ {A : Type 0} (le : A → A → Bool) where
  abbrev pub insert_sorted : A → List A → List A
  insert_sorted a [] = a ∷ []
  insert_sorted a (b ∷ bs) = if le a b then a ∷ b ∷ bs else b ∷ insert_sorted a bs

  unfoldable pub sort_by : List A → List A
  sort_by [] = []
  sort_by (a ∷ rest) = insert_sorted a (sort_by rest)

  abbrev pub IsSorted : List A → Type 0
  IsSorted [] = Unit
  IsSorted (a ∷ rest) = All (λ b. le a b ≡ true) rest × IsSorted rest

  insert_sorted-All :
      (P : A → Type 0) (a : A) (bs : List A) → P a → All P bs → All P (insert_sorted a bs)
  insert_sorted-All P a [] h k = (h, tt)
  insert_sorted-All P a (b ∷ bs) h k = elim (Bool-cases (le a b)) [
    | inl before ↦ rw before (h, k)
    | inr after ↦ rw after (k.0, insert_sorted-All P a bs h k.1)
  ]

  pub sort_by-All : (P : A → Type 0) (xs : List A) → All P xs → All P (sort_by xs)
  unfolding sort_by
  sort_by-All P [] h = tt
  sort_by-All P (a ∷ rest) h = insert_sorted-All P a (sort_by rest) h.0 (sort_by-All P rest h.1)

  All-le_trans :
      (P : A → Type 0)
      → TotalPreorder P le
      → (a b : A) (xs : List A) → P a
      → P b
      → All P xs
      → le a b ≡ true
      → All (λ x. le b x ≡ true) xs
      → All (λ x. le a x ≡ true) xs
  All-le_trans P o a b [] pa pb p h k = tt
  All-le_trans P o a b (x ∷ xs) pa pb p h k =
      (o.trans a b x pa pb p.0 h k.0, All-le_trans P o a b xs pa pb p.1 h k.1)

  insert_sorted-IsSorted :
      (P : A → Type 0)
      → TotalPreorder P le
      → (a : A) (bs : List A) → P a
      → All P bs
      → IsSorted bs
      → IsSorted (insert_sorted a bs)
  insert_sorted-IsSorted P o a [] pa p s = (tt, tt)
  insert_sorted-IsSorted P o a (b ∷ bs) pa p s = elim (Bool-cases (le a b)) [
    | inl before ↦ rw before ((before, All-le_trans P o a b bs pa p.0 p.1 before s.0), s)
    | inr after ↦ rw after (
      insert_sorted-All (λ x. le b x ≡ true) a bs (o.total a b pa p.0 after) s.0,
      insert_sorted-IsSorted P o a bs pa p.1 s.1,
    )
  ]

  pub sort_by-IsSorted :
      (P : A → Type 0) → TotalPreorder P le → (xs : List A) → All P xs → IsSorted (sort_by xs)
  unfolding sort_by
  sort_by-IsSorted P o [] p = tt
  sort_by-IsSorted P o (a ∷ rest) p =
      insert_sorted-IsSorted P o a (sort_by rest) p.0 (sort_by-All P rest p.1)
        (sort_by-IsSorted P o rest p.1)

  insert_sorted-Occurs : (x a : A) (bs : List A) → Occurs x (a ∷ bs) → Occurs x (insert_sorted a bs)
  insert_sorted-Occurs x a [] o = o
  insert_sorted-Occurs x a (b ∷ bs) o = elim (Bool-cases (le a b)) [
    | inl before ↦ rw before o
    | inr after ↦ rw after elim o [
      | inl e ↦ inr (insert_sorted-Occurs x a bs (inl e))
      | inr (inl e) ↦ inl e
      | inr (inr k) ↦ inr (insert_sorted-Occurs x a bs (inr k))
    ]
  ]

  Occurs-insert_sorted : (x a : A) (bs : List A) → Occurs x (insert_sorted a bs) → Occurs x (a ∷ bs)
  Occurs-insert_sorted x a [] = λ o. o
  Occurs-insert_sorted x a (b ∷ bs) = elim (Bool-cases (le a b)) [
    | inl before ↦ rw before (λ o. o)
    | inr after ↦ rw after (λ o. elim o [
      | inl e ↦ inr (inl e)
      | inr k ↦ elim (Occurs-insert_sorted x a bs k) [ inl e ↦ inl e | inr r ↦ inr (inr r) ]
    ])
  ]

  pub Occurs-sort_by : (x : A) (xs : List A) → Occurs x (sort_by xs) ↔ Occurs x xs
  unfolding sort_by
  Occurs-sort_by x [] = (λ o. o, λ o. o)
  Occurs-sort_by x (a ∷ rest) = (
    λ o. elim (Occurs-insert_sorted x a (sort_by rest) o) [
      | inl e ↦ inl e
      | inr k ↦ inr ((Occurs-sort_by x rest).0 k)
    ],
    λ o.
        insert_sorted-Occurs x a (sort_by rest)
          (elim o [ inl e ↦ inl e | inr k ↦ inr ((Occurs-sort_by x rest).1 k) ]),
  )

  insert_sorted-Perm : (a : A) (bs : List A) → Perm (insert_sorted a bs) (a ∷ bs)
  insert_sorted-Perm a [] = Perm.refl (a ∷ [])
  insert_sorted-Perm a (b ∷ bs) = elim (Bool-cases (le a b)) [
    | inl before ↦ rw before (Perm.refl (a ∷ b ∷ bs))
    | inr after ↦ rw after (Perm.trans (Perm.cons b (insert_sorted-Perm a bs)) (Perm.swap a b bs))
  ]

  pub sort_by-Perm : (xs : List A) → Perm (sort_by xs) xs
  unfolding sort_by
  sort_by-Perm [] = Perm.refl []
  sort_by-Perm (a ∷ rest) =
      Perm.trans (insert_sorted-Perm a (sort_by rest)) (Perm.cons a (sort_by-Perm rest))

  -- Elements that the order does not tell apart keep their order.
  retain-insert_sorted :
      (p : A → Bool)
      → ((a b : A) → p a ≡ true → p b ≡ true → le a b ≡ true)
      → (a : A) (bs : List A) → retain p (insert_sorted a bs) ≡ retain p (a ∷ bs)
  retain-insert_sorted p same a [] = refl
  retain-insert_sorted p same a (b ∷ bs) =
      ground (arith, same a b, retain-insert_sorted p same a bs)

  pub retain-sort_by :
      (p : A → Bool)
      → ((a b : A) → p a ≡ true → p b ≡ true → le a b ≡ true)
      → (xs : List A) → retain p (sort_by xs) ≡ retain p xs
  unfolding sort_by
  retain-sort_by p same [] = refl
  retain-sort_by p same (a ∷ rest) =
      rw (retain-insert_sorted p same a (sort_by rest), retain-sort_by p same rest) refl
