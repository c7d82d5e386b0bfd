-- ===== src/Base/Assoc.antt =====
-- Maps (`HashMap`, `IndexMap`) as association lists. `insert` overwrites in place and otherwise adds
-- at the end, as `IndexMap` does; the order that a `HashMap` iterates in is unspecified.
use mathlib.Core.Path.{◌≡◌, refl}
use mathlib.Core.Logic.{inl, inr}
use mathlib.Core.Option
use mathlib.Core.Option.{Option, none, some}
use mathlib.Core.List.{List, [], ◌∷◌}
use native.Mathlib.Omega.{arith}
use prose_core_client.Base.Tests.{if◌then◌else◌, Bool-cases}
use prose_core_client.Base.Equality.{Eq, ◌==◌}

module _ {ℓ κ} {K : Type ℓ} {V : Type κ} ⦃e : Eq K⦄ where
  unfoldable pub lookup : K → List (K × V) → Option V
  lookup k [] = none
  lookup k ((other_key, v) ∷ kvs) = if other_key == k then some v else lookup k kvs

  unfoldable pub insert : K → V → List (K × V) → List (K × V)
  insert k v [] = (k, v) ∷ []
  insert k v ((other_key, old) ∷ kvs) =
      if other_key == k then (k, v) ∷ kvs else (other_key, old) ∷ insert k v kvs

  unfoldable pub remove : K → List (K × V) → List (K × V)
  remove k [] = []
  remove k ((other_key, v) ∷ kvs) =
      let rest = remove k kvs in if other_key == k then rest else (other_key, v) ∷ rest

  -- `entry(k).and_modify(f)`
  unfoldable pub and_modify : K → (V → V) → List (K × V) → List (K × V)
  and_modify k f [] = []
  and_modify k f ((other_key, v) ∷ kvs) =
      if other_key == k then (other_key, f v) ∷ kvs else (other_key, v) ∷ and_modify k f kvs

  -- `f` on what `entry(k).or_insert(v)` refers to
  unfoldable pub modify_or : K → V → (V → V) → List (K × V) → List (K × V)
  unfolding insert lookup
  modify_or k v f kvs = insert k (f (Option.get_or (lookup k kvs) v)) kvs

  pub lookup-insert :
      (k other_key : K) (v : V) (kvs : List (K × V))
      → lookup other_key (insert k v kvs)
        ≡ (if k == other_key then some v else lookup other_key kvs)
  unfolding lookup insert
  lookup-insert k other_key v [] = refl
  lookup-insert k other_key v ((i, old) ∷ kvs) = ground (
    arith,
    e.equal_iff k other_key,
    e.equal_iff i k,
    e.equal_iff i other_key,
    lookup-insert k other_key v kvs,
  )

  pub lookup-insert_same : (k : K) (v : V) (kvs : List (K × V)) → lookup k (insert k v kvs) ≡ some v
  lookup-insert_same k v kvs = ground (arith, lookup-insert k k v kvs, e.equal_iff k k)

  pub lookup-remove :
      (k other_key : K) (kvs : List (K × V))
      → lookup other_key (remove k kvs) ≡ (if k == other_key then none else lookup other_key kvs)
  unfolding lookup remove
  lookup-remove k other_key [] = ground arith
  lookup-remove k other_key ((i, v) ∷ kvs) = ground (
    arith,
    lookup-remove k other_key kvs,
    e.equal_iff i k,
    e.equal_iff i other_key,
    e.equal_iff k other_key,
  )

  pub lookup-and_modify :
      (k other_key : K) (f : V → V) (kvs : List (K × V))
      → lookup other_key (and_modify k f kvs)
        ≡ (if k == other_key then Option.map f (lookup other_key kvs) else lookup other_key kvs)
  unfolding lookup and_modify
  lookup-and_modify k other_key f [] = ground arith
  lookup-and_modify k other_key f ((i, v) ∷ kvs) = ground (
    arith,
    lookup-and_modify k other_key f kvs,
    e.equal_iff i k,
    e.equal_iff i other_key,
    e.equal_iff k other_key,
  )

  pub lookup-modify_or :
      (k other_key : K) (d : V) (f : V → V) (kvs : List (K × V))
      → lookup other_key (modify_or k d f kvs) ≡ (
          if k == other_key
          then some (f (Option.get_or (lookup k kvs) d))
          else lookup other_key kvs)
  lookup-modify_or k other_key d f kvs =
      unfold modify_or in lookup-insert k other_key (f (Option.get_or (lookup k kvs) d)) kvs

  -- No key stands twice.
  abbrev pub IsUnique : List (K × V) → Type κ
  IsUnique [] = Unit
  IsUnique ((k, v) ∷ kvs) = (lookup k kvs ≡ none) × IsUnique kvs

  pub insert-IsUnique :
      (k : K) (v : V) (kvs : List (K × V)) → IsUnique kvs → IsUnique (insert k v kvs)
  unfolding lookup insert
  insert-IsUnique k v [] h = (refl, tt)
  insert-IsUnique k v ((other_key, old) ∷ kvs) h = elim (Bool-cases (e.equal other_key k)) [
    | inl same ↦ rw same (ground (arith, e.equal_iff other_key k), h.1)
    | inr other ↦ rw other (
      ground (
        arith,
        lookup-insert k other_key v kvs,
        e.equal_iff other_key k,
        e.equal_iff k other_key,
      ),
      insert-IsUnique k v kvs h.1,
    )
  ]

  pub remove-IsUnique : (k : K) (kvs : List (K × V)) → IsUnique kvs → IsUnique (remove k kvs)
  unfolding lookup remove
  remove-IsUnique k [] h = tt
  remove-IsUnique k ((other_key, old) ∷ kvs) h = elim (Bool-cases (e.equal other_key k)) [
    | inl same ↦ rw same (remove-IsUnique k kvs h.1)
    | inr other ↦
        rw other (ground (arith, lookup-remove k other_key kvs, h.0), remove-IsUnique k kvs h.1)
  ]

  pub and_modify-IsUnique :
      (k : K) (f : V → V) (kvs : List (K × V)) → IsUnique kvs → IsUnique (and_modify k f kvs)
  unfolding lookup and_modify
  and_modify-IsUnique k f [] h = tt
  and_modify-IsUnique k f ((other_key, old) ∷ kvs) h = elim (Bool-cases (e.equal other_key k)) [
    | inl same ↦ rw same h
    | inr other ↦ rw other (
      ground (
        arith,
        lookup-and_modify k other_key f kvs,
        e.equal_iff other_key k,
        e.equal_iff k other_key,
        h.0,
      ),
      and_modify-IsUnique k f kvs h.1,
    )
  ]

  pub modify_or-IsUnique :
      (k : K) (d : V) (f : V → V) (kvs : List (K × V))
      → IsUnique kvs
      → IsUnique (modify_or k d f kvs)
  modify_or-IsUnique k d f kvs h =
      unfold modify_or in insert-IsUnique k (f (Option.get_or (lookup k kvs) d)) kvs h
