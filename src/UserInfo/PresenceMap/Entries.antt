-- ===== src/UserInfo/PresenceMap/Entries.antt =====
-- The entries of one user: ordered by priority, one for each resource.
use prose_core_client.Base.{
  String, ◌≡◌, ◌≢◌, sym, Bool, true, Option, none, some, refl, subst, first, List, [], ◌∷◌, All,
  retain, arith, ==_iff, string_eq, option_eq, Bool-cases, inl, inr, All-retain,
}
use prose_core_client.Base.Int.{ℤ, leb_ℤ, ◌≤ℤ◌, leb_ℤ_iff, leb_ℤ_false}
use prose_core_client.UserInfo.Models.{Presence}
use prose_core_client.UserInfo.PresenceMap.{
  PresenceEntry, without_resource, insert_entry, insert_in_entries,
}

abbrev pub rank : PresenceEntry → ℤ
rank e = e.presence.priority

abbrev pub IsOrdered : List PresenceEntry → Type 0
IsOrdered [] = Unit
IsOrdered (e ∷ es) = All (λ f. rank f ≤ℤ rank e) es × IsOrdered es

abbrev pub HasDistinctResources : List PresenceEntry → Type 0
HasDistinctResources [] = Unit
HasDistinctResources (e ∷ es) = All (λ f. f.resource ≢ e.resource) es × HasDistinctResources es

module _ (p : PresenceEntry → Bool) where
  retain-IsOrdered : (es : List PresenceEntry) → IsOrdered es → IsOrdered (retain p es)
  retain-IsOrdered [] h = h
  retain-IsOrdered (e ∷ es) h = elim (Bool-cases (p e)) [
    | inl t ↦ rw t (All-retain _ p es h.0, retain-IsOrdered es h.1)
    | inr f ↦ rw f (retain-IsOrdered es h.1)
  ]

  retain-HasDistinctResources :
      (es : List PresenceEntry) → HasDistinctResources es → HasDistinctResources (retain p es)
  retain-HasDistinctResources [] h = h
  retain-HasDistinctResources (e ∷ es) h = elim (Bool-cases (p e)) [
    | inl t ↦ rw t (All-retain _ p es h.0, retain-HasDistinctResources es h.1)
    | inr f ↦ rw f (retain-HasDistinctResources es h.1)
  ]

insert_entry-All {κ} :
    (P : PresenceEntry → Type κ) (new : PresenceEntry) (es : List PresenceEntry)
    → P new
    → All P es
    → All P (insert_entry new es)
unfolding insert_entry
insert_entry-All P new [] n h = (n, tt)
insert_entry-All P new (e ∷ es) n h = elim (Bool-cases (leb_ℤ (rank e) (rank new))) [
  | inl t ↦ rw t (n, h)
  | inr f ↦ rw f (h.0, insert_entry-All P new es n h.1)
]

below-All :
    (a b : ℤ) (es : List PresenceEntry)
    → a ≤ℤ b
    → All (λ f. rank f ≤ℤ a) es
    → All (λ f. rank f ≤ℤ b) es
below-All a b [] h k = tt
below-All a b (e ∷ es) h k = (omega arith, below-All a b es h k.1)

insert_entry-IsOrdered :
    (new : PresenceEntry) (es : List PresenceEntry) → IsOrdered es → IsOrdered (insert_entry new es)
unfolding insert_entry
insert_entry-IsOrdered new [] h = (tt, tt)
insert_entry-IsOrdered new (e ∷ es) h = elim (Bool-cases (leb_ℤ (rank e) (rank new))) [
  | inl t ↦
      let le = (leb_ℤ_iff (rank e) (rank new)).0 t in
      rw t ((le, below-All (rank e) (rank new) es le h.0), h)
  | inr f ↦ rw f (
    insert_entry-All _ new es (leb_ℤ_false (rank e) (rank new) f) h.0,
    insert_entry-IsOrdered new es h.1,
  )
]

insert_entry-HasDistinctResources :
    (new : PresenceEntry) (es : List PresenceEntry)
    → All (λ f. f.resource ≢ new.resource) es
    → HasDistinctResources es
    → HasDistinctResources (insert_entry new es)
unfolding insert_entry
insert_entry-HasDistinctResources new [] n h = (tt, tt)
insert_entry-HasDistinctResources new (e ∷ es) n h = elim (Bool-cases (leb_ℤ (rank e) (rank new))) [
  | inl t ↦ rw t (n, h)
  | inr f ↦ rw f (
    insert_entry-All _ new es (λ q. n.0 (sym q)) h.0,
    insert_entry-HasDistinctResources new es n.1 h.1,
  )
]

-- What `retain` keeps has passed its test.
retain_passes {κ} :
    (P : PresenceEntry → Type κ) (p : PresenceEntry → Bool)
    → ((e : PresenceEntry) → p e ≡ true → P e)
    → (es : List PresenceEntry) → All P (retain p es)
retain_passes P p h [] = tt
retain_passes P p h (e ∷ es) = elim (Bool-cases (p e)) [
  | inl t ↦ rw t (h e t, retain_passes P p h es)
  | inr f ↦ rw f (retain_passes P p h es)
]

module _ (resource : Option String) where
  pub without_resource_absent :
      (es : List PresenceEntry) → All (λ f. f.resource ≢ resource) (without_resource resource es)
  unfolding without_resource
  without_resource_absent es =
      retain_passes _ _ (λ e h. ground (arith, ==_iff e.resource resource)) es

  pub without_resource-IsOrdered :
      (es : List PresenceEntry) → IsOrdered es → IsOrdered (without_resource resource es)
  unfolding without_resource
  without_resource-IsOrdered es = retain-IsOrdered _ es

  pub without_resource-HasDistinctResources :
      (es : List PresenceEntry)
      → HasDistinctResources es
      → HasDistinctResources (without_resource resource es)
  unfolding without_resource
  without_resource-HasDistinctResources es = retain-HasDistinctResources _ es

insert_entry-first_new :
    (new : PresenceEntry) (es : List PresenceEntry)
    → All (λ e. rank e ≤ℤ rank new) es
    → first (insert_entry new es) ≡ some new
unfolding insert_entry
insert_entry-first_new new [] h = refl
insert_entry-first_new new (e ∷ es) h = ground (arith, leb_ℤ_iff (rank e) (rank new), h.0)

module _ (resource : Option String) (presence : Presence) where
  pub insert_in_entries-IsOrdered :
      (es : List PresenceEntry) → IsOrdered es → IsOrdered (insert_in_entries resource presence es)
  unfolding insert_in_entries
  insert_in_entries-IsOrdered es h = insert_entry-IsOrdered _ _ (retain-IsOrdered _ es h)

  pub insert_in_entries-HasDistinctResources :
      (es : List PresenceEntry)
      → HasDistinctResources es
      → HasDistinctResources (insert_in_entries resource presence es)
  unfolding insert_in_entries
  insert_in_entries-HasDistinctResources es h =
      insert_entry-HasDistinctResources _ _
        (retain_passes _ _
          (λ e k.
            ground (arith, ==_iff e.resource resource, ==_iff {A = Option String} e.resource none))
          es)
        (retain-HasDistinctResources _ es h)

  pub insert_in_entries-first_new :
      (es : List PresenceEntry)
      → All (λ e. rank e ≤ℤ presence.priority) es
      → first (insert_in_entries resource presence es)
        ≡ some (record { resource = resource; presence = presence })
  unfolding insert_in_entries
  insert_in_entries-first_new es h = insert_entry-first_new _ _ (All-retain _ _ es h)

  -- The first entry stays first, if it is kept and ranks above the new one.
  pub insert_in_entries-first_old :
      (h : PresenceEntry) (es : List PresenceEntry)
      → h.resource ≢ resource
      → h.resource ≢ none
      → ¬ (rank h ≤ℤ presence.priority)
      → first (insert_in_entries resource presence (h ∷ es)) ≡ some h
  unfolding insert_in_entries insert_entry
  insert_in_entries-first_old h es other named above = ground (
    arith,
    ==_iff h.resource resource,
    ==_iff {A = Option String} h.resource none,
    leb_ℤ_iff (rank h) presence.priority,
  )

pub first_is_max :
    (es : List PresenceEntry) (h : PresenceEntry)
    → IsOrdered es
    → first es ≡ some h
    → All (λ e. rank e ≤ℤ rank h) es
first_is_max [] h o e = tt
first_is_max (x ∷ xs) h o e =
    let q : x ≡ h = cc in subst (λ y. All (λ f. rank f ≤ℤ rank y) (x ∷ xs)) q (omega arith, o.0)
