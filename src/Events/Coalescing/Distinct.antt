-- ===== src/Events/Coalescing/Distinct.antt =====
-- The kinds of the events that `dedup_by` leaves of a sorted list.
use prose_core_client.Base.{
  ◌≡◌, refl, sym, ap, subst, ◌∙◌, ◌≢◌, Bool, true, false, List, [], ◌∷◌, All, beq_ne, Option-cases,
  inl, inr,
}
use prose_core_client.Base.Sort.{sort_by, IsSorted, sort_by-IsSorted, sort_by-All}
use prose_core_client.Shared.Ids.{BareJid}
use prose_core_client.Events.Models.{ClientEvent}
use prose_core_client.Events.Coalescing.{
  coalesce_client_events, compare_client_events, dedup, dedup_from, merge_client_events,
}
use prose_core_client.Events.Coalescing.Kinds.{kind, kind_eq, merge_kind, merge_other}
use prose_core_client.Events.Coalescing.Kept.{
  is_about, is_about-dedup_from, dedup_from_other, dedup_from_same,
}
use prose_core_client.Events.Coalescing.Order.{
  JidOrder, IsPlaced, le_kind, le_kind_antisym, compare_kind, compare_order,
}

-- No two of the events are about the same thing.
abbrev pub HasDistinctKinds : List ClientEvent → Type 0
HasDistinctKinds [] = Unit
HasDistinctKinds (e ∷ es) = (is_about (kind e) es ≡ false) × HasDistinctKinds es

module _ (is_muc : BareJid → Bool) (le_jid : BareJid → BareJid → Bool) (o : JidOrder le_jid) where
  -- Behind an event that is about something else, a sorted list does not come back to `e`.
  not_about :
      (e n : ClientEvent) (es : List ClientEvent)
      → IsPlaced is_muc (kind e)
      → IsPlaced is_muc (kind n)
      → kind e ≢ kind n
      → compare_client_events le_jid e n ≡ true
      → All (λ x. compare_client_events le_jid n x ≡ true) es
      → is_about (kind e) es ≡ false
  unfolding is_about
  not_about e n [] p q d h s = refl
  not_about e n (x ∷ es) p q d h s =
      rw
        (
          beq_ne (kind x) (kind e) (λ back. d (
              le_kind_antisym is_muc le_jid o (kind e) (kind n) p q
                (sym (compare_kind le_jid e n) ∙ h)
                (ap (le_kind le_jid (kind n)) (sym back) ∙ sym (compare_kind le_jid n x) ∙ s.0))),
          not_about e n es p q d h s.1,
        )
        refl

  -- Merging keeps the place of an event in a sorted list.
  All-same :
      (e m : ClientEvent) (es : List ClientEvent)
      → kind m ≡ kind e
      → All (λ x. compare_client_events le_jid e x ≡ true) es
      → All (λ x. compare_client_events le_jid m x ≡ true) es
  All-same e m [] k h = tt
  All-same e m (x ∷ es) k h = (
    compare_kind le_jid m x
        ∙ ap (λ c. le_kind le_jid c (kind x)) k
        ∙ sym (compare_kind le_jid e x)
        ∙ h.0,
    All-same e m es k h.1,
  )

  dedup_from-HasDistinctKinds :
      (e : ClientEvent) (es : List ClientEvent)
      → All (λ x. IsPlaced is_muc (kind x)) (e ∷ es)
      → IsSorted (compare_client_events le_jid) (e ∷ es)
      → HasDistinctKinds (dedup_from e es)
  unfolding dedup_from is_about
  dedup_from-HasDistinctKinds e [] p s = (refl, tt)
  dedup_from-HasDistinctKinds e (n ∷ es) p s = elim (Option-cases (merge_client_events e n)) [
    | inl other ↦ rw (dedup_from_other e n es other) (
      is_about-dedup_from (kind e) n es
          ∙ rw
              (
                beq_ne (kind n) (kind e) (λ back. merge_other e n other (sym back)),
                not_about e n es p.0 p.1.0 (merge_other e n other) s.0.0 s.1.0,
              )
              refl,
      dedup_from-HasDistinctKinds n es p.1 s.1,
    )
    | inr (m, same) ↦ rw (dedup_from_same e n m es same) (
        let f = merge_kind e n m same in
        dedup_from-HasDistinctKinds m es (subst (IsPlaced is_muc) (sym f.1) p.0, p.1.1)
          (All-same e m es f.1 s.0.1, s.1.1))
  ]

  dedup-HasDistinctKinds :
      (es : List ClientEvent)
      → All (λ x. IsPlaced is_muc (kind x)) es
      → IsSorted (compare_client_events le_jid) es
      → HasDistinctKinds (dedup es)
  unfolding dedup
  dedup-HasDistinctKinds [] p s = tt
  dedup-HasDistinctKinds (e ∷ es) p s = dedup_from-HasDistinctKinds e es p s

  -- Where no JID belongs both to a user and to a MUC, no two coalesced events are about the same
  -- thing: the same part of the client, or the same aspect of the same room.
  pub coalesce_client_events-HasDistinctKinds :
      (es : List ClientEvent)
      → All (λ x. IsPlaced is_muc (kind x)) es
      → HasDistinctKinds (coalesce_client_events le_jid es)
  unfolding coalesce_client_events
  coalesce_client_events-HasDistinctKinds es p =
      dedup-HasDistinctKinds (sort_by (compare_client_events le_jid) es)
        (sort_by-All (compare_client_events le_jid) (λ x. IsPlaced is_muc (kind x)) es p)
        (sort_by-IsSorted (compare_client_events le_jid) (λ x. IsPlaced is_muc (kind x))
          (compare_order is_muc le_jid o) es p)
