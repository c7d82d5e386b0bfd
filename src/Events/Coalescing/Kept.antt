-- ===== src/Events/Coalescing/Kept.antt =====
-- The events of one kind before and after `coalesce_client_events`.
use prose_core_client.Base.{
  ◌≡◌, refl, sym, ap, ◌∙◌, Bool, true, false, ◌||◌, none, some, List, [], ◌∷◌, ◌++◌, arith, ==_iff,
  ◌==◌, if◌then◌else◌, String, retain, append_assoc, Option-cases, Bool-cases, inl, inr,
}
use prose_core_client.Base.Sort.{sort_by, retain-sort_by}
use prose_core_client.Shared.Ids.{BareJid, room_id_eq}
use prose_core_client.Events.Models.{ClientEvent, room_jid}
use prose_core_client.Events.Coalescing.{
  coalesce_client_events, compare_client_events, dedup, dedup_from, merge_client_events,
  order_key_for_client_event, order_key_for_room_event,
}
use prose_core_client.Events.Coalescing.Kinds.{
  Kind, kind, kind_eq, event_ids, merge_kind, room_of, order_of,
}

-- The ids that the events of a kind name, in order.
unfoldable pub ids_about : Kind → List ClientEvent → List String
unfolding kind
ids_about k [] = []
ids_about k (e ∷ es) =
    let rest = ids_about k es in if kind e == k then event_ids e ++ rest else rest

-- There is an event of the kind.
unfoldable pub is_about : Kind → List ClientEvent → Bool
unfolding kind
is_about k [] = false
is_about k (e ∷ es) = kind e == k || is_about k es

pub dedup_from_other :
    (e n : ClientEvent) (es : List ClientEvent)
    → merge_client_events e n ≡ none
    → dedup_from e (n ∷ es) ≡ e ∷ dedup_from n es
unfolding dedup_from
dedup_from_other e n es h = rw (dedup_from, h) refl

pub dedup_from_same :
    (e n m : ClientEvent) (es : List ClientEvent)
    → merge_client_events e n ≡ some m
    → dedup_from e (n ∷ es) ≡ dedup_from m es
unfolding dedup_from
dedup_from_same e n m es h = rw (dedup_from, h) refl

ids_about-dedup_from :
    (k : Kind) (e : ClientEvent) (es : List ClientEvent)
    → ids_about k (dedup_from e es) ≡ ids_about k (e ∷ es)
unfolding ids_about dedup_from
ids_about-dedup_from k e [] = refl
ids_about-dedup_from k e (n ∷ es) = elim (Option-cases (merge_client_events e n)) [
  | inl other ↦ rw (dedup_from_other e n es other, ids_about-dedup_from k n es) refl
  | inr (m, same) ↦ rw (dedup_from_same e n m es same) (
      let f = merge_kind e n m same in
      ground (
        arith,
        f.0,
        f.1,
        f.2,
        ids_about-dedup_from k m es,
        append_assoc (event_ids e) (event_ids n) (ids_about k es),
      ))
]

pub is_about-dedup_from :
    (k : Kind) (e : ClientEvent) (es : List ClientEvent)
    → is_about k (dedup_from e es) ≡ is_about k (e ∷ es)
unfolding is_about dedup_from
is_about-dedup_from k e [] = refl
is_about-dedup_from k e (n ∷ es) = elim (Option-cases (merge_client_events e n)) [
  | inl other ↦ rw (dedup_from_other e n es other, is_about-dedup_from k n es) refl
  | inr (m, same) ↦
      rw (dedup_from_same e n m es same)
        (let f = merge_kind e n m same in ground (arith, f.0, f.1, is_about-dedup_from k m es))
]

-- Both look only at the events of their kind.
ids_about-retain :
    (k : Kind) (es : List ClientEvent) → ids_about k (retain (λ e. kind e == k) es) ≡ ids_about k es
unfolding ids_about
ids_about-retain k [] = refl
ids_about-retain k (e ∷ es) = elim (Bool-cases (kind e == k)) [
  | inl about ↦ rw (about, about, ids_about-retain k es) refl
  | inr other ↦ rw (other, ids_about-retain k es) refl
]

is_about-retain :
    (k : Kind) (es : List ClientEvent) → is_about k (retain (λ e. kind e == k) es) ≡ is_about k es
unfolding is_about
is_about-retain k [] = refl
is_about-retain k (e ∷ es) = elim (Bool-cases (kind e == k)) [
  | inl about ↦ rw (about, about) refl
  | inr other ↦ rw (other, is_about-retain k es) refl
]

ids_about-dedup : (k : Kind) (es : List ClientEvent) → ids_about k (dedup es) ≡ ids_about k es
unfolding dedup
ids_about-dedup k [] = refl
ids_about-dedup k (e ∷ es) = ids_about-dedup_from k e es

is_about-dedup : (k : Kind) (es : List ClientEvent) → is_about k (dedup es) ≡ is_about k es
unfolding dedup
is_about-dedup k [] = refl
is_about-dedup k (e ∷ es) = is_about-dedup_from k e es

module _ (le_jid : BareJid → BareJid → Bool) where
  -- The comparison does not tell events of a kind apart.
  pub compare_same : (a b : ClientEvent) → kind a ≡ kind b → compare_client_events le_jid a b ≡ true
  unfolding compare_client_events kind order_key_for_client_event order_key_for_room_event
  compare_same (ClientEvent.room_changed r a) (ClientEvent.room_changed s b) h =
      ground (arith, ==_iff (room_jid r) (room_jid s), ap room_of h, ap order_of h)
  compare_same (ClientEvent.room_changed r a) b h = ground (arith, ap room_of h, ap order_of h)
  compare_same (ClientEvent.connection_status_changed x) b h = ground (arith, ap order_of h)
  compare_same ClientEvent.sidebar_changed b h = ground (arith, ap order_of h)
  compare_same (ClientEvent.contact_changed ids) b h = ground (arith, ap order_of h)
  compare_same ClientEvent.contact_list_changed b h = ground (arith, ap order_of h)
  compare_same ClientEvent.presence_sub_requests_changed b h = ground (arith, ap order_of h)
  compare_same ClientEvent.block_list_changed b h = ground (arith, ap order_of h)
  compare_same (ClientEvent.avatar_changed ids) b h = ground (arith, ap order_of h)
  compare_same ClientEvent.account_info_changed b h = ground (arith, ap order_of h)

  retain-sorted :
      (k : Kind) (es : List ClientEvent)
      → retain (λ e. kind e == k) (sort_by (compare_client_events le_jid) es)
        ≡ retain (λ e. kind e == k) es
  retain-sorted k es =
      retain-sort_by (compare_client_events le_jid) (λ e. kind e == k)
        (λ a b p q. compare_same a b ((==_iff (kind a) k).0 p ∙ sym ((==_iff (kind b) k).0 q))) es

  -- Every id that an event named is still named by an event of the same kind, in the same order, and
  -- no kind of event appears or disappears.
  pub coalesce_client_events_keep :
      (k : Kind) (es : List ClientEvent)
      → (ids_about k (coalesce_client_events le_jid es) ≡ ids_about k es)
        × (is_about k (coalesce_client_events le_jid es) ≡ is_about k es)
  unfolding coalesce_client_events
  coalesce_client_events_keep k es =
      let sorted = sort_by (compare_client_events le_jid) es in
      (
        ids_about-dedup k sorted
            ∙ sym (ids_about-retain k sorted)
            ∙ ap (ids_about k) (retain-sorted k es)
            ∙ ids_about-retain k es,
        is_about-dedup k sorted
            ∙ sym (is_about-retain k sorted)
            ∙ ap (is_about k) (retain-sorted k es)
            ∙ is_about-retain k es,
      )
