-- ===== src/Events/Coalescing/Order.antt =====
-- `compare_client_events` as an order on what events are about.
use prose_core_client.Base.{
  ◌≡◌, refl, sym, ap, ◌∙◌, Bool, true, false, arith, ==_iff, ◌==◌, if◌then◌else◌, leb, ◌<◌,
}
use prose_core_client.Base.Sort.{TotalPreorder}
use prose_core_client.Shared.Ids.{BareJid, RoomId, room_id_eq, room_bare_jid}
use prose_core_client.Events.Models.{ClientEvent}
use prose_core_client.Events.Coalescing.{
  compare_client_events, order_key_for_client_event, order_key_for_room_event,
}
use prose_core_client.Events.Coalescing.Kinds.{Kind, kind, kind_eq}

-- The jid crate's order of bare JIDs is total and agrees with their equality.
pub record JidOrder (le_jid : BareJid → BareJid → Bool) : Type 0 where
  pub total : (a b : BareJid) → le_jid a b ≡ false → le_jid b a ≡ true
  pub trans : (a b c : BareJid) → le_jid a b ≡ true → le_jid b c ≡ true → le_jid a c ≡ true
  pub antisym : (a b : BareJid) → le_jid a b ≡ true → le_jid b a ≡ true → a ≡ b

module _ (le_jid : BareJid → BareJid → Bool) where
  unfoldable pub le_kind : Kind → Kind → Bool
  unfolding room_bare_jid
  le_kind (Kind.client m) (Kind.client n) = leb m n
  le_kind (Kind.client m) (Kind.room s n) = leb m 8
  le_kind (Kind.room r m) (Kind.client n) = leb 8 n
  le_kind (Kind.room r m) (Kind.room s n) =
      if r == s then leb m n else le_jid (room_bare_jid r) (room_bare_jid s)

  le_kind_total : JidOrder le_jid → (a b : Kind) → le_kind a b ≡ false → le_kind b a ≡ true
  unfolding le_kind
  le_kind_total o (Kind.client m) (Kind.client n) h = ground arith
  le_kind_total o (Kind.client m) (Kind.room s n) h = ground arith
  le_kind_total o (Kind.room r m) (Kind.client n) h = ground arith
  le_kind_total o (Kind.room r m) (Kind.room s n) h =
      ground (arith, ==_iff r s, ==_iff s r, o.total (room_bare_jid r) (room_bare_jid s))

  pub compare_kind :
      (a b : ClientEvent) → compare_client_events le_jid a b ≡ le_kind (kind a) (kind b)
  unfolding compare_client_events kind le_kind order_key_for_client_event order_key_for_room_event
  compare_kind (ClientEvent.room_changed r x) (ClientEvent.room_changed s y) = refl
  compare_kind (ClientEvent.room_changed r x) b = ground arith
  compare_kind (ClientEvent.connection_status_changed x) b = ground arith
  compare_kind ClientEvent.sidebar_changed b = ground arith
  compare_kind (ClientEvent.contact_changed ids) b = ground arith
  compare_kind ClientEvent.contact_list_changed b = ground arith
  compare_kind ClientEvent.presence_sub_requests_changed b = ground arith
  compare_kind ClientEvent.block_list_changed b = ground arith
  compare_kind (ClientEvent.avatar_changed ids) b = ground arith
  compare_kind ClientEvent.account_info_changed b = ground arith

module _ (is_muc : BareJid → Bool) where
  abbrev pub IsRoomOf : RoomId → Type 0
  IsRoomOf (RoomId.user id) = is_muc id ≡ false
  IsRoomOf (RoomId.muc id) = is_muc id ≡ true

  -- Whether a JID is a MUC's decides which rooms can have it.
  abbrev pub IsPlaced : Kind → Type 0
  IsPlaced (Kind.client n) = n < 8
  IsPlaced (Kind.room r n) = IsRoomOf r

  room_bare_jid_inj :
      (r s : RoomId) → IsRoomOf r → IsRoomOf s → room_bare_jid r ≡ room_bare_jid s → r ≡ s
  unfolding room_bare_jid
  room_bare_jid_inj (RoomId.user a) (RoomId.user b) p q e = ap RoomId.user e
  room_bare_jid_inj (RoomId.muc a) (RoomId.muc b) p q e = ap RoomId.muc e
  room_bare_jid_inj (RoomId.user a) (RoomId.muc b) p q e = absurd (cc (e, p, q))
  room_bare_jid_inj (RoomId.muc a) (RoomId.user b) p q e = absurd (cc (e, p, q))

  module _ (le_jid : BareJid → BareJid → Bool) where
    pub le_kind_antisym :
        JidOrder le_jid
        → (a b : Kind) → IsPlaced a
        → IsPlaced b
        → le_kind le_jid a b ≡ true
        → le_kind le_jid b a ≡ true
        → a ≡ b
    unfolding le_kind
    le_kind_antisym o (Kind.client m) (Kind.client n) p q h k = ap Kind.client (ground arith)
    le_kind_antisym o (Kind.client m) (Kind.room s n) p q h k = ground arith
    le_kind_antisym o (Kind.room r m) (Kind.client n) p q h k = ground arith
    le_kind_antisym o (Kind.room r m) (Kind.room s n) p q h k = ground (
      arith,
      ==_iff r s,
      ==_iff s r,
      o.antisym (room_bare_jid r) (room_bare_jid s),
      room_bare_jid_inj r s p q,
    )

    le_kind_trans :
        JidOrder le_jid
        → (a b c : Kind) → IsPlaced a
        → IsPlaced b
        → IsPlaced c
        → le_kind le_jid a b ≡ true
        → le_kind le_jid b c ≡ true
        → le_kind le_jid a c ≡ true
    unfolding le_kind
    le_kind_trans o (Kind.client l) (Kind.client m) (Kind.client n) p q r h k = ground arith
    le_kind_trans o (Kind.client l) (Kind.client m) (Kind.room t n) p q r h k = ground arith
    le_kind_trans o (Kind.client l) (Kind.room s m) (Kind.client n) p q r h k = ground arith
    le_kind_trans o (Kind.client l) (Kind.room s m) (Kind.room t n) p q r h k = ground arith
    le_kind_trans o (Kind.room u l) (Kind.client m) (Kind.client n) p q r h k = ground arith
    le_kind_trans o (Kind.room u l) (Kind.client m) (Kind.room t n) p q r h k = ground arith
    le_kind_trans o (Kind.room u l) (Kind.room s m) (Kind.client n) p q r h k = ground arith
    le_kind_trans o (Kind.room u l) (Kind.room s m) (Kind.room t n) p q r h k = ground (
      arith,
      ==_iff u s,
      ==_iff s t,
      ==_iff u t,
      o.trans (room_bare_jid u) (room_bare_jid s) (room_bare_jid t),
      o.antisym (room_bare_jid u) (room_bare_jid s),
      room_bare_jid_inj u s p q,
    )

    pub compare_order :
        JidOrder le_jid → TotalPreorder (λ e. IsPlaced (kind e)) (compare_client_events le_jid)
    compare_order o = record {
      total = λ a b p q h.
          compare_kind le_jid b a
          ∙ le_kind_total le_jid o (kind a) (kind b) (sym (compare_kind le_jid a b) ∙ h);
      trans = λ a b c p q r h k.
          compare_kind le_jid a c
          ∙ le_kind_trans o (kind a) (kind b) (kind c) p q r (sym (compare_kind le_jid a b) ∙ h)
              (sym (compare_kind le_jid b c) ∙ k);
    }
