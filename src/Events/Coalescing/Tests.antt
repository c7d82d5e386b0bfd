-- ===== src/Events/Coalescing/Tests.antt =====
-- The order of texts by their characters, and coalescing at events like those of
-- `test_coalesce_events`.
use Prim.Native.Char.{code}
use text.Mathlib.TextEquality.{Char-path}
use prose_core_client.Base.{
  ◌≡◌, refl, String, Bool, true, false, List, [], ◌∷◌, arith, if◌then◌else◌, ltb, nat_beq, All,
  ◌==◌, string_eq,
}
use prose_core_client.Shared.Ids.{BareJid, UserId, RoomId}
use prose_core_client.Messaging.Models.{MessageId}
use prose_core_client.Events.Models.{ClientEvent, ClientRoomEventType, RoomEnvelope}
use prose_core_client.Events.Coalescing.{coalesce_client_events}
use prose_core_client.Events.Coalescing.Kinds.{Kind, kind}
use prose_core_client.Events.Coalescing.Kept.{ids_about, is_about, coalesce_client_events_keep}
use prose_core_client.Events.Coalescing.Order.{JidOrder, IsPlaced}
use prose_core_client.Events.Coalescing.Distinct.{
  HasDistinctKinds, coalesce_client_events-HasDistinctKinds,
}

abbrev le_text : BareJid → BareJid → Bool
le_text String.[] t = true
le_text (String.◌∷◌ c s) String.[] = false
le_text (String.◌∷◌ c s) (String.◌∷◌ d t) =
    let rest = le_text s t in
    if ltb (code c) (code d) then true else if nat_beq (code c) (code d) then rest else false

le_text_total : (s t : BareJid) → le_text s t ≡ false → le_text t s ≡ true
le_text_total String.[] t h = absurd (cc)
le_text_total (String.◌∷◌ c s) String.[] h = refl
le_text_total (String.◌∷◌ c s) (String.◌∷◌ d t) h = ground (arith, le_text_total s t)

le_text_trans : (s t u : BareJid) → le_text s t ≡ true → le_text t u ≡ true → le_text s u ≡ true
le_text_trans String.[] t u h k = refl
le_text_trans (String.◌∷◌ c s) String.[] u h k = absurd (cc)
le_text_trans (String.◌∷◌ c s) (String.◌∷◌ d t) String.[] h k = absurd (cc)
le_text_trans (String.◌∷◌ c s) (String.◌∷◌ d t) (String.◌∷◌ e u) h k =
    ground (arith, le_text_trans s t u)

le_text_antisym : (s t : BareJid) → le_text s t ≡ true → le_text t s ≡ true → s ≡ t
le_text_antisym String.[] String.[] h k = refl
le_text_antisym String.[] (String.◌∷◌ d t) h k = absurd (cc)
le_text_antisym (String.◌∷◌ c s) String.[] h k = absurd (cc)
le_text_antisym (String.◌∷◌ c s) (String.◌∷◌ d t) h k =
    ground (arith, le_text_antisym s t, Char-path c d)

text_order : JidOrder le_text
text_order = record { total = le_text_total; trans = le_text_trans; antisym = le_text_antisym }

abbrev a : UserId
a = "a@prose.org"

abbrev b : UserId
b = "b@prose.org"

abbrev room : RoomEnvelope
room = RoomEnvelope.group (RoomId.muc "room@conf.prose.org")

abbrev appended : MessageId → ClientEvent
appended id = ClientEvent.room_changed room (ClientRoomEventType.messages_appended (id ∷ []))

abbrev events : List ClientEvent
events =
    ClientEvent.sidebar_changed
    ∷ appended "1"
    ∷ ClientEvent.contact_list_changed
    ∷ ClientEvent.avatar_changed (a ∷ [])
    ∷ ClientEvent.sidebar_changed
    ∷ ClientEvent.avatar_changed (b ∷ [])
    ∷ appended "2"
    ∷ []

coalesce_run :
    coalesce_client_events le_text events
    ≡ ClientEvent.sidebar_changed
      ∷ ClientEvent.contact_list_changed
      ∷ ClientEvent.avatar_changed (a ∷ b ∷ [])
      ∷ ClientEvent.room_changed room (ClientRoomEventType.messages_appended ("1" ∷ "2" ∷ []))
      ∷ []
unfolding coalesce_client_events
coalesce_run = refl

coalesce_client_events_keep_example :
    (ids_about (Kind.client 6) (coalesce_client_events le_text events)
      ≡ ids_about (Kind.client 6) events)
    × (is_about (Kind.client 6) (coalesce_client_events le_text events)
        ≡ is_about (Kind.client 6) events)
coalesce_client_events_keep_example = coalesce_client_events_keep le_text (Kind.client 6) events

abbrev is_muc : BareJid → Bool
is_muc j = j == "room@conf.prose.org"

events-IsPlaced : All (λ e. IsPlaced is_muc (kind e)) events
unfolding kind
events-IsPlaced =
    (omega arith, (refl, (omega arith, (omega arith, (omega arith, (omega arith, (refl, tt)))))))

coalesce_client_events-HasDistinctKinds_example :
    HasDistinctKinds (coalesce_client_events le_text events)
coalesce_client_events-HasDistinctKinds_example =
    coalesce_client_events-HasDistinctKinds is_muc le_text text_order events events-IsPlaced
