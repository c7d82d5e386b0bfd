-- ===== src/Lib.antt =====
-- The domain logic of prose-core-client, the XMPP client library under crates/prose-core-client.
--
-- Parts. A client keeps, for each connected account, the rooms it is in, the participants of each
-- room, the presences of users, the messages of each conversation and the events it reports to the
-- application. What the XMPP modules receive changes these parts, each change raises client events,
-- and the dispatcher hands the events to the application. Paths below are from
-- crates/prose-core-client/src.
--
-- Base: shared notation. Equality tests are instances of `Eq`; a `HashMap` or `IndexMap` is an
-- association list (Base/Assoc), which overwrites in place and adds at the end, and what depends on
-- the unspecified order of a `HashMap` is stated by membership; a `Vec` is a list; Rust's stable
-- sorts are an insertion sort (Base/Sort); signed numbers and times are integers (Base/Int); `Result`
-- with `?` is Base/Result.
-- Shared: identifiers (domain/shared/models) and display names (util/string_ext.rs,
-- domain/shared/utils/contact_name_builder.rs). The parsing of JIDs belongs to the jid crate: an
-- identifier is its text, a full JID a bare one with a resource. Upper case and the node of a JID
-- are the parameters `TextTables`.
-- StringIndex: domain/shared/models/string_index.rs. `scan` is the loop of both `to_scalar_index`,
-- `measure` the body of `to_utf8_index` and `to_utf16_index`.
-- UserInfo: domain/user_info/models and infra/user_info/presence_map.rs (`PresenceMap`).
-- Messaging: domain/messaging/models. Reactions has `toggle_reaction`, `reactions_from` and the
-- branch of `reducing_messages` for reactions; Reduce has its two passes, `collect` and
-- `apply_modifiers`. A panic (`unreachable!`) is `none`.
-- Rooms: domain/rooms/models/participant_list.rs. `new` and its loops are in ParticipantList/New,
-- `composing_users` in ParticipantList/ComposingUsers; ParticipantList/Change makes one type of the
-- operations that change a list. ConnectedRooms is
-- infra/rooms/in_memory_connected_rooms_repository.rs, for any type of rooms with an identifier.
-- Rooms/Room: domain/rooms/models/room.rs. A room is a shared pointer: a handle with what never
-- changes and the cell of what does. A `Session` holds the cells, the connected rooms, the dispatched
-- events and the requests to the bookmarks. Rooms/RoomModels and Rooms/RoomError have the data.
-- Rooms/Service: domain/rooms/services/impls/rooms_domain_service.rs, in Nickname
-- (`try_until_nickname_unique`), Connecting (`insert_connecting_room`), Join (`join_room`), Create and
-- Enter (`create_room` and what it calls, `create_or_join_room`), Finalize (`finalize_pending_room`),
-- DirectMessage, Reconnect and Configure (renaming, reconfiguring, reevaluating). The services and the
-- server are the parameter `Services`; each call may change the session, which is how events that
-- arrive while the code waits are modelled. An outcome is a value, an error, a panic, or `running`.
-- Sidebar: domain/sidebar/services/impls/sidebar_domain_service.rs over the rooms service: Favorites,
-- Removal, Disconnect, Changes, Joins and Extend have its operations, Calls is a sequence of calls in
-- any order (all but renaming, reconfiguring and a changed room configuration). Futures that the code
-- joins run one after the other.
-- Contacts: BlockList is infra/contacts/caching_block_list_repository.rs and
-- domain/contacts/services/impls/block_list_domain_service.rs; what the server answers is an argument
-- of each operation that asks it. ContactList is infra/contacts/caching_contacts_repository.rs and
-- infra/contacts/presence_sub_requests_repository.rs, and ContactList/Service is
-- domain/contacts/services/impls/contact_list_domain_service.rs with the server's answers as the
-- parameter `Answers`.
-- Events: client_event.rs and util/coalesce_client_events.rs (Coalescing), whose sort and `dedup_by`
-- are `compare_client_events` and `merge_client_events`; the order of bare JIDs is the jid crate's
-- and a parameter, with `JidOrder` what is documented of it. Dispatcher is
-- infra/events/coalescing_client_event_dispatcher.rs with the `throttled` stream of
-- crates/prose-wasm-utils; a channel that is full drops an event, as `try_send` does.
--
-- Events/HandlerQueue is app/event_handlers/event_handler_queue.rs, for handlers over any state.
--
-- Fuel: the loops of `join_room` and `create_or_join_room_with_spec` follow the server's redirects
-- without a bound and run on fuel, which Rooms/Service/Join/Termination relates to the redirects. The
-- loop over nicknames has fuel for the ten attempts that its callers allow. Everything else is
-- structural recursion.
--
-- Not modelled: the event handlers, the other services and repositories over XMPP or the store, the XMPP
-- protocol crate (crates/prose-xmpp), the store's drivers (crates/prose-store), markup, bindings,
-- examples and build tasks.
pub mod Base
pub mod Shared
pub mod StringIndex
pub mod UserInfo
pub mod Messaging
pub mod Rooms
pub mod Events
pub mod Contacts
pub mod Sidebar
