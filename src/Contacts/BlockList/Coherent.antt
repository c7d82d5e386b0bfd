-- ===== src/Contacts/BlockList/Coherent.antt =====
-- The cached block list and the server's.
use prose_core_client.Base.{
  ◌≡◌, refl, sym, ap, ◌∙◌, Bool, false, not, ◌||◌, Option, none, some, List, [], ◌∷◌, ◌++◌, arith,
  contains, contains-push_new, contains-retain_ne, if◌then◌else◌, ◌==◌, ==_iff, string_eq,
}
use prose_core_client.Base.Result.{Result, ok}
use prose_core_client.Shared.Ids.{UserId}
use prose_core_client.Events.Models.{ClientEvent}
use prose_core_client.Contacts.BlockList.{
  BlockListService, to_set, insert_new, without, is_empty, is_blocked, load_block_list_if_needed,
  insert_blocked, delete_blocked, delete_all_blocked, clear_block_list_cache, handle_user_blocked,
  handle_user_unblocked, handle_block_list_cleared,
}

-- What the server reports of its block list.
pub data Update : Type 0 where
  blocked unblocked : UserId → Update
  cleared : Update

-- The server's list after an update.
abbrev pub server_after : Update → List UserId → List UserId
server_after (blocked u) us = insert_new u us
server_after (unblocked u) us = without u us
server_after cleared us = []

-- Whether the update changes the server's list.
abbrev pub is_change : Update → List UserId → Bool
is_change (blocked u) us = not (contains u us)
is_change (unblocked u) us = contains u us
is_change cleared us = not (is_empty us)

-- The same users, in whatever order.
abbrev pub SameUsers : List UserId → List UserId → Type 0
SameUsers xs ys = (u : UserId) → contains u xs ≡ contains u ys

-- The cache is empty or holds the server's users.
abbrev pub IsCoherent : List UserId → Option (List UserId) → Type 0
IsCoherent server none = Unit
IsCoherent server (some us) = SameUsers us server

contains-to_set : (u : UserId) (us : List UserId) → contains u (to_set us) ≡ contains u us
unfolding to_set
contains-to_set u [] = refl
contains-to_set u (v ∷ us) =
    contains-push_new v u (to_set us) ∙ ap (λ b. v == u || b) (contains-to_set u us)

SameUsers-is_empty : (us server : List UserId) → SameUsers us server → is_empty us ≡ is_empty server
SameUsers-is_empty [] [] h = refl
SameUsers-is_empty (u ∷ us) (v ∷ server) h = refl
SameUsers-is_empty [] (v ∷ server) h = ground (arith, h v, ==_iff v v)
SameUsers-is_empty (u ∷ us) [] h = ground (arith, h u, ==_iff u u)

SameUsers-after :
    (c : Update) (us server : List UserId)
    → SameUsers us server
    → SameUsers (server_after c us) (server_after c server)
SameUsers-after (blocked u) us server h =
    λ v. contains-push_new u v us ∙ ap (λ b. u == v || b) (h v) ∙ sym (contains-push_new u v server)
SameUsers-after (unblocked u) us server h = λ v.
    contains-retain_ne u v us
    ∙ ap (λ b. if u == v then false else b) (h v)
    ∙ sym (contains-retain_ne u v server)
SameUsers-after cleared us server h = λ v. refl

is_change-same :
    (c : Update) (us server : List UserId)
    → SameUsers us server
    → is_change c us ≡ is_change c server
is_change-same (blocked u) us server h = ap not (h u)
is_change-same (unblocked u) us server h = h u
is_change-same cleared us server h = ap not (SameUsers-is_empty us server h)

-- The service after an update at a loaded cache.
abbrev handled : Update → List UserId → List ClientEvent → BlockListService
handled c us events = record {
  repo = record { blocked_users = some (server_after c us) };
  events = if is_change c us then events ++ ClientEvent.block_list_changed ∷ [] else events;
}

module _ {Error : Type 0} where
  -- The handler of an update, while an account is connected.
  unfoldable pub handle :
      Update → Result Error (List UserId) → BlockListService → Result Error BlockListService
  unfolding handle_user_blocked handle_user_unblocked handle_block_list_cleared
  handle (blocked u) answer s = handle_user_blocked (ok tt) answer u s
  handle (unblocked u) answer s = handle_user_unblocked (ok tt) u s
  handle cleared answer s = handle_block_list_cleared (ok tt) s

  handle_loaded :
      (c : Update) (answer : Result Error (List UserId)) (us : List UserId)
      (events : List ClientEvent)
      → handle c answer (record { repo = record { blocked_users = some us }; events = events })
        ≡ ok (handled c us events)
  unfolding handle handle_user_blocked handle_user_unblocked handle_block_list_cleared
      insert_blocked delete_blocked delete_all_blocked load_block_list_if_needed
  handle_loaded (blocked u) answer us events = refl
  handle_loaded (unblocked u) answer us events = refl
  handle_loaded cleared answer us events = refl

  -- A loaded cache that holds the server's users follows every update of the server without a
  -- request that can fail, and the application hears of it exactly when the list changes.
  pub handle-SameUsers :
      (c : Update) (answer : Result Error (List UserId)) (us server : List UserId)
      (events : List ClientEvent)
      → SameUsers us server
      → (s : BlockListService) × (us' : List UserId) × (handle c answer
            (record { repo = record { blocked_users = some us }; events = events })
          ≡ ok s)
        × (s.repo.blocked_users ≡ some us')
        × SameUsers us' (server_after c server)
        × (s.events ≡ (
            if is_change c server then events ++ ClientEvent.block_list_changed ∷ [] else events))
  handle-SameUsers c answer us server events h = (
    handled c us events,
    server_after c us,
    handle_loaded c answer us events,
    refl,
    SameUsers-after c us server h,
    ap (λ b. if b then events ++ ClientEvent.block_list_changed ∷ [] else events)
        (is_change-same c us server h),
  )

  -- When the server answers with its list, and the cache is empty or holds the server's users, a
  -- user is reported as blocked exactly when the server blocks it, and the cache then holds the
  -- server's users.
  pub is_blocked-IsCoherent :
      (cache : Option (List UserId)) (server : List UserId) (u : UserId)
      → IsCoherent server cache
      → (us : List UserId) × (is_blocked {Error = Error}
            (ok server)
            u
            (record { blocked_users = cache })
          ≡ ok (contains u server, record { blocked_users = some us }))
        × SameUsers us server
  unfolding is_blocked load_block_list_if_needed
  is_blocked-IsCoherent none server u h =
      (to_set server, rw (contains-to_set u server) refl, λ v. contains-to_set v server)
  is_blocked-IsCoherent (some us) server u h = (us, rw (h u) refl, h)

  -- After a user was unblocked while the list was not cached, no user is reported as blocked,
  -- whatever the server would answer.
  pub delete_blocked_uncached :
      (answer : Result Error (List UserId)) (u v : UserId) (s : BlockListService)
      → (t : BlockListService) × (handle
            (unblocked u)
            answer
            (record s { repo = clear_block_list_cache s.repo })
          ≡ ok t)
        × (is_blocked answer v t.repo ≡ ok (false, t.repo))
  unfolding handle handle_user_unblocked delete_blocked clear_block_list_cache is_blocked
      load_block_list_if_needed
  delete_blocked_uncached answer u v s =
      (record { repo = record { blocked_users = some [] }; events = s.events }, refl, refl)
