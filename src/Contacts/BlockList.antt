-- ===== src/Contacts/BlockList.antt =====
-- The block list: its cache (infra/contacts/caching_block_list_repository.rs) and its service
-- (domain/contacts/services/impls/block_list_domain_service.rs). What the server answers to a
-- request, and whether an account is connected, are arguments: a failed request leaves the state as
-- it is. A `HashSet` is a list that holds no user twice.
pub mod Coherent
mod Tests
use prose_core_client.Base.{
  Bool, true, false, not, Option, none, some, List, [], ◌∷◌, ◌++◌, retain, contains, if◌then◌else◌,
  ◌==◌, string_eq,
}
use prose_core_client.Base.Result.{Result, ok, err, ◌>>=◌, ◌>>◌}
use prose_core_client.Shared.Ids.{UserId}
use prose_core_client.Events.Models
use prose_core_client.Events.Models.{ClientEvent}

pub record BlockListRepository : Type 0 where
  pub blocked_users : Option (List UserId)

-- `HashSet::insert`
abbrev pub insert_new : UserId → List UserId → List UserId
insert_new u us = if contains u us then us else us ++ u ∷ []

-- `into_iter().collect()`
unfoldable pub to_set : List UserId → List UserId
to_set [] = []
to_set (u ∷ us) = insert_new u (to_set us)

-- `HashSet::remove`
abbrev pub without : UserId → List UserId → List UserId
without u us = retain (λ v. not (v == u)) us

abbrev pub users_of : Option (List UserId) → List UserId
users_of none = []
users_of (some us) = us

abbrev is_empty : List UserId → Bool
is_empty [] = true
is_empty (u ∷ us) = false

module _ {Error : Type 0} where
  abbrev load_into :
      Option (List UserId)
      → Result Error (List UserId)
      → BlockListRepository
      → Result Error BlockListRepository
  load_into (some us) answer r = ok r
  load_into none answer r = answer >>= λ us. ok (record { blocked_users = some (to_set us) })

  unfoldable pub load_block_list_if_needed :
      Result Error (List UserId) → BlockListRepository → Result Error BlockListRepository
  unfolding to_set
  load_block_list_if_needed answer r = load_into r.blocked_users answer r

  unfoldable pub is_blocked :
      Result Error (List UserId)
      → UserId
      → BlockListRepository
      → Result Error (Bool × BlockListRepository)
  unfolding load_block_list_if_needed
  is_blocked answer u r = load_block_list_if_needed answer r >>= λ loaded.
      ok (contains u (users_of loaded.blocked_users), loaded)

  unfoldable pub get_all_blocked :
      Result Error (List UserId)
      → BlockListRepository
      → Result Error (List UserId × BlockListRepository)
  unfolding load_block_list_if_needed
  get_all_blocked answer r =
      load_block_list_if_needed answer r >>= λ loaded. ok (users_of loaded.blocked_users, loaded)

  -- Whether the list changed, and the list after it
  unfoldable pub insert_blocked :
      Result Error (List UserId)
      → UserId
      → BlockListRepository
      → Result Error (Bool × BlockListRepository)
  unfolding load_block_list_if_needed
  insert_blocked answer u r = load_block_list_if_needed answer r >>= λ loaded.
      let us = users_of loaded.blocked_users in
      ok (not (contains u us), record { blocked_users = some (insert_new u us) })

  unfoldable pub delete_blocked :
      UserId → BlockListRepository → Result Error (Bool × BlockListRepository)
  delete_blocked u r =
      let us = users_of r.blocked_users in
      ok (contains u us, record { blocked_users = some (without u us) })

  abbrev delete_all_of :
      Option (List UserId) → BlockListRepository → Result Error (Bool × BlockListRepository)
  delete_all_of none r = ok (false, r)
  delete_all_of (some us) r = ok (not (is_empty us), record { blocked_users = some [] })

  unfoldable pub delete_all_blocked :
      BlockListRepository → Result Error (Bool × BlockListRepository)
  delete_all_blocked r = delete_all_of r.blocked_users r

unfoldable pub clear_block_list_cache : BlockListRepository → BlockListRepository
clear_block_list_cache r = record { blocked_users = none }

-- The service: its repository and the events that it dispatched.
pub record BlockListService : Type 0 where
  pub repo : BlockListRepository
  pub events : List ClientEvent

abbrev report : BlockListService → Bool × BlockListRepository → BlockListService
report s r = record {
  repo = r.1;
  events = if r.0 then s.events ++ ClientEvent.block_list_changed ∷ [] else s.events;
}

module _ {Error : Type 0} where
  unfoldable pub handle_user_blocked :
      Result Error Unit
      → Result Error (List UserId)
      → UserId
      → BlockListService
      → Result Error BlockListService
  unfolding insert_blocked
  handle_user_blocked account answer u s =
      account >> (insert_blocked answer u s.repo >>= λ r. ok (report s r))

  unfoldable pub handle_user_unblocked :
      Result Error Unit → UserId → BlockListService → Result Error BlockListService
  unfolding delete_blocked
  handle_user_unblocked account u s = account >> (delete_blocked u s.repo >>= λ r. ok (report s r))

  unfoldable pub handle_block_list_cleared :
      Result Error Unit → BlockListService → Result Error BlockListService
  unfolding delete_all_blocked
  handle_block_list_cleared account s =
      account >> (delete_all_blocked s.repo >>= λ r. ok (report s r))

  -- `request` is the server's answer to the request to block the user.
  unfoldable pub block_user :
      Result Error Unit
      → Result Error Unit
      → Result Error (List UserId)
      → UserId
      → BlockListService
      → Result Error BlockListService
  unfolding handle_user_blocked
  block_user request account answer u s = request >> handle_user_blocked account answer u s

  unfoldable pub unblock_user :
      Result Error Unit
      → Result Error Unit
      → UserId
      → BlockListService
      → Result Error BlockListService
  unfolding handle_user_unblocked
  unblock_user request account u s = request >> handle_user_unblocked account u s

  unfoldable pub clear_block_list :
      Result Error Unit → Result Error Unit → BlockListService → Result Error BlockListService
  unfolding handle_block_list_cleared
  clear_block_list request account s = request >> handle_block_list_cleared account s

  unfoldable pub load_block_list :
      Result Error Unit
      → Result Error (List UserId)
      → BlockListService
      → Result Error (List UserId × BlockListService)
  unfolding get_all_blocked
  load_block_list account answer s =
      account >> (get_all_blocked answer s.repo >>= λ r. ok (r.0, record s { repo = r.1 }))

  -- `clear_cache` and `reset_before_reconnect`
  unfoldable pub clear_cache : Result Error Unit → BlockListService → Result Error BlockListService
  unfolding clear_block_list_cache
  clear_cache account s = account >> ok (record s { repo = clear_block_list_cache s.repo })
