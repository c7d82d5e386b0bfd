-- ===== src/Contacts/BlockList/Tests.antt =====
-- A block list with one user.
use prose_core_client.Base.{
  ◌≡◌, refl, false, none, some, List, [], ◌∷◌, ◌++◌, if◌then◌else◌, contains, string_eq, String,
}
use prose_core_client.Base.Result.{Result, ok, err}
use prose_core_client.Shared.Ids.{UserId}
use prose_core_client.Events.Models.{ClientEvent}
use prose_core_client.Contacts.BlockList.{
  BlockListService, is_blocked, block_user, clear_block_list_cache,
}
use prose_core_client.Contacts.BlockList.Coherent.{
  Update, server_after, is_change, SameUsers, handle, handle-SameUsers, is_blocked-IsCoherent,
  delete_blocked_uncached,
}

abbrev eve : UserId
eve = "eve@prose.org"

abbrev mallory : UserId
mallory = "mallory@prose.org"

abbrev loaded : BlockListService
loaded = record { repo = record { blocked_users = some (eve ∷ []) }; events = [] }

-- A refused request changes nothing.
block_user_refused :
    block_user {Error = String} (err "forbidden") (ok tt) (ok []) mallory loaded ≡ err "forbidden"
unfolding block_user
block_user_refused = refl

block_user_run :
    block_user {Error = String} (ok tt) (ok tt) (err "timeout") mallory loaded
    ≡ ok (record {
      repo = record { blocked_users = some (eve ∷ mallory ∷ []) };
      events = ClientEvent.block_list_changed ∷ [];
    })
unfolding block_user
block_user_run = refl

eve-SameUsers : SameUsers (eve ∷ []) (eve ∷ [])
eve-SameUsers = λ u. refl

abbrev timeout : Result String (List UserId)
timeout = err "timeout"

handle-SameUsers_example :
    (s : BlockListService) × (us : List UserId) × (handle (Update.unblocked eve) timeout loaded
      ≡ ok s)
    × (s.repo.blocked_users ≡ some us)
    × SameUsers us (server_after (Update.unblocked eve) (eve ∷ []))
    × (s.events ≡ (
        if is_change (Update.unblocked eve) (eve ∷ [])
        then [] ++ ClientEvent.block_list_changed ∷ []
        else []))
handle-SameUsers_example =
    handle-SameUsers (Update.unblocked eve) timeout (eve ∷ []) (eve ∷ []) [] eve-SameUsers

is_blocked-IsCoherent_example :
    (us : List UserId) × (is_blocked {Error = String}
        (ok (eve ∷ []))
        eve
        (record { blocked_users = none })
      ≡ ok (contains eve (eve ∷ []), record { blocked_users = some us }))
    × SameUsers us (eve ∷ [])
is_blocked-IsCoherent_example = is_blocked-IsCoherent {Error = String} none (eve ∷ []) eve tt

abbrev truthful : Result String (List UserId)
truthful = ok (eve ∷ [])

delete_blocked_uncached_example :
    (t : BlockListService) × (handle
        (Update.unblocked mallory)
        truthful
        (record loaded { repo = clear_block_list_cache loaded.repo })
      ≡ ok t)
    × (is_blocked truthful eve t.repo ≡ ok (false, t.repo))
delete_blocked_uncached_example = delete_blocked_uncached truthful mallory eve loaded
