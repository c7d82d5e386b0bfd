-- ===== src/Messaging/Reactions/Toggle.antt =====
-- Toggling a reaction, and the reaction that is sent for it.
use prose_core_client.Base.{
  ◌≡◌, refl, Bool, false, not, ◌&&◌, List, [], ◌∷◌, contains, any, if◌then◌else◌, ◌==◌, string_eq,
  arith, beq_refl, ==_iff, Bool-cases, inl, inr, contains-append,
}
use prose_core_client.Shared.Ids.{ParticipantId, participant_id_eq}
use prose_core_client.Messaging.Models.{Emoji, Reaction, Message}
use prose_core_client.Messaging.Reactions.{
  apply_reaction, remove_first, toggle, toggle_author, reactions_from, toggle_reaction,
}
use prose_core_client.Messaging.Reactions.Sets.{
  is_by, has_reacted, apply_reaction_sets, contains-reactions_from,
}

abbrev pub IsDistinct : List ParticipantId → Type 0
IsDistinct [] = Unit
IsDistinct (x ∷ xs) = (contains x xs ≡ false) × IsDistinct xs

abbrev pub has_emoji : Emoji → List Reaction → Bool
has_emoji e = any (λ r. r.emoji == e)

-- No emoji stands twice, and no author twice under one emoji.
abbrev pub IsTidy : List Reaction → Type 0
IsTidy [] = Unit
IsTidy (r ∷ rs) = (has_emoji r.emoji rs ≡ false) × IsDistinct r.from × IsTidy rs

contains-remove_first_ne :
    (a b : ParticipantId) (xs : List ParticipantId)
    → (a == b) ≡ false
    → contains b (remove_first a xs) ≡ contains b xs
unfolding remove_first
contains-remove_first_ne a b [] h = refl
contains-remove_first_ne a b (x ∷ xs) h =
    ground (arith, contains-remove_first_ne a b xs h, ==_iff x a, ==_iff x b, ==_iff a b)

contains-remove_first_self :
    (a : ParticipantId) (xs : List ParticipantId)
    → IsDistinct xs
    → contains a (remove_first a xs) ≡ false
unfolding remove_first
contains-remove_first_self a [] d = refl
contains-remove_first_self a (x ∷ xs) d =
    ground (arith, contains-remove_first_self a xs d.1, ==_iff x a, d.0)

not_reacted :
    (a : ParticipantId) (e : Emoji) (rs : List Reaction)
    → has_emoji e rs ≡ false
    → has_reacted a e rs ≡ false
not_reacted a e [] h = refl
not_reacted a e (r ∷ rs) h = ground (arith, not_reacted a e rs)

toggle_author_self :
    (a : ParticipantId) (r : Reaction)
    → IsDistinct r.from
    → contains a (toggle_author a r).from ≡ not (contains a r.from)
toggle_author_self a r d =
    ground
      (arith, contains-append a r.from (a ∷ []), contains-remove_first_self a r.from d, ==_iff a a)

toggle_author_other :
    (a b : ParticipantId) (r : Reaction)
    → (a == b) ≡ false
    → contains b (toggle_author a r).from ≡ contains b r.from
toggle_author_other a b r h =
    ground (arith, contains-append b r.from (a ∷ []), contains-remove_first_ne a b r.from h)

emoji-toggle_author : (a : ParticipantId) (r : Reaction) → (toggle_author a r).emoji ≡ r.emoji
emoji-toggle_author a r = ground arith

is_by-toggle_self :
    (a : ParticipantId) (e : Emoji) (r : Reaction)
    → IsDistinct r.from
    → is_by a e (toggle_author a r) ≡ (r.emoji == e && not (contains a r.from))
is_by-toggle_self a e r d = rw (emoji-toggle_author a r, toggle_author_self a r d)

is_by-toggle_other :
    (a b : ParticipantId) (e : Emoji) (r : Reaction)
    → (a == b) ≡ false
    → is_by b e (toggle_author a r) ≡ is_by b e r
is_by-toggle_other a b e r h = rw (emoji-toggle_author a r, toggle_author_other a b r h)

toggle_self :
    (a : ParticipantId) (x e : Emoji) (rs : List Reaction)
    → IsTidy rs
    → has_reacted a e (toggle a x rs)
      ≡ (if x == e then not (has_reacted a e rs) else has_reacted a e rs)
unfolding toggle
toggle_self a x e [] t = ground (arith, ==_iff a a)
toggle_self a x e (r ∷ rs) t = elim (Bool-cases (r.emoji == x)) [
  | inl here ↦
      let q : r.emoji ≡ x = (==_iff r.emoji x).0 here in
      rw here (
        ground (
          arith,
          is_by-toggle_self a e r t.1,
          ==_iff r.emoji e,
          ==_iff x e,
          q,
          not_reacted a r.emoji rs t.0,
        ))
  | inr later ↦
      rw later
        (ground (arith, toggle_self a x e rs t.2, ==_iff r.emoji e, ==_iff x e, ==_iff r.emoji x))
]

toggle_other :
    (a b : ParticipantId) (x e : Emoji) (rs : List Reaction)
    → (a == b) ≡ false
    → has_reacted b e (toggle a x rs) ≡ has_reacted b e rs
unfolding toggle
toggle_other a b x e [] h = ground arith
toggle_other a b x e (r ∷ rs) h = elim (Bool-cases (r.emoji == x)) [
  | inl here ↦ rw here (ground (arith, is_by-toggle_other a b e r h))
  | inr later ↦ rw later (ground (arith, toggle_other a b x e rs h))
]

-- On tidy reactions a toggle turns the participant's own reaction with that emoji on or off, and
-- changes nothing else: neither another participant nor another emoji.
pub toggle_sets :
    (a b : ParticipantId) (x e : Emoji) (rs : List Reaction)
    → IsTidy rs
    → has_reacted b e (toggle a x rs)
      ≡ (if a == b && x == e then not (has_reacted b e rs) else has_reacted b e rs)
toggle_sets a b x e rs t = elim (Bool-cases (a == b)) [
  | inl same ↦ let p : a ≡ b = (==_iff a b).0 same in rw (← p, beq_refl a) (toggle_self a x e rs t)
  | inr other ↦ rw other (toggle_other a b x e rs other)
]

-- Toggling a reaction of a message sends the author's reactions afterwards as a new reaction.
-- Reducing that reaction onto the original message shows what the toggle showed, for every
-- participant and emoji.
pub toggle_echo :
    (a b : ParticipantId) (x e : Emoji) (m : Message)
    → has_reacted b e
        (apply_reaction a (reactions_from a (toggle_reaction a x m).reactions) m.reactions)
      ≡ has_reacted b e (toggle_reaction a x m).reactions
unfolding toggle_reaction
toggle_echo a b x e m = elim (Bool-cases (a == b)) [
  | inl same ↦
      let p : a ≡ b = (==_iff a b).0 same in
      let sent = reactions_from a (toggle a x m.reactions) in
      rw (← p) (
        ground (
          arith,
          apply_reaction_sets a a e sent m.reactions,
          ==_iff a a,
          contains-reactions_from a e (toggle a x m.reactions),
        ))
  | inr other ↦ ground (
    arith,
    apply_reaction_sets a b e (reactions_from a (toggle a x m.reactions)) m.reactions,
    toggle_other a b x e m.reactions other,
  )
]
