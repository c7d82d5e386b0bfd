-- ===== src/Messaging/Reactions/Sets.antt =====
-- Who has reacted with what, before and after a reaction or a toggle.
use prose_core_client.Base.{
  ◌≡◌, refl, Bool, false, ◌&&◌, ◌||◌, none, some, List, [], ◌∷◌, map, retain, contains, any,
  if◌then◌else◌, ◌==◌, string_eq, arith, ==_iff, beq_refl, Option-cases, inl, inr,
  contains-push_new, contains-retain_ne, any-append, Bool-cases, ◌∙◌,
}
use prose_core_client.Shared.Ids.{ParticipantId, participant_id_eq}
use prose_core_client.Messaging.Models.{Emoji, Reaction}
use prose_core_client.Messaging.Reactions.{
  take_last, add_author, drop_author, merge, has_author, new_reaction, apply_reaction,
  reactions_from,
}

abbrev pub is_by : ParticipantId → Emoji → Reaction → Bool
is_by author emoji r = r.emoji == emoji && contains author r.from

-- `author` stands under `emoji`.
abbrev pub has_reacted : ParticipantId → Emoji → List Reaction → Bool
has_reacted author emoji = any (is_by author emoji)

is_by-add_author :
    (a b : ParticipantId) (e : Emoji) (r : Reaction)
    → is_by b e (add_author a r) ≡ (r.emoji == e && ((a == b) || contains b r.from))
is_by-add_author a b e r = ground (arith, contains-push_new a b r.from)

is_by-drop_author :
    (a b : ParticipantId) (e : Emoji) (r : Reaction)
    → is_by b e (drop_author a r) ≡ (if a == b then false else is_by b e r)
is_by-drop_author a b e r = ground (arith, contains-retain_ne a b r.from)

take_last-some :
    (x e : Emoji) (es rest : List Emoji)
    → take_last x es ≡ some rest
    → contains e es ≡ ((x == e) || contains e rest)
unfolding take_last
take_last-some x e [] rest h = absurd (cc)
take_last-some x e (y ∷ ys) rest h = elim (Option-cases (take_last x ys)) [
  | inl miss ↦ ground (arith, ==_iff y x, ==_iff y e, ==_iff x e)
  | inr (zs, hit) ↦ ground (arith, take_last-some x e ys zs)
]

take_last-none : (x : Emoji) (es : List Emoji) → take_last x es ≡ none → contains x es ≡ false
unfolding take_last
take_last-none x [] h = refl
take_last-none x (y ∷ ys) h = ground (arith, take_last-none x ys, ==_iff y x)

has_reacted-retain :
    (a : ParticipantId) (e : Emoji) (rs : List Reaction)
    → has_reacted a e (retain has_author rs) ≡ has_reacted a e rs
has_reacted-retain a e [] = refl
has_reacted-retain a e (r ∷ rs) = ground (arith, has_reacted-retain a e rs)

has_reacted-map :
    (a b : ParticipantId) (e : Emoji) (es : List Emoji)
    → has_reacted b e (map (new_reaction a) es) ≡ ((a == b) && contains e es)
has_reacted-map a b e [] = ground arith
has_reacted-map a b e (x ∷ es) = ground (arith, has_reacted-map a b e es)

module _ (a : ParticipantId) (es : List Emoji) (r : Reaction) (rs : List Reaction) where
  merge_miss :
      take_last r.emoji es ≡ none
      → merge a es (r ∷ rs) ≡ ((merge a es rs).0, drop_author a r ∷ (merge a es rs).1)
  unfolding merge
  merge_miss miss = rw (miss, merge)

  merge_hit :
      (rest : List Emoji)
      → take_last r.emoji es ≡ some rest
      → merge a es (r ∷ rs) ≡ ((merge a rest rs).0, add_author a r ∷ (merge a rest rs).1)
  unfolding merge
  merge_hit rest hit = rw (hit, merge)

merge_author :
    (a : ParticipantId) (e : Emoji) (es : List Emoji) (rs : List Reaction)
    → (has_reacted a e (merge a es rs).1 || contains e (merge a es rs).0) ≡ contains e es
merge_author a e es [] = unfold merge in refl
merge_author a e es (r ∷ rs) = elim (Option-cases (take_last r.emoji es)) [
  | inl miss ↦
      rw (merge_miss a es r rs miss)
        (ground (arith, is_by-drop_author a a e r, ==_iff a a, merge_author a e es rs))
  | inr (rest, hit) ↦ rw (merge_hit a es r rs rest hit) (
      ground (
        arith,
        is_by-add_author a a e r,
        ==_iff a a,
        take_last-some r.emoji e es rest hit,
        merge_author a e rest rs,
      ))
]

merge_others :
    (a b : ParticipantId) (e : Emoji) (es : List Emoji) (rs : List Reaction)
    → (a == b) ≡ false
    → has_reacted b e (merge a es rs).1 ≡ has_reacted b e rs
merge_others a b e es [] ne = unfold merge in refl
merge_others a b e es (r ∷ rs) ne = elim (Option-cases (take_last r.emoji es)) [
  | inl miss ↦
      rw (merge_miss a es r rs miss)
        (ground (arith, is_by-drop_author a b e r, merge_others a b e es rs ne))
  | inr (rest, hit) ↦
      rw (merge_hit a es r rs rest hit)
        (ground (arith, is_by-add_author a b e r, merge_others a b e rest rs ne))
]

has_reacted-apply :
    (a b : ParticipantId) (e : Emoji) (es : List Emoji) (rs : List Reaction)
    → has_reacted b e (apply_reaction a es rs)
      ≡ (has_reacted b e (merge a es rs).1 || ((a == b) && contains e (merge a es rs).0))
unfolding apply_reaction
has_reacted-apply a b e es rs =
    any-append (is_by b e) (retain has_author (merge a es rs).1)
      (map (new_reaction a) (merge a es rs).0)
    ∙ rw (has_reacted-retain b e (merge a es rs).1, has_reacted-map a b e (merge a es rs).0)

-- After a reaction of an author with some emojis, the author stands under exactly those emojis, and
-- every other participant stands where it stood before.
pub apply_reaction_sets :
    (a b : ParticipantId) (e : Emoji) (es : List Emoji) (rs : List Reaction)
    → has_reacted b e (apply_reaction a es rs)
      ≡ (if a == b then contains e es else has_reacted b e rs)
apply_reaction_sets a b e es rs = elim (Bool-cases (a == b)) [
  | inl same ↦
      let p : a ≡ b = (==_iff a b).0 same in
      rw (has_reacted-apply a b e es rs, ← p, beq_refl a) (merge_author a e es rs)
  | inr other ↦
      rw (has_reacted-apply a b e es rs, other, merge_others a b e es rs other) (ground arith)
]

-- The emojis that `reactions_from` lists are those that its participant stands under.
pub contains-reactions_from :
    (a : ParticipantId) (e : Emoji) (rs : List Reaction)
    → contains e (reactions_from a rs) ≡ has_reacted a e rs
unfolding reactions_from
contains-reactions_from a e [] = refl
contains-reactions_from a e (r ∷ rs) = ground (arith, contains-reactions_from a e rs)
