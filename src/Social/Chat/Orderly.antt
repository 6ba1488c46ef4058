-- ===== src/Social/Chat/Orderly.antt =====
-- What keeps the private channels of src/chat.cpp closed and their owners apart.
use tib.Common.{
  ℕ, ◌≡◌, refl, Bool, true, false, not, ◌||◌, List, [], ◌∷◌, Option, none, some, ◌==◌,
  if◌then◌else◌, All, Bool-cases, inl, inr,
}
use tib.Social.Chat.{
  Player, Scripts, PrivateChatChannel, is_some, add_user, remove_user, remove_invite, Place, Chat,
}
use tib.Social.Chat.Channels.{
  channel_private, get_channel, get_private_channel, free_slot, create_private, create_channel,
  delete_channel,
}
use tib.Social.Chat.Users.{
  get_owner, channel_at, alter_at, answers, add_at, close_owned, remove_at, forget, forget_all,
}
use tib.Social.Chat.Requests.{
  alter_private, Call, creates, asks_for_list, invites_to, excludes, opens, closes, logs_out,
}
use tib.Social.Chat.Entries.{All-alter}
use tib.Social.Chat.Invited.{IsClosed, forget-IsClosed}
use tib.Social.Chat.Sound.{IsSound, may_join, create_at-IsSound, create_at-may_join}
use tib.Social.Chat.Owners.{
  owned_count-alter, IsSingle, alter_at-IsSingle, delete_channel-IsSingle, create_private-IsSingle,
}

-- Both properties of the private channels.
abbrev pub IsOrderly : (ℕ → ℕ) → Chat → Type 0
IsOrderly guid_of chat = IsSound guid_of chat × IsSingle chat

-- The players of a request have the guids of their ids.
abbrev pub IsKnown : (ℕ → ℕ) → Call → Type 0
IsKnown guid_of (asks_for_list s player) = Unit
IsKnown guid_of (creates s player) = player.guid ≡ guid_of player.id
IsKnown guid_of (invites_to player invited) = invited.guid ≡ guid_of invited.id
IsKnown guid_of (excludes player excluded) = excluded.guid ≡ guid_of excluded.id
IsKnown guid_of (opens s player channel_id) = player.guid ≡ guid_of player.id
IsKnown guid_of (closes s player channel_id) = Unit
IsKnown guid_of (logs_out player) = player.guid ≡ guid_of player.id

if-IsSingle : (b : Bool) (c d : Chat) → IsSingle c → IsSingle d → IsSingle (if b then c else d)
if-IsSingle true c d h k = h
if-IsSingle false c d h k = k

pub add_at-IsSingle :
    (s : Scripts) (player : Player) (place : Option Place) (chat : Chat)
    → IsSingle chat
    → IsSingle (add_at s player place chat).1
unfolding add_at
add_at-IsSingle s player none chat h = h
add_at-IsSingle s player (some place) chat h =
    let joined = alter_at-IsSingle place (λ c. (add_user s player c).1) chat h in
    elim (Bool-cases (answers (λ c. (add_user s player c).0) (channel_at place chat))) [
      | inl joins ↦ rw joins joined
      | inr stays ↦ rw stays h
    ]

pub remove_at-IsSingle :
    (player : Player) (channel_id : ℕ) (place : Option Place) (chat : Chat)
    → IsSingle chat
    → IsSingle (remove_at player channel_id place chat).1
unfolding remove_at close_owned
remove_at-IsSingle player channel_id none chat h = h
remove_at-IsSingle player channel_id (some place) chat h =
    let left = alter_at place (λ c. (remove_user player c).1) chat in
    let kept = alter_at-IsSingle place (λ c. (remove_user player c).1) chat h in
    elim (Bool-cases (answers (λ c. (remove_user player c).0) (channel_at place chat))) [
      | inl leaves ↦ rw leaves (
          if-IsSingle (get_owner place left == player.guid)
            (delete_channel player channel_id left).1 left
            (delete_channel-IsSingle player channel_id left kept) kept)
      | inr stranger ↦ rw stranger h
    ]

module _ (guid_of : ℕ → ℕ) where
  -- What a player creates, asks_for_list, it may join.
  create_private-IsOrderly :
      (player : Player) (chat : Chat)
      → IsOrderly guid_of chat
      → IsOrderly guid_of (create_private player chat).1
        × (may_join player (create_private player chat).0 (create_private player chat).1 ≡ true)
  create_private-IsOrderly player chat h = ((sound, create_private-IsSingle player chat h.1), may)
    where
      refuses : Bool
      refuses = not player.is_premium || is_some (get_private_channel player chat)

      sound : IsSound guid_of (create_private player chat).1
      sound =
          unfold create_private in
          elim (Bool-cases refuses) [
            | inl refused ↦ rw refused h.0
            | inr free ↦ rw free (
                create_at-IsSound guid_of player.guid (free_slot 100 9900 chat.private_channels)
                  chat refl h.0)
          ]

      may : may_join player (create_private player chat).0 (create_private player chat).1 ≡ true
      may =
          unfold create_private in
          elim (Bool-cases refuses) [
            | inl refused ↦ rw refused refl
            | inr free ↦
                rw free (
                  create_at-may_join guid_of player (free_slot 100 9900 chat.private_channels) chat)
          ]

  pub create_channel-IsOrderly :
      (s : Scripts) (player : Player) (chat : Chat)
      → IsOrderly guid_of chat
      → IsOrderly guid_of (create_channel s player channel_private chat).1
        × (may_join player
              (create_channel s player channel_private chat).0
              (create_channel s player channel_private chat).1
            ≡ true)
  unfolding create_channel
  create_channel-IsOrderly s player chat h =
      elim (Bool-cases (is_some (get_channel s player channel_private chat))) [
        | inl there ↦ rw there (h, refl)
        | inr new ↦ rw new (create_private-IsOrderly player chat h)
      ]

  pub alter_private-IsOrderly :
      (key : Option ℕ) (f : PrivateChatChannel → PrivateChatChannel) (chat : Chat)
      → ((at : ℕ) (c : PrivateChatChannel) → IsClosed guid_of (at, c) → IsClosed guid_of (at, f c))
      → ((c : PrivateChatChannel) → (f c).owner ≡ c.owner)
      → IsOrderly guid_of chat
      → IsOrderly guid_of (alter_private key f chat)
  unfolding alter_private
  alter_private-IsOrderly none f chat closed owner h = h
  alter_private-IsOrderly (some key) f chat closed owner h = (
    All-alter (IsClosed guid_of) key f chat.private_channels (λ c found k. closed key c k) h.0,
    λ guid. rw (owned_count-alter guid key f chat.private_channels owner) (h.1 guid),
  )

  pub forget_all-IsSound :
      ((p q : ℕ) → guid_of p ≡ guid_of q → p ≡ q)
      → (player : Player) (m : List (ℕ × PrivateChatChannel)) → player.guid ≡ guid_of player.id
      → All (IsClosed guid_of) m
      → All (IsClosed guid_of) (forget_all player m)
  unfolding forget_all forget remove_invite
  forget_all-IsSound distinct player [] known h = tt
  forget_all-IsSound distinct player ((at, c) ∷ rest) known h =
      let later = forget_all-IsSound distinct player rest known h.1 in
      elim (Bool-cases (c.owner == player.guid)) [
        | inl own ↦ rw own later
        | inr other ↦ rw other (forget-IsClosed guid_of distinct player at c known h.0, later)
      ]
