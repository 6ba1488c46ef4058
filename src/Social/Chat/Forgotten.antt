-- ===== src/Social/Chat/Forgotten.antt =====
-- A player that logs out is in no channel of src/chat.cpp.
use tib.Common.{
  ℕ, ◌≡◌, ◌∙◌, refl, false, List, [], ◌∷◌, none, arith, ◌==◌, All, Bool-cases, Option-cases, inl,
  inr, ==_refl,
}
use tib.Common.Assoc.{lookup, remove, lookup-remove}
use tib.Social.Chat.{
  Player, ChatChannel, PrivateChatChannel, has_user, remove_user, remove_invite, is_invited, Chat,
}
use tib.Social.Chat.Channels.{alter_all}
use tib.Social.Chat.Users.{forget, forget_all, remove_user_from_all_channels}

abbrev pub IsWithout : Player → ℕ × ChatChannel → Type 0
IsWithout player entry = lookup player.id entry.1.users ≡ none

-- Neither a user, nor invited, nor the owner.
abbrev pub IsWithoutAny : Player → ℕ × PrivateChatChannel → Type 0
IsWithoutAny player entry =
    (lookup player.id entry.1.channel.users ≡ none) × (is_invited player.guid entry.1 ≡ false)

remove_user-forgets :
    (player : Player) (c : ChatChannel) → lookup player.id (remove_user player c).1.users ≡ none
unfolding remove_user has_user
remove_user-forgets player c = elim (Option-cases (lookup player.id c.users)) [
  | inl missing ↦ rw missing missing
  | inr (g, there) ↦
      rw there (lookup-remove player.id player.id c.users ∙ rw (==_refl player.id) refl)
]

alter_all-IsWithout :
    (player : Player) (m : List (ℕ × ChatChannel))
    → All (IsWithout player) (alter_all (λ c. (remove_user player c).1) m)
unfolding alter_all
alter_all-IsWithout player [] = tt
alter_all-IsWithout player ((at, c) ∷ rest) =
    (remove_user-forgets player c, alter_all-IsWithout player rest)

forget_all-IsWithoutAny :
    (player : Player) (m : List (ℕ × PrivateChatChannel))
    → All (IsWithoutAny player) (forget_all player m)
unfolding forget_all forget remove_invite is_invited
forget_all-IsWithoutAny player [] = tt
forget_all-IsWithoutAny player ((at, c) ∷ rest) =
    let later = forget_all-IsWithoutAny player rest in
    elim (Bool-cases (c.owner == player.guid)) [
      | inl own ↦ rw own later
      | inr other ↦
          let apart : (player.guid == c.owner) ≡ false = ground (arith, other) in
          let gone : lookup player.guid (remove player.guid c.invites) ≡ none =
            lookup-remove player.guid player.guid c.invites ∙ rw (==_refl player.guid) refl in
          rw (other, apart, gone) ((remove_user-forgets player c.channel, refl), later)
    ]

-- After a logout the player is a user of no channel of any kind, and of the private channels it owns
-- none and is invited to none, so no channel keeps a pointer to the player.
pub remove_user_from_all_channels-forgets :
    (player : Player) (chat : Chat)
    → All (IsWithout player) (remove_user_from_all_channels player chat).normal_channels
      × All (IsWithout player) (remove_user_from_all_channels player chat).party_channels
      × All (IsWithout player) (remove_user_from_all_channels player chat).guild_channels
      × All (IsWithoutAny player) (remove_user_from_all_channels player chat).private_channels
unfolding remove_user_from_all_channels
remove_user_from_all_channels-forgets player chat = (
  alter_all-IsWithout player chat.normal_channels,
  alter_all-IsWithout player chat.party_channels,
  alter_all-IsWithout player chat.guild_channels,
  forget_all-IsWithoutAny player chat.private_channels,
)
