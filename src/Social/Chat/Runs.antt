-- ===== src/Social/Chat/Runs.antt =====
-- Each request about the channels of src/chat.cpp, and all of them in a row.
use tib.Common.{
  ℕ, ◌||◌, ◌∙◌, refl, none, some, Option-cases, ◌≡◌, true, not, List, [], ◌∷◌, Option, arith, ◌==◌,
  All, Bool-cases, inl, inr,
}
use tib.Social.Chat.{
  Player, Scripts, ChatChannel, PrivateChatChannel, is_some, remove_invite, invite_player,
  exclude_player, Place, Chat,
}
use tib.Social.Chat.Channels.{
  channel_guild, channel_party, create_guild, create_party, channel_private, get_channel,
  get_private_channel, create_channel,
}
use tib.Social.Chat.Users.{
  list_own, get_channel_list, add_at, add_user_to_channel, remove_user_from_channel,
  remove_user_from_all_channels,
}
use tib.Social.Chat.Requests.{
  player_create_private_channel, player_channel_invite, player_channel_exclude, player_open_channel,
  player_close_channel, Call, creates, asks_for_list, player_request_channels, invites_to, excludes,
  opens, closes, logs_out, serve, serve_all,
}
use tib.Social.Chat.Invited.{invite_player-IsClosed, exclude_player-IsClosed}
use tib.Social.Chat.Sound.{may_join, get_channel-may_join, add_at-IsSound, remove_at-IsSound}
use tib.Social.Chat.Owners.{owned_count-forget_all}
use tib.Social.Chat.Orderly.{
  IsOrderly, IsKnown, add_at-IsSingle, remove_at-IsSingle, create_channel-IsOrderly,
  alter_private-IsOrderly, forget_all-IsSound,
}

exclude_player-owner :
    (excluded : Player) (c : PrivateChatChannel) → (exclude_player excluded c).owner ≡ c.owner
unfolding exclude_player remove_invite
exclude_player-owner excluded c = ground arith

invite_player-owner :
    (invited : Player) (c : PrivateChatChannel) → (invite_player invited c).owner ≡ c.owner
unfolding invite_player
invite_player-owner invited c = ground arith

-- Making the channel of a guild or a party touches no private channel.
create_own-private :
    (s : Scripts) (player : Player) (channel_id : ℕ) (chat : Chat)
    → (channel_id == channel_guild || channel_id == channel_party) ≡ true
    → (create_channel s player channel_id chat).1.private_channels ≡ chat.private_channels
unfolding create_channel
create_own-private s player channel_id chat own =
    elim (Bool-cases (is_some (get_channel s player channel_id chat))) [
      | inl there ↦ rw there refl
      | inr new ↦ elim (Bool-cases (channel_id == channel_guild)) [
        | inl guild ↦ rw (new, guild) (guilds player.guild)
        | inr other ↦
            let party : (channel_id == channel_party) ≡ true = ground (arith, own, other) in
            rw (new, other, party) (parties player.party)
      ]
    ]
  where
    guilds : (o : Option ℕ) → (create_guild o chat).1.private_channels ≡ chat.private_channels
    guilds none = unfold create_guild in refl
    guilds (some g) = unfold create_guild in refl

    parties : (o : Option ℕ) → (create_party o chat).1.private_channels ≡ chat.private_channels
    parties none = unfold create_party in refl
    parties (some g) = unfold create_party in refl

list_own-private :
    (s : Scripts) (player : Player) (channel_id : ℕ) (o : Option ℕ) (chat : Chat)
    → (channel_id == channel_guild || channel_id == channel_party) ≡ true
    → (list_own s player channel_id o chat).1.private_channels ≡ chat.private_channels
unfolding list_own
list_own-private s player channel_id none chat own = refl
list_own-private s player channel_id (some key) chat own =
    elim (Option-cases (get_channel s player channel_id chat)) [
      | inl missing ↦ rw missing (create_own-private s player channel_id chat own)
      | inr (place, there) ↦ rw there refl
    ]

get_channel_list-private :
    (s : Scripts) (player : Player) (chat : Chat)
    → (get_channel_list s player chat).1.private_channels ≡ chat.private_channels
unfolding get_channel_list
get_channel_list-private s player chat =
    list_own-private s player channel_party player.party
      (list_own s player channel_guild player.guild chat).1 refl
    ∙ list_own-private s player channel_guild player.guild chat refl

module _ (guid_of : ℕ → ℕ) (distinct : (p q : ℕ) → guid_of p ≡ guid_of q → p ≡ q) where
  add_at-IsOrderly :
      (s : Scripts) (player : Player) (place : Option Place) (chat : Chat)
      → player.guid ≡ guid_of player.id
      → may_join player place chat ≡ true
      → IsOrderly guid_of chat
      → IsOrderly guid_of (add_at s player place chat).1
  add_at-IsOrderly s player place chat known may h = (
    add_at-IsSound guid_of s player place chat known may h.0,
    add_at-IsSingle s player place chat h.1,
  )

  serve-IsOrderly :
      (c : Call) (chat : Chat)
      → IsKnown guid_of c
      → IsOrderly guid_of chat
      → IsOrderly guid_of (serve c chat)
  unfolding serve player_request_channels player_create_private_channel player_channel_invite
      player_channel_exclude player_open_channel player_close_channel add_user_to_channel
      remove_user_from_channel remove_user_from_all_channels
  serve-IsOrderly (asks_for_list s player) chat known h =
      rw (get_channel_list-private s player chat) h
  serve-IsOrderly (creates s player) chat known h =
      let made = create_channel s player channel_private chat in
      let created = create_channel-IsOrderly guid_of s player chat h in
      let joined = add_at-IsOrderly s player made.0 made.1 known created.1 created.0 in
      elim (Bool-cases (not player.is_premium)) [
        | inl free ↦ rw free h
        | inr premium ↦ rw premium joined
      ]
  serve-IsOrderly (invites_to player invited) chat known h =
      let after =
        alter_private-IsOrderly guid_of (get_private_channel player chat) (invite_player invited)
          chat (λ at c k. invite_player-IsClosed guid_of invited at c k)
          (invite_player-owner invited) h in
      elim (Bool-cases (player.id == invited.id)) [ inl same ↦ rw same h | inr two ↦ rw two after ]
  serve-IsOrderly (excludes player excluded) chat known h =
      let after =
        alter_private-IsOrderly guid_of (get_private_channel player chat) (exclude_player excluded)
          chat (λ at c k. exclude_player-IsClosed guid_of distinct excluded at c known k)
          (exclude_player-owner excluded) h in
      elim (Bool-cases (player.id == excluded.id)) [ inl same ↦ rw same h | inr two ↦ rw two after ]
  serve-IsOrderly (opens s player channel_id) chat known h =
      add_at-IsOrderly s player (get_channel s player channel_id chat) chat known
        (get_channel-may_join s player channel_id chat) h
  serve-IsOrderly (closes s player channel_id) chat known h = (
    remove_at-IsSound guid_of player channel_id (get_channel s player channel_id chat) chat h.0,
    remove_at-IsSingle player channel_id (get_channel s player channel_id chat) chat h.1,
  )
  serve-IsOrderly (logs_out player) chat known h = (
    forget_all-IsSound guid_of distinct player chat.private_channels known h.0,
    λ guid.
        let fewer = owned_count-forget_all guid player chat.private_channels in
        ground (arith, fewer, h.1 guid),
  )

  serve_all-IsOrderly_from :
      (cs : List Call) (chat : Chat)
      → All (IsKnown guid_of) cs
      → IsOrderly guid_of chat
      → IsOrderly guid_of (serve_all cs chat)
  unfolding serve_all
  serve_all-IsOrderly_from [] chat known h = h
  serve_all-IsOrderly_from (c ∷ cs) chat known h =
      serve_all-IsOrderly_from cs (serve c chat) known.1 (serve-IsOrderly c chat known.0 h)

-- A server that has the channels of its file, and no other yet.
abbrev pub opened : List (ℕ × ChatChannel) → Chat
opened channels = record {
  normal_channels = channels;
  private_channels = [];
  party_channels = [];
  guild_channels = [];
}

-- Where players with different ids have different guids, and players come with the guid of their id:
-- whatever channels they create, open and close, whom they invite and exclude, and who logs out, every
-- user of a private channel owns it or is invited to it, private channels have numbers from 100 to
-- 9999, and nobody owns two of them.
pub serve_all-IsOrderly :
    (guid_of : ℕ → ℕ)
    → ((p q : ℕ) → guid_of p ≡ guid_of q → p ≡ q)
    → (cs : List Call) (channels : List (ℕ × ChatChannel)) → All (IsKnown guid_of) cs
    → IsOrderly guid_of (serve_all cs (opened channels))
serve_all-IsOrderly guid_of distinct cs channels known =
    serve_all-IsOrderly_from guid_of distinct cs (opened channels) known (tt, λ guid. omega arith)
