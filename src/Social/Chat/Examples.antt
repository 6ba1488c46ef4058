-- ===== src/Social/Chat/Examples.antt =====
-- Channels of a few players, and the channels' theorems there.
use tib.Common.{ℕ, ◌+◌, ◌≡◌, refl, true, false, List, [], ◌∷◌, none, some, arith, All}
use tib.Common.Assoc.{lookup, insert}
use tib.Social.Chat.{
  Player, Scripts, ChatChannel, PrivateChatChannel, has_user, add_user, remove_user, talk,
  is_invited, remove_invite, invite_player, exclude_player, Chat,
}
use tib.Social.Chat.Channels.{
  alter, get_channel, owned_by, get_private_channel, free_slot, create_at, create_private,
  create_channel,
}
use tib.Social.Chat.Users.{
  channel_at, alter_at, add_at, add_user_to_channel, remove_at, remove_user_from_channel,
  remove_user_from_all_channels,
}
use tib.Social.Chat.Requests.{
  player_create_private_channel, alter_private, player_channel_invite, player_open_channel, Call,
  creates, invites_to, opens, serve, serve_all,
}
use tib.Social.Chat.Orderly.{IsOrderly}
use tib.Social.Chat.Runs.{opened, serve_all-IsOrderly}
use tib.Social.Chat.Forgotten.{IsWithout, IsWithoutAny, remove_user_from_all_channels-forgets}

abbrev allow : Scripts
allow = record { can_join = λ id. true; on_join = λ id. true; on_speak = λ id type. (true, type) }

-- A script that lets nobody into the channels of the file any more.
abbrev forbid : Scripts
forbid = record { can_join = λ id. false; on_join = λ id. true; on_speak = λ id type. (true, type) }

abbrev player_at : ℕ → Player
player_at id = record {
  id = id;
  guid = id + 1000;
  is_premium = true;
  guild = none;
  party = none;
  rank_level = none;
}

abbrev calls : List Call
calls =
    creates allow (player_at 1)
    ∷ invites_to (player_at 1) (player_at 2)
    ∷ opens allow (player_at 2) 100
    ∷ opens allow (player_at 3) 100
    ∷ []

abbrev trade_channel : List (ℕ × ChatChannel)
trade_channel = (5, record { id = 5; users = (3, 1003) ∷ []; public_channel = true }) ∷ []

abbrev chatting : Chat
chatting = serve_all calls (opened trade_channel)

-- Players 1 and 2 are in the channel, and player 3 is not.
chatting_run :
    channel_at (tib.Social.Chat.Place.private_channel 100) chatting
    ≡ some (record { id = 100; users = (1, 1001) ∷ (2, 1002) ∷ []; public_channel = false })
unfolding serve_all serve player_create_private_channel create_channel get_channel create_private
    get_private_channel owned_by free_slot create_at add_at channel_at alter_at alter add_user
    has_user player_channel_invite alter_private invite_player player_open_channel
    add_user_to_channel is_invited lookup insert
chatting_run = refl

-- Player 3 cannot leave channel 5 when its script no longer lets the player in.
forbidden_run : remove_user_from_channel forbid (player_at 3) 5 chatting ≡ (false, chatting)
unfolding serve_all serve player_create_private_channel create_channel get_channel create_private
    get_private_channel owned_by free_slot create_at add_at channel_at alter_at alter add_user
    has_user player_channel_invite alter_private invite_player player_open_channel
    add_user_to_channel is_invited lookup insert remove_user_from_channel remove_at
forbidden_run = refl

serve_all-IsOrderly_example : IsOrderly (λ id. id + 1000) chatting
serve_all-IsOrderly_example =
    serve_all-IsOrderly (λ id. id + 1000) (λ p q e. omega (arith, e)) calls trade_channel
      (refl, (refl, (refl, (refl, tt))))

remove_user_from_all_channels-forgets_example :
    All
      (IsWithout (player_at 1))
      (remove_user_from_all_channels (player_at 1) chatting).normal_channels
    × All
        (IsWithout (player_at 1))
        (remove_user_from_all_channels (player_at 1) chatting).party_channels
    × All
        (IsWithout (player_at 1))
        (remove_user_from_all_channels (player_at 1) chatting).guild_channels
    × All
        (IsWithoutAny (player_at 1))
        (remove_user_from_all_channels (player_at 1) chatting).private_channels
remove_user_from_all_channels-forgets_example =
    remove_user_from_all_channels-forgets (player_at 1) chatting
