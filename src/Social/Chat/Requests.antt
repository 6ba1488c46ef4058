-- ===== src/Social/Chat/Requests.antt =====
-- The requests about channels in src/game.cpp, and logging out.
use tib.Common.{ℕ, not, List, [], ◌∷◌, Option, none, some, ◌==◌, if◌then◌else◌}
use tib.Social.Chat.{Player, Scripts, PrivateChatChannel, invite_player, exclude_player, Chat}
use tib.Social.Chat.Channels.{channel_private, alter, get_private_channel, create_channel}
use tib.Social.Chat.Users.{
  get_channel_list, add_at, add_user_to_channel, remove_user_from_channel,
  remove_user_from_all_channels,
}

unfoldable pub player_create_private_channel : Scripts → Player → Chat → Chat
player_create_private_channel s player chat =
    if not player.is_premium
    then chat
    else let made = create_channel s player channel_private chat in
      (add_at s player made.0 made.1).1

unfoldable pub alter_private : Option ℕ → (PrivateChatChannel → PrivateChatChannel) → Chat → Chat
alter_private none f chat = chat
alter_private (some key) f chat = record chat {
  private_channels = alter key f chat.private_channels;
}

unfoldable pub player_channel_invite : Player → Player → Chat → Chat
player_channel_invite player invited chat =
    if player.id == invited.id
    then chat
    else alter_private (get_private_channel player chat) (invite_player invited) chat

unfoldable pub player_channel_exclude : Player → Player → Chat → Chat
player_channel_exclude player excluded chat =
    if player.id == excluded.id
    then chat
    else alter_private (get_private_channel player chat) (exclude_player excluded) chat

unfoldable pub player_open_channel : Scripts → Player → ℕ → Chat → Chat
player_open_channel s player channel_id chat = (add_user_to_channel s player channel_id chat).1

unfoldable pub player_close_channel : Scripts → Player → ℕ → Chat → Chat
player_close_channel s player channel_id chat =
    (remove_user_from_channel s player channel_id chat).1

unfoldable pub player_request_channels : Scripts → Player → Chat → Chat
player_request_channels s player chat = (get_channel_list s player chat).1

pub data Call : Type 0 where
  asks_for_list : (s : Scripts) (player : Player) → Call
  creates : (s : Scripts) (player : Player) → Call
  invites_to : (player invited : Player) → Call
  excludes : (player excluded : Player) → Call
  opens : (s : Scripts) (player : Player) (channel_id : ℕ) → Call
  closes : (s : Scripts) (player : Player) (channel_id : ℕ) → Call
  logs_out : (player : Player) → Call

unfoldable pub serve : Call → Chat → Chat
serve (asks_for_list s player) chat = player_request_channels s player chat
serve (creates s player) chat = player_create_private_channel s player chat
serve (invites_to player invited) chat = player_channel_invite player invited chat
serve (excludes player excluded) chat = player_channel_exclude player excluded chat
serve (opens s player channel_id) chat = player_open_channel s player channel_id chat
serve (closes s player channel_id) chat = player_close_channel s player channel_id chat
serve (logs_out player) chat = remove_user_from_all_channels player chat

unfoldable pub serve_all : List Call → Chat → Chat
serve_all [] chat = chat
serve_all (c ∷ cs) chat = serve_all cs (serve c chat)
