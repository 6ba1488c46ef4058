-- ===== src/Social/Chat/Users.antt =====
-- Which players join, leave and talk in the channels of src/chat.cpp.
use tib.Common.{
  not, ℕ, Bool, true, false, ◌&&◌, ◌||◌, List, [], ◌∷◌, ◌++◌, Option, none, some, ◌==◌, ltb,
  if◌then◌else◌,
}
use tib.Common.Assoc.{lookup}
use tib.Social.Chat.{
  is_invited, is_some, Player, Scripts, ChatChannel, PrivateChatChannel, add_user, remove_user,
  talk, remove_invite, Place, normal_channel, private_channel, party_channel, guild_channel, Chat,
}
use tib.Social.Chat.Channels.{
  create_channel, get_private_channel, channel_guild, channel_party, channel_guild, channel_party,
  channel_private, alter, alter_all, get_channel, delete_channel,
}

abbrev pub owner_of : Option PrivateChatChannel → ℕ
owner_of none = 0
owner_of (some c) = c.owner

-- `getOwner`, which is 0 for a channel that is not private.
unfoldable pub get_owner : Place → Chat → ℕ
get_owner (normal_channel key) chat = 0
get_owner (private_channel key) chat = owner_of (lookup key chat.private_channels)
get_owner (party_channel key) chat = 0
get_owner (guild_channel key) chat = 0

abbrev pub channel_of : Option PrivateChatChannel → Option ChatChannel
channel_of none = none
channel_of (some c) = some c.channel

-- The channel behind a pointer.
unfoldable pub channel_at : Place → Chat → Option ChatChannel
channel_at (normal_channel key) chat = lookup key chat.normal_channels
channel_at (private_channel key) chat = channel_of (lookup key chat.private_channels)
channel_at (party_channel key) chat = lookup key chat.party_channels
channel_at (guild_channel key) chat = lookup key chat.guild_channels

unfoldable pub alter_at : Place → (ChatChannel → ChatChannel) → Chat → Chat
alter_at (normal_channel key) f chat = record chat {
  normal_channels = alter key f chat.normal_channels;
}
alter_at (private_channel key) f chat = record chat {
  private_channels =
      alter key (λ (c : PrivateChatChannel). record c { channel = f c.channel })
        chat.private_channels;
}
alter_at (party_channel key) f chat = record chat {
  party_channels = alter key f chat.party_channels;
}
alter_at (guild_channel key) f chat = record chat {
  guild_channels = alter key f chat.guild_channels;
}

abbrev pub answers : (ChatChannel → Bool) → Option ChatChannel → Bool
answers f none = false
answers f (some c) = f c

-- `addUser` and `removeUser` through a pointer.
unfoldable pub add_at : Scripts → Player → Option Place → Chat → Option Place × Chat
add_at s player none chat = (none, chat)
add_at s player (some place) chat =
    if answers (λ c. (add_user s player c).0) (channel_at place chat)
    then (some place, alter_at place (λ c. (add_user s player c).1) chat)
    else (none, chat)

unfoldable pub add_user_to_channel : Scripts → Player → ℕ → Chat → Option Place × Chat
add_user_to_channel s player channel_id chat =
    add_at s player (get_channel s player channel_id chat) chat

-- The owner's channel goes with the owner.
unfoldable pub close_owned : Player → ℕ → Place → Chat → Chat
close_owned player channel_id place chat =
    if get_owner place chat == player.guid then (delete_channel player channel_id chat).1 else chat

unfoldable pub remove_at : Player → ℕ → Option Place → Chat → Bool × Chat
remove_at player channel_id none chat = (false, chat)
remove_at player channel_id (some place) chat =
    if answers (λ c. (remove_user player c).0) (channel_at place chat)
    then (
      true,
      close_owned player channel_id place (alter_at place (λ c. (remove_user player c).1) chat),
    )
    else (false, chat)

unfoldable pub remove_user_from_channel : Scripts → Player → ℕ → Chat → Bool × Chat
remove_user_from_channel s player channel_id chat =
    remove_at player channel_id (get_channel s player channel_id chat) chat

-- The player leaves a private channel and is no longer invited.
unfoldable pub forget : Player → PrivateChatChannel → PrivateChatChannel
forget player c =
    let left = (remove_invite player.guid c).1 in
    record left { channel = (remove_user player left.channel).1 }

-- The loop over the private channels, which erases those that the player owns.
unfoldable pub forget_all : Player → List (ℕ × PrivateChatChannel) → List (ℕ × PrivateChatChannel)
forget_all player [] = []
forget_all player ((at, c) ∷ rest) =
    let later = forget_all player rest in
    let left = forget player c in if left.owner == player.guid then later else (at, left) ∷ later

unfoldable pub remove_user_from_all_channels : Player → Chat → Chat
remove_user_from_all_channels player chat = record {
  normal_channels = alter_all (λ c. (remove_user player c).1) chat.normal_channels;
  party_channels = alter_all (λ c. (remove_user player c).1) chat.party_channels;
  guild_channels = alter_all (λ c. (remove_user player c).1) chat.guild_channels;
  private_channels = forget_all player chat.private_channels;
}

abbrev pub talktype_channel_y : ℕ
talktype_channel_y = 7

abbrev pub talktype_channel_o : ℕ
talktype_channel_o = 8

abbrev pub is_leader : Option ℕ → Bool
is_leader none = false
is_leader (some level) = ltb 1 level

-- The type of a message: members of a guild with a high rank talk in another one.
unfoldable pub speak_type : Player → ℕ → ℕ → ℕ
speak_type player channel_id type =
    if channel_id == channel_guild
    then (if is_leader player.rank_level then talktype_channel_o else talktype_channel_y)
    else if channel_id == channel_private || channel_id == channel_party
    then talktype_channel_y
    else type

abbrev pub speaks_at : Scripts → Player → ℕ → ℕ → Option Place → Chat → Bool
speaks_at s player channel_id type none chat = false
speaks_at s player channel_id type (some place) chat =
    answers (λ c. (s.on_speak c.id (speak_type player channel_id type)).0 && talk player c)
      (channel_at place chat)

unfoldable pub talk_to_channel : Scripts → Player → ℕ → ℕ → Chat → Bool
talk_to_channel s player type channel_id chat =
    speaks_at s player channel_id type (get_channel s player channel_id chat) chat

unfoldable pub listed : Option Place → List Place
listed none = []
listed (some place) = place ∷ []

abbrev pub list_found : Option Place × Chat → Chat → Option Place → List Place × Chat
list_found made chat none = (listed made.0, made.1)
list_found made chat (some place) = (place ∷ [], chat)

-- The channel of a guild or a party, which is made when it is missing.
unfoldable pub list_own : Scripts → Player → ℕ → Option ℕ → Chat → List Place × Chat
list_own s player channel_id none chat = ([], chat)
list_own s player channel_id (some key) chat =
    list_found (create_channel s player channel_id chat) chat (get_channel s player channel_id chat)

unfoldable pub list_normal : Scripts → List (ℕ × ChatChannel) → List Place
list_normal s [] = []
list_normal s ((at, c) ∷ rest) =
    let later = list_normal s rest in if s.can_join at then normal_channel at ∷ later else later

unfoldable pub list_private : ℕ → List (ℕ × PrivateChatChannel) → List Place
list_private guid [] = []
list_private guid ((at, c) ∷ rest) =
    let later = list_private guid rest in
    if is_invited guid c then private_channel at ∷ later else later

-- The list, and whether the channel that stands for a private one to be made is in front of it.
unfoldable pub get_channel_list : Scripts → Player → Chat → (Bool × List Place) × Chat
get_channel_list s player chat =
    let own = list_own s player channel_guild player.guild chat in
    let both = list_own s player channel_party player.party own.1 in
    (
      (
        not (is_some (get_private_channel player both.1)) && player.is_premium,
        own.0
            ++ both.0
            ++ list_normal s both.1.normal_channels
            ++ list_private player.guid both.1.private_channels,
      ),
      both.1,
    )
