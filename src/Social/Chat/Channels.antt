-- ===== src/Social/Chat/Channels.antt =====
-- The operations of `Chat` in src/chat.cpp.
use tib.Common.{
  ℕ, zero, suc, ◌+◌, Bool, true, false, not, ◌||◌, List, [], ◌∷◌, Option, none, some, ◌==◌,
  if◌then◌else◌,
}
use tib.Common.Assoc.{lookup, insert, remove}
use tib.Social.Chat.{
  Player, Scripts, ChatChannel, PrivateChatChannel, is_some, is_invited, Place, normal_channel,
  private_channel, party_channel, guild_channel, Chat,
}

abbrev pub channel_guild : ℕ
channel_guild = 0

abbrev pub channel_party : ℕ
channel_party = 1

abbrev pub channel_private : ℕ
channel_private = 0xFFFF

-- A change of the value that a map has for a key.
unfoldable pub alter {ℓ} : {V : Type ℓ} → ℕ → (V → V) → List (ℕ × V) → List (ℕ × V)
alter key f [] = []
alter key f ((at, held) ∷ rest) =
    let later = alter key f rest in if at == key then (at, f held) ∷ rest else (at, held) ∷ later

unfoldable pub alter_all {ℓ} : {V : Type ℓ} → (V → V) → List (ℕ × V) → List (ℕ × V)
alter_all f [] = []
alter_all f ((at, held) ∷ rest) = (at, f held) ∷ alter_all f rest

-- A pointer into one of the maps, where the key is in it.
unfoldable pub find {ℓ} : {V : Type ℓ} → (ℕ → Place) → ℕ → List (ℕ × V) → Option Place
find place key entries = if is_some (lookup key entries) then some (place key) else none

unfoldable pub find_of {ℓ} : {V : Type ℓ} → (ℕ → Place) → Option ℕ → List (ℕ × V) → Option Place
find_of place none entries = none
find_of place (some key) entries = find place key entries

abbrev pub is_invited_to : ℕ → Option PrivateChatChannel → Bool
is_invited_to guid none = false
is_invited_to guid (some c) = is_invited guid c

unfoldable pub get_channel : Scripts → Player → ℕ → Chat → Option Place
get_channel s player channel_id chat =
    if channel_id == channel_guild
    then find_of guild_channel player.guild chat.guild_channels
    else if channel_id == channel_party
    then find_of party_channel player.party chat.party_channels
    else if is_some (lookup channel_id chat.normal_channels)
    then (if s.can_join channel_id then some (normal_channel channel_id) else none)
    else if is_invited_to player.guid (lookup channel_id chat.private_channels)
    then some (private_channel channel_id)
    else none

-- The number of the private channel that the player owns.
unfoldable pub owned_by : ℕ → List (ℕ × PrivateChatChannel) → Option ℕ
owned_by guid [] = none
owned_by guid ((at, c) ∷ rest) =
    let later = owned_by guid rest in if c.owner == guid then some at else later

unfoldable pub get_private_channel : Player → Chat → Option ℕ
get_private_channel player chat = owned_by player.guid chat.private_channels

abbrev pub new_channel : ℕ → ChatChannel
new_channel id = record { id = id; users = []; public_channel = false }

-- The loop over the numbers of private channels: the first that is free.
unfoldable pub free_slot : ℕ → ℕ → List (ℕ × PrivateChatChannel) → Option ℕ
free_slot i zero channels = none
free_slot i (suc left) channels =
    let later = free_slot (i + 1) left channels in
    if is_some (lookup i channels) then later else some i

-- `emplace`, which keeps a channel that is there.
unfoldable pub emplace_channel : ℕ → ChatChannel → List (ℕ × ChatChannel) → List (ℕ × ChatChannel)
emplace_channel key c channels =
    if is_some (lookup key channels) then channels else insert key c channels

unfoldable pub create_guild : Option ℕ → Chat → Option Place × Chat
create_guild none chat = (none, chat)
create_guild (some g) chat = (
  some (guild_channel g),
  record chat {
    guild_channels = emplace_channel g (new_channel channel_guild) chat.guild_channels;
  },
)

unfoldable pub create_party : Option ℕ → Chat → Option Place × Chat
create_party none chat = (none, chat)
create_party (some p) chat = (
  some (party_channel p),
  record chat {
    party_channels = emplace_channel p (new_channel channel_party) chat.party_channels;
  },
)

unfoldable pub create_at : ℕ → Option ℕ → Chat → Option Place × Chat
create_at guid none chat = (none, chat)
create_at guid (some i) chat = (
  some (private_channel i),
  record chat {
    private_channels =
        insert i (record { channel = new_channel i; invites = []; owner = guid })
          chat.private_channels;
  },
)

-- The slots are 100 to 9999.
unfoldable pub create_private : Player → Chat → Option Place × Chat
create_private player chat =
    if not player.is_premium || is_some (get_private_channel player chat)
    then (none, chat)
    else create_at player.guid (free_slot 100 9900 chat.private_channels) chat

unfoldable pub create_channel : Scripts → Player → ℕ → Chat → Option Place × Chat
create_channel s player channel_id chat =
    if is_some (get_channel s player channel_id chat)
    then (none, chat)
    else if channel_id == channel_guild
    then create_guild player.guild chat
    else if channel_id == channel_party
    then create_party player.party chat
    else if channel_id == channel_private
    then create_private player chat
    else (none, chat)

-- `erase` of the channel of a guild or a party.
unfoldable pub erase_of : Option ℕ → List (ℕ × ChatChannel) → Bool × List (ℕ × ChatChannel)
erase_of none channels = (false, channels)
erase_of (some key) channels =
    if is_some (lookup key channels) then (true, remove key channels) else (false, channels)

unfoldable pub delete_channel : Player → ℕ → Chat → Bool × Chat
delete_channel player channel_id chat =
    if channel_id == channel_guild
    then (let left = erase_of player.guild chat.guild_channels in
        (left.0, record chat { guild_channels = left.1 }))
    else if channel_id == channel_party
    then (let left = erase_of player.party chat.party_channels in
        (left.0, record chat { party_channels = left.1 }))
    else if is_some (lookup channel_id chat.private_channels)
    then (true, record chat { private_channels = remove channel_id chat.private_channels })
    else (false, chat)
