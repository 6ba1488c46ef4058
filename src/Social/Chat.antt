-- ===== src/Social/Chat.antt =====
-- The channels of src/chat.h and src/chat.cpp. Players are known by their numbers: a channel's map of
-- users has each user's guid behind its id, for the pointer to the player, and the map of invitations
-- has the id behind the guid. Names and messages are left out: they change no state.
pub mod Channels
pub mod Users
pub mod Requests
pub mod Invited
pub mod Entries
pub mod Sound
pub mod Owners
pub mod Orderly
pub mod Runs
pub mod Forgotten
mod Examples
use tib.Common.{
  ℕ, ◌≡◌, Bool, true, false, not, ◌&&◌, ◌||◌, List, [], ◌∷◌, Option, none, some, ◌==◌,
  if◌then◌else◌,
}
use tib.Common.Assoc.{lookup, insert, remove}

pub record Player : Type 0 where
  pub id : ℕ
  pub guid : ℕ
  pub is_premium : Bool
  pub guild : Option ℕ
  pub party : Option ℕ
  pub rank_level : Option ℕ

-- What the scripts of the channels answer for a player, by the channel's number. The script of what is
-- said answers whether to go on, and in which type.
pub record Scripts : Type 0 where
  pub can_join : ℕ → Bool
  pub on_join : ℕ → Bool
  pub on_speak : ℕ → ℕ → Bool × ℕ

pub record ChatChannel : Type 0 where
  pub id : ℕ
  pub users : List (ℕ × ℕ)
  pub public_channel : Bool

pub record PrivateChatChannel : Type 0 where
  pub channel : ChatChannel
  pub invites : List (ℕ × ℕ)
  pub owner : ℕ

abbrev pub is_some {ℓ} : {A : Type ℓ} → Option A → Bool
is_some none = false
is_some (some a) = true

unfoldable pub has_user : Player → ChatChannel → Bool
has_user player c = is_some (lookup player.id c.users)

unfoldable pub add_user : Scripts → Player → ChatChannel → Bool × ChatChannel
add_user s player c =
    if has_user player c
    then (false, c)
    else if not (s.on_join c.id)
    then (false, c)
    else (true, record c { users = insert player.id player.guid c.users })

unfoldable pub remove_user : Player → ChatChannel → Bool × ChatChannel
remove_user player c =
    if has_user player c then (true, record c { users = remove player.id c.users }) else (false, c)

-- Whether the player may talk: every user gets what it says.
unfoldable pub talk : Player → ChatChannel → Bool
talk player c = has_user player c

unfoldable pub is_invited : ℕ → PrivateChatChannel → Bool
is_invited guid c = guid == c.owner || is_some (lookup guid c.invites)

unfoldable pub remove_invite : ℕ → PrivateChatChannel → Bool × PrivateChatChannel
remove_invite guid c =
    (is_some (lookup guid c.invites), record c { invites = remove guid c.invites })

unfoldable pub invite_player : Player → PrivateChatChannel → PrivateChatChannel
invite_player invited c =
    if is_some (lookup invited.guid c.invites)
    then c
    else record c { invites = insert invited.guid invited.id c.invites }

unfoldable pub exclude_player : Player → PrivateChatChannel → PrivateChatChannel
exclude_player excluded c =
    let left = remove_invite excluded.guid c in
    if left.0 then record left.1 { channel = (remove_user excluded left.1.channel).1 } else c

-- Where a channel stands, for a pointer to it.
pub data Place : Type 0 where
  normal_channel private_channel party_channel guild_channel : (key : ℕ) → Place

pub record Chat : Type 0 where
  pub normal_channels : List (ℕ × ChatChannel)
  pub private_channels : List (ℕ × PrivateChatChannel)
  pub party_channels : List (ℕ × ChatChannel)
  pub guild_channels : List (ℕ × ChatChannel)
