-- ===== src/Social/Chat/Sound.antt =====
-- What requests keep of the private channels of src/chat.cpp.
use tib.Common.{
  ℕ, ◌<◌, ◌≤◌, ◌≡◌, ◌∙◌, refl, sym, ap, Bool, true, false, [], Option, none, some, arith, ◌==◌,
  if◌then◌else◌, All, All-map, Bool-cases, inl, inr, ==_refl,
}
use tib.Common.Assoc.{lookup, remove, lookup-insert_self, All-insert, All-remove}
use tib.Social.Chat.{
  Player, Scripts, PrivateChatChannel, is_some, add_user, remove_user, is_invited, Place,
  normal_channel, private_channel, party_channel, guild_channel, Chat,
}
use tib.Social.Chat.Channels.{
  channel_guild, channel_party, find, find_of, is_invited_to, get_channel, new_channel, free_slot,
  create_at, delete_channel,
}
use tib.Social.Chat.Users.{get_owner, channel_at, alter_at, answers, add_at, close_owned, remove_at}
use tib.Social.Chat.Entries.{All-alter, free_slot-bounds}
use tib.Social.Chat.Invited.{IsClosed, add_user-IsClosed, remove_user-IsClosed}

-- In every private channel, which has a number from 100 to 9999, each user owns it or is invited.
abbrev pub IsSound : (ℕ → ℕ) → Chat → Type 0
IsSound guid_of chat = All (IsClosed guid_of) chat.private_channels

-- A pointer to a private channel is to one that the player owns or is invited to.
abbrev pub may_join : Player → Option Place → Chat → Bool
may_join player none chat = true
may_join player (some (normal_channel key)) chat = true
may_join player (some (private_channel key)) chat =
    is_invited_to player.guid (lookup key chat.private_channels)
may_join player (some (party_channel key)) chat = true
may_join player (some (guild_channel key)) chat = true

pub get_channel-may_join :
    (s : Scripts) (player : Player) (channel_id : ℕ) (chat : Chat)
    → may_join player (get_channel s player channel_id chat) chat ≡ true
unfolding get_channel
get_channel-may_join s player channel_id chat = elim (Bool-cases (channel_id == channel_guild)) [
  | inl guild ↦ rw guild (guilds player.guild)
  | inr other ↦ elim (Bool-cases (channel_id == channel_party)) [
    | inl party ↦ rw (other, party) (parties player.party)
    | inr apart ↦ elim (Bool-cases (is_some (lookup channel_id chat.normal_channels))) [
      | inl normal ↦ rw (other, apart, normal) (normals (s.can_join channel_id))
      | inr private ↦
          elim (Bool-cases (is_invited_to player.guid (lookup channel_id chat.private_channels))) [
            | inl invited ↦ rw (other, apart, private, invited) invited
            | inr stranger ↦ rw (other, apart, private, stranger) refl
          ]
    ]
  ]
]
  where
    found_guild :
        (b : Bool) (key : ℕ)
        → may_join player (if b then some (guild_channel key) else none) chat ≡ true
    found_guild true key = refl
    found_guild false key = refl

    found_party :
        (b : Bool) (key : ℕ)
        → may_join player (if b then some (party_channel key) else none) chat ≡ true
    found_party true key = refl
    found_party false key = refl

    normals :
        (b : Bool)
        → may_join player (if b then some (normal_channel channel_id) else none) chat ≡ true
    normals true = refl
    normals false = refl

    guilds :
        (o : Option ℕ) → may_join player (find_of guild_channel o chat.guild_channels) chat ≡ true
    guilds none = unfold find_of in refl
    guilds (some key) =
        unfold find_of in unfold find in found_guild (is_some (lookup key chat.guild_channels)) key

    parties :
        (o : Option ℕ) → may_join player (find_of party_channel o chat.party_channels) chat ≡ true
    parties none = unfold find_of in refl
    parties (some key) =
        unfold find_of in unfold find in found_party (is_some (lookup key chat.party_channels)) key

module _ (guid_of : ℕ → ℕ) where
  if-IsSound :
      (b : Bool) (c d : Chat)
      → IsSound guid_of c
      → IsSound guid_of d
      → IsSound guid_of (if b then c else d)
  if-IsSound true c d h k = h
  if-IsSound false c d h k = k

  add_alter-IsSound :
      (s : Scripts) (player : Player) (place : Place) (chat : Chat)
      → player.guid ≡ guid_of player.id
      → may_join player (some place) chat ≡ true
      → IsSound guid_of chat
      → IsSound guid_of (alter_at place (λ c. (add_user s player c).1) chat)
  unfolding alter_at
  add_alter-IsSound s player (normal_channel key) chat known may h = h
  add_alter-IsSound s player (private_channel key) chat known may h =
      All-alter (IsClosed guid_of) key
        (λ (c : PrivateChatChannel). record c { channel = (add_user s player c.channel).1 })
        chat.private_channels
        (λ c found k.
          add_user-IsClosed guid_of s player key c known
            (sym (ap (is_invited_to player.guid) found) ∙ may) k)
        h
  add_alter-IsSound s player (party_channel key) chat known may h = h
  add_alter-IsSound s player (guild_channel key) chat known may h = h

  pub add_at-IsSound :
      (s : Scripts) (player : Player) (place : Option Place) (chat : Chat)
      → player.guid ≡ guid_of player.id
      → may_join player place chat ≡ true
      → IsSound guid_of chat
      → IsSound guid_of (add_at s player place chat).1
  unfolding add_at
  add_at-IsSound s player none chat known may h = h
  add_at-IsSound s player (some place) chat known may h =
      let joined = add_alter-IsSound s player place chat known may h in
      elim (Bool-cases (answers (λ c. (add_user s player c).0) (channel_at place chat))) [
        | inl joins ↦ rw joins joined
        | inr stays ↦ rw stays h
      ]

  remove_alter-IsSound :
      (player : Player) (place : Place) (chat : Chat)
      → IsSound guid_of chat
      → IsSound guid_of (alter_at place (λ c. (remove_user player c).1) chat)
  unfolding alter_at
  remove_alter-IsSound player (normal_channel key) chat h = h
  remove_alter-IsSound player (private_channel key) chat h =
      All-alter (IsClosed guid_of) key
        (λ (c : PrivateChatChannel). record c { channel = (remove_user player c.channel).1 })
        chat.private_channels (λ c found k. remove_user-IsClosed guid_of player key c k) h
  remove_alter-IsSound player (party_channel key) chat h = h
  remove_alter-IsSound player (guild_channel key) chat h = h

  delete_channel-IsSound :
      (player : Player) (channel_id : ℕ) (chat : Chat)
      → IsSound guid_of chat
      → IsSound guid_of (delete_channel player channel_id chat).1
  unfolding delete_channel
  delete_channel-IsSound player channel_id chat h =
      let less : All (IsClosed guid_of) (remove channel_id chat.private_channels) =
        All-map (λ e k. k.0) (remove channel_id chat.private_channels)
          (All-remove (IsClosed guid_of) channel_id chat.private_channels h) in
      ground (arith, h, less)

  pub remove_at-IsSound :
      (player : Player) (channel_id : ℕ) (place : Option Place) (chat : Chat)
      → IsSound guid_of chat
      → IsSound guid_of (remove_at player channel_id place chat).1
  unfolding remove_at close_owned
  remove_at-IsSound player channel_id none chat h = h
  remove_at-IsSound player channel_id (some place) chat h =
      let left = alter_at place (λ c. (remove_user player c).1) chat in
      let kept = remove_alter-IsSound player place chat h in
      elim (Bool-cases (answers (λ c. (remove_user player c).0) (channel_at place chat))) [
        | inl leaves ↦ rw leaves (
            if-IsSound (get_owner place left == player.guid)
              (delete_channel player channel_id left).1 left
              (delete_channel-IsSound player channel_id left kept) kept)
        | inr stranger ↦ rw stranger h
      ]

  pub create_at-IsSound :
      (guid : ℕ) (slot : Option ℕ) (chat : Chat)
      → free_slot 100 9900 chat.private_channels ≡ slot
      → IsSound guid_of chat
      → IsSound guid_of (create_at guid slot chat).1
  unfolding create_at
  create_at-IsSound guid none chat e h = h
  create_at-IsSound guid (some i) chat e h =
      let bounds = free_slot-bounds 100 9900 i chat.private_channels e in
      let low : 100 ≤ i = bounds.0 in
      let high : i < 10000 = bounds.1 in
      All-insert (IsClosed guid_of) i
        (record { channel = new_channel i; invites = []; owner = guid }) chat.private_channels
        (tt, ground (arith, low, high)) h

  -- The channel that a player creates is its own.
  pub create_at-may_join :
      (player : Player) (slot : Option ℕ) (chat : Chat)
      → may_join player (create_at player.guid slot chat).0 (create_at player.guid slot chat).1
        ≡ true
  unfolding create_at is_invited
  create_at-may_join player none chat = refl
  create_at-may_join player (some i) chat =
      let mine : PrivateChatChannel = record {
        channel = new_channel i;
        invites = [];
        owner = player.guid;
      } in
      ap (is_invited_to player.guid) (lookup-insert_self i mine chat.private_channels)
      ∙ unfold is_invited in rw (==_refl player.guid) refl
