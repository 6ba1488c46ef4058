-- ===== src/Social/Chat/Owners.antt =====
-- How many private channels of src/chat.cpp a player owns.
use tib.Common.{
  ℕ, ◌+◌, ◌≤◌, ◌≡◌, ◌∙◌, refl, sym, ap, Bool, true, false, not, List, [], ◌∷◌, Option, none, some,
  arith, ◌==◌, Bool-cases, Option-cases, inl, inr,
}
use tib.Common.Assoc.{insert, remove}
use tib.Social.Chat.{
  Player, ChatChannel, PrivateChatChannel, remove_invite, Place, normal_channel, private_channel,
  party_channel, guild_channel, Chat,
}
use tib.Social.Chat.Channels.{
  alter, owned_by, get_private_channel, new_channel, create_at, create_private, delete_channel,
}
use tib.Social.Chat.Users.{alter_at, forget, forget_all}

abbrev pub own_bit : Bool → ℕ
own_bit true = 1
own_bit false = 0

-- How many channels have an owner.
abbrev pub owned_count : ℕ → List (ℕ × PrivateChatChannel) → ℕ
owned_count guid [] = 0
owned_count guid (entry ∷ rest) = own_bit (entry.1.owner == guid) + owned_count guid rest

pub owned_count-alter :
    (guid key : ℕ) (f : PrivateChatChannel → PrivateChatChannel) (m : List (ℕ × PrivateChatChannel))
    → ((c : PrivateChatChannel) → (f c).owner ≡ c.owner)
    → owned_count guid (alter key f m) ≡ owned_count guid m
unfolding alter
owned_count-alter guid key f [] same = refl
owned_count-alter guid key f ((at, c) ∷ rest) same = elim (Bool-cases (at == key)) [
  | inl hit ↦ rw hit (ap (λ o. own_bit (o == guid) + owned_count guid rest) (same c))
  | inr miss ↦
      rw miss (ap (λ n. own_bit (c.owner == guid) + n) (owned_count-alter guid key f rest same))
]

pub owned_count-remove :
    (guid key : ℕ) (m : List (ℕ × PrivateChatChannel))
    → owned_count guid (remove key m) ≤ owned_count guid m
unfolding remove
owned_count-remove guid key [] = omega arith
owned_count-remove guid key ((at, c) ∷ rest) = ground (arith, owned_count-remove guid key rest)

pub owned_count-insert :
    (guid key : ℕ) (c : PrivateChatChannel) (m : List (ℕ × PrivateChatChannel))
    → owned_count guid (insert key c m) ≤ own_bit (c.owner == guid) + owned_count guid m
unfolding insert
owned_count-insert guid key c [] = omega arith
owned_count-insert guid key c ((at, d) ∷ rest) = ground (arith, owned_count-insert guid key c rest)

pub owned_by-none :
    (guid : ℕ) (m : List (ℕ × PrivateChatChannel)) → owned_by guid m ≡ none → owned_count guid m ≡ 0
unfolding owned_by
owned_by-none guid [] h = refl
owned_by-none guid ((at, c) ∷ rest) h = elim (Bool-cases (c.owner == guid)) [
  | inl hit ↦ absurd (clash (rw hit at h))
  | inr miss ↦ let later = owned_by-none guid rest (rw miss at h) in ground (arith, miss, later)
]
  where
    clash : (some at ≡ none) → ⊥
    clash e = cc

pub forget-owner : (player : Player) (c : PrivateChatChannel) → (forget player c).owner ≡ c.owner
unfolding forget remove_invite
forget-owner player c = refl

pub owned_count-forget_all :
    (guid : ℕ) (player : Player) (m : List (ℕ × PrivateChatChannel))
    → owned_count guid (forget_all player m) ≤ owned_count guid m
unfolding forget_all
owned_count-forget_all guid player [] = omega arith
owned_count-forget_all guid player ((at, c) ∷ rest) =
    ground (arith, forget-owner player c, owned_count-forget_all guid player rest)

-- No player owns two private channels.
abbrev pub IsSingle : Chat → Type 0
IsSingle chat = (guid : ℕ) → owned_count guid chat.private_channels ≤ 1

pub alter_at-IsSingle :
    (place : Place) (f : ChatChannel → ChatChannel) (chat : Chat)
    → IsSingle chat
    → IsSingle (alter_at place f chat)
unfolding alter_at
alter_at-IsSingle (normal_channel key) f chat h = h
alter_at-IsSingle (private_channel key) f chat h = λ guid.
    rw
      (owned_count-alter guid key (λ (c : PrivateChatChannel). record c { channel = f c.channel })
        chat.private_channels (λ c. refl))
      (h guid)
alter_at-IsSingle (party_channel key) f chat h = h
alter_at-IsSingle (guild_channel key) f chat h = h

pub delete_channel-IsSingle :
    (player : Player) (channel_id : ℕ) (chat : Chat)
    → IsSingle chat
    → IsSingle (delete_channel player channel_id chat).1
unfolding delete_channel
delete_channel-IsSingle player channel_id chat h guid =
    ground (arith, h guid, owned_count-remove guid channel_id chat.private_channels)

create_at-IsSingle :
    (guid : ℕ) (slot : Option ℕ) (chat : Chat)
    → owned_count guid chat.private_channels ≡ 0
    → IsSingle chat
    → IsSingle (create_at guid slot chat).1
unfolding create_at
create_at-IsSingle guid none chat free h = h
create_at-IsSingle guid (some i) chat free h = λ other.
    let more =
      owned_count-insert other i (record { channel = new_channel i; invites = []; owner = guid })
        chat.private_channels in
    elim (Bool-cases (guid == other)) [
      | inl hit ↦
          let same : guid ≡ other = ground (arith, hit) in
          let empty : owned_count other chat.private_channels ≡ 0 =
            ap (λ g. owned_count g chat.private_channels) (sym same) ∙ free in
          ground (arith, more, empty)
      | inr miss ↦ ground (arith, more, miss, h other)
    ]

pub create_private-IsSingle :
    (player : Player) (chat : Chat) → IsSingle chat → IsSingle (create_private player chat).1
unfolding create_private get_private_channel
create_private-IsSingle player chat h = elim (Bool-cases (not player.is_premium)) [
  | inl free ↦ rw free h
  | inr premium ↦ elim (Option-cases (owned_by player.guid chat.private_channels)) [
    | inl lone ↦
        rw (premium, lone)
          (create_at-IsSingle player.guid _ chat
            (owned_by-none player.guid chat.private_channels lone) h)
    | inr (key, owns) ↦ rw (premium, owns) h
  ]
]
