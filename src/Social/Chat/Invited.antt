-- ===== src/Social/Chat/Invited.antt =====
-- Who is in a private channel of src/chat.cpp is invited to it.
use tib.Common.{
  ℕ, ◌≡◌, ◌∙◌, refl, sym, true, false, not, ◌&&◌, arith, ◌==◌, ltb, leb, All, All-map, Bool-cases,
  Option-cases, inl, inr,
}
use tib.Common.Assoc.{
  lookup, insert, remove, lookup-insert, lookup-remove, All-insert, All-remove, remove-missing,
}
use tib.Social.Chat.{
  Player, Scripts, ChatChannel, PrivateChatChannel, is_some, has_user, add_user, remove_user,
  is_invited, remove_invite, invite_player, exclude_player,
}

-- A user's guid is the one of its id, and it owns the channel or is invited.
abbrev pub IsUser : (ℕ → ℕ) → PrivateChatChannel → ℕ × ℕ → Type 0
IsUser guid_of c user = (user.1 ≡ guid_of user.0) × (is_invited user.1 c ≡ true)

abbrev pub IsClosed : (ℕ → ℕ) → ℕ × PrivateChatChannel → Type 0
IsClosed guid_of entry =
    All (IsUser guid_of entry.1) entry.1.channel.users
    × ((leb 100 entry.0 && ltb entry.0 10000) ≡ true)

module _ (guid_of : ℕ → ℕ) where
  pub remove_user-users :
      (player : Player) (c : ChatChannel)
      → (remove_user player c).1.users ≡ remove player.id c.users
  unfolding remove_user has_user
  remove_user-users player c = elim (Option-cases (lookup player.id c.users)) [
    | inl missing ↦ rw missing (sym (remove-missing player.id c.users missing))
    | inr (g, there) ↦ rw there refl
  ]

  -- A user that joins is invited.
  pub add_user-IsClosed :
      (s : Scripts) (player : Player) (key : ℕ) (c : PrivateChatChannel)
      → player.guid ≡ guid_of player.id
      → is_invited player.guid c ≡ true
      → IsClosed guid_of (key, c)
      → IsClosed guid_of (key, record c { channel = (add_user s player c.channel).1 })
  unfolding add_user is_invited
  add_user-IsClosed s player key c known invited h = elim (Bool-cases (has_user player c.channel)) [
    | inl there ↦ rw there h
    | inr new ↦ elim (Bool-cases (not (s.on_join c.channel.id))) [
      | inl refused ↦ rw (new, refused) h
      | inr joins ↦
          rw (new, joins)
            (
              All-insert (IsUser guid_of c) player.id player.guid c.channel.users (known, invited)
                  h.0,
              h.1,
            )
    ]
  ]

  pub remove_user-IsClosed :
      (player : Player) (key : ℕ) (c : PrivateChatChannel)
      → IsClosed guid_of (key, c)
      → IsClosed guid_of (key, record c { channel = (remove_user player c.channel).1 })
  unfolding is_invited
  remove_user-IsClosed player key c h = rw (remove_user-users player c.channel) (
    All-map (λ u k. k.0) (remove player.id c.channel.users)
        (All-remove (IsUser guid_of c) player.id c.channel.users h.0),
    h.1,
  )

  pub invite_player-IsClosed :
      (invited : Player) (key : ℕ) (c : PrivateChatChannel)
      → IsClosed guid_of (key, c)
      → IsClosed guid_of (key, invite_player invited c)
  unfolding invite_player is_invited
  invite_player-IsClosed invited key c h =
      elim (Bool-cases (is_some (lookup invited.guid c.invites))) [
        | inl there ↦ rw there h
        | inr new ↦ rw new (All-map still c.channel.users h.0, h.1)
      ]
    where
      still :
          (u : ℕ × ℕ)
          → IsUser guid_of c u
          → IsUser guid_of (record c { invites = insert invited.guid invited.id c.invites }) u
      still u k =
          (k.0, rw (lookup-insert invited.guid u.1 invited.id c.invites) (ground (arith, k.1)))

  -- The users that are left are other players than the one that is no longer invited.
  pub forget-IsClosed :
      ((p q : ℕ) → guid_of p ≡ guid_of q → p ≡ q)
      → (player : Player) (key : ℕ) (c : PrivateChatChannel) → player.guid ≡ guid_of player.id
      → IsClosed guid_of (key, c)
      → IsClosed guid_of (
        key,
        record c {
          invites = remove player.guid c.invites;
          channel = (remove_user player c.channel).1;
        },
      )
  unfolding is_invited
  forget-IsClosed distinct player key c known h = rw (remove_user-users player c.channel) (
    All-map still (remove player.id c.channel.users)
        (All-remove (IsUser guid_of c) player.id c.channel.users h.0),
    h.1,
  )
    where
      apart :
          (u : ℕ × ℕ)
          → u.1 ≡ guid_of u.0
          → (u.0 == player.id) ≡ false
          → (player.guid == u.1) ≡ false
      apart u mine other = elim (Bool-cases (player.guid == u.1)) [
        | inr differs ↦ differs
        | inl hit ↦
            let same : player.guid ≡ u.1 = ground (arith, hit) in
            let one = distinct u.0 player.id (sym mine ∙ sym same ∙ known) in
            ground (arith, one, other)
      ]

      still :
          (u : ℕ × ℕ)
          → IsUser guid_of c u × ((u.0 == player.id) ≡ false)
          → IsUser guid_of
              (record c {
                invites = remove player.guid c.invites;
                channel = (remove_user player c.channel).1;
              })
              u
      still u k = (k.0.0, rw (lookup-remove player.guid u.1 c.invites, apart u k.0.0 k.1) k.0.1)

  pub exclude_player-IsClosed :
      ((p q : ℕ) → guid_of p ≡ guid_of q → p ≡ q)
      → (excluded : Player) (key : ℕ) (c : PrivateChatChannel) → excluded.guid ≡ guid_of excluded.id
      → IsClosed guid_of (key, c)
      → IsClosed guid_of (key, exclude_player excluded c)
  unfolding exclude_player remove_invite
  exclude_player-IsClosed distinct excluded key c known h =
      elim (Bool-cases (is_some (lookup excluded.guid c.invites))) [
        | inl invited ↦ rw invited (forget-IsClosed distinct excluded key c known h)
        | inr stranger ↦ rw stranger h
      ]
