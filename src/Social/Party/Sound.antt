-- ===== src/Social/Party/Sound.antt =====
-- Requests of players keep players and parties tied.
use tib.Common.{
  ℕ, ◌≡◌, refl, Bool, true, false, Option, none, some, arith, ◌==◌, if◌then◌else◌, Option-cases,
  inl, inr,
}
use tib.Social.Party.{Context, Party}
use tib.Social.Party.Actions.{World, is_at, create}
use tib.Social.Party.Roster.{IsSound}
use tib.Social.Party.Kept.{create-IsSound, invite_player-IsSound}
use tib.Social.Party.Leaving.{pass_party_leadership-IsSound, join_party-IsSound}
use tib.Social.Party.Ending.{remove_invite-IsSound}
use tib.Social.Party.Leader.{leave_party-IsSound}
use tib.Social.Party.Requests.{
  get_party, is_inviting, Request, invites, joins, revokes, passes, leaves, at_party, invite_from,
  when_alone, handle, are_online, serve, IsFree, nobody, Reached, start, served,
}

get_party-parties :
    (w : World) (player p : ℕ) (party : Party)
    → get_party w player ≡ some (p, party)
    → w.parties p ≡ some party
unfolding get_party
get_party-parties w player p party e = elim (Option-cases (w.party_of player)) [
  | inl alone ↦ cc (rw (get_party, alone) at e)
  | inr (q, there) ↦ elim (Option-cases (w.parties q)) [
    | inl gone ↦ cc (rw (get_party, there, gone) at e)
    | inr (held, stands) ↦ cc (rw (get_party, there, stands) at e)
  ]
]

-- A handler is sound if what it does with a party that stands is.
at_party-IsSound :
    (w v : World) (player : ℕ) (act : ℕ → Party → World)
    → IsSound w
    → ((p : ℕ) (party : Party) → v.parties p ≡ some party → IsSound (act p party))
    → IsSound (at_party act w (get_party v player))
at_party-IsSound w v player act s h = elim (Option-cases (get_party v player)) [
  | inl alone ↦ rw alone s
  | inr ((p, party), there) ↦ rw there (h p party (get_party-parties v player p party there))
]

if-IsSound : (b : Bool) (w v : World) → IsSound w → IsSound v → IsSound (if b then w else v)
if-IsSound true w v s k = s
if-IsSound false w v s k = k

alone-IsSound :
    (o : Option ℕ) (done w : World)
    → (o ≡ none → IsSound done)
    → IsSound w
    → IsSound (when_alone o done w)
alone-IsSound none done w h s = h refl
alone-IsSound (some p) done w h s = s

invite_from-IsSound :
    (w : World) (player invited fresh : ℕ)
    → w.parties fresh ≡ none
    → IsSound w
    → IsSound (invite_from w player invited fresh)
invite_from-IsSound w player invited fresh free s = elim (Option-cases (w.party_of player)) [
  | inl alone ↦
      let made = create-IsSound fresh player w free alone s in
      rw (invite_from, alone)
        (at_party-IsSound (create fresh player w) (create fresh player w) player _ made
          (λ p party there.
            invite_player-IsSound p invited party (create fresh player w) there made))
  | inr (p, there) ↦
      rw (invite_from, there)
        (at_party-IsSound w w player _ s (λ q party stands.
          if-IsSound (party.leader == player) _ w (invite_player-IsSound q invited party w stands s)
            s))
]

handle-IsSound :
    (g : Context) (r : Request) (w : World)
    → g.may_disband ≡ true
    → IsFree w r
    → IsSound w
    → IsSound (handle g r w)
unfolding handle
handle-IsSound g (invites player invited fresh) w may free s =
    if-IsSound (is_inviting w invited player) w _ s (
      alone-IsSound (w.party_of invited) _ w
        (λ e. invite_from-IsSound w player invited fresh free s) s)
handle-IsSound g (joins player leader) w may free s =
    if-IsSound (is_inviting w leader player) _ w
      (at_party-IsSound w w leader _ s (λ p party there.
        if-IsSound (party.leader == leader) _ w
          (alone-IsSound (w.party_of player) _ w
            (λ alone. join_party-IsSound g p player party w there alone s) s)
          s))
      s
handle-IsSound g (revokes player invited) w may free s =
    at_party-IsSound w w player _ s (λ p party there.
      if-IsSound (party.leader == player) _ w
        (if-IsSound (is_inviting w player invited) _ w
          (remove_invite-IsSound g p invited party w there s) s)
        s)
handle-IsSound g (passes player member) w may free s =
    at_party-IsSound w w player _ s (λ p party there.
      if-IsSound (party.leader == player) _ w
        (if-IsSound (is_at (w.party_of member) p) _ w
          (pass_party_leadership-IsSound g p member party w there s) s)
        s)
handle-IsSound g (leaves player) w may free s = if-IsSound (g.in_fight player) w _ s (
    at_party-IsSound w w player _ s
      (λ p party there. leave_party-IsSound g p player party w may there s))

serve-IsSound :
    (g : Context) (r : Request) (w : World)
    → g.may_disband ≡ true
    → IsFree w r
    → IsSound w
    → IsSound (serve g r w)
unfolding serve
serve-IsSound g r w may free s = if-IsSound (are_online g r) _ w (handle-IsSound g r w may free s) s

nobody-IsSound : IsSound nobody
unfolding is_at
nobody-IsSound = record { belong = λ a p. refl; known = λ a p. refl; once = λ a p. omega arith }

-- Whatever players ask for, in whatever order, and however scripts answer, save that none keeps a party from ending: a player points to a party if and only if it stands in that party's roster, once, and the parties that a player knows to invite it are, once each, those that do.
pub Reached-IsSound : (w : World) → Reached w → IsSound w
Reached-IsSound w start = nobody-IsSound
Reached-IsSound w (served g r v may free run) = serve-IsSound g r v may free (Reached-IsSound v run)
