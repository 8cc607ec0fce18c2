-- ===== src/Auth/Membership/Other.antt =====
-- membershipAllowedOther of eventauth.go against the rules of the specification.
use gomatrixserverlib.Prelude.{
  Bool-cases, arith, eq_false, inl, inr, ne_of_false, true, ◌==◌, ◌↔◌, ◌≡◌, ◌≢◌, ◌⊎◌, eq_iff,
}
use gomatrixserverlib.Prelude.Int.{ltb_ℤ, ℤ, ◌≤ℤ◌, ◌<ℤ◌, leb_ℤ}
use gomatrixserverlib.Result.{ok}
use gomatrixserverlib.Event.{join, ban, leave, invite}
use gomatrixserverlib.Version.{knock, knock_restricted}
use gomatrixserverlib.Version.Queries.{allow_knocking_in_event_auth}
use gomatrixserverlib.Content.PowerLevels.{user_level}
use gomatrixserverlib.Auth.Membership.{MembershipAllower}
use gomatrixserverlib.Auth.Membership.Checks.{
  membership_allowed_other, other_ban, other_leave, other_invite,
}

abbrev pub sender_level : MembershipAllower → ℤ
sender_level m = user_level m.power_levels m.sender_id

abbrev pub target_level : MembershipAllower → ℤ
target_level m = user_level m.power_levels m.target_id

-- The changes that a user in the room may make to the membership of another user.
pub data OtherChange (m : MembershipAllower) : Type 0 where
  banned :
      m.new_member.membership ≡ ban
      → m.power_levels.ban ≤ℤ sender_level m
      → target_level m <ℤ sender_level m
      → OtherChange m
  unbanned :
      m.new_member.membership ≡ leave
      → m.old_member.membership ≡ ban
      → m.power_levels.ban ≤ℤ sender_level m
      → OtherChange m
  kicked :
      m.new_member.membership ≡ leave
      → m.old_member.membership ≢ ban
      → m.power_levels.kick ≤ℤ sender_level m
      → target_level m <ℤ sender_level m
      → OtherChange m
  invited :
      m.new_member.membership ≡ invite
      → (m.old_member.membership ≡ leave) ⊎ (m.old_member.membership ≡ invite)
      → m.power_levels.invite ≤ℤ sender_level m
      → OtherChange m
  answered_knock :
      m.new_member.membership ≡ invite
      → m.old_member.membership ≡ knock
      → m.power_levels.invite ≤ℤ sender_level m
      → (m.join_rule.join_rule ≡ knock) ⊎ (m.join_rule.join_rule ≡ knock_restricted)
      → allow_knocking_in_event_auth m.room_version m.join_rule.join_rule ≡ ok true
      → OtherChange m

le→leb_ℤ : (a b : ℤ) → a ≤ℤ b → leb_ℤ a b ≡ true
le→leb_ℤ a b h = ground arith

lt→ltb_ℤ : (a b : ℤ) → a <ℤ b → ltb_ℤ a b ≡ true
lt→ltb_ℤ a b h = ground arith

OtherChange-allowed :
    (m : MembershipAllower)
    → m.sender_member.membership ≡ join
    → OtherChange m
    → membership_allowed_other m ≡ ok tt
unfolding membership_allowed_other
OtherChange-allowed m j (banned n b t) = rw (j, n, le→leb_ℤ _ _ b, lt→ltb_ℤ _ _ t)
OtherChange-allowed m j (unbanned n o b) = rw (j, n, o, le→leb_ℤ _ _ b)
OtherChange-allowed m j (kicked n o k t) = rw (j, n, eq_false _ _ o, le→leb_ℤ _ _ k, lt→ltb_ℤ _ _ t)
OtherChange-allowed m j (invited n (inl o) i) = rw (j, n, o, le→leb_ℤ _ _ i)
OtherChange-allowed m j (invited n (inr o) i) = rw (j, n, o, le→leb_ℤ _ _ i)
OtherChange-allowed m j (answered_knock n o i (inl r) v) =
    rw (j, n, o, le→leb_ℤ _ _ i, r, rw r at v)
OtherChange-allowed m j (answered_knock n o i (inr r) v) =
    rw (j, n, o, le→leb_ℤ _ _ i, r, rw r at v)

module _ (m : MembershipAllower) where
  ban-OtherChange : m.new_member.membership ≡ ban → other_ban m ≡ ok tt → OtherChange m
  unfolding other_ban
  ban-OtherChange n h = banned n (ground arith) (ground arith)

  leave-OtherChange : m.new_member.membership ≡ leave → other_leave m ≡ ok tt → OtherChange m
  unfolding other_leave
  leave-OtherChange n h = elim (Bool-cases (m.old_member.membership == ban)) [
    | inl o ↦ unbanned n ((eq_iff m.old_member.membership ban).0 o) (ground arith)
    | inr o ↦ kicked n (ne_of_false _ _ o) (ground arith) (ground arith)
  ]

  invite-facts :
      other_invite m ≡ ok tt
      → (m.power_levels.invite ≤ℤ sender_level m)
        × (((m.old_member.membership ≡ leave) ⊎ (m.old_member.membership ≡ invite))
            ⊎ ((m.old_member.membership ≡ knock)
                × ((m.join_rule.join_rule ≡ knock) ⊎ (m.join_rule.join_rule ≡ knock_restricted))
                × (allow_knocking_in_event_auth m.room_version m.join_rule.join_rule ≡ ok true)))
  unfolding other_invite
  invite-facts h = ground (
    arith,
    eq_iff m.old_member.membership leave,
    eq_iff m.old_member.membership invite,
    eq_iff m.old_member.membership knock,
    eq_iff m.join_rule.join_rule knock,
    eq_iff m.join_rule.join_rule knock_restricted,
  )

  invite-OtherChange : m.new_member.membership ≡ invite → other_invite m ≡ ok tt → OtherChange m
  invite-OtherChange n h =
      let (level, facts) = invite-facts h in
      elim facts [ inl o ↦ invited n o level | inr (o, r, v) ↦ answered_knock n o level r v ]

allowed-OtherChange : (m : MembershipAllower) → membership_allowed_other m ≡ ok tt → OtherChange m
unfolding membership_allowed_other
allowed-OtherChange m h =
    let new = m.new_member.membership in
    let j : (m.sender_member.membership == join) ≡ true = ground arith in
    elim (Bool-cases (new == ban)) [
      | inl n ↦ ban-OtherChange m ((eq_iff new ban).0 n) (rw (j, n) at h)
      | inr e ↦ elim (Bool-cases (new == leave)) [
        | inl n ↦ leave-OtherChange m ((eq_iff new leave).0 n) (rw (j, e, n) at h)
        | inr e₁ ↦ elim (Bool-cases (new == invite)) [
          | inl n ↦ invite-OtherChange m ((eq_iff new invite).0 n) (rw (j, e, e₁, n) at h)
          | inr e₂ ↦ absurd (ground arith)
        ]
      ]
    ]

-- membershipAllowedOther, which judges a change of another user's membership unless it is an invite that
-- carries a third party invite, accepts exactly if the sender is in the room and the change is one that
-- OtherChange lists, with the levels that it needs.
pub membership_allowed_other_iff :
    (m : MembershipAllower)
    → (membership_allowed_other m ≡ ok tt) ↔ ((m.sender_member.membership ≡ join) × OtherChange m)
unfolding membership_allowed_other
membership_allowed_other_iff m = (
  (λ h. (ground (arith, eq_iff m.sender_member.membership join), allowed-OtherChange m h)),
  (λ (j, c). OtherChange-allowed m j c),
)
