-- ===== src/Auth/Membership/Self.antt =====
-- membershipAllowedSelf of eventauth.go against the rules of the specification.
use gomatrixserverlib.Prelude.{
  if◌then◌else◌, ◌↔◌, String, arith, false, ne_of_false, Bool-cases, eq_false, ◌==◌, inl, inr, true,
  ◌≡◌, refl, ◌≢◌, ◌⊎◌, ◌&&◌, eq_iff,
}
use gomatrixserverlib.Result.{Check, not_allowed, join_rule_forbids_join, Result, err, panic, ok}
use gomatrixserverlib.Auth.Membership.{MembershipAllower}
use gomatrixserverlib.Auth.Membership.Checks.{
  judge_join, membership_allowed_self, membership_allowed_self_for_restricted_join,
  authorised_via_checks, self_knock, self_join, self_leave,
}
use gomatrixserverlib.Event.{join, ban, leave, invite, public}
use gomatrixserverlib.Version.{knock, restricted, knock_restricted}
use gomatrixserverlib.Version.Queries.{
  allow_knocking_in_event_auth, allow_restricted_joins_in_event_auth,
}

-- The changes that membershipAllowedSelf accepts. A restricted join is one under the rule "restricted".
pub data SelfChange (m : MembershipAllower) : Type 0 where
  stay_out : m.old_member.membership ≡ leave → m.new_member.membership ≡ leave → SelfChange m
  knocked :
      m.new_member.membership ≡ knock
      → (m.join_rule.join_rule ≡ knock) ⊎ (m.join_rule.join_rule ≡ knock_restricted)
      → allow_knocking_in_event_auth m.room_version m.join_rule.join_rule ≡ ok true
      → m.old_member.membership ≢ join
      → m.old_member.membership ≢ invite
      → m.old_member.membership ≢ ban
      → SelfChange m
  joined_public :
      m.new_member.membership ≡ join
      → m.old_member.membership ≡ leave
      → m.join_rule.join_rule ≡ public
      → SelfChange m
  joined_restricted :
      m.new_member.membership ≡ join
      → m.old_member.membership ≡ leave
      → m.join_rule.join_rule ≡ restricted
      → allow_restricted_joins_in_event_auth m.room_version restricted ≡ ok true
      → m.new_member.authorised_via ≢ ""
      → authorised_via_checks m ≡ ok tt
      → SelfChange m
  joined_invited : m.new_member.membership ≡ join → m.old_member.membership ≡ invite → SelfChange m
  joined_again : m.new_member.membership ≡ join → m.old_member.membership ≡ join → SelfChange m
  left :
      m.new_member.membership ≡ leave
      → (m.old_member.membership ≡ join) ⊎ (m.old_member.membership ≡ invite)
      → SelfChange m

SelfChange-allowed : (m : MembershipAllower) → SelfChange m → (membership_allowed_self m).1 ≡ ok tt
unfolding membership_allowed_self membership_allowed_self_for_restricted_join
SelfChange-allowed m (stay_out o n) = rw (o, n)
SelfChange-allowed m (knocked n (inl r) v j i b) =
    rw (n, r, rw r at v, eq_false _ _ j, eq_false _ _ i, eq_false _ _ b) (ground arith)
SelfChange-allowed m (knocked n (inr r) v j i b) =
    rw (n, r, rw r at v, eq_false _ _ j, eq_false _ _ i, eq_false _ _ b) (ground arith)
SelfChange-allowed m (joined_public n o r) = rw (n, o, r)
SelfChange-allowed m (joined_restricted n o r v via checks) =
    rw (n, o, r, v, eq_false _ _ via, checks)
SelfChange-allowed m (joined_invited n o) = rw (n, o)
SelfChange-allowed m (joined_again n o) = rw (n, o)
SelfChange-allowed m (left n (inl o)) = rw (n, o)
SelfChange-allowed m (left n (inr o)) = rw (n, o)

self_knock-facts :
    (m : MembershipAllower)
    → self_knock m ≡ ok tt
    → ((m.join_rule.join_rule ≡ knock) ⊎ (m.join_rule.join_rule ≡ knock_restricted))
      × (allow_knocking_in_event_auth m.room_version m.join_rule.join_rule ≡ ok true)
      × ((m.old_member.membership == join) ≡ false)
      × ((m.old_member.membership == invite) ≡ false)
      × ((m.old_member.membership == ban) ≡ false)
unfolding self_knock
self_knock-facts m h =
    ground
      (arith, eq_iff m.join_rule.join_rule knock, eq_iff m.join_rule.join_rule knock_restricted)

self_knock-SelfChange :
    (m : MembershipAllower) → m.new_member.membership ≡ knock → self_knock m ≡ ok tt → SelfChange m
self_knock-SelfChange m n h =
    let (rule, version, j, i, b) = self_knock-facts m h in
    knocked n rule version (ne_of_false _ _ j) (ne_of_false _ _ i) (ne_of_false _ _ b)

self_leave-SelfChange :
    (m : MembershipAllower) → m.new_member.membership ≡ leave → self_leave m ≡ ok tt → SelfChange m
unfolding self_leave
self_leave-SelfChange m n h =
    left n
      (ground (arith, eq_iff m.old_member.membership join, eq_iff m.old_member.membership invite))

-- The restricted rule was met, or the join is judged as one by invitation.
restricted-facts :
    (m : MembershipAllower) (rule : String)
    → m.join_rule.join_rule ≡ restricted
    → membership_allowed_self_for_restricted_join m ≡ ok rule
    → (m.old_member.membership ≡ leave)
    → (rule ≡ invite)
      ⊎ ((allow_restricted_joins_in_event_auth m.room_version restricted ≡ ok true)
          × ((m.new_member.authorised_via == "") ≡ false)
          × (authorised_via_checks m ≡ ok tt))
unfolding membership_allowed_self_for_restricted_join
restricted-facts m rule r h o = ground (arith, eq_iff m.old_member.membership leave)

self_join-facts :
    (m : MembershipAllower) (rule : String)
    → self_join m rule ≡ ok tt
    → ((m.old_member.membership ≡ leave) × (rule ≡ public))
      ⊎ (m.old_member.membership ≡ invite)
      ⊎ (m.old_member.membership ≡ join)
unfolding self_join
self_join-facts m rule h = ground (
  arith,
  eq_iff m.old_member.membership leave,
  eq_iff rule public,
  eq_iff m.old_member.membership invite,
  eq_iff m.old_member.membership join,
)

-- Under the rule "invite" a user who left is not let in.
not-join-invite :
    (m : MembershipAllower) (rule : String)
    → m.old_member.membership ≡ leave
    → rule ≡ invite
    → self_join m rule ≢ ok tt
unfolding self_join
not-join-invite m rule o r h =
    let refused : ◌≡◌ {A = Check} (err (not_allowed join_rule_forbids_join)) (ok tt) =
      rw (o, r) at h in
    cc

module _ (m : MembershipAllower) (n : m.new_member.membership ≡ join) where
  plain_join-SelfChange : self_join m m.join_rule.join_rule ≡ ok tt → SelfChange m
  plain_join-SelfChange h = elim (self_join-facts m m.join_rule.join_rule h) [
    | inl (o, r) ↦ joined_public n o r
    | inr (inl o) ↦ joined_invited n o
    | inr (inr o) ↦ joined_again n o
  ]

  module _ (o : m.old_member.membership ≡ leave) (r : m.join_rule.join_rule ≡ restricted) where
    -- A user who left is let in by the rule "public" only, which is what a met restriction becomes.
    restricted_join-SelfChange :
        (judged : Result String)
        → membership_allowed_self_for_restricted_join m ≡ judged
        → (judge_join m judged).1 ≡ ok tt
        → SelfChange m
    unfolding self_join
    restricted_join-SelfChange (err e) is h = cc
    restricted_join-SelfChange panic is h = cc
    restricted_join-SelfChange (ok rule) is h = elim (restricted-facts m rule r is o) [
      | inl as_invite ↦ absurd (not-join-invite m rule o as_invite h)
      | inr (v, via, checks) ↦ joined_restricted n o r v (ne_of_false _ _ via) checks
    ]

  join-SelfChange :
      (judge_join m (
          if m.old_member.membership == leave && m.join_rule.join_rule == restricted
          then membership_allowed_self_for_restricted_join m
          else ok m.join_rule.join_rule)).1
        ≡ ok tt
      → SelfChange m
  join-SelfChange h =
      elim (Bool-cases (m.old_member.membership == leave && m.join_rule.join_rule == restricted)) [
        | inl both ↦
            restricted_join-SelfChange (ground (arith, eq_iff m.old_member.membership leave))
              (ground (arith, eq_iff m.join_rule.join_rule restricted))
              (membership_allowed_self_for_restricted_join m) refl (rw both at h)
        | inr other ↦ plain_join-SelfChange (rw other at h)
      ]

allowed-SelfChange : (m : MembershipAllower) → (membership_allowed_self m).1 ≡ ok tt → SelfChange m
unfolding membership_allowed_self
allowed-SelfChange m h =
    let old = m.old_member.membership in
    let new = m.new_member.membership in
    elim (Bool-cases (old == leave && new == leave)) [
      | inl both ↦ stay_out (ground (arith, eq_iff old leave)) (ground (arith, eq_iff new leave))
      | inr e ↦ elim (Bool-cases (new == knock)) [
        | inl n ↦ self_knock-SelfChange m ((eq_iff new knock).0 n) (rw (e, n) at h)
        | inr e₁ ↦ elim (Bool-cases (new == join)) [
          | inl n ↦ join-SelfChange m ((eq_iff new join).0 n) (rw (e, e₁, n) at h)
          | inr e₂ ↦ elim (Bool-cases (new == leave)) [
            | inl n ↦ self_leave-SelfChange m ((eq_iff new leave).0 n) (rw (e, e₁, e₂, n) at h)
            | inr e₃ ↦ absurd (ground arith)
          ]
        ]
      ]
    ]

-- membershipAllowedSelf, which judges a user's change of their own membership unless it is the creator's
-- first join or carries a third party invite, accepts exactly the changes that SelfChange lists: staying
-- out, knocking under a rule and version for it from outside, joining by the rule "public", by an
-- authorised join under the rule "restricted" in a version that allows such joins, by an invite or
-- again, and leaving after a join or an invite.
pub membership_allowed_self_iff :
    (m : MembershipAllower) → ((membership_allowed_self m).1 ≡ ok tt) ↔ SelfChange m
membership_allowed_self_iff m = (allowed-SelfChange m, SelfChange-allowed m)
