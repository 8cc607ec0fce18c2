-- ===== src/Auth/Membership/SharedRule.antt =====
-- The join rule of the context that the checks share: membershipAllowedSelfForRestrictedJoin of
-- eventauth.go writes to it, and the next event is judged by what it wrote.
use gomatrixserverlib.Prelude.{arith, eq_false, eq_iff, true, ◌∙◌, ◌≡◌, ◌≢◌}
use gomatrixserverlib.Result.{ok}
use gomatrixserverlib.Event.{join, leave, public}
use gomatrixserverlib.Version.{restricted}
use gomatrixserverlib.Version.Queries.{allow_restricted_joins_in_event_auth}
use gomatrixserverlib.Auth.Membership.{MembershipAllower}
use gomatrixserverlib.Auth.Membership.Checks.{
  membership_allowed_self, authorised_via_checks, membership_allowed_self_for_restricted_join,
}

-- After a restricted join that a user in the room authorised, in a version that allows such joins,
-- a join that is judged by the join rule which that check left is accepted for any user who left,
-- in any room version, with nobody to authorise it.
pub opens_room_after_join :
    (m next : MembershipAllower)
    → m.new_member.membership ≡ join
    → m.old_member.membership ≡ leave
    → m.join_rule.join_rule ≡ restricted
    → allow_restricted_joins_in_event_auth m.room_version restricted ≡ ok true
    → m.new_member.authorised_via ≢ ""
    → authorised_via_checks m ≡ ok tt
    → next.new_member.membership ≡ join
    → next.old_member.membership ≡ leave
    → next.join_rule.join_rule ≡ (membership_allowed_self m).0
    → (membership_allowed_self next).1 ≡ ok tt
unfolding membership_allowed_self membership_allowed_self_for_restricted_join
opens_room_after_join m next n o r v via checks n' o' shared =
    let opened : (membership_allowed_self m).0 ≡ public =
      rw (n, o, r, v, eq_false _ _ via, checks) in
    rw (n', o', shared ∙ opened)

-- A check under another join rule than "restricted" leaves the rule as it was.
pub rule-membership_allowed_self :
    (m : MembershipAllower)
    → m.join_rule.join_rule ≢ restricted
    → (membership_allowed_self m).0 ≡ m.join_rule.join_rule
unfolding membership_allowed_self
rule-membership_allowed_self m h = ground (arith, eq_iff m.join_rule.join_rule restricted)
