-- ===== src/Auth/Needed/SwapSelf.antt =====
-- The checks of one's own membership (eventauth.go) under another provider and another join rule.
use gomatrixserverlib.Prelude.{
  ◌≡◌, ◌≢◌, refl, arith, Bool, true, false, Bool-cases, inl, inr, ◌==◌, ◌||◌, ◌&&◌, ne_of_false,
  eq_iff, subst, if◌then◌else◌,
}
use gomatrixserverlib.Event.{join, invite, leave, ban}
use gomatrixserverlib.Version.{knock}
use gomatrixserverlib.Content.JoinRules.{JoinRuleContent}
use gomatrixserverlib.Auth.Provider.{AuthEventProvider}
use gomatrixserverlib.Auth.Membership.{MembershipAllower}
use gomatrixserverlib.Auth.Membership.Checks.{
  Judged, authorised_via_checks, membership_allowed_self,
  membership_allowed_self_for_restricted_join, self_leave,
}
use gomatrixserverlib.Auth.Needed.Swap.{swap}

-- The allower of a membership event, in the changed context.
abbrev pub moved : MembershipAllower → AuthEventProvider → JoinRuleContent → MembershipAllower
moved m q rule = record m { allower_context = swap m.allower_context q rule }

-- What the checks ask of the provider and of the join rule.
pub record Asked (m : MembershipAllower) (q : AuthEventProvider) (rule : JoinRuleContent)
    : Type 0 where
  pub via :
      m.new_member.authorised_via ≢ ""
      → m.provider.member m.new_member.authorised_via ≡ q.member m.new_member.authorised_via
  pub join_needed : m.new_member.membership ≡ join → m.join_rule ≡ rule
  pub invite_needed : m.new_member.membership ≡ invite → m.join_rule ≡ rule
  pub knock_needed : m.new_member.membership ≡ knock → m.join_rule ≡ rule

module _ (m : MembershipAllower) (q : AuthEventProvider) where
  via_swap :
      m.provider.member m.new_member.authorised_via ≡ q.member m.new_member.authorised_via
      → authorised_via_checks m ≡ authorised_via_checks (moved m q m.join_rule)
  unfolding authorised_via_checks
  via_swap h = rw h refl

  restricted_swap :
      (m.new_member.authorised_via ≢ ""
        → m.provider.member m.new_member.authorised_via ≡ q.member m.new_member.authorised_via)
      → membership_allowed_self_for_restricted_join m
        ≡ membership_allowed_self_for_restricted_join (moved m q m.join_rule)
  unfolding membership_allowed_self_for_restricted_join
  restricted_swap h =
      let cond =
        m.old_member.membership == join
        || m.old_member.membership == invite
        || m.new_member.authorised_via == "" in
      elim (Bool-cases cond) [
        | inl c ↦ rw c refl
        | inr c ↦
            let named = ne_of_false m.new_member.authorised_via "" (ground (c, arith)) in
            rw (c, via_swap (h named)) refl
      ]

  same_rule_swap :
      (m.new_member.authorised_via ≢ ""
        → m.provider.member m.new_member.authorised_via ≡ q.member m.new_member.authorised_via)
      → (membership_allowed_self m).1 ≡ (membership_allowed_self (moved m q m.join_rule)).1
  unfolding membership_allowed_self
  same_rule_swap h = rw (restricted_swap h) refl

pub both :
    (b : Bool) (x y x' y' : Judged)
    → x.1 ≡ x'.1
    → y.1 ≡ y'.1
    → (if b then x else y).1 ≡ (if b then x' else y').1
both true x y x' y' h k = h
both false x y x' y' h k = k

-- Where the join rule is read, it is the same; where it is not, it does not matter.
pub self_swap :
    (m : MembershipAllower) (q : AuthEventProvider) (rule : JoinRuleContent)
    → Asked m q rule
    → (membership_allowed_self m).1 ≡ (membership_allowed_self (moved m q rule)).1
unfolding membership_allowed_self self_leave
self_swap m q rule asked =
    let same : m.join_rule ≡ rule
        → (membership_allowed_self m).1 ≡ (membership_allowed_self (moved m q rule)).1 =
      λ e.
        subst (λ r. (membership_allowed_self m).1 ≡ (membership_allowed_self (moved m q r)).1) e
          (same_rule_swap m q asked.via) in
    elim (Bool-cases (m.new_member.membership == join)) [
      | inl j ↦ same (asked.join_needed ((eq_iff m.new_member.membership join).0 j))
      | inr j ↦ elim (Bool-cases (m.new_member.membership == knock)) [
        | inl k ↦ same (asked.knock_needed ((eq_iff m.new_member.membership knock).0 k))
        | inr k ↦
            rw (j, k)
              (both (m.old_member.membership == leave && m.new_member.membership == leave) _ _ _ _
                refl
                (both (m.new_member.membership == leave) _ _ _ _ refl (
                  both (m.new_member.membership == invite || m.new_member.membership == ban) _ _ _ _
                    refl refl)))
      ]
    ]
