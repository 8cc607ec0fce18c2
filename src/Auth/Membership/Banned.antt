-- ===== src/Auth/Membership/Banned.antt =====
-- What happens to the membership of a banned user.
use gomatrixserverlib.Prelude.{◌⊎◌, none, ◌≡◌, ◌≢◌, inl, inr, String, arith, eq_iff, sym, ◌∙◌}
use gomatrixserverlib.Prelude.Int.{◌≤ℤ◌}
use gomatrixserverlib.Result.{ok}
use gomatrixserverlib.Event.{Event, join, ban, leave, invite}
use gomatrixserverlib.Version.{knock}
use gomatrixserverlib.Auth.Membership.Checks.{VerifyJson, membership_allowed}
use gomatrixserverlib.Auth.Membership.Other.{
  OtherChange, banned, unbanned, kicked, invited, answered_knock, sender_level,
}
use gomatrixserverlib.Auth.Membership.Change.{
  MembershipChange, invited_by_third_party, own, of_other, IsFirstJoin, membership_allowed_iff,
}
use gomatrixserverlib.Auth.Membership.{MembershipAllower}
use gomatrixserverlib.Auth.Membership.Self.{
  SelfChange, stay_out, knocked, joined_public, joined_restricted, joined_invited, joined_again,
  left,
}

clash : {x : String} (s t : String) → x ≡ s → x ≡ t → s ≢ t → ⊥
clash s t p q h = h (sym p ∙ q)

not-SelfChange-ban : (m : MembershipAllower) → m.old_member.membership ≡ ban → ¬ SelfChange m
not-SelfChange-ban m b (stay_out o n) = clash ban leave b o (ground (arith, eq_iff ban leave))
not-SelfChange-ban m b (knocked n r v j i h) = h b
not-SelfChange-ban m b (joined_public n o r) =
    clash ban leave b o (ground (arith, eq_iff ban leave))
not-SelfChange-ban m b (joined_restricted n o r v via c) =
    clash ban leave b o (ground (arith, eq_iff ban leave))
not-SelfChange-ban m b (joined_invited n o) =
    clash ban invite b o (ground (arith, eq_iff ban invite))
not-SelfChange-ban m b (joined_again n o) = clash ban join b o (ground (arith, eq_iff ban join))
not-SelfChange-ban m b (left n (inl o)) = clash ban join b o (ground (arith, eq_iff ban join))
not-SelfChange-ban m b (left n (inr o)) = clash ban invite b o (ground (arith, eq_iff ban invite))

-- Only a user who may ban changes the membership of a banned user, to "leave" or to "ban" again.
OtherChange-ban :
    (m : MembershipAllower)
    → m.old_member.membership ≡ ban
    → OtherChange m
    → (m.power_levels.ban ≤ℤ sender_level m)
      × ((m.new_member.membership ≡ leave) ⊎ (m.new_member.membership ≡ ban))
OtherChange-ban m b (banned n level above) = (level, inr n)
OtherChange-ban m b (unbanned n o level) = (level, inl n)
OtherChange-ban m b (kicked n o level above) = absurd (o b)
OtherChange-ban m b (invited n (inl o) level) =
    absurd (clash ban leave b o (ground (arith, eq_iff ban leave)))
OtherChange-ban m b (invited n (inr o) level) =
    absurd (clash ban invite b o (ground (arith, eq_iff ban invite)))
OtherChange-ban m b (answered_knock n o level rule version) =
    absurd (clash ban knock b o (ground (arith, eq_iff ban knock)))

-- What an accepted change of the membership of a banned user is.
pub data BannedChange (m : MembershipAllower) (event : Event) : Type 0 where
  first_join : IsFirstJoin m event → BannedChange m event
  third_party_invite :
      m.new_member.membership ≡ invite
      → m.new_member.third_party_invite ≢ none
      → BannedChange m event
  by_moderator :
      m.target_id ≢ m.sender_id
      → m.sender_member.membership ≡ join
      → m.power_levels.ban ≤ℤ sender_level m
      → (m.new_member.membership ≡ leave) ⊎ (m.new_member.membership ≡ ban)
      → BannedChange m event

change-BannedChange :
    (verify_json : VerifyJson) (m : MembershipAllower) (event : Event)
    → m.old_member.membership ≡ ban
    → MembershipChange verify_json m
    → BannedChange m event
change-BannedChange verify_json m event b (invited_by_third_party i n is h) =
    third_party_invite n (λ absent. cc (is, absent))
change-BannedChange verify_json m event b (own plain same c) = absurd (not-SelfChange-ban m b c)
change-BannedChange verify_json m event b (of_other plain other j c) =
    let (level, new) = OtherChange-ban m b c in by_moderator other j level new

-- An accepted membership event whose target is banned is the creator's join directly after the create
-- event, or an invite with a third party invite, or comes from another user, who is in the room and has
-- the level to ban, and changes the membership to "leave" or to "ban".
pub membership_allowed-BannedChange :
    (verify_json : VerifyJson) (m : MembershipAllower) (event : Event)
    → m.old_member.membership ≡ ban
    → (membership_allowed verify_json m event).1 ≡ ok tt
    → BannedChange m event
membership_allowed-BannedChange verify_json m event b h =
    let (guards, readable, why) = (membership_allowed_iff verify_json m event).0 h in
    elim why [ inl f ↦ first_join f | inr c ↦ change-BannedChange verify_json m event b c ]
