-- ===== src/Auth/Membership/Checks.antt =====
-- `membershipAllower` of eventauth.go: the checks of an m.room.member event.
use gomatrixserverlib.Prelude.{
  Option, true, Bool, false, not, ◌&&◌, ◌||◌, none, some, List, [], ◌∷◌, String, ◌==◌, ℕ,
  if◌then◌else◌, Assoc, keys,
}
use gomatrixserverlib.Prelude.Int.{leb_ℤ, ltb_ℤ}
use gomatrixserverlib.Result.{
  Result, ok, err, panic, Check, not_allowed, require, wrong_room, restricted_not_supported,
  authorised_via_invalid, authorised_via_missing, authorised_via_not_joined, authorised_via_level,
  third_party_target, third_party_signature, join_rule_forbids_knock, version_forbids_knock,
  knock_from_member, join_rule_forbids_join, cannot_leave, self_invite_or_ban, unknown_membership,
  sender_not_in_room, cannot_ban, cannot_unban, cannot_kick, cannot_invite, other_knock_or_join,
  ◌>>=◌, ◌>>◌,
}
use gomatrixserverlib.Event.{
  Event, EventReference, prev_events, membership, split_id, join, ban, leave, invite, public,
}
use gomatrixserverlib.Version.{knock, restricted, knock_restricted}
use gomatrixserverlib.Version.Queries.{
  allow_knocking_in_event_auth, allow_restricted_joins_in_event_auth,
}
use gomatrixserverlib.Content.Create.{user_id_allowed}
use gomatrixserverlib.Content.Member.{MemberThirdPartyInvite, MemberThirdPartyInviteSigned}
use gomatrixserverlib.Content.PowerLevels.{PowerLevelContent, user_level}
use gomatrixserverlib.Content.ThirdPartyInvite.{PublicKey}
use gomatrixserverlib.Auth.Membership.{MembershipAllower}
use text.Mathlib.Text.{starts_with}

-- The user that authorised a restricted join is in the room, and may invite: the checks on the
-- answer of the provider.
abbrev pub authorised_via_by : PowerLevelContent → String → Result (Option Event) → Check
authorised_via_by power_levels via found = do
  elim (split_id b'@' via) [
    | ok _ ↦ ok tt
    | err _ ↦ err (not_allowed authorised_via_invalid)
    | panic ↦ panic
  ]
  other_member ← elim found [
    | ok (some e) ↦ ok e
    | ok none ↦ err (not_allowed authorised_via_missing)
    | err _ ↦ err (not_allowed authorised_via_missing)
    | panic ↦ panic
  ]
  other_membership ← elim (membership other_member) [
    | ok s ↦ ok s
    | err _ ↦ err (not_allowed authorised_via_missing)
    | panic ↦ panic
  ]
  require (other_membership == join) authorised_via_not_joined
  require (leb_ℤ power_levels.invite (user_level power_levels via)) authorised_via_level

unfoldable pub authorised_via_checks : MembershipAllower → Check
authorised_via_checks m =
    authorised_via_by m.power_levels m.new_member.authorised_via
      (m.provider.member m.new_member.authorised_via)

-- The join rule that a restricted join is judged by; the code writes it to the shared context.
unfoldable pub membership_allowed_self_for_restricted_join : MembershipAllower → Result String
unfolding authorised_via_checks
membership_allowed_self_for_restricted_join m = do
  allows_restricted ← allow_restricted_joins_in_event_auth m.room_version m.join_rule.join_rule
  require allows_restricted restricted_not_supported
  if m.old_member.membership == join
        || m.old_member.membership == invite
        || m.new_member.authorised_via == ""
      then ok invite
      else (authorised_via_checks m >> ok public)

-- `VerifyJSON` on the signed part of a third party invite, by domain, key ID and public key. It panics
-- where ed25519.Verify does, on a public key that has not 32 bytes.
abbrev pub VerifyJson : Type 0
VerifyJson = String → String → List ℕ → MemberThirdPartyInviteSigned → Check

-- The rest of a loop that returns at the first success; a panic ends it.
abbrev or_later : Check → Check → Check
or_later (ok u) later = ok tt
or_later (err e) later = later
or_later panic later = panic

unfoldable pub first_verified {ℓ} : {A : Type ℓ} → (A → Check) → List A → Check
first_verified f [] = err (not_allowed third_party_signature)
first_verified f (x ∷ xs) = or_later (f x) (first_verified f xs)

-- One key of one domain's signatures verifies.
abbrev signature_verifies :
    VerifyJson → MemberThirdPartyInviteSigned → PublicKey → String × Assoc String → Check
unfolding first_verified
signature_verifies verify_json signed key (domain, signatures) =
    first_verified
      (λ key_id.
        if starts_with key_id "ed25519"
        then verify_json domain key_id key.public_key signed
        else err (not_allowed third_party_signature))
      (keys signatures)

unfoldable pub membership_allowed_from_third_party_invite :
    VerifyJson → MembershipAllower → MemberThirdPartyInvite → Check
unfolding first_verified
membership_allowed_from_third_party_invite verify_json m i = do
  require (m.target_id == i.signed.mxid) third_party_target
  first_verified
      (λ key. first_verified (signature_verifies verify_json i.signed key) i.signed.signatures)
      m.third_party_invite.public_keys

abbrev pub knock_checks : MembershipAllower → Check
knock_checks m = do
  let rule = m.join_rule.join_rule
  require (rule == knock || rule == knock_restricted) join_rule_forbids_knock
  supported ← allow_knocking_in_event_auth m.room_version rule
  require supported version_forbids_knock

unfoldable pub self_knock : MembershipAllower → Check
self_knock m = do
  knock_checks m
  let old = m.old_member.membership
  require (not (old == join || old == invite || old == ban)) knock_from_member

-- Joining under a join rule: the rule of the context, or what a restricted join makes of it.
unfoldable pub self_join : MembershipAllower → String → Check
self_join m rule =
    let old = m.old_member.membership in
    require (old == leave && rule == public || old == invite || old == join) join_rule_forbids_join

unfoldable pub self_leave : MembershipAllower → Check
self_leave m =
    let old = m.old_member.membership in require (old == join || old == invite) cannot_leave

-- The join rule that the call leaves in the context, and its verdict.
abbrev pub Judged : Type 0
Judged = String × Check

abbrev pub judge_join : MembershipAllower → Result String → Judged
judge_join m (ok rule) = (rule, self_join m rule)
judge_join m (err e) = (m.join_rule.join_rule, err e)
judge_join m panic = (m.join_rule.join_rule, panic)

unfoldable pub membership_allowed_self : MembershipAllower → Judged
unfolding self_knock self_join self_leave
membership_allowed_self m =
    let rule = m.join_rule.join_rule in
    let old = m.old_member.membership in
    let new = m.new_member.membership in
    if old == leave && new == leave
    then (rule, ok tt)
    else if new == knock
    then (rule, self_knock m)
    else if new == join
    then judge_join m (
        if old == leave && rule == restricted
        then membership_allowed_self_for_restricted_join m
        else ok rule)
    else if new == leave
    then (rule, self_leave m)
    else if new == invite || new == ban
    then (rule, err (not_allowed self_invite_or_ban))
    else (rule, err (not_allowed unknown_membership))

unfoldable pub other_leave : MembershipAllower → Check
other_leave m =
    let sender_level = user_level m.power_levels m.sender_id in
    let target_level = user_level m.power_levels m.target_id in
    if m.old_member.membership == ban
    then require (leb_ℤ m.power_levels.ban sender_level) cannot_unban
    else require (leb_ℤ m.power_levels.kick sender_level && ltb_ℤ target_level sender_level)
        cannot_kick

unfoldable pub other_invite : MembershipAllower → Check
other_invite m =
    let may_invite = leb_ℤ m.power_levels.invite (user_level m.power_levels m.sender_id) in
    let old = m.old_member.membership in
    if old == leave && may_invite
    then ok tt
    else if old == invite && may_invite
    then ok tt
    else if old == knock && may_invite
    then knock_checks m
    else err (not_allowed cannot_invite)

unfoldable pub other_ban : MembershipAllower → Check
other_ban m =
    let sender_level = user_level m.power_levels m.sender_id in
    let target_level = user_level m.power_levels m.target_id in
    require (leb_ℤ m.power_levels.ban sender_level && ltb_ℤ target_level sender_level) cannot_ban

unfoldable pub membership_allowed_other : MembershipAllower → Check
unfolding other_leave other_invite other_ban
membership_allowed_other m =
    let new = m.new_member.membership in
    require (m.sender_member.membership == join) sender_not_in_room
    >> (if new == ban
        then other_ban m
        else if new == leave
        then other_leave m
        else if new == invite
        then other_invite m
        else if new == knock || new == join
        then err (not_allowed other_knock_or_join)
        else err (not_allowed unknown_membership))

-- There is one previous event, the one with the ID.
abbrev pub only_is : String → List EventReference → Bool
only_is id (r ∷ []) = r.event_id == id
only_is id _ = false

-- The creator joins directly after the create event.
unfoldable pub is_first_join : MembershipAllower → Event → Result Bool
is_first_join m event =
    if m.target_id == m.create.creator
      && m.new_member.membership == join
      && m.sender_id == m.target_id
    then (prev_events event >>= λ prev. ok (only_is m.create.event_id prev))
    else ok false

abbrev pub by_target : MembershipAllower → Judged
by_target m =
    if m.target_id == m.sender_id
    then membership_allowed_self m
    else (m.join_rule.join_rule, membership_allowed_other m)

abbrev pub membership_case : VerifyJson → MembershipAllower → Option MemberThirdPartyInvite → Judged
membership_case verify_json m none = by_target m
membership_case verify_json m (some i) =
    if m.new_member.membership == invite
    then (m.join_rule.join_rule, membership_allowed_from_third_party_invite verify_json m i)
    else by_target m

abbrev pub after_first_join : VerifyJson → MembershipAllower → Result Bool → Judged
after_first_join verify_json m (ok true) = (m.join_rule.join_rule, ok tt)
after_first_join verify_json m (ok false) =
    membership_case verify_json m m.new_member.third_party_invite
after_first_join verify_json m (err e) = (m.join_rule.join_rule, err e)
after_first_join verify_json m panic = (m.join_rule.join_rule, panic)

-- The checks of the room, the sender and the target come first.
abbrev pub membership_guards : MembershipAllower → Event → Result Bool
membership_guards m event = do
  require (m.create.room_id == event.room_id) wrong_room
  user_id_allowed m.create m.sender_id
  user_id_allowed m.create m.target_id
  is_first_join m event

unfoldable pub membership_allowed : VerifyJson → MembershipAllower → Event → Judged
unfolding is_first_join
membership_allowed verify_json m event = after_first_join verify_json m (membership_guards m event)
