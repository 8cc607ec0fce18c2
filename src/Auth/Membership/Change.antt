-- ===== src/Auth/Membership/Change.antt =====
-- membershipAllowed of eventauth.go: every way in which a membership event is accepted.
use gomatrixserverlib.Prelude.{
  ◌≡◌, ◌≢◌, ◌↔◌, ◌⊎◌, ◌∙◌, inl, inr, refl, ap, arith, Bool, true, false, Bool-cases, ◌&&◌,
  ne_of_false, eq_false, Option, none, some, List, [], ◌∷◌, ◌==◌, eq_iff,
}
use gomatrixserverlib.Result.{
  Result, ok, err, panic, require, wrong_room, >>=-eq-ok, ok->>=, ok_inj,
}
use gomatrixserverlib.Event.{Event, EventReference, prev_events, join, invite}
use gomatrixserverlib.Content.Create.{user_id_allowed}
use gomatrixserverlib.Content.Member.{MemberThirdPartyInvite}
use gomatrixserverlib.Auth.Membership.{MembershipAllower}
use gomatrixserverlib.Auth.Membership.Checks.{
  VerifyJson, membership_allowed_from_third_party_invite, only_is, is_first_join, by_target,
  membership_case, after_first_join, membership_guards, membership_allowed,
}
use gomatrixserverlib.Auth.Membership.Self.{SelfChange, membership_allowed_self_iff}
use gomatrixserverlib.Auth.Membership.Other.{OtherChange, membership_allowed_other_iff}

module _ (m : MembershipAllower) (event : Event) where
  -- The creator's own join.
  abbrev pub IsCreatorsJoin : Type 0
  IsCreatorsJoin =
      (m.target_id ≡ m.create.creator)
      × (m.new_member.membership ≡ join)
      × (m.sender_id ≡ m.target_id)

  -- The creator's join directly after the create event.
  abbrev pub IsFirstJoin : Type 0
  IsFirstJoin =
      IsCreatorsJoin
      × ((r : EventReference) × (prev_events event ≡ ok (r ∷ []))
          × (r.event_id ≡ m.create.event_id))

  -- The previous events can be told where the code asks for them.
  abbrev pub IsReadable : Type 0
  IsReadable = IsCreatorsJoin → (prev : List EventReference) × (prev_events event ≡ ok prev)

  -- The room, the sender and the target pass the checks that come first.
  abbrev pub PassesGuards : Type 0
  PassesGuards =
      (m.create.room_id ≡ event.room_id)
      × (user_id_allowed m.create m.sender_id ≡ ok tt)
      × (user_id_allowed m.create m.target_id ≡ ok tt)

  only_is-facts :
      (prev : List EventReference)
      → only_is m.create.event_id prev ≡ true
      → (r : EventReference) × (prev ≡ r ∷ []) × (r.event_id ≡ m.create.event_id)
  only_is-facts [] h = cc h
  only_is-facts (r ∷ []) h = (r, refl, (eq_iff r.event_id m.create.event_id).0 h)
  only_is-facts (r ∷ s ∷ rest) h = cc h

  creators_join : Bool
  creators_join =
      m.target_id == m.create.creator
      && m.new_member.membership == join
      && m.sender_id == m.target_id

  creators_join_iff : (creators_join ≡ true) ↔ IsCreatorsJoin
  unfolding creators_join
  creators_join_iff = ground (
    arith,
    eq_iff m.target_id m.create.creator,
    eq_iff m.new_member.membership join,
    eq_iff m.sender_id m.target_id,
  )

  is_first_join-IsFirstJoin : is_first_join m event ≡ ok true → IsFirstJoin
  unfolding is_first_join creators_join
  is_first_join-IsFirstJoin h = elim (Bool-cases creators_join) [
    | inl b ↦
        let (prev, p, only) =
          >>=-eq-ok (prev_events event) (λ prev. ok (only_is m.create.event_id prev)) (rw b at h) in
        let (r, one, id) = only_is-facts prev (ok_inj only) in
        (creators_join_iff.0 b, (r, p ∙ ap ok one, id))
    | inr b ↦ cc (rw b at h)
  ]

  is_first_join-IsReadable : (first : Bool) → is_first_join m event ≡ ok first → IsReadable
  unfolding is_first_join creators_join
  is_first_join-IsReadable first h c =
      let (prev, p, only) =
        >>=-eq-ok (prev_events event) (λ prev. ok (only_is m.create.event_id prev))
          (rw (creators_join_iff.1 c) at h) in
      (prev, p)

  IsFirstJoin-is_first_join : IsFirstJoin → is_first_join m event ≡ ok true
  unfolding is_first_join creators_join
  IsFirstJoin-is_first_join (c, (r, p, id)) =
      rw (creators_join_iff.1 c, p, (eq_iff r.event_id m.create.event_id).1 id)

  IsReadable-is_first_join : IsReadable → (first : Bool) × (is_first_join m event ≡ ok first)
  unfolding is_first_join creators_join
  IsReadable-is_first_join readable = elim (Bool-cases creators_join) [
    | inl b ↦
        let (prev, p) = readable (creators_join_iff.0 b) in
        rw b
          (only_is m.create.event_id prev, ok->>= p (λ prev. ok (only_is m.create.event_id prev)))
    | inr b ↦ rw b (false, refl)
  ]

module _ (verify_json : VerifyJson) (m : MembershipAllower) where
  -- An invite that carries a third party invite is judged by that alone.
  abbrev pub IsOrdinary : Type 0
  IsOrdinary = (m.new_member.membership ≢ invite) ⊎ (m.new_member.third_party_invite ≡ none)

  -- The changes that are accepted apart from the creator's first join.
  pub data MembershipChange : Type 0 where
    invited_by_third_party :
        (i : MemberThirdPartyInvite)
        → m.new_member.membership ≡ invite
        → m.new_member.third_party_invite ≡ some i
        → membership_allowed_from_third_party_invite verify_json m i ≡ ok tt
        → MembershipChange
    own : IsOrdinary → m.target_id ≡ m.sender_id → SelfChange m → MembershipChange
    of_other :
        IsOrdinary
        → m.target_id ≢ m.sender_id
        → m.sender_member.membership ≡ join
        → OtherChange m
        → MembershipChange

  by_target-MembershipChange : IsOrdinary → (by_target m).1 ≡ ok tt → MembershipChange
  by_target-MembershipChange plain h = elim (Bool-cases (m.target_id == m.sender_id)) [
    | inl b ↦
        own plain ((eq_iff m.target_id m.sender_id).0 b)
          ((membership_allowed_self_iff m).0 (rw b at h))
    | inr b ↦
        let (j, c) = (membership_allowed_other_iff m).0 (rw b at h) in
        of_other plain (ne_of_false m.target_id m.sender_id b) j c
  ]

  case-MembershipChange :
      (i : Option MemberThirdPartyInvite)
      → m.new_member.third_party_invite ≡ i
      → (membership_case verify_json m i).1 ≡ ok tt
      → MembershipChange
  case-MembershipChange none is h = by_target-MembershipChange (inr is) h
  case-MembershipChange (some i) is h = elim (Bool-cases (m.new_member.membership == invite)) [
    | inl b ↦ invited_by_third_party i ((eq_iff m.new_member.membership invite).0 b) is (rw b at h)
    | inr b ↦
        by_target-MembershipChange (inl (ne_of_false m.new_member.membership invite b)) (rw b at h)
  ]

  plain_case :
      (i : Option MemberThirdPartyInvite)
      → m.new_member.third_party_invite ≡ i
      → IsOrdinary
      → membership_case verify_json m i ≡ by_target m
  plain_case none is plain = refl
  plain_case (some i) is (inl other) = rw (eq_false m.new_member.membership invite other)
  plain_case (some i) is (inr absent) = cc (is, absent)

  MembershipChange-case :
      MembershipChange → (membership_case verify_json m m.new_member.third_party_invite).1 ≡ ok tt
  unfolding membership_allowed_from_third_party_invite
  MembershipChange-case (invited_by_third_party i n is h) = rw (is, n) h
  MembershipChange-case (own plain same c) =
      ap (λ j. j.1) (plain_case m.new_member.third_party_invite refl plain)
      ∙ rw ((eq_iff m.target_id m.sender_id).1 same) ((membership_allowed_self_iff m).1 c)
  MembershipChange-case (of_other plain other j c) =
      ap (λ j. j.1) (plain_case m.new_member.third_party_invite refl plain)
      ∙ rw (eq_false m.target_id m.sender_id other) ((membership_allowed_other_iff m).1 (j, c))

  guards-facts :
      (event : Event) (first : Bool)
      → membership_guards m event ≡ ok first
      → PassesGuards m event × (is_first_join m event ≡ ok first)
  guards-facts event first h =
      let (u, room, h₁) = >>=-eq-ok (require (m.create.room_id == event.room_id) wrong_room) _ h in
      let (v, sender, h₂) = >>=-eq-ok (user_id_allowed m.create m.sender_id) _ h₁ in
      let (w, target, h₃) = >>=-eq-ok (user_id_allowed m.create m.target_id) _ h₂ in
      ((ground (arith, room, eq_iff m.create.room_id event.room_id), sender, target), h₃)

  facts-guards :
      (event : Event) (first : Bool)
      → PassesGuards m event
      → is_first_join m event ≡ ok first
      → membership_guards m event ≡ ok first
  facts-guards event first (room, sender, target) h =
      rw ((eq_iff m.create.room_id event.room_id).1 room) (ok->>= sender _ ∙ ok->>= target _ ∙ h)

  judged :
      (event : Event) (first : Result Bool)
      → membership_guards m event ≡ first
      → (after_first_join verify_json m first).1 ≡ ok tt
      → PassesGuards m event × IsReadable m event × (IsFirstJoin m event ⊎ MembershipChange)
  judged event (ok true) is h =
      let (guards, first) = guards-facts event true is in
      (
        guards,
        is_first_join-IsReadable m event true first,
        inl (is_first_join-IsFirstJoin m event first),
      )
  judged event (ok false) is h =
      let (guards, first) = guards-facts event false is in
      (
        guards,
        is_first_join-IsReadable m event false first,
        inr (case-MembershipChange m.new_member.third_party_invite refl h),
      )
  judged event (err e) is h = cc h
  judged event panic is h = cc h

  passed :
      (event : Event) (first : Bool)
      → membership_guards m event ≡ ok first
      → MembershipChange
      → (after_first_join verify_json m (ok first)).1 ≡ ok tt
  passed event true is c = refl
  passed event false is c = MembershipChange-case c

  -- A membership event is accepted exactly if it is of the room of the create event and its sender and
  -- target may take part in that room, the previous events can be told where they are asked for, and it
  -- is the creator's join directly after the create event or a change that MembershipChange lists: an
  -- invite whose third party invite verifies, or else one's own change that SelfChange lists, or that
  -- of another user, by a sender in the room, that OtherChange lists.
  pub membership_allowed_iff :
      (event : Event)
      → ((membership_allowed verify_json m event).1 ≡ ok tt)
        ↔ (PassesGuards m event × IsReadable m event × (IsFirstJoin m event ⊎ MembershipChange))
  unfolding membership_allowed
  membership_allowed_iff event = (
    λ h. judged event (membership_guards m event) refl h,
    λ (guards, readable, why). elim why [
      | inl f ↦
          let is = facts-guards event true guards (IsFirstJoin-is_first_join m event f) in
          ap (λ g. (after_first_join verify_json m g).1) is
      | inr c ↦
          let (first, is_first) = IsReadable-is_first_join m event readable in
          let is = facts-guards event first guards is_first in
          ap (λ g. (after_first_join verify_json m g).1) is ∙ passed event first is c
    ],
  )
