-- ===== src/Content/Member/Membership.antt =====
-- `membershipContent` of eventauth.go, by which the state needed is chosen, against `MemberContent`, by
-- which the event is judged.
use gomatrixserverlib.Prelude.{
  subst, some_inj, Option, ◌∙◌, Bool, ap, some, none, if◌then◌else◌, ◌≡◌, refl, true, false, inl,
  inr, Bool-cases, String,
}
use gomatrixserverlib.Result.{ok_inj, ok}
use gomatrixserverlib.Event.{Event}
use gomatrixserverlib.Json.{
  null, bool, int, float, str, arr, obj, unmarshal, decode_pointer, decode_string, Json, Members,
  end, member, names, names_only, decode_members, decode_struct,
}
use gomatrixserverlib.Content.Member.{
  decode_invite, decode_member, decode_membership, new_member_content_from_event, MemberContent,
  MembershipContent, member_field, membership_content_field, zero_member, zero_membership,
}

pub record Agrees (c : MemberContent) (n : MembershipContent) : Type 0 where
  pub membership : c.membership ≡ n.membership
  pub third_party_invite : c.third_party_invite ≡ n.third_party_invite
  pub authorised_via : c.authorised_via ≡ n.authorized_via

module _ (n : MembershipContent) where
  either :
      (b : Bool) (x y : MemberContent × Bool)
      → Agrees x.0 n
      → Agrees y.0 n
      → Agrees (if b then x else y).0 n
  either true x y l r = l
  either false x y l r = r

-- A key that names none of the shared fields changes none of them.
other-Agrees :
    (k : String) (j : Json) (c : MemberContent) (n : MembershipContent)
    → names "membership" k ≡ false
    → names "third_party_invite" k ≡ false
    → names "join_authorised_via_users_server" k ≡ false
    → Agrees c n
    → Agrees (member_field k j c).0 (membership_content_field k j n).0
unfolding member_field membership_content_field
other-Agrees k j c n p t v h =
    let still : (d : MemberContent)
        → d.membership ≡ c.membership
        → d.third_party_invite ≡ c.third_party_invite
        → d.authorised_via ≡ c.authorised_via
        → Agrees d n =
      λ d e₁ e₂ e₃. record {
        membership = e₁ ∙ h.membership;
        third_party_invite = e₂ ∙ h.third_party_invite;
        authorised_via = e₃ ∙ h.authorised_via;
      } in
    rw (p, t, v)
      (either n (names "displayname" k) _ _ (still _ refl refl refl) (
        either n (names "avatar_url" k) _ _ (still _ refl refl refl) (
          either n (names "reason" k) _ _ (still _ refl refl refl)
            (either n (names "is_direct" k) _ _ (still _ refl refl refl) h))))

field-Agrees :
    (k : String) (j : Json) (c : MemberContent) (n : MembershipContent)
    → Agrees c n
    → Agrees (member_field k j c).0 (membership_content_field k j n).0
unfolding member_field membership_content_field
field-Agrees k j c n h = elim (Bool-cases (names "membership" k)) [
  | inl p ↦ rw p (record {
    membership = ap (λ m. (decode_string j m).0) h.membership;
    third_party_invite = h.third_party_invite;
    authorised_via = h.authorised_via;
  })
  | inr p ↦ elim (Bool-cases (names "third_party_invite" k)) [
    | inl t ↦
        let off = names_only "third_party_invite" in
        rw
          (
            p,
            t,
            off "displayname" k refl t,
            off "avatar_url" k refl t,
            off "reason" k refl t,
            off "is_direct" k refl t,
          )
          (record {
            membership = h.membership;
            third_party_invite = ap (λ i. (decode_invite j i).0) h.third_party_invite;
            authorised_via = h.authorised_via;
          })
    | inr t ↦ elim (Bool-cases (names "join_authorised_via_users_server" k)) [
      | inl v ↦
          let off = names_only "join_authorised_via_users_server" in
          rw
            (
              p,
              t,
              v,
              off "displayname" k refl v,
              off "avatar_url" k refl v,
              off "reason" k refl v,
              off "is_direct" k refl v,
            )
            (record {
              membership = h.membership;
              third_party_invite = h.third_party_invite;
              authorised_via = ap (λ m. (decode_string j m).0) h.authorised_via;
            })
      | inr v ↦ other-Agrees k j c n p t v h
    ]
  ]
]

members-Agrees :
    (ms : Members) (c : MemberContent) (n : MembershipContent)
    → Agrees c n
    → Agrees (decode_members member_field ms c).0 (decode_members membership_content_field ms n).0
unfolding decode_members
members-Agrees end c n h = h
members-Agrees (member k v ms) c n h = members-Agrees ms _ _ (field-Agrees k v c n h)

zero-Agrees : Agrees zero_member zero_membership
zero-Agrees = record { membership = refl; third_party_invite = refl; authorised_via = refl }

decoded-Agrees :
    (j : Json) → Agrees (decode_member j zero_member).0 (decode_membership j zero_membership).0
unfolding decode_member decode_membership decode_struct
decoded-Agrees null = zero-Agrees
decoded-Agrees (bool b) = zero-Agrees
decoded-Agrees (int n) = zero-Agrees
decoded-Agrees (float f) = zero-Agrees
decoded-Agrees (str s) = zero-Agrees
decoded-Agrees (arr vs) = zero-Agrees
decoded-Agrees (obj ms) = members-Agrees ms zero_member zero_membership zero-Agrees

pointed :
    (j : Json) (n : MembershipContent)
    → (decode_pointer zero_membership decode_membership j none).0 ≡ some n
    → (decode_membership j zero_membership).0 ≡ n
unfolding decode_pointer
pointed null n h = cc
pointed (bool b) n h = some_inj h
pointed (int i) n h = some_inj h
pointed (float f) n h = some_inj h
pointed (str s) n h = some_inj h
pointed (arr vs) n h = some_inj h
pointed (obj ms) n h = some_inj h

json-Agrees :
    (event : Event) (j : Json) (c : MemberContent)
    → new_member_content_from_event (record event { content = some j }) ≡ ok c
    → Agrees c (decode_membership j zero_membership).0
unfolding new_member_content_from_event
json-Agrees event j c judged =
    let h = decoded-Agrees j in
    elim (Bool-cases (decode_member j zero_member).1) [
      | inl fits ↦ rw⁻¹ (ok_inj (rw fits at judged)) h
      | inr fits ↦ elim (Bool-cases (decode_membership j zero_membership).1) [
        | inl partly ↦ rw⁻¹ (ok_inj (rw (fits, partly) at judged)) (record {
          membership = refl;
          third_party_invite = refl;
          authorised_via = h.authorised_via;
        })
        | inr partly ↦ (let no = rw (fits, partly) at judged in cc)
      ]
    ]

of_content-Agrees :
    (event : Event) (content : Option Json) (n : MembershipContent) (c : MemberContent)
    → (unmarshal (decode_pointer zero_membership decode_membership) content none).0 ≡ some n
    → new_member_content_from_event (record event { content = content }) ≡ ok c
    → Agrees c n
of_content-Agrees event none n c needed judged = cc
of_content-Agrees event (some j) n c needed judged =
    subst (λ x. Agrees c x) (pointed j n needed) (json-Agrees event j c judged)

-- The content that the state needed of an event is chosen by agrees with the one that the event is
-- judged by, if both can be read.
pub content-Agrees :
    (event : Event) (n : MembershipContent) (c : MemberContent)
    → (unmarshal (decode_pointer zero_membership decode_membership) event.content none).0 ≡ some n
    → new_member_content_from_event event ≡ ok c
    → Agrees c n
content-Agrees event n c needed judged = of_content-Agrees event event.content n c needed judged
