-- ===== src/Auth/Needed/Covered.antt =====
-- Two providers that agree on the state that an event needs (`accumulateStateNeeded` of eventauth.go).
use gomatrixserverlib.Prelude.{
  subst, ap, sym, ◌∙◌, some_inj, ◌⊎◌, ◌≡◌, ◌≢◌, refl, String, arith, true, false, Bool-cases, inl,
  inr, ◌==◌, ◌||◌, Option, none, some, List, [], ◌∷◌, ◌++◌, All, All-append_left, All-append_right,
  eq_iff,
}
use gomatrixserverlib.Result.{ok_inj, Result, ok, err, panic}
use gomatrixserverlib.Content.Member.{
  token_result, MemberThirdPartyInvite, third_party_invite_token,
}
use gomatrixserverlib.Auth.Needed.{
  with_token, StateNeeded, with_join_rules, with_authorized_via, with_invite,
}
use gomatrixserverlib.Event.{join, invite}
use gomatrixserverlib.Version.{knock}
use gomatrixserverlib.Auth.Provider.{AuthEventProvider}

pub record Covered (p q : AuthEventProvider) (s : StateNeeded) : Type 0 where
  pub create : s.create ≡ true → p.create ≡ q.create
  pub join_rules : s.join_rules ≡ true → p.join_rules ≡ q.join_rules
  pub power_levels : s.power_levels ≡ true → p.power_levels ≡ q.power_levels
  pub member : All (λ user. p.member user ≡ q.member user) s.member
  pub third_party_invite :
      All (λ token. p.third_party_invite token ≡ q.third_party_invite token) s.third_party_invite

module _ (p q : AuthEventProvider) where
  abbrev SameMember : String → Type 0
  SameMember user = p.member user ≡ q.member user

  abbrev SameInvite : String → Type 0
  SameInvite token = p.third_party_invite token ≡ q.third_party_invite token

  fewer_members :
      (s : StateNeeded) (users : List String)
      → Covered p q (record s { member = s.member ++ users })
      → Covered p q s
  fewer_members s users h = record {
    create = h.create;
    join_rules = h.join_rules;
    power_levels = h.power_levels;
    member = All-append_left SameMember s.member users h.member;
    third_party_invite = h.third_party_invite;
  }

  pub authorized-Covered :
      (s : StateNeeded) (via : String)
      → Covered p q (with_authorized_via s via)
      → Covered p q s × (via ≢ "" → SameMember via)
  authorized-Covered s via h = elim (Bool-cases (via == "")) [
    | inl e ↦ (rw e at h, λ named. absurd (named ((eq_iff via "").0 e)))
    | inr e ↦
        let more = rw e at h in
        (
          fewer_members s (via ∷ []) more,
          λ named. (All-append_right SameMember s.member (via ∷ []) more.member).0,
        )
  ]

  pub join_rules-Covered :
      (s : StateNeeded) (membership : String)
      → Covered p q (with_join_rules s membership)
      → Covered p q (record s { join_rules = false })
        × ((membership ≡ join) ⊎ (membership ≡ knock) ⊎ (membership ≡ invite)
            → p.join_rules ≡ q.join_rules)
  join_rules-Covered s membership h =
      let asks = membership == join || membership == knock || membership == invite in
      let off : Covered p q (record s { join_rules = false }) = record {
        create = λ e. h.create (ground (e, arith));
        join_rules = λ e. cc;
        power_levels = λ e. h.power_levels (ground (e, arith));
        member = elim (Bool-cases asks) [ inl c ↦ (rw c at h).member | inr c ↦ (rw c at h).member ];
        third_party_invite = elim (Bool-cases asks) [
          | inl c ↦ (rw c at h).third_party_invite
          | inr c ↦ (rw c at h).third_party_invite
        ];
      } in
      (
        off,
        λ asked. h.join_rules (
            ground (
              arith,
              asked,
              eq_iff membership join,
              eq_iff membership knock,
              eq_iff membership invite,
            )),
      )

  token-Covered :
      (s : StateNeeded) (via : String) (r : Result String)
      → (with_token s via r).1 ≡ ok tt
      → Covered p q (with_token s via r).0
      → Covered p q s
        × (via ≢ "" → SameMember via)
        × ((token : String) × (r ≡ ok token) × SameInvite token)
  token-Covered s via (ok token) fine h =
      let more : StateNeeded = record s {
        third_party_invite = s.third_party_invite ++ token ∷ [];
      } in
      let (h₁, named) = authorized-Covered more via h in
      (
        record {
          create = h₁.create;
          join_rules = h₁.join_rules;
          power_levels = h₁.power_levels;
          member = h₁.member;
          third_party_invite =
              All-append_left SameInvite s.third_party_invite (token ∷ []) h₁.third_party_invite;
        },
        named,
        (
          token,
          refl,
          (All-append_right SameInvite s.third_party_invite (token ∷ []) h₁.third_party_invite).0,
        ),
      )
  token-Covered s via (err e) fine h = cc
  token-Covered s via panic fine h = cc

  token_same : (s : String) {t : String} → token_result s ≡ ok t → t ≡ s
  token_same String.[] h = cc
  token_same (String.◌∷◌ c s) h = sym (ok_inj h)

  pub invite-Covered :
      (s : StateNeeded) (o : Option MemberThirdPartyInvite) (via : String)
      → (with_invite s o via).1 ≡ ok tt
      → Covered p q (with_invite s o via).0
      → Covered p q s
        × (via ≢ "" → SameMember via)
        × ((i : MemberThirdPartyInvite) → o ≡ some i → SameInvite i.signed.token)
  unfolding third_party_invite_token
  invite-Covered s none via fine h =
      let (h₁, named) = authorized-Covered s via h in (h₁, named, λ i e. cc)
  invite-Covered s (some i) via fine h =
      let (h₁, named, (token, loaded, same)) =
        token-Covered s via (third_party_invite_token i) fine h in
      (
        h₁,
        named,
        λ k e.
            subst (λ t. SameInvite t)
              (token_same i.signed.token loaded ∙ ap (λ x. x.signed.token) (some_inj e)) same,
      )
