-- ===== src/Auth/Needed/Swap.antt =====
-- The checks of eventauth.go under another provider that answers alike where they ask it.
use gomatrixserverlib.Prelude.{◌≡◌, refl, String}
use gomatrixserverlib.Result.{Result, ok, err, panic, Check, ◌>>=◌}
use gomatrixserverlib.Event.{Event}
use gomatrixserverlib.Content.Member.{MemberContent, new_member_content_from_auth_events}
use gomatrixserverlib.Content.JoinRules.{JoinRuleContent}
use gomatrixserverlib.Auth.Provider.{AuthEventProvider}
use gomatrixserverlib.Auth.Context.{AllowerContext, EventAllower, new_event_allower, common_checks}
use gomatrixserverlib.Auth.Events.{
  alias_event_allowed, power_levels_event_allowed, power_levels_checks, redact_event_allowed,
  redact_domain_or_level, default_event_allowed,
}

-- The context with another provider and another join rule.
abbrev pub swap : AllowerContext → AuthEventProvider → JoinRuleContent → AllowerContext
swap a q rule = record a { provider = q; join_rule = rule }

pub member_alike :
    (p q : AuthEventProvider) (user : String)
    → p.member user ≡ q.member user
    → new_member_content_from_auth_events p user ≡ new_member_content_from_auth_events q user
unfolding new_member_content_from_auth_events
member_alike p q user h = rw h refl

abbrev with_member : AllowerContext → MemberContent → EventAllower
with_member a m = record { allower_context = a; member = m }

chain :
    (x : Result MemberContent) (a b : AllowerContext) (f g : EventAllower → Check)
    → ((m : MemberContent) → f (with_member a m) ≡ g (with_member b m))
    → (x >>= λ m. ok (with_member a m)) >>= f ≡ (x >>= λ m. ok (with_member b m)) >>= g
chain (ok m) a b f g h = h m
chain (err e) a b f g h = refl
chain panic a b f g h = refl

module _ (a : AllowerContext) (q : AuthEventProvider) (rule : JoinRuleContent) (event : Event) where
  pub alias_swap : alias_event_allowed a event ≡ alias_event_allowed (swap a q rule) event
  unfolding alias_event_allowed
  alias_swap = refl

  module _ (h : a.provider.member event.sender ≡ q.member event.sender) where
    pub default_swap : default_event_allowed a event ≡ default_event_allowed (swap a q rule) event
    unfolding default_event_allowed new_event_allower common_checks
    default_swap = rw (member_alike a.provider q event.sender h) (
        chain (new_member_content_from_auth_events q event.sender) a (swap a q rule)
          (λ e. common_checks e event) (λ e. common_checks e event) (λ m. refl))

    pub redact_swap : redact_event_allowed a event ≡ redact_event_allowed (swap a q rule) event
    unfolding redact_event_allowed new_event_allower common_checks redact_domain_or_level
    redact_swap = rw (member_alike a.provider q event.sender h) (
        chain (new_member_content_from_auth_events q event.sender) a (swap a q rule) _ _
          (λ m. refl))

    pub power_levels_swap :
        power_levels_event_allowed a event ≡ power_levels_event_allowed (swap a q rule) event
    unfolding power_levels_event_allowed new_event_allower common_checks power_levels_checks
    power_levels_swap = rw (member_alike a.provider q event.sender h) (
        chain (new_member_content_from_auth_events q event.sender) a (swap a q rule)
          (power_levels_checks a event) (power_levels_checks (swap a q rule) event) (λ m. refl))
