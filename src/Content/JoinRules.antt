-- ===== src/Content/JoinRules.antt =====
-- `JoinRuleContent` of eventcontent.go.
use gomatrixserverlib.Prelude.{true, none, some, List, [], String, if◌then◌else◌}
use gomatrixserverlib.Result.{ok, err, panic, Check, not_allowed, unparsable_join_rules}
use gomatrixserverlib.Json.{
  Decoder, names, decode_string, decode_slice, decode_struct, into, unmarshal,
}
use gomatrixserverlib.Event.{invite}
use gomatrixserverlib.Auth.Provider.{AuthEventProvider}

pub record JoinRuleContentAllowRule : Type 0 where
  pub rule_type : String
  pub room_id : String

pub record JoinRuleContent : Type 0 where
  pub join_rule : String
  pub allow : List JoinRuleContentAllowRule

allow_field : String → Decoder JoinRuleContentAllowRule
unfolding names decode_string
allow_field k j c =
    if names "type" k
    then into decode_string j c.rule_type (λ v. record c { rule_type = v })
    else if names "room_id" k
    then into decode_string j c.room_id (λ v. record c { room_id = v })
    else (c, true)

abbrev zero_rule : JoinRuleContentAllowRule
zero_rule = record { rule_type = ""; room_id = "" }

unfoldable pub join_rule_field : String → Decoder JoinRuleContent
unfolding names decode_string decode_slice decode_struct allow_field
join_rule_field k j c =
    if names "join_rule" k
    then into decode_string j c.join_rule (λ v. record c { join_rule = v })
    else if names "allow" k
    then into (decode_slice zero_rule (decode_struct allow_field)) j c.allow
        (λ v. record c { allow = v })
    else (c, true)

-- "invite" until the content says otherwise.
abbrev pub default_join_rule : JoinRuleContent
default_join_rule = record { join_rule = invite; allow = [] }

unfoldable pub new_join_rule_content_from_auth_events : AuthEventProvider → JoinRuleContent × Check
unfolding decode_struct join_rule_field
new_join_rule_content_from_auth_events auth_events = elim auth_events.join_rules [
  | ok none ↦ (default_join_rule, ok tt)
  | ok (some join_rules_event) ↦
      (let (c, fits) =
          unmarshal (decode_struct join_rule_field) join_rules_event.content default_join_rule in
        (c, if fits then ok tt else err (not_allowed unparsable_join_rules)))
  | err e ↦ (default_join_rule, err e)
  | panic ↦ (default_join_rule, panic)
]
