-- ===== src/Version/Rules.antt =====
-- How the questions about a room version fit together.
use gomatrixserverlib.Prelude.{eq_iff, ◌⊎◌, ◌≡◌, ◌↔◌, true, String, arith}
use gomatrixserverlib.Result.{ok}
use gomatrixserverlib.Version.{restricted, knock_restricted}
use gomatrixserverlib.Version.Queries.{
  allow_restricted_joins_in_event_auth, may_allow_restricted_joins_in_event_auth,
}

-- A room version may allow restricted joins exactly if it allows them under the join rule
-- "restricted".
pub may_allow_restricted_joins_iff :
    (v : String)
    → (may_allow_restricted_joins_in_event_auth v ≡ ok true)
      ↔ (allow_restricted_joins_in_event_auth v restricted ≡ ok true)
unfolding may_allow_restricted_joins_in_event_auth allow_restricted_joins_in_event_auth
may_allow_restricted_joins_iff v = (λ h. ground arith, λ h. ground arith)

-- A rule that lets one join by restriction is "restricted" or "knock_restricted", and its version
-- is one that may allow restricted joins.
pub allow_restricted_joins-imp :
    (v rule : String)
    → allow_restricted_joins_in_event_auth v rule ≡ ok true
    → ((rule ≡ restricted) ⊎ (rule ≡ knock_restricted))
      × (may_allow_restricted_joins_in_event_auth v ≡ ok true)
unfolding may_allow_restricted_joins_in_event_auth allow_restricted_joins_in_event_auth
allow_restricted_joins-imp v rule h =
    ground (arith, eq_iff rule restricted, eq_iff rule knock_restricted)
