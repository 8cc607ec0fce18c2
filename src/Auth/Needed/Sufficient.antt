-- ===== src/Auth/Needed/Sufficient.antt =====
-- StateNeededForAuth of eventauth.go, and Allowed with other auth events.
use gomatrixserverlib.Prelude.{
  map, All-imp, ◌≡◌, refl, String, Bool, true, false, List, [], ◌∷◌, ◌++◌, All, All-append_left,
  All-append_right, All-map, ap,
}
use gomatrixserverlib.Result.{ok}
use gomatrixserverlib.Auth.Needed.Loaded.{loaded_same, needed_of}
use gomatrixserverlib.Auth.Needed.{state_needed_for_auth, StateNeeded, tuples, tuple, when}
use gomatrixserverlib.Event.{
  StateKeyTuple, m_room_join_rules, m_room_third_party_invite, Event, m_room_create, m_room_member,
  m_room_power_levels,
}
use gomatrixserverlib.Auth.Provider.{AuthEvents, provider_of, find_tuple}
use gomatrixserverlib.Auth.Membership.Checks.{VerifyJson}
use gomatrixserverlib.Auth.Allowed.{allowed_by}
use gomatrixserverlib.Auth.Needed.Context.{Finds, new_allower_context-loaded}
use gomatrixserverlib.Auth.Needed.Covered.{Covered}

-- Two maps of auth events that hold the same event under a key.
abbrev pub SameUnder : AuthEvents → AuthEvents → StateKeyTuple → Type 0
SameUnder x y k = find_tuple k x.events ≡ find_tuple k y.events

found-Finds : (x : AuthEvents) → Finds (provider_of x)
unfolding provider_of
found-Finds x = record {
  create = find_tuple (tuple m_room_create "") x.events;
  join_rules = find_tuple (tuple m_room_join_rules "") x.events;
  power_levels = find_tuple (tuple m_room_power_levels "") x.events;
  create_found = refl;
  join_rules_found = refl;
  power_levels_found = refl;
}

module _ (x y : AuthEvents) where
  when_same :
      (b : Bool) (k : StateKeyTuple)
      → All (SameUnder x y) (when b (k ∷ []))
      → b ≡ true
      → SameUnder x y k
  when_same true k all e = all.0
  when_same false k all e = cc

  tuples-Covered :
      (s : StateNeeded) → All (SameUnder x y) (tuples s) → Covered (provider_of x) (provider_of y) s
  unfolding tuples provider_of
  tuples-Covered s all =
      let P = SameUnder x y in
      let creates = when s.create (tuple m_room_create "" ∷ []) in
      let rules = when s.join_rules (tuple m_room_join_rules "" ∷ []) in
      let levels = when s.power_levels (tuple m_room_power_levels "" ∷ []) in
      let members = map (tuple m_room_member) s.member in
      let invites = map (tuple m_room_third_party_invite) s.third_party_invite in
      let all₁ = All-append_right P creates (rules ++ (levels ++ (members ++ invites))) all in
      let all₂ = All-append_right P rules (levels ++ (members ++ invites)) all₁ in
      let all₃ = All-append_right P levels (members ++ invites) all₂ in
      record {
        create = λ e.
            ap ok (when_same s.create (tuple m_room_create "") (All-append_left P creates _ all) e);
        join_rules = λ e. ap ok (
            when_same s.join_rules (tuple m_room_join_rules "") (All-append_left P rules _ all₁) e);
        power_levels = λ e. ap ok (
            when_same s.power_levels (tuple m_room_power_levels "")
              (All-append_left P levels _ all₂) e);
        member =
            All-imp _ _ (λ u same. ap ok same) s.member
              (All-map P (tuple m_room_member) s.member (All-append_left P members _ all₃));
        third_party_invite =
            All-imp _ _ (λ t same. ap ok same) s.third_party_invite
              (All-map P (tuple m_room_third_party_invite) s.third_party_invite
                (All-append_right P members invites all₃));
      }

-- `util.UniqueStrings` may drop duplicates, but keeps each string once at least: what holds of all
-- that it leaves holds of all that it got.
abbrev pub KeepsStrings : (List String → List String) → Type 1
KeepsStrings unique_strings =
    (P : String → Type 0) (l : List String) → All P (unique_strings l) → All P l

-- If the state needed of an event can be told without an error, and two AuthEvents hold the same
-- events under the keys that StateNeededForAuth names for it, then Allowed gives the same result
-- with either, whatever else they hold; of UniqueStrings it is used that what holds of all strings
-- that it leaves holds of all that it got.
pub allowed_by-state_needed_for_auth :
    (unique_strings : List String → List String) (verify_json : VerifyJson) (x y : AuthEvents)
    (event : Event)
    → KeepsStrings unique_strings
    → (needed_of event).1 ≡ ok tt
    → All (SameUnder x y) (tuples (state_needed_for_auth unique_strings (event ∷ [])))
    → allowed_by verify_json (provider_of x) event ≡ allowed_by verify_json (provider_of y) event
unfolding allowed_by state_needed_for_auth
allowed_by-state_needed_for_auth unique_strings verify_json x y event keeps told all =
    let p = provider_of x in
    let q = provider_of y in
    let s = (needed_of event).0 in
    let h = tuples-Covered x y (state_needed_for_auth unique_strings (event ∷ [])) all in
    let covered : Covered p q s = record {
      create = h.create;
      join_rules = h.join_rules;
      power_levels = h.power_levels;
      member = keeps (λ u. p.member u ≡ q.member u) s.member h.member;
      third_party_invite =
          keeps (λ t. p.third_party_invite t ≡ q.third_party_invite t) s.third_party_invite
            h.third_party_invite;
    } in
    rw (new_allower_context-loaded p (found-Finds x), new_allower_context-loaded q (found-Finds y))
      (loaded_same p q verify_json event told covered)
