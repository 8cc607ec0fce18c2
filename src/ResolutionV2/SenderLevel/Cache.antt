-- ===== src/ResolutionV2/SenderLevel/Cache.antt =====
-- The cache of getPowerLevelFromAuthEvents against reading the contents anew.
use gomatrixserverlib.Prelude.{
  some_inj, Bool, Bool-cases, inl, inr, ◌==◌, ap, sym, ◌∙◌, Option, none, some, List, [], ◌∷◌,
  String, Assoc, lookup, insert, lookup-insert, ◌≡◌, refl, eq_iff, true, false,
}
use gomatrixserverlib.Prelude.Int.{ℤ, pos}
use gomatrixserverlib.Result.{Result, ok, err, panic, Check}
use gomatrixserverlib.ResolutionV2.SenderLevel.{
  visit_event, Contents, is_power_levels, level_by_ids, get_power_level_from_auth_events,
  wrap_power_level_events_for_sort, cons_result, wrapped, visit, with_content, after_parsing,
}
use gomatrixserverlib.Event.{Event, auth_event_ids}
use gomatrixserverlib.Content.PowerLevels.{
  PowerLevelContent, user_level, new_power_level_content_from_event,
}
use gomatrixserverlib.ResolutionV2.Order.{ConflictedPowerLevel}

-- The level without a cache: of the first power levels event among the auth events, or 0.
abbrev level_from : String → PowerLevelContent × Check → Result ℤ
level_from user (content, ok _) = ok (user_level content user)
level_from user (content, err _) = ok (pos 0)
level_from user (content, panic) = panic

abbrev level_if : String → Event → Result ℤ → Result Bool → Result ℤ
level_if user e rest (ok true) = level_from user (new_power_level_content_from_event e)
level_if user e rest (ok false) = rest
level_if user e rest (err error) = err error
level_if user e rest panic = panic

abbrev level_at : String → Option Event → Result ℤ → Result ℤ
level_at user none rest = rest
level_at user (some e) rest = level_if user e rest (is_power_levels e)

unfoldable pub first_level : Assoc Event → String → List String → Result ℤ
first_level auth_event_map user [] = ok (pos 0)
first_level auth_event_map user (id ∷ ids) =
    level_at user (lookup id auth_event_map) (first_level auth_event_map user ids)

unfoldable pub sender_level : Assoc Event → Event → Result ℤ
unfolding first_level
sender_level auth_event_map event = first_level auth_event_map event.sender (auth_event_ids event)

unfoldable pub wrap_without_cache : Assoc Event → List Event → Result (List ConflictedPowerLevel)
wrap_without_cache auth_event_map [] = ok []
wrap_without_cache auth_event_map (event ∷ events) =
    cons_result (wrapped event (sender_level auth_event_map event))
      (wrap_without_cache auth_event_map events)

-- Each content in the cache is what the event of its ID reads as.
abbrev pub IsSound : Assoc Event → Contents → Type 0
IsSound auth_event_map contents =
    (id : String) (content : PowerLevelContent)
    → lookup id contents ≡ some content
    → (e : Event) × (lookup id auth_event_map ≡ some e)
      × (new_power_level_content_from_event e ≡ (content, ok tt))

module _ (auth_event_map : Assoc Event) where
  IsSound-insert :
      (contents : Contents) (id : String) (e : Event) (content : PowerLevelContent)
      → lookup id auth_event_map ≡ some e
      → new_power_level_content_from_event e ≡ (content, ok tt)
      → IsSound auth_event_map contents
      → IsSound auth_event_map (insert id content contents)
  IsSound-insert contents id e content found read sound other c h =
      let h₁ = rw (lookup-insert id other content contents) at h in
      elim (Bool-cases (id == other)) [
        | inl p ↦
            let same : id ≡ other = (eq_iff id other).0 p in
            let now : content ≡ c = some_inj (rw p at h₁) in
            (e, rw same at found, read ∙ ap (λ x. (x, ok tt)) now)
        | inr p ↦ sound other c (rw p at h₁)
      ]

  -- The cache and the level after a step, against the level without a cache.
  abbrev Right : Contents × Result ℤ → Result ℤ → Type 0
  Right (contents, level) expected = IsSound auth_event_map contents × (level ≡ expected)

  parsing-Right :
      (contents : Contents) (id user : String) (e : Event) (p : PowerLevelContent × Check)
      → lookup id auth_event_map ≡ some e
      → new_power_level_content_from_event e ≡ p
      → IsSound auth_event_map contents
      → Right (after_parsing contents id user p) (level_from user p)
  parsing-Right contents id user e (content, ok u) found read sound =
      (IsSound-insert contents id e content found read sound, refl)
  parsing-Right contents id user e (content, err error) found read sound = (sound, refl)
  parsing-Right contents id user e (content, panic) found read sound = (sound, refl)

  content-Right :
      (contents : Contents) (id user : String) (e : Event) (cached : Option PowerLevelContent)
      → lookup id auth_event_map ≡ some e
      → lookup id contents ≡ cached
      → IsSound auth_event_map contents
      → Right
          (with_content contents id user e cached)
          (level_from user (new_power_level_content_from_event e))
  content-Right contents id user e none found missing sound =
      parsing-Right contents id user e (new_power_level_content_from_event e) found refl sound
  content-Right contents id user e (some content) found hit sound =
      let (e₁, found₁, read) = sound id content hit in
      let same : e₁ ≡ e = some_inj (sym found₁ ∙ found) in (sound, rw (rw same at read) refl)

  event-Right :
      (contents : Contents) (id user : String) (e : Event) (rest : Contents × Result ℤ)
      (expected : Result ℤ) (b : Result Bool)
      → lookup id auth_event_map ≡ some e
      → IsSound auth_event_map contents
      → Right rest expected
      → Right (visit_event contents id user e rest b) (level_if user e expected b)
  event-Right contents id user e rest expected (ok true) found sound right =
      content-Right contents id user e (lookup id contents) found refl sound
  event-Right contents id user e rest expected (ok false) found sound right = right
  event-Right contents id user e rest expected (err error) found sound right = (sound, refl)
  event-Right contents id user e rest expected panic found sound right = (sound, refl)

  visit-Right :
      (contents : Contents) (id user : String) (o : Option Event) (rest : Contents × Result ℤ)
      (expected : Result ℤ)
      → lookup id auth_event_map ≡ o
      → IsSound auth_event_map contents
      → Right rest expected
      → Right (visit contents id user o rest) (level_at user o expected)
  visit-Right contents id user none rest expected found sound right = right
  visit-Right contents id user (some e) rest expected found sound right =
      event-Right contents id user e rest expected (is_power_levels e) found sound right

  level_by_ids-Right :
      (user : String) (ids : List String) (contents : Contents)
      → IsSound auth_event_map contents
      → Right (level_by_ids auth_event_map user ids contents) (first_level auth_event_map user ids)
  unfolding level_by_ids first_level
  level_by_ids-Right user [] contents sound = (sound, refl)
  level_by_ids-Right user (id ∷ ids) contents sound =
      visit-Right contents id user (lookup id auth_event_map) _ _ refl sound
        (level_by_ids-Right user ids contents sound)

  -- Wrapping events for the sort with a cache of contents in which each is what the event of its ID
  -- reads as gives what wrapping them without a cache gives, and leaves such a cache.
  pub wrap_power_level_events_for_sort-wrap_without_cache :
      (events : List Event) (contents : Contents)
      → IsSound auth_event_map contents
      → IsSound auth_event_map (wrap_power_level_events_for_sort auth_event_map contents events).0
        × ((wrap_power_level_events_for_sort auth_event_map contents events).1
            ≡ wrap_without_cache auth_event_map events)
  unfolding wrap_power_level_events_for_sort wrap_without_cache get_power_level_from_auth_events
      sender_level
  wrap_power_level_events_for_sort-wrap_without_cache [] contents sound = (sound, refl)
  wrap_power_level_events_for_sort-wrap_without_cache (event ∷ events) contents sound =
      let (after, level) = level_by_ids-Right event.sender (auth_event_ids event) contents sound in
      let (last, rest) = wrap_power_level_events_for_sort-wrap_without_cache events _ after in
      (last, λ i. cons_result (wrapped event (level i)) (rest i))
