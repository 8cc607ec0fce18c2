-- ===== src/AuthChain/Retry.antt =====
-- checkAllowedByAuthEvents of federationtypes.go: whether the loop behind its label ends.
use gomatrixserverlib.Prelude.{
  ℕ, zero, suc, ◌≡◌, refl, sym, ◌∙◌, subst, inl, inr, Bool, true, false, Bool-cases, Option, none,
  some, List, [], ◌∷◌, String, ◌==◌, if◌then◌else◌, lookup, insert, lookup-insert, any, All,
  eq_refl,
}
use gomatrixserverlib.Prelude.Entries.{IsThere}
use gomatrixserverlib.Result.{Result, ok, err, panic, Check}
use gomatrixserverlib.Event.{Event, auth_event_ids}
use gomatrixserverlib.Auth.Provider.{AuthEvents, add_event, provider_of}
use gomatrixserverlib.Auth.Membership.Checks.{VerifyJson}
use gomatrixserverlib.Auth.Allowed.{allowed_by}
use gomatrixserverlib.AuthChain.{
  EventMap, AuthChainProvider, Run, and_then, Fetched, noted, store_events, after_answer,
  with_entry, fetch_event, fetch_events, no_auth_events, concluded, check_allowed_by_auth_events,
}

abbrev pub has_event_id : String → Event → Bool
has_event_id id e = e.event_id == id

-- An answer that has the event that was asked for, or no event.
abbrev pub answers : String → Result (List Event) → Bool
answers id (ok []) = true
answers id (ok (e ∷ events)) = any (has_event_id id) (e ∷ events)
answers id (err _) = true
answers id panic = true

lookup-noted :
    (id : String) (e : Event) (by_id : EventMap) (r : AuthEvents × Result (Unit {0}))
    → (x : Option Event) × (lookup id (noted e by_id r).1
        ≡ (if e.event_id == id then some x else lookup id by_id))
lookup-noted id e by_id (after, ok _) = (some e, lookup-insert e.event_id id (some e) by_id)
lookup-noted id e by_id (after, err _) = (none, lookup-insert e.event_id id none by_id)
lookup-noted id e by_id (after, panic) = (none, lookup-insert e.event_id id none by_id)

-- An event that is stored has an entry, and entries stay.
stored-IsThere :
    (id : String) (events : List Event) (s : Fetched) (there : Bool)
    → any (has_event_id id) events ≡ there
    → (there ≡ false → IsThere (lookup id s.1))
    → IsThere (lookup id (store_events events s).1)
unfolding store_events
stored-IsThere id [] s there h before = before (sym h)
stored-IsThere id (e ∷ events) s there h before =
    let (x, now) = lookup-noted id e s.1 (add_event s.0 e) in
    elim (Bool-cases (e.event_id == id)) [
      | inl b ↦
          stored-IsThere id events (noted e s.1 (add_event s.0 e)) (any (has_event_id id) events)
            refl (λ _. rw (now, b) tt)
      | inr b ↦
          stored-IsThere id events (noted e s.1 (add_event s.0 e)) there (rw b at h)
            (λ no. rw (now, b) (before no))
    ]

-- A stored event that was not asked for leaves the entry of the one that was.
stored-lookup :
    (id : String) (events : List Event) (s : Fetched)
    → any (has_event_id id) events ≡ false
    → lookup id (store_events events s).1 ≡ lookup id s.1
unfolding store_events
stored-lookup id [] s h = refl
stored-lookup id (e ∷ events) s h = elim (Bool-cases (e.event_id == id)) [
  | inl b ↦ cc (h, b)
  | inr b ↦
      let (x, now) = lookup-noted id e s.1 (add_event s.0 e) in
      stored-lookup id events (noted e s.1 (add_event s.0 e)) (rw b at h) ∙ now ∙ rw b refl
]

abbrev Ends : {A : Type 0} → Run A → Type 0
Ends {A = A} r = (result : Result A) × (r ≡ some result)

there-Ends :
    (fuel : ℕ) (f : AuthChainProvider) (version id : String) (s : Fetched)
    (o : Option (Option Event))
    → lookup id s.1 ≡ o
    → IsThere o
    → Ends (fetch_event (suc fuel) (some f) version id s)
unfolding fetch_event
there-Ends fuel f version id s none h t = absurd t
there-Ends fuel f version id s (some event) h t = (with_entry s event, rw h refl)

answered-Ends :
    (fuel : ℕ) (f : AuthChainProvider) (version id : String) (s : Fetched) (r : Result (List Event))
    → answers id r ≡ true
    → Ends (and_then (some (after_answer id s r)) (fetch_event (suc fuel) (some f) version id))
unfolding fetch_event
answered-Ends fuel f version id s (ok []) h =
    there-Ends fuel f version id (s.0, insert id none s.1) (some none)
      (lookup-insert id id none s.1 ∙ rw (eq_refl id) refl) tt
answered-Ends fuel f version id s (ok (e ∷ events)) h =
    there-Ends fuel f version id (store_events (e ∷ events) s)
      (lookup id (store_events (e ∷ events) s).1) refl
      (stored-IsThere id (e ∷ events) s true h (λ no. cc))
answered-Ends fuel f version id s (err _) h =
    there-Ends fuel f version id (s.0, insert id none s.1) (some none)
      (lookup-insert id id none s.1 ∙ rw (eq_refl id) refl) tt
answered-Ends fuel f version id s panic h = (panic, refl)

concluded-Ends : (by_id : EventMap) (verdict : Check) → Ends (concluded by_id verdict)
concluded-Ends by_id (ok u) = (ok by_id, refl)
concluded-Ends by_id (err e) = (err e, refl)
concluded-Ends by_id panic = (panic, refl)

verdict-Ends :
    {B : Type 0} (next : Fetched → Run B) (r : Run Fetched)
    → Ends r
    → ((s : Fetched) → Ends (next s))
    → Ends (and_then r next)
verdict-Ends next r (ok s, h) go = subst (λ x. Ends (and_then x next)) (sym h) (go s)
verdict-Ends next r (err e, h) go = subst (λ x. Ends (and_then x next)) (sym h) (err e, refl)
verdict-Ends next r (panic, h) go = subst (λ x. Ends (and_then x next)) (sym h) (panic, refl)

module _ (fuel : ℕ) (f : AuthChainProvider) (version : String) where
  asked-Ends :
      (id : String) (s : Fetched) (o : Option (Option Event))
      → lookup id s.1 ≡ o
      → answers id (f version (id ∷ [])) ≡ true
      → Ends (fetch_event (suc (suc fuel)) (some f) version id s)
  unfolding fetch_event
  asked-Ends id s (some event) h a = (with_entry s event, rw h refl)
  asked-Ends id s none h a =
      let (result, done) = answered-Ends fuel f version id s (f version (id ∷ [])) a in
      (result, rw h done)

  all-Ends :
      (ids : List String) (s : Fetched)
      → All (λ id. answers id (f version (id ∷ [])) ≡ true) ids
      → Ends (fetch_events (suc (suc fuel)) (some f) version ids s)
  unfolding fetch_events
  all-Ends [] s a = (ok s, refl)
  all-Ends (id ∷ ids) s a =
      verdict-Ends (fetch_events (suc (suc fuel)) (some f) version ids)
        (fetch_event (suc (suc fuel)) (some f) version id s)
        (asked-Ends id s (lookup id s.1) refl a.0) (λ t. all-Ends ids t a.1)

module _ (verify_json : VerifyJson) (event : Event) (by_id : EventMap) (f : AuthChainProvider) where
  -- If the provider of missing events, asked for any auth event of an event, returns an error, no
  -- events, or events of which one is the one that was asked for, checkAllowedByAuthEvents ends: the
  -- loop behind its label runs at most twice for each auth event.
  pub check_allowed_by_auth_events-Ends :
      (fuel : ℕ)
      → All (λ id. answers id (f event.room_version (id ∷ [])) ≡ true) (auth_event_ids event)
      → (result : Result EventMap) × (check_allowed_by_auth_events verify_json
            (suc (suc fuel))
            event
            by_id
            (some f)
          ≡ some result)
  unfolding check_allowed_by_auth_events
  check_allowed_by_auth_events-Ends fuel a =
      verdict-Ends (λ s. concluded s.1 (allowed_by verify_json (provider_of s.0) event))
        (fetch_events (suc (suc fuel)) (some f) event.room_version (auth_event_ids event)
          (no_auth_events, by_id))
        (all-Ends fuel f event.room_version (auth_event_ids event) (no_auth_events, by_id) a)
        (λ s. concluded-Ends s.1 (allowed_by verify_json (provider_of s.0) event))

  never_fetched :
      (version id : String) (fuel : ℕ) (s : Fetched) (e : Event) (others : List Event)
      → lookup id s.1 ≡ none
      → f version (id ∷ []) ≡ ok (e ∷ others)
      → any (has_event_id id) (e ∷ others) ≡ false
      → fetch_event fuel (some f) version id s ≡ none
  unfolding fetch_event
  never_fetched version id zero s e others h a no_id = refl
  never_fetched version id (suc fuel) s e others h a no_id =
      rw (h, a)
        (never_fetched version id fuel (store_events (e ∷ others) s) e others
          (stored-lookup id (e ∷ others) s no_id ∙ h) a no_id)

  -- If the first auth event of an event is not in the map, and the provider, asked for it, returns
  -- events of which none is the one that was asked for, checkAllowedByAuthEvents never ends: no number
  -- of rounds is enough.
  pub check_allowed_by_auth_events-never_ends :
      (fuel : ℕ) (id : String) (ids : List String) (e : Event) (others : List Event)
      → auth_event_ids event ≡ id ∷ ids
      → lookup id by_id ≡ none
      → f event.room_version (id ∷ []) ≡ ok (e ∷ others)
      → any (has_event_id id) (e ∷ others) ≡ false
      → check_allowed_by_auth_events verify_json fuel event by_id (some f) ≡ none
  unfolding check_allowed_by_auth_events fetch_events
  check_allowed_by_auth_events-never_ends fuel id ids e others first missing a no_id =
      rw
        (
          first,
          never_fetched event.room_version id fuel (no_auth_events, by_id) e others missing a no_id,
        )
        refl
