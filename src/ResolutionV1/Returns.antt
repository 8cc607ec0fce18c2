-- ===== src/ResolutionV1/Returns.antt =====
-- ResolveStateConflicts of stateresolution.go: that it returns.
use gomatrixserverlib.Prelude.{
  ◌≡◌, ◌≢◌, refl, ap, ◌∙◌, Bool, true, false, Option, none, some, List, [], ◌∷◌, map, String,
  if◌then◌else◌, ◌==◌, All,
}
use gomatrixserverlib.Prelude.Sort.{sort_by-cons}
use gomatrixserverlib.Result.{Result, Check, ok, err, panic, ◌>>=◌, ok->>=}
use gomatrixserverlib.Event.{
  Event, m_room_create, m_room_join_rules, m_room_power_levels, m_room_member,
  m_room_third_party_invite,
}
use gomatrixserverlib.Auth.Membership.Checks.{VerifyJson}
use gomatrixserverlib.Auth.Allowed.{allowed_by}
use gomatrixserverlib.ResolutionV1.{
  ResolvedAuthEvents, deref, add_auth_event, remove_auth_event, resolver_v1_provider,
}
use gomatrixserverlib.ResolutionV1.Blocks.{
  Sha1, ConflictedEvent, conflicted_event, conflicted_less,
  sort_conflicted_events_by_depth_and_sha1, consider, next_candidates, resolve_sorted,
  newest_allowed, try_event, or_oldest, resolve_normal_sorted, resolve_auth_block,
  resolve_normal_block, resolve_blocks, add_auth_events, resolve_others,
}
use gomatrixserverlib.ResolutionV1.Collected.{IsState, IsFilled}
use gomatrixserverlib.ResolutionV1.Grouped.{Groups, blocks}
use gomatrixserverlib.ResolutionV1.Conflicts.{sorted-P}

abbrev pub Returns {ℓ} : {A : Type ℓ} → Result A → Type ℓ
Returns {A = A} r = (a : A) × (r ≡ ok a)

module _ {ℓ κ} {A : Type ℓ} {B : Type κ} where
  -- A chain of parts that return returns.
  pub >>=-Returns :
      (first : Result A) (next : A → Result B)
      → Returns first
      → ((a : A) → first ≡ ok a → Returns (next a))
      → Returns (first >>= next)
  >>=-Returns first next (a, h) k = let (b, e) = k a h in (b, ok->>= h next ∙ e)

-- It returns a value with a property.
abbrev pub Yields {ℓ κ} : {A : Type ℓ} → (A → Type κ) → Result A → Type (ℓ ⊔ κ)
Yields {A = A} P r = (a : A) × (r ≡ ok a) × P a

module _ {ℓ κ μ} {A : Type ℓ} {B : Type κ} (P : B → Type μ) where
  pub >>=-Yields :
      (first : Result A) (next : A → Result B)
      → Returns first
      → ((a : A) → first ≡ ok a → Yields P (next a))
      → Yields P (first >>= next)
  >>=-Yields first next (a, h) k = let (b, e, p) = k a h in (b, ok->>= h next ∙ e, p)

if-Returns {ℓ} :
    {A : Type ℓ} (b : Bool) (x y : Result A) → Returns x → Returns y → Returns (if b then x else y)
if-Returns true x y h k = h
if-Returns false x y h k = k

module _ (r : ResolvedAuthEvents) where
  deref-Returns : (e : Event) → IsState e → Returns (deref e.state_key)
  deref-Returns e (sk, h) = (sk, ap deref h)

  add_auth_event-Returns : (e : Event) → IsState e → Returns (add_auth_event e r)
  unfolding add_auth_event
  add_auth_event-Returns e h =
      let stored = λ (f : String → ResolvedAuthEvents).
        >>=-Returns (deref e.state_key) (λ sk. ok (f sk)) (deref-Returns e h)
          (λ sk _. (f sk, refl)) in
      if-Returns (e.event_type == m_room_create) _ _ (_, refl)
        (if-Returns (e.event_type == m_room_power_levels) _ _ (_, refl)
          (if-Returns (e.event_type == m_room_join_rules) _ _ (_, refl)
            (if-Returns (e.event_type == m_room_member) _ _ (stored _)
              (if-Returns (e.event_type == m_room_third_party_invite) _ _ (stored _) (r, refl)))))

-- The checks are made by resolved events with a property that adding and removing keeps.
module _ (verify_json : VerifyJson) (Q : ResolvedAuthEvents → Type 0) where
  -- A state event whose checks do not panic, and which may be added and removed.
  pub record IsChecked (e : Event) : Type 0 where
    pub state : IsState e
    pub ends :
        (r : ResolvedAuthEvents) → Q r → allowed_by verify_json (resolver_v1_provider r) e ≢ panic
    pub adds : (r next : ResolvedAuthEvents) → Q r → add_auth_event e r ≡ ok next → Q next
    pub removes :
        (r : ResolvedAuthEvents) (sk : String)
        → Q r
        → e.state_key ≡ some sk
        → Q (remove_auth_event e.event_type sk r)

  abbrev Checked : ConflictedEvent → Type 0
  Checked x = IsChecked x.event

  abbrev pub Safe : Event × ResolvedAuthEvents → Type 0
  Safe last = IsChecked last.0 × Q last.1

  consider-Yields :
      (candidate : Event) (r : ResolvedAuthEvents) (later : Result (Event × ResolvedAuthEvents))
      (verdict : Check)
      → verdict ≢ panic
      → Safe (candidate, r)
      → Yields Safe later
      → Yields Safe (consider verify_json candidate r later verdict)
  consider-Yields candidate r later (ok u) safe q h = h
  consider-Yields candidate r later (err e) safe q h = ((candidate, r), refl, q)
  consider-Yields candidate r later panic safe q h = absurd (safe refl)

  next_candidates-Yields :
      (candidate : Event) (block : List ConflictedEvent) (r : ResolvedAuthEvents)
      → Safe (candidate, r)
      → All Checked block
      → Yields Safe (next_candidates verify_json candidate block r)
  unfolding next_candidates
  next_candidates-Yields candidate [] r q h = ((candidate, r), refl, q)
  next_candidates-Yields candidate (next ∷ block) r q h =
      consider-Yields candidate r
        (add_auth_event next.event r >>= next_candidates verify_json next.event block)
        (allowed_by verify_json (resolver_v1_provider r) next.event) ((h.0).ends r q.1) q
        (>>=-Yields Safe (add_auth_event next.event r)
          (next_candidates verify_json next.event block)
          (add_auth_event-Returns r next.event (h.0).state)
          (λ after added.
            next_candidates-Yields next.event block after (h.0, (h.0).adds r after q.1 added) h.1))

  try_event-Returns :
      (event : Event) (found : Option Event) (verdict : Check)
      → verdict ≢ panic
      → Returns (try_event verify_json event found verdict)
  try_event-Returns event (some f) verdict safe = (some f, refl)
  try_event-Returns event none (ok u) safe = (some event, refl)
  try_event-Returns event none (err e) safe = (none, refl)
  try_event-Returns event none panic safe = absurd (safe refl)

  newest_allowed-Returns :
      (block : List ConflictedEvent) (r : ResolvedAuthEvents)
      → Q r
      → All Checked block
      → Returns (newest_allowed verify_json block r)
  unfolding newest_allowed
  newest_allowed-Returns [] r q h = (none, refl)
  newest_allowed-Returns (next ∷ block) r q h =
      let verdict = allowed_by verify_json (resolver_v1_provider r) next.event in
      >>=-Returns (newest_allowed verify_json block r)
        (λ found. try_event verify_json next.event found verdict)
        (newest_allowed-Returns block r q h.1)
        (λ found _. try_event-Returns next.event found verdict ((h.0).ends r q))

  resolve_sorted-Yields :
      (block : List ConflictedEvent) (r : ResolvedAuthEvents)
      → ((x : ConflictedEvent) × (xs : List ConflictedEvent) × (block ≡ x ∷ xs))
      → Q r
      → All Checked block
      → Yields Safe (resolve_sorted verify_json block r)
  resolve_sorted-Yields [] r (x, xs, e) q h = cc
  resolve_sorted-Yields (oldest ∷ block) r some_event q h =
      let (after, added) = add_auth_event-Returns r oldest.event (h.0).state in
      let (last, loop, (chosen, q_last)) =
        next_candidates-Yields oldest.event block after (h.0, (h.0).adds r after q added) h.1 in
      let (sk, keyed) = chosen.state in
      (
        (last.0, remove_auth_event (last.0).event_type sk last.1),
        ok->>= (ok->>= added (next_candidates verify_json oldest.event block) ∙ loop) _
            ∙ ok->>= (ap deref keyed) _,
        (chosen, chosen.removes last.1 sk q_last keyed),
      )

  resolve_normal_sorted-Returns :
      (block : List ConflictedEvent) (r : ResolvedAuthEvents)
      → ((x : ConflictedEvent) × (xs : List ConflictedEvent) × (block ≡ x ∷ xs))
      → Q r
      → All Checked block
      → Returns (resolve_normal_sorted verify_json block r)
  resolve_normal_sorted-Returns [] r (x, xs, e) q h = cc
  resolve_normal_sorted-Returns (oldest ∷ block) r some_event q h =
      >>=-Returns (newest_allowed verify_json block r) _ (newest_allowed-Returns block r q h.1)
        (λ found _. (or_oldest verify_json oldest.event found, refl))

  module _ (sha1 : Sha1) where
    sorted-cons :
        (e : Event) (es : List Event)
        → (x : ConflictedEvent) × (xs : List ConflictedEvent)
          × (sort_conflicted_events_by_depth_and_sha1 sha1 (e ∷ es) ≡ x ∷ xs)
    unfolding sort_conflicted_events_by_depth_and_sha1
    sorted-cons e es =
        sort_by-cons conflicted_less (conflicted_event sha1 e) (map (conflicted_event sha1) es)

    resolve_auth_block-Yields :
        (e : Event) (es : List Event) (r : ResolvedAuthEvents)
        → Q r
        → All IsChecked (e ∷ es)
        → Yields Safe (resolve_auth_block verify_json sha1 (e ∷ es) r)
    unfolding resolve_auth_block
    resolve_auth_block-Yields e es r q h =
        resolve_sorted-Yields (sort_conflicted_events_by_depth_and_sha1 sha1 (e ∷ es)) r
          (sorted-cons e es) q (sorted-P IsChecked verify_json sha1 (e ∷ es) h)

    resolve_normal_block-Returns :
        (e : Event) (es : List Event) (r : ResolvedAuthEvents)
        → Q r
        → All IsChecked (e ∷ es)
        → Returns (resolve_normal_block verify_json sha1 (e ∷ es) r)
    unfolding resolve_normal_block
    resolve_normal_block-Returns e es r q h =
        resolve_normal_sorted-Returns (sort_conflicted_events_by_depth_and_sha1 sha1 (e ∷ es)) r
          (sorted-cons e es) q (sorted-P IsChecked verify_json sha1 (e ∷ es) h)

    abbrev pub AllSafe : List Event × ResolvedAuthEvents → Type 0
    AllSafe last = All IsChecked last.0 × Q last.1

    pub resolve_blocks-Yields :
        (g : Groups) (r : ResolvedAuthEvents)
        → Q r
        → All (λ x. All IsChecked x.1) g
        → Yields AllSafe (resolve_blocks verify_json sha1 (blocks g) r)
    unfolding resolve_blocks
    resolve_blocks-Yields [] r q h = (([], r), refl, (tt, q))
    resolve_blocks-Yields ((k, []) ∷ g) r q h = resolve_blocks-Yields g r q h.1
    resolve_blocks-Yields ((k, e ∷ es) ∷ g) r q h =
        let (chosen, found, (checked, q_next)) = resolve_auth_block-Yields e es r q h.0 in
        let (rest, more, (all, q_last)) = resolve_blocks-Yields g chosen.1 q_next h.1 in
        ((chosen.0 ∷ rest.0, rest.1), ok->>= found _ ∙ ok->>= more _, ((checked, all), q_last))

    pub resolve_others-Returns :
        (g : Groups) (r : ResolvedAuthEvents)
        → Q r
        → All IsFilled g
        → All (λ x. All IsChecked x.1) g
        → Returns (resolve_others verify_json sha1 (blocks g) r)
    unfolding resolve_others
    resolve_others-Returns [] r q f h = ([], refl)
    resolve_others-Returns ((k, []) ∷ g) r q f h = cc f.0
    resolve_others-Returns ((k, e ∷ es) ∷ g) r q f h =
        >>=-Returns (resolve_normal_block verify_json sha1 (e ∷ es) r) _
          (resolve_normal_block-Returns e es r q h.0)
          (λ chosen _.
            >>=-Returns (resolve_others verify_json sha1 (blocks g) r) _
              (resolve_others-Returns g r q f.1 h.1) (λ rest _. (_, refl)))

  -- Adding events keeps the property.
  pub add_auth_events-Yields :
      (events : List Event) (r : ResolvedAuthEvents)
      → Q r
      → All IsChecked events
      → Yields Q (add_auth_events events r)
  unfolding add_auth_events
  add_auth_events-Yields [] r q h = (r, refl, q)
  add_auth_events-Yields (e ∷ events) r q h =
      >>=-Yields Q (add_auth_event e r) (add_auth_events events)
        (add_auth_event-Returns r e (h.0).state)
        (λ after added. add_auth_events-Yields events after ((h.0).adds r after q added) h.1)
