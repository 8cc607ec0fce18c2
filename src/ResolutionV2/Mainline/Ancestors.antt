-- ===== src/ResolutionV2/Mainline/Ancestors.antt =====
-- createPowerLevelMainline of stateresolutionv2.go: the mainline against the power levels events that
-- can be reached from an event through auth events.
use mathlib.Core.List.{append_assoc, Memᴰ}
use mathlib.Core.List.Memᴰ
use gomatrixserverlib.Prelude.{
  ℕ, zero, suc, ◌≡◌, ◌<◌, ◌↔◌, ◌⊎◌, inl, inr, arith, refl, ap, sym, ◌∙◌, subst, true, Bool-cases,
  Option, Option-cases, none, some, some_inj, List, [], ◌∷◌, ◌++◌, String, eq_iff, Assoc, lookup,
}
use gomatrixserverlib.Result.{Result, ok, ok->>=}
use gomatrixserverlib.Event.{Event, auth_event_ids, state_key_equals}
use gomatrixserverlib.ResolutionV2.Mainline.{
  is_power_levels_event, if_power_levels, power_levels_event, iterate_if, iterate_ids, iterate,
  create_power_level_mainline,
}

-- The power levels of the room.
abbrev pub IsRoomLevels : Event → Type 0
IsRoomLevels p = (p.event_type ≡ "m.room.power_levels") × (p.state_key ≡ some "")

state_key_iff : (e : Event) → (state_key_equals e "" ≡ true) ↔ (e.state_key ≡ some "")
unfolding state_key_equals
state_key_iff e = (
  λ h. elim (Option-cases e.state_key) [
    | inl n ↦ cc (rw n at h)
    | inr (sk, k) ↦ k ∙ ap some ((eq_iff sk "").0 (rw k at h))
  ],
  λ h. rw h,
)

is_power_levels_event_iff : (e : Event) → (is_power_levels_event e ≡ true) ↔ IsRoomLevels e
is_power_levels_event_iff e =
    ground (arith, state_key_iff e, eq_iff e.event_type "m.room.power_levels")

module _ (auth_event_map : Assoc Event) where
  -- A power levels event that an event has among its auth events.
  abbrev pub IsParent : Event → Event → Type 0
  IsParent e p =
      (id : String) × Memᴰ id (auth_event_ids e)
      × (lookup id auth_event_map ≡ some p)
      × IsRoomLevels p

  -- An event itself, the power levels events among its auth events, those among theirs, and so on.
  pub data Reaches : Event → Event → Type 0 where
    itself : {e : Event} → Reaches e e
    through : {e p x : Event} → IsParent e p → Reaches p x → Reaches e x

  found_iff :
      (o : Option Event) (p : Event)
      → (if_power_levels o ≡ some p) ↔ ((o ≡ some p) × IsRoomLevels p)
  found_iff none p = (λ h. cc h, λ (h, _). cc h)
  found_iff (some e) p = elim (Bool-cases (is_power_levels_event e)) [
    | inl b ↦
        let is = (is_power_levels_event_iff e).0 b in
        rw b (λ h. (h, subst IsRoomLevels (some_inj h) is), λ (h, _). h)
    | inr b ↦ rw b (
      λ h. cc h,
      λ (h, r). cc (b, (is_power_levels_event_iff e).1 (subst IsRoomLevels (sym (some_inj h)) r)),
    )
  ]

  -- What is reached through the event under an ID, and under one of several.
  abbrev AboveOne : Option Event → Event → Type 0
  AboveOne none x = ⊥
  AboveOne (some p) x = Reaches p x

  abbrev Above : List String → Event → Type 0
  Above [] x = ⊥
  Above (id ∷ ids) x = AboveOne (power_levels_event auth_event_map id) x ⊎ Above ids x

  -- Events with a property, and all of them, are put before those that are there.
  abbrev Extends : (Event → Type 0) → List Event → Result (List Event) → Type 0
  Extends P mainline r =
      (found : List Event) × (r ≡ ok (found ++ mainline)) × ((x : Event) → Memᴰ x found ↔ P x)

  mem_append : (x : Event) (s t : List Event) → Memᴰ x (s ++ t) ↔ (Memᴰ x s ⊎ Memᴰ x t)
  mem_append x s t = (
    λ m. Memᴰ.append_cases s m,
    λ c. elim c [ inl m ↦ Memᴰ.append_left t m | inr m ↦ Memᴰ.append_right s m ],
  )

  one-Above :
      (id : String) (x : Event) (o : Option Event)
      → power_levels_event auth_event_map id ≡ o
      → AboveOne o x
      → (p : Event) × (power_levels_event auth_event_map id ≡ some p) × Reaches p x
  one-Above id x none h a = absurd a
  one-Above id x (some p) h a = (p, h, a)

  Above-found :
      (ids : List String) (x : Event)
      → Above ids x
      → (id : String) × (p : Event) × Memᴰ id ids
        × (power_levels_event auth_event_map id ≡ some p)
        × Reaches p x
  Above-found [] x a = absurd a
  Above-found (id ∷ ids) x (inl one) =
      let (p, h, r) = one-Above id x (power_levels_event auth_event_map id) refl one in
      (id, p, Memᴰ.head refl, h, r)
  Above-found (id ∷ ids) x (inr more) =
      let (i, p, m, h, r) = Above-found ids x more in (i, p, Memᴰ.tail m, h, r)

  found-Above :
      (ids : List String) (x : Event) (id : String) (p : Event)
      → Memᴰ id ids
      → power_levels_event auth_event_map id ≡ some p
      → Reaches p x
      → Above ids x
  found-Above [] x id p m h r = absurd (Memᴰ.not-nil m)
  found-Above (i ∷ ids) x id p (Memᴰ.head e) h r =
      inl (subst (λ o. AboveOne o x) (sym (ap (power_levels_event auth_event_map) (sym e) ∙ h)) r)
  found-Above (i ∷ ids) x id p (Memᴰ.tail m) h r = inr (found-Above ids x id p m h r)

  Reaches-Above : {e x : Event} → Reaches e x → Above (auth_event_ids e) x ⊎ (x ≡ e)
  Reaches-Above itself = inr refl
  Reaches-Above {e} {x} (through {p = p} (id, m, at, is) r) = inl (
      found-Above (auth_event_ids e) x id p m ((found_iff (lookup id auth_event_map) p).1 (at, is))
        r)

  Above-Reaches : (e x : Event) → Above (auth_event_ids e) x → Reaches e x
  Above-Reaches e x a =
      let (id, p, m, h, r) = Above-found (auth_event_ids e) x a in
      let (at, is) = (found_iff (lookup id auth_event_map) p).0 h in through (id, m, at, is) r

  -- What an event reaches is what is above it and the event itself.
  snoc-Reaches :
      (found : List Event) (e x : Event)
      → Memᴰ x found ↔ Above (auth_event_ids e) x
      → Memᴰ x (found ++ (e ∷ [])) ↔ Reaches e x
  snoc-Reaches found e x (above, there) = (
    λ m. elim ((mem_append x found (e ∷ [])).0 m) [
      | inl k ↦ Above-Reaches e x (above k)
      | inr k ↦ subst (λ y. Reaches e y) (sym (Memᴰ.eq_of_singleton k)) itself
    ],
    λ r. elim (Reaches-Above r) [
      | inl a ↦ Memᴰ.append_left (e ∷ []) (there a)
      | inr q ↦ Memᴰ.append_right found (Memᴰ.head q)
    ],
  )

  module _ (rank : Event → ℕ) (lower : (e p : Event) → IsParent e p → rank p < rank e) where
    module _ (n : ℕ)
        (go : (e : Event) (mainline : List Event)
          → rank e < n
          → Extends
              (Above (auth_event_ids e))
              (e ∷ mainline)
              (iterate n auth_event_map e mainline)) where
      one-Extends :
          (mainline : List Event) (o : Option Event)
          → ((p : Event) → o ≡ some p → rank p < n)
          → Extends (AboveOne o) mainline (iterate_if (iterate n auth_event_map) mainline o)
      one-Extends mainline none low = ([], refl, λ x. (λ m. Memᴰ.not-nil m, λ b. absurd b))
      one-Extends mainline (some p) low =
          let (found, r, all) = go p mainline (low p refl) in
          (
            found ++ (p ∷ []),
            r ∙ ap ok (sym (append_assoc found (p ∷ []) mainline)),
            λ x. snoc-Reaches found p x (all x),
          )

      ids-Extends :
          (ids : List String) (mainline : List Event)
          → ((id : String) (p : Event)
              → Memᴰ id ids
              → power_levels_event auth_event_map id ≡ some p
              → rank p < n)
          → Extends
              (Above ids)
              mainline
              (iterate_ids (iterate n auth_event_map) auth_event_map ids mainline)
      unfolding iterate_ids
      ids-Extends [] mainline low = ([], refl, λ x. (λ m. Memᴰ.not-nil m, λ b. absurd b))
      ids-Extends (id ∷ ids) mainline low =
          let (first, r, one) =
            one-Extends mainline (power_levels_event auth_event_map id)
              (λ p h. low id p (Memᴰ.head refl) h) in
          let (rest, q, more) =
            ids-Extends ids (first ++ mainline) (λ i p m h. low i p (Memᴰ.tail m) h) in
          (
            rest ++ first,
            ok->>= r _ ∙ q ∙ ap ok (sym (append_assoc rest first mainline)),
            λ x. (
              λ m. elim ((mem_append x rest first).0 m) [
                | inl k ↦ inr ((more x).0 k)
                | inr k ↦ inl ((one x).0 k)
              ],
              λ a.
                  (mem_append x rest first).1
                    (elim a [ inl k ↦ inr ((one x).1 k) | inr k ↦ inl ((more x).1 k) ]),
            ),
          )

    iterate-Extends :
        (n : ℕ) (e : Event) (mainline : List Event)
        → rank e < n
        → Extends (Above (auth_event_ids e)) (e ∷ mainline) (iterate n auth_event_map e mainline)
    unfolding iterate
    iterate-Extends zero e mainline low = absurd (omega (arith, low))
    iterate-Extends (suc n) e mainline low =
        ids-Extends n (iterate-Extends n) (auth_event_ids e) (e ∷ mainline) (λ id p m h.
          let (at, is) = (found_iff (lookup id auth_event_map) p).0 h in
          omega (arith, lower e p (id, m, at, is), low))

    -- Let a rank fall from each event to every power levels event among its auth events, and let the fuel
    -- be more than the rank of the resolved power levels event. Then createPowerLevelMainline ends,
    -- without a panic; the resolved event is the last of the mainline, and the events of the mainline are
    -- exactly those that can be reached from it through the power levels events among auth events.
    pub create_power_level_mainline-HoldsReached :
        (fuel : ℕ) (event : Event)
        → rank event < fuel
        → (before : List Event) × (create_power_level_mainline fuel auth_event_map (some event)
            ≡ ok (before ++ (event ∷ [])))
          × ((x : Event) → Memᴰ x (before ++ (event ∷ [])) ↔ Reaches event x)
    unfolding create_power_level_mainline
    create_power_level_mainline-HoldsReached fuel event low =
        let (before, h, all) = iterate-Extends fuel event [] low in
        (before, h, λ x. snoc-Reaches before event x (all x))
