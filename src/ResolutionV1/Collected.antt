-- ===== src/ResolutionV1/Collected.antt =====
-- addConflicted of stateresolution.go: what all the conflicted events leave.
use gomatrixserverlib.Prelude.{
  arith, ◌≡◌, refl, ap, ◌∙◌, subst, inl, inr, Bool, false, ◌||◌, Bool-cases, Option, none, some,
  List, [], ◌∷◌, String, All, any, All-append,
}
use gomatrixserverlib.Result.{ok, ◌>>=◌, >>=-eq-ok, ok_inj, ok->>=}
use gomatrixserverlib.ResolutionV1.Grouped.{
  IsGroup, Groups, index_of, put_group, is_empty, snoc-nonempty, count_groups, occupied,
}
use gomatrixserverlib.Event.{
  Event, StateKeyTuple, m_room_create, m_room_power_levels, m_room_join_rules,
}
use gomatrixserverlib.Auth.Provider.{same_key, key}
use gomatrixserverlib.ResolutionV1.{
  BlockList, third_party_invites_list, members_list, others_list, Destination, creates_block,
  power_levels_block, join_rules_block, block_in, StateResolverV1, empty_resolver, conflict_key,
  destination, blocks_of, with_blocks, Offsets, find_offset, append_at, find_block, add_at,
  add_conflicted_from, add_conflicted, no_auth_events, deref,
}
use gomatrixserverlib.ResolutionV1.Represents.{
  same_destination, put_at, Seen, seen_with, IsCounted, IsCounted-put_at,
}
use gomatrixserverlib.ResolutionV1.Stored.{IsStored}
use gomatrixserverlib.ResolutionV1.Added.{add_at-IsStored}
use mathlib.Core.Path.{fun_ext}

-- What holds of every event that is grouped.
module _ {κ} (P : Event → Type κ) where
  abbrev pub InGroups : (Destination → Groups) → Type κ
  InGroups g = (d : Destination) → All (λ (x : StateKeyTuple × List Event). All P x.1) (g d)

  pub InGroups-put_group :
      (k : StateKeyTuple) (e : Event) (g : Groups)
      → P e
      → All (λ (x : StateKeyTuple × List Event). All P x.1) g
      → All (λ (x : StateKeyTuple × List Event). All P x.1) (put_group k e g)
  unfolding put_group
  InGroups-put_group k e [] p h = ((p, tt), tt)
  InGroups-put_group k e ((j, es) ∷ g) p h = elim (Bool-cases (same_key j k)) [
    | inl b ↦ rw b (All-append P es (e ∷ []) h.0 (p, tt), h.1)
    | inr b ↦ rw b (h.0, InGroups-put_group k e g p h.1)
  ]

  InGroups-put_at :
      (d : Destination) (k : StateKeyTuple) (e : Event) (g : Destination → Groups)
      → P e
      → InGroups g
      → InGroups (put_at d k e g)
  InGroups-put_at d k e g p h b = elim (Bool-cases (same_destination d b)) [
    | inl same ↦ rw same (InGroups-put_group k e (g b) p (h b))
    | inr other ↦ rw other (h b)
  ]

-- A group that has an event.
abbrev pub IsFilled : StateKeyTuple × List Event → Type 0
IsFilled x = is_empty x.1 ≡ false

pub put_group-IsFilled :
    (k : StateKeyTuple) (e : Event) (g : Groups) → All IsFilled g → All IsFilled (put_group k e g)
unfolding put_group
put_group-IsFilled k e [] h = (refl, tt)
put_group-IsFilled k e ((j, es) ∷ g) h = elim (Bool-cases (same_key j k)) [
  | inl b ↦ rw b (snoc-nonempty es e, h.1)
  | inr b ↦ rw b (h.0, put_group-IsFilled k e g h.1)
]

put_at-IsFilled :
    (d : Destination) (k : StateKeyTuple) (e : Event) (g : Destination → Groups)
    → ((list : BlockList) → All IsFilled (g (block_in list)))
    → (list : BlockList) → All IsFilled (put_at d k e g (block_in list))
put_at-IsFilled d k e g h list = elim (Bool-cases (same_destination d (block_in list))) [
  | inl b ↦ rw b (put_group-IsFilled k e (g (block_in list)) (h list))
  | inr b ↦ rw b (h list)
]

abbrev pub key_is : StateKeyTuple → String → Option String → Bool
key_is k t none = false
key_is k t (some sk) = same_key (key t sk) k

-- Whether an event is the state of a type and a state key.
abbrev pub has_key : StateKeyTuple → Event → Bool
has_key k e = key_is k e.event_type e.state_key

abbrev pub IsState : Event → Type 0
IsState e = (sk : String) × (e.state_key ≡ some sk)

-- What the conflicted events leave.
pub record IsGrouped {κ} (P : Event → Type κ) (seen : Seen) (r : StateResolverV1) : Type κ where
  pub groups : Destination → Groups
  pub offsets : Offsets
  pub stored : IsStored r offsets groups
  pub counted : IsCounted seen groups
  pub kept : InGroups P groups
  pub filled : (list : BlockList) → All IsFilled (groups (block_in list))

add_conflicted-step :
    (e : Event) (events : List Event) (r : StateResolverV1) (offsets : Offsets) (sk : String)
    (next : StateResolverV1 × Offsets)
    → e.state_key ≡ some sk
    → add_at (destination (key e.event_type sk)) (key e.event_type sk) e r offsets ≡ ok next
    → add_conflicted_from (e ∷ events) r offsets ≡ add_conflicted_from events next.0 next.1
unfolding add_conflicted_from
add_conflicted-step e events r offsets sk next keyed h =
    let named : conflict_key e ≡ ok (key e.event_type sk) =
      ap (λ o. deref o >>= λ text. ok (key e.event_type text)) keyed in
    ok->>= named _ ∙ ok->>= h _

frame-with_blocks :
    (to : BlockList) (new : List (List Event)) (r : StateResolverV1)
    → ((with_blocks to new r).resolved ≡ r.resolved) × ((with_blocks to new r).result ≡ r.result)
frame-with_blocks third_party_invites_list new r = (refl, refl)
frame-with_blocks members_list new r = (refl, refl)
frame-with_blocks others_list new r = (refl, refl)

-- Grouping leaves the resolved events alone.
frame-add_at :
    (d : Destination) (k : StateKeyTuple) (e : Event) (r : StateResolverV1) (offsets : Offsets)
    (next : StateResolverV1 × Offsets)
    → add_at d k e r offsets ≡ ok next
    → ((next.0).resolved ≡ r.resolved) × ((next.0).result ≡ r.result)
frame-add_at creates_block k e r offsets next h = rw⁻¹ (ok_inj h) (refl, refl)
frame-add_at power_levels_block k e r offsets next h = rw⁻¹ (ok_inj h) (refl, refl)
frame-add_at join_rules_block k e r offsets next h = rw⁻¹ (ok_inj h) (refl, refl)
frame-add_at (block_in to) k e r offsets next h =
    let (offset, new, after) = find_block k offsets (blocks_of to r) (find_offset k offsets) in
    let (appended, first, rest) =
      >>=-eq-ok (append_at offset e new) (λ a. ok (with_blocks to a r, after)) h in
    rw⁻¹ (ok_inj rest) (frame-with_blocks to appended r)

no_groups : Destination → Groups
no_groups creates_block = (key m_room_create "", []) ∷ []
no_groups power_levels_block = (key m_room_power_levels "", []) ∷ []
no_groups join_rules_block = (key m_room_join_rules "", []) ∷ []
no_groups (block_in list) = []

no_blocks : (list : BlockList) → [] ≡ blocks_of list empty_resolver
no_blocks third_party_invites_list = refl
no_blocks members_list = refl
no_blocks others_list = refl

no_count : (d : Destination) (k : StateKeyTuple) → count_groups k (no_groups d) ≡ 0
unfolding no_groups count_groups
no_count creates_block k = ground arith
no_count power_levels_block k = ground arith
no_count join_rules_block k = ground arith
no_count (block_in list) k = refl

not_occupied : (d : Destination) (k : StateKeyTuple) → occupied k (no_groups d) ≡ false
unfolding no_groups occupied
not_occupied creates_block k = ground arith
not_occupied power_levels_block k = ground arith
not_occupied join_rules_block k = ground arith
not_occupied (block_in list) k = refl

All-no_groups {κ} :
    (Q : StateKeyTuple × List Event → Type κ)
    → ((k : StateKeyTuple) → Q (k, []))
    → (d : Destination) → All Q (no_groups d)
unfolding no_groups
All-no_groups Q h creates_block = (h (key m_room_create ""), tt)
All-no_groups Q h power_levels_block = (h (key m_room_power_levels ""), tt)
All-no_groups Q h join_rules_block = (h (key m_room_join_rules ""), tt)
All-no_groups Q h (block_in list) = tt

module _ {κ} (P : Event → Type κ) where
  add_conflicted_from-IsGrouped :
      (events : List Event) (r : StateResolverV1) (offsets : Offsets) (g : Destination → Groups)
      (seen : Seen)
      → All IsState events
      → All P events
      → IsStored r offsets g
      → IsCounted seen g
      → InGroups P g
      → ((list : BlockList) → All IsFilled (g (block_in list)))
      → (last : StateResolverV1) × (add_conflicted_from events r offsets ≡ ok last)
        × (last.resolved ≡ r.resolved)
        × (last.result ≡ r.result)
        × IsGrouped P (λ k. seen k || any (has_key k) events) last
  unfolding add_conflicted_from
  add_conflicted_from-IsGrouped [] r offsets g seen state p s c h filled =
      let same : (λ (k : StateKeyTuple). seen k) ≡ (λ k. seen k || any (has_key k) []) =
        fun_ext (λ k. ground arith) in
      (
        r,
        refl,
        refl,
        refl,
        record {
          groups = g;
          offsets = offsets;
          stored = s;
          counted = subst (λ x. IsCounted x g) same c;
          kept = h;
          filled = filled;
        },
      )
  add_conflicted_from-IsGrouped (e ∷ events) r offsets g seen ((sk, keyed), state) (pe, p) s c h
        filled =
      let k = key e.event_type sk in
      let (next, h_next, s_next) = add_at-IsStored k e r offsets g s (destination k) refl in
      let (last, done, same, before, grouped) =
        add_conflicted_from-IsGrouped events next.0 next.1 (put_at (destination k) k e g)
          (seen_with seen k) state p s_next (IsCounted-put_at seen g k e (refl, keyed) c)
          (InGroups-put_at P (destination k) k e g pe h)
          (put_at-IsFilled (destination k) k e g filled) in
      let (kept_resolved, kept_result) = frame-add_at (destination k) k e r offsets next h_next in
      let met : (λ (j : StateKeyTuple). seen_with seen k j || any (has_key j) events)
          ≡ (λ j. seen j || any (has_key j) (e ∷ events)) =
        fun_ext (λ j. ground (arith, ap (key_is j e.event_type) keyed)) in
      (
        last,
        add_conflicted-step e events r offsets sk next keyed h_next ∙ done,
        same ∙ kept_resolved,
        before ∙ kept_result,
        subst (λ x. IsGrouped P x last) met grouped,
      )

  -- Conflicted events that all have a state key are grouped by type and state key: no block list
  -- is indexed out of its range, each key has one group, at its destination, which holds events of that
  -- key alone, and the resolved events are left alone.
  pub add_conflicted-IsGrouped :
      (events : List Event)
      → All IsState events
      → All P events
      → (last : StateResolverV1) × (add_conflicted events empty_resolver ≡ ok last)
        × (last.resolved ≡ no_auth_events)
        × (last.result ≡ [])
        × IsGrouped P (λ k. any (has_key k) events) last
  unfolding add_conflicted no_groups find_offset index_of
  add_conflicted-IsGrouped events state p =
      add_conflicted_from-IsGrouped events empty_resolver [] no_groups (λ _. false) state p
        (record {
          creates = refl;
          power_levels = refl;
          join_rules = refl;
          lists = no_blocks;
          offset = λ k list h. refl;
        })
        (record {
          once = no_count;
          met = λ k. not_occupied (destination k) k;
          keyed = All-no_groups IsGroup (λ k. tt);
        })
        (All-no_groups (λ (x : StateKeyTuple × List Event). All P x.1) (λ k. tt)) (λ list. tt)
