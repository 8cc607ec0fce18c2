-- ===== src/ResolutionV1/Represents.antt =====
-- addConflicted of stateresolution.go: what the grouping keeps, one event after the other.
use gomatrixserverlib.Prelude.{
  ℕ, arith, ◌≡◌, refl, ap, sym, ◌∙◌, subst, inl, inr, Bool, true, false, ◌&&◌, ◌||◌, Bool-cases,
  eq_iff, if◌then◌else◌, All, nat_eq, nat_eq_iff,
}
use gomatrixserverlib.Event.{Event, StateKeyTuple}
use gomatrixserverlib.Auth.Provider.{same_key}
use gomatrixserverlib.ResolutionV1.{
  third_party_invites_list, members_list, others_list, Destination, creates_block,
  power_levels_block, join_rules_block, block_in, destination,
}
use gomatrixserverlib.ResolutionV1.Grouped.{
  Groups, put_group, occupied, count_groups, HasKey, IsGroup, occupied-put_group,
  count_groups-put_group, put_group-IsGroup,
}

abbrev pub rank : Destination → ℕ
rank creates_block = 0
rank power_levels_block = 1
rank join_rules_block = 2
rank (block_in third_party_invites_list) = 3
rank (block_in members_list) = 4
rank (block_in others_list) = 5

of_rank : ℕ → Destination
of_rank n =
    if nat_eq n 0
    then creates_block
    else if nat_eq n 1
    then power_levels_block
    else if nat_eq n 2
    then join_rules_block
    else if nat_eq n 3
    then block_in third_party_invites_list
    else if nat_eq n 4
    then block_in members_list
    else block_in others_list

of_rank-rank : (d : Destination) → of_rank (rank d) ≡ d
unfolding of_rank
of_rank-rank creates_block = refl
of_rank-rank power_levels_block = refl
of_rank-rank join_rules_block = refl
of_rank-rank (block_in third_party_invites_list) = refl
of_rank-rank (block_in members_list) = refl
of_rank-rank (block_in others_list) = refl

abbrev pub same_destination : Destination → Destination → Bool
same_destination d b = nat_eq (rank d) (rank b)

pub same_destination_eq : (d b : Destination) → same_destination d b ≡ true → d ≡ b
same_destination_eq d b h =
    sym (of_rank-rank d) ∙ ap of_rank ((nat_eq_iff (rank d) (rank b)).0 h) ∙ of_rank-rank b

pub same_key_eq : (k j : StateKeyTuple) → same_key k j ≡ true → k ≡ j
same_key_eq k j h =
    let t : k.event_type ≡ j.event_type = ground (arith, eq_iff k.event_type j.event_type, h) in
    let s : k.state_key ≡ j.state_key = ground (arith, eq_iff k.state_key j.state_key, h) in
    λ i. record { event_type = t i; state_key = s i }

-- The keys that were met so far.
abbrev pub Seen : Type 0
Seen = StateKeyTuple → Bool

abbrev pub put_at :
    Destination → StateKeyTuple → Event → (Destination → Groups) → Destination → Groups
put_at d k e g b = if same_destination d b then put_group k e (g b) else g b

-- Each key that was met has one group, at its destination.
pub record IsCounted (seen : Seen) (g : Destination → Groups) : Type 0 where
  pub once :
      (d : Destination) (k : StateKeyTuple)
      → count_groups k (g d) ≡ (if seen k && same_destination d (destination k) then 1 else 0)
  pub met : (k : StateKeyTuple) → occupied k (g (destination k)) ≡ seen k
  pub keyed : (d : Destination) → All IsGroup (g d)

abbrev pub seen_with : Seen → StateKeyTuple → Seen
seen_with seen k j = seen j || same_key k j

module _ (k : StateKeyTuple) where
  -- What the destination of the key and of another one say of each other.
  same_place :
      (d : Destination) (j : StateKeyTuple)
      → same_destination (destination k) d ≡ true
      → same_key k j ≡ true
      → same_destination d (destination j) ≡ true
  same_place d j b same =
      let p : d ≡ destination j =
        sym (same_destination_eq (destination k) d b) ∙ ap destination (same_key_eq k j same) in
      (nat_eq_iff (rank d) (rank (destination j))).1 (ap rank p)

  pub other_place :
      (d : Destination) (j : StateKeyTuple)
      → same_destination (destination k) d ≡ false
      → same_key k j ≡ true
      → same_destination d (destination j) ≡ false
  other_place d j b same =
      let p : rank (destination k) ≡ rank (destination j) =
        ap (λ x. rank (destination x)) (same_key_eq k j same) in
      ground (arith, p, b)

module _ (seen : Seen) (g : Destination → Groups) (k : StateKeyTuple) (e : Event) where
  pub once-put_at :
      IsCounted seen g
      → (d : Destination) (j : StateKeyTuple)
      → count_groups j (put_at (destination k) k e g d)
        ≡ (if seen_with seen k j && same_destination d (destination j) then 1 else 0)
  once-put_at c d j = elim (Bool-cases (same_destination (destination k) d)) [
    | inl b ↦
        let there : occupied k (g d) ≡ seen k =
          subst (λ x. occupied k (g x) ≡ seen k) (same_destination_eq (destination k) d b)
            (c.met k) in
        rw (b, count_groups-put_group k e j (g d), there, c.once d j)
          (elim (Bool-cases (same_key k j)) [
            | inl same ↦
                let here : seen k ≡ seen j = ap seen (same_key_eq k j same) in
                ground (arith, here, same, same_place k d j b same)
            | inr other ↦ ground (arith, other)
          ])
    | inr b ↦
        rw (b, c.once d j)
          (elim (Bool-cases (same_key k j)) [
            | inl same ↦ ground (arith, same, other_place k d j b same)
            | inr other ↦ ground (arith, other)
          ])
  ]

  pub met-put_at :
      IsCounted seen g
      → (j : StateKeyTuple)
      → occupied j (put_at (destination k) k e g (destination j)) ≡ seen_with seen k j
  met-put_at c j = elim (Bool-cases (same_destination (destination k) (destination j))) [
    | inl b ↦ rw (b, occupied-put_group k e j (g (destination j)), c.met j) (ground arith)
    | inr b ↦
        rw (b, c.met j)
          (elim (Bool-cases (same_key k j)) [
            | inl same ↦
                let p : rank (destination k) ≡ rank (destination j) =
                  ap (λ x. rank (destination x)) (same_key_eq k j same) in
                ground (arith, p, b)
            | inr other ↦ ground (arith, other)
          ])
  ]

  pub IsCounted-put_at :
      HasKey k e → IsCounted seen g → IsCounted (seen_with seen k) (put_at (destination k) k e g)
  IsCounted-put_at h c = record {
    once = once-put_at c;
    met = met-put_at c;
    keyed = λ d. elim (Bool-cases (same_destination (destination k) d)) [
      | inl b ↦ rw b (put_group-IsGroup k e (g d) h (c.keyed d))
      | inr b ↦ rw b (c.keyed d)
    ];
  }
