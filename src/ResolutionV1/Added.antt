-- ===== src/ResolutionV1/Added.antt =====
-- addConflicted of stateresolution.go: one event after the other.
use gomatrixserverlib.Prelude.{
  ℕ, arith, ◌≡◌, refl, ap, sym, subst, inl, inr, true, false, Bool-cases, Option-cases, none, some,
  List, [], ◌∷◌, ◌++◌, length, ◌<◌,
}
use gomatrixserverlib.Result.{ok}
use gomatrixserverlib.Event.{Event, StateKeyTuple}
use gomatrixserverlib.Auth.Provider.{same_key}
use gomatrixserverlib.ResolutionV1.{
  BlockList, third_party_invites_list, members_list, others_list, Destination, creates_block,
  power_levels_block, join_rules_block, block_in, StateResolverV1, destination, blocks_of,
  with_blocks, Offsets, find_offset, add_at,
}
use gomatrixserverlib.ResolutionV1.Grouped.{
  Groups, put_group, blocks, index_of, append_at-index_of, append_at-length, index_of-put_group,
}
use gomatrixserverlib.ResolutionV1.Represents.{
  rank, same_destination, same_destination_eq, put_at, other_place,
}
use gomatrixserverlib.ResolutionV1.Stored.{
  IsStored, creates-key, power_levels-key, join_rules-key, blocks_of-with_blocks,
  creates-with_blocks, power_levels-with_blocks, join_rules-with_blocks,
}

-- What one event leaves.
abbrev pub Added :
    Destination
    → StateKeyTuple
    → Event
    → StateResolverV1
    → Offsets
    → (Destination → Groups)
    → Type 0
Added d k e r offsets g =
    (next : StateResolverV1 × Offsets) × (add_at d k e r offsets ≡ ok next)
    × IsStored next.0 next.1 (put_at d k e g)

special :
    (d : Destination) → rank d < 3 → (list : BlockList) → same_destination d (block_in list) ≡ false
special d h third_party_invites_list = ground arith
special d h members_list = ground arith
special d h others_list = ground arith

pub blocks_of_eq :
    (r next : StateResolverV1) (list : BlockList)
    → next.third_party_invites ≡ r.third_party_invites
    → next.members ≡ r.members
    → next.others ≡ r.others
    → blocks_of list next ≡ blocks_of list r
blocks_of_eq r next third_party_invites_list t m o = t
blocks_of_eq r next members_list t m o = m
blocks_of_eq r next others_list t m o = o

module _ (k : StateKeyTuple) (e : Event) (r : StateResolverV1) (offsets : Offsets)
    (g : Destination → Groups) (s : IsStored r offsets g) where
  special-lists :
      (d : Destination)
      → rank d < 3
      → (next : StateResolverV1) (list : BlockList) → blocks_of list next ≡ blocks_of list r
      → blocks (put_at d k e g (block_in list)) ≡ blocks_of list next
  special-lists d h next list same = rw (special d h list, same) (s.lists list)

  special-offset :
      (d : Destination)
      → rank d < 3
      → (j : StateKeyTuple) (list : BlockList) → destination j ≡ block_in list
      → find_offset j offsets ≡ index_of j (put_at d k e g (block_in list))
  special-offset d h j list p = rw (special d h list) (s.offset j list p)

  creates-Added : destination k ≡ creates_block → Added creates_block k e r offsets g
  unfolding put_group
  creates-Added h =
      let next : StateResolverV1 = record r { creates = r.creates ++ (e ∷ []) } in
      (
        (next, offsets),
        refl,
        record {
          creates = rw (s.creates, creates-key k h) refl;
          power_levels = s.power_levels;
          join_rules = s.join_rules;
          lists = λ list.
              special-lists creates_block (omega arith) next list
                (blocks_of_eq r next list refl refl refl);
          offset = special-offset creates_block (omega arith);
        },
      )

  power_levels-Added : destination k ≡ power_levels_block → Added power_levels_block k e r offsets g
  unfolding put_group
  power_levels-Added h =
      let next : StateResolverV1 = record r { power_levels = r.power_levels ++ (e ∷ []) } in
      (
        (next, offsets),
        refl,
        record {
          creates = s.creates;
          power_levels = rw (s.power_levels, power_levels-key k h) refl;
          join_rules = s.join_rules;
          lists = λ list.
              special-lists power_levels_block (omega arith) next list
                (blocks_of_eq r next list refl refl refl);
          offset = special-offset power_levels_block (omega arith);
        },
      )

  join_rules-Added : destination k ≡ join_rules_block → Added join_rules_block k e r offsets g
  unfolding put_group
  join_rules-Added h =
      let next : StateResolverV1 = record r { join_rules = r.join_rules ++ (e ∷ []) } in
      (
        (next, offsets),
        refl,
        record {
          creates = s.creates;
          power_levels = s.power_levels;
          join_rules = rw (s.join_rules, join_rules-key k h) refl;
          lists = λ list.
              special-lists join_rules_block (omega arith) next list
                (blocks_of_eq r next list refl refl refl);
          offset = special-offset join_rules_block (omega arith);
        },
      )

  module _ (to : BlockList) (h : destination k ≡ block_in to) where
    -- The resolver whose block list is the groups' blocks, and the offsets that go with them.
    abbrev stored_blocks : List (List Event)
    stored_blocks = blocks (put_group k e (g (block_in to)))

    not_special : (d : Destination) → rank d < 3 → same_destination (block_in to) d ≡ false
    not_special d small = ground (arith, special d small to)

    stored-lists :
        (list : BlockList)
        → blocks (put_at (block_in to) k e g (block_in list))
          ≡ blocks_of list (with_blocks to stored_blocks r)
    stored-lists list =
        rw (blocks_of-with_blocks stored_blocks r to list)
          (elim (Bool-cases (same_destination (block_in to) (block_in list))) [
            | inl b ↦
                let q : block_in to ≡ block_in list =
                  same_destination_eq (block_in to) (block_in list) b in
                rw b (ap (λ d. blocks (put_group k e (g d))) (sym q))
            | inr b ↦ rw b (s.lists list)
          ])

    with_blocks-IsStored :
        (after : Offsets)
        → ((j : StateKeyTuple) (list : BlockList)
            → destination j ≡ block_in list
            → find_offset j after ≡ index_of j (put_at (block_in to) k e g (block_in list)))
        → IsStored (with_blocks to stored_blocks r) after (put_at (block_in to) k e g)
    with_blocks-IsStored after offset = record {
      creates =
          rw (not_special creates_block (omega arith), creates-with_blocks stored_blocks r to)
            s.creates;
      power_levels =
          rw
            (
              not_special power_levels_block (omega arith),
              power_levels-with_blocks stored_blocks r to,
            )
            s.power_levels;
      join_rules =
          rw (not_special join_rules_block (omega arith), join_rules-with_blocks stored_blocks r to)
            s.join_rules;
      lists = stored-lists;
      offset = offset;
    }

    -- The groups of a list that the event goes to.
    there :
        (list : BlockList)
        → same_destination (block_in to) (block_in list) ≡ true
        → block_in to ≡ block_in list
    there list b = same_destination_eq (block_in to) (block_in list) b

    found-offset :
        (i : ℕ)
        → index_of k (g (block_in to)) ≡ some i
        → (j : StateKeyTuple) (list : BlockList) → destination j ≡ block_in list
        → find_offset j offsets ≡ index_of j (put_at (block_in to) k e g (block_in list))
    found-offset i found j list p =
        elim (Bool-cases (same_destination (block_in to) (block_in list))) [
          | inl b ↦
              let here : index_of k (g (block_in list)) ≡ some i =
                subst (λ d. index_of k (g d) ≡ some i) (there list b) found in
              rw (b, index_of-put_group k e j (g (block_in list)), here) (s.offset j list p)
          | inr b ↦ rw b (s.offset j list p)
        ]

    missing-offset :
        index_of k (g (block_in to)) ≡ none
        → (j : StateKeyTuple) (list : BlockList) → destination j ≡ block_in list
        → find_offset j ((k, length (blocks_of to r)) ∷ offsets)
          ≡ index_of j (put_at (block_in to) k e g (block_in list))
    unfolding find_offset
    missing-offset missing j list p =
        elim (Bool-cases (same_destination (block_in to) (block_in list))) [
          | inl b ↦
              let here : index_of k (g (block_in list)) ≡ none =
                subst (λ d. index_of k (g d) ≡ none) (there list b) missing in
              let size : blocks (g (block_in list)) ≡ blocks_of to r =
                subst (λ d. blocks (g d) ≡ blocks_of to r) (there list b) (s.lists to) in
              rw (b, index_of-put_group k e j (g (block_in list)), here, size, s.offset j list p)
                refl
          | inr b ↦
              let other : same_key k j ≡ false = elim (Bool-cases (same_key k j)) [
                | inl same ↦
                    let apart = other_place k (block_in list) j (rw h b) same in
                    ground (arith, apart, ap rank p)
                | inr o ↦ o
              ] in
              rw (b, other) (s.offset j list p)
        ]

    found-Added :
        (i : ℕ) → index_of k (g (block_in to)) ≡ some i → Added (block_in to) k e r offsets g
    found-Added i found = (
      (with_blocks to stored_blocks r, offsets),
      rw
          (
            s.offset k to h,
            found,
            sym (s.lists to),
            append_at-index_of k e (g (block_in to)) i found,
          )
          refl,
      with_blocks-IsStored offsets (found-offset i found),
    )

    missing-Added : index_of k (g (block_in to)) ≡ none → Added (block_in to) k e r offsets g
    missing-Added missing = (
      (with_blocks to stored_blocks r, (k, length (blocks_of to r)) ∷ offsets),
      rw
          (
            s.offset k to h,
            missing,
            sym (s.lists to),
            append_at-length k e (g (block_in to)) missing,
          )
          refl,
      with_blocks-IsStored ((k, length (blocks_of to r)) ∷ offsets) (missing-offset missing),
    )

module _ (k : StateKeyTuple) (e : Event) (r : StateResolverV1) (offsets : Offsets)
    (g : Destination → Groups) (s : IsStored r offsets g) where
  -- An event is added to the block of its key, and the offsets stay right.
  pub add_at-IsStored : (d : Destination) → destination k ≡ d → Added d k e r offsets g
  add_at-IsStored creates_block h = creates-Added k e r offsets g s h
  add_at-IsStored power_levels_block h = power_levels-Added k e r offsets g s h
  add_at-IsStored join_rules_block h = join_rules-Added k e r offsets g s h
  add_at-IsStored (block_in to) h = elim (Option-cases (index_of k (g (block_in to)))) [
    | inl missing ↦ missing-Added k e r offsets g s to h missing
    | inr (i, found) ↦ found-Added k e r offsets g s to h i found
  ]
