-- ===== src/ResolutionV1/Stored.antt =====
-- addConflicted of stateresolution.go: the lists of blocks and the offsets hold the groups.
use gomatrixserverlib.Prelude.{arith, ◌≡◌, refl, ap, true, List, [], ◌∷◌, eq_iff, if◌then◌else◌}
use gomatrixserverlib.Event.{
  Event, StateKeyTuple, m_room_create, m_room_power_levels, m_room_join_rules,
}
use gomatrixserverlib.Auth.Provider.{same_key, key}
use gomatrixserverlib.ResolutionV1.{
  BlockList, third_party_invites_list, members_list, others_list, Destination, creates_block,
  power_levels_block, join_rules_block, block_in, StateResolverV1, destination, blocks_of,
  with_blocks, Offsets, find_offset,
}
use gomatrixserverlib.ResolutionV1.Grouped.{Groups, blocks, index_of}
use gomatrixserverlib.ResolutionV1.Represents.{rank, same_destination}

-- The resolver and the offsets store the groups.
pub record IsStored (r : StateResolverV1) (offsets : Offsets) (g : Destination → Groups)
    : Type 0 where
  pub creates : g creates_block ≡ (key m_room_create "", r.creates) ∷ []
  pub power_levels : g power_levels_block ≡ (key m_room_power_levels "", r.power_levels) ∷ []
  pub join_rules : g join_rules_block ≡ (key m_room_join_rules "", r.join_rules) ∷ []
  pub lists : (list : BlockList) → blocks (g (block_in list)) ≡ blocks_of list r
  pub offset :
      (k : StateKeyTuple) (list : BlockList)
      → destination k ≡ block_in list
      → find_offset k offsets ≡ index_of k (g (block_in list))

module _ (k : StateKeyTuple) where
  pub creates-key : destination k ≡ creates_block → same_key (key m_room_create "") k ≡ true
  unfolding destination
  creates-key h = ground (
    arith,
    ap rank h,
    eq_iff "m.room.create" k.event_type,
    eq_iff "" k.state_key,
    eq_iff k.event_type "m.room.create",
    eq_iff k.state_key "",
  )

  pub power_levels-key :
      destination k ≡ power_levels_block → same_key (key m_room_power_levels "") k ≡ true
  unfolding destination
  power_levels-key h = ground (
    arith,
    ap rank h,
    eq_iff "m.room.power_levels" k.event_type,
    eq_iff "" k.state_key,
    eq_iff k.event_type "m.room.power_levels",
    eq_iff k.state_key "",
  )

  pub join_rules-key :
      destination k ≡ join_rules_block → same_key (key m_room_join_rules "") k ≡ true
  unfolding destination
  join_rules-key h = ground (
    arith,
    ap rank h,
    eq_iff "m.room.join_rules" k.event_type,
    eq_iff "" k.state_key,
    eq_iff k.event_type "m.room.join_rules",
    eq_iff k.state_key "",
  )

module _ (new : List (List Event)) (r : StateResolverV1) where
  pub blocks_of-with_blocks :
      (to list : BlockList)
      → blocks_of list (with_blocks to new r)
        ≡ (if same_destination (block_in to) (block_in list) then new else blocks_of list r)
  blocks_of-with_blocks third_party_invites_list third_party_invites_list = refl
  blocks_of-with_blocks third_party_invites_list members_list = refl
  blocks_of-with_blocks third_party_invites_list others_list = refl
  blocks_of-with_blocks members_list third_party_invites_list = refl
  blocks_of-with_blocks members_list members_list = refl
  blocks_of-with_blocks members_list others_list = refl
  blocks_of-with_blocks others_list third_party_invites_list = refl
  blocks_of-with_blocks others_list members_list = refl
  blocks_of-with_blocks others_list others_list = refl

  pub creates-with_blocks : (to : BlockList) → (with_blocks to new r).creates ≡ r.creates
  creates-with_blocks third_party_invites_list = refl
  creates-with_blocks members_list = refl
  creates-with_blocks others_list = refl

  pub power_levels-with_blocks :
      (to : BlockList) → (with_blocks to new r).power_levels ≡ r.power_levels
  power_levels-with_blocks third_party_invites_list = refl
  power_levels-with_blocks members_list = refl
  power_levels-with_blocks others_list = refl

  pub join_rules-with_blocks : (to : BlockList) → (with_blocks to new r).join_rules ≡ r.join_rules
  join_rules-with_blocks third_party_invites_list = refl
  join_rules-with_blocks members_list = refl
  join_rules-with_blocks others_list = refl
