-- ===== src/ResolutionV1.antt =====
-- stateresolution.go: the state of `stateResolver`, how the conflicted events are grouped in it, and
-- how an event is added to the resolved auth events and removed from them.
pub mod Blocks
pub mod Grouped
pub mod Represents
pub mod Stored
pub mod Added
pub mod Collected
pub mod Conflicts
pub mod OnePerKey
pub mod Sorted
pub mod Returns
pub mod Total
use gomatrixserverlib.Prelude.{
  ℕ, zero, suc, Option, none, some, List, [], ◌∷◌, ◌++◌, String, ◌==◌, if◌then◌else◌, Assoc, lookup,
  insert, length,
}
use gomatrixserverlib.Result.{Result, ok, err, panic, ◌>>=◌}
use gomatrixserverlib.Event.{
  Event, StateKeyTuple, m_room_create, m_room_join_rules, m_room_power_levels, m_room_member,
  m_room_third_party_invite, state_key_equals,
}
use gomatrixserverlib.Auth.Provider.{AuthEventProvider, same_key, key}

-- The lists of blocks that `blockList` points to.
pub data BlockList : Type 0 where
  third_party_invites_list members_list others_list : BlockList

-- Where an event is added: a list of one block, or the block of its key in a list of blocks.
pub data Destination : Type 0 where
  creates_block power_levels_block join_rules_block : Destination
  block_in : BlockList → Destination

-- The resolved auth events, a section of `stateResolver`. A nil entry of the two maps is an entry with
-- nothing in it.
pub record ResolvedAuthEvents : Type 0 where
  pub create : Option Event
  pub power_levels : Option Event
  pub join_rules : Option Event
  pub third_party_invites : Assoc (Option Event)
  pub members : Assoc (Option Event)

pub record StateResolverV1 : Type 0 where
  pub creates : List Event
  pub power_levels : List Event
  pub join_rules : List Event
  pub third_party_invites : List (List Event)
  pub members : List (List Event)
  pub others : List (List Event)
  pub resolved : ResolvedAuthEvents
  pub result : List Event

abbrev pub no_auth_events : ResolvedAuthEvents
no_auth_events = record {
  create = none;
  power_levels = none;
  join_rules = none;
  third_party_invites = [];
  members = [];
}

abbrev pub empty_resolver : StateResolverV1
empty_resolver = record {
  creates = [];
  power_levels = [];
  join_rules = [];
  third_party_invites = [];
  members = [];
  others = [];
  resolved = no_auth_events;
  result = [];
}

abbrev pub entry : Option (Option Event) → Option Event
entry none = none
entry (some found) = found

-- The resolver as an `AuthEventProvider`.
unfoldable pub resolver_v1_provider : ResolvedAuthEvents → AuthEventProvider
resolver_v1_provider r = record {
  create = ok r.create;
  join_rules = ok r.join_rules;
  power_levels = ok r.power_levels;
  member = λ sk. ok (entry (lookup sk r.members));
  third_party_invite = λ sk. ok (entry (lookup sk r.third_party_invites));
}

-- `*event.StateKey()`
abbrev pub deref : Option String → Result String
deref none = panic
deref (some sk) = ok sk

abbrev pub conflict_key : Event → Result StateKeyTuple
conflict_key event = deref event.state_key >>= λ sk. ok (key event.event_type sk)

-- The switch over the type of the key.
unfoldable pub destination : StateKeyTuple → Destination
destination k =
    if k.event_type == m_room_create
    then (if k.state_key == "" then creates_block else block_in others_list)
    else if k.event_type == m_room_power_levels
    then (if k.state_key == "" then power_levels_block else block_in others_list)
    else if k.event_type == m_room_join_rules
    then (if k.state_key == "" then join_rules_block else block_in others_list)
    else if k.event_type == m_room_member
    then block_in members_list
    else if k.event_type == m_room_third_party_invite
    then block_in third_party_invites_list
    else block_in others_list

abbrev pub blocks_of : BlockList → StateResolverV1 → List (List Event)
blocks_of third_party_invites_list r = r.third_party_invites
blocks_of members_list r = r.members
blocks_of others_list r = r.others

abbrev pub with_blocks : BlockList → List (List Event) → StateResolverV1 → StateResolverV1
with_blocks third_party_invites_list blocks r = record r { third_party_invites = blocks }
with_blocks members_list blocks r = record r { members = blocks }
with_blocks others_list blocks r = record r { others = blocks }

-- The offsets, with one entry for each key.
abbrev pub Offsets : Type 0
Offsets = List (StateKeyTuple × ℕ)

unfoldable pub find_offset : StateKeyTuple → Offsets → Option ℕ
find_offset k [] = none
find_offset k ((j, i) ∷ m) = if same_key j k then some i else find_offset k m

abbrev pub cons_ok {ℓ} : {A : Type ℓ} → A → Result (List A) → Result (List A)
cons_ok x (ok xs) = ok (x ∷ xs)
cons_ok x (err e) = err e
cons_ok x panic = panic

-- `block := &(*blockList)[offset]; *block = append(*block, event)`
unfoldable pub append_at : ℕ → Event → List (List Event) → Result (List (List Event))
append_at i event [] = panic
append_at zero event (block ∷ blocks) = ok ((block ++ (event ∷ [])) ∷ blocks)
append_at (suc i) event (block ∷ blocks) = cons_ok block (append_at i event blocks)

-- The block list with the offset of the key's block, which is added where it is missing.
abbrev pub find_block :
    StateKeyTuple → Offsets → List (List Event) → Option ℕ → ℕ × List (List Event) × Offsets
find_block k offsets blocks (some offset) = (offset, blocks, offsets)
find_block k offsets blocks none =
    (length blocks, blocks ++ ([] ∷ []), (k, length blocks) ∷ offsets)

abbrev pub add_to_block :
    BlockList
    → StateKeyTuple
    → Event
    → StateResolverV1
    → Offsets
    → Result (StateResolverV1 × Offsets)
add_to_block to k event r offsets =
    let (offset, blocks, after) = find_block k offsets (blocks_of to r) (find_offset k offsets) in
    append_at offset event blocks >>= λ appended. ok (with_blocks to appended r, after)

abbrev pub add_at :
    Destination
    → StateKeyTuple
    → Event
    → StateResolverV1
    → Offsets
    → Result (StateResolverV1 × Offsets)
add_at creates_block k event r offsets =
    ok (record r { creates = r.creates ++ (event ∷ []) }, offsets)
add_at power_levels_block k event r offsets =
    ok (record r { power_levels = r.power_levels ++ (event ∷ []) }, offsets)
add_at join_rules_block k event r offsets =
    ok (record r { join_rules = r.join_rules ++ (event ∷ []) }, offsets)
add_at (block_in list) k event r offsets = add_to_block list k event r offsets

unfoldable pub add_conflicted_from : List Event → StateResolverV1 → Offsets → Result StateResolverV1
unfolding find_offset append_at destination
add_conflicted_from [] r offsets = ok r
add_conflicted_from (event ∷ events) r offsets = conflict_key event >>= λ k.
    add_at (destination k) k event r offsets >>= λ next. add_conflicted_from events next.0 next.1

unfoldable pub add_conflicted : List Event → StateResolverV1 → Result StateResolverV1
add_conflicted events r = add_conflicted_from events r []

unfoldable pub add_auth_event : Event → ResolvedAuthEvents → Result ResolvedAuthEvents
add_auth_event event r =
    let t = event.event_type in
    if t == m_room_create
    then ok (if state_key_equals event "" then record r { create = some event } else r)
    else if t == m_room_power_levels
    then ok (if state_key_equals event "" then record r { power_levels = some event } else r)
    else if t == m_room_join_rules
    then ok (if state_key_equals event "" then record r { join_rules = some event } else r)
    else if t == m_room_member
    then (deref event.state_key >>= λ sk.
        ok (record r { members = insert sk (some event) r.members }))
    else if t == m_room_third_party_invite
    then (deref event.state_key >>= λ sk.
        ok (record r { third_party_invites = insert sk (some event) r.third_party_invites }))
    else ok r

unfoldable pub remove_auth_event : String → String → ResolvedAuthEvents → ResolvedAuthEvents
remove_auth_event t sk r =
    if t == m_room_create
    then (if sk == "" then record r { create = none } else r)
    else if t == m_room_power_levels
    then (if sk == "" then record r { power_levels = none } else r)
    else if t == m_room_join_rules
    then (if sk == "" then record r { join_rules = none } else r)
    else if t == m_room_member
    then record r { members = insert sk none r.members }
    else if t == m_room_third_party_invite
    then record r { third_party_invites = insert sk none r.third_party_invites }
    else r
