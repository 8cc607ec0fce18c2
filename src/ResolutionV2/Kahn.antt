-- ===== src/ResolutionV2/Kahn.antt =====
-- stateresolutionv2.go: Kahn's algorithm. The source has it twice, for events wrapped with a power
-- level, by auth events, and for events wrapped with a mainline position, by previous events: here it
-- is once, for wrapped events with an ID, the IDs that they depend on, and an order. A heap is the list
-- of its elements, the one that no other is less than first; container/heap pops that one.
pub mod Balance
pub mod Started
pub mod Complete
pub mod Mentions
pub mod Linked
pub mod Ordered
use gomatrixserverlib.Prelude.{
  ℕ, zero, suc, Bool, true, false, Option, none, some, List, [], ◌∷◌, ◌++◌, String, Assoc, lookup,
  insert, erase, values, length,
}
use gomatrixserverlib.Prelude.Int.{ℤ, pos, eq_ℤ, succ_ℤ, pred_ℤ}
use gomatrixserverlib.Prelude.Sort.{insert_sorted, sort_by}
use gomatrixserverlib.Result.{Result, ok, panic, ◌>>=◌}
use gomatrixserverlib.Event.{auth_event_ids, prev_event_ids}
use gomatrixserverlib.ResolutionV2.Order.{
  ConflictedPowerLevel, ConflictedOther, power_level_less, other_less,
}

-- `inDegree[id]`, which is 0 for an ID that is not there.
abbrev pub degree_or : Option ℤ → ℤ
degree_or none = pos 0
degree_or (some n) = n

unfoldable pub degree : String → Assoc ℤ → ℤ
degree id degrees = degree_or (lookup id degrees)

unfoldable pub increment : String → Assoc ℤ → Assoc ℤ
increment id degrees = insert id (succ_ℤ (degree id degrees)) degrees

unfoldable pub increment_all : List String → Assoc ℤ → Assoc ℤ
increment_all [] degrees = degrees
increment_all (id ∷ ids) degrees = increment_all ids (increment id degrees)

-- An ID that was not met starts with no dependencies.
abbrev pub started : String → Assoc ℤ → Option ℤ → Assoc ℤ
started id degrees none = insert id (pos 0) degrees
started id degrees (some n) = degrees

module _ {A : Type 0} (id : A → String) (deps : A → List String) (less : A → A → Bool) where
  pub record Graph : Type 0 where
    pub event_map : Assoc A
    pub in_degree : Assoc ℤ
    pub no_incoming : List A

  -- One round of the first loop.
  unfoldable pub note_event : A → Graph → Graph
  note_event event g = record g {
    event_map = insert (id event) event g.event_map;
    in_degree =
        increment_all (deps event) (started (id event) g.in_degree (lookup (id event) g.in_degree));
  }

  unfoldable pub note_events : List A → Graph → Graph
  note_events [] g = g
  note_events (event ∷ events) g = note_events events (note_event event g)

  -- The event is pushed on the heap and deleted from the map.
  abbrev pub push : String → A → Graph → Graph
  push key event g = record g {
    event_map = erase key g.event_map;
    no_incoming = insert_sorted less event g.no_incoming;
  }

  -- The nil of an ID that is not in the map would be dereferenced.
  abbrev pub push_found : String → Graph → Option A → Result Graph
  push_found key g none = panic
  push_found key g (some event) = ok (push key event g)

  abbrev pub start_with : String → Graph → Bool → Result Graph
  start_with key g true = push_found key g (lookup key g.event_map)
  start_with key g false = ok g

  -- The second loop, over the entries of the degrees.
  unfoldable pub start_all : Assoc ℤ → Graph → Result Graph
  start_all [] g = ok g
  start_all ((key, count) ∷ entries) g = start_with key g (eq_ℤ count (pos 0)) >>= start_all entries

  abbrev pub release : String → Graph → Option A → Graph
  release key g none = g
  release key g (some event) = push key event g

  abbrev pub release_if : String → Graph → Bool → Graph
  release_if key g true = release key g (lookup key g.event_map)
  release_if key g false = g

  unfoldable pub decrement : String → Graph → Graph
  decrement key g =
      let fewer = pred_ℤ (degree key g.in_degree) in
      release_if key (record g { in_degree = insert key fewer g.in_degree }) (eq_ℤ fewer (pos 0))

  unfoldable pub decrement_all : List String → Graph → Graph
  decrement_all [] g = g
  decrement_all (key ∷ keys) g = decrement_all keys (decrement key g)

  abbrev pub pop :
      (Graph → List A → Result (List A × Assoc A))
      → Graph
      → List A
      → List A
      → Result (List A × Assoc A)
  pop next g graph [] = ok (graph, g.event_map)
  pop next g graph (event ∷ rest) =
      next (decrement_all (deps event) (record g { no_incoming = rest })) (event ∷ graph)

  -- The third loop, with its fuel: each round puts one event at the front of the graph.
  unfoldable pub process : ℕ → Graph → List A → Result (List A × Assoc A)
  process zero g graph = panic
  process (suc fuel) g graph = pop (process fuel) g graph g.no_incoming

  -- The events that are left over go to the front.
  abbrev pub with_remaining : List A × Assoc A → List A
  with_remaining (graph, m) = sort_by (λ x y. less y x) (values m) ++ graph

  abbrev pub no_graph : Graph
  no_graph = record { event_map = []; in_degree = []; no_incoming = [] }

  unfoldable pub kahns_algorithm : List A → Result (List A)
  unfolding note_events start_all process
  kahns_algorithm events =
      let noted = note_events events no_graph in
      start_all noted.in_degree noted >>= λ g.
      process (suc (length events)) g [] >>= λ done. ok (with_remaining done)

abbrev pub kahns_algorithm_using_auth_events :
    List ConflictedPowerLevel → Result (List ConflictedPowerLevel)
kahns_algorithm_using_auth_events =
    kahns_algorithm (λ x. x.event_id) (λ x. auth_event_ids x.event) power_level_less

abbrev pub kahns_algorithm_using_prev_events : List ConflictedOther → Result (List ConflictedOther)
kahns_algorithm_using_prev_events =
    kahns_algorithm (λ x. x.event_id) (λ x. prev_event_ids x.event) other_less
