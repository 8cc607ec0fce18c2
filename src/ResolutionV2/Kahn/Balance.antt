-- ===== src/ResolutionV2/Kahn/Balance.antt =====
-- Kahn's algorithm of stateresolutionv2.go: no event is lost or met twice, from the map over the heap
-- to the graph.
use gomatrixserverlib.Prelude.{
  ℕ, zero, suc, ◌+◌, ◌<◌, ◌≤◌, ◌≡◌, refl, ap, sym, ◌∙◌, subst, arith, inl, inr, Bool, true, false,
  Bool-cases, Option, none, some, List, [], ◌∷◌, String, ◌==◌, eq_iff, Assoc, lookup, insert,
  values, lookup-erase, length, All,
}
use gomatrixserverlib.Prelude.Int.{ℤ, pos, eq_ℤ, pred_ℤ}
use gomatrixserverlib.Prelude.Entries.{
  HasOneEach, erase-HasOneEach, length-erase-lt, All-values-erase, All-values-lookup,
}
use gomatrixserverlib.Prelude.Sort.{count, insert_sorted, All-insert_sorted, count-insert_sorted}
use gomatrixserverlib.Result.{Result, ok}
use gomatrixserverlib.ResolutionV2.Kahn.{
  Graph, push, release, release_if, decrement, decrement_all, degree, pop, process,
}

module _ {A : Type 0} (id : A → String) (deps : A → List String) (less : A → A → Bool)
    (P : A → Type 0) where
  abbrev pub is : String → A → Bool
  is i x = id x == i

  abbrev pub here : Option A → ℕ
  here none = 0
  here (some x) = 1

  -- Each event stands under its ID.
  abbrev pub IsKeyed : Assoc A → Type 0
  IsKeyed m = (key : String) (event : A) → lookup key m ≡ some event → id event ≡ key

  -- How often an ID is met in the map, on the heap and in the graph.
  abbrev pub tally : String → Graph id deps less → List A → ℕ
  tally i g graph = here (lookup i g.event_map) + (count (is i) g.no_incoming + count (is i) graph)

  pub record IsBalanced (total : String → ℕ) (g : Graph id deps less) (graph : List A)
      : Type 0 where
    pub keyed : IsKeyed g.event_map
    pub distinct : HasOneEach g.event_map
    pub balance : (i : String) → tally i g graph ≡ total i
    pub in_map : All P (values g.event_map)
    pub in_heap : All P g.no_incoming
    pub in_graph : All P graph

  abbrev pub size : Graph id deps less → ℕ
  size g = length g.event_map + length g.no_incoming

  length-insert_sorted : (x : A) (xs : List A) → length (insert_sorted less x xs) ≡ suc (length xs)
  unfolding insert_sorted
  length-insert_sorted x [] = omega arith
  length-insert_sorted x (y ∷ ys) = ground (arith, length-insert_sorted x ys)

  module _ (total : String → ℕ) (key : String) (g : Graph id deps less) (graph : List A) where
    push-balance :
        (event : A) (i : String)
        → id event ≡ key
        → lookup key g.event_map ≡ some event
        → tally i (push id deps less key event g) graph ≡ tally i g graph
    push-balance event i same found =
        rw
          (
            lookup-erase key i g.event_map,
            count-insert_sorted less (is i) event g.no_incoming,
            same,
          )
          (elim (Bool-cases (key == i)) [
            | inl b ↦
                let there : lookup i g.event_map ≡ some event =
                  subst (λ k. lookup k g.event_map ≡ some event) ((eq_iff key i).0 b) found in
                rw (b, there) (ground arith)
            | inr b ↦ rw b refl
          ])

    pub push-IsBalanced :
        (event : A)
        → lookup key g.event_map ≡ some event
        → IsBalanced total g graph
        → IsBalanced total (push id deps less key event g) graph
    push-IsBalanced event found b = record {
      keyed = λ k e h. b.keyed k e (elim (Bool-cases (key == k)) [
        | inl s ↦ cc (lookup-erase key k g.event_map, s, h)
        | inr s ↦ sym (lookup-erase key k g.event_map ∙ rw s refl) ∙ h
      ]);
      distinct = erase-HasOneEach key g.event_map b.distinct;
      balance = λ i. push-balance event i (b.keyed key event found) found ∙ b.balance i;
      in_map = All-values-erase P key g.event_map b.in_map;
      in_heap =
          All-insert_sorted P less event g.no_incoming
            (All-values-lookup P key g.event_map b.in_map found) b.in_heap;
      in_graph = b.in_graph;
    }

    pub push-size :
        (event : A)
        → lookup key g.event_map ≡ some event
        → size (push id deps less key event g) ≤ size g
    push-size event found = omega (
      arith,
      length-erase-lt key g.event_map event found,
      length-insert_sorted event g.no_incoming,
    )

    release-IsBalanced :
        (found : Option A)
        → lookup key g.event_map ≡ found
        → IsBalanced total g graph
        → IsBalanced total (release id deps less key g found) graph
          × (size (release id deps less key g found) ≤ size g)
    release-IsBalanced none h b = (b, omega arith)
    release-IsBalanced (some event) h b = (push-IsBalanced event h b, push-size event h)

    release_if-IsBalanced :
        (at_zero : Bool)
        → IsBalanced total g graph
        → IsBalanced total (release_if id deps less key g at_zero) graph
          × (size (release_if id deps less key g at_zero) ≤ size g)
    release_if-IsBalanced true b = release-IsBalanced (lookup key g.event_map) refl b
    release_if-IsBalanced false b = (b, omega arith)

  module _ (total : String → ℕ) where
    pub with_degrees :
        (g : Graph id deps less) (d : Assoc ℤ) (graph : List A)
        → IsBalanced total g graph
        → IsBalanced total (record g { in_degree = d }) graph
    with_degrees g d graph b = record {
      keyed = b.keyed;
      distinct = b.distinct;
      balance = b.balance;
      in_map = b.in_map;
      in_heap = b.in_heap;
      in_graph = b.in_graph;
    }

    decrement_all-IsBalanced :
        (keys : List String) (g : Graph id deps less) (graph : List A)
        → IsBalanced total g graph
        → IsBalanced total (decrement_all id deps less keys g) graph
          × (size (decrement_all id deps less keys g) ≤ size g)
    unfolding decrement_all decrement
    decrement_all-IsBalanced [] g graph b = (b, omega arith)
    decrement_all-IsBalanced (key ∷ keys) g graph b =
        let fewer = pred_ℤ (degree key g.in_degree) in
        let noted = record g { in_degree = insert key fewer g.in_degree } in
        let (first, smaller) =
          release_if-IsBalanced total key noted graph (eq_ℤ fewer (pos 0))
            (with_degrees g (insert key fewer g.in_degree) graph b) in
        let (last, small) =
          decrement_all-IsBalanced keys (decrement id deps less key g) graph first in
        (last, omega (arith, smaller, small))

    popped-IsBalanced :
        (g : Graph id deps less) (event : A) (rest graph : List A)
        → g.no_incoming ≡ event ∷ rest
        → IsBalanced total g graph
        → IsBalanced total (record g { no_incoming = rest }) (event ∷ graph)
    popped-IsBalanced g event rest graph h b =
        let heap : All P (event ∷ rest) = subst (All P) h b.in_heap in
        record {
          keyed = b.keyed;
          distinct = b.distinct;
          balance = λ i. let before = ap (count (is i)) h in ground (arith, before, b.balance i);
          in_map = b.in_map;
          in_heap = heap.1;
          in_graph = (heap.0, b.in_graph);
        }

    -- What the third loop ends with.
    abbrev pub Done : List A × Assoc A → Type 0
    Done (graph, m) =
        IsKeyed m
        × HasOneEach m
        × ((i : String) → here (lookup i m) + count (is i) graph ≡ total i)
        × All P (values m)
        × All P graph

    -- One round, given that the rounds after it end well.
    pop-Done :
        (next : Graph id deps less → List A → Result (List A × Assoc A)) (fuel : ℕ)
        (g : Graph id deps less) (graph heap : List A)
        → ((after : Graph id deps less) (longer : List A)
            → size after < fuel
            → IsBalanced total after longer
            → (done : List A × Assoc A) × (next after longer ≡ ok done) × Done done)
        → size g < suc fuel
        → IsBalanced total g graph
        → g.no_incoming ≡ heap
        → (done : List A × Assoc A) × (pop id deps less next g graph heap ≡ ok done) × Done done
    pop-Done next fuel g graph [] go small b h = (
      (graph, g.event_map),
      refl,
      (
        b.keyed,
        b.distinct,
        (λ i. let none_left = ap (count (is i)) h in ground (arith, none_left, b.balance i)),
        b.in_map,
        b.in_graph,
      ),
    )
    pop-Done next fuel g graph (event ∷ rest) go small b h =
        let (after, smaller) =
          decrement_all-IsBalanced (deps event) (record g { no_incoming = rest }) (event ∷ graph)
            (popped-IsBalanced g event rest graph h b) in
        go (decrement_all id deps less (deps event) (record g { no_incoming = rest }))
          (event ∷ graph) (omega (arith, small, smaller, ap length h)) after

    pub process-Done :
        (fuel : ℕ) (g : Graph id deps less) (graph : List A)
        → size g < fuel
        → IsBalanced total g graph
        → (done : List A × Assoc A) × (process id deps less fuel g graph ≡ ok done) × Done done
    unfolding process
    process-Done zero g graph small b = absurd (omega (arith, small))
    process-Done (suc fuel) g graph small b =
        pop-Done (process id deps less fuel) fuel g graph g.no_incoming (process-Done fuel) small b
          refl
