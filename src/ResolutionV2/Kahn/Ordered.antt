-- ===== src/ResolutionV2/Kahn/Ordered.antt =====
-- Kahn's algorithm of stateresolutionv2.go: the order of the result.
use gomatrixserverlib.Prelude.{
  ℕ, zero, suc, ◌+◌, ◌<◌, ◌≤◌, ◌≡◌, refl, ap, sym, ◌∙◌, subst, arith, inl, inr, Bool, true, false,
  Bool-cases, Option, none, some, List, [], ◌∷◌, String, ◌==◌, eq_iff, eq_refl, Assoc, lookup,
  values, length, All, All-imp, All-of_forall, any, some_inj,
}
use gomatrixserverlib.Prelude.Int.{ℤ, pos, eq_ℤ, eq_of_parts}
use gomatrixserverlib.Prelude.Entries.{HasOneEach, IsThere}
use gomatrixserverlib.Prelude.Sort.{sort_by}
use gomatrixserverlib.Result.{Result, ok, ok->>=, >>=-eq-ok, ok_inj}
use gomatrixserverlib.ResolutionV2.Kahn.{
  Graph, push_found, start_with, start_all, note_events, no_graph, degree, degree_or,
  with_remaining, kahns_algorithm,
}
use gomatrixserverlib.ResolutionV2.Kahn.Mentions.{
  count_id, mentions, AreDistinct, IsTallied, note_events-IsTallied,
}
use gomatrixserverlib.ResolutionV2.Kahn.Linked.{
  IsOrdered, IsLinked, less_busy, push-IsLinked, Idle, IsEnd, process-IsEnd, Nat-cases,
}
use gomatrixserverlib.ResolutionV2.Kahn.Complete.{runs}
use gomatrixserverlib.ResolutionV2.Kahn.Started.{IsNoted}

module _ {ℓ} {V : Type ℓ} where
  entries-lookup :
      (m : Assoc V) → HasOneEach m → All (λ (x : String × V). lookup x.0 m ≡ some x.1) m
  unfolding lookup
  entries-lookup [] o = tt
  entries-lookup ((k, v) ∷ m) o = (
    rw (eq_refl k) refl,
    All-imp (λ (x : String × V). lookup x.0 m ≡ some x.1)
        (λ (x : String × V). lookup x.0 ((k, v) ∷ m) ≡ some x.1)
        (λ x h. elim (Bool-cases (k == x.0)) [
          | inl b ↦ cc (subst (λ t. lookup t m ≡ none) ((eq_iff k x.0).0 b) o.0, h)
          | inr b ↦ rw b h
        ])
        m (entries-lookup m o.1),
  )

module _ {A : Type 0} (id : A → String) (deps : A → List String) (less : A → A → Bool) where
  -- The entries that the second loop has yet to look at.
  abbrev Ahead : Assoc ℤ → String → Type 0
  Ahead entries k = IsThere (lookup k entries)

  abbrev Agree : Assoc ℤ → Assoc ℤ → Type 0
  Agree d entries = All (λ (x : String × ℤ). degree x.0 d ≡ x.1) entries

  agrees : (d : Assoc ℤ) → HasOneEach d → Agree d d
  unfolding degree
  agrees d o =
      All-imp (λ (x : String × ℤ). lookup x.0 d ≡ some x.1) (λ (x : String × ℤ). degree x.0 d ≡ x.1)
        (λ x h. ap degree_or h) d (entries-lookup d o)

  -- What one entry leaves.
  abbrev Next : Assoc ℤ → Result (Graph id deps less) → Type 0
  Next entries r =
      (next : Graph id deps less)
      → r ≡ ok next
      → IsLinked id deps less (Ahead entries) [] next [] × Agree next.in_degree entries

  module _ (key : String) (n : ℤ) (entries : Assoc ℤ) (g : Graph id deps less)
      (l : IsLinked id deps less (Ahead ((key, n) ∷ entries)) [] g [])
      (here : degree key g.in_degree ≡ n) (rest : Agree g.in_degree entries) where
    ahead : (k : String) → (key == k) ≡ false → Ahead ((key, n) ∷ entries) k → Ahead entries k
    unfolding lookup
    ahead k b h = rw b at h

    found-Next :
        (o : Option A)
        → lookup key g.event_map ≡ o
        → n ≡ pos 0
        → Next entries (push_found id deps less key g o)
    found-Next none h z next done = cc
    found-Next (some e) h z next done =
        subst (λ x. IsLinked id deps less (Ahead entries) [] x [] × Agree x.in_degree entries)
          (ok_inj done)
          (
            push-IsLinked id deps less (Ahead ((key, n) ∷ entries)) (Ahead entries) [] g [] key e h
                (here ∙ z) ahead l,
            rest,
          )

    start_with-Next :
        (b : Bool) → eq_ℤ n (pos 0) ≡ b → Next entries (start_with id deps less key g b)
    start_with-Next true h next done =
        found-Next (lookup key g.event_map) refl (eq_of_parts n (pos 0) (ground (arith, h))) next
          done
    start_with-Next false h next done =
        subst (λ x. IsLinked id deps less (Ahead entries) [] x [] × Agree x.in_degree entries)
          (ok_inj done)
          (
            less_busy id deps less (Ahead ((key, n) ∷ entries)) (Ahead entries) [] g []
                (λ k e _ z busy. elim (Bool-cases (key == k)) [
                  | inl b ↦
                      let zero : n ≡ pos 0 =
                        sym here
                        ∙ subst (λ t. degree t g.in_degree ≡ pos 0) (sym ((eq_iff key k).0 b)) z in
                      cc (ap (λ t. eq_ℤ t (pos 0)) zero, h)
                  | inr b ↦ ahead k b busy
                ])
                l,
            rest,
          )

  start_all-IsLinked :
      (entries : Assoc ℤ) (g next : Graph id deps less)
      → IsLinked id deps less (Ahead entries) [] g []
      → Agree g.in_degree entries
      → start_all id deps less entries g ≡ ok next
      → IsLinked id deps less (Idle id deps less) [] next []
  unfolding start_all lookup
  start_all-IsLinked [] g next l a h =
      subst (λ x. IsLinked id deps less (Idle id deps less) [] x []) (ok_inj h)
        (less_busy id deps less (Ahead []) (Idle id deps less) [] g []
          (λ k e _ _ none_left. none_left) l)
  start_all-IsLinked ((key, n) ∷ entries) g next l a h =
      let (after, first, more) =
        >>=-eq-ok (start_with id deps less key g (eq_ℤ n (pos 0))) (start_all id deps less entries)
          h in
      let (linked, agree) =
        start_with-Next key n entries g l a.0 a.1 (eq_ℤ n (pos 0)) refl after first in
      start_all-IsLinked entries after next linked agree more

  -- Chains of events, each depended on by the next, get ever higher ranks.
  module _ (ρ : String → ℕ) where
    abbrev pub IsRanked : A → Type 0
    IsRanked e = All (λ d. ρ d < ρ (id e)) (deps e)

    counted-lt :
        (k : String) (n : ℕ) (ids : List String)
        → All (λ d. ρ d < n) ids
        → 0 < count_id k ids
        → ρ k < n
    counted-lt k n [] h p = absurd (omega (arith, p))
    counted-lt k n (d ∷ ids) h p = elim (Bool-cases (d == k)) [
      | inl b ↦ subst (λ t. ρ t < n) ((eq_iff d k).0 b) h.0
      | inr b ↦ counted-lt k n ids h.1 (rw b at p)
    ]

    -- An ID that is mentioned has an event of a higher rank.
    mentioned :
        (k : String) (m : Assoc A)
        → HasOneEach m
        → All IsRanked (values m)
        → 0 < mentions id deps less k (values m)
        → (j : String) × (e : A) × (lookup j m ≡ some e) × (ρ k < ρ (id e))
    unfolding mentions lookup
    mentioned k [] o r p = absurd (omega (arith, p))
    mentioned k ((j, e) ∷ m) o r p = elim (Nat-cases (count_id k (deps e))) [
      | inl z ↦
          let (i, x, found, higher) = mentioned k m o.1 r.1 (omega (arith, p, z)) in
          (
            i,
            x,
            elim (Bool-cases (j == i)) [
              | inl b ↦ cc (subst (λ t. lookup t m ≡ none) ((eq_iff j i).0 b) o.0, found)
              | inr b ↦ rw b found
            ],
            higher,
          )
      | inr c ↦ (j, e, rw (eq_refl j) refl, counted-lt k (ρ (id e)) (deps e) r.0 c)
    ]

    -- The ranks of the events of a map have a bound.
    bound : (m : Assoc A) → (n : ℕ) × ((k : String) (e : A) → lookup k m ≡ some e → ρ (id e) ≤ n)
    unfolding lookup
    bound [] = (0, λ k e h. cc)
    bound ((j, x) ∷ m) =
        let (n, h) = bound m in
        (
          n + ρ (id x),
          λ k e found. elim (Bool-cases (j == k)) [
            | inl b ↦
                let same : ρ (id x) ≡ ρ (id e) = ap (λ t. ρ (id t)) (some_inj (rw b at found)) in
                omega (arith, same)
            | inr b ↦ omega (arith, h k e (rw b at found))
          ],
        )

    climb :
        (graph : List A) (m : Assoc A) (k : String) (e : A)
        → IsEnd id deps less graph m
        → All IsRanked (values m)
        → lookup k m ≡ some e
        → (n : ℕ) → (j : String) × (x : A) × (lookup j m ≡ some x) × (n ≤ ρ (id x))
    climb graph m k e end r found zero = (k, e, found, omega arith)
    climb graph m k e end r found (suc n) =
        let (j, x, there, high) = climb graph m k e end r found n in
        let (i, y, next, higher) = mentioned j m end.distinct r (end.stuck j x there) in
        (i, y, next, omega (arith, high, higher, ap ρ (end.keyed j x there)))

    nothing_left :
        (graph : List A) (m : Assoc A)
        → IsEnd id deps less graph m
        → All IsRanked (values m)
        → m ≡ []
    unfolding lookup
    nothing_left graph [] end r = refl
    nothing_left graph ((k, e) ∷ m) end r =
        let (n, bounded) = bound ((k, e) ∷ m) in
        let (j, x, there, high) =
          climb graph ((k, e) ∷ m) k e end r (rw (eq_refl k) refl) (suc n) in
        absurd (omega (arith, high, bounded j x there))

    noted-IsLinked :
        (seen : String → Bool) (noted : Graph id deps less)
        → IsNoted id deps less IsRanked seen noted
        → IsTallied id deps less noted
        → IsLinked id deps less (Ahead noted.in_degree) [] noted []
    unfolding mentions
    noted-IsLinked seen noted n t = record {
      keyed = n.keyed;
      distinct = n.distinct;
      counts = λ k. t.counts k ∙ ap pos (omega (arith, ap (mentions id deps less k) n.no_heap));
      in_heap = subst (All (λ y. degree (id y) noted.in_degree ≡ pos 0)) (sym n.no_heap) tt;
      in_graph = tt;
      waiting = λ k e h _. t.known k e h;
      ordered = tt;
    }

    nothing-IsTallied : IsTallied id deps less (no_graph id deps less)
    unfolding lookup degree mentions
    nothing-IsTallied = record { counts = λ k. refl; known = λ k e h. cc }

    -- If the events have different IDs and each depends on IDs of a lower rank alone, Kahn's algorithm
    -- ends, without a panic, with an order in which no event depends on one that comes after it.
    pub kahns_algorithm-IsOrdered :
        (events : List A)
        → AreDistinct id deps less events
        → All IsRanked events
        → (result : List A) × (kahns_algorithm id deps less events ≡ ok result)
          × IsOrdered id deps less result
    unfolding kahns_algorithm sort_by lookup
    kahns_algorithm-IsOrdered events distinct ranked =
        let r = runs id deps less IsRanked events ranked in
        let noted = note_events id deps less events (no_graph id deps less) in
        let tallied =
          note_events-IsTallied id deps less events (no_graph id deps less) distinct
            (All-of_forall _ (λ x. refl) events) nothing-IsTallied in
        let linked =
          start_all-IsLinked noted.in_degree noted r.started
            (noted-IsLinked (λ i. any (λ x. id x == i) events) noted r.noted tallied)
            (agrees noted.in_degree (r.noted).one_degree) r.starts in
        let end =
          process-IsEnd id deps less (suc (length events)) r.started [] (r.done).0 (r.done).1 linked
            r.ends in
        let (_, _, _, in_map, _) = r.complete in
        let none_left = nothing_left (r.done).0 (r.done).1 end in_map in
        (
          (r.done).0,
          ok->>= r.starts _
              ∙ ok->>= r.ends _
              ∙ ap (λ m. ok (with_remaining id deps less ((r.done).0, m))) none_left,
          end.ordered,
        )
