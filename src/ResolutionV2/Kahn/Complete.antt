-- ===== src/ResolutionV2/Kahn/Complete.antt =====
-- Kahn's algorithm of stateresolutionv2.go: the second loop, and the result.
use gomatrixserverlib.Prelude.{
  ℕ, zero, suc, ◌≤◌, ◌≡◌, refl, ap, sym, ◌∙◌, subst, arith, inl, inr, Bool, false, Bool-cases,
  Option, none, some, List, [], ◌∷◌, String, ◌==◌, eq_iff, eq_refl, if◌then◌else◌, Assoc, lookup,
  values, length, All, All-append, any,
}
use gomatrixserverlib.Prelude.Int.{ℤ, pos, negsuc, eq_ℤ}
use gomatrixserverlib.Prelude.Entries.{HasOneEach}
use gomatrixserverlib.Prelude.Sort.{count, count-append, sort_by, All-sort_by, count-sort_by}
use gomatrixserverlib.Result.{ok, ok->>=}
use gomatrixserverlib.ResolutionV2.Kahn.{
  Graph, push, push_found, start_with, start_all, note_events, started, no_graph, process,
  with_remaining, kahns_algorithm,
}
use gomatrixserverlib.ResolutionV2.Kahn.Balance.{
  is, here, IsKeyed, IsBalanced, size, push-IsBalanced, push-size, Done, process-Done,
}
use gomatrixserverlib.ResolutionV2.Kahn.Started.{
  IsStarted, EntriesStarted, AreStarted-entries, erase-entries, IsNoted, note_events-IsNoted,
  note_events-length,
}

module _ {A : Type 0} (id : A → String) (deps : A → List String) (less : A → A → Bool)
    (P : A → Type 0) where
  -- What the second loop keeps.
  record IsStarting (total : String → ℕ) (entries : Assoc ℤ) (before g : Graph id deps less)
      : Type 0 where
    balanced : IsBalanced id deps less P total g []
    ready : EntriesStarted g.event_map entries
    no_larger : size id deps less P g ≤ size id deps less P before

  start_with-IsStarting :
      (total : String → ℕ) (key : String) (n : ℤ) (found : Option A) (entries : Assoc ℤ)
      (g : Graph id deps less)
      → lookup key g.event_map ≡ found
      → IsStarted (some n) found
      → lookup key entries ≡ none
      → EntriesStarted g.event_map entries
      → IsBalanced id deps less P total g []
      → (next : Graph id deps less) × (start_with id deps less key g (eq_ℤ n (pos 0)) ≡ ok next)
        × IsStarting total entries g next
  start_with-IsStarting total key (pos zero) none entries g h s alone e b = absurd s
  start_with-IsStarting total key (pos zero) (some event) entries g h s alone e b = (
    push id deps less key event g,
    ap (push_found id deps less key g) h,
    record {
      balanced = push-IsBalanced id deps less P total key g [] event h b;
      ready = erase-entries key entries g.event_map alone e;
      no_larger = push-size id deps less P total key g [] event h;
    },
  )
  start_with-IsStarting total key (pos (suc n)) found entries g h s alone e b =
      let no : eq_ℤ (pos (suc n)) (pos 0) ≡ false = ground arith in
      (
        g,
        ap (start_with id deps less key g) no,
        record { balanced = b; ready = e; no_larger = omega arith },
      )
  start_with-IsStarting total key (negsuc n) found entries g h s alone e b = absurd s

  start_all-IsStarting :
      (total : String → ℕ) (entries : Assoc ℤ) (g : Graph id deps less)
      → HasOneEach entries
      → EntriesStarted g.event_map entries
      → IsBalanced id deps less P total g []
      → (next : Graph id deps less) × (start_all id deps less entries g ≡ ok next)
        × IsStarting total [] g next
  unfolding start_all
  start_all-IsStarting total [] g o e b =
      (g, refl, record { balanced = b; ready = tt; no_larger = omega arith })
  start_all-IsStarting total ((key, n) ∷ entries) g o e b =
      let (next, h, s) =
        start_with-IsStarting total key n (lookup key g.event_map) entries g refl e.0 o.0 e.1 b in
      let (last, rest, t) = start_all-IsStarting total entries next o.1 s.ready s.balanced in
      (
        last,
        ok->>= h _ ∙ rest,
        record {
          balanced = t.balanced;
          ready = tt;
          no_larger = omega (arith, s.no_larger, t.no_larger);
        },
      )

  count-values :
      (i : String) (m : Assoc A)
      → IsKeyed id deps less P m
      → HasOneEach m
      → count (λ x. id x == i) (values m) ≡ here id deps less P (lookup i m)
  unfolding lookup
  count-values i [] keyed one = refl
  count-values i ((k, e) ∷ m) keyed one =
      let same : id e ≡ k = keyed k e (rw (eq_refl k) refl) in
      let rest : IsKeyed id deps less P m = λ j x h. elim (Bool-cases (k == j)) [
        | inl b ↦ cc (subst (λ t. lookup t m ≡ none) ((eq_iff k j).0 b) one.0, h)
        | inr b ↦ keyed j x (rw b h)
      ] in
      let tail = count-values i m rest one.1 in
      elim (Bool-cases (k == i)) [
        | inl b ↦
            let gone : lookup i m ≡ none =
              subst (λ t. lookup t m ≡ none) ((eq_iff k i).0 b) one.0 in
            rw (same, b) (ap suc (tail ∙ ap (here id deps less P) gone) ∙ ground arith)
        | inr b ↦ rw (same, b) tail
      ]

  nothing-IsNoted : IsNoted id deps less P (λ _. false) (no_graph id deps less)
  unfolding lookup
  nothing-IsNoted = record {
    keyed = λ k e h. cc;
    distinct = tt;
    met = λ i. refl;
    in_map = tt;
    no_heap = refl;
    started_all = λ k. tt;
    one_degree = tt;
  }

  unfoldable pub noted_total : Graph id deps less → String → ℕ
  noted_total noted i = here id deps less P (lookup i noted.event_map)

  noted-IsBalanced :
      (seen : String → Bool) (noted : Graph id deps less)
      → IsNoted id deps less P seen noted
      → IsBalanced id deps less P (noted_total noted) noted []
  unfolding noted_total
  noted-IsBalanced seen noted n = record {
    keyed = n.keyed;
    distinct = n.distinct;
    balance = λ i. ground (arith, ap (count (is id deps less P i)) n.no_heap);
    in_map = n.in_map;
    in_heap = subst (All P) (sym n.no_heap) tt;
    in_graph = tt;
  }

  -- The events that were left over make up the rest.
  remaining-IsComplete :
      (total : String → ℕ) (done : List A × Assoc A)
      → Done id deps less P total done
      → ((i : String) → count (λ x. id x == i) (with_remaining id deps less done) ≡ total i)
        × All P (with_remaining id deps less done)
  remaining-IsComplete total (graph, m) (keyed, one, balance, in_map, in_graph) =
      let reversed = λ (x y : A). less y x in
      (
        λ i.
            count-append (λ x. id x == i) (sort_by reversed (values m)) graph
            ∙ ground (
              arith,
              count-sort_by reversed (λ x. id x == i) (values m),
              count-values i m keyed one,
              balance i,
            ),
        All-append P (sort_by reversed (values m)) graph (All-sort_by P reversed (values m) in_map)
            in_graph,
      )

  -- The three loops end.
  pub record Runs (events : List A) : Type 0 where
    pub started : Graph id deps less
    pub done : List A × Assoc A
    pub noted :
        IsNoted id deps less P
          (λ i. any (λ x. id x == i) events)
          (note_events id deps less events (no_graph id deps less))
    pub starts :
        start_all id deps less
          (note_events id deps less events (no_graph id deps less)).in_degree
          (note_events id deps less events (no_graph id deps less))
        ≡ ok started
    pub ends : process id deps less (suc (length events)) started [] ≡ ok done
    pub complete :
        Done id deps less P
          (noted_total (note_events id deps less events (no_graph id deps less)))
          done

  pub runs : (events : List A) → All P events → Runs events
  unfolding noted_total
  runs events p =
      let noted = note_events id deps less events (no_graph id deps less) in
      let n =
        note_events-IsNoted id deps less P (λ _. false) events (no_graph id deps less) p
          nothing-IsNoted in
      let (g, started, s) =
        start_all-IsStarting (noted_total noted) noted.in_degree noted n.one_degree
          (AreStarted-entries noted.in_degree noted.event_map n.one_degree n.started_all)
          (noted-IsBalanced (λ i. any (λ x. id x == i) events) noted n) in
      let (done, processed, d) =
        process-Done id deps less P (noted_total noted) (suc (length events)) g []
          (omega (
            arith,
            s.no_larger,
            note_events-length id deps less P events (no_graph id deps less),
            ap length n.no_heap,
          ))
          s.balanced in
      record {
        started = g;
        done = done;
        noted = n;
        starts = started;
        ends = processed;
        complete = d;
      }

  -- Kahn's algorithm ends, without a panic, on any list of events; in its result each ID of an
  -- event of the list is met once and no other ID is met, and what holds of every event of the list
  -- holds of every event of the result.
  pub kahns_algorithm-IsComplete :
      (events : List A)
      → All P events
      → (result : List A) × (kahns_algorithm id deps less events ≡ ok result)
        × ((i : String)
            → count (λ x. id x == i) result ≡ (if any (λ x. id x == i) events then 1 else 0))
        × All P result
  unfolding kahns_algorithm noted_total
  kahns_algorithm-IsComplete events p =
      let r = runs events p in
      let noted = note_events id deps less events (no_graph id deps less) in
      let (counts, kept) = remaining-IsComplete (noted_total noted) r.done r.complete in
      (
        with_remaining id deps less r.done,
        ok->>= r.starts _ ∙ ok->>= r.ends _,
        (λ i. counts i ∙ (r.noted).met i),
        kept,
      )
