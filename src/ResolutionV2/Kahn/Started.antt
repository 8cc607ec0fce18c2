-- ===== src/ResolutionV2/Kahn/Started.antt =====
-- Kahn's algorithm of stateresolutionv2.go: the first loop, and what stands in the map and in the degrees after
-- it.
use mathlib.Core.Path.{fun_ext}
use gomatrixserverlib.Prelude.{
  zero, suc, ◌+◌, ◌≤◌, ◌≡◌, refl, sym, ◌∙◌, subst, arith, inl, inr, Bool, Bool-cases, Option, none,
  some, List, [], ◌∷◌, String, ◌==◌, eq_iff, eq_refl, if◌then◌else◌, Assoc, lookup, insert, erase,
  values, lookup-insert, lookup-erase, length, All, some_inj, any, ◌||◌,
}
use gomatrixserverlib.Prelude.Int.{ℤ, pos, negsuc, succ_ℤ}
use gomatrixserverlib.Prelude.Entries.{
  HasOneEach, insert-HasOneEach, length-insert, All-values-insert,
}
use gomatrixserverlib.ResolutionV2.Kahn.{
  Graph, note_event, note_events, degree, degree_or, increment, increment_all, started,
}
use gomatrixserverlib.ResolutionV2.Kahn.Balance.{here, IsKeyed}

-- An ID whose degree is zero is that of an event in the map, and no degree is negative.
abbrev pub IsStarted {ℓ} : {V : Type ℓ} → Option ℤ → Option V → Type 0
IsStarted none found = Unit
IsStarted (some (pos zero)) none = ⊥
IsStarted (some (pos zero)) (some v) = Unit
IsStarted (some (pos (suc n))) found = Unit
IsStarted (some (negsuc n)) found = ⊥

pub incremented-IsStarted {ℓ} :
    {V : Type ℓ} (before : Option ℤ) (found : Option V)
    → IsStarted before found
    → IsStarted (some (succ_ℤ (degree_or before))) found
unfolding succ_ℤ
incremented-IsStarted none found h = tt
incremented-IsStarted (some (pos zero)) found h = tt
incremented-IsStarted (some (pos (suc n))) found h = tt
incremented-IsStarted (some (negsuc n)) found h = absurd h

pub found-IsStarted {ℓ} :
    {V : Type ℓ} (before : Option ℤ) (found : Option V) (v : V)
    → IsStarted before found
    → IsStarted before (some v)
found-IsStarted none found v h = tt
found-IsStarted (some (pos zero)) found v h = tt
found-IsStarted (some (pos (suc n))) found v h = tt
found-IsStarted (some (negsuc n)) found v h = absurd h

module _ {A : Type 0} where
  abbrev pub AreStarted : Assoc ℤ → Assoc A → Type 0
  AreStarted d m = (k : String) → IsStarted (lookup k d) (lookup k m)

  pub increment-AreStarted :
      (j : String) (d : Assoc ℤ) (m : Assoc A) → AreStarted d m → AreStarted (increment j d) m
  unfolding increment degree
  increment-AreStarted j d m h k =
      let now = lookup-insert j k (succ_ℤ (degree_or (lookup j d))) d in
      subst (λ o. IsStarted o (lookup k m)) (sym now)
        (elim (Bool-cases (j == k)) [
          | inl b ↦ rw b (
              subst (λ x. IsStarted (some (succ_ℤ (degree_or (lookup x d)))) (lookup k m))
                (sym ((eq_iff j k).0 b)) (incremented-IsStarted (lookup k d) (lookup k m) (h k)))
          | inr b ↦ rw b (h k)
        ])

  pub increment_all-AreStarted :
      (ids : List String) (d : Assoc ℤ) (m : Assoc A)
      → AreStarted d m
      → HasOneEach d
      → AreStarted (increment_all ids d) m × HasOneEach (increment_all ids d)
  unfolding increment_all increment
  increment_all-AreStarted [] d m h o = (h, o)
  increment_all-AreStarted (j ∷ ids) d m h o =
      increment_all-AreStarted ids (increment j d) m (increment-AreStarted j d m h)
        (insert-HasOneEach j (succ_ℤ (degree j d)) d o)

  pub started-AreStarted :
      (j : String) (event : A) (d : Assoc ℤ) (m : Assoc A) (o : Option ℤ)
      → AreStarted d m
      → HasOneEach d
      → AreStarted (started j d o) (insert j event m) × HasOneEach (started j d o)
  started-AreStarted j event d m none h o = (
    λ k.
        let now = lookup-insert j k event m in
        let zero_there = lookup-insert j k (pos 0) d in
        elim (Bool-cases (j == k)) [
          | inl b ↦ rw (zero_there, now, b) tt
          | inr b ↦ rw (zero_there, now, b) (h k)
        ],
    insert-HasOneEach j (pos 0) d o,
  )
  started-AreStarted j event d m (some n) h o = (
    λ k.
        let now = lookup-insert j k event m in
        elim (Bool-cases (j == k)) [
          | inl b ↦ rw (now, b) (found-IsStarted (lookup k d) (lookup k m) event (h k))
          | inr b ↦ rw (now, b) (h k)
        ],
    o,
  )

  -- The entries whose event is to be pushed.
  abbrev pub EntriesStarted : Assoc A → Assoc ℤ → Type 0
  EntriesStarted m entries = All (λ (x : String × ℤ). IsStarted (some x.1) (lookup x.0 m)) entries

  pub AreStarted-entries :
      (d : Assoc ℤ) (m : Assoc A) → HasOneEach d → AreStarted d m → EntriesStarted m d
  unfolding lookup
  AreStarted-entries [] m o h = tt
  AreStarted-entries ((k, n) ∷ d) m o h = (
    rw (eq_refl k) at (h k),
    AreStarted-entries d m o.1 λ j. elim (Bool-cases (k == j)) [
      | inl b ↦ let gone = subst (λ x. lookup x d ≡ none) ((eq_iff k j).0 b) o.0 in rw gone tt
      | inr b ↦ rw b at (h j)
    ],
  )

  -- Erasing a key leaves the entries of others.
  pub erase-entries :
      (key : String) (entries : Assoc ℤ) (m : Assoc A)
      → lookup key entries ≡ none
      → EntriesStarted m entries
      → EntriesStarted (erase key m) entries
  unfolding lookup
  erase-entries key [] m n h = tt
  erase-entries key ((k, c) ∷ entries) m n h = elim (Bool-cases (k == key)) [
    | inl b ↦ cc (n, b)
    | inr b ↦
        let kept : lookup k (erase key m) ≡ lookup k m =
          lookup-erase key k m ∙ ground (arith, b, eq_iff k key, eq_iff key k) in
        (rw kept h.0, erase-entries key entries m (rw b at n) h.1)
  ]

module _ {A : Type 0} (id : A → String) (deps : A → List String) (less : A → A → Bool)
    (P : A → Type 0) where
  -- The events that were noted: what stands under an ID, and the degrees.
  pub record IsNoted (seen : String → Bool) (g : Graph id deps less) : Type 0 where
    pub keyed : IsKeyed id deps less P g.event_map
    pub distinct : HasOneEach g.event_map
    pub met : (i : String) → here id deps less P (lookup i g.event_map) ≡ (if seen i then 1 else 0)
    pub in_map : All P (values g.event_map)
    pub no_heap : g.no_incoming ≡ []
    pub started_all : AreStarted g.in_degree g.event_map
    pub one_degree : HasOneEach g.in_degree

  pub note_event-IsNoted :
      (seen : String → Bool) (event : A) (g : Graph id deps less)
      → P event
      → IsNoted seen g
      → IsNoted (λ i. seen i || (id event == i)) (note_event id deps less event g)
  unfolding note_event
  note_event-IsNoted seen event g p n =
      let (start, one) =
        started-AreStarted (id event) event g.in_degree g.event_map (lookup (id event) g.in_degree)
          n.started_all n.one_degree in
      let (all, each) =
        increment_all-AreStarted (deps event)
          (started (id event) g.in_degree (lookup (id event) g.in_degree))
          (insert (id event) event g.event_map) start one in
      record {
        keyed = λ k e h.
            let now = lookup-insert (id event) k event g.event_map in
            elim (Bool-cases (id event == k)) [
              | inl b ↦
                  let same : event ≡ e = some_inj (sym (now ∙ rw b refl) ∙ h) in
                  subst (λ x. id x ≡ k) same ((eq_iff (id event) k).0 b)
              | inr b ↦ n.keyed k e (sym (now ∙ rw b refl) ∙ h)
            ];
        distinct = insert-HasOneEach (id event) event g.event_map n.distinct;
        met = λ i.
            let now = lookup-insert (id event) i event g.event_map in
            elim (Bool-cases (id event == i)) [
              | inl b ↦ rw (now, b) (ground arith)
              | inr b ↦ rw (now, b) (n.met i ∙ ground arith)
            ];
        in_map = All-values-insert P (id event) event g.event_map p n.in_map;
        no_heap = n.no_heap;
        started_all = all;
        one_degree = each;
      }

  pub note_events-IsNoted :
      (seen : String → Bool) (events : List A) (g : Graph id deps less)
      → All P events
      → IsNoted seen g
      → IsNoted (λ i. seen i || any (λ x. id x == i) events) (note_events id deps less events g)
  unfolding note_events
  note_events-IsNoted seen [] g p n =
      let same : seen ≡ (λ i. seen i || any (λ (x : A). id x == i) []) =
        fun_ext (λ i. ground arith) in
      subst (λ s. IsNoted s g) same n
  note_events-IsNoted seen (event ∷ events) g p n =
      let same : (λ i. (seen i || (id event == i)) || any (λ (x : A). id x == i) events)
          ≡ (λ i. seen i || any (λ (x : A). id x == i) (event ∷ events)) =
        fun_ext (λ i. ground arith) in
      subst (λ s. IsNoted s (note_events id deps less events (note_event id deps less event g)))
        same
        (note_events-IsNoted (λ i. seen i || (id event == i)) events
          (note_event id deps less event g) p.1 (note_event-IsNoted seen event g p.0 n))

  pub note_events-length :
      (events : List A) (g : Graph id deps less)
      → length (note_events id deps less events g).event_map ≤ length events + length g.event_map
  unfolding note_events note_event
  note_events-length [] g = omega arith
  note_events-length (event ∷ events) g = omega (
    arith,
    note_events-length events (note_event id deps less event g),
    length-insert (id event) event g.event_map,
  )
