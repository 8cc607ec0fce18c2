-- ===== src/ResolutionV1/Sorted.antt =====
-- sortConflictedEventsByDepthAndSHA1 of stateresolution.go: the order, and the block that it gives.
use gomatrixserverlib.Prelude.Sort.{
  sort_by, All-sort_by, count, count-sort_by, IsSorted, sort_by-IsSorted,
}
use gomatrixserverlib.Prelude.Int.{◌<ℤ◌, eq_of_parts}
use gomatrixserverlib.Prelude.{
  All, ◌⊎◌, inl, inr, ◌<◌, ltb, sym, if◌then◌else◌, ℕ, ◌≡◌, refl, ◌∙◌, arith, Bool, true, false,
  List, [], ◌∷◌, map,
}
use gomatrixserverlib.Event.{Event}
use gomatrixserverlib.ResolutionV1.Blocks.{
  Sha1, ConflictedEvent, bytes_less, conflicted_event, conflicted_less,
  sort_conflicted_events_by_depth_and_sha1,
}

bytes_less_irrefl : (xs : List ℕ) → bytes_less xs xs ≡ false
unfolding bytes_less
bytes_less_irrefl [] = refl
bytes_less_irrefl (x ∷ xs) = ground (arith, bytes_less_irrefl xs)

bytes_less_trans :
    (xs ys zs : List ℕ)
    → bytes_less xs ys ≡ true
    → bytes_less ys zs ≡ true
    → bytes_less xs zs ≡ true
unfolding bytes_less
bytes_less_trans [] [] zs h k = cc
bytes_less_trans [] (y ∷ ys) [] h k = cc
bytes_less_trans [] (y ∷ ys) (z ∷ zs) h k = refl
bytes_less_trans (x ∷ xs) [] zs h k = cc
bytes_less_trans (x ∷ xs) (y ∷ ys) [] h k = cc
bytes_less_trans (x ∷ xs) (y ∷ ys) (z ∷ zs) h k = ground (arith, bytes_less_trans xs ys zs, h, k)

bytes_below :
    (xs ys zs : List ℕ)
    → bytes_less ys xs ≡ false
    → bytes_less zs ys ≡ false
    → bytes_less zs xs ≡ false
unfolding bytes_less
bytes_below [] [] [] h k = refl
bytes_below [] [] (z ∷ zs) h k = k
bytes_below [] (y ∷ ys) [] h k = refl
bytes_below [] (y ∷ ys) (z ∷ zs) h k = h
bytes_below (x ∷ xs) [] [] h k = cc
bytes_below (x ∷ xs) [] (z ∷ zs) h k = cc
bytes_below (x ∷ xs) (y ∷ ys) [] h k = cc
bytes_below (x ∷ xs) (y ∷ ys) (z ∷ zs) h k = ground (arith, bytes_below xs ys zs, h, k)

less_irrefl : (x : ConflictedEvent) → conflicted_less x x ≡ false
unfolding conflicted_less
less_irrefl x = ground (arith, bytes_less_irrefl x.event_id_sha1)

less_trans :
    (x y z : ConflictedEvent)
    → conflicted_less x y ≡ true
    → conflicted_less y z ≡ true
    → conflicted_less x z ≡ true
unfolding conflicted_less
less_trans x y z h k =
    ground (arith, h, k, bytes_less_trans z.event_id_sha1 y.event_id_sha1 x.event_id_sha1)

less_below :
    (x y z : ConflictedEvent)
    → conflicted_less y x ≡ false
    → conflicted_less z y ≡ false
    → conflicted_less z x ≡ false
unfolding conflicted_less
less_below x y z h k =
    ground (arith, h, k, bytes_below z.event_id_sha1 y.event_id_sha1 x.event_id_sha1)

-- The order of texts of bytes: the first byte that differs decides, and a text comes after its prefixes.
pub data IsAtMost : List ℕ → List ℕ → Type 0 where
  ended : {ys : List ℕ} → IsAtMost [] ys
  lower : {x y : ℕ} {xs ys : List ℕ} → x < y → IsAtMost (x ∷ xs) (y ∷ ys)
  same : {x y : ℕ} {xs ys : List ℕ} → x ≡ y → IsAtMost xs ys → IsAtMost (x ∷ xs) (y ∷ ys)

cons_facts :
    (x y : ℕ) (rest : Bool)
    → (if ltb y x then true else if ltb x y then false else rest) ≡ false
    → (x < y) ⊎ ((x ≡ y) × (rest ≡ false))
cons_facts x y rest h = ground (arith, h)

bytes_less-IsAtMost : (xs ys : List ℕ) → bytes_less ys xs ≡ false → IsAtMost xs ys
unfolding bytes_less
bytes_less-IsAtMost [] ys h = ended
bytes_less-IsAtMost (x ∷ xs) [] h = cc
bytes_less-IsAtMost (x ∷ xs) (y ∷ ys) h = elim (cons_facts x y (bytes_less ys xs) h) [
  | inl l ↦ lower l
  | inr (e, r) ↦ same e (bytes_less-IsAtMost xs ys r)
]

order-facts :
    (x y : ConflictedEvent)
    → conflicted_less y x ≡ false
    → (x.depth <ℤ y.depth)
      ⊎ ((x.depth ≡ y.depth) × (bytes_less x.event_id_sha1 y.event_id_sha1 ≡ false))
unfolding conflicted_less
order-facts x y h = ground (arith, h, eq_of_parts x.depth y.depth)

abbrev pub event_of : ConflictedEvent → Event
event_of x = x.event

module _ (sha1 : Sha1) where
  -- An event of a lower depth, or one of the same depth whose ID has no lower digest.
  abbrev pub Precedes : Event → Event → Type 0
  Precedes e f =
      (e.depth <ℤ f.depth) ⊎ ((e.depth ≡ f.depth) × IsAtMost (sha1 f.event_id) (sha1 e.event_id))

  -- Each event precedes those after it.
  abbrev pub AreOrdered : List Event → Type 0
  AreOrdered [] = Unit
  AreOrdered (e ∷ events) = All (Precedes e) events × AreOrdered events

  -- The depth and the digest are those of the event.
  abbrev IsOwn : ConflictedEvent → Type 0
  IsOwn x = (x.depth ≡ x.event.depth) × (x.event_id_sha1 ≡ sha1 x.event.event_id)

  map-IsOwn : (events : List Event) → All IsOwn (map (conflicted_event sha1) events)
  map-IsOwn [] = tt
  map-IsOwn (e ∷ events) = ((refl, refl), map-IsOwn events)

  less-Precedes :
      (x y : ConflictedEvent)
      → IsOwn x
      → IsOwn y
      → conflicted_less y x ≡ false
      → Precedes x.event y.event
  less-Precedes x y (d, s) (e, t) h = elim (order-facts x y h) [
    | inl l ↦ inl (rw (sym d, sym e) l)
    | inr (q, b) ↦
        inr
          (sym d ∙ q ∙ e, rw (sym s, sym t) (bytes_less-IsAtMost y.event_id_sha1 x.event_id_sha1 b))
  ]

  all-Precedes :
      (x : ConflictedEvent) (xs : List ConflictedEvent)
      → IsOwn x
      → All IsOwn xs
      → All (λ y. conflicted_less y x ≡ false) xs
      → All (Precedes x.event) (map event_of xs)
  all-Precedes x [] o os h = tt
  all-Precedes x (y ∷ ys) o os h = (less-Precedes x y o os.0 h.0, all-Precedes x ys o os.1 h.1)

  sorted-AreOrdered :
      (xs : List ConflictedEvent)
      → All IsOwn xs
      → IsSorted conflicted_less xs
      → AreOrdered (map event_of xs)
  sorted-AreOrdered [] os h = tt
  sorted-AreOrdered (x ∷ xs) os h = (all-Precedes x xs os.0 os.1 h.0, sorted-AreOrdered xs os.1 h.1)

  count-events :
      (p : Event → Bool) (xs : List ConflictedEvent)
      → count p (map event_of xs) ≡ count (λ (x : ConflictedEvent). p x.event) xs
  count-events p [] = refl
  count-events p (x ∷ xs) = ground (arith, count-events p xs)

  count-map :
      (p : Event → Bool) (events : List Event)
      → count (λ (x : ConflictedEvent). p x.event) (map (conflicted_event sha1) events)
        ≡ count p events
  count-map p [] = refl
  count-map p (e ∷ events) = ground (arith, count-map p events)

  -- Sorting a block gives the same events, each as often, in an order in which each event has a lower
  -- depth than those after it, or the same depth and a digest of its ID that is not lower than theirs.
  pub sort_conflicted_events_by_depth_and_sha1-AreOrdered :
      (events : List Event)
      → AreOrdered (map event_of (sort_conflicted_events_by_depth_and_sha1 sha1 events))
        × ((p : Event → Bool)
            → count p (map event_of (sort_conflicted_events_by_depth_and_sha1 sha1 events))
              ≡ count p events)
  unfolding sort_conflicted_events_by_depth_and_sha1
  sort_conflicted_events_by_depth_and_sha1-AreOrdered events =
      let block = map (conflicted_event sha1) events in
      (
        sorted-AreOrdered (sort_by conflicted_less block)
            (All-sort_by IsOwn conflicted_less block (map-IsOwn events))
            (sort_by-IsSorted conflicted_less less_irrefl less_trans less_below block),
        λ p.
            count-events p (sort_by conflicted_less block)
            ∙ count-sort_by conflicted_less (λ (x : ConflictedEvent). p x.event) block
            ∙ count-map p events,
      )
