-- ===== src/ResolutionV2/Kahn/Mentions.antt =====
-- Kahn's algorithm of stateresolutionv2.go: how often an ID is among the IDs that events depend on, and
-- the degrees that the first loop counts.
use gomatrixserverlib.Prelude.{
  ℕ, suc, ◌+◌, ◌≡◌, refl, ap, sym, ◌∙◌, subst, arith, inl, inr, Bool, false, Bool-cases, Option,
  none, some, List, [], ◌∷◌, String, ◌==◌, eq_iff, if◌then◌else◌, Assoc, lookup, insert, erase,
  values, lookup-insert, All, some_inj,
}
use gomatrixserverlib.Prelude.Int.{ℤ, pos, succ_ℤ}
use gomatrixserverlib.Prelude.Entries.{HasOneEach, IsThere}
use gomatrixserverlib.Prelude.Sort.{count, insert_sorted}
use gomatrixserverlib.ResolutionV2.Kahn.{
  Graph, note_event, note_events, degree, degree_or, increment, increment_all, started,
}

erase-missing {ℓ} :
    {V : Type ℓ} (key : String) (m : Assoc V) → lookup key m ≡ none → erase key m ≡ m
unfolding erase lookup
erase-missing key [] h = refl
erase-missing key ((k, v) ∷ m) h = elim (Bool-cases (k == key)) [
  | inl b ↦ cc (h, b)
  | inr b ↦ rw b (ap (λ r. (k, v) ∷ r) (erase-missing key m (rw b at h)))
]

abbrev pub count_id : String → List String → ℕ
count_id k ids = count (λ d. d == k) ids

degree-increment :
    (k j : String) (d : Assoc ℤ)
    → degree k (increment j d) ≡ (if j == k then succ_ℤ (degree k d) else degree k d)
unfolding degree increment
degree-increment k j d = elim (Bool-cases (j == k)) [
  | inl b ↦
      rw (lookup-insert j k (succ_ℤ (degree_or (lookup j d))) d, b)
        (ap (λ x. succ_ℤ (degree_or (lookup x d))) ((eq_iff j k).0 b))
  | inr b ↦ rw (lookup-insert j k (succ_ℤ (degree_or (lookup j d))) d, b) refl
]

-- The degree of an ID after counting IDs.
pub degree-increment_all :
    (k : String) (ids : List String) (d : Assoc ℤ) (n : ℕ)
    → degree k d ≡ pos n
    → degree k (increment_all ids d) ≡ pos (count_id k ids + n)
unfolding increment_all succ_ℤ
degree-increment_all k [] d n h = h ∙ ap pos (omega arith)
degree-increment_all k (j ∷ ids) d n h = elim (Bool-cases (j == k)) [
  | inl b ↦
      let step : degree k (increment j d) ≡ pos (suc n) = degree-increment k j d ∙ rw (b, h) refl in
      rw (degree-increment_all k ids (increment j d) (suc n) step, b) (ap pos (omega arith))
  | inr b ↦
      let step : degree k (increment j d) ≡ pos n = degree-increment k j d ∙ rw (b, h) refl in
      rw (degree-increment_all k ids (increment j d) n step, b) refl
]

lookup-increment_all :
    (k : String) (ids : List String) (d : Assoc ℤ)
    → IsThere (lookup k d)
    → IsThere (lookup k (increment_all ids d))
unfolding increment_all increment
lookup-increment_all k [] d h = h
lookup-increment_all k (j ∷ ids) d h =
    let now = lookup-insert j k (succ_ℤ (degree j d)) d in
    lookup-increment_all k ids (increment j d)
      (elim (Bool-cases (j == k)) [ inl b ↦ rw (now, b) tt | inr b ↦ rw (now, b) h ])

-- Starting an ID changes no degree, and the ID has one then.
degree-started :
    (k j : String) (d : Assoc ℤ) (o : Option ℤ)
    → lookup j d ≡ o
    → degree k (started j d o) ≡ degree k d
unfolding degree
degree-started k j d none h = elim (Bool-cases (j == k)) [
  | inl b ↦
      let gone : lookup k d ≡ none = subst (λ x. lookup x d ≡ none) ((eq_iff j k).0 b) h in
      rw (lookup-insert j k (pos 0) d, b, gone) refl
  | inr b ↦ rw (lookup-insert j k (pos 0) d, b) refl
]
degree-started k j d (some n) h = refl

lookup-started :
    (k j : String) (d : Assoc ℤ) (o : Option ℤ)
    → lookup j d ≡ o
    → ((j == k) ≡ false → IsThere (lookup k d))
    → IsThere (lookup k (started j d o))
lookup-started k j d none h there = elim (Bool-cases (j == k)) [
  | inl b ↦ rw (lookup-insert j k (pos 0) d, b) tt
  | inr b ↦ rw (lookup-insert j k (pos 0) d, b) (there b)
]
lookup-started k j d (some n) h there = elim (Bool-cases (j == k)) [
  | inl b ↦ rw (subst (λ x. lookup x d ≡ some n) ((eq_iff j k).0 b) h) tt
  | inr b ↦ there b
]

module _ {A : Type 0} (id : A → String) (deps : A → List String) (less : A → A → Bool) where
  -- How often an ID is among those that events depend on.
  unfoldable pub mentions : String → List A → ℕ
  mentions k [] = 0
  mentions k (x ∷ xs) = count_id k (deps x) + mentions k xs

  pub mentions-insert_sorted :
      (k : String) (x : A) (xs : List A)
      → mentions k (insert_sorted less x xs) ≡ count_id k (deps x) + mentions k xs
  unfolding mentions insert_sorted
  mentions-insert_sorted k x [] = refl
  mentions-insert_sorted k x (y ∷ ys) = ground (arith, mentions-insert_sorted k x ys)

  pub mentions-erase :
      (k key : String) (m : Assoc A) (e : A)
      → HasOneEach m
      → lookup key m ≡ some e
      → count_id k (deps e) + mentions k (values (erase key m)) ≡ mentions k (values m)
  unfolding mentions erase lookup
  mentions-erase k key [] e one h = cc
  mentions-erase k key ((j, x) ∷ m) e one h = elim (Bool-cases (j == key)) [
    | inl b ↦
        let same : x ≡ e = some_inj (rw b at h) in
        let gone = subst (λ t. lookup t m ≡ none) ((eq_iff j key).0 b) one.0 in
        rw (b, erase-missing key m gone, same) refl
    | inr b ↦ rw b (omega (arith, mentions-erase k key m e one.1 (rw b at h)))
  ]

  mentions-insert :
      (k key : String) (e : A) (m : Assoc A)
      → lookup key m ≡ none
      → mentions k (values (insert key e m)) ≡ count_id k (deps e) + mentions k (values m)
  unfolding mentions insert lookup
  mentions-insert k key e [] h = refl
  mentions-insert k key e ((j, x) ∷ m) h = elim (Bool-cases (j == key)) [
    | inl b ↦ cc (h, b)
    | inr b ↦ rw b (omega (arith, mentions-insert k key e m (rw b at h)))
  ]

  -- The events have different IDs.
  abbrev pub AreDistinct : List A → Type 0
  AreDistinct [] = Unit
  AreDistinct (x ∷ xs) = All (λ y. (id x == id y) ≡ false) xs × AreDistinct xs

  -- The degrees are what the events in the map mention.
  pub record IsTallied (g : Graph id deps less) : Type 0 where
    pub counts : (k : String) → degree k g.in_degree ≡ pos (mentions k (values g.event_map))
    pub known :
        (k : String) (e : A) → lookup k g.event_map ≡ some e → IsThere (lookup k g.in_degree)

  abbrev AreFresh : List A → Graph id deps less → Type 0
  AreFresh events g = All (λ x. lookup (id x) g.event_map ≡ none) events

  note_event-IsTallied :
      (event : A) (g : Graph id deps less)
      → lookup (id event) g.event_map ≡ none
      → IsTallied g
      → IsTallied (note_event id deps less event g)
  unfolding note_event
  note_event-IsTallied event g fresh t =
      let begun = started (id event) g.in_degree (lookup (id event) g.in_degree) in
      record {
        counts = λ k.
            degree-increment_all k (deps event) begun (mentions k (values g.event_map)) (
              degree-started k (id event) g.in_degree (lookup (id event) g.in_degree) refl
              ∙ t.counts k)
            ∙ ap pos (sym (mentions-insert k (id event) event g.event_map fresh));
        known = λ k e h. lookup-increment_all k (deps event) begun (
            lookup-started k (id event) g.in_degree (lookup (id event) g.in_degree) refl λ b.
              t.known k e (sym (lookup-insert (id event) k event g.event_map ∙ rw b refl) ∙ h));
      }

  still_fresh :
      (event : A) (events : List A) (g : Graph id deps less)
      → All (λ y. (id event == id y) ≡ false) events
      → AreFresh events g
      → AreFresh events (note_event id deps less event g)
  unfolding note_event
  still_fresh event [] g h f = tt
  still_fresh event (y ∷ events) g h f = (
    lookup-insert (id event) (id y) event g.event_map ∙ rw h.0 f.0,
    still_fresh event events g h.1 f.1,
  )

  pub note_events-IsTallied :
      (events : List A) (g : Graph id deps less)
      → AreDistinct events
      → AreFresh events g
      → IsTallied g
      → IsTallied (note_events id deps less events g)
  unfolding note_events
  note_events-IsTallied [] g d f t = t
  note_events-IsTallied (event ∷ events) g d f t =
      note_events-IsTallied events (note_event id deps less event g) d.1
        (still_fresh event events g d.0 f.1) (note_event-IsTallied event g f.0 t)
