-- ===== src/ResolutionV1/Grouped.antt =====
-- addConflicted of stateresolution.go: the blocks against groups of events by key.
use gomatrixserverlib.Prelude.{
  ℕ, suc, ◌+◌, arith, ◌≡◌, refl, some_inj, sym, inl, inr, Bool, true, false, not, ◌&&◌, Bool-cases,
  Option, none, some, List, [], ◌∷◌, ◌++◌, eq_iff, if◌then◌else◌, length, All, All-append,
  Option-cases,
}
use gomatrixserverlib.Result.{ok}
use gomatrixserverlib.Event.{Event, StateKeyTuple}
use gomatrixserverlib.Auth.Provider.{same_key}
use gomatrixserverlib.ResolutionV1.{append_at}

-- Events by key, in the order in which the keys were met.
abbrev pub Groups : Type 0
Groups = List (StateKeyTuple × List Event)

unfoldable pub put_group : StateKeyTuple → Event → Groups → Groups
put_group k e [] = (k, e ∷ []) ∷ []
put_group k e ((j, es) ∷ g) =
    let rest = put_group k e g in if same_key j k then (j, es ++ (e ∷ [])) ∷ g else (j, es) ∷ rest

abbrev pub blocks : Groups → List (List Event)
blocks [] = []
blocks ((j, es) ∷ g) = es ∷ blocks g

abbrev pub bump : Option ℕ → Option ℕ
bump none = none
bump (some i) = some (suc i)

unfoldable pub index_of : StateKeyTuple → Groups → Option ℕ
index_of k [] = none
index_of k ((j, es) ∷ g) = if same_key j k then some 0 else bump (index_of k g)

abbrev pub is_empty : List Event → Bool
is_empty [] = true
is_empty (e ∷ es) = false

-- The group of the key, or the first of them, has an event.
unfoldable pub occupied : StateKeyTuple → Groups → Bool
occupied k [] = false
occupied k ((j, es) ∷ g) = if same_key j k then not (is_empty es) else occupied k g

-- The groups of the key that have an event.
unfoldable pub count_groups : StateKeyTuple → Groups → ℕ
count_groups k [] = 0
count_groups k ((j, es) ∷ g) =
    (if same_key j k && not (is_empty es) then 1 else 0) + count_groups k g

abbrev pub HasKey : StateKeyTuple → Event → Type 0
HasKey k e = (e.event_type ≡ k.event_type) × (e.state_key ≡ some k.state_key)

abbrev pub IsGroup : StateKeyTuple × List Event → Type 0
IsGroup (k, es) = All (HasKey k) es

pub snoc-nonempty : (es : List Event) (e : Event) → is_empty (es ++ (e ∷ [])) ≡ false
snoc-nonempty [] e = refl
snoc-nonempty (d ∷ es) e = refl

module _ (k : StateKeyTuple) (e : Event) where
  pub occupied-put_group :
      (j : StateKeyTuple) (g : Groups)
      → occupied j (put_group k e g) ≡ (if same_key k j then true else occupied j g)
  unfolding occupied put_group
  occupied-put_group j [] = ground (arith, eq_iff k.event_type j.event_type)
  occupied-put_group j ((i, es) ∷ g) = ground (
    arith,
    snoc-nonempty es e,
    occupied-put_group j g,
    eq_iff i.event_type k.event_type,
    eq_iff i.state_key k.state_key,
    eq_iff i.event_type j.event_type,
    eq_iff i.state_key j.state_key,
    eq_iff k.event_type j.event_type,
    eq_iff k.state_key j.state_key,
  )

  pub count_groups-put_group :
      (j : StateKeyTuple) (g : Groups)
      → count_groups j (put_group k e g)
        ≡ (if same_key k j && not (occupied k g) then 1 else 0) + count_groups j g
  unfolding occupied put_group count_groups
  count_groups-put_group j [] = ground arith
  count_groups-put_group j ((i, es) ∷ g) = ground (
    arith,
    snoc-nonempty es e,
    count_groups-put_group j g,
    eq_iff i.event_type k.event_type,
    eq_iff i.state_key k.state_key,
    eq_iff i.event_type j.event_type,
    eq_iff i.state_key j.state_key,
    eq_iff k.event_type j.event_type,
    eq_iff k.state_key j.state_key,
  )

  pub put_group-IsGroup : (g : Groups) → HasKey k e → All IsGroup g → All IsGroup (put_group k e g)
  unfolding put_group
  put_group-IsGroup [] h a = ((h, tt), tt)
  put_group-IsGroup ((i, es) ∷ g) h a = elim (Bool-cases (same_key i k)) [
    | inl b ↦
        let t : i.event_type ≡ k.event_type = ground (arith, eq_iff i.event_type k.event_type, b) in
        let s : i.state_key ≡ k.state_key = ground (arith, eq_iff i.state_key k.state_key, b) in
        rw b (All-append (HasKey i) es (e ∷ []) a.0 (((cc), (cc)), tt), a.1)
    | inr b ↦ rw b (a.0, put_group-IsGroup g h a.1)
  ]

  -- Appending at the index of a key that is there.
  pub append_at-index_of :
      (g : Groups) (i : ℕ)
      → index_of k g ≡ some i
      → append_at i e (blocks g) ≡ ok (blocks (put_group k e g))
  unfolding append_at index_of put_group
  append_at-index_of [] i h = cc
  append_at-index_of ((j, es) ∷ g) i h = elim (Bool-cases (same_key j k)) [
    | inl b ↦ rw (b, sym (some_inj (rw b at h))) refl
    | inr b ↦ elim (Option-cases (index_of k g)) [
      | inl n ↦ cc (h, b, n)
      | inr (m, found) ↦
          let same : some (suc m) ≡ some i = rw (b, found) at h in
          rw (b, sym (some_inj same), append_at-index_of g m found) refl
    ]
  ]

  -- Appending to a new block behind all the others.
  pub append_at-length :
      (g : Groups)
      → index_of k g ≡ none
      → append_at (length (blocks g)) e (blocks g ++ ([] ∷ [])) ≡ ok (blocks (put_group k e g))
  unfolding append_at index_of put_group
  append_at-length [] h = refl
  append_at-length ((j, es) ∷ g) h = elim (Bool-cases (same_key j k)) [
    | inl b ↦ cc (h, b)
    | inr b ↦ elim (Option-cases (index_of k g)) [
      | inl n ↦ rw (b, append_at-length g n) refl
      | inr (m, found) ↦ cc (h, b, found)
    ]
  ]

  abbrev pub index_after : Option ℕ → ℕ → Bool → Option ℕ → Option ℕ
  index_after (some i) last same before = before
  index_after none last same before = if same then some last else before

  pub index_of-put_group :
      (j : StateKeyTuple) (g : Groups)
      → index_of j (put_group k e g)
        ≡ index_after (index_of k g) (length (blocks g)) (same_key k j) (index_of j g)
  unfolding index_of put_group
  index_of-put_group j [] = ground arith
  index_of-put_group j ((i, es) ∷ g) = ground (
    arith,
    index_of-put_group j g,
    eq_iff i.event_type k.event_type,
    eq_iff i.state_key k.state_key,
    eq_iff i.event_type j.event_type,
    eq_iff i.state_key j.state_key,
    eq_iff k.event_type j.event_type,
    eq_iff k.state_key j.state_key,
  )
