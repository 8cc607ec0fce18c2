-- ===== src/Resolution/Keys.antt =====
-- ResolveConflicts of stateresolution.go: the events by type and state key, and the whole result.
use gomatrixserverlib.Prelude.{
  All-imp, ◌<◌, ℕ, ◌+◌, ltb, arith, ◌≡◌, refl, ap, ◌∙◌, subst, inl, inr, Bool, false, not, ◌&&◌,
  ◌||◌, Bool-cases, Option, none, some, List, [], ◌∷◌, ◌++◌, String, if◌then◌else◌, length, All,
  All-append, any,
}
use gomatrixserverlib.Prelude.Sort.{count, count-append}
use gomatrixserverlib.Result.{ok, >>=-eq-ok, ok_inj}
use gomatrixserverlib.ResolutionV1.OnePerKey.{
  resolve_state_conflicts-IsResolution, IsResolution, HasKey-has_key,
}
use gomatrixserverlib.ResolutionV1.Collected.{
  InGroups-put_group, IsState, IsFilled, has_key, key_is, put_group-IsFilled,
}
use gomatrixserverlib.Version.{StateResAlgorithm}
use gomatrixserverlib.ResolutionV1.Grouped.{
  count_groups, count_groups-put_group, occupied-put_group, put_group-IsGroup, Groups, occupied,
  HasKey, IsGroup, is_empty,
}
use gomatrixserverlib.ResolutionV1.Represents.{same_key_eq}
use gomatrixserverlib.Event.{Event, StateKeyTuple}
use gomatrixserverlib.Auth.Provider.{same_key, key}
use gomatrixserverlib.Auth.Membership.Checks.{VerifyJson}
use gomatrixserverlib.ResolutionV1.Blocks.{Sha1, resolve_state_conflicts}
use gomatrixserverlib.Resolution.{
  add_tuple, met_before, group_events, conflicted_of, not_conflicted_of, resolve_by,
}
use mathlib.Core.Path.{fun_ext}

-- The first event of each ID: those that are not passed over.
abbrev pub first_by_id : List Event → List String → List Event
first_by_id [] ids = []
first_by_id (event ∷ events) ids =
    let known = met_before event.event_id ids in
    let rest = first_by_id events (if known then ids else event.event_id ∷ ids) in
    if known then rest else event ∷ rest

-- The groups of the keys that were met.
pub record AreGroups (seen : StateKeyTuple → Bool) (g : Groups) : Type 0 where
  pub once : (k : StateKeyTuple) → count_groups k g ≡ (if seen k then 1 else 0)
  pub met : (k : StateKeyTuple) → occupied k g ≡ seen k
  pub keyed : All IsGroup g
  pub filled : All IsFilled g

pub no_AreGroups : AreGroups (λ _. false) []
unfolding count_groups occupied
no_AreGroups = record { once = λ k. refl; met = λ k. refl; keyed = tt; filled = tt }

tuple-AreGroups :
    (seen : StateKeyTuple → Bool) (event : Event) (g : Groups) (o : Option String)
    → event.state_key ≡ o
    → AreGroups seen g
    → AreGroups (λ k. seen k || key_is k event.event_type o) (add_tuple event o g)
tuple-AreGroups seen event g none h a = record {
  once = λ k. a.once k ∙ ground arith;
  met = λ k. a.met k ∙ ground arith;
  keyed = a.keyed;
  filled = a.filled;
}
tuple-AreGroups seen event g (some sk) h a =
    let j = key event.event_type sk in
    record {
      once = λ k.
          count_groups-put_group j event k g
          ∙ rw (a.met j, a.once k)
              (elim (Bool-cases (same_key j k)) [
                | inl b ↦
                    let here : seen j ≡ seen k = ap seen (same_key_eq j k b) in
                    ground (arith, here, b)
                | inr b ↦ ground (arith, b)
              ]);
      met = λ k. occupied-put_group j event k g ∙ rw (a.met k) (ground arith);
      keyed = put_group-IsGroup j event g (refl, h) a.keyed;
      filled = put_group-IsFilled j event g a.filled;
    }

any-append : (p : Event → Bool) (xs ys : List Event) → any p (xs ++ ys) ≡ (any p xs || any p ys)
any-append p [] ys = refl
any-append p (x ∷ xs) ys = ground (arith, any-append p xs ys)

pub group_events-AreGroups :
    (seen : StateKeyTuple → Bool) (events : List Event) (ids : List String) (g : Groups)
    → AreGroups seen g
    → AreGroups
        (λ k. seen k || any (has_key k) (first_by_id events ids))
        (group_events events ids g)
unfolding group_events
group_events-AreGroups seen [] ids g a = record {
  once = λ k. a.once k ∙ ground arith;
  met = λ k. a.met k ∙ ground arith;
  keyed = a.keyed;
  filled = a.filled;
}
group_events-AreGroups seen (event ∷ events) ids g a =
    elim (Bool-cases (met_before event.event_id ids)) [
      | inl b ↦ rw b (group_events-AreGroups seen events ids g a)
      | inr b ↦ rw b (
          let rest = first_by_id events (event.event_id ∷ ids) in
          let same : (λ k. (seen k || has_key k event) || any (has_key k) rest)
              ≡ (λ k. seen k || any (has_key k) (event ∷ rest)) =
            fun_ext (λ k. ground arith) in
          let last =
            group_events events (event.event_id ∷ ids) (add_tuple event event.state_key g) in
          subst (λ x. AreGroups x last) same
            (group_events-AreGroups (λ k. seen k || has_key k event) events (event.event_id ∷ ids)
              (add_tuple event event.state_key g)
              (tuple-AreGroups seen event g event.state_key refl a)))
    ]

group-any :
    (k j : StateKeyTuple) (es : List Event)
    → All (HasKey j) es
    → any (has_key k) es ≡ (same_key j k && not (is_empty es))
group-any k j [] h = ground arith
group-any k j (e ∷ es) h = ground (arith, HasKey-has_key j k e h.0, group-any k j es h.1)

group-count :
    (k j : StateKeyTuple) (es : List Event)
    → All (HasKey j) es
    → count (has_key k) es ≡ (if same_key j k then length es else 0)
group-count k j [] h = ground arith
group-count k j (e ∷ es) h = ground (arith, HasKey-has_key j k e h.0, group-count k j es h.1)

-- The key of a group has conflicted events or one event that is not conflicted.
split_once :
    (k : StateKeyTuple) (g : Groups)
    → All IsGroup g
    → All IsFilled g
    → count_groups k g < 2
    → (if any (has_key k) (conflicted_of g) then 1 else 0) + count (has_key k) (not_conflicted_of g)
      ≡ count_groups k g
unfolding conflicted_of not_conflicted_of count_groups
split_once k [] keyed filled few = ground arith
split_once k ((j, []) ∷ g) keyed filled few = cc filled.0
split_once k ((j, e ∷ es) ∷ g) keyed filled few =
    let rest = split_once k g keyed.1 filled.1 (ground (arith, few)) in
    elim (Bool-cases (ltb 1 (length (e ∷ es)))) [
      | inl b ↦
          rw (b, any-append (has_key k) (e ∷ es) (conflicted_of g), group-any k j (e ∷ es) keyed.0)
            (ground (arith, few, rest))
      | inr b ↦
          rw
            (
              b,
              count-append (has_key k) (e ∷ es) (not_conflicted_of g),
              group-count k j (e ∷ es) keyed.0,
            )
            (ground (arith, few, rest, b))
    ]

-- What holds of every event holds of every event of the two lists.
module _ {κ} (P : Event → Type κ) where
  abbrev pub Kept : Groups → Type κ
  Kept g = All (λ (x : StateKeyTuple × List Event). All P x.1) g

  tuple-Kept :
      (event : Event) (g : Groups) (o : Option String)
      → P event
      → Kept g
      → Kept (add_tuple event o g)
  tuple-Kept event g none p h = h
  tuple-Kept event g (some sk) p h = InGroups-put_group P (key event.event_type sk) event g p h

  pub group_events-Kept :
      (events : List Event) (ids : List String) (g : Groups)
      → All P (first_by_id events ids)
      → Kept g
      → Kept (group_events events ids g)
  unfolding group_events
  group_events-Kept [] ids g p h = h
  group_events-Kept (event ∷ events) ids g p h = elim (Bool-cases (met_before event.event_id ids)) [
    | inl b ↦ rw b (group_events-Kept events ids g (rw b at p) h)
    | inr b ↦
        let kept : All P (event ∷ first_by_id events (event.event_id ∷ ids)) = rw b at p in
        rw b (
          group_events-Kept events (event.event_id ∷ ids) (add_tuple event event.state_key g) kept.1
            (tuple-Kept event g event.state_key kept.0 h))
  ]

  pub lists-Kept : (g : Groups) → Kept g → All P (conflicted_of g) × All P (not_conflicted_of g)
  unfolding conflicted_of not_conflicted_of
  lists-Kept [] h = (tt, tt)
  lists-Kept ((k, es) ∷ g) h =
      let (left, right) = lists-Kept g h.1 in
      elim (Bool-cases (ltb 1 (length es))) [
        | inl b ↦ rw b (All-append P es (conflicted_of g) h.0 left, right)
        | inr b ↦ rw b (left, All-append P es (not_conflicted_of g) h.0 right)
      ]

pub IsGroup-states : (g : Groups) → All IsGroup g → Kept IsState g
IsGroup-states [] h = tt
IsGroup-states ((k, es) ∷ g) h =
    (All-imp (HasKey k) IsState (λ e x. (k.state_key, x.1)) es h.0, IsGroup-states g h.1)

module _ (verify_json : VerifyJson) (sha1 : Sha1) (fuel : ℕ) where
  pub resolve_v1-once :
      (events auth_events result : List Event)
      → resolve_by verify_json sha1 fuel StateResAlgorithm.v1
          (conflicted_of (group_events events [] []))
          (not_conflicted_of (group_events events [] []))
          auth_events
        ≡ ok result
      → IsResolution (first_by_id events []) result
  resolve_v1-once events auth_events result h =
      let g = group_events events [] [] in
      let a = group_events-AreGroups (λ _. false) events [] [] no_AreGroups in
      let (resolved, done, last) =
        >>=-eq-ok (resolve_state_conflicts verify_json sha1 (conflicted_of g) auth_events) _ h in
      let r =
        resolve_state_conflicts-IsResolution verify_json sha1 (conflicted_of g) auth_events resolved
          (lists-Kept IsState g (IsGroup-states g a.keyed)).0 done in
      subst (IsResolution (first_by_id events [])) (ok_inj last) (record {
        once = λ k.
            let split = split_once k g a.keyed a.filled (ground (arith, a.once k)) in
            count-append (has_key k) resolved (not_conflicted_of g)
            ∙ ground (arith, r.once k, split, a.once k);
        from = λ P p.
            let (left, right) = lists-Kept P g (group_events-Kept P events [] [] p tt) in
            All-append P resolved (not_conflicted_of g) (r.from P left) right;
      })
