-- ===== src/ResolutionV1/OnePerKey.antt =====
-- ResolveStateConflicts of stateresolution.go: one event for each type and state key.
use gomatrixserverlib.Prelude.{
  ℕ, suc, ◌<◌, ltb, arith, ◌≡◌, refl, ap, sym, ◌∙◌, subst, ◌&&◌, List, [], ◌∷◌, ◌++◌, if◌then◌else◌,
  All, any, All-append, All-of_forall,
}
use gomatrixserverlib.Prelude.Sort.{count, count-append}
use gomatrixserverlib.Result.{ok, ◌>>=◌, >>=-eq-ok, ok_inj, ok->>=}
use gomatrixserverlib.Event.{Event, StateKeyTuple}
use gomatrixserverlib.Auth.Provider.{same_key, key}
use gomatrixserverlib.Auth.Membership.Checks.{VerifyJson}
use gomatrixserverlib.ResolutionV1.{
  third_party_invites_list, members_list, others_list, Destination, creates_block,
  power_levels_block, join_rules_block, block_in, StateResolverV1, ResolvedAuthEvents, destination,
  Offsets,
}
use gomatrixserverlib.ResolutionV1.Blocks.{
  Sha1, resolve_auth_block, resolve_normal_block, resolve_blocks, add_auth_events,
  resolve_and_add_auth_blocks, resolve_auth_types, resolve_others, resolve_state_conflicts,
}
use gomatrixserverlib.ResolutionV1.Grouped.{Groups, blocks, count_groups, IsGroup, HasKey}
use gomatrixserverlib.ResolutionV1.Represents.{rank, Seen, IsCounted}
use gomatrixserverlib.ResolutionV1.Stored.{IsStored}
use gomatrixserverlib.ResolutionV1.Added.{blocks_of_eq}
use gomatrixserverlib.ResolutionV1.Collected.{
  has_key, key_is, IsState, InGroups, add_conflicted-IsGrouped,
}
use gomatrixserverlib.ResolutionV1.Conflicts.{
  resolve_auth_block-P, resolve_normal_block-P, resolve_normal_block-nil,
}

pub HasKey-has_key : (k j : StateKeyTuple) (e : Event) → HasKey k e → has_key j e ≡ same_key k j
HasKey-has_key k j e h =
    ap (key_is j e.event_type) h.1 ∙ ap (λ t. same_key (key t k.state_key) j) h.0

rank-lt : (d : Destination) → rank d < 6
rank-lt creates_block = omega arith
rank-lt power_levels_block = omega arith
rank-lt join_rules_block = omega arith
rank-lt (block_in third_party_invites_list) = omega arith
rank-lt (block_in members_list) = omega arith
rank-lt (block_in others_list) = omega arith

module _ {κ} (P : Event → Type κ) (verify_json : VerifyJson) (sha1 : Sha1) where
  abbrev pub Kept : StateKeyTuple × List Event → Type κ
  Kept x = All P x.1

  -- The events that groups are resolved to: one for each group that has events.
  abbrev pub Chosen : Groups → List Event → Type κ
  Chosen g events =
      ((j : StateKeyTuple) → count (has_key j) events ≡ count_groups j g) × All P events

  cons-Chosen :
      (k : StateKeyTuple) (e chosen : Event) (es : List Event) (g : Groups) (events : List Event)
      → HasKey k chosen
      → P chosen
      → Chosen g events
      → Chosen ((k, e ∷ es) ∷ g) (chosen ∷ events)
  unfolding count_groups
  cons-Chosen k e chosen es g events h p c =
      ((λ j. ground (arith, HasKey-has_key k j chosen h, c.0 j)), (p, c.1))

  pub resolve_blocks-Chosen :
      (g : Groups) (r : ResolvedAuthEvents) (last : List Event × ResolvedAuthEvents)
      → All IsGroup g
      → All Kept g
      → resolve_blocks verify_json sha1 (blocks g) r ≡ ok last
      → Chosen g last.0
  unfolding resolve_blocks count_groups
  resolve_blocks-Chosen [] r last keyed p h = rw⁻¹ (ok_inj h) ((λ j. refl), tt)
  resolve_blocks-Chosen ((k, []) ∷ g) r last keyed p h =
      let rest = resolve_blocks-Chosen g r last keyed.1 p.1 h in
      ((λ j. ground (arith, rest.0 j)), rest.1)
  resolve_blocks-Chosen ((k, e ∷ es) ∷ g) r last keyed p h =
      let (chosen, first, more) =
        >>=-eq-ok (resolve_auth_block verify_json sha1 (e ∷ es) r)
          (λ c. resolve_blocks verify_json sha1 (blocks g) c.1 >>= λ x. ok (c.0 ∷ x.0, x.1)) h in
      let (rest, second, done) =
        >>=-eq-ok (resolve_blocks verify_json sha1 (blocks g) chosen.1)
          (λ x. ok (chosen.0 ∷ x.0, x.1)) more in
      let tail = resolve_blocks-Chosen g chosen.1 rest keyed.1 p.1 second in
      subst (λ (x : List Event × ResolvedAuthEvents). Chosen ((k, e ∷ es) ∷ g) x.0) (ok_inj done)
        (cons-Chosen k e chosen.0 es g rest.0
          (resolve_auth_block-P (HasKey k) verify_json sha1 (e ∷ es) r chosen keyed.0 first)
          (resolve_auth_block-P P verify_json sha1 (e ∷ es) r chosen p.0 first) tail)

  resolve_others-Chosen :
      (g : Groups) (r : ResolvedAuthEvents) (last : List Event)
      → All IsGroup g
      → All Kept g
      → resolve_others verify_json sha1 (blocks g) r ≡ ok last
      → Chosen g last
  unfolding resolve_others count_groups
  resolve_others-Chosen [] r last keyed p h = rw⁻¹ (ok_inj h) ((λ j. refl), tt)
  resolve_others-Chosen ((k, []) ∷ g) r last keyed p h =
      cc (h, resolve_normal_block-nil verify_json sha1 r)
  resolve_others-Chosen ((k, e ∷ es) ∷ g) r last keyed p h =
      let (chosen, first, more) =
        >>=-eq-ok (resolve_normal_block verify_json sha1 (e ∷ es) r)
          (λ c. resolve_others verify_json sha1 (blocks g) r >>= λ x. ok (c ∷ x)) h in
      let (rest, second, done) =
        >>=-eq-ok (resolve_others verify_json sha1 (blocks g) r) (λ x. ok (chosen ∷ x)) more in
      let tail = resolve_others-Chosen g r rest keyed.1 p.1 second in
      subst (λ (x : List Event). Chosen ((k, e ∷ es) ∷ g) x) (ok_inj done)
        (cons-Chosen k e chosen es g rest
          (resolve_normal_block-P (HasKey k) verify_json sha1 (e ∷ es) r chosen keyed.0 first)
          (resolve_normal_block-P P verify_json sha1 (e ∷ es) r chosen p.0 first) tail)

  module _ (seen : Seen) (offsets : Offsets) (g : Destination → Groups) (c : IsCounted seen g)
      (kept : InGroups P g) where
    -- The events resolved so far are one for each key of the first destinations.
    pub record Progress (n : ℕ) (r : StateResolverV1) : Type κ where
      pub stored : IsStored r offsets g
      pub tally :
          (j : StateKeyTuple)
          → count (has_key j) r.result ≡ (if seen j && ltb (rank (destination j)) n then 1 else 0)
      pub from : All P r.result

    appended-Progress :
        (d : Destination) (r : StateResolverV1) (known : ResolvedAuthEvents) (events : List Event)
        → Progress (rank d) r
        → Chosen (g d) events
        → Progress (suc (rank d)) (record r { resolved = known; result = r.result ++ events })
    appended-Progress d r known events p chosen = record {
      stored = record {
        creates = p.stored.creates;
        power_levels = p.stored.power_levels;
        join_rules = p.stored.join_rules;
        lists = λ list.
            p.stored.lists list
            ∙ sym (
                blocks_of_eq r (record r { resolved = known; result = r.result ++ events }) list
                  refl refl refl);
        offset = p.stored.offset;
      };
      tally = λ j.
          count-append (has_key j) r.result events
          ∙ ground (arith, p.tally j, chosen.0 j, c.once d j);
      from = All-append P r.result events p.from chosen.1;
    }

    pub resolve_and_add-Progress :
        (d : Destination) (new : List (List Event)) (r next : StateResolverV1)
        → blocks (g d) ≡ new
        → Progress (rank d) r
        → resolve_and_add_auth_blocks verify_json sha1 new r ≡ ok next
        → Progress (suc (rank d)) next
    unfolding resolve_and_add_auth_blocks
    resolve_and_add-Progress d new r next same p h =
        let (chosen, first, more) =
          >>=-eq-ok (resolve_blocks verify_json sha1 new r.resolved)
            (λ x. add_auth_events x.0 x.1 >>= λ known.
              ok (record r { resolved = known; result = r.result ++ x.0 }))
            h in
        let (known, _, done) =
          >>=-eq-ok (add_auth_events chosen.0 chosen.1)
            (λ known. ok (record r { resolved = known; result = r.result ++ chosen.0 })) more in
        subst (Progress (suc (rank d))) (ok_inj done) (
          appended-Progress d r known chosen.0 p
            (resolve_blocks-Chosen (g d) r.resolved chosen (c.keyed d) (kept d) (rw same first)))

    auth_types-Progress :
        (r last : StateResolverV1)
        → Progress 0 r
        → resolve_auth_types verify_json sha1 r ≡ ok last
        → Progress 5 last
    unfolding resolve_auth_types
    auth_types-Progress r last p0 h =
        let (r1, s1, h1) = >>=-eq-ok _ _ h in
        let p1 =
          resolve_and_add-Progress creates_block (r.creates ∷ []) r r1 (ap blocks p0.stored.creates)
            p0 s1 in
        let (r2, s2, h2) = >>=-eq-ok _ _ h1 in
        let p2 =
          resolve_and_add-Progress power_levels_block (r1.power_levels ∷ []) r1 r2
            (ap blocks p1.stored.power_levels) p1 s2 in
        let (r3, s3, h3) = >>=-eq-ok _ _ h2 in
        let p3 =
          resolve_and_add-Progress join_rules_block (r2.join_rules ∷ []) r2 r3
            (ap blocks p2.stored.join_rules) p2 s3 in
        let (r4, s4, h4) = >>=-eq-ok _ _ h3 in
        let p4 =
          resolve_and_add-Progress (block_in third_party_invites_list) r3.third_party_invites r3 r4
            (p3.stored.lists third_party_invites_list) p3 s4 in
        resolve_and_add-Progress (block_in members_list) r4.members r4 last
          (p4.stored.lists members_list) p4 h4

    others-Chosen :
        (r : StateResolverV1) (others : List Event)
        → Progress 5 r
        → resolve_others verify_json sha1 r.others r.resolved ≡ ok others
        → ((j : StateKeyTuple) → count (has_key j) (r.result ++ others) ≡ (if seen j then 1 else 0))
          × All P (r.result ++ others)
    others-Chosen r others p h =
        let chosen =
          resolve_others-Chosen (g (block_in others_list)) r.resolved others
            (c.keyed (block_in others_list)) (kept (block_in others_list))
            (rw (p.stored.lists others_list) h) in
        (
          λ j.
              count-append (has_key j) r.result others
              ∙ ground (
                arith,
                p.tally j,
                chosen.0 j,
                c.once (block_in others_list) j,
                rank-lt (destination j),
              ),
          All-append P r.result others p.from chosen.1,
        )

    finish-Once :
        (r : StateResolverV1) (result : List Event)
        → Progress 0 r
        → (resolve_auth_types verify_json sha1 r >>= λ x.
            resolve_others verify_json sha1 x.others x.resolved >>= λ others.
            ok (x.result ++ others))
          ≡ ok result
        → ((j : StateKeyTuple) → count (has_key j) result ≡ (if seen j then 1 else 0))
          × All P result
    finish-Once r result p h =
        let (last, types, more) = >>=-eq-ok (resolve_auth_types verify_json sha1 r) _ h in
        let (others, found, done) =
          >>=-eq-ok (resolve_others verify_json sha1 last.others last.resolved) _ more in
        subst
          (λ x. ((j : StateKeyTuple) → count (has_key j) x ≡ (if seen j then 1 else 0)) × All P x)
          (ok_inj done) (others-Chosen last others (auth_types-Progress r last p types) found)

    pub start-Progress :
        (r : StateResolverV1) (known : ResolvedAuthEvents)
        → IsStored r offsets g
        → r.result ≡ []
        → Progress 0 (record r { resolved = known })
    start-Progress r known s h = record {
      stored = record {
        creates = s.creates;
        power_levels = s.power_levels;
        join_rules = s.join_rules;
        lists = λ list.
            s.lists list ∙ sym (blocks_of_eq r (record r { resolved = known }) list refl refl refl);
        offset = s.offset;
      };
      tally = λ j. ap (count (has_key j)) h ∙ ground arith;
      from = subst (All P) (sym h) tt;
    }

-- One event for each type and state key that the conflicted events have, and it is one of them.
pub record IsResolution (conflicted result : List Event) : Type 1 where
  pub once :
      (k : StateKeyTuple) → count (has_key k) result ≡ (if any (has_key k) conflicted then 1 else 0)
  pub from : (P : Event → Type 0) → All P conflicted → All P result

module _ (verify_json : VerifyJson) (sha1 : Sha1) where
  resolved_once :
      (P : Event → Type 0) (conflicted auth_events result : List Event)
      → All IsState conflicted
      → All P conflicted
      → resolve_state_conflicts verify_json sha1 conflicted auth_events ≡ ok result
      → ((k : StateKeyTuple)
          → count (has_key k) result ≡ (if any (has_key k) conflicted then 1 else 0))
        × All P result
  unfolding resolve_state_conflicts
  resolved_once P conflicted auth_events result state p h =
      let (grouped, found, no_auth, no_result, parts) =
        add_conflicted-IsGrouped P conflicted state p in
      let rest = sym (ok->>= found _) ∙ h in
      let (known, _, more) = >>=-eq-ok (add_auth_events auth_events grouped.resolved) _ rest in
      let seen : Seen = λ k. any (has_key k) conflicted in
      finish-Once P verify_json sha1 seen parts.offsets parts.groups parts.counted parts.kept
        (record grouped { resolved = known }) result
        (start-Progress P verify_json sha1 seen parts.offsets parts.groups parts.counted parts.kept
          grouped known parts.stored no_result)
        more

  -- If every conflicted event is a state event and ResolveStateConflicts returns, its result holds
  -- one event for each type and state key that the conflicted events have and none for another, and
  -- what holds of every conflicted event holds of every event of the result.
  pub resolve_state_conflicts-IsResolution :
      (conflicted auth_events result : List Event)
      → All IsState conflicted
      → resolve_state_conflicts verify_json sha1 conflicted auth_events ≡ ok result
      → IsResolution conflicted result
  resolve_state_conflicts-IsResolution conflicted auth_events result state h = record {
    once =
        (resolved_once (λ _. Unit {0}) conflicted auth_events result state
          (All-of_forall (λ _. Unit {0}) (λ _. tt) conflicted) h).0;
    from = λ P p. (resolved_once P conflicted auth_events result state p h).1;
  }
