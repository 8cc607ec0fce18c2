-- ===== src/ResolutionV2/Kahn/Linked.antt =====
-- Kahn's algorithm of stateresolutionv2.go: the degrees are what the events that are still to come
-- mention, and no event of the graph is mentioned by one that comes before it.
use gomatrixserverlib.Prelude.{
  ℕ, zero, suc, ◌+◌, ◌<◌, ◌≡◌, refl, ap, sym, ◌∙◌, subst, arith, inl, inr, Bool, true, false,
  Bool-cases, Option, none, some, List, [], ◌∷◌, String, ◌==◌, eq_iff, eq_refl, if◌then◌else◌,
  Assoc, lookup, insert, erase, values, lookup-insert, lookup-erase, All, All-imp, ◌⊎◌,
}
use gomatrixserverlib.Prelude.Int.{ℤ, pos, pos_part, eq_ℤ, pred_ℤ}
use gomatrixserverlib.Prelude.Entries.{HasOneEach, erase-HasOneEach}
use gomatrixserverlib.Prelude.Sort.{All-insert_sorted}
use gomatrixserverlib.Result.{Result, ok, ok_inj}
use gomatrixserverlib.ResolutionV2.Kahn.{
  Graph, push, release, release_if, decrement, decrement_all, degree, pop, process,
}
use gomatrixserverlib.ResolutionV2.Kahn.Mentions.{
  count_id, mentions, mentions-insert_sorted, mentions-erase,
}

pub Nat-cases : (n : ℕ) → (n ≡ 0) ⊎ (0 < n)
Nat-cases zero = inl refl
Nat-cases (suc n) = inr (omega arith)

module _ {A : Type 0} (id : A → String) (deps : A → List String) (less : A → A → Bool) where
  -- No event depends on one that comes after it.
  abbrev pub IsOrdered : List A → Type 0
  IsOrdered [] = Unit
  IsOrdered (x ∷ xs) = All (λ y. count_id (id y) (deps x) ≡ 0) xs × IsOrdered xs

  abbrev IsReleased : Assoc ℤ → A → Type 0
  IsReleased d y = degree (id y) d ≡ pos 0

  abbrev pub all_mentions : String → List A → ℕ
  all_mentions = mentions id deps less

  -- The pending IDs are those that are still to be counted down; an ID with an event that waits has a
  -- degree that is not zero, but for the busy ones.
  pub record IsLinked (Busy : String → Type 0) (pending : List String) (g : Graph id deps less)
      (graph : List A) : Type 0 where
    pub keyed : (k : String) (e : A) → lookup k g.event_map ≡ some e → id e ≡ k
    pub distinct : HasOneEach g.event_map
    pub counts :
        (k : String)
        → degree k g.in_degree
          ≡ pos (
              all_mentions k g.no_incoming
              + (all_mentions k (values g.event_map) + count_id k pending))
    pub in_heap : All (IsReleased g.in_degree) g.no_incoming
    pub in_graph : All (IsReleased g.in_degree) graph
    pub waiting :
        (k : String) (e : A) → lookup k g.event_map ≡ some e → degree k g.in_degree ≡ pos 0 → Busy k
    pub ordered : IsOrdered graph

  module _ (Busy After : String → Type 0) (pending : List String) (g : Graph id deps less)
      (graph : List A) where
    pub less_busy :
        ((k : String) (e : A)
          → lookup k g.event_map ≡ some e
          → degree k g.in_degree ≡ pos 0
          → Busy k
          → After k)
        → IsLinked Busy pending g graph
        → IsLinked After pending g graph
    less_busy f l = record {
      keyed = l.keyed;
      distinct = l.distinct;
      counts = l.counts;
      in_heap = l.in_heap;
      in_graph = l.in_graph;
      waiting = λ k e h z. f k e h z (l.waiting k e h z);
      ordered = l.ordered;
    }

    pub push-IsLinked :
        (key : String) (e : A)
        → lookup key g.event_map ≡ some e
        → degree key g.in_degree ≡ pos 0
        → ((k : String) → (key == k) ≡ false → Busy k → After k)
        → IsLinked Busy pending g graph
        → IsLinked After pending (push id deps less key e g) graph
    push-IsLinked key e found at_zero f l =
        let same = l.keyed key e found in
        let before : (k : String) (x : A)
            → lookup k (erase key g.event_map) ≡ some x
            → ((key == k) ≡ false) × (lookup k g.event_map ≡ some x) =
          λ k x h. elim (Bool-cases (key == k)) [
            | inl b ↦ cc (lookup-erase key k g.event_map, b, h)
            | inr b ↦ (b, sym (lookup-erase key k g.event_map ∙ rw b refl) ∙ h)
          ] in
        record {
          keyed = λ k x h. l.keyed k x (before k x h).1;
          distinct = erase-HasOneEach key g.event_map l.distinct;
          counts = λ k.
              l.counts k
              ∙ ap pos (
                  omega (
                    arith,
                    mentions-insert_sorted id deps less k e g.no_incoming,
                    mentions-erase id deps less k key g.event_map e l.distinct found,
                  ));
          in_heap =
              All-insert_sorted (IsReleased g.in_degree) less e g.no_incoming (rw same at_zero)
                l.in_heap;
          in_graph = l.in_graph;
          waiting =
              λ k x h z. let (other, there) = before k x h in f k other (l.waiting k x there z);
          ordered = l.ordered;
        }

  abbrev pub Idle : String → Type 0
  Idle k = ⊥

  degree-insert :
      (k key : String) (n : ℤ) (d : Assoc ℤ)
      → degree k (insert key n d) ≡ (if key == k then n else degree k d)
  unfolding degree
  degree-insert k key n d = elim (Bool-cases (key == k)) [
    | inl b ↦ rw (lookup-insert key k n d, b) refl
    | inr b ↦ rw (lookup-insert key k n d, b) refl
  ]

  module _ (key : String) (keys : List String) (g : Graph id deps less) (graph : List A)
      (l : IsLinked Idle (key ∷ keys) g graph) where
    -- What the ID's degree is after it.
    left : ℕ
    left =
        all_mentions key g.no_incoming + (all_mentions key (values g.event_map) + count_id key keys)

    abbrev fewer : ℤ
    fewer = pred_ℤ (degree key g.in_degree)

    abbrev lowered : Graph id deps less
    lowered = record g { in_degree = insert key fewer g.in_degree }

    fewer-left : fewer ≡ pos left
    unfolding pred_ℤ left
    fewer-left =
        let was : degree key g.in_degree ≡ pos (suc left) =
          l.counts key ∙ ap pos (rw (eq_refl key) (omega arith)) in
        ap pred_ℤ was

    -- An ID that was released is not counted down again.
    still-IsReleased :
        (y : A) → IsReleased g.in_degree y → IsReleased (insert key fewer g.in_degree) y
    still-IsReleased y h =
        degree-insert (id y) key fewer g.in_degree ∙ elim (Bool-cases (key == id y)) [
          | inl b ↦
              let none_left : 0 ≡ _ = ap pos_part (sym h ∙ l.counts (id y)) in
              absurd (omega (arith, rw b at none_left))
          | inr b ↦ rw b h
        ]

    lowered-IsLinked : IsLinked (λ k. key ≡ k) keys lowered graph
    unfolding left
    lowered-IsLinked = record {
      keyed = l.keyed;
      distinct = l.distinct;
      counts = λ k. degree-insert k key fewer g.in_degree ∙ elim (Bool-cases (key == k)) [
        | inl b ↦ rw b (
            fewer-left
            ∙ ap
                (λ t. pos (
                  all_mentions t g.no_incoming
                  + (all_mentions t (values g.event_map) + count_id t keys)))
                ((eq_iff key k).0 b))
        | inr b ↦ rw b (l.counts k ∙ ap pos (rw b refl))
      ];
      in_heap =
          All-imp (IsReleased g.in_degree) (IsReleased (insert key fewer g.in_degree))
            still-IsReleased g.no_incoming l.in_heap;
      in_graph =
          All-imp (IsReleased g.in_degree) (IsReleased (insert key fewer g.in_degree))
            still-IsReleased graph l.in_graph;
      waiting = λ k e h z. elim (Bool-cases (key == k)) [
        | inl b ↦ (eq_iff key k).0 b
        | inr b ↦
            absurd (l.waiting k e h (sym (degree-insert k key fewer g.in_degree ∙ rw b refl) ∙ z))
      ];
      ordered = l.ordered;
    }

    at-key : degree key (insert key fewer g.in_degree) ≡ fewer
    at-key = degree-insert key key fewer g.in_degree ∙ rw (eq_refl key) refl

    release-IsLinked :
        (o : Option A)
        → lookup key g.event_map ≡ o
        → fewer ≡ pos 0
        → IsLinked Idle keys (release id deps less key lowered o) graph
    release-IsLinked none h z =
        less_busy (λ k. key ≡ k) Idle keys lowered graph
          (λ k e there _ same. cc (subst (λ t. lookup t g.event_map ≡ none) same h, there))
          lowered-IsLinked
    release-IsLinked (some e) h z =
        push-IsLinked (λ k. key ≡ k) Idle keys lowered graph key e h (at-key ∙ z)
          (λ k other same. cc (subst (λ t. (key == t) ≡ true) same (eq_refl key), other))
          lowered-IsLinked

    release_if-IsLinked :
        (b : Bool)
        → eq_ℤ fewer (pos 0) ≡ b
        → IsLinked Idle keys (release_if id deps less key lowered b) graph
    release_if-IsLinked true h =
        let none_left : left ≡ 0 = ground (arith, rw fewer-left at h) in
        release-IsLinked (lookup key g.event_map) refl (fewer-left ∙ ap pos none_left)
    release_if-IsLinked false h =
        less_busy (λ k. key ≡ k) Idle keys lowered graph
          (λ k e there z same.
            let zero : fewer ≡ pos 0 =
              sym at-key
              ∙ subst (λ t. degree t (insert key fewer g.in_degree) ≡ pos 0) (sym same) z in
            cc (ap (λ n. eq_ℤ n (pos 0)) zero, h))
          lowered-IsLinked

    decrement-IsLinked : IsLinked Idle keys (decrement id deps less key g) graph
    unfolding decrement
    decrement-IsLinked = release_if-IsLinked (eq_ℤ fewer (pos 0)) refl

  decrement_all-IsLinked :
      (keys : List String) (g : Graph id deps less) (graph : List A)
      → IsLinked Idle keys g graph
      → IsLinked Idle [] (decrement_all id deps less keys g) graph
  unfolding decrement_all
  decrement_all-IsLinked [] g graph l = l
  decrement_all-IsLinked (key ∷ keys) g graph l =
      decrement_all-IsLinked keys (decrement id deps less key g) graph
        (decrement-IsLinked key keys g graph l)

  popped-IsLinked :
      (g : Graph id deps less) (e : A) (rest graph : List A)
      → g.no_incoming ≡ e ∷ rest
      → IsLinked Idle [] g graph
      → IsLinked Idle (deps e) (record g { no_incoming = rest }) (e ∷ graph)
  unfolding mentions
  popped-IsLinked g e rest graph h l =
      let heap : All (IsReleased g.in_degree) (e ∷ rest) =
        subst (All (IsReleased g.in_degree)) h l.in_heap in
      let counted : (k : String)
          → degree k g.in_degree
            ≡ pos (all_mentions k (e ∷ rest) + (all_mentions k (values g.event_map) + 0)) =
        λ k.
          l.counts k
          ∙ ap (λ xs. pos (all_mentions k xs + (all_mentions k (values g.event_map) + 0))) h in
      record {
        keyed = l.keyed;
        distinct = l.distinct;
        counts = λ k. counted k ∙ ap pos (omega arith);
        in_heap = heap.1;
        in_graph = (heap.0, l.in_graph);
        waiting = l.waiting;
        ordered = (
          All-imp (IsReleased g.in_degree) (λ y. count_id (id y) (deps e) ≡ 0)
              (λ y z.
                let none_left : 0 ≡ _ = ap pos_part (sym z ∙ counted (id y)) in
                omega (arith, none_left))
              graph l.in_graph,
          l.ordered,
        );
      }

  -- How the third loop ends: an event that is left over is mentioned by another one that is.
  pub record IsEnd (graph : List A) (m : Assoc A) : Type 0 where
    pub ordered : IsOrdered graph
    pub stuck : (k : String) (e : A) → lookup k m ≡ some e → 0 < all_mentions k (values m)
    pub keyed : (k : String) (e : A) → lookup k m ≡ some e → id e ≡ k
    pub distinct : HasOneEach m

  pop-IsEnd :
      (next : Graph id deps less → List A → Result (List A × Assoc A)) (g : Graph id deps less)
      (graph heap graph_end : List A) (m : Assoc A)
      → ((after : Graph id deps less) (longer : List A)
          → IsLinked Idle [] after longer
          → next after longer ≡ ok (graph_end, m)
          → IsEnd graph_end m)
      → IsLinked Idle [] g graph
      → g.no_incoming ≡ heap
      → pop id deps less next g graph heap ≡ ok (graph_end, m)
      → IsEnd graph_end m
  unfolding mentions
  pop-IsEnd next g graph [] graph_end m go l h done =
      let same_graph : graph ≡ graph_end = ap (λ p. p.0) (ok_inj done) in
      let same_map : g.event_map ≡ m = ap (λ p. p.1) (ok_inj done) in
      rw⁻¹ (same_graph, same_map)
        (record {
          ordered = l.ordered;
          stuck = λ k e there. elim (Nat-cases (all_mentions k (values g.event_map))) [
            | inl z ↦ absurd (
                l.waiting k e there
                  (l.counts k ∙ ap pos (rw (ap (all_mentions k) h, z) (omega arith))))
            | inr p ↦ p
          ];
          keyed = l.keyed;
          distinct = l.distinct;
        })
  pop-IsEnd next g graph (e ∷ rest) graph_end m go l h done =
      go (decrement_all id deps less (deps e) (record g { no_incoming = rest })) (e ∷ graph)
        (decrement_all-IsLinked (deps e) (record g { no_incoming = rest }) (e ∷ graph)
          (popped-IsLinked g e rest graph h l))
        done

  pub process-IsEnd :
      (fuel : ℕ) (g : Graph id deps less) (graph graph_end : List A) (m : Assoc A)
      → IsLinked Idle [] g graph
      → process id deps less fuel g graph ≡ ok (graph_end, m)
      → IsEnd graph_end m
  unfolding process
  process-IsEnd zero g graph graph_end m l h = cc
  process-IsEnd (suc fuel) g graph graph_end m l h =
      pop-IsEnd (process id deps less fuel) g graph g.no_incoming graph_end m
        (λ after longer. process-IsEnd fuel after longer graph_end m) l refl h
