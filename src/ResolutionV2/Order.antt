-- ===== src/ResolutionV2/Order.antt =====
-- stateresolutionv2heaps.go: the orders of the events that are sorted.
use gomatrixserverlib.Prelude.{Bool, true, false, String, ◌≡◌, arith, if◌then◌else◌}
use gomatrixserverlib.Prelude.Int.{ℤ, ltb_ℤ}
use gomatrixserverlib.Prelude.Text.{text_less, text_less_irrefl, text_less_trans, text_less_total}
use gomatrixserverlib.Event.{Event}

pub record ConflictedPowerLevel : Type 0 where
  pub power_level : ℤ
  pub origin_server_ts : ℤ
  pub event_id : String
  pub event : Event

pub record ConflictedOther : Type 0 where
  pub mainline_position : ℤ
  pub origin_server_ts : ℤ
  pub event_id : String
  pub event : Event

-- `Less` of stateResV2ConflictedPowerLevelHeap
unfoldable pub power_level_less : ConflictedPowerLevel → ConflictedPowerLevel → Bool
power_level_less x y =
    if ltb_ℤ y.power_level x.power_level
    then true
    else if ltb_ℤ x.power_level y.power_level
    then false
    else if ltb_ℤ x.origin_server_ts y.origin_server_ts
    then false
    else if ltb_ℤ y.origin_server_ts x.origin_server_ts
    then true
    else text_less y.event_id x.event_id

-- `Less` of stateResV2ConflictedOtherHeap
unfoldable pub other_less : ConflictedOther → ConflictedOther → Bool
other_less x y =
    if ltb_ℤ x.mainline_position y.mainline_position
    then false
    else if ltb_ℤ y.mainline_position x.mainline_position
    then true
    else if ltb_ℤ x.origin_server_ts y.origin_server_ts
    then true
    else if ltb_ℤ y.origin_server_ts x.origin_server_ts
    then false
    else text_less x.event_id y.event_id

-- A test that orders what it compares, and leaves only events with the same ID unordered.
pub record IsTotalOrder {A : Type 0} (less : A → A → Bool) (id : A → String) : Type 0 where
  pub irreflexive : (x : A) → less x x ≡ false
  pub transitive : (x y z : A) → less x y ≡ true → less y z ≡ true → less x z ≡ true
  pub total : (x y : A) → less x y ≡ false → less y x ≡ false → id x ≡ id y

-- The order of the heap of control events is irreflexive and transitive, and leaves only events
-- with the same ID unordered.
pub power_level_less-IsTotalOrder : IsTotalOrder power_level_less (λ x. x.event_id)
unfolding power_level_less
power_level_less-IsTotalOrder = record {
  irreflexive = λ x. ground (arith, text_less_irrefl x.event_id);
  transitive = λ x y z h k. ground (arith, h, k, text_less_trans z.event_id y.event_id x.event_id);
  total = λ x y h k. ground (arith, h, k, text_less_total x.event_id y.event_id);
}

-- The order of the heap of other events is irreflexive and transitive, and leaves only events with
-- the same ID unordered.
pub other_less-IsTotalOrder : IsTotalOrder other_less (λ x. x.event_id)
unfolding other_less
other_less-IsTotalOrder = record {
  irreflexive = λ x. ground (arith, text_less_irrefl x.event_id);
  transitive = λ x y z h k. ground (arith, h, k, text_less_trans x.event_id y.event_id z.event_id);
  total = λ x y h k. ground (arith, h, k, text_less_total x.event_id y.event_id);
}
