-- ===== src/Result.antt =====
-- How a call of the library ends: with a value, with a Go error, or with a run-time panic. The
-- errors are those of eventauth.go, eventcontent.go, eventversion.go and event.go, one constructor
-- for each message that the code formats.
use gomatrixserverlib.Prelude.{ℕ, ◌≡◌, refl, ap, Bool, true, false, String, List, [], ◌∷◌, All}

-- The messages of `errorf` in eventauth.go and eventcontent.go (`NotAllowed`).
pub data Denial : Type 0 where
  -- createEventAllowed
  create_state_key create_domain create_prev_events : Denial
  -- commonChecks, aliasEventAllowed and membershipAllowed
  wrong_room unfederatable : Denial
  invalid_id : String → Denial
  alias_state_key : Denial
  sender_not_in_room sender_level state_key_owner : Denial
  -- powerLevelsEventAllowed
  invalid_user_id : String → Denial
  new_level_too_high old_level_too_high : Denial
  redact_level : Denial
  -- the contents
  missing_create_event unparsable_create unparsable_member unparsable_join_rules : Denial
  unparsable_power_levels missing_third_party_invite unparsable_third_party_invite : Denial
  -- membership events
  member_without_state_key missing_member_content missing_third_party_token : Denial
  restricted_not_supported authorised_via_invalid authorised_via_missing : Denial
  authorised_via_not_joined authorised_via_level : Denial
  third_party_target third_party_signature : Denial
  join_rule_forbids_knock version_forbids_knock knock_from_member : Denial
  join_rule_forbids_join cannot_leave self_invite_or_ban unknown_membership : Denial
  cannot_ban cannot_unban cannot_kick cannot_invite other_knock_or_join : Denial

pub data Error : Type 0 where
  not_allowed : Denial → Error
  unsupported_room_version : String → Error
  invalid_json : Error
  bad_base64 : Error
  bad_event : Error
  context_cancelled : Error
  -- CheckFields; `too_large` is the EventValidationError
  nil_references too_large wrong_sigil id_too_long sender_origin : Error
  -- an error of a caller's `AuthEventProvider`
  provider : ℕ → Error

pub data Result {ℓ} (A : Type ℓ) : Type ℓ where
  ok : A → Result A
  err : Error → Result A
  panic : Result A

infixl 5 ◌>>=◌ ◌>>◌
abbrev pub ◌>>=◌ {ℓ κ} : {A : Type ℓ} {B : Type κ} → Result A → (A → Result B) → Result B
ok value >>= next = next value
err e >>= next = err e
panic >>= next = panic

abbrev pub Check : Type 0
Check = Result (Unit {0})

abbrev pub ◌>>◌ {ℓ} : {B : Type ℓ} → Check → Result B → Result B
m >> k = m >>= λ _. k

-- `if !b { return errorf(d) }`
abbrev pub require : Bool → Denial → Check
require true d = ok tt
require false d = err (not_allowed d)

-- `err == nil`
abbrev pub is_ok {ℓ} : {A : Type ℓ} → Result A → Bool
is_ok (ok a) = true
is_ok _ = false

-- The value that a Go function returns beside an error which its caller ignores.
abbrev pub ok_or {ℓ} : {A : Type ℓ} → Result A → A → A
ok_or (ok a) d = a
ok_or _ d = d

-- Every check of a list passes, in order; the first that fails is the result.
unfoldable pub for_each {ℓ} : {A : Type ℓ} → (A → Check) → List A → Check
for_each f [] = ok tt
for_each f (x ∷ xs) = f x >> for_each f xs

-- A chain that ends with a value has a first part that does.
pub >>=-eq-ok {ℓ κ} :
    {A : Type ℓ} {B : Type κ} (first : Result A) (next : A → Result B) {b : B}
    → (first >>= next) ≡ ok b
    → (a : A) × (first ≡ ok a) × (next a ≡ ok b)
>>=-eq-ok (ok value) next done = (value, refl, done)
>>=-eq-ok (err e) next done = cc
>>=-eq-ok panic next done = cc

-- A chain goes on with the value of its first part.
pub ok->>= {ℓ κ} :
    {A : Type ℓ} {B : Type κ} {first : Result A} {a : A}
    → first ≡ ok a
    → (next : A → Result B) → (first >>= next) ≡ next a
ok->>= h next = ap (λ r. r >>= next) h

-- A loop of checks passes exactly if each of them does.
module _ {ℓ} {A : Type ℓ} (f : A → Check) where
  pub All-for_each : (xs : List A) → for_each f xs ≡ ok tt → All (λ x. f x ≡ ok tt) xs
  unfolding for_each
  All-for_each [] h = tt
  All-for_each (x ∷ xs) h =
      let (u, first, rest) = >>=-eq-ok (f x) (λ _. for_each f xs) h in (first, All-for_each xs rest)

  pub for_each-All : (xs : List A) → All (λ x. f x ≡ ok tt) xs → for_each f xs ≡ ok tt
  unfolding for_each
  for_each-All [] h = refl
  for_each-All (x ∷ xs) h = rw h.0 (for_each-All xs h.1)

pub ok_inj {ℓ} : {A : Type ℓ} {a b : A} → ok a ≡ ok b → a ≡ b
ok_inj {a = a} h = ap (λ r. ok_or r a) h
