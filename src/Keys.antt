-- ===== src/Keys.antt =====
-- keys.go and the validity of a key in keyring.go: the keys that a server publishes and the checks of
-- them. A timestamp is a uint64 of milliseconds, an instant the nanoseconds since 1970, and now is an
-- argument. VerifyJSON is a parameter.
pub mod Checked
pub mod Validity
use gomatrixserverlib.Prelude.{
  ℕ, ◌*◌, ◌-◌, ◌^◌, ltb, leb, nat_eq, Bool, true, false, ◌&&◌, not, Option, none, some, List, [],
  ◌∷◌, String, ◌==◌, if◌then◌else◌, Assoc, lookup, insert, length,
}
use gomatrixserverlib.Prelude.Int.{ℤ, pos, negsuc, ltb_ℤ, plus_ℤ}
use gomatrixserverlib.Prelude.Text.{before_first}

pub record OldVerifyKey : Type 0 where
  pub key : List ℕ
  pub expired_ts : ℕ

pub record ServerKeys : Type 0 where
  pub raw : List ℕ
  pub server_name : String
  pub verify_keys : Assoc (List ℕ)
  pub valid_until_ts : ℕ
  pub old_verify_keys : Assoc OldVerifyKey

pub record Ed25519Checks : Type 0 where
  pub valid_ed25519 : Bool
  pub matching_signature : Bool

pub record KeyChecks : Type 0 where
  pub all_checks_ok : Bool
  pub matching_server_name : Bool
  pub future_valid_until_ts : Bool
  pub has_ed25519_key : Bool
  pub all_ed25519_checks_ok : Option Bool
  pub ed25519_checks : Assoc Ed25519Checks

-- `Timestamp.Time`: the conversion to int64 wraps around.
abbrev pub time : ℕ → ℤ
time ts = if ltb ts (2 ^ 63) then pos (ts * 1000000) else negsuc ((2 ^ 64 - ts) * 1000000 - 1)

-- `t.After(u)`
abbrev pub after : ℤ → ℤ → Bool
after t u = ltb_ℤ u t

abbrev old_key : ℕ → Option OldVerifyKey → Option (List ℕ)
old_key at_ts none = none
old_key at_ts (some k) = if leb at_ts k.expired_ts then some k.key else none

abbrev current_key : ServerKeys → ℕ → Option (List ℕ) → Option OldVerifyKey → Option (List ℕ)
current_key keys at_ts none old = old_key at_ts old
current_key keys at_ts (some key) old =
    if leb at_ts keys.valid_until_ts then some key else old_key at_ts old

unfoldable pub public_key : ServerKeys → String → ℕ → Option (List ℕ)
public_key keys key_id at_ts =
    current_key keys at_ts (lookup key_id keys.verify_keys) (lookup key_id keys.old_verify_keys)

-- `VerifyJSON`, by server name, key ID, public key and JSON text. It is called with keys of 32 bytes
-- alone, so that ed25519.Verify does not panic.
abbrev pub VerifyJson : Type 0
VerifyJson = String → String → List ℕ → List ℕ → Bool

-- What the loop of checkVerifyKeys writes.
pub record Checking : Type 0 where
  pub all_ok : Bool
  pub has_key : Bool
  pub entries : Assoc Ed25519Checks
  pub found : Assoc (List ℕ)

abbrev pub nothing_checked : Checking
nothing_checked = record { all_ok = true; has_key = false; entries = []; found = [] }

unfoldable pub is_ed25519 : String → Bool
is_ed25519 key_id = before_first b':' key_id == "ed25519"

module _ (verify_json : VerifyJson) (keys : ServerKeys) where
  abbrev pub ed25519_entry : String → List ℕ → Ed25519Checks
  ed25519_entry key_id key =
      let valid = nat_eq (length key) 32 in
      record {
        valid_ed25519 = valid;
        matching_signature = valid && verify_json keys.server_name key_id key keys.raw;
      }

  abbrev pub check_key : String → List ℕ → Checking → Bool → Checking
  check_key key_id key c false = c
  check_key key_id key c true =
      let entry = ed25519_entry key_id key in
      record {
        all_ok = if entry.matching_signature then c.all_ok else false;
        has_key = true;
        entries = insert key_id entry c.entries;
        found = if entry.matching_signature then insert key_id key c.found else c.found;
      }

  unfoldable pub check_verify_keys : Assoc (List ℕ) → Checking → Checking
  check_verify_keys [] c = c
  check_verify_keys ((key_id, key) ∷ rest) c =
      check_verify_keys rest (check_key key_id key c (is_ed25519 key_id))

  -- CheckKeys, with nil where a check failed.
  unfoldable pub check_keys : String → ℤ → KeyChecks × Option (Assoc (List ℕ))
  unfolding check_verify_keys
  check_keys server_name now =
      let named = server_name == keys.server_name in
      let future = after (time keys.valid_until_ts) now in
      let c = check_verify_keys keys.verify_keys nothing_checked in
      let all = if named && future then c.has_key && c.all_ok else false in
      (
        record {
          all_checks_ok = all;
          matching_server_name = named;
          future_valid_until_ts = future;
          has_ed25519_key = c.has_key;
          all_ed25519_checks_ok = if c.has_key then some c.all_ok else none;
          ed25519_checks = c.entries;
        },
        if all then some c.found else none,
      )

-- keyring.go
pub record PublicKeyLookupResult : Type 0 where
  pub key : List ℕ
  pub expired_ts : ℕ
  pub valid_until_ts : ℕ

-- Seven days in nanoseconds.
abbrev pub seven_days : ℕ
seven_days = 7 * 24 * 3600 * 1000000000

unfoldable pub was_valid_at : PublicKeyLookupResult → ℤ → ℕ → Bool → Bool
was_valid_at r now at_ts strict_validity_checking =
    let future = plus_ℤ now seven_days in
    let until = time r.valid_until_ts in
    if not (nat_eq r.expired_ts 0)
    then ltb at_ts r.expired_ts
    else if strict_validity_checking
    then (if nat_eq r.valid_until_ts 0
        then false
        else not (after (time at_ts) (if after until future then future else until)))
    else true
