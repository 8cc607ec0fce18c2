-- ===== src/Tests/KeyTests.antt =====
-- Tests of the keys of servers.
use gomatrixserverlib.Prelude.{
  ◌≡◌, ◌↔◌, refl, true, false, some, [], ◌∷◌, List, ℕ, any, All, arith, insert, lookup,
}
use gomatrixserverlib.Prelude.Int.{pos, ◌<ℤ◌}
use gomatrixserverlib.Prelude.Text.{codes, before_first}
use gomatrixserverlib.Keys.{
  ServerKeys, VerifyJson, PublicKeyLookupResult, check_keys, check_verify_keys, is_ed25519, time,
  was_valid_at, public_key,
}
use gomatrixserverlib.Keys.Checked.{
  has_ed25519, Passes, IsReturned, check_keys_iff, check_keys-IsReturned,
}
use gomatrixserverlib.Keys.Validity.{was_valid_at-earlier}

abbrev verify_all : VerifyJson
verify_all server key_id key raw = true

-- 32 bytes
abbrev key_bytes : List ℕ
key_bytes = codes "abcdefghijklmnopqrstuvwxyz012345"

abbrev server_keys : ServerKeys
server_keys = record {
  raw = codes "{}";
  server_name = "a";
  verify_keys = ("ed25519:1", key_bytes) ∷ ("other:1", []) ∷ [];
  valid_until_ts = 2000;
  old_verify_keys = [];
}

all_pass : (check_keys verify_all server_keys "a" (pos 1999999999)).0.all_checks_ok ≡ true
unfolding check_keys check_verify_keys is_ed25519 before_first insert
all_pass = refl

returned :
    (check_keys verify_all server_keys "a" (pos 1999999999)).1
    ≡ some (("ed25519:1", key_bytes) ∷ [])
unfolding check_keys check_verify_keys is_ed25519 before_first insert
returned = refl

-- The end of the validity is no longer in the future when it has come.
at_the_end : (check_keys verify_all server_keys "a" (pos 2000000000)).0.all_checks_ok ≡ false
unfolding check_keys check_verify_keys is_ed25519 before_first insert
at_the_end = refl

-- But a key is still found at that timestamp.
found_at_the_end : public_key server_keys "ed25519:1" 2000 ≡ some key_bytes
unfolding public_key lookup
found_at_the_end = refl

check_keys_iff_example :
    ((check_keys verify_all server_keys "a" (pos 1999999999)).0.all_checks_ok ≡ true) ↔ (
      ("a" ≡ server_keys.server_name)
      × (pos 1999999999 <ℤ time server_keys.valid_until_ts)
      × (any has_ed25519 server_keys.verify_keys ≡ true)
      × All (Passes verify_all server_keys) server_keys.verify_keys)
check_keys_iff_example = check_keys_iff verify_all server_keys "a" (pos 1999999999)

check_keys-IsReturned_example :
    IsReturned verify_all server_keys
      (check_keys verify_all server_keys "a" (pos 1999999999)).0
      (check_keys verify_all server_keys "a" (pos 1999999999)).1
check_keys-IsReturned_example = check_keys-IsReturned verify_all server_keys "a" (pos 1999999999)

abbrev current : PublicKeyLookupResult
current = record { key = key_bytes; expired_ts = 0; valid_until_ts = 2000 }

valid_at_the_end : was_valid_at current (pos 0) 2000 true ≡ true
unfolding was_valid_at
valid_at_the_end = refl

was_valid_at-earlier_example : was_valid_at current (pos 0) 1000 true ≡ true
was_valid_at-earlier_example =
    was_valid_at-earlier current (pos 0) 1000 2000 true (omega arith) (omega arith) valid_at_the_end
