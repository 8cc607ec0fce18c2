-- ===== src/Keys/Checked.antt =====
-- keys.go: what CheckKeys accepts and which keys it returns.
use gomatrixserverlib.Prelude.{
  ℕ, ◌≡◌, refl, arith, ◌↔◌, ◌∙◌, sym, if◌then◌else◌, Bool, true, false, Bool-cases, inl, inr, ◌⊎◌,
  ◌||◌, ◌&&◌, any, Option, none, some, List, [], ◌∷◌, String, ◌==◌, eq_iff, Assoc, All, length,
  insert,
}
use gomatrixserverlib.Prelude.Int.{ℤ, ◌<ℤ◌}
use gomatrixserverlib.Keys.{
  ServerKeys, VerifyJson, Checking, nothing_checked, is_ed25519, ed25519_entry, check_key,
  check_verify_keys, check_keys, time, after, KeyChecks,
}

abbrev pub has_ed25519 : String × List ℕ → Bool
has_ed25519 (key_id, key) = is_ed25519 key_id

all_four :
    (a b c d : Bool)
    → ((if a && b then c && d else false) ≡ true)
      ↔ ((a ≡ true) × (b ≡ true) × (c ≡ true) × (d ≡ true))
all_four a b c d = ground arith

All-insert :
    (P : String × List ℕ → Type 0) (id : String) (v : List ℕ) (m : Assoc (List ℕ))
    → P (id, v)
    → All P m
    → All P (insert id v m)
unfolding insert
All-insert P id v [] p h = (p, tt)
All-insert P id v ((name, found) ∷ rest) p h = elim (Bool-cases (name == id)) [
  | inl b ↦ rw (b, All) (p, h.1)
  | inr b ↦ rw (b, All) (h.0, All-insert P id v rest p h.1)
]

module _ (verify_json : VerifyJson) (keys : ServerKeys) where
  -- An ed25519 key of 32 bytes that has signed the text.
  abbrev pub IsSigning : String × List ℕ → Type 0
  IsSigning (key_id, key) =
      (is_ed25519 key_id ≡ true)
      × (length key ≡ 32)
      × (verify_json keys.server_name key_id key keys.raw ≡ true)

  abbrev pub Passes : String × List ℕ → Type 0
  Passes e = (has_ed25519 e ≡ false) ⊎ IsSigning e

  key-all_ok :
      (key_id : String) (key : List ℕ) (c : Checking) (b : Bool)
      → is_ed25519 key_id ≡ b
      → ((check_key verify_json keys key_id key c b).all_ok ≡ true)
        ↔ ((c.all_ok ≡ true) × Passes (key_id, key))
  key-all_ok key_id key c false h = (λ k. (k, inl h), λ (k, _). k)
  key-all_ok key_id key c true h = (
    λ k. (ground (arith, k), inr (h, ground (arith, k), ground (arith, k))),
    λ (k, p). elim p [
      | inl n ↦ cc (h, n)
      | inr (_, size, verifies) ↦ ground (arith, k, size, verifies)
    ],
  )

  all_ok_iff :
      (entries : Assoc (List ℕ)) (c : Checking)
      → ((check_verify_keys verify_json keys entries c).all_ok ≡ true)
        ↔ ((c.all_ok ≡ true) × All Passes entries)
  unfolding check_verify_keys
  all_ok_iff [] c = (λ h. (h, tt), λ (h, _). h)
  all_ok_iff ((key_id, key) ∷ rest) c =
      let (from, to) =
        all_ok_iff rest (check_key verify_json keys key_id key c (is_ed25519 key_id)) in
      let (first, back) = key-all_ok key_id key c (is_ed25519 key_id) refl in
      (
        λ h. let (k, ps) = from h in let (ok_before, p) = first k in (ok_before, (p, ps)),
        λ (ok_before, (p, ps)). to (back (ok_before, p), ps),
      )

  key-has_key :
      (key_id : String) (key : List ℕ) (c : Checking) (b : Bool)
      → (check_key verify_json keys key_id key c b).has_key ≡ (c.has_key || b)
  key-has_key key_id key c false = ground arith
  key-has_key key_id key c true = ground arith

  has_key_lem :
      (entries : Assoc (List ℕ)) (c : Checking)
      → (check_verify_keys verify_json keys entries c).has_key
        ≡ (c.has_key || any has_ed25519 entries)
  unfolding check_verify_keys
  has_key_lem [] c = ground arith
  has_key_lem ((key_id, key) ∷ rest) c =
      let b = is_ed25519 key_id in
      has_key_lem rest (check_key verify_json keys key_id key c b)
      ∙ ground (arith, key-has_key key_id key c b)

  key-IsSigning :
      (key_id : String) (key : List ℕ) (c : Checking) (b : Bool)
      → is_ed25519 key_id ≡ b
      → All IsSigning c.found
      → All IsSigning (check_key verify_json keys key_id key c b).found
  key-IsSigning key_id key c false e h = h
  key-IsSigning key_id key c true e h =
      elim (Bool-cases (ed25519_entry verify_json keys key_id key).matching_signature) [
        | inl m ↦
            rw m
              (All-insert IsSigning key_id key c.found (e, ground (arith, m), ground (arith, m)) h)
        | inr m ↦ rw m h
      ]

  found-IsSigning :
      (entries : Assoc (List ℕ)) (c : Checking)
      → All IsSigning c.found
      → All IsSigning (check_verify_keys verify_json keys entries c).found
  unfolding check_verify_keys
  found-IsSigning [] c h = h
  found-IsSigning ((key_id, key) ∷ rest) c h =
      found-IsSigning rest (check_key verify_json keys key_id key c (is_ed25519 key_id))
        (key-IsSigning key_id key c (is_ed25519 key_id) refl h)

  -- The checks of a server's keys all pass exactly if the server is the one that was asked for, the
  -- keys are valid for longer than now, one of them at least is an ed25519 key, and every ed25519 key
  -- has 32 bytes and a signature of the text that verifies.
  pub check_keys_iff :
      (server_name : String) (now : ℤ)
      → ((check_keys verify_json keys server_name now).0.all_checks_ok ≡ true) ↔ (
          (server_name ≡ keys.server_name)
          × (now <ℤ time keys.valid_until_ts)
          × (any has_ed25519 keys.verify_keys ≡ true)
          × All Passes keys.verify_keys)
  unfolding check_keys
  check_keys_iff server_name now =
      let (from, to) = all_ok_iff keys.verify_keys nothing_checked in
      let has = has_key_lem keys.verify_keys nothing_checked in
      let c = check_verify_keys verify_json keys keys.verify_keys nothing_checked in
      let named = server_name == keys.server_name in
      let future = after (time keys.valid_until_ts) now in
      let (each, together) = all_four named future c.has_key c.all_ok in
      (
        λ h.
            let (n, f, k, o) = each h in
            ((eq_iff server_name keys.server_name).0 n, ground (arith, f), sym has ∙ k, (from o).1),
        λ (n, f, k, ps).
            together (
              (eq_iff server_name keys.server_name).1 n,
              ground (arith, f),
              has ∙ k,
              to (refl, ps),
            ),
      )

  -- nil is returned after a failed check, and signing keys after all have passed.
  abbrev pub IsReturned : KeyChecks → Option (Assoc (List ℕ)) → Type 0
  IsReturned checks none = checks.all_checks_ok ≡ false
  IsReturned checks (some found) = (checks.all_checks_ok ≡ true) × All IsSigning found

  if-IsReturned :
      (checks : KeyChecks) (b : Bool) (found : Assoc (List ℕ))
      → checks.all_checks_ok ≡ b
      → All IsSigning found
      → IsReturned checks (if b then some found else none)
  if-IsReturned checks true found h signing = (h, signing)
  if-IsReturned checks false found h signing = h

  -- CheckKeys returns keys exactly if all the checks pass, and each of them is an ed25519 key of 32
  -- bytes whose signature of the text verifies.
  pub check_keys-IsReturned :
      (server_name : String) (now : ℤ)
      → IsReturned
          (check_keys verify_json keys server_name now).0
          (check_keys verify_json keys server_name now).1
  unfolding check_keys
  check_keys-IsReturned server_name now =
      let checks = (check_keys verify_json keys server_name now).0 in
      if-IsReturned checks checks.all_checks_ok _ refl
        (found-IsSigning keys.verify_keys nothing_checked tt)
