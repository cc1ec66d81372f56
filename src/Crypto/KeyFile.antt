-- ===== src/Crypto/KeyFile.antt =====
-- internal/crypto/crypto.go: the key file behind a load.
use llm_security_audit_gatew.Base.{
  ◌≡◌, refl, sym, subst, String, Option, none, some, Bool, true, false, str_eq, Bytes, Bool-cases,
  inl, inr, ◌⊎◌,
}
use llm_security_audit_gatew.Base.Result.{Result, ok, err, ◌>>=◌}
use llm_security_audit_gatew.Crypto.{
  Aead, CryptoError, System, Loaded, new, loaded, check, open_new, with_random, on_file,
  load_or_create,
}

module _ (gcm : Bytes → Result CryptoError Aead) where
  -- A load that reports the file as created found none, its own or another process's; else the file
  -- was there or another process made it.
  abbrev pub Origin : Option Bytes → Option Bytes → Option Bytes → Bool → Type 0
  Origin before other file true = (before ≡ none) × (other ≡ none)
  Origin before other file false = (file ≡ before) ⊎ (file ≡ other)

  -- With a key, the file holds that key; without one, no file is new but that of another process or
  -- what a failed removal left.
  abbrev pub Leaves :
      Option Bytes → Option Bytes → Option Bytes → Result CryptoError Loaded × Option Bytes → Type 0
  Leaves before other left (ok l, file) =
      ((raw : Bytes) × (file ≡ some raw) × (new gcm raw ≡ ok l.key))
      × Origin before other file l.created
  Leaves before other left (err e, file) = (file ≡ before) ⊎ ((file ≡ other) ⊎ (file ≡ left))

  module _ (before other left : Option Bytes) where
    check-Leaves :
        (e : Option String) (continue : Result CryptoError Loaded × Option Bytes)
        (file : Option Bytes)
        → (file ≡ before) ⊎ ((file ≡ other) ⊎ (file ≡ left))
        → Leaves before other left continue
        → Leaves before other left (check gcm e continue file)
    check-Leaves none continue file f h = h
    check-Leaves (some e) continue file f h = f

    -- A file that was there.
    loaded-Leaves :
        (raw : Bytes)
        → (some raw ≡ before) ⊎ (some raw ≡ other)
        → Leaves before other left (loaded gcm false raw, some raw)
    loaded-Leaves raw origin = on (new gcm raw) refl
      where
        on :
            (r : Result CryptoError Aead)
            → new gcm raw ≡ r
            → Leaves before other left
                ((r >>= λ key. ok (record { key = key; created = false })), some raw)
        on (ok key) e = ((raw, refl, e), origin)
        on (err cause) e = elim origin [ inl b ↦ inl b | inr o ↦ inr (inl o) ]

  -- The file of this load, with a key that can be used.
  write_key-Leaves :
      (left : Option Bytes) (raw : Bytes) {key : Aead}
      → new gcm raw ≡ ok key
      → Leaves none none left (loaded gcm true raw, some raw)
  write_key-Leaves left raw {key} e =
      subst
        (λ (r : Result CryptoError Aead).
          Leaves none none left
            ((r >>= λ key. ok (record { key = key; created = true })), some raw))
        (sym e) ((raw, refl, e), (refl, refl))

  -- A random source that answers gives what `New` accepts, 32 bytes.
  abbrev pub Accepted : Result CryptoError Bytes → Type 0
  Accepted (err e) = Unit
  Accepted (ok raw) = (key : Aead) × (new gcm raw ≡ ok key)

  open_new-Leaves :
      (s : System) (raw : Bytes) {key : Aead} (other : Option Bytes)
      → new gcm raw ≡ ok key
      → Leaves none other s.unremoved (open_new gcm s raw other)
  open_new-Leaves s raw (some found) e =
      check-Leaves none (some found) s.unremoved s.open_error _ (some found) (inr (inl refl)) (
        check-Leaves none (some found) s.unremoved s.reread_error _ (some found) (inr (inl refl))
          (loaded-Leaves none (some found) s.unremoved found (inr refl)))
  open_new-Leaves s raw none e = check-Leaves none none s.unremoved s.open_error _ none (inl refl) (
      check-Leaves none none s.unremoved s.write_error _ s.unremoved (inr (inr refl)) (
        check-Leaves none none s.unremoved s.close_error _ s.unremoved (inr (inr refl))
          (write_key-Leaves s.unremoved raw e)))

  with_random-Leaves :
      (s : System) (r : Result CryptoError Bytes)
      → Accepted r
      → Leaves none s.other_process s.unremoved (with_random gcm s r)
  with_random-Leaves s (err e) a = inr (inl refl)
  with_random-Leaves s (ok raw) (key, e) = open_new-Leaves s raw s.other_process e

  on_file-Leaves :
      (s : System) (file : Option Bytes)
      → Accepted s.random
      → Leaves file s.other_process s.unremoved (on_file gcm s file)
  on_file-Leaves s (some content) a =
      check-Leaves (some content) s.other_process s.unremoved s.restrict_error _ (some content)
        (inl refl) (loaded-Leaves (some content) s.other_process s.unremoved content (inl refl))
  on_file-Leaves s none a =
      check-Leaves none s.other_process s.unremoved s.directory_error _ s.other_process
        (inr (inl refl)) (with_random-Leaves s s.random a)

  -- Where `New` accepts the random bytes, and whatever else the system answers: a load that returns a
  -- key leaves the file with this very key; it reports it as created only where there was no file,
  -- neither before nor by another process, and as not created only where the file is one of those; and a load that fails leaves the file of before, that of another process, or
  -- what `Remove` left of its own.
  pub load_or_create-Leaves :
      (path : String) (s : System) (file : Option Bytes)
      → Accepted s.random
      → Leaves file s.other_process s.unremoved (load_or_create gcm path s file)
  unfolding load_or_create
  load_or_create-Leaves path s file a = elim (Bool-cases (str_eq path "")) [
    | inl empty ↦ rw empty (inl refl)
    | inr named ↦ rw named (
        check-Leaves file s.other_process s.unremoved s.read_error _ file (inl refl)
          (on_file-Leaves s file a))
  ]
