-- ===== src/Auth/Access.antt =====
-- Which keys internal/auth/apikey.go accepts.
use Prim.Native.String.{◌++◌}
use text.Mathlib.TextPositions.{starts_with-append, slice-append_right, len-append}
use llm_security_audit_gatew.Base.{
  ℕ, suc, String, [], ◌∷◌, Option, none, some, Bool, true, ◌&&◌, ◌||◌, ◌<◌, ◌≤◌, str_eq, length,
  trim_prefix, Bytes, ◌≡◌, subst, refl, arith, inl, inr, Bool-cases, All,
}
use llm_security_audit_gatew.Base.Result.{Result, ok, err}
use llm_security_audit_gatew.Httpapi.Front.{Identity, AuthError}
use llm_security_audit_gatew.Stream.Events.{bytes_eq}
use llm_security_audit_gatew.Auth.Keys.{
  KeyRecord, Codecs, is_mark, is_alphanumeric, valid_from, valid_tenant_id, digest_salted,
  parse_bearer_key, is_active, verified, identity_of, on_record, on_key, authenticate,
  create_for_upstream,
}

pub bytes_eq_sound : (x y : Bytes) → bytes_eq x y ≡ true → x ≡ y
bytes_eq_sound [] [] h = refl
bytes_eq_sound [] (b ∷ y) h = absurd cc
bytes_eq_sound (a ∷ x) [] h = absurd cc
bytes_eq_sound (a ∷ x) (b ∷ y) h = cc (same, bytes_eq_sound x y (ground arith))
  where
    same : a ≡ b
    same = ground arith

bytes_eq_refl : (x : Bytes) → bytes_eq x x ≡ true
bytes_eq_refl [] = refl
bytes_eq_refl (a ∷ x) = ground (arith, bytes_eq_refl x)

trim_prefix-append : (s t : String) → trim_prefix (s ++ t) s ≡ t
trim_prefix-append s t = rw (starts_with-append s t, len-append s t) (slice-append_right s t)

-- A tenant's name, once accepted.
abbrev pub Named : Bytes → Type 0
Named [] = ⊥
Named (c ∷ cs) =
    (is_alphanumeric c ≡ true)
    × All (λ d. (is_alphanumeric d || is_mark d) ≡ true) cs
    × (length (c ∷ cs) ≤ 128)

valid_from-All :
    (i : ℕ) (cs : Bytes)
    → valid_from i cs ≡ true
    → All (λ d. (is_alphanumeric d || is_mark d) ≡ true) cs
unfolding valid_from
valid_from-All i [] h = tt
valid_from-All i (c ∷ cs) h = (ground arith, valid_from-All (suc i) cs (ground arith))

-- A tenant's name that `ValidTenantID` accepts has 1 to 128 characters, all letters, digits, dots,
-- dashes or underscores, and starts with a letter or a digit.
pub valid_tenant_id-Named : (value : Bytes) → valid_tenant_id value ≡ true → Named value
unfolding valid_tenant_id
valid_tenant_id-Named [] h = absurd cc
valid_tenant_id-Named (c ∷ cs) h = (
  unfold valid_from in ground arith,
  valid_from-All 1 cs (unfold valid_from in ground arith),
  ground arith,
)

module _ (codecs : Codecs) (find : String → Result String (Option KeyRecord)) where
  open codecs use {split_dots, is_uuid, decode_raw_url, encode_raw_url, bytes_of}

  -- What stands behind an accepted key.
  pub record Granted (authorization : String) (identity : Identity) : Type 0 where
    pub key : String
    pub id : String
    pub found : KeyRecord
    pub parsed : parse_bearer_key codecs authorization ≡ some (key, id)
    pub stored : find id ≡ ok (some found)
    pub active : found.revoked_at ≡ none
    pub digest : found.key_digest ≡ digest_salted codecs key found.key_salt
    pub names : identity ≡ identity_of codecs found

  abbrev pub Grants : String → Result AuthError Identity → Type 0
  Grants authorization (err e) = Unit
  Grants authorization (ok identity) = Granted authorization identity

  not_revoked : (o : Option ℕ) → is_active codecs o ≡ true → o ≡ none
  not_revoked none h = refl
  not_revoked (some t) h = absurd cc

  verified_parts : (a b c d : Bool) → (a && b && c && d) ≡ true → (a ≡ true) × (d ≡ true)
  verified_parts a b c d h = ground arith

  record-Grants :
      (authorization key id : String) (r : Result String (Option KeyRecord))
      → parse_bearer_key codecs authorization ≡ some (key, id)
      → find id ≡ r
      → Grants authorization (on_record codecs key r)
  unfolding verified
  record-Grants authorization key id (err e) p f = tt
  record-Grants authorization key id (ok none) p f = tt
  record-Grants authorization key id (ok (some r)) p f = elim (Bool-cases (verified codecs key r)) [
    | inl good ↦
        let (active, same) = verified_parts _ _ _ _ good in
        rw good (record {
          key = key;
          id = id;
          found = r;
          parsed = p;
          stored = f;
          active = not_revoked r.revoked_at active;
          digest = bytes_eq_sound r.key_digest _ same;
          names = refl;
        })
    | inr bad ↦ rw bad tt
  ]

  key-Grants :
      (authorization : String) (o : Option (String × String))
      → parse_bearer_key codecs authorization ≡ o
      → Grants authorization (on_key codecs find o)
  key-Grants authorization none p = tt
  key-Grants authorization (some (key, id)) p = record-Grants authorization key id (find id) p refl

  -- A request gets an identity only from a well-formed bearer key whose record the store holds
  -- under the key's own id: the record is not revoked, its digest is the salted digest of this very
  -- key, and the identity is the record's key, tenant and upstream.
  pub authenticate-Grants :
      (authorization : String) → Grants authorization (authenticate codecs find authorization)
  unfolding authenticate
  authenticate-Grants authorization = key-Grants authorization _ refl

  parse_created :
      (id key : String) (secret : Bytes)
      → split_dots key ≡ "agw" ∷ id ∷ encode_raw_url secret ∷ []
      → is_uuid id ≡ true
      → decode_raw_url (encode_raw_url secret) ≡ some secret
      → length secret ≡ 32
      → parse_bearer_key codecs ("Bearer " ++ key) ≡ some (key, id)
  unfolding parse_bearer_key
  parse_created id key secret split uuid decodes size =
      rw
        (
          starts_with-append "Bearer " key,
          len-append "Bearer " key,
          slice-append_right "Bearer " key,
        )
        (rw split (rw uuid (rw decodes (rw size refl))))

  -- What a created record holds.
  record Created (id key tenant upstream : String) (salt : Bytes) (r : KeyRecord) : Type 0 where
    fresh : r.revoked_at ≡ none
    salted : r.key_salt ≡ salt
    digested : r.key_digest ≡ digest_salted codecs key salt
    named :
        identity_of codecs r
        ≡ record { api_key_id = id; tenant_id = tenant; upstream_id = upstream }

  abbrev Creates : String → String → String → Bytes → Result String (String × KeyRecord) → Type 0
  Creates id tenant upstream salt (err e) = Unit
  Creates id tenant upstream salt (ok (key, r)) = Created id key tenant upstream salt r

  create-Creates :
      (id : String) (secret salt : Bytes) (now : ℕ) (tenant upstream name : String)
      → Creates id tenant upstream salt
          (create_for_upstream codecs id secret salt now tenant upstream name)
  unfolding create_for_upstream
  create-Creates id secret salt now tenant upstream name =
      elim (Bool-cases (valid_tenant_id (bytes_of tenant))) [
        | inr bad ↦ rw bad tt
        | inl good ↦ elim (Bool-cases (str_eq upstream "")) [
          | inl empty ↦ rw (good, empty) tt
          | inr given ↦ elim (Bool-cases (is_uuid upstream)) [
            | inr bad ↦ rw (good, given, bad) tt
            | inl uuid ↦
                rw (good, given, uuid)
                  (record { fresh = refl; salted = refl; digested = refl; named = refl })
          ]
        ]
      ]

  verified-Created :
      (id key tenant upstream : String) (salt : Bytes) (r : KeyRecord)
      → Created id key tenant upstream salt r
      → 0 < length salt
      → 0 < length (digest_salted codecs key salt)
      → verified codecs key r ≡ true
  unfolding verified
  verified-Created id key tenant upstream salt r c s d =
      rw (c.fresh, c.salted, c.digested)
        (ground (arith, bytes_eq_refl (digest_salted codecs key salt)))

  -- A key that `CreateForUpstream` made is accepted, as long as the store gives its record back:
  -- the bearer token authenticates as the tenant and the upstream it was made for.
  pub create-authenticate :
      (id : String) (secret salt : Bytes) (now : ℕ) (tenant upstream name key : String)
      (r : KeyRecord)
      → create_for_upstream codecs id secret salt now tenant upstream name ≡ ok (key, r)
      → split_dots key ≡ "agw" ∷ id ∷ encode_raw_url secret ∷ []
      → is_uuid id ≡ true
      → decode_raw_url (encode_raw_url secret) ≡ some secret
      → length secret ≡ 32
      → 0 < length salt
      → 0 < length (digest_salted codecs key salt)
      → find id ≡ ok (some r)
      → authenticate codecs find ("Bearer " ++ key)
        ≡ ok (record { api_key_id = id; tenant_id = tenant; upstream_id = upstream })
  unfolding authenticate
  create-authenticate id secret salt now tenant upstream name key r made split uuid decodes size
        salted digested found =
      let c =
        subst (Creates id tenant upstream salt) made
          (create-Creates id secret salt now tenant upstream name) in
      rw (parse_created id key secret split uuid decodes size) (
        rw found
          (rw (verified-Created id key tenant upstream salt r c salted digested) (rw c.named refl)))
