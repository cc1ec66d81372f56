-- ===== src/Auth/Examples.antt =====
-- The theorems on the keys, with a store of one key.
use llm_security_audit_gatew.Base.{
  String, [], ◌∷◌, Option, none, some, true, str_eq, ◌≡◌, refl, arith, Bytes, if◌then◌else◌,
}
use llm_security_audit_gatew.Base.Result.{Result, ok}
use llm_security_audit_gatew.Auth.Access.{Grants, authenticate-Grants, create-authenticate}
use llm_security_audit_gatew.Auth.Keys.{
  KeyRecord, Codecs, is_mark, is_alphanumeric, valid_from, valid_tenant_id, digest_salted,
  authenticate, create_for_upstream,
}

abbrev secret : Bytes
secret =
    1 ∷ 2 ∷ 3 ∷ 4 ∷ 5 ∷ 6 ∷ 7 ∷ 8 ∷ 1 ∷ 2 ∷ 3 ∷ 4 ∷ 5 ∷ 6 ∷ 7 ∷ 8 ∷ 1 ∷ 2 ∷ 3 ∷ 4 ∷ 5 ∷ 6 ∷ 7 ∷ 8
    ∷ 1 ∷ 2 ∷ 3 ∷ 4 ∷ 5 ∷ 6 ∷ 7 ∷ 8 ∷ []

abbrev codecs : Codecs
codecs = record {
  split_dots = λ _. "agw" ∷ "k1" ∷ "c2VjcmV0" ∷ [];
  is_uuid = λ _. true;
  decode_raw_url = λ _. some secret;
  encode_raw_url = λ _. "c2VjcmV0";
  sha256 = λ bs. 9 ∷ bs;
  bytes_of = λ _. b'a' ∷ b'-' ∷ b'1' ∷ [];
}

abbrev made : KeyRecord
made = record {
  id = "k1";
  tenant_id = "a-1";
  upstream_id = "u1";
  display_name = "key";
  prefix = "agw.k1.";
  created_at = 7;
  revoked_at = none;
  key_digest = digest_salted codecs "agw.k1.c2VjcmV0" (3 ∷ []);
  key_salt = 3 ∷ [];
}

abbrev find : String → Result String (Option KeyRecord)
find id = if str_eq id "k1" then ok (some made) else ok none

valid : valid_tenant_id (b'a' ∷ b'-' ∷ b'1' ∷ []) ≡ true
unfolding valid_tenant_id valid_from is_mark is_alphanumeric
valid = refl

authenticate-Grants_example :
    Grants codecs find "Bearer agw.k1.c2VjcmV0" (authenticate codecs find "Bearer agw.k1.c2VjcmV0")
authenticate-Grants_example = authenticate-Grants codecs find "Bearer agw.k1.c2VjcmV0"

creates :
    create_for_upstream codecs "k1" secret (3 ∷ []) 7 "a-1" "u1" "key"
    ≡ ok ("agw.k1.c2VjcmV0", made)
unfolding create_for_upstream valid_tenant_id valid_from is_mark is_alphanumeric
creates = refl

create-authenticate_example :
    authenticate codecs find "Bearer agw.k1.c2VjcmV0"
    ≡ ok (record { api_key_id = "k1"; tenant_id = "a-1"; upstream_id = "u1" })
create-authenticate_example =
    create-authenticate codecs find "k1" secret (3 ∷ []) 7 "a-1" "u1" "key" "agw.k1.c2VjcmV0" made
      creates refl refl refl refl (omega arith) (unfold digest_salted in omega arith) refl
