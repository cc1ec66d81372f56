-- ===== src/Crypto/Examples.antt =====
-- internal/crypto/crypto.go: the properties at a cipher that marks what it seals.
use llm_security_audit_gatew.Base.{◌≡◌, refl, [], ◌∷◌, ◌++◌, none, some, arith, Bytes, Option}
use llm_security_audit_gatew.Base.Result.{ok}
use llm_security_audit_gatew.Crypto.{Aead, System, new, encrypt, decrypt, load_or_create}
use llm_security_audit_gatew.Crypto.Secrets.{Lawful, encrypt-decrypt}
use llm_security_audit_gatew.Crypto.KeyFile.{Leaves, load_or_create-Leaves}

abbrev untag : Bytes → Option Bytes
untag [] = none
untag (tag ∷ plaintext) = some plaintext

abbrev tagging : Aead
tagging = record {
  nonce_size = 2;
  overhead = 1;
  seal = λ nonce plaintext. 7 ∷ plaintext;
  unseal = λ nonce sealed. untag sealed;
}

tagging-Lawful : Lawful tagging
tagging-Lawful = record { opens = λ nonce plaintext. refl; adds = λ nonce plaintext. omega arith }

encrypt-decrypt_example : decrypt (some tagging) (1 ∷ 2 ∷ 7 ∷ 104 ∷ []) ≡ ok (104 ∷ [])
unfolding encrypt
encrypt-decrypt_example =
    encrypt-decrypt tagging (1 ∷ 2 ∷ []) (104 ∷ []) (1 ∷ 2 ∷ 7 ∷ 104 ∷ []) tagging-Lawful refl refl

abbrev eight : Bytes
eight = 1 ∷ 2 ∷ 3 ∷ 4 ∷ 5 ∷ 6 ∷ 7 ∷ 8 ∷ []

abbrev random_key : Bytes
random_key = eight ++ (eight ++ (eight ++ eight))

abbrev quiet : System
quiet = record {
  read_error = none;
  restrict_error = none;
  directory_error = none;
  random = ok random_key;
  other_process = none;
  open_error = none;
  reread_error = none;
  write_error = some "disk full";
  close_error = none;
  unremoved = none;
}

load_or_create-Leaves_example :
    Leaves
      (λ raw. ok tagging)
      none
      none
      none
      (load_or_create (λ raw. ok tagging) "/keys/service" quiet none)
unfolding new
load_or_create-Leaves_example =
    load_or_create-Leaves (λ raw. ok tagging) "/keys/service" quiet none (tagging, refl)
