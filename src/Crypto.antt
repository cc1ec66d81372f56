-- ===== src/Crypto.antt =====
-- internal/crypto/crypto.go: the encryption of upstream secrets and the file of the service key.
-- AES-GCM is a parameter; random bytes, the answers of the file system and what another process puts
-- there in between are arguments.
use llm_security_audit_gatew.Base.{
  ℕ, ◌+◌, String, ◌++◌, length, take, drop, Option, none, some, Bool, true, false, not, ltb, str_eq,
  ◌==◌, if◌then◌else◌, Bytes,
}
use llm_security_audit_gatew.Base.Result.{Result, ok, err, ◌>>=◌}
pub mod Secrets
pub mod KeyFile
mod Examples

-- `cipher.AEAD`, with no additional data.
pub record Aead : Type 0 where
  pub nonce_size : ℕ
  pub overhead : ℕ
  pub seal : Bytes → Bytes → Bytes
  pub unseal : Bytes → Bytes → Option Bytes

pub data CryptoError : Type 0 where
  invalid_key : CryptoError
  invalid_ciphertext : CryptoError
  path_required : CryptoError
  failed : String → CryptoError

abbrev pub key_size : ℕ
key_size = 32

abbrev pub opened : Option Bytes → Result CryptoError Bytes
opened none = err invalid_ciphertext
opened (some plaintext) = ok plaintext

-- `Key.Encrypt`; `nonce` is what the random source gave, of the size that was asked for.
unfoldable pub encrypt : Option Aead → Result CryptoError Bytes → Bytes → Result CryptoError Bytes
encrypt none nonce plaintext = err invalid_key
encrypt (some aead) nonce plaintext = nonce >>= λ n. ok (n ++ aead.seal n plaintext)

unfoldable pub decrypt : Option Aead → Bytes → Result CryptoError Bytes
decrypt none ciphertext = err invalid_key
decrypt (some aead) ciphertext =
    if ltb (length ciphertext) (aead.nonce_size + aead.overhead)
    then err invalid_ciphertext
    else opened (aead.unseal (take aead.nonce_size ciphertext) (drop aead.nonce_size ciphertext))

-- What the system answers to the calls of a load, `none` for no error, the file that another
-- process creates behind the first look, and what is left of a file that `Remove` did not remove,
-- whose error the source drops.
pub record System : Type 0 where
  pub read_error : Option String
  pub restrict_error : Option String
  pub directory_error : Option String
  pub random : Result CryptoError Bytes
  pub other_process : Option Bytes
  pub open_error : Option String
  pub reread_error : Option String
  pub write_error : Option String
  pub close_error : Option String
  pub unremoved : Option Bytes

-- A key, and whether its file had to be created.
pub record Loaded : Type 0 where
  pub key : Aead
  pub created : Bool

module _ (gcm : Bytes → Result CryptoError Aead) where
  -- `New`.
  unfoldable pub new : Bytes → Result CryptoError Aead
  new raw = if not (length raw == key_size) then err invalid_key else gcm raw

  abbrev pub loaded : Bool → Bytes → Result CryptoError Loaded
  loaded created raw = new raw >>= λ key. ok (record { key = key; created = created })

  -- The `switch` on errors that stop: none goes on.
  abbrev pub check :
      Option String
      → Result CryptoError Loaded × Option Bytes
      → Option Bytes
      → Result CryptoError Loaded × Option Bytes
  check none continue file = continue
  check (some e) continue file = (err (failed e), file)

  -- Behind `OpenFile` with `O_EXCL`: the file is there and empty.
  abbrev pub write_key : System → Bytes → Result CryptoError Loaded × Option Bytes
  write_key s raw =
      check s.write_error (check s.close_error (loaded true raw, some raw) s.unremoved) s.unremoved

  abbrev pub open_new : System → Bytes → Option Bytes → Result CryptoError Loaded × Option Bytes
  open_new s raw (some other) =
      check s.open_error (check s.reread_error (loaded false other, some other) (some other))
        (some other)
  open_new s raw none = check s.open_error (write_key s raw) none

  abbrev pub with_random :
      System → Result CryptoError Bytes → Result CryptoError Loaded × Option Bytes
  with_random s (err e) = (err e, s.other_process)
  with_random s (ok raw) = open_new s raw s.other_process

  abbrev pub on_file : System → Option Bytes → Result CryptoError Loaded × Option Bytes
  on_file s (some content) =
      check s.restrict_error (loaded false content, some content) (some content)
  on_file s none = check s.directory_error (with_random s s.random) s.other_process

  -- `LoadOrCreateWithStatus`: the result and the key file behind it.
  unfoldable pub load_or_create :
      String → System → Option Bytes → Result CryptoError Loaded × Option Bytes
  unfolding new
  load_or_create path s file =
      if str_eq path "" then (err path_required, file) else check s.read_error (on_file s file) file
