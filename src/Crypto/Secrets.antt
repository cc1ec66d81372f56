-- ===== src/Crypto/Secrets.antt =====
-- internal/crypto/crypto.go: secrets come back from their ciphertext.
use llm_security_audit_gatew.Base.{
  ℕ, ◌+◌, ◌≡◌, refl, sym, ap, ◌∙◌, [], ◌∷◌, ◌++◌, length, length-append, take, drop, some, false,
  ltb, arith, Bytes, if◌then◌else◌,
}
use llm_security_audit_gatew.Base.Result.{Result, ok, err}
use llm_security_audit_gatew.Crypto.{
  Aead, CryptoError, invalid_ciphertext, opened, encrypt, decrypt,
}

take-append : (xs ys : Bytes) → take (length xs) (xs ++ ys) ≡ xs
take-append [] ys = refl
take-append (x ∷ xs) ys = ap (◌∷◌ x) (take-append xs ys)

drop-append : (xs ys : Bytes) → drop (length xs) (xs ++ ys) ≡ ys
drop-append [] ys = refl
drop-append (x ∷ xs) ys = drop-append xs ys

-- What AES-GCM promises: it opens what it sealed, and adds its overhead.
pub record Lawful (aead : Aead) : Type 0 where
  pub opens :
      (nonce plaintext : Bytes) → aead.unseal nonce (aead.seal nonce plaintext) ≡ some plaintext
  pub adds :
      (nonce plaintext : Bytes)
      → length (aead.seal nonce plaintext) ≡ length plaintext + aead.overhead

decrypt-sealed :
    (aead : Aead) (nonce plaintext : Bytes)
    → Lawful aead
    → length nonce ≡ aead.nonce_size
    → decrypt (some aead) (nonce ++ aead.seal nonce plaintext) ≡ ok plaintext
unfolding decrypt
decrypt-sealed aead nonce plaintext lawful size = cut aead.nonce_size (sym size)
  where
    sealed : Bytes
    sealed = aead.seal nonce plaintext

    long : ltb (length (nonce ++ sealed)) (length nonce + aead.overhead) ≡ false
    long = ground (arith, length-append nonce sealed, lawful.adds nonce plaintext)

    cut :
        (n : ℕ)
        → n ≡ length nonce
        → (if ltb (length (nonce ++ sealed)) (n + aead.overhead)
            then err invalid_ciphertext
            else opened (aead.unseal (take n (nonce ++ sealed)) (drop n (nonce ++ sealed))))
          ≡ ok plaintext
    cut n e =
        rw (e, long, take-append nonce sealed, drop-append nonce sealed)
          (ap opened (lawful.opens nonce plaintext))

-- With a cipher that opens what it sealed and adds its overhead, `Decrypt` gives back what `Encrypt`
-- was given, the empty plaintext too, with any nonce of the right size that the random source gave.
pub encrypt-decrypt :
    (aead : Aead) (nonce plaintext ciphertext : Bytes)
    → Lawful aead
    → length nonce ≡ aead.nonce_size
    → encrypt (some aead) (ok nonce) plaintext ≡ ok ciphertext
    → decrypt (some aead) ciphertext ≡ ok plaintext
unfolding encrypt
encrypt-decrypt aead nonce plaintext ciphertext lawful size e =
    ap (decrypt (some aead)) (sym (ok-injective e))
    ∙ decrypt-sealed aead nonce plaintext lawful size
  where
    ok-injective : {a b : Bytes} → ◌≡◌ {A = Result CryptoError Bytes} (ok a) (ok b) → a ≡ b
    ok-injective h = cc
