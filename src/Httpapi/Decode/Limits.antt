-- ===== src/Httpapi/Decode/Limits.antt =====
-- What the decoding of internal/httpapi/handler.go returns.
use llm_security_audit_gatew.Base.{
  ℕ, suc, zero, ◌+◌, ◌≤◌, List, [], ◌∷◌, ltb, length, take, ◌≡◌, ◌⊎◌, refl, ap, inl, inr, arith,
  Bool-cases, lt→ltb, Bytes,
}
use llm_security_audit_gatew.Base.Result.{Result, ok, err}
use llm_security_audit_gatew.Httpapi.Decode.{
  DecodeError, malformed_encoding, decoded_body_too_large, Stream, whole, failing, read_bounded,
}

take_all : {A : Type 0} (n : ℕ) (xs : List A) → length xs ≤ n → take n xs ≡ xs
take_all zero [] h = refl
take_all zero (x ∷ xs) h = absurd (omega arith)
take_all (suc n) [] h = refl
take_all (suc n) (x ∷ xs) h = ap (λ ys. x ∷ ys) (take_all n xs (omega arith))

length-take_more : {A : Type 0} (n : ℕ) (xs : List A) → n ≤ length xs → length (take n xs) ≡ n
length-take_more zero xs h = refl
length-take_more (suc n) [] h = absurd (omega arith)
length-take_more (suc n) (x ∷ xs) h = omega (arith, length-take_more n xs (omega arith))

-- What `readBounded` does with all that a reader can yield.
abbrev pub Bounded : ℕ → Stream → Result DecodeError Bytes → Type 0
Bounded limit (whole bs) (ok out) = (out ≡ bs) × (length bs ≤ limit)
Bounded limit (whole bs) (err e) = (e ≡ decoded_body_too_large) × (limit + 1 ≤ length bs)
Bounded limit (failing bs) (ok out) = ⊥
Bounded limit (failing bs) (err e) =
    ((e ≡ malformed_encoding) × (length bs ≤ limit))
    ⊎ ((e ≡ decoded_body_too_large) × (limit + 1 ≤ length bs))

-- `readBounded` returns a body only if it is all that the reader had to give, at most as long as
-- the limit; a longer one is too large and not cut off, and a reader that fails within the limit
-- is malformed.
pub read_bounded-Bounded :
    (limit : ℕ) (reader : Stream) → Bounded limit reader (read_bounded limit reader)
unfolding read_bounded
read_bounded-Bounded limit (whole bs) = elim (Bool-cases (ltb limit (length bs))) [
  | inl long ↦
      rw (length-take_more (limit + 1) bs (ground arith), lt→ltb limit (limit + 1) (omega arith))
        (refl, ground arith)
  | inr short ↦ rw (take_all (limit + 1) bs (ground arith), short) (refl, ground arith)
]
read_bounded-Bounded limit (failing bs) = elim (Bool-cases (ltb (length bs) (limit + 1))) [
  | inl short ↦ rw short (inl (refl, ground arith))
  | inr long ↦
      rw
        (
          long,
          length-take_more (limit + 1) bs (ground arith),
          lt→ltb limit (limit + 1) (omega arith),
        )
        (inr (refl, ground arith))
]
