-- ===== src/Httpapi/AuthThrottle/Counting.antt =====
-- What the throttle of internal/httpapi/auth_throttle.go guarantees.
use llm_security_audit_gatew.Base.{
  ℕ, ◌+◌, ◌≤◌, String, List, [], ◌∷◌, Option, none, some, Bool, true, false, ◌&&◌, ltb, leb, length,
  lookup, lookup-insert, lookup-erase, Distinct, insert-Distinct, str_eq, eq_iff, eq_refl, ◌≡◌,
  refl, sym, ◌∙◌, subst, inl, inr, Bool-cases, arith, All, if◌then◌else◌,
}
use llm_security_audit_gatew.Httpapi.AuthThrottle.{
  AuthBucket, AuthThrottle, expired, sweep, swept, judge, blocked, current_bucket, fail,
}

-- A bucket with its window not over, the only kind that counts.
abbrev pub live : ℕ → ℕ → Option AuthBucket → Option AuthBucket
live now window none = none
live now window (some b) = if expired now window b then none else some b

lookup-sweep :
    (now w : ℕ) (k : String) (m : List (String × AuthBucket))
    → Distinct m
    → lookup k (sweep now w m) ≡ live now w (lookup k m)
unfolding sweep lookup
lookup-sweep now w k [] d = refl
lookup-sweep now w k ((j, b) ∷ m) (d, ds) = elim (Bool-cases (str_eq j k)) [
  | inl e ↦ gone e (lookup-sweep now w k m ds) (subst (λ x. lookup x m ≡ none) ((eq_iff j k).0 e) d)
  | inr e ↦ ground (arith, lookup-sweep now w k m ds)
]
  where
    gone :
        str_eq j k ≡ true
        → lookup k (sweep now w m) ≡ live now w (lookup k m)
        → lookup k m ≡ none
        → lookup k (sweep now w ((j, b) ∷ m)) ≡ live now w (lookup k ((j, b) ∷ m))
    gone e ih h = ground arith

live-live : (now w : ℕ) (o : Option AuthBucket) → live now w (live now w o) ≡ live now w o
live-live now w none = refl
live-live now w (some b) = ground arith

lookup-swept :
    (now : ℕ) (k : String) (t : AuthThrottle)
    → Distinct t.buckets
    → live now t.window (lookup k (swept now t).buckets) ≡ live now t.window (lookup k t.buckets)
unfolding swept
lookup-swept now k t d = elim (Bool-cases (ltb 4096 (length t.buckets))) [
  | inl e ↦ rw e (rw (lookup-sweep now t.window k t.buckets d) (live-live now t.window _))
  | inr e ↦ rw e refl
]

swept_keeps :
    (now : ℕ) (t : AuthThrottle)
    → ((swept now t).window ≡ t.window) × ((swept now t).limit ≡ t.limit)
unfolding swept
swept_keeps now t = ground arith

abbrev pub over : ℕ → Option AuthBucket → Bool
over limit none = false
over limit (some b) = leb limit b.count

judge_lem :
    (now : ℕ) (key : String) (o : Option AuthBucket) (t : AuthThrottle)
    → o ≡ lookup key t.buckets
    → (j : String)
    → ((judge now key o t).1 ≡ over t.limit (live now t.window o))
      × (live now t.window (lookup j (judge now key o t).0.buckets)
          ≡ live now t.window (lookup j t.buckets))
unfolding judge
judge_lem now key none t e j = (refl, refl)
judge_lem now key (some b) t e j = elim (Bool-cases (expired now t.window b)) [
  | inl old ↦ rw old (
    refl,
    rw lookup-erase (elim (Bool-cases (str_eq key j)) [
      | inl same ↦
          let at_j : lookup j t.buckets ≡ some b =
            subst (λ x. lookup x t.buckets ≡ some b) ((eq_iff key j).0 same) (sym e) in
          rw same (rw at_j (rw old refl))
      | inr differs ↦ rw differs refl
    ]),
  )
  | inr young ↦ rw young (refl, refl)
]

-- Whether an address is blocked depends on its own bucket alone: it is blocked exactly when it has
-- a bucket whose window is not over and whose count has reached the limit. The sweep that bounds
-- the map, and the removal of an expired bucket, take no live bucket of any address away.
pub blocked_exact :
    (now : ℕ) (key : String) (t : AuthThrottle)
    → Distinct t.buckets
    → (j : String)
    → ((blocked now key t).1 ≡ over t.limit (live now t.window (lookup key t.buckets)))
      × (live now t.window (lookup j (blocked now key t).0.buckets)
          ≡ live now t.window (lookup j t.buckets))
unfolding blocked
blocked_exact now key t d j =
    let keeps = swept_keeps now t in
    let judged = judge_lem now key _ (swept now t) refl j in
    (
      cc (judged.0, keeps.0, keeps.1, lookup-swept now key t d),
      cc (judged.1, keeps.0, lookup-swept now j t d),
    )

-- Failures of one address, one after the other.
unfoldable pub fail_times : List ℕ → String → AuthThrottle → AuthThrottle
fail_times [] key t = t
fail_times (now ∷ ts) key t = fail_times ts key (fail now key t)

fail_adds :
    (now start n : ℕ) (key : String) (t : AuthThrottle)
    → now ≤ start + t.window
    → live now t.window (lookup key t.buckets) ≡ some (record { start = start; count = n })
    → lookup key (fail now key t).buckets ≡ some (record { start = start; count = n + 1 })
unfolding fail
fail_adds now start n key t h e = rw (lookup-insert, eq_refl key) (adds (lookup key t.buckets) e)
  where
    adds :
        (o : Option AuthBucket)
        → live now t.window o ≡ some (record { start = start; count = n })
        → some (record (current_bucket now t.window o) {
          count = (current_bucket now t.window o).count + 1;
        })
          ≡ some (record { start = start; count = n + 1 })
    adds none e = cc
    adds (some b) e = ground arith

fail_starts :
    (now : ℕ) (key : String) (t : AuthThrottle)
    → live now t.window (lookup key t.buckets) ≡ none
    → lookup key (fail now key t).buckets ≡ some (record { start = now; count = 1 })
unfolding fail
fail_starts now key t e = rw (lookup-insert, eq_refl key) (starts (lookup key t.buckets) e)
  where
    starts :
        (o : Option AuthBucket)
        → live now t.window o ≡ none
        → some (record (current_bucket now t.window o) {
          count = (current_bucket now t.window o).count + 1;
        })
          ≡ some (record { start = now; count = 1 })
    starts none e = refl
    starts (some b) e = ground arith

fail_times-bucket :
    (ts : List ℕ) (start n : ℕ) (key : String) (t : AuthThrottle)
    → All (λ x. x ≤ start + t.window) ts
    → lookup key t.buckets ≡ some (record { start = start; count = n })
    → lookup key (fail_times ts key t).buckets
      ≡ some (record { start = start; count = n + length ts })
unfolding fail_times
fail_times-bucket [] start n key t hs e = e ∙ ground arith
fail_times-bucket (now ∷ ts) start n key t (h, hs) e =
    fail_times-bucket ts start (n + 1) key (fail now key t) (unfold fail in hs)
      (fail_adds now start n key t h (rw e (ground arith)))
    ∙ ground arith

fail_times-Distinct :
    (ts : List ℕ) (key : String) (t : AuthThrottle)
    → Distinct t.buckets
    → Distinct (fail_times ts key t).buckets
unfolding fail_times fail
fail_times-Distinct [] key t d = d
fail_times-Distinct (now ∷ ts) key t d =
    fail_times-Distinct ts key (fail now key t) (insert-Distinct key _ t.buckets d)

fail_times_keeps :
    (ts : List ℕ) (key : String) (t : AuthThrottle)
    → ((fail_times ts key t).window ≡ t.window) × ((fail_times ts key t).limit ≡ t.limit)
unfolding fail_times fail
fail_times_keeps [] key t = (refl, refl)
fail_times_keeps (now ∷ ts) key t = fail_times_keeps ts key (fail now key t)

fail_times-first :
    (first : ℕ) (ts : List ℕ) (key : String) (t : AuthThrottle)
    → live first t.window (lookup key t.buckets) ≡ none
    → All (λ x. x ≤ first + t.window) ts
    → lookup key (fail_times (first ∷ ts) key t).buckets
      ≡ some (record { start = first; count = 1 + length ts })
unfolding fail_times
fail_times-first first ts key t e hs =
    fail_times-bucket ts first 1 key (fail first key t) (unfold fail in hs)
      (fail_starts first key t e)

-- From no live bucket, failures within one window of the first block the address, until that
-- window is over, exactly when there were at least as many as the limit; afterwards it is free.
pub fail_times_block :
    (first : ℕ) (ts : List ℕ) (now : ℕ) (key : String) (t : AuthThrottle)
    → Distinct t.buckets
    → live first t.window (lookup key t.buckets) ≡ none
    → All (λ x. x ≤ first + t.window) ts
    → (blocked now key (fail_times (first ∷ ts) key t)).1
      ≡ (leb now (first + t.window) && leb t.limit (length (first ∷ ts)))
fail_times_block first ts now key t d e hs =
    let t' = fail_times (first ∷ ts) key t in
    let keeps = fail_times_keeps (first ∷ ts) key t in
    let exact = blocked_exact now key t' (fail_times-Distinct (first ∷ ts) key t d) key in
    let bucket = fail_times-first first ts key t e hs in
    exact.0 ∙ rw (bucket, keeps.0, keeps.1) (ground arith)
