-- ===== src/Httpapi/AuthThrottle.antt =====
-- internal/httpapi/auth_throttle.go: failed authentications, counted per client address.
pub mod Counting
use llm_security_audit_gatew.Base.{
  ℕ, ◌+◌, ◌-◌, String, List, [], ◌∷◌, Option, none, some, Bool, true, false, ltb, leb, length,
  lookup, insert, erase, if◌then◌else◌,
}

pub record AuthBucket : Type 0 where
  pub start : ℕ
  pub count : ℕ

pub record AuthThrottle : Type 0 where
  pub limit : ℕ
  pub window : ℕ
  pub buckets : List (String × AuthBucket)

unfoldable pub new_auth_throttle : ℕ → ℕ → AuthThrottle
new_auth_throttle limit window = record { limit = limit; window = window; buckets = [] }

abbrev pub expired : ℕ → ℕ → AuthBucket → Bool
expired now window bucket = ltb window (now - bucket.start)

-- The sweep over the whole map.
unfoldable pub sweep : ℕ → ℕ → List (String × AuthBucket) → List (String × AuthBucket)
sweep now window [] = []
sweep now window ((k, bucket) ∷ rest) =
    let kept = sweep now window rest in
    if expired now window bucket then kept else (k, bucket) ∷ kept

-- What `blocked` leaves after its sweep.
unfoldable pub swept : ℕ → AuthThrottle → AuthThrottle
unfolding sweep
swept now t =
    if ltb 4096 (length t.buckets) then record t { buckets = sweep now t.window t.buckets } else t

-- The end of `blocked`, on the bucket of the key.
unfoldable pub judge : ℕ → String → Option AuthBucket → AuthThrottle → AuthThrottle × Bool
judge now key none t = (t, false)
judge now key (some bucket) t =
    if expired now t.window bucket
    then (record t { buckets = erase key t.buckets }, false)
    else (t, leb t.limit bucket.count)

unfoldable pub blocked : ℕ → String → AuthThrottle → AuthThrottle × Bool
blocked now key t = let t' = swept now t in judge now key (lookup key t'.buckets) t'

-- The bucket that `fail` counts in.
abbrev pub current_bucket : ℕ → ℕ → Option AuthBucket → AuthBucket
current_bucket now window none = record { start = now; count = 0 }
current_bucket now window (some bucket) =
    if expired now window bucket then record { start = now; count = 0 } else bucket

unfoldable pub fail : ℕ → String → AuthThrottle → AuthThrottle
fail now key t =
    let bucket = current_bucket now t.window (lookup key t.buckets) in
    record t { buckets = insert key (record bucket { count = bucket.count + 1 }) t.buckets }
