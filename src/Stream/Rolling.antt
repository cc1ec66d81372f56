-- ===== src/Stream/Rolling.antt =====
-- What the rolling windows of internal/stream/sse.go let the inspection see.
use mathlib.Core.List.{append_assoc}
use llm_security_audit_gatew.Base.{
  ℕ, ◌+◌, ◌-◌, ◌≤◌, List, [], ◌∷◌, ◌++◌, ltb, min, ltb→lt, length, length-append, length-drop, take,
  drop, take-append-drop, ◌≡◌, refl, sym, ◌∙◌, ap, inl, inr, Bool-cases, arith, Bytes,
}
use llm_security_audit_gatew.Stream.Windows.{Scanner, feed}

-- All bytes fed, one chunk after the other.
abbrev pub joined : List Bytes → Bytes
joined [] = []
joined (c ∷ cs) = c ++ joined cs

-- `short` is a suffix of `long` that lacks nothing or has at least `n` bytes.
pub record EndsWith (n : ℕ) (long short : Bytes) : Type 0 where
  pub before : Bytes
  pub splits : long ≡ before ++ short
  pub enough : min n (length long) ≤ length short

-- The tail remembers the end of what was fed: all of it, or the last `window` bytes.
pub record Remembers (s : Scanner) (fed : Bytes) : Type 0 where
  pub ends : EndsWith s.window fed s.tail
  pub bounded : length s.tail ≤ s.window

pub feed-EndsWith :
    (s : Scanner) (fed chunk : Bytes)
    → Remembers s fed
    → EndsWith (s.window + length chunk) (fed ++ chunk) (feed s chunk).1
unfolding feed
feed-EndsWith s fed chunk r = record {
  before = r.ends.before;
  splits = ap (λ x. x ++ chunk) r.ends.splits ∙ append_assoc r.ends.before s.tail chunk;
  enough = omega (arith, length-append fed chunk, length-append s.tail chunk, r.ends.enough);
}

-- Cutting a suffix down to its last bytes.
drop-EndsWith :
    (n k : ℕ) (long short : Bytes)
    → n + k ≡ length short
    → EndsWith (length short) long short
    → EndsWith n long (drop k short)
drop-EndsWith n k long short e r = record {
  before = r.before ++ take k short;
  splits =
      r.splits
      ∙ ap (λ x. r.before ++ x) (sym (take-append-drop k short))
      ∙ sym (append_assoc r.before (take k short) (drop k short));
  enough = omega (arith, length-drop k short);
}

pub feed-Remembers :
    (s : Scanner) (fed chunk : Bytes) → Remembers s fed → Remembers (feed s chunk).0 (fed ++ chunk)
unfolding feed
feed-Remembers s fed chunk r = elim (Bool-cases (ltb s.window (length (s.tail ++ chunk)))) [
  | inl over ↦ rw over (record {
    ends =
        drop-EndsWith s.window (length (s.tail ++ chunk) - s.window) (fed ++ chunk)
          (s.tail ++ chunk) (omega (arith, ltb→lt _ _ over)) whole;
    bounded = omega (
      arith,
      length-drop (length (s.tail ++ chunk) - s.window) (s.tail ++ chunk),
      ltb→lt _ _ over,
    );
  })
  | inr fits ↦ rw fits (record {
    ends = record {
      before = whole.before;
      splits = whole.splits;
      enough = omega (arith, length-append fed chunk, length-append s.tail chunk, r.ends.enough);
    };
    bounded = ground (arith, fits);
  })
]
  where
    whole : EndsWith (length (s.tail ++ chunk)) (fed ++ chunk) (s.tail ++ chunk)
    whole = record {
      before = r.ends.before;
      splits = ap (λ x. x ++ chunk) r.ends.splits ∙ append_assoc r.ends.before s.tail chunk;
      enough = omega arith;
    }

pub feed-window : (s : Scanner) (chunk : Bytes) → (feed s chunk).0.window ≡ s.window
unfolding feed
feed-window s chunk = refl

-- A suffix of a text that is no longer than another suffix is a suffix of that one.
pub suffix-suffix :
    (x before q t : Bytes) → before ++ t ≡ x ++ q → length q ≤ length t → (a : Bytes) × (t ≡ a ++ q)
suffix-suffix x [] q t e le = (x, e)
suffix-suffix [] (b ∷ before) q t e le = absurd (omega (arith, ap length e, length-append before t))
suffix-suffix (y ∷ x) (b ∷ before) q t e le = suffix-suffix x before q t (cons_tail e) le
  where
    cons_tail : (b ∷ (before ++ t)) ≡ (y ∷ (x ++ q)) → before ++ t ≡ x ++ q
    cons_tail e = cc
