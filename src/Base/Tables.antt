-- ===== src/Base/Tables.antt =====
-- Tables of the database as lists of rows: filters, orders and membership of keys.
use Prim.Native.Nat.{ℕ, zero, suc}
use Prim.Native.String.{String}
use mathlib.Core.Path.{◌≡◌, subst}
use mathlib.Core.Logic.{inl, inr}
use mathlib.Core.Bool.{Bool, true, false, ◌||◌}
use mathlib.Core.List.{List, [], ◌∷◌, map}
use native.Mathlib.Omega.{arith}
use text.Mathlib.TextEquality.{eq_iff}
use llm_security_audit_gatew.Base.Tests.{str_eq, leb, if◌then◌else◌, Bool-cases}
use llm_security_audit_gatew.Base.Lists.{All, take}

-- `= ANY(...)`.
abbrev pub member : String → List String → Bool
member key [] = false
member key (k ∷ keys) = str_eq k key || member key keys

module _ {ℓ} {A : Type ℓ} where
  -- `WHERE`.
  abbrev pub where_rows : (A → Bool) → List A → List A
  where_rows test [] = []
  where_rows test (row ∷ rows) =
      let rest = where_rows test rows in if test row then row ∷ rest else rest

  -- `ORDER BY`, equal keys in the table's order.
  abbrev pub insert_by : (A → ℕ) → A → List A → List A
  insert_by key row [] = row ∷ []
  insert_by key row (first ∷ rows) =
      let later = first ∷ insert_by key row rows in
      if leb (key row) (key first) then row ∷ first ∷ rows else later

  abbrev pub order_by : (A → ℕ) → List A → List A
  order_by key [] = []
  order_by key (row ∷ rows) = insert_by key row (order_by key rows)

module _ {ℓ κ} {A : Type ℓ} (P : A → Type κ) where
  pub All-take : (n : ℕ) (rows : List A) → All P rows → All P (take n rows)
  All-take zero rows h = tt
  All-take (suc n) [] h = tt
  All-take (suc n) (row ∷ rows) (p, h) = (p, All-take n rows h)

  pub All-where_rows : (test : A → Bool) (rows : List A) → All P rows → All P (where_rows test rows)
  All-where_rows test [] h = tt
  All-where_rows test (row ∷ rows) (p, h) = elim (Bool-cases (test row)) [
    | inl kept ↦ rw kept (p, All-where_rows test rows h)
    | inr dropped ↦ rw dropped (All-where_rows test rows h)
  ]

  All-insert_by :
      (key : A → ℕ) (row : A) (rows : List A) → P row → All P rows → All P (insert_by key row rows)
  All-insert_by key row [] p h = (p, tt)
  All-insert_by key row (first ∷ rows) p (q, h) = elim (Bool-cases (leb (key row) (key first))) [
    | inl before ↦ rw before (p, (q, h))
    | inr behind ↦ rw behind (q, All-insert_by key row rows p h)
  ]

  pub All-order_by : (key : A → ℕ) (rows : List A) → All P rows → All P (order_by key rows)
  All-order_by key [] h = tt
  All-order_by key (row ∷ rows) (p, h) =
      All-insert_by key row (order_by key rows) p (All-order_by key rows h)

-- What `WHERE` leaves meets the test as well.
pub where_rows-All {ℓ κ} :
    {A : Type ℓ} (P : A → Type κ) (test : A → Bool) (rows : List A)
    → All P rows
    → All (λ row. P row × (test row ≡ true)) (where_rows test rows)
where_rows-All P test [] h = tt
where_rows-All P test (row ∷ rows) (p, h) = elim (Bool-cases (test row)) [
  | inl kept ↦ rw kept ((p, kept), where_rows-All P test rows h)
  | inr dropped ↦ rw dropped (where_rows-All P test rows h)
]

pub All-map {ℓ κ λ'} :
    {A : Type ℓ} {B : Type κ} (P : B → Type λ') (f : A → B) (xs : List A)
    → All (λ x. P (f x)) xs
    → All P (map f xs)
All-map P f [] h = tt
All-map P f (x ∷ xs) (p, h) = (p, All-map P f xs h)

-- To reason with each item's facts.
pub All-imp {ℓ κ μ} :
    {A : Type ℓ} (P : A → Type κ) (Q : A → Type μ) (xs : List A)
    → ((x : A) → P x → Q x)
    → All P xs
    → All Q xs
All-imp P Q [] f h = tt
All-imp P Q (x ∷ xs) f (p, h) = (f x p, All-imp P Q xs f h)

pub All-and {ℓ κ μ} :
    {A : Type ℓ} (P : A → Type κ) (Q : A → Type μ) (xs : List A)
    → All P xs
    → All Q xs
    → All (λ x. P x × Q x) xs
All-and P Q [] h k = tt
All-and P Q (x ∷ xs) (p, h) (q, k) = ((p, q), All-and P Q xs h k)

-- A key among those that have a property has it.
pub All-member {κ} :
    (P : String → Type κ) (key : String) (keys : List String)
    → All P keys
    → member key keys ≡ true
    → P key
All-member P key [] h m = absurd (cc)
All-member P key (k ∷ keys) (p, h) m = elim (Bool-cases (str_eq k key)) [
  | inl same ↦ subst P ((eq_iff k key).0 same) p
  | inr other ↦ All-member P key keys h (ground (arith, eq_iff k key))
]
