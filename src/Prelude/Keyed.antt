-- ===== src/Prelude/Keyed.antt =====
-- Lists of accounts found by a key, the first that has it, and totals over such lists.
use Prim.Native.Nat.{ℕ, ◌+◌, ◌≤◌}
use mathlib.Core.Path.{◌≡◌, refl, subst, ◌∙◌}
use mathlib.Core.Logic.{◌≢◌, ◌⊎◌, inl, inr}
use mathlib.Core.List.{List, [], ◌∷◌}
use mathlib.Core.Option.{Option, none, some}
use native.Mathlib.Omega.{arith}
use vow_protocol.Prelude.Tests.{◌==◌, if◌then◌else◌, Bool-cases}

module _ {A : Type 0} (key : A → ℕ) where
  unfoldable pub find : ℕ → List A → Option A
  find k [] = none
  find k (x ∷ xs) = if key x == k then some x else find k xs

  -- The account under `k` gets the new contents.
  unfoldable pub replace : ℕ → A → List A → List A
  replace k a [] = []
  replace k a (x ∷ xs) = if key x == k then a ∷ xs else x ∷ replace k a xs

  unfoldable pub remove : ℕ → List A → List A
  remove k [] = []
  remove k (x ∷ xs) = if key x == k then xs else x ∷ remove k xs

  pub find-key : (k : ℕ) (xs : List A) (a : A) → find k xs ≡ some a → key a ≡ k
  unfolding find
  find-key k [] a e = cc
  find-key k (x ∷ xs) a e = ground (arith, find-key k xs a)

  pub find-replace_self :
      (k : ℕ) (a old : A) (xs : List A)
      → find k xs ≡ some old
      → key a ≡ k
      → find k (replace k a xs) ≡ some a
  unfolding find replace
  find-replace_self k a old [] e h = cc
  find-replace_self k a old (x ∷ xs) e h = ground (arith, find-replace_self k a old xs)

  pub find-replace_ne :
      (k j : ℕ) (a : A) (xs : List A) → k ≢ j → key a ≡ k → find j (replace k a xs) ≡ find j xs
  unfolding find replace
  find-replace_ne k j a [] ne h = refl
  find-replace_ne k j a (x ∷ xs) ne h = ground (arith, find-replace_ne k j a xs)

module _ {A : Type 0} (key : A → ℕ) where
  pub find-remove_ne :
      (k j : ℕ) (xs : List A) → k ≢ j → find key j (remove key k xs) ≡ find key j xs
  unfolding find remove
  find-remove_ne k j [] ne = refl
  find-remove_ne k j (x ∷ xs) ne = ground (arith, find-remove_ne k j xs)

  -- After a write under `k`, an entry is the one written, if it was under `k`, or the one from before.
  pub find-replace :
      (k j : ℕ) (a old b : A) (xs : List A)
      → find key k xs ≡ some old
      → key a ≡ k
      → find key j xs ≡ some b
      → ((old ≡ b) × (find key j (replace key k a xs) ≡ some a))
        ⊎ (find key j (replace key k a xs) ≡ some b)
  find-replace k j a old b xs e same h = elim (Bool-cases (k == j)) [
    | inl here ↦ inl (ground arith, ground (arith, find-replace_self key k a old xs e same))
    | inr there ↦ inr (find-replace_ne key k j a xs (ground arith) same ∙ h)
  ]

-- The sum of an amount over the accounts.
unfoldable pub total : {A : Type 0} → (A → ℕ) → List A → ℕ
total f [] = 0
total f (x ∷ xs) = f x + total f xs

module _ {A : Type 0} (key f : A → ℕ) where
  pub total-replace :
      (k : ℕ) (a old : A) (xs : List A)
      → find key k xs ≡ some old
      → total f (replace key k a xs) + f old ≡ total f xs + f a
  unfolding find replace total
  total-replace k a old [] e = cc
  total-replace k a old (x ∷ xs) e = ground (arith, total-replace k a old xs)

  pub le-total : (k : ℕ) (xs : List A) (a : A) → find key k xs ≡ some a → f a ≤ total f xs
  unfolding find total
  le-total k [] a e = cc
  le-total k (x ∷ xs) a e = ground (arith, le-total k xs a)

-- Every account satisfies `P`.
abbrev pub All : {A : Type 0} → (A → Type 0) → List A → Type 0
All P [] = Unit
All P (x ∷ xs) = P x × All P xs

-- `P` holds of the account, if there is one.
abbrev pub Maybe : {A : Type 0} → (A → Type 0) → Option A → Type 0
Maybe P none = Unit
Maybe P (some a) = P a

module _ {A : Type 0} (key : A → ℕ) (P : A → Type 0) where
  pub All-find : (k : ℕ) (xs : List A) (a : A) → All P xs → find key k xs ≡ some a → P a
  unfolding find
  All-find k [] a h e = cc
  All-find k (x ∷ xs) a h e = elim (Bool-cases (key x == k)) [
    | inl here ↦ let same : x ≡ a = ground arith in subst P same h.0
    | inr there ↦ All-find k xs a h.1 (ground arith)
  ]

  pub find-Maybe : (k : ℕ) (xs : List A) → All P xs → Maybe P (find key k xs)
  unfolding find
  find-Maybe k [] h = tt
  find-Maybe k (x ∷ xs) h = elim (Bool-cases (key x == k)) [
    | inl here ↦ rw here h.0
    | inr there ↦ rw there (find-Maybe k xs h.1)
  ]

  pub All-replace : (k : ℕ) (a : A) (xs : List A) → All P xs → P a → All P (replace key k a xs)
  unfolding replace
  All-replace k a [] h pa = tt
  All-replace k a (x ∷ xs) h pa = elim (Bool-cases (key x == k)) [
    | inl here ↦ rw here (pa, h.1)
    | inr there ↦ rw there (h.0, All-replace k a xs h.1 pa)
  ]

module _ {A : Type 0} (key : A → ℕ) (P : A → Type 0) where
  pub All-remove : (k : ℕ) (xs : List A) → All P xs → All P (remove key k xs)
  unfolding remove
  All-remove k [] h = tt
  All-remove k (x ∷ xs) h = elim (Bool-cases (key x == k)) [
    | inl here ↦ rw here h.1
    | inr there ↦ rw there (h.0, All-remove k xs h.1)
  ]

pub All-map :
    {A : Type 0} (P Q : A → Type 0) (xs : List A) → ((a : A) → P a → Q a) → All P xs → All Q xs
All-map P Q [] f h = tt
All-map P Q (x ∷ xs) f h = (f x h.0, All-map P Q xs f h.1)

-- No two entries have the same number.
abbrev pub Distinct : {A : Type 0} → (A → ℕ) → List A → Type 0
Distinct f [] = Unit
Distinct f (x ∷ xs) = All (λ y. f y ≢ f x) xs × Distinct f xs

module _ {A : Type 0} (key f : A → ℕ) where
  pub Distinct-remove : (k : ℕ) (xs : List A) → Distinct f xs → Distinct f (remove key k xs)
  unfolding remove
  Distinct-remove k [] h = tt
  Distinct-remove k (x ∷ xs) h = elim (Bool-cases (key x == k)) [
    | inl here ↦ rw here h.1
    | inr there ↦ rw there (All-remove key (λ y. f y ≢ f x) k xs h.0, Distinct-remove k xs h.1)
  ]

  All-ne-replace :
      (n k : ℕ) (a old : A) (xs : List A)
      → find key k xs ≡ some old
      → f a ≡ f old
      → All (λ y. f y ≢ n) xs
      → All (λ y. f y ≢ n) (replace key k a xs)
  All-ne-replace n k a old xs e same h =
      All-replace key (λ y. f y ≢ n) k a xs h (rw same (All-find key (λ y. f y ≢ n) k xs old h e))

  -- An entry may be written anew as long as its number stays.
  pub Distinct-replace :
      (k : ℕ) (a old : A) (xs : List A)
      → find key k xs ≡ some old
      → f a ≡ f old
      → Distinct f xs
      → Distinct f (replace key k a xs)
  unfolding find replace
  Distinct-replace k a old [] e same h = tt
  Distinct-replace k a old (x ∷ xs) e same h = elim (Bool-cases (key x == k)) [
    | inl here ↦
        let same_entry : old ≡ x = ground arith in
        let first : f a ≡ f x = rw (← same_entry) same in rw here (rw first h.0, h.1)
    | inr there ↦
        let later : find key k xs ≡ some old = ground arith in
        rw there (
          All-ne-replace (f x) k a old xs later same h.0,
          Distinct-replace k a old xs later same h.1,
        )
  ]
