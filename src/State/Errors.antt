-- ===== src/State/Errors.antt =====
-- programs/vow/src/errors.rs, and the way in which an instruction fails: `Result` and `require!`.
use vow_protocol.Prelude.{◌≡◌, refl, Bool, true, false, Option, none, some, ◌==◌, ℕ}

pub data VowError : Type 0 where
  insufficient_stake stake_overflow not_matured already_matured already_unstaking not_unstaking
        invalid_asset_id invalid_owner session_expired session_inactive session_invalidated
        program_not_allowed daily_limit_exceeded lifetime_limit_exceeded velocity_limit_exceeded
        insufficient_yield_balance app_blocked share_price_overflow shares_underflow no_rewards
        yield_mode_unchanged profile_not_found profile_id_taken too_many_program_ids
        invalid_stake_account unauthorized math_overflow stake_not_deactivated empty_reserve
        tree_capacity_exhausted stake_account_mismatch identity_inactive identity_already_active
        app_registry_mismatch reserve_sufficient share_price_not_synced :
      VowError

-- An instruction fails with an error of the program, by a panic (overflow checks are on in the
-- release profile), because the account that it creates exists, because an account that it names
-- does not, or in a call of another program.
pub data Error : Type 0 where
  vow : VowError → Error
  panic account_exists account_missing call_failed : Error

-- What a handler returns; on an error the chain discards every change.
pub data Result {ℓ} (Value : Type ℓ) : Type ℓ where
  err : (why : Error) → Result Value
  ok : (value : Value) → Result Value

infixl 5 ◌>>=◌
-- `?`: go on with the value, or return the error.
abbrev pub ◌>>=◌ {κ ℓ} : {V : Type κ} {W : Type ℓ} → Result V → (V → Result W) → Result W
err why >>= next = err why
ok value >>= next = next value

-- `require!(b, e)`
abbrev pub require : Bool → VowError → Result (Unit {0})
require true e = ok tt
require false e = err (vow e)

infixl 5 ◌>>◌
abbrev pub ◌>>◌ {κ} : {W : Type κ} → Result (Unit {0}) → Result W → Result W
checked >> next = checked >>= λ _. next

-- `require_keys_eq!(a, b, e)`, and the account constraint `has_one = a @ e`.
abbrev pub require_keys_eq : ℕ → ℕ → VowError → Result (Unit {0})
require_keys_eq a b e = require (a == b) e

abbrev pub ok_or {ℓ} : {A : Type ℓ} → Option A → Error → Result A
ok_or none e = err e
ok_or (some a) e = ok a

abbrev pub unwrap_or {ℓ} : {A : Type ℓ} → Option A → A → A
unwrap_or none d = d
unwrap_or (some a) d = a

-- Arithmetic that the source writes without a check panics where it overflows.
abbrev pub or_panic {ℓ} : {A : Type ℓ} → Option A → Result A
or_panic o = ok_or o panic

-- A chain that succeeds has passed its first part.
pub >>=-eq-ok {κ ℓ} :
    {V : Type κ} {W : Type ℓ} (first : Result V) (next : V → Result W) {w : W}
    → (first >>= next) ≡ ok w
    → (v : V) × (first ≡ ok v) × (next v ≡ ok w)
>>=-eq-ok (err why) next done = cc
>>=-eq-ok (ok v) next done = (v, refl, done)

pub require-eq-ok {ℓ} :
    {B : Type ℓ} (b : Bool) (e : VowError) (k : Result B) {r : B}
    → (require b e >> k) ≡ ok r
    → (b ≡ true) × (k ≡ ok r)
require-eq-ok true e k h = (refl, h)
require-eq-ok false e k h = cc

pub ok_or-eq-ok {ℓ κ} :
    {A : Type ℓ} {B : Type κ} (o : Option A) (e : Error) (k : A → Result B) {r : B}
    → (ok_or o e >>= k) ≡ ok r
    → (a : A) × (o ≡ some a) × (k a ≡ ok r)
ok_or-eq-ok (some a) e k h = (a, refl, h)
ok_or-eq-ok none e k h = cc

pub ok-injective {ℓ} : {A : Type ℓ} (a b : A) → ok a ≡ ok b → a ≡ b
ok-injective a b h = cc

-- `P` holds of the result, if there is one.
abbrev pub Ensures {ℓ κ} : {A : Type ℓ} → (A → Type κ) → Result A → Type κ
Ensures P (ok a) = P a
Ensures P (err _) = Unit

pub >>=-Ensures {ℓ κ μ} :
    {A : Type ℓ} {B : Type κ} (P : B → Type μ) (m : Result A) (f : A → Result B)
    → ((a : A) → m ≡ ok a → Ensures P (f a))
    → Ensures P (m >>= f)
>>=-Ensures P (ok a) f h = h a refl
>>=-Ensures P (err e) f h = tt

pub Ensures-ok {ℓ κ} :
    {A : Type ℓ} (P : A → Type κ) (r : Result A) {a : A} → Ensures P r → r ≡ ok a → P a
Ensures-ok P r {a} h e = rw e at h

pub Ensures-map {ℓ κ μ} :
    {A : Type ℓ} {P : A → Type κ} {Q : A → Type μ}
    → ((a : A) → P a → Q a)
    → (r : Result A) → Ensures P r
    → Ensures Q r
Ensures-map f (ok a) h = f a h
Ensures-map f (err e) h = tt

-- The call returned.
abbrev pub IsOk {ℓ} : {A : Type ℓ} → Result A → Type 0
IsOk (ok _) = Unit
IsOk (err _) = ⊥

abbrev pub IsSome {ℓ} : {A : Type ℓ} → Option A → Type 0
IsSome (some _) = Unit
IsSome none = ⊥
