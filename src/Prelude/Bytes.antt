-- ===== src/Prelude/Bytes.antt =====
-- Little-endian bytes of a number, and the number that bytes write.
use Prim.Native.Nat.{ℕ, zero, suc, ◌+◌, ◌*◌, ◌/◌, ◌%◌, ◌^◌, ◌<◌}
use mathlib.Core.Path.{◌≡◌, refl, ap}
use mathlib.Core.List.{List, [], ◌∷◌}
use native.Mathlib.Omega.{arith}
use native.Mathlib.Nat.{pow-suc}
use vow_protocol.Prelude.Lists.{length, take, drop}
use vow_protocol.Prelude.Keyed.{All}

-- `v.to_le_bytes()` at `n` bytes.
unfoldable pub le_bytes : ℕ → ℕ → List ℕ
le_bytes zero v = []
le_bytes (suc n) v = (v % 256) ∷ le_bytes n (v / 256)

-- `from_le_bytes`
unfoldable pub from_le_bytes : List ℕ → ℕ
from_le_bytes [] = 0
from_le_bytes (b ∷ bs) = b + 256 * from_le_bytes bs

pub length-le_bytes : (n v : ℕ) → length (le_bytes n v) ≡ n
unfolding le_bytes
length-le_bytes zero v = refl
length-le_bytes (suc n) v = ap suc (length-le_bytes n (v / 256))

pub from_le_bytes-le_bytes : (n v : ℕ) → v < 256 ^ n → from_le_bytes (le_bytes n v) ≡ v
unfolding le_bytes from_le_bytes
from_le_bytes-le_bytes zero v h = omega arith
from_le_bytes-le_bytes (suc n) v h =
    omega (arith, from_le_bytes-le_bytes n (v / 256) (omega (arith, pow-suc 256 n)))

abbrev pub IsByte : ℕ → Type 0
IsByte b = b < 256

-- What is read of bytes at a width, the width can hold.
pub from_le_bytes-bound :
    (n : ℕ) (bs : List ℕ) → All IsByte bs → from_le_bytes (take n bs) < 256 ^ n
unfolding from_le_bytes
from_le_bytes-bound zero bs h = omega arith
from_le_bytes-bound (suc n) [] h = omega (arith, from_le_bytes-bound n [] tt, pow-suc 256 n)
from_le_bytes-bound (suc n) (b ∷ bs) h =
    omega (arith, h.0, from_le_bytes-bound n bs h.1, pow-suc 256 n)

pub All-drop : (n : ℕ) (bs : List ℕ) → All IsByte bs → All IsByte (drop n bs)
All-drop zero bs h = h
All-drop (suc n) [] h = tt
All-drop (suc n) (b ∷ bs) h = All-drop n bs h.1
