-- ===== src/Compression/Injective.antt =====
-- What is hashed determines what it was made of (programs/vow/src/compression.rs).
use vow_protocol.Prelude.{ℕ, ◌^◌, ◌≤◌, ◌<◌, ◌≡◌, refl, ap, List, [], ◌∷◌, ◌++◌, length, arith}
use vow_protocol.Prelude.Int.{ℤ, pos_part, neg_part}
use vow_protocol.Prelude.Bytes.{le_bytes, from_le_bytes, length-le_bytes, from_le_bytes-le_bytes}
use vow_protocol.Compression.{leaf_prefix, i64_bits, data_buffer, leaf_buffer}

++-injective :
    (xs ys cs bs : List ℕ) → length xs ≡ length cs → xs ++ ys ≡ cs ++ bs → (xs ≡ cs) × (ys ≡ bs)
++-injective [] ys [] bs l h = (refl, h)
++-injective [] ys (a ∷ cs) bs l h = ground arith
++-injective (x ∷ xs) ys [] bs l h = ground arith
++-injective (x ∷ xs) ys (a ∷ cs) bs l h =
    let tails = ++-injective xs ys cs bs (omega (arith, l)) (ground (arith, h)) in
    (ground (arith, tails.0), tails.1)

-- A number that `n` bytes hold, followed by more bytes, is determined by them, and so is the rest.
le_bytes-injective :
    (n v w : ℕ) (ys bs : List ℕ)
    → v < 256 ^ n
    → w < 256 ^ n
    → le_bytes n v ++ ys ≡ le_bytes n w ++ bs
    → (v ≡ w) × (ys ≡ bs)
le_bytes-injective n v w ys bs hv hw h =
    let both =
      ++-injective (le_bytes n v) ys (le_bytes n w) bs
        (cc (length-le_bytes n v, length-le_bytes n w)) h in
    (
      cc (ap from_le_bytes both.0, from_le_bytes-le_bytes n v hv, from_le_bytes-le_bytes n w hw),
      both.1,
    )

++-nil : (xs : List ℕ) → xs ++ [] ≡ xs
++-nil [] = refl
++-nil (x ∷ xs) = ap (λ ys. x ∷ ys) (++-nil xs)

-- The integers that an `i64` has.
abbrev pub IsI64 : ℤ → Type 0
IsI64 z = (pos_part z < 2 ^ 63) × (neg_part z ≤ 2 ^ 63)

i64_bits-fits : (z : ℤ) → i64_bits z < 256 ^ 8
unfolding i64_bits
i64_bits-fits z = omega arith

i64_bits-injective : (y z : ℤ) → IsI64 y → IsI64 z → i64_bits y ≡ i64_bits z → y ≡ z
unfolding i64_bits
i64_bits-injective y z hy hz h = ground arith

-- The bytes that `data_hash` hashes determine the class, the principal and the time of creation,
-- for values that a u64 and an i64 have.
pub data_buffer-injective :
    (class class' principal principal' : ℕ) (created created' : ℤ)
    → principal < 2 ^ 64
    → principal' < 2 ^ 64
    → IsI64 created
    → IsI64 created'
    → data_buffer class principal created ≡ data_buffer class' principal' created'
    → (class ≡ class') × (principal ≡ principal') × (created ≡ created')
unfolding data_buffer
data_buffer-injective class class' principal principal' created created' f f' g g' h =
    let time = le_bytes 8 (i64_bits created) in
    let time' = le_bytes 8 (i64_bits created') in
    let tail =
      le_bytes-injective 8 principal principal' time time' (omega (arith, f)) (omega (arith, f'))
        (ground arith) in
    let bits =
      le_bytes-injective 8 (i64_bits created) (i64_bits created') [] [] (i64_bits-fits created)
        (i64_bits-fits created') (cc (tail.1, ++-nil time, ++-nil time')) in
    (ground arith, tail.0, i64_bits-injective created created' g g' bits.0)

-- The bytes that `leaf_hash` hashes determine the asset id, the owner, the nonce (keys of 32 bytes
-- and a u64) and the data hash.
pub leaf_buffer-injective :
    (asset asset' owner owner' nonce nonce' : ℕ) (dhash dhash' : List ℕ)
    → asset < 256 ^ 32
    → asset' < 256 ^ 32
    → owner < 256 ^ 32
    → owner' < 256 ^ 32
    → nonce < 256 ^ 8
    → nonce' < 256 ^ 8
    → leaf_buffer asset owner nonce dhash ≡ leaf_buffer asset' owner' nonce' dhash'
    → (asset ≡ asset') × (owner ≡ owner') × (nonce ≡ nonce') × (dhash ≡ dhash')
unfolding leaf_buffer
leaf_buffer-injective asset asset' owner owner' nonce nonce' dhash dhash' a a' o o' n n' h =
    let r = ++-injective leaf_prefix _ leaf_prefix _ refl h in
    let r1 = le_bytes-injective 32 asset asset' _ _ a a' r.1 in
    let r2 = le_bytes-injective 32 owner owner' _ _ o o' r1.1 in
    let r3 = le_bytes-injective 8 nonce nonce' _ _ n n' r2.1 in (r1.0, r2.0, r3.0, r3.1)
