-- ===== src/Worker/Bytes.antt =====
-- Bytes as natural numbers, and Python's operations on them that worker/queue.py uses.
use sglang_ops_stack.Base.{
  ℕ, zero, suc, ◌+◌, ◌*◌, ◌/◌, ◌%◌, ◌<◌, ◌≤◌, Bool, true, false, ◌&&◌, List, [], ◌∷◌, ◌++◌, length,
  All, ◌≡◌, refl, arith, eqb, ap,
}

-- `a ^ b` on the lowest bits
unfoldable pub xor_bits : ℕ → ℕ → ℕ → ℕ
xor_bits zero a b = 0
xor_bits (suc bits) a b = (a % 2 + b % 2) % 2 + 2 * xor_bits bits (a / 2) (b / 2)

-- `bytes(value ^ mask for value, mask in zip(values, output, strict=False))`
unfoldable pub zip_xor : List ℕ → List ℕ → List ℕ
unfolding xor_bits
zip_xor [] masks = []
zip_xor (value ∷ values) [] = []
zip_xor (value ∷ values) (mask ∷ masks) = xor_bits 8 value mask ∷ zip_xor values masks

-- `counter.to_bytes(count, "big")`
unfoldable pub to_bytes : ℕ → ℕ → List ℕ
to_bytes zero n = []
to_bytes (suc count) n = to_bytes count (n / 256) ++ (n % 256) ∷ []

unfoldable pub take : ℕ → List ℕ → List ℕ
take zero bytes = []
take (suc n) [] = []
take (suc n) (b ∷ bytes) = b ∷ take n bytes

unfoldable pub drop : ℕ → List ℕ → List ℕ
drop zero bytes = bytes
drop (suc n) [] = []
drop (suc n) (b ∷ bytes) = drop n bytes

-- `hmac.compare_digest`
unfoldable pub same_bytes : List ℕ → List ℕ → Bool
same_bytes [] [] = true
same_bytes [] (b ∷ others) = false
same_bytes (a ∷ bytes) [] = false
same_bytes (a ∷ bytes) (b ∷ others) = eqb a b && same_bytes bytes others

abbrev pub IsByte : ℕ → Type 0
IsByte n = n < 256

abbrev power : ℕ → ℕ
power zero = 1
power (suc n) = 2 * power n

low_bit : (x y : ℕ) → x < 2 → (x + 2 * y) % 2 ≡ x
low_bit x y h = omega arith

high_bits : (x y : ℕ) → x < 2 → (x + 2 * y) / 2 ≡ y
high_bits x y h = omega arith

bit_twice : (a b : ℕ) → ((a % 2 + b % 2) % 2 + b % 2) % 2 ≡ a % 2
bit_twice a b = omega arith

xor_bits-xor_bits : (bits a b : ℕ) → a < power bits → xor_bits bits (xor_bits bits a b) b ≡ a
unfolding xor_bits
xor_bits-xor_bits zero a b h = omega arith
xor_bits-xor_bits (suc bits) a b h =
    let x = (a % 2 + b % 2) % 2 in
    let y = xor_bits bits (a / 2) (b / 2) in
    let small : x < 2 = omega arith in
    let rec : xor_bits bits y (b / 2) ≡ a / 2 =
      xor_bits-xor_bits bits (a / 2) (b / 2) (omega arith) in
    rw (low_bit x y small, high_bits x y small, rec, bit_twice a b) (omega arith)

-- Masking twice with a mask that is long enough gives the bytes back.
pub zip_xor-zip_xor :
    (values masks : List ℕ)
    → All IsByte values
    → length values ≤ length masks
    → zip_xor (zip_xor values masks) masks ≡ values
unfolding zip_xor
zip_xor-zip_xor [] masks bytes h = refl
zip_xor-zip_xor (value ∷ values) [] bytes h = absurd (omega arith)
zip_xor-zip_xor (value ∷ values) (mask ∷ masks) bytes h =
    rw (xor_bits-xor_bits 8 value mask bytes.0, zip_xor-zip_xor values masks bytes.1 (omega arith))
      refl

pub length-zip_xor :
    (values masks : List ℕ)
    → length values ≤ length masks
    → length (zip_xor values masks) ≡ length values
unfolding zip_xor
length-zip_xor [] masks h = refl
length-zip_xor (value ∷ values) [] h = absurd (omega arith)
length-zip_xor (value ∷ values) (mask ∷ masks) h =
    ap suc (length-zip_xor values masks (omega arith))

pub take-append : (xs ys : List ℕ) → take (length xs) (xs ++ ys) ≡ xs
unfolding take
take-append [] ys = refl
take-append (x ∷ xs) ys = ap (λ zs. x ∷ zs) (take-append xs ys)

pub drop-append : (xs ys : List ℕ) → drop (length xs) (xs ++ ys) ≡ ys
unfolding drop
drop-append [] ys = refl
drop-append (x ∷ xs) ys = drop-append xs ys

pub length-append : (xs ys : List ℕ) → length (xs ++ ys) ≡ length xs + length ys
length-append [] ys = omega arith
length-append (x ∷ xs) ys = let shorter = length-append xs ys in omega arith

pub same_bytes_refl : (bytes : List ℕ) → same_bytes bytes bytes ≡ true
unfolding same_bytes
same_bytes_refl [] = refl
same_bytes_refl (b ∷ bytes) = ground (arith, same_bytes_refl bytes)

pub same_bytes-equal : (bytes others : List ℕ) → same_bytes bytes others ≡ true → bytes ≡ others
unfolding same_bytes
same_bytes-equal [] [] h = refl
same_bytes-equal [] (b ∷ others) h = ground arith
same_bytes-equal (a ∷ bytes) [] h = ground arith
same_bytes-equal (a ∷ bytes) (b ∷ others) h =
    let head : a ≡ b = ground arith in
    let tail : same_bytes bytes others ≡ true = ground arith in
    rw (head, same_bytes-equal bytes others tail) refl
