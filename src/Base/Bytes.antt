-- ===== src/Base/Bytes.antt =====
-- Bytes, as lists of numbers: equality, the order that Python compares by, and numbers as bytes, highest
-- first.
use Prim.Native.Nat.{ℕ, zero, suc, ◌+◌, ◌*◌, ◌/◌, ◌%◌, ◌<◌}
use mathlib.Core.Path.{◌≡◌, refl, ◌∙◌}
use mathlib.Core.Bool.{Bool, true, false, ◌&&◌, ◌||◌}
use mathlib.Core.List.{List, [], ◌∷◌, ◌++◌}
use native.Mathlib.Omega.{arith}
use agent_presentator.Base.Tests.{ltb, ◌==◌}
use agent_presentator.Base.Lists.{length, length-append}

-- Equality of bytes, which is `compare_digest` on them.
abbrev pub bytes_eq : List ℕ → List ℕ → Bool
bytes_eq [] [] = true
bytes_eq [] (b ∷ others) = false
bytes_eq (a ∷ rest) [] = false
bytes_eq (a ∷ rest) (b ∷ others) = a == b && bytes_eq rest others

-- `a < b` of bytes
abbrev pub bytes_ltb : List ℕ → List ℕ → Bool
bytes_ltb [] [] = false
bytes_ltb [] (b ∷ others) = true
bytes_ltb (a ∷ rest) [] = false
bytes_ltb (a ∷ rest) (b ∷ others) = ltb a b || (a == b && bytes_ltb rest others)

pub bytes_eq_refl : (bytes : List ℕ) → bytes_eq bytes bytes ≡ true
bytes_eq_refl [] = refl
bytes_eq_refl (b ∷ bytes) = ground (arith, bytes_eq_refl bytes)

pub bytes_eq→eq : (bytes others : List ℕ) → bytes_eq bytes others ≡ true → bytes ≡ others
bytes_eq→eq [] [] e = refl
bytes_eq→eq [] (b ∷ others) e = absurd (ground arith)
bytes_eq→eq (a ∷ bytes) [] e = absurd (ground arith)
bytes_eq→eq (a ∷ bytes) (b ∷ others) e = ground (arith, bytes_eq→eq bytes others)

-- `struct.pack(">…")` of a number in `k` bytes, and its `unpack` over what stands before it
abbrev pub of_big_endian : ℕ → List ℕ → ℕ
of_big_endian above [] = above
of_big_endian above (b ∷ bytes) = of_big_endian (above * 256 + b) bytes

abbrev pub big_endian : ℕ → ℕ → List ℕ
big_endian zero n = []
big_endian (suc k) n = big_endian k (n / 256) ++ (n % 256) ∷ []

-- 256 to the power of the number of bytes.
abbrev pub byte_range : ℕ → ℕ
byte_range zero = 1
byte_range (suc k) = 256 * byte_range k

pub length-big_endian : (k n : ℕ) → length (big_endian k n) ≡ k
length-big_endian zero n = refl
length-big_endian (suc k) n =
    omega (
      arith,
      length-append (big_endian k (n / 256)) ((n % 256) ∷ []),
      length-big_endian k (n / 256),
    )

of_big_endian-append :
    (above : ℕ) (xs ys : List ℕ)
    → of_big_endian above (xs ++ ys) ≡ of_big_endian (of_big_endian above xs) ys
of_big_endian-append above [] ys = refl
of_big_endian-append above (x ∷ xs) ys = of_big_endian-append (above * 256 + x) xs ys

pub of_big_endian-big_endian : (k n : ℕ) → n < byte_range k → of_big_endian 0 (big_endian k n) ≡ n
of_big_endian-big_endian zero n h = omega arith
of_big_endian-big_endian (suc k) n h =
    of_big_endian-append 0 (big_endian k (n / 256)) ((n % 256) ∷ [])
    ∙ omega (arith, of_big_endian-big_endian k (n / 256) (omega arith))
