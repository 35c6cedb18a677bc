-- ===== src/Prelude/Codec.antt =====
-- Python's `struct`, `int.to_bytes` and slices, over the bytes that are left to read: the source's
-- `data` and `off` are here the one list `data[off:]`.
use p2pearl.Prelude.Tests.{ltb, if◌then◌else◌, lt→ltb}
use p2pearl.Prelude.Lists.{
  length, take, drop, all, length-append, length-reverse, take-append, drop-append,
}
use p2pearl.Prelude.Keys.{Bytes, Str}
use p2pearl.Prelude.Result.{Result, ok, raise, struct_error, overflow_error, unicode_error}
use Prim.Native.Nat.{ℕ, zero, suc, ◌+◌, ◌*◌, ◌/◌, ◌%◌, ◌^◌, ◌<◌}
use mathlib.Core.Path.{◌≡◌, refl, ap, ◌∙◌}
use mathlib.Core.Bool.{false}
use mathlib.Core.List.{[], ◌∷◌, ◌++◌, reverse, reverse-reverse}
use native.Mathlib.Omega.{arith}
use native.Mathlib.Nat.{pow-succ'}

-- The `k` bytes of a number, lowest first.
unfoldable pub le_bytes : ℕ → ℕ → Bytes
le_bytes zero n = []
le_bytes (suc k) n = n % 256 ∷ le_bytes k (n / 256)

-- `int.from_bytes(b, "little")`
unfoldable pub from_le : Bytes → ℕ
from_le [] = 0
from_le (b ∷ bs) = b + 256 * from_le bs

-- `struct.pack` of an unsigned field of `k` bytes, which raises out of range.
unfoldable pub pack : ℕ → ℕ → Result Bytes
pack k n = if ltb n (256 ^ k) then ok (le_bytes k n) else raise struct_error

-- `n.to_bytes(32, "big")`
unfoldable pub to_bytes_big : ℕ → Result Bytes
to_bytes_big n = if ltb n (256 ^ 32) then ok (reverse (le_bytes 32 n)) else raise overflow_error

-- `int.from_bytes(b, "big")`
unfoldable pub from_be : Bytes → ℕ
from_be b = from_le (reverse b)

-- `s.encode("ascii")`, `b.decode("ascii")`
unfoldable pub ascii : Str → Result Bytes
ascii s = if all (λ c. ltb c 128) s then ok s else raise unicode_error

-- `struct.unpack_from` of `k` bytes, which raises where fewer are left.
unfoldable pub unpack : ℕ → Bytes → Result (ℕ × Bytes)
unpack k bs = if ltb (length bs) k then raise struct_error else ok (from_le (take k bs), drop k bs)

-- `data[off:off + n]`, which is shorter at the end of the data.
unfoldable pub slice : ℕ → Bytes → Bytes × Bytes
slice n bs = (take n bs, drop n bs)

pub length-le_bytes : (k n : ℕ) → length (le_bytes k n) ≡ k
unfolding le_bytes
length-le_bytes zero n = refl
length-le_bytes (suc k) n = ap suc (length-le_bytes k (n / 256))

pub from_le-le_bytes : (k n : ℕ) → n < 256 ^ k → from_le (le_bytes k n) ≡ n
unfolding le_bytes from_le
from_le-le_bytes zero n h = omega arith
from_le-le_bytes (suc k) n h =
    omega (arith, pow-succ' 256 k, from_le-le_bytes k (n / 256) (omega (arith, pow-succ' 256 k)))

module _ (n : ℕ) (xs rest : Bytes) (h : length xs ≡ n) where
  take_exact : take n (xs ++ rest) ≡ xs
  take_exact = rw (← h) (take-append xs rest)

  drop_exact : drop n (xs ++ rest) ≡ rest
  drop_exact = rw (← h) (drop-append xs rest)

  pub slice-append : slice n (xs ++ rest) ≡ (xs, rest)
  unfolding slice
  slice-append = rw (take_exact, drop_exact)

-- What was packed is read back, whatever follows.
pub unpack-le_bytes :
    (k n : ℕ) (rest : Bytes) → n < 256 ^ k → unpack k (le_bytes k n ++ rest) ≡ ok (n, rest)
unfolding unpack
unpack-le_bytes k n rest h =
    let l = length-le_bytes k n in
    let enough : ltb (length (le_bytes k n ++ rest)) k ≡ false =
      ground (arith, length-append (le_bytes k n) rest) in
    rw (
      enough,
      take_exact k (le_bytes k n) rest l,
      drop_exact k (le_bytes k n) rest l,
      from_le-le_bytes k n h,
    )

pub pack-ok : (k n : ℕ) → n < 256 ^ k → pack k n ≡ ok (le_bytes k n)
unfolding pack
pack-ok k n h = rw (lt→ltb _ _ h)

pub length-reverse-le_bytes : (k n : ℕ) → length (reverse (le_bytes k n)) ≡ k
length-reverse-le_bytes k n = length-reverse (le_bytes k n) ∙ length-le_bytes k n

-- A 256-bit number written with the highest byte first is read back from its slice.
pub to_bytes_big-ok : (n : ℕ) → n < 256 ^ 32 → to_bytes_big n ≡ ok (reverse (le_bytes 32 n))
unfolding to_bytes_big
to_bytes_big-ok n h = rw (lt→ltb n (256 ^ 32) h)

pub from_be-reverse : (n : ℕ) → n < 256 ^ 32 → from_be (reverse (le_bytes 32 n)) ≡ n
unfolding from_be
from_be-reverse n h = rw reverse-reverse (from_le-le_bytes 32 n h)
