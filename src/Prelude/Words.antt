-- ===== src/Prelude/Words.antt =====
-- Unsigned words in memory: big-endian bytes, cutting a prefix off, and the checksum of hash/crc32.
use Prim.Native.Nat.{ℕ, zero, suc, ◌+◌, ◌*◌, ◌/◌, ◌%◌, ◌^◌, ◌<◌, bit_and, bit_xor}
use mathlib.Core.Path.{◌≡◌, refl}
use mathlib.Core.Option.{Option, none, some}
use mathlib.Core.List.{[], ◌∷◌, ◌++◌}
use native.Mathlib.Omega.{arith}
use native.Mathlib.Nat.{pow-suc}
use pocketkafka.Prelude.Tests.{Bytes, eqb, ltb, if◌then◌else◌}
use pocketkafka.Prelude.Lists.{
  length, take, drop, length-append, take-append_left, drop-append_left,
}

-- The `k` bytes of `v`, the most significant first: binary.BigEndian.AppendUint16, 32 and 64.
unfoldable pub be_bytes : ℕ → ℕ → Bytes
be_bytes zero v = []
be_bytes (suc k) v = be_bytes k (v / 256) ++ (v % 256) ∷ []

unfoldable pub be_from : ℕ → Bytes → ℕ
be_from acc [] = acc
be_from acc (b ∷ bs) = be_from (acc * 256 + b) bs

-- binary.BigEndian.Uint16, 32 and 64, on 2, 4 and 8 bytes
unfoldable pub be_value : Bytes → ℕ
be_value bs = be_from 0 bs

pub length-be_bytes : (k v : ℕ) → length (be_bytes k v) ≡ k
unfolding be_bytes
length-be_bytes zero v = refl
length-be_bytes (suc k) v =
    omega
      (arith, length-append (be_bytes k (v / 256)) ((v % 256) ∷ []), length-be_bytes k (v / 256))

be_from-append : (acc d : ℕ) (ds : Bytes) → be_from acc (ds ++ d ∷ []) ≡ be_from acc ds * 256 + d
unfolding be_from
be_from-append acc d [] = refl
be_from-append acc d (x ∷ ds) = be_from-append (acc * 256 + x) d ds

-- A word of `k` bytes is read back as it was written.
pub be_value-be_bytes : (k v : ℕ) → v < 256 ^ k → be_value (be_bytes k v) ≡ v
unfolding be_value be_bytes be_from
be_value-be_bytes zero v h = omega arith
be_value-be_bytes (suc k) v h = omega (
  arith,
  be_from-append 0 (v % 256) (be_bytes k (v / 256)),
  be_value-be_bytes k (v / 256) (omega (arith, pow-suc 256 k)),
)

-- The first `k` bytes and the rest, if there are as many.
unfoldable pub read_full : ℕ → Bytes → Option (Bytes × Bytes)
read_full k bs = if ltb (length bs) k then none else some (take k bs, drop k bs)

pub read_full-append :
    (k : ℕ) (xs ys : Bytes) → length xs ≡ k → read_full k (xs ++ ys) ≡ some (xs, ys)
unfolding read_full
read_full-append k xs ys h =
    rw (← h) (ground (arith, length-append xs ys, take-append_left xs ys, drop-append_left xs ys))

pub read_full-short : (k : ℕ) (xs : Bytes) → length xs < k → read_full k xs ≡ none
unfolding read_full
read_full-short k xs h = ground arith

-- One bit of the reflected Castagnoli polynomial, and the eight bits of a byte.
unfoldable pub crc_bit : ℕ → ℕ
crc_bit c = if eqb (bit_and c 1) 1 then bit_xor (c / 2) 0x82f63b78 else c / 2

unfoldable pub crc_byte : ℕ → ℕ → ℕ
unfolding crc_bit
crc_byte c b =
    crc_bit (crc_bit (crc_bit (crc_bit (crc_bit (crc_bit (crc_bit (crc_bit (bit_xor c b))))))))

unfoldable pub crc_from : ℕ → Bytes → ℕ
unfolding crc_byte
crc_from c [] = c
crc_from c (b ∷ bs) = crc_from (crc_byte c b) bs

-- crc32.Checksum with the Castagnoli table, a uint32.
unfoldable pub crc32c : Bytes → ℕ
unfolding crc_from
crc32c bs = bit_xor (crc_from 0xffff_ffff bs) 0xffff_ffff % 2 ^ 32

pub crc32c-lt : (bs : Bytes) → crc32c bs < 2 ^ 32
unfolding crc32c
crc32c-lt bs = omega arith

-- The check value of CRC-32C, of the bytes of "123456789".
crc32c_check : crc32c (49 ∷ 50 ∷ 51 ∷ 52 ∷ 53 ∷ 54 ∷ 55 ∷ 56 ∷ 57 ∷ []) ≡ 0xe306_9283
unfolding crc32c
crc32c_check = refl
