-- ===== src/Wire.antt =====
-- Byte streams as internal/protocol/vpn.go and internal/tunnel/conn.go read and write them:
-- io.ReadFull over the bytes still to come, and encoding/binary's big-endian uint32.
use the_family_vpn.Base.{
  ltb, if◌then◌else◌, le→ltb, length, take, drop, length-append, length-take, length-drop,
  take-append, drop-append, Bytes, ℕ, ◌+◌, ◌*◌, ◌/◌, ◌%◌, ◌^◌, ◌<◌, ◌≡◌, refl, Option, none, some,
  [], ◌∷◌, ◌++◌, arith,
}

abbrev pub u32 : ℕ → ℕ
u32 n = n % 2 ^ 32

-- binary.BigEndian.PutUint32(buf, uint32(n))
unfoldable pub put_uint32 : ℕ → Bytes
put_uint32 n =
    (u32 n / 2 ^ 24) ∷ (u32 n / 2 ^ 16 % 256) ∷ (u32 n / 2 ^ 8 % 256) ∷ (u32 n % 256) ∷ []

-- binary.BigEndian.Uint32(buf), which panics on less than four bytes; every caller gives four.
unfoldable pub uint32 : Bytes → ℕ
uint32 (a ∷ b ∷ c ∷ d ∷ rest) = a * 2 ^ 24 + b * 2 ^ 16 + c * 2 ^ 8 + d
uint32 short = 0

-- io.ReadFull(r, buf) with len(buf) = n: the bytes read and those left, or an error.
unfoldable pub read_full : ℕ → Bytes → Option (Bytes × Bytes)
read_full n s = if ltb (length s) n then none else some (take n s, drop n s)

pub uint32-put_uint32 : (n : ℕ) → uint32 (put_uint32 n) ≡ u32 n
unfolding uint32 put_uint32
uint32-put_uint32 n = omega arith

pub length-put_uint32 : (n : ℕ) → length (put_uint32 n) ≡ 4
unfolding put_uint32
length-put_uint32 n = refl

pub drop-put_uint32 : (n : ℕ) (rest : Bytes) → drop 4 (put_uint32 n ++ rest) ≡ rest
unfolding put_uint32
drop-put_uint32 n rest = refl

pub read_full-append : (xs ys : Bytes) → read_full (length xs) (xs ++ ys) ≡ some (xs, ys)
unfolding read_full
read_full-append xs ys =
    rw (le→ltb (length (xs ++ ys)) (length xs) (omega (arith, length-append xs ys)))
      (rw (take-append xs ys, drop-append xs ys))

-- The length prefix is read back, whatever follows it.
pub read_full-put_uint32 :
    (n : ℕ) (rest : Bytes) → read_full 4 (put_uint32 n ++ rest) ≡ some (put_uint32 n, rest)
read_full-put_uint32 n rest = rw (length-put_uint32 n) at (read_full-append (put_uint32 n) rest)

pub read_full-none : (n : ℕ) (s : Bytes) → length s < n → read_full n s ≡ none
unfolding read_full
read_full-none n s h = ground arith

pub read_full-length :
    (n : ℕ) (s : Bytes) {p : Bytes × Bytes}
    → read_full n s ≡ some p
    → (length p.0 ≡ n) × (length s ≡ n + length p.1)
unfolding read_full
read_full-length n s {p} h = ground (arith, length-take n s, length-drop n s)
