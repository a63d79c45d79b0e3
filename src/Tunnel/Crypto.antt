-- ===== src/Tunnel/Crypto.antt =====
-- internal/tunnel/crypto.go: `Cipher` over Go's AES-GCM, which is a parameter.
use the_family_vpn.Base.{
  ltb, ◌==◌, le→ltb, length, take, drop, length-append, length-take, take-append, drop-append,
  Bytes, Result, ◌>>=◌, ◌>>◌, reject_if, or_err, ok-injective, ℕ, ◌+◌, ◌≤◌, ◌<◌, ◌≡◌, sym, ◌∙◌, not,
  Option, some, ◌++◌, arith, ok, err,
}
use the_family_vpn.Wire.{read_full}

-- crypto/cipher's `AEAD` value. `unseal` is its method `Open`.
pub record Gcm : Type 0 where
  pub nonce_size : ℕ
  pub overhead : ℕ
  pub seal : Bytes → Bytes → Bytes
  pub unseal : Bytes → Bytes → Option Bytes

-- What the documentation of `AEAD` promises of `Seal` and `Open`. `Overhead` is documented as the largest
-- difference of the lengths; for the GCM that NewCipher makes it is the difference.
pub record IsAead (g : Gcm) : Type 0 where
  pub unseal-seal :
      (nonce plain : Bytes)
      → length nonce ≡ g.nonce_size
      → g.unseal nonce (g.seal nonce plain) ≡ some plain
  pub length-seal : (nonce plain : Bytes) → length (g.seal nonce plain) ≡ length plain + g.overhead

pub data CipherError : Type 0 where
  bad_key_size no_aes no_gcm no_nonce too_short open_failed : CipherError

-- NewCipher. `aes` and `gcm` are `aes.NewCipher` and `cipher.NewGCM`.
unfoldable pub new_cipher :
    {Block : Type 0}
    → (Bytes → Option Block)
    → (Block → Option Gcm)
    → Bytes
    → Result CipherError Gcm
new_cipher aes gcm key = do
  reject_if (not (length key == 32)) bad_key_size
  block ← or_err (aes key) no_aes
  or_err (gcm block) no_gcm

-- Encrypt. `random` is what `rand.Reader` gives.
unfoldable pub encrypt : Gcm → Bytes → Bytes → Result CipherError Bytes
encrypt g random plain = do
  (nonce, rest) ← or_err (read_full g.nonce_size random) no_nonce
  ok (nonce ++ g.seal nonce plain)

-- Decrypt
unfoldable pub decrypt : Gcm → Bytes → Result CipherError Bytes
decrypt g cipher = do
  reject_if (ltb (length cipher) g.nonce_size) too_short
  or_err (g.unseal (take g.nonce_size cipher) (drop g.nonce_size cipher)) open_failed

-- Overhead
unfoldable pub overhead : Gcm → ℕ
overhead g = g.nonce_size + g.overhead

-- With enough random bytes Encrypt does not fail, and puts the nonce first.
pub encrypt_total :
    (g : Gcm) (random plain : Bytes)
    → g.nonce_size ≤ length random
    → encrypt g random plain
      ≡ ok (take g.nonce_size random ++ g.seal (take g.nonce_size random) plain)
unfolding encrypt read_full
encrypt_total g random plain h = rw (le→ltb (length random) g.nonce_size h)

encrypt_needs_nonce :
    (g : Gcm) (random plain : Bytes) {cipher : Bytes}
    → encrypt g random plain ≡ ok cipher
    → g.nonce_size ≤ length random
unfolding encrypt read_full
encrypt_needs_nonce g random plain h = ground arith

-- A ciphertext is a nonce of the right size before the sealed text.
pub encrypt_shape :
    (g : Gcm) (random plain : Bytes) {cipher : Bytes}
    → encrypt g random plain ≡ ok cipher
    → (nonce : Bytes) × (length nonce ≡ g.nonce_size) × (cipher ≡ nonce ++ g.seal nonce plain)
encrypt_shape g random plain h =
    let enough = encrypt_needs_nonce g random plain h in
    (
      take g.nonce_size random,
      omega (arith, length-take g.nonce_size random),
      ok-injective (sym h ∙ encrypt_total g random plain enough),
    )

-- A nonce of the right size is split off again.
decrypt-append :
    (g : Gcm) (nonce sealed : Bytes)
    → length nonce ≡ g.nonce_size
    → decrypt g (nonce ++ sealed) ≡ or_err (g.unseal nonce sealed) open_failed
unfolding decrypt
decrypt-append g nonce sealed e = rw (← e) (
    rw
      (le→ltb (length (nonce ++ sealed)) (length nonce) (omega (arith, length-append nonce sealed)))
      (rw (take-append nonce sealed, drop-append nonce sealed)))

-- What Encrypt sends, Decrypt returns.
pub decrypt-encrypt :
    (g : Gcm) (random plain : Bytes) {cipher : Bytes}
    → IsAead g
    → encrypt g random plain ≡ ok cipher
    → decrypt g cipher ≡ ok plain
decrypt-encrypt g random plain law h =
    let (nonce, size, shape) = encrypt_shape g random plain h in
    rw shape (
      rw (decrypt-append g nonce (g.seal nonce plain) size) (rw (law.unseal-seal nonce plain size)))

-- Encryption adds exactly `Overhead()` bytes.
pub length-encrypt :
    (g : Gcm) (random plain : Bytes) {cipher : Bytes}
    → IsAead g
    → encrypt g random plain ≡ ok cipher
    → length cipher ≡ length plain + overhead g
unfolding overhead
length-encrypt g random plain law h =
    let (nonce, size, shape) = encrypt_shape g random plain h in
    rw shape (omega (arith, length-append nonce (g.seal nonce plain), law.length-seal nonce plain))

-- Decrypt refuses what is shorter than a nonce.
pub decrypt_short :
    (g : Gcm) (cipher : Bytes) → length cipher < g.nonce_size → decrypt g cipher ≡ err too_short
unfolding decrypt
decrypt_short g cipher h = ground arith
