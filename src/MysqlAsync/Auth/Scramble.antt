-- ===== src/MysqlAsync/Auth/Scramble.antt =====
-- A server that follows the protocol accepts the right password.
use ormpp.Base.{
  ℕ, zero, suc, ◌+◌, ◌*◌, ◌/◌, ◌%◌, ◌<◌, false, [], ◌∷◌, ◌++◌, Bytes, All, is_empty, length, ◌≡◌,
  refl, arith,
}
use ormpp.MysqlAsync.Auth.{
  xor_bits, zip_xor, scramble_mysql_native_password, scramble_caching_sha2_password,
}

-- A number of `k` bits
abbrev Below : ℕ → ℕ → Type 0
Below zero a = a ≡ 0
Below (suc k) a = Below k (a / 2)

xor_bits_twice : (k a b : ℕ) → Below k a → xor_bits k (xor_bits k a b) b ≡ a
unfolding xor_bits
xor_bits_twice zero a b h = omega (arith, h)
xor_bits_twice (suc k) a b h =
    let more : ℕ = xor_bits k (a / 2) (b / 2) in
    let low : ((a % 2 + b % 2) % 2 + 2 * more) / 2 ≡ more = omega arith in
    rw (low, xor_bits_twice k (a / 2) (b / 2) h) (omega arith)

byte_Below : (a : ℕ) → a < 256 → Below 8 a
byte_Below a h = omega arith

zip_xor_twice :
    (s t : Bytes) → All (λ a. a < 256) s → length s ≡ length t → zip_xor (zip_xor s t) t ≡ s
unfolding zip_xor
zip_xor_twice [] [] h e = refl
zip_xor_twice [] (b ∷ t) h e = refl
zip_xor_twice (a ∷ s) [] h e = elim (zero_suc e) [ ]
  where
    zero_suc : length (a ∷ s) ≡ length {A = ℕ} [] → 1 < 0
    zero_suc f = omega arith
zip_xor_twice (a ∷ s) (b ∷ t) h e =
    rw (xor_bits_twice 8 a b (byte_Below a h.0), zip_xor_twice s t h.1 (omega arith)) refl

-- What the two hashes have in common: they give bytes, always equally many.
pub record IsHash (hash : Bytes → Bytes) (size : ℕ) : Type 0 where
  pub has_size : (s : Bytes) → length (hash s) ≡ size
  pub has_bytes : (s : Bytes) → All (λ a. a < 256) (hash s)

module _ (sha1 sha256 : Bytes → Bytes) where
  -- The server keeps `stored`, the hash of the hash of the password; it takes the hash of the scramble and
  -- `stored` out of the response, and compares the hash of what is left.
  abbrev pub NativeAccepts : Bytes → Bytes → Bytes → Type 0
  NativeAccepts stored scramble response =
      sha1 (zip_xor response (sha1 (scramble ++ stored))) ≡ stored

  abbrev pub CachingAccepts : Bytes → Bytes → Bytes → Type 0
  CachingAccepts stored scramble response =
      sha256 (zip_xor response (sha256 (stored ++ scramble))) ≡ stored

  -- A server that keeps the hash of the hash of a password accepts the response that the driver
  -- computes from the password, whatever the scramble, under either plugin, if the password is not empty.
  pub scramble_accepted :
      (password scramble : Bytes) (size1 size256 : ℕ)
      → is_empty password ≡ false
      → IsHash sha1 size1
      → IsHash sha256 size256
      → NativeAccepts
          (sha1 (sha1 password))
          scramble
          (scramble_mysql_native_password sha1 sha256 password scramble)
        × CachingAccepts
            (sha256 (sha256 password))
            scramble
            (scramble_caching_sha2_password sha1 sha256 password scramble)
  unfolding scramble_mysql_native_password scramble_caching_sha2_password
  scramble_accepted password scramble size1 size256 some_password h1 h256 =
      let s1 : Bytes = sha1 (scramble ++ sha1 (sha1 password)) in
      let s256 : Bytes = sha256 (sha256 (sha256 password) ++ scramble) in
      (
        rw
            (
              some_password,
              zip_xor_twice (sha1 password) s1 (h1.has_bytes password) (
                  omega
                    (arith, h1.has_size password, h1.has_size (scramble ++ sha1 (sha1 password)))),
            )
            refl,
        rw
            (
              some_password,
              zip_xor_twice (sha256 password) s256 (h256.has_bytes password) (
                  omega (
                    arith,
                    h256.has_size password,
                    h256.has_size (sha256 (sha256 password) ++ scramble),
                  )),
            )
            refl,
      )
