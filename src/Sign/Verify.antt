-- ===== src/Sign/Verify.antt =====
-- mbedtls_rsa_sign, verify_signature and key_pair_checker of main/publickey_reciever.c, and what they
-- return.
use rfid_encryption.Base.{
  ◌&&◌, take, splice, read_bytes_lem, write_bytes_lem, ◌≤◌, read_bytes-write_bytes, ℕ, ◌+◌, ◌≡◌,
  refl, ap, subst, List, [], ◌∷◌, ◌++◌, Bool, true, false, Option, none, some, codes, read_bytes,
  write_bytes, length, ◌==◌, not, arith, if◌then◌else◌,
}
use rfid_encryption.Sign.{
  Pk, Result, returned, error_check, bounded, with_nul, mbedtls_rsa_sign, verify_signature,
  key_pair_checker, sign_inits, sign_frees,
}
use rfid_encryption.Mbed.{Object, pk_context, entropy, ctr_drbg, init, free, Uses, settle}
use rfid_encryption.Sign.Keys.{testing_rsa_private_key, testing_rsa_public_key}

-- Every value that `m` returns satisfies `Q`.
pub record Gives {ℓ κ} {A : Type ℓ} (m : Result A) (Q : A → Type κ) : Type (ℓ ⊔ κ) where
  pub at : (a : A) → m ≡ returned a → Q a

module _ {ℓ κ} {A : Type ℓ} {Q : A → Type κ} where
  pub Gives-returned : (a : A) → Q a → Gives (returned a) Q
  Gives-returned a h = record { at = λ b e. subst Q (cc) h }

  Gives-if :
      (b : Bool) {m n : Result A}
      → (b ≡ true → Gives m Q)
      → (b ≡ false → Gives n Q)
      → Gives (if b then m else n) Q
  Gives-if true hm hn = hm refl
  Gives-if false hm hn = hn refl

  Gives-error_check :
      (ret : ℕ) (next : Result A) → (ret ≡ 0 → Gives next Q) → Gives (error_check ret next) Q
  Gives-error_check ret next h =
      Gives-if (ret == 0) (λ z. h (ground arith)) (λ _. record { at = λ b e. cc })

module _ {ℓ κ μ} {A : Type ℓ} {B : Type κ} {Q : B → Type μ} where
  pub Gives-bounded :
      (o : Option A) (f : A → Result B)
      → ((a : A) → o ≡ some a → Gives (f a) Q)
      → Gives (bounded o f) Q
  Gives-bounded none f h = record { at = λ b e. cc }
  Gives-bounded (some a) f h = h a refl

-- What a signature that is returned is made of.
module _ (P : Pk) (bytes : List ℕ) (n : ℕ) (private_key : List ℕ) (m : ℕ) (signature : List ℕ)
    (size : ℕ) where
  abbrev pub SignedBy : ℕ × List ℕ × ℕ × Uses → Type 0
  SignedBy (ret, signature', len, uses) =
      (key : List ℕ) × (signed : List ℕ) × (sign : List ℕ) × (read_bytes (m + 1) private_key 0
        ≡ some key)
      × (read_bytes n bytes 0 ≡ some signed)
      × (P.pk_sign (P.pk_parse_key key).1 (P.sha256 signed) 0 size ≡ (0, sign))
      × (ret ≡ 0)
      × (len ≡ length sign)
      × (write_bytes signature 0 sign ≡ some signature')
      × (uses ≡ sign_inits ++ sign_frees)

  pub mbedtls_rsa_sign-SignedBy :
      Gives (mbedtls_rsa_sign P bytes n private_key m signature size) SignedBy
  unfolding mbedtls_rsa_sign
  mbedtls_rsa_sign-SignedBy = Gives-error_check P.ctr_drbg_seed _ λ _.
      Gives-bounded (read_bytes (m + 1) private_key 0) _ λ key ek.
        Gives-error_check (P.pk_parse_key key).0 _ λ _.
          Gives-bounded (read_bytes n bytes 0) _ λ signed es.
            let made = P.pk_sign (P.pk_parse_key key).1 (P.sha256 signed) 0 size in
            Gives-error_check made.0 _ λ ok.
              Gives-bounded (write_bytes signature 0 made.1) _ λ signature' ew.
                Gives-returned (0, signature', length made.1, sign_inits ++ sign_frees)
                  (
                    key,
                    signed,
                    made.1,
                    ek,
                    es,
                    ap (λ (z : ℕ). (z, made.1)) ok,
                    refl,
                    refl,
                    ew,
                    refl,
                  )

-- Let the first `m + 1` bytes of the private key parse, let mbedtls sign with that key into `size`
-- bytes, which the buffer has, and let the testing public key, an RSA key, verify its signatures. Then
-- mbedtls_rsa_sign returns 0 for any `n` bytes of data, with its objects freed, and verify_signature
-- returns 0 for the same data and the signature and length that mbedtls_rsa_sign left.
pub verify_signature-mbedtls_rsa_sign :
    (P : Pk) (public_key : P.Key) (bytes : List ℕ) (n : ℕ) (private_key : List ℕ) (m : ℕ)
    (signature : List ℕ) (size : ℕ)
    → n ≤ length bytes
    → m + 1 ≤ length private_key
    → size ≤ length signature
    → P.ctr_drbg_seed ≡ 0
    → (P.pk_parse_key (take (m + 1) private_key)).0 ≡ 0
    → P.pk_parse_public_key (with_nul testing_rsa_public_key) ≡ (0, public_key)
    → P.pk_is_rsa public_key ≡ true
    → ((hash : List ℕ)
        → (sign : List ℕ) × (length sign ≤ size)
          × (P.pk_sign (P.pk_parse_key (take (m + 1) private_key)).1 hash 0 size ≡ (0, sign))
          × (P.pk_verify public_key hash 32 sign ≡ 0))
    → (signature' : List ℕ) × (len : ℕ) × (mbedtls_rsa_sign P bytes n private_key m signature size
        ≡ returned (0, signature', len, sign_inits ++ sign_frees))
      × (verify_signature P bytes n signature' len
          ≡ returned (0, init pk_context ∷ free pk_context ∷ []))
unfolding mbedtls_rsa_sign verify_signature
verify_signature-mbedtls_rsa_sign P public_key bytes n private_key m signature size data_fits
      key_fits sign_fits seeded key_parsed parsed rsa pair =
    let signed : List ℕ = take n bytes in
    let (sign, short, made, verified) = pair (P.sha256 signed) in
    let read_key : read_bytes (m + 1) private_key 0 ≡ some (take (m + 1) private_key) =
      read_bytes_lem (m + 1) private_key 0 (omega arith) in
    let read : read_bytes n bytes 0 ≡ some signed = read_bytes_lem n bytes 0 (omega arith) in
    let written : write_bytes signature 0 sign ≡ some (splice 0 sign signature) =
      write_bytes_lem signature 0 sign (omega arith) in
    let back : read_bytes (length sign) (splice 0 sign signature) 0 ≡ some sign =
      read_bytes-write_bytes signature sign (splice 0 sign signature) written in
    (
      splice 0 sign signature,
      length sign,
      rw (seeded, read_key, key_parsed, read, made, written),
      rw (parsed, rsa, read, back, verified),
    )

-- The statuses of the five calls that key_pair_checker checks.
abbrev pub statuses : Pk → List ℕ → List ℕ
statuses P rest =
    let hash = codes "Hello, world!" ++ rest in
    let private_parsed = P.pk_parse_key (with_nul testing_rsa_private_key) in
    let public_parsed = P.pk_parse_public_key (with_nul testing_rsa_public_key) in
    let made = P.pk_sign private_parsed.1 hash 0 512 in
    P.ctr_drbg_seed
    ∷ private_parsed.0
    ∷ made.0
    ∷ public_parsed.0
    ∷ P.pk_verify public_parsed.1 hash 0 made.1
    ∷ []

abbrev pub all_zero : List ℕ → Bool
all_zero [] = true
all_zero (ret ∷ rets) = (ret == 0) && all_zero rets

-- It ends well, with all objects freed, or with 1, and then all three still hold memory.
abbrev pub Checked : Bool → ℕ × Uses → Type 0
Checked ok (ret, uses) =
    (ret ≡ (if ok then 0 else 1))
    × ((live : List Object) × (settle uses [] ≡ some live) × (length live ≡ (if ok then 0 else 3)))

-- key_pair_checker returns 0 and frees its three objects if seeding, parsing the private key, signing,
-- parsing the public key and verifying all succeed. If any of them fails, it returns 1, and all three
-- objects still hold memory.
pub key_pair_checker_lem :
    (P : Pk) (rest : List ℕ) → Checked (all_zero (statuses P rest)) (key_pair_checker P rest)
unfolding key_pair_checker
key_pair_checker_lem P rest =
    let hash : List ℕ = codes "Hello, world!" ++ rest in
    let private_parsed = P.pk_parse_key (with_nul testing_rsa_private_key) in
    let public_parsed = P.pk_parse_public_key (with_nul testing_rsa_public_key) in
    let made = P.pk_sign private_parsed.1 hash 0 512 in
    ends (P.ctr_drbg_seed == 0) (private_parsed.0 == 0) (made.0 == 0) (public_parsed.0 == 0)
      (P.pk_verify public_parsed.1 hash 0 made.1 == 0)
  where
    reset : Uses
    reset = sign_inits ++ (free pk_context ∷ init pk_context ∷ [])

    ends :
        (seeded parsed signed parsed_public verified : Bool)
        → Checked (seeded && (parsed && (signed && (parsed_public && (verified && true))))) (
            if not seeded
            then (1, sign_inits)
            else if not parsed
            then (1, sign_inits)
            else if not signed
            then (1, sign_inits)
            else if not parsed_public
            then (1, reset)
            else if not verified
            then (1, reset)
            else (0, reset ++ sign_frees))
    ends false _ _ _ _ = (refl, (ctr_drbg ∷ entropy ∷ pk_context ∷ [], refl, refl))
    ends true false _ _ _ = (refl, (ctr_drbg ∷ entropy ∷ pk_context ∷ [], refl, refl))
    ends true true false _ _ = (refl, (ctr_drbg ∷ entropy ∷ pk_context ∷ [], refl, refl))
    ends true true true false _ = (refl, (pk_context ∷ ctr_drbg ∷ entropy ∷ [], refl, refl))
    ends true true true true false = (refl, (pk_context ∷ ctr_drbg ∷ entropy ∷ [], refl, refl))
    ends true true true true true = (refl, ([], refl, refl))
