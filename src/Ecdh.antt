-- ===== src/Ecdh.antt =====
-- main/ecdh.c. mbedtls is a parameter: the fields of `Ecdh`. Statuses are bit patterns, 0 is success.
pub mod Peer
pub mod Objects
use rfid_encryption.Base.{
  ℕ, zero, ◌+◌, ◌*◌, String, List, [], ◌∷◌, Bool, Option, ◌>>=◌, none, some, codes, c_string,
  length, take, write_bytes, read_bytes, if◌then◌else◌, ◌==◌,
}
use rfid_encryption.Mbed.{Uses, init, free, ecdh_context, ctr_drbg, entropy, ecp_group, ecp_point}

pub record Ecdh : Type 1 where
  pub Context : Type 0
  pub Rng : Type 0
  pub Point : Type 0
  -- after mbedtls_ecdh_init and mbedtls_ecdh_setup for SECP256R1
  pub ecdh_setup : Context
  -- the personalization, to status and generator
  pub ctr_drbg_seed : String → ℕ × Rng
  -- the buffer's size, to status, the context with its new key pair, and the public key's bytes
  pub ecdh_make_public : Context → ℕ → Rng → ℕ × Context × List ℕ
  pub ecdh_calc_secret : Context → ℕ → Rng → ℕ × List ℕ
  pub base64_encode : ℕ → List ℕ → ℕ × List ℕ
  pub base64_decode : ℕ → List ℕ → ℕ × List ℕ
  pub ecp_point_read_binary : List ℕ → ℕ × Point
  -- salt, shared key, info and the key's length
  pub hkdf_sha256 : List ℕ → List ℕ → List ℕ → ℕ → ℕ × List ℕ
  -- whether mbedtls_mpi_free does nothing when these bytes are what its argument points to
  pub mpi_free_harmless : List ℕ → Bool
  -- MBEDTLS_ECP_MAX_PT_LEN, MBEDTLS_ECP_MAX_BYTES
  pub max_pt_len : ℕ
  pub max_bytes : ℕ

-- The bytes up to the first `c`, which is included.
abbrev up_to : ℕ → List ℕ → List ℕ
up_to c [] = []
up_to c (x ∷ xs) = if x == c then x ∷ [] else x ∷ up_to c xs

abbrev pub generate_uses : Uses
generate_uses = init ecdh_context ∷ init ctr_drbg ∷ init entropy ∷ free ctr_drbg ∷ free entropy ∷ []

abbrev pub exchange_uses : Uses
exchange_uses =
    init ctr_drbg
    ∷ init entropy
    ∷ init ecp_group
    ∷ init ecp_point
    ∷ free ctr_drbg
    ∷ free entropy
    ∷ free ecp_point
    ∷ free ecp_group
    ∷ []

module _ (M : Ecdh) where
  -- The status and the key. `salt` is one byte, the low one of the literal's address, which is then
  -- taken for an address itself: `memory_at` is what memory holds there.
  unfoldable pub ecdh_derive_aes_key : (ℕ → List ℕ) → ℕ → List ℕ → List ℕ → ℕ → ℕ × List ℕ
  ecdh_derive_aes_key memory_at salt shared_key info aes_key_len =
      M.hkdf_sha256 (c_string (memory_at salt)) shared_key info aes_key_len

  -- The status, the context, `public_key` with `*public_key_len`, and the objects' calls. What is
  -- encoded is memory from `public_key_len` on, the address of the length; only its own length is the
  -- key's.
  unfoldable pub ecdh_public_key_generate :
      List ℕ → List ℕ → Option (ℕ × M.Context × List ℕ × ℕ × Uses)
  ecdh_public_key_generate at_public_key_len public_key =
      let (seeded, rng) = M.ctr_drbg_seed "Your Personalization String" in
      let (ret, ctx, made) = M.ecdh_make_public M.ecdh_setup M.max_pt_len rng in
      write_bytes public_key 0 made >>= λ public_key'.
      read_bytes (length made) at_public_key_len 0 >>= λ source.
      let (encoded, text) = M.base64_encode (M.max_pt_len * 2) source in
      write_bytes public_key' 0 (up_to 0 text) >>= λ public_key''.
      some (ret, ctx, public_key'', length text, generate_uses)

  -- The result, the AES key, which the code then drops, and the objects' calls. `key_len` is the size
  -- given for the decoded key, which goes into `bob_public_key`, a local array, and from there into a
  -- point that nothing reads. At the end the bytes of the secret are freed as if they were a number.
  unfoldable pub ecdh_key_exchange :
      (ℕ → List ℕ) → ℕ → List ℕ → M.Context → List ℕ → ℕ → Option (ℕ × List ℕ × Uses)
  unfolding ecdh_derive_aes_key
  ecdh_key_exchange memory_at salt bob_public_key ctx bob_public_key_base64 key_len =
      let (ret, rng) =
        M.ctr_drbg_seed "_yiyi : maybe I'll change the RNG generater to TRNG on esp32" in
      let (ret1, ctx', buffer) = M.ecdh_make_public ctx 512 rng in
      let (ret2, decoded) = M.base64_decode key_len (c_string bob_public_key_base64) in
      write_bytes bob_public_key 0 decoded >>= λ bob_public_key'.
      read_bytes (length decoded) bob_public_key' 0 >>= λ point.
      let (ret3, bob_ecp_point) = M.ecp_point_read_binary point in
      let (ret4, shared_secret) = M.ecdh_calc_secret ctx' M.max_bytes rng in
      let (ret5, aes_key) = ecdh_derive_aes_key memory_at salt shared_secret (codes "yiyi") 32 in
      if M.mpi_free_harmless shared_secret then some (ret5, aes_key, exchange_uses) else none
