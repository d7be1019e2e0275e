-- ===== src/Ecdh/Objects.antt =====
-- What the key exchange leaves of the objects of mbedtls.
use rfid_encryption.Base.{
  ℕ, ◌≡◌, sym, ap, List, ◌∷◌, some, none, Bool, true, false, bind_cases, read_bytes, write_bytes,
  if◌then◌else◌,
}
use rfid_encryption.Mbed.{Object, Uses, ecdh_context, settle}
use rfid_encryption.Ecdh.{
  Ecdh, generate_uses, exchange_uses, ecdh_public_key_generate, ecdh_key_exchange,
}

module _ (M : Ecdh) where
  pub ecdh_public_key_generate-uses :
      (at_public_key_len public_key : List ℕ) (made : ℕ × M.Context × List ℕ × ℕ × Uses)
      → ecdh_public_key_generate M at_public_key_len public_key ≡ some made
      → (live : List Object) → settle made.4 live ≡ some (ecdh_context ∷ live)
  unfolding ecdh_public_key_generate
  ecdh_public_key_generate-uses at_public_key_len public_key made e live =
      let (_, _, e1) = bind_cases (write_bytes public_key 0 _) _ made e in
      let (_, _, e2) = bind_cases (read_bytes _ at_public_key_len 0) _ made e1 in
      let (_, _, e3) = bind_cases (write_bytes _ 0 _) _ made e2 in
      let same : generate_uses ≡ made.4 = cc in ap (λ (u : Uses). settle u live) (sym same)

  pub ecdh_key_exchange-uses :
      (memory_at : ℕ → List ℕ) (salt : ℕ) (bob_public_key : List ℕ) (ctx : M.Context) (bob : List ℕ)
      (n : ℕ) (out : ℕ × List ℕ × Uses)
      → ecdh_key_exchange M memory_at salt bob_public_key ctx bob n ≡ some out
      → (live : List Object) → settle out.2 live ≡ some live
  unfolding ecdh_key_exchange
  ecdh_key_exchange-uses memory_at salt bob_public_key ctx bob n out e live =
      let (_, _, e1) = bind_cases (write_bytes bob_public_key 0 _) _ out e in
      let (_, _, e2) = bind_cases (read_bytes _ _ 0) _ out e1 in
      ap (λ (u : Uses). settle u live) (sym (only _ _ e2))
    where
      only :
          (b : Bool) (made : ℕ × List ℕ)
          → (if b then some (made.0, made.1, exchange_uses) else none) ≡ some out
          → exchange_uses ≡ out.2
      only true made e' = cc
      only false made e' = cc
