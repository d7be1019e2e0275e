-- ===== src/Ecdh/Peer.antt =====
-- What ecdh_key_exchange of main/ecdh.c makes of the peer's key.
use rfid_encryption.Base.{ℕ, ◌≡◌, ◌≤◌, sym, ◌∙◌, List, length, write-read, c_string, arith}
use rfid_encryption.Ecdh.{Ecdh, ecdh_key_exchange}

-- mbedtls_base64_decode keeps to the size that it is given.
abbrev pub KeepsSize : Ecdh → Type 0
KeepsSize M = (size : ℕ) (text : List ℕ) → length (M.base64_decode size text).1 ≤ size

-- Where the decoder keeps to the size that it is given, and the sizes given are at most that of the
-- array for the decoded key, ecdh_key_exchange comes to the same for every public key that the peer
-- sends: it stops on freeing the secret's bytes, or returns the same status and the same AES key.
pub ecdh_key_exchange_peer :
    (M : Ecdh) (memory_at : ℕ → List ℕ) (salt : ℕ) (bob_public_key : List ℕ) (ctx : M.Context)
    (bob bob' : List ℕ) (n n' : ℕ)
    → KeepsSize M
    → n ≤ length bob_public_key
    → n' ≤ length bob_public_key
    → ecdh_key_exchange M memory_at salt bob_public_key ctx bob n
      ≡ ecdh_key_exchange M memory_at salt bob_public_key ctx bob' n'
unfolding ecdh_key_exchange
ecdh_key_exchange_peer M memory_at salt bob_public_key ctx bob bob' n n' keeps fits fits' =
    write-read bob_public_key (M.base64_decode n (c_string bob)).1 _
      (omega (arith, keeps n (c_string bob)))
    ∙ sym (
        write-read bob_public_key (M.base64_decode n' (c_string bob')).1 _
          (omega (arith, keeps n' (c_string bob'))))
