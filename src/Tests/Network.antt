-- ===== src/Tests/Network.antt =====
-- Signatures and the UDP server.
use rfid_encryption.Base.{
  List, ℕ, ◌*◌, ◌≡◌, refl, [], ◌∷◌, ◌++◌, some, none, ◌<◌, replicate, length, arith, take, codes,
  true, pos, negsuc, ltb, if◌then◌else◌, read_bytes, write_bytes, store, length-take, c_string,
}
use rfid_encryption.Sign.{
  Pk, returned, charset, charset_size, random_chars, generate_random_string, mbedtls_rsa_sign,
  verify_signature, key_pair_checker, signature_generater, sign_inits, sign_frees,
}
use rfid_encryption.Flash.Storage.{partition_size}
use rfid_encryption.Sign.Random.{drawn, generate_random_string_lem}
use rfid_encryption.Sign.Verify.{
  Checked, all_zero, statuses, verify_signature-mbedtls_rsa_sign, key_pair_checker_lem,
}
use rfid_encryption.Ecdh.{
  exchange_uses, ecdh_derive_aes_key, Ecdh, ecdh_key_exchange, ecdh_public_key_generate,
}
use rfid_encryption.Ecdh.Peer.{ecdh_key_exchange_peer}
use rfid_encryption.Udp.{Net, serve, opening, udp_server_task, answer, exchange}
use rfid_encryption.Udp.Replies.{Allowed, nothing}
use rfid_encryption.Udp.Replies.Answers.{
  Signed, Counted, udp_server_task-Allowed, udp_server_task_counts,
}
use rfid_encryption.Mbed.{init, free, pk_context}
use rfid_encryption.Udp.Silence.{serve_silent, messages_sent, history_of, Refuses}
use rfid_encryption.Tests.Fixtures.{toy_crypto, toy_flash, toy_heap, toy_key_reads}

generate_random_string_lem_example :
    (4 < length (replicate {A = ℕ} 6 0)
      → generate_random_string (λ i. i * 7) (replicate 6 0) 4
        ≡ some (drawn charset charset_size (λ i. i * 7) 0 4 ++ (0 ∷ 0 ∷ [])))
    × (length (replicate {A = ℕ} 6 0) ≡ 4
        → generate_random_string (λ i. i * 7) (replicate 6 0) 4 ≡ none)
generate_random_string_lem_example = generate_random_string_lem (λ i. i * 7) (replicate 6 0) 4

-- A scheme whose signatures are two bytes that every key accepts, in a buffer of eight bytes at least.
abbrev toy_pk : Pk
toy_pk = record {
  Key = ℕ;
  ctr_drbg_seed = 0;
  pk_parse_key = λ bytes. (0, 1);
  pk_parse_public_key = λ bytes. (0, 2);
  pk_is_rsa = λ key. true;
  err_pk_type_mismatch = 5;
  sha256 = λ bytes. replicate 32 4;
  pk_sign = λ key hash hash_len size. if ltb size 8 then (9, []) else (0, 3 ∷ 3 ∷ []);
  pk_verify = λ key hash hash_len sign. 0;
}

signs :
    mbedtls_rsa_sign toy_pk (1 ∷ 2 ∷ []) 2 (replicate 8 6) 7 (replicate 8 0) 8
    ≡ returned (0, 3 ∷ 3 ∷ replicate 6 0, 2, sign_inits ++ sign_frees)
unfolding mbedtls_rsa_sign read_bytes write_bytes store
signs = refl

verify_signature-mbedtls_rsa_sign_example :
    (signature' : List ℕ) × (len : ℕ) × (mbedtls_rsa_sign toy_pk
        (1 ∷ 2 ∷ [])
        2
        (replicate 8 6)
        7
        (replicate 8 0)
        8
      ≡ returned (0, signature', len, sign_inits ++ sign_frees))
    × (verify_signature toy_pk (1 ∷ 2 ∷ []) 2 signature' len
        ≡ returned (0, init pk_context ∷ free pk_context ∷ []))
verify_signature-mbedtls_rsa_sign_example =
    verify_signature-mbedtls_rsa_sign toy_pk 2 (1 ∷ 2 ∷ []) 2 (replicate 8 6) 7 (replicate 8 0) 8
      (omega arith) (omega arith) (omega arith) refl refl refl refl
      (λ hash. (3 ∷ 3 ∷ [], omega arith, refl, refl))

key_pair_checker_lem_example :
    Checked (all_zero (statuses toy_pk (replicate 19 0))) (key_pair_checker toy_pk (replicate 19 0))
key_pair_checker_lem_example = key_pair_checker_lem toy_pk (replicate 19 0)

too_small : Refuses toy_pk
too_small key hash e = absurd (omega (arith, e))

abbrev pub toy_net : Net
toy_net = record {
  sockets = λ h. pos 3;
  received = λ h. record { len = pos 2; bytes = 65 ∷ 66 ∷ []; source_addr = 0x0a000001 };
  option_set = λ h. negsuc 0;
  local_array = λ n. replicate n 0;
  heap = λ h. toy_heap;
  heap' = λ h. toy_heap;
  esp_random = λ h i. i;
  label = 1;
  at_public_key_len = λ h. replicate 200 0;
  memory_at = λ address. 0 ∷ [];
  salt = 7;
}

abbrev toy_ecdh : Ecdh
toy_ecdh = record {
  Context = ℕ;
  Rng = ℕ;
  Point = ℕ;
  ecdh_setup = 0;
  ctr_drbg_seed = λ text. (0, 1);
  ecdh_make_public = λ ctx size rng. (0, 1, replicate 65 4);
  ecdh_calc_secret = λ ctx size rng. (0, replicate 32 8);
  base64_encode = λ size bytes. (0, bytes);
  base64_decode = λ size text. (0, take size text);
  ecp_point_read_binary = λ bytes. (0, 1);
  hkdf_sha256 = λ salt shared info size. (0, take size shared);
  mpi_free_harmless = λ bytes. true;
  max_pt_len = 133;
  max_bytes = 66;
}

serve_silent_example :
    messages_sent (
      history_of (
        serve toy_net
          (λ h. toy_pk)
          (λ h. toy_ecdh)
          toy_crypto
          toy_flash
          0
          []
          5
          opening
          (replicate 128 0)
          []))
    ≡ 0
serve_silent_example =
    serve_silent toy_net (λ h. toy_pk) (λ h. toy_ecdh) toy_crypto toy_flash 0 [] 5 opening
      (replicate 128 0) [] (λ h. too_small)

-- A scheme that signs into four bytes.
abbrev small_pk : Pk
small_pk = record toy_pk { pk_sign = λ key hash hash_len size. (0, 3 ∷ 3 ∷ []) }

udp_server_task-Allowed_example :
    Allowed toy_net Signed 1
      (udp_server_task toy_net (λ h. small_pk) (λ h. toy_ecdh) toy_crypto toy_flash 0 [] 5 [])
udp_server_task-Allowed_example =
    udp_server_task-Allowed toy_net (λ h. small_pk) (λ h. toy_ecdh) toy_crypto toy_flash 0 [] 5 []
      refl nothing

exchanges :
    ecdh_key_exchange toy_ecdh toy_net.memory_at 7
      (replicate 133 0)
      1
      (65 ∷ 66 ∷ replicate 126 0)
      65
    ≡ some (0, replicate 32 8, exchange_uses)
unfolding ecdh_key_exchange ecdh_derive_aes_key read_bytes write_bytes c_string
exchanges = refl

-- With it the first datagram is answered.
two_answers :
    messages_sent (
      history_of
        (udp_server_task toy_net (λ h. small_pk) (λ h. toy_ecdh) toy_crypto toy_flash 0 [] 2 []))
    ≡ 2
unfolding udp_server_task serve answer exchange signature_generater generate_random_string
    random_chars charset mbedtls_rsa_sign ecdh_public_key_generate ecdh_key_exchange store c_string
    read_bytes write_bytes partition_size
two_answers = rw (toy_key_reads true)

ecdh_key_exchange_peer_example :
    ecdh_key_exchange toy_ecdh toy_net.memory_at 7 (replicate 133 0) 0 (codes "BBgebuTP") 65
    ≡ ecdh_key_exchange toy_ecdh toy_net.memory_at 7 (replicate 133 0) 0 (codes "AAAA") 3
ecdh_key_exchange_peer_example =
    ecdh_key_exchange_peer toy_ecdh toy_net.memory_at 7 (replicate 133 0) 0 (codes "BBgebuTP")
      (codes "AAAA") 65 3 (λ size text. omega (arith, length-take size text)) (omega arith)
      (omega arith)

udp_server_task_counts_example :
    Counted toy_net
      (udp_server_task toy_net (λ h. small_pk) (λ h. toy_ecdh) toy_crypto toy_flash 0 [] 5 [])
udp_server_task_counts_example =
    udp_server_task_counts toy_net (λ h. small_pk) (λ h. toy_ecdh) toy_crypto toy_flash 0 [] 5 refl
