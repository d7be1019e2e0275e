-- ===== src/Flash/Storage.antt =====
-- flash_writer and flash_reader of main/flash_write_RSA_key.c. The partition API, the SPI flash and
-- the base64 decoder are parameters; `malloc` is taken to succeed, and what it returns holds
-- arbitrary bytes. Statuses are bit patterns of `esp_err_t`, 0 is ESP_OK.
pub mod Scan
pub mod RoundTrip
pub mod Failures
pub mod InClear
use rfid_encryption.Base.{
  ℕ, zero, suc, String, List, Bool, true, false, Option, none, some, ◌>>=◌, get_elem?, store,
  read_bytes, write_bytes, if◌then◌else◌, ◌==◌, not,
}
use rfid_encryption.Flash.Aes.{Crypto, string_with_aes}

-- PARTITION_SIZE. Shut, since lists of this length stand in the proofs.
unfoldable pub partition_size : ℕ
partition_size = 4096

-- esp_partition_find_first (by label, to the address), esp_partition_erase_range (address, offset,
-- size), esp_flash_write (bytes, address) and esp_flash_read (address, count).
pub record FlashChip : Type 1 where
  pub Chip : Type 0
  pub find_first : Chip → String → Option ℕ
  pub erase_range : Chip → ℕ → ℕ → ℕ → ℕ × Chip
  pub flash_write : Chip → List ℕ → ℕ → ℕ × Chip
  pub flash_read : Chip → ℕ → ℕ → ℕ × List ℕ

-- mbedtls_base64_decode: destination, its size and the text, to status, destination and length.
abbrev pub Base64Decode : Type 0
Base64Decode = List ℕ → ℕ → String → ℕ × List ℕ × ℕ

abbrev pub input_rsa_private_key : String
input_rsa_private_key = "Pem No /n head and tail"

-- decode_pem_base64_to_der: it reports a failure to the log alone, so the caller goes on with
-- whatever the decoder left.
abbrev pub decode_pem_base64_to_der : Base64Decode → String → List ℕ → ℕ → List ℕ × ℕ
decode_pem_base64_to_der decode base64_str der_output der_len =
    let (ret, output, len) = decode der_output der_len base64_str in (output, len)

-- `n` bytes from `buf[j]` on are 0xFF; the tests stop at the first that is not.
unfoldable pub all_ff : ℕ → List ℕ → ℕ → Option Bool
all_ff zero buf j = some true
all_ff (suc n) buf j =
    let more = all_ff n buf (suc j) in
    get_elem? buf j >>= λ b. if b == 255 then more else some false

-- `for(int i = 0; i < flash_size; i++)`, with the rounds that are left: at the first `i` behind
-- which four bytes are 0xFF, `buf[i+1]` becomes 0 and `i+1` the length.
unfoldable pub find_end : ℕ → ℕ → List ℕ → Option (List ℕ × ℕ)
find_end zero i buf = some (buf, 0)
find_end (suc rounds) i buf =
    let rest = find_end rounds (suc i) buf in
    all_ff 4 buf (suc i) >>= λ hit.
    if hit then (store buf (suc i) 0 >>= λ buf'. some (buf', suc i)) else rest

abbrev pub partition_label : Bool → String
partition_label label = if label then "RSA_crt" else "RSA_key"

module _ (C : Crypto) (F : FlashChip) (nul_literal : ℕ) where
  -- The flash afterwards, and whether `RSA_encrypted_key` is still allocated. `heap` is what
  -- `malloc(4096)` holds.
  unfoldable pub flash_writer : Base64Decode → List ℕ → F.Chip → Option (Bool × F.Chip)
  flash_writer decode heap chip = elim (F.find_first chip "RSA_key") [
    | none ↦ some (false, chip)
    | some address ↦
        let (der, der_len) =
          decode_pem_base64_to_der decode input_rsa_private_key heap partition_size in
        string_with_aes C nul_literal der der_len false >>= λ sealed.
        let (ret, erased) = F.erase_range chip address 0 partition_size in
        if not (ret == 0)
        then some (true, erased)
        else (read_bytes sealed.1 sealed.0 0 >>= λ bytes.
            let (ret', written) = F.flash_write erased bytes address in
            some (not (ret' == 0), written))
  ]

  -- The bytes before the end are decrypted in place and copied to the destination.
  unfoldable pub decrypt_to : List ℕ → List ℕ → ℕ → Option (ℕ × List ℕ)
  decrypt_to dest read_key len = string_with_aes C nul_literal read_key len true >>= λ opened.
      read_bytes opened.1 opened.0 0 >>= λ bytes.
      write_bytes dest 0 bytes >>= λ dest'. some (opened.1, dest')

  -- What happens to the bytes that were read.
  unfoldable pub reader_decrypts : List ℕ → List ℕ → ℕ → Option (ℕ × List ℕ)
  unfolding decrypt_to
  reader_decrypts read_key dest flash_size =
      find_end flash_size 0 read_key >>= λ found. decrypt_to dest found.0 found.1

  -- The returned length and the destination. `heap` is what `malloc(4096)` holds.
  unfoldable pub flash_reader : F.Chip → List ℕ → List ℕ → ℕ → Bool → Option (ℕ × List ℕ)
  unfolding reader_decrypts
  flash_reader chip heap dest flash_size label = elim (F.find_first chip (partition_label label)) [
    | none ↦ some (0, dest)
    | some address ↦
        let (ret, bytes) = F.flash_read chip address flash_size in
        if not (ret == 0)
        then some (0, dest)
        else (write_bytes heap 0 bytes >>= λ read_key. reader_decrypts read_key dest flash_size)
  ]
