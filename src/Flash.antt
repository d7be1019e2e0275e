-- ===== src/Flash.antt =====
-- The encrypted key storage, ESP32_RFID/ESP32_RFID/main/flash_write_RSA_key.c: padding, the AES
-- loop over the blocks of a buffer, and the flash writer and reader.
pub mod Padding
pub mod Aes
pub mod Storage
pub mod KeyStore
