-- ===== src/Lib.antt =====
-- The firmware of an ESP32 that reads RFID cards and asks a server about them, under
-- ESP32_RFID/ESP32_RFID/main. At the start app_main waits for the network and the time and starts
-- nfc_task. Each of its rounds reads a card's UID and its one-time key and calls https_request, which
-- decrypts two keys from flash, opens a TLS connection, sends the card's key, gives a granted card a
-- new key, tells the server, and waits for the user's login. The green lamp shows a pass.
--
-- Files, each named for the source that it models:
--   Base      shared names, lists, C memory as bounds-checked lists, C strings, outcomes of code
--   Flash     main/flash_write_RSA_key.c: Padding (pad_string_pkcs7, depad_string_pkcs7), Aes
--             (AES_encrypter, AES_decrypter, HMAC_derive_AES_for_RSA_privateKey, string_with_AES) and
--             Storage (flash_writer, flash_reader). KeyStore is the store of keys as its reader sees it, the
--             interface between Flash and Tls
--   Wifi      main/wifi_connect.c: event_handler and wifi_connect
--   Hex       bytes_to_hex_string of main/tls_connection.c
--   Device    the globals, and the history of calls to driver, ESP-IDF and FreeRTOS
--   Card      main/card_reader.c: card_write_on_block, blink_task_red, _green and _blue; Schedule
--             interleaves the blinking tasks, as a step relation on what each has left to do;
--             Memory is what the driver's answers tell of a card's block
--   Tls       main/tls_connection.c: https_request, cut at its loops and labels, and its messages.
--             Protocol is what a request is meant to do: a step relation on the calls alone, whose
--             phases know nothing of buffers, fuel and flash; Refines puts the requests in it, Agreement
--             compares what a card was asked to take with what the server was told, and Heap follows the
--             blocks that malloc and cJSON_PrintUnformatted give and free takes back. Delivery is about the
--             message that tells the server, and Keys takes the stored keys from flash_writer to the
--             connection
--   Nfc       nfc_task of main/main.c; Chain takes a key from one request to the next look at the card,
--             Agreement follows card and server over the rounds, Dark puts the task beside the blinking
--             tasks that it creates, Heap follows its heap blocks, Unchecked is about the card's answers
--             to writes, and Opens about a willing server, which Tls/Willing describes
--   App       app_main and obtain_time of main/main.c; Decides gives the ends of app_main their causes,
--             and FromBoot and Opens put app_main and nfc_task together
--   Mbed      the objects of mbedtls that the code initialises and frees, as a list that init and free
--             change
--   Sign      main/publickey_reciever.c and the keys of main/include/flash_write_rsa_key.h
--   Ecdh      main/ecdh.c
--   Udp       main/udp_communication.c; Replies is what a server of datagrams is meant to do, as a machine
--             on its calls: hear, prepare, send, send again. Answers runs the server in it, Counts is
--             what follows from the machine alone
--   Archive   archive/publickey_reciever.c, an earlier version that is not built: Padding, Storage,
--             Random and Server. It uses the parameters of Flash and the events of Udp
--   Tests     the theorems at concrete inputs
--
-- State and calls. A buffer is a list of bytes, and an access outside it gives `none` or a fault.
-- Code that the repository does not hold or only copies (mbedtls, esp_tls, cJSON, the PN532 driver in
-- components/PN532, FreeRTOS) is a parameter: a record of functions (Crypto, FlashChip, Env, Pk, Ecdh,
-- Net). In Env and Net the answer to a call is a function of the whole history of calls, so it may be
-- anything and change over time; in the UDP server so are those of mbedtls (Pk and Ecdh). What
-- uninitialised memory holds is a parameter too. The history has the calls, not their success: a write to
-- a card that the driver reports as failed, and a message that esp_tls_conn_write could not send, stand
-- in it too, since the code goes on after the first, and the answers say which is which.
--
-- Fuel. The two waiting loops of https_request end only when the server answers or hangs up, so they
-- take fuel, and `running` is a loop that has not ended. Answers, in Tls/Loops, says that the server
-- does not keep them going for `fuel` rounds. obtain_time takes ten rounds. nfc_task and the UDP server
-- loop for ever: their number of rounds is an argument.
--
-- Not modelled: as heap blocks, the cJSON objects behind the texts and flash_reader's buffer, which are
-- given back whenever the code returns; logging (print_hex_uint8_t too), running out of heap, the
-- PN532 driver (a copy of pn532-esp-idf), and the Go server and its tools, another program that the
-- firmware sees through its connection only. The pins of the reader's SPI bus, which the driver sets,
-- are not followed, those of the lamps are. Other tasks act between two calls of nfc_task only in so
-- far as the answers to its calls are arbitrary.
pub mod Base
pub mod Flash
pub mod Wifi
pub mod Hex
pub mod Device
pub mod Card
pub mod Tls
pub mod Nfc
pub mod App
pub mod Mbed
pub mod Sign
pub mod Ecdh
pub mod Udp
pub mod Archive
pub mod Tests
