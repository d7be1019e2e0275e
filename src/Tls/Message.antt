-- ===== src/Tls/Message.antt =====
-- The messages that https_request sends. cJSON is a parameter: it prints an object of strings.
use rfid_encryption.Base.{
  ℕ, ◌+◌, ◌-◌, ◌≤◌, ◌≡◌, refl, String, List, [], ◌∷◌, ◌++◌, codes, decimal, length-decimal, length,
  length-append, snprintf, take-all, arith,
}

-- cJSON_PrintUnformatted of an object with these members.
abbrev pub Json : Type 0
Json = List (String × List ℕ) → List ℕ

abbrev header : String
header =
    "POST /json HTTP/1.1\r\nHost: 192.168.153.15\r\nContent-Type: application/json\r\nContent-Length: "

abbrev agent : String
agent = "\r\nUser-Agent: esp-idf/1.0 esp32\r\n\r\n"

-- The format of both requests, with the text's length and the text.
unfoldable pub request_text : List ℕ → List ℕ
request_text json_data = codes header ++ (decimal (length json_data) ++ (codes agent ++ json_data))

-- snprintf into a buffer of `size` bytes.
unfoldable pub request : ℕ → List ℕ → List ℕ
unfolding request_text
request size json_data = snprintf size (request_text json_data)

-- The request with the card's key.
unfoldable pub uid_key_message : Json → List ℕ → List ℕ → List ℕ
uid_key_message print_unformatted hex_uid hex_key =
    print_unformatted
      (("type", codes "UID_KEY") ∷ ("UID", hex_uid) ∷ ("One_time_Card_KEY", hex_key) ∷ [])

-- The request with the new key.
unfoldable pub new_card_key_message : Json → List ℕ → List ℕ → List ℕ
new_card_key_message print_unformatted hex_uid hex_random_bytes = print_unformatted (
    ("type", codes "New_Card_Key")
    ∷ ("UID", hex_uid)
    ∷ ("New_One_time_Card_KEY", hex_random_bytes)
    ∷ [])

-- snprintf into 64 bytes.
abbrev pub heartbeat_request : List ℕ
heartbeat_request = snprintf 64 (codes "HEAD /OPEN HTTP/1.1\r\nHost: 192.168.153.15\r\n\r\n")

-- A request whose JSON text leaves 143 bytes of its buffer is sent whole.
request_fits :
    (size : ℕ) (json_data : List ℕ)
    → length json_data + 143 ≤ size
    → request size json_data ≡ request_text json_data
unfolding request
request_fits size json_data h = take-all (size - 1) (request_text json_data) (
    omega (
      arith,
      length-append (codes header) (decimal (length json_data) ++ (codes agent ++ json_data)),
      length-append (decimal (length json_data)) (codes agent ++ json_data),
      length-append (codes agent) json_data,
      length-decimal (length json_data),
    ))

heartbeat_fits : heartbeat_request ≡ codes "HEAD /OPEN HTTP/1.1\r\nHost: 192.168.153.15\r\n\r\n"
heartbeat_fits = refl
