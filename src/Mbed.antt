-- ===== src/Mbed.antt =====
-- The objects of mbedtls that the code initialises and frees, in main/publickey_reciever.c and
-- main/ecdh.c.
use rfid_encryption.Base.{ℕ, List, [], ◌∷◌, Option, none, some, ◌>>=◌, if◌then◌else◌, ◌==◌}

pub data Object : Type 0 where
  pk_context ecdh_context entropy ctr_drbg ecp_group ecp_point : Object

-- A call of mbedtls_..._init or mbedtls_..._free.
pub data Use : Type 0 where
  init free : Object → Use

-- Oldest first.
abbrev pub Uses : Type 0
Uses = List Use

abbrev kind : Object → ℕ
kind pk_context = 0
kind ecdh_context = 1
kind entropy = 2
kind ctr_drbg = 3
kind ecp_group = 4
kind ecp_point = 5

-- One object of the kind is gone; `none` when there is none.
abbrev pub release : Object → List Object → Option (List Object)
release o [] = none
release o (x ∷ xs) =
    let rest = release o xs in if kind o == kind x then some xs else (rest >>= λ ys. some (x ∷ ys))

-- The objects that hold memory after these calls, the last initialised first; `none` when one is freed
-- that is not there.
abbrev pub settle : Uses → List Object → Option (List Object)
settle [] live = some live
settle (init o ∷ uses) live = settle uses (o ∷ live)
settle (free o ∷ uses) live = release o live >>= λ rest. settle uses rest
