-- ===== src/Archive.antt =====
-- archive/publickey_reciever.c, the version before the signatures: no build includes it. It pads and
-- encrypts a key into flash, makes random strings and answers datagrams with a greeting.
pub mod Padding
pub mod Storage
pub mod Random
pub mod Server
