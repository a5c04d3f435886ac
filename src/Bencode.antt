-- ===== src/Bencode.antt =====
-- bt/src/bencode: the values of bencode, their encoding and decoding.
pub mod Decimal
pub mod Utf8
pub mod Encode
pub mod Decode
pub mod RoundTrip
pub mod Ends
pub mod Hash
pub mod Fields
pub mod Skip
pub mod Struct
