-- ===== src/Json.antt =====
-- `_json.py`: JSON values, their bounds, their canonical text and the scan that precedes a decoding.
pub mod Values
pub mod Measures
pub mod Fits
pub mod Bounded
pub mod Counted
pub mod Canonical
pub mod Characters
pub mod Preflight
pub mod Ending
pub mod Ends
pub mod Rounds
pub mod Tokens
pub mod Written
pub mod Brackets
pub mod Spelled
pub mod Joined
pub mod Roundtrip
pub mod SortedFields
pub mod Ordered
pub mod Accepted
pub mod Refused
