-- ===== src/Bcon.antt =====
-- The BCON codec: `Serializer::serializeBCON` of nodebus/core/serializer.cpp and
-- `Parser::parseBCON` of nodebus/core/parser.cpp.
pub mod Token
pub mod Write
pub mod Read
pub mod Portable
mod Bits
pub mod Encode
pub mod RoundTrip
pub mod Total
pub mod Top
pub mod Faults
