-- ===== src/Bson.antt =====
-- The BSON codec of nodebus/core: `Serializer::serializeBSONDocument` and `Parser::parseBSONDocument`.
pub mod Token
pub mod Write
pub mod Read
pub mod Elements
pub mod Faults
use jsonbus.Prelude.{ℕ, List}

-- Qt's conversions that only this codec calls: `QVariant(QChar).toUInt()`, `QString::number`,
-- `QString::toInt` (a negative number, which `QList::insert` takes as 0, is 0 here) and the text of a
-- QUuid.
pub record BsonQt : Type 0 where
  pub char_to_uint : ℕ → ℕ
  pub number : ℕ → List ℕ
  pub to_int : List ℕ → ℕ
  pub to_uuid : List ℕ → List ℕ
