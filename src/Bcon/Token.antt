-- ===== src/Bcon/Token.antt =====
-- The constants `BCON_TOKEN_*` of nodebus/core/serializer.cpp; parser.cpp has the same values.
use Prim.Native.Nat.{ℕ}

abbrev pub end : ℕ
end = 0x00

abbrev pub null : ℕ
null = 0x01

abbrev pub true : ℕ
true = 0x02

abbrev pub false : ℕ
false = 0x03

abbrev pub byte : ℕ
byte = 0x04

abbrev pub int16 : ℕ
int16 = 0x05

abbrev pub uint16 : ℕ
uint16 = 0x06

abbrev pub int32 : ℕ
int32 = 0x07

abbrev pub uint32 : ℕ
uint32 = 0x08

abbrev pub int64 : ℕ
int64 = 0x09

abbrev pub uint64 : ℕ
uint64 = 0x0a

abbrev pub double : ℕ
double = 0x0b

abbrev pub datetime : ℕ
datetime = 0x0c

abbrev pub list : ℕ
list = 0x0e

abbrev pub map : ℕ
map = 0x0f

abbrev pub data6 : ℕ
data6 = 0xa0

abbrev pub string6 : ℕ
string6 = 0xc0

abbrev pub data12 : ℕ
data12 = 0x10

abbrev pub data20 : ℕ
data20 = 0x20

abbrev pub data36 : ℕ
data36 = 0x30

abbrev pub string12 : ℕ
string12 = 0x50

abbrev pub string20 : ℕ
string20 = 0x60

abbrev pub string36 : ℕ
string36 = 0x70
