-- ===== src/Bson/Token.antt =====
-- The tokens of BSON (nodebus/core/serializer.cpp and parser.cpp).
use jsonbus.Prelude.{ℕ, ℕ, ℕ, ℕ, ℕ, ℕ}
use jsonbus.Prelude.{ℕ}

abbrev pub end : ℕ
end = 0

abbrev pub null : ℕ
null = 10

abbrev pub true : ℕ
true = 0

abbrev pub false : ℕ
false = 1

abbrev pub int32 : ℕ
int32 = 16

abbrev pub int64 : ℕ
int64 = 18

abbrev pub double : ℕ
double = 1

abbrev pub datetime : ℕ
datetime = 9

abbrev pub string : ℕ
string = 2

abbrev pub binary : ℕ
binary = 5

abbrev pub undef : ℕ
undef = 6

abbrev pub oid : ℕ
oid = 7

abbrev pub bool : ℕ
bool = 8

abbrev pub jscode : ℕ
jscode = 13

abbrev pub map : ℕ
map = 3

abbrev pub list : ℕ
list = 4

abbrev pub generic : ℕ
generic = 0

abbrev pub olduuid : ℕ
olduuid = 3

abbrev pub uuid : ℕ
uuid = 4
