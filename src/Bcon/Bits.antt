-- ===== src/Bcon/Bits.antt =====
-- The token byte of a string or a byte array, `quint8(TOKEN | bits)`, as arithmetic.
use jsonbus.Prelude.{
  ℕ, zero, suc, ◌+◌, ◌<◌, ◌≡◌, refl, Bool, true, false, arith, ltb, ◌==◌, if◌then◌else◌, bit_or,
}

-- Whether two codes of a token agree for every length below the limit.
codes_agree : (ℕ → ℕ) → (ℕ → ℕ) → ℕ → Bool
codes_agree code plain zero = true
codes_agree code plain (suc limit) =
    if code limit == plain limit then codes_agree code plain limit else false

codes_agree-eq :
    (code plain : ℕ → ℕ) (limit len : ℕ)
    → len < limit
    → codes_agree code plain limit ≡ true
    → code len ≡ plain len
unfolding codes_agree
codes_agree-eq code plain zero len lt table = absurd (omega arith)
codes_agree-eq code plain (suc limit) len lt table =
    ground (arith, codes_agree-eq code plain limit len)

pub string6_token : (len : ℕ) → len < 64 → bit_or 0xc0 len ≡ 192 + len
unfolding codes_agree
string6_token len h = codes_agree-eq (λ x. bit_or 0xc0 x) (λ x. 192 + x) 64 len h refl

-- The token of short byte arrays has bit 0x20, which is also a bit of the length.
pub data6_token :
    (len : ℕ) → len < 64 → bit_or 0xa0 len ≡ (if ltb len 32 then 160 + len else 128 + len)
unfolding codes_agree
data6_token len h =
    codes_agree-eq (λ x. bit_or 0xa0 x) (λ x. if ltb x 32 then 160 + x else 128 + x) 64 len h refl

pub string12_token : (bits : ℕ) → bits < 16 → bit_or 0x50 bits ≡ 80 + bits
unfolding codes_agree
string12_token bits h = codes_agree-eq (λ x. bit_or 0x50 x) (λ x. 80 + x) 16 bits h refl
