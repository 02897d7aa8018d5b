-- ===== src/Logger/Hex.antt =====
-- The hexadecimal text of bytes can be read back.
use jsonbus.Prelude.{
  ℕ, ◌+◌, ◌-◌, ◌*◌, ◌/◌, ◌%◌, ◌≡◌, ◌<◌, refl, sym, ap, ◌∙◌, List, [], ◌∷◌, ◌++◌, append_assoc,
  append-nil, ltb, if◌then◌else◌, All, arith,
}
use jsonbus.Logger.Items.{bytes_message, more_bytes_message}
use jsonbus.Logger.{
  Logger, stream, replace_breaks, append, write_text, write_char, hex_digit, hex_byte,
  write_more_bytes, write_bytes,
}

abbrev pub digit_value : ℕ → ℕ
digit_value c = if ltb c b'A' then c - b'0' else c - b'A' + 10

-- Two digits to a byte, and a space between bytes.
abbrev pub read_bytes : List ℕ → List ℕ
read_bytes (c ∷ d ∷ _ ∷ t) = (digit_value c * 16 + digit_value d) ∷ read_bytes t
read_bytes (c ∷ d ∷ []) = (digit_value c * 16 + digit_value d) ∷ []
read_bytes _ = []

digit_value-hex_digit : (n : ℕ) → n < 16 → digit_value (hex_digit n) ≡ n
unfolding hex_digit
digit_value-hex_digit n h = ground arith

hex_byte-value :
    (b : ℕ) → b < 256 → digit_value (hex_digit (b / 16)) * 16 + digit_value (hex_digit (b % 16)) ≡ b
hex_byte-value b h =
    rw (digit_value-hex_digit (b / 16) (omega arith), digit_value-hex_digit (b % 16) (omega arith))
      (omega arith)

abbrev Bytes : List ℕ → Type 0
Bytes = All (λ b. b < 256)

read_bytes-message : (bytes : List ℕ) → Bytes bytes → read_bytes (bytes_message bytes) ≡ bytes
unfolding hex_byte
read_bytes-message [] h = refl
read_bytes-message (b ∷ []) (h, _) = ap (λ x. x ∷ []) (hex_byte-value b h)
read_bytes-message (b ∷ c ∷ bytes) (h, t) =
    ap (λ x. x ∷ read_bytes (bytes_message (c ∷ bytes))) (hex_byte-value b h)
    ∙ ap (λ x. b ∷ x) (read_bytes-message (c ∷ bytes) t)

replace_breaks-hex_byte : (after : List ℕ) (b : ℕ) → replace_breaks after (hex_byte b) ≡ hex_byte b
unfolding replace_breaks hex_byte hex_digit
replace_breaks-hex_byte after b = ground arith

write_hex_byte :
    (now : List ℕ) (b : ℕ) (l : Logger) → write_text now (hex_byte b) l ≡ stream (hex_byte b) l
unfolding write_text append
write_hex_byte now b l = rw (replace_breaks-hex_byte (b'\n' ∷ l.header ++ now) b) refl

write_more_bytes-buffer :
    (now bytes : List ℕ) (l : Logger)
    → (write_more_bytes now bytes l).buffer ≡ l.buffer ++ more_bytes_message bytes
unfolding write_more_bytes write_char
write_more_bytes-buffer now [] l = sym (append-nil l.buffer)
write_more_bytes-buffer now (b ∷ bytes) l =
    ap (λ m. (write_more_bytes now bytes m).buffer) (write_hex_byte now b (stream (b' ' ∷ []) l))
    ∙ write_more_bytes-buffer now bytes (stream (hex_byte b) (stream (b' ' ∷ []) l))
    ∙ append_assoc (l.buffer ++ b' ' ∷ []) (hex_byte b) _
    ∙ append_assoc l.buffer (b' ' ∷ []) _

write_bytes-buffer :
    (now bytes : List ℕ) (l : Logger)
    → (write_bytes now bytes l).buffer ≡ l.buffer ++ bytes_message bytes
unfolding write_bytes
write_bytes-buffer now [] l = sym (append-nil l.buffer)
write_bytes-buffer now (b ∷ bytes) l =
    ap (λ m. (write_more_bytes now bytes m).buffer) (write_hex_byte now b l)
    ∙ write_more_bytes-buffer now bytes (stream (hex_byte b) l)
    ∙ append_assoc l.buffer (hex_byte b) _

-- The text that a log entry has for bytes below 256 is read back, two digits to a byte and a space
-- between bytes, as those bytes.
pub read_bytes-write_bytes :
    (now bytes : List ℕ) (l : Logger)
    → All (λ b. b < 256) bytes
    → (written : List ℕ) × ((write_bytes now bytes l).buffer ≡ l.buffer ++ written)
      × (read_bytes written ≡ bytes)
read_bytes-write_bytes now bytes l h =
    (bytes_message bytes, write_bytes-buffer now bytes l, read_bytes-message bytes h)
