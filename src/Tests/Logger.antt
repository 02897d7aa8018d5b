-- ===== src/Tests/Logger.antt =====
-- Log entries (nodebus/core/logger.h).
use jsonbus.Prelude.{ℕ, ◌≡◌, ◌++◌, arith, List, [], ◌∷◌}
use jsonbus.Logger.{Logger, Entry, Item, text, map, character, write_items, write_bytes}
use jsonbus.Logger.Lines.{IsPlain, Writes}
use jsonbus.Logger.Items.{items_message, items_times, write_items-Writes}
use jsonbus.Logger.Hex.{read_bytes, read_bytes-write_bytes}

abbrev logger : Logger
logger = record { buffer = []; header = b'#' ∷ [] }

abbrev entries : List Entry
entries =
    record { time = b't' ∷ []; key = b'a' ∷ []; value = b'1' ∷ [] }
    ∷ record { time = b't' ∷ []; key = b'b' ∷ b'c' ∷ []; value = b'2' ∷ [] }
    ∷ []

-- A text of two lines, a line break and a map.
abbrev items : List Item
items = text (b't' ∷ []) (b'x' ∷ b'\n' ∷ b'y' ∷ []) ∷ character (b't' ∷ []) b'\n' ∷ map entries ∷ []

write_items-Writes_example :
    Writes (items_times items) (items_message items) logger (write_items items logger)
unfolding IsPlain
write_items-Writes_example = write_items-Writes items logger (ground arith)

read_bytes-write_bytes_example :
    (written : List ℕ) × ((write_bytes [] (10 ∷ 255 ∷ []) logger).buffer ≡ logger.buffer ++ written)
    × (read_bytes written ≡ 10 ∷ 255 ∷ [])
read_bytes-write_bytes_example =
    read_bytes-write_bytes [] (10 ∷ 255 ∷ []) logger (omega arith, (omega arith, tt))
