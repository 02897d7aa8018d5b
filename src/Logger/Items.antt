-- ===== src/Logger/Items.antt =====
-- What a log statement prints: each kind of item, and all of them.
use mathlib.Core.Path.{subst}
use jsonbus.Prelude.{
  ◌≡◌, refl, sym, inr, inl, ℕ, suc, ◌+◌, ◌-◌, Bool, true, false, List, [], ◌∷◌, ◌++◌, append-nil,
  length, ◌==◌, ==_iff, Bool-cases, All, arith,
}
use jsonbus.Logger.Lines.{
  break_times, Shows, done, same, line, IsPlain, IsPlain-Shows, IsPlain-append,
  replace_breaks-Shows, Writes, Writes-append, stream-Writes, unchanged-Writes,
}
use jsonbus.Logger.{
  Logger, stream, append, appendln, write_char, write_bool, write_number, write_text, write_endl,
  hex_byte, write_more_bytes, write_bytes, Entry, longest, spaces, left_justified, entry_line,
  write_entries, write_map, Item, character, boolean, number, text, line_end, byte_array, map,
  write_item, write_items,
}

-- The messages of the items, without headers and times.
abbrev pub bool_message : Bool → List ℕ
bool_message true = b't' ∷ b'r' ∷ b'u' ∷ b'e' ∷ []
bool_message false = b'f' ∷ b'a' ∷ b'l' ∷ b's' ∷ b'e' ∷ []

abbrev pub more_bytes_message : List ℕ → List ℕ
more_bytes_message [] = []
more_bytes_message (b ∷ bytes) = (b' ' ∷ []) ++ (hex_byte b ++ more_bytes_message bytes)

abbrev pub bytes_message : List ℕ → List ℕ
bytes_message [] = []
bytes_message (b ∷ bytes) = hex_byte b ++ more_bytes_message bytes

abbrev pub entry_message : ℕ → Entry → List ℕ
entry_message width e = b'\t' ∷ (left_justified width e.key ++ (b':' ∷ b' ' ∷ e.value))

abbrev pub entries_message : ℕ → List Entry → List ℕ
entries_message width [] = []
entries_message width (e ∷ es) = (b'\n' ∷ entry_message width e) ++ entries_message width es

abbrev pub item_message : Item → List ℕ
item_message (character now c) = c ∷ []
item_message (boolean b) = bool_message b
item_message (number t) = t
item_message (text now t) = t
item_message (line_end now) = b'\n' ∷ []
item_message (byte_array now bytes) = bytes_message bytes
item_message (map es) = entries_message (longest 0 es + 1) es

abbrev pub items_message : List Item → List ℕ
items_message [] = []
items_message (i ∷ is) = item_message i ++ items_message is

-- The times of the items, one for each line break of their messages.
abbrev pub entry_times : List Entry → List (List ℕ)
entry_times [] = []
entry_times (e ∷ es) = e.time ∷ entry_times es

abbrev pub item_times : Item → List (List ℕ)
item_times (character now c) = break_times now (c ∷ [])
item_times (boolean b) = []
item_times (number t) = []
item_times (text now t) = break_times now t
item_times (line_end now) = now ∷ []
item_times (byte_array now bytes) = break_times now (bytes_message bytes)
item_times (map es) = entry_times es

abbrev pub items_times : List Item → List (List ℕ)
items_times [] = []
items_times (i ∷ is) = item_times i ++ items_times is

break_times-append :
    (now t u : List ℕ) → break_times now (t ++ u) ≡ break_times now t ++ break_times now u
unfolding break_times
break_times-append now [] u = refl
break_times-append now (c ∷ t) u =
    rw (break_times-append now t u)
      (elim (Bool-cases (c == b'\n')) [ inl y ↦ rw y refl | inr n ↦ rw n refl ])

-- The texts that go to the stream as they are have no line break.
abbrev pub HasPlain : Item → Type 0
HasPlain (number t) = IsPlain t
HasPlain (map es) = All (λ e. IsPlain e.key × IsPlain e.value) es
HasPlain _ = Unit

append-Writes : (now t : List ℕ) (l : Logger) → Writes (break_times now t) t l (append now t l)
unfolding append
append-Writes now t l = stream-Writes _ l (replace_breaks-Shows l.header now t)

appendln-Writes : (now : List ℕ) (l : Logger) → Writes (now ∷ []) (b'\n' ∷ []) l (appendln now l)
unfolding appendln
appendln-Writes now l = stream-Writes _ l (
    subst (λ x. Shows l.header (now ∷ []) (b'\n' ∷ []) (b'\n' ∷ l.header ++ x)) (append-nil now)
      (line now done))

write_char-Writes :
    (now : List ℕ) (c : ℕ) (l : Logger)
    → Writes (break_times now (c ∷ [])) (c ∷ []) l (write_char now c l)
unfolding write_char break_times
write_char-Writes now c l = elim (Bool-cases (c == b'\n')) [
  | inl breaks ↦ rw (breaks, (==_iff c b'\n').0 breaks) (appendln-Writes now l)
  | inr keeps ↦ rw keeps (stream-Writes _ l (same (λ e. ground arith) done))
]

IsPlain-Writes : (t : List ℕ) (l : Logger) → IsPlain t → Writes [] t l (stream t l)
IsPlain-Writes t l h = stream-Writes t l (IsPlain-Shows t h)

write_bool-Writes : (b : Bool) (l : Logger) → Writes [] (bool_message b) l (write_bool b l)
unfolding write_bool IsPlain
write_bool-Writes true l = IsPlain-Writes _ l (ground arith)
write_bool-Writes false l = IsPlain-Writes _ l (ground arith)

write_more_bytes-Writes :
    (now bytes : List ℕ) (l : Logger)
    → Writes
        (break_times now (more_bytes_message bytes))
        (more_bytes_message bytes)
        l
        (write_more_bytes now bytes l)
unfolding write_more_bytes write_text break_times
write_more_bytes-Writes now [] l = unchanged-Writes l
write_more_bytes-Writes now (b ∷ bytes) l =
    subst (λ ts. Writes ts (more_bytes_message (b ∷ bytes)) l (write_more_bytes now (b ∷ bytes) l))
      (sym (break_times-append now (hex_byte b) (more_bytes_message bytes)))
      (Writes-append (write_char-Writes now b' ' l)
        (Writes-append (append-Writes now (hex_byte b) _) (write_more_bytes-Writes now bytes _)))

write_bytes-Writes :
    (now bytes : List ℕ) (l : Logger)
    → Writes
        (break_times now (bytes_message bytes))
        (bytes_message bytes)
        l
        (write_bytes now bytes l)
unfolding write_bytes write_text break_times
write_bytes-Writes now [] l = unchanged-Writes l
write_bytes-Writes now (b ∷ bytes) l =
    subst (λ ts. Writes ts (bytes_message (b ∷ bytes)) l (write_bytes now (b ∷ bytes) l))
      (sym (break_times-append now (hex_byte b) (more_bytes_message bytes)))
      (Writes-append (append-Writes now (hex_byte b) l) (write_more_bytes-Writes now bytes _))

spaces-IsPlain : (n : ℕ) → IsPlain (spaces n)
unfolding spaces IsPlain
spaces-IsPlain Prim.Native.Nat.zero = tt
spaces-IsPlain (suc n) = (ground arith, spaces-IsPlain n)

entry_message-IsPlain :
    (width : ℕ) (e : Entry) → IsPlain e.key → IsPlain e.value → IsPlain (entry_message width e)
unfolding IsPlain left_justified
entry_message-IsPlain width e k v = (
  ground arith,
  IsPlain-append (e.key ++ spaces (width - length e.key)) _
      (IsPlain-append e.key _ k (spaces-IsPlain _)) (ground arith, (ground arith, v)),
)

write_entries-Writes :
    (width : ℕ) (es : List Entry) (l : Logger)
    → All (λ e. IsPlain e.key × IsPlain e.value) es
    → Writes (entry_times es) (entries_message width es) l (write_entries width es l)
unfolding write_entries entry_line
write_entries-Writes width [] l h = unchanged-Writes l
write_entries-Writes width (e ∷ es) l ((k, v), h) =
    Writes-append
      (stream-Writes _ l (line e.time (IsPlain-Shows _ (entry_message-IsPlain width e k v))))
      (write_entries-Writes width es _ h)

write_item-Writes :
    (i : Item) (l : Logger) → HasPlain i → Writes (item_times i) (item_message i) l (write_item i l)
unfolding write_item write_number write_text write_endl write_map
write_item-Writes (character now c) l h = write_char-Writes now c l
write_item-Writes (boolean b) l h = write_bool-Writes b l
write_item-Writes (number t) l h = IsPlain-Writes t l h
write_item-Writes (text now t) l h = append-Writes now t l
write_item-Writes (line_end now) l h = appendln-Writes now l
write_item-Writes (byte_array now bytes) l h = write_bytes-Writes now bytes l
write_item-Writes (map es) l h = write_entries-Writes _ es l h

-- Writing items whose numbers and map entries have no line break appends the message to the buffer
-- and keeps the header: the message character by character, each of its line breaks followed by the
-- header of the level and by the time of its item or map entry, in order.
pub write_items-Writes :
    (is : List Item) (l : Logger)
    → All HasPlain is
    → Writes (items_times is) (items_message is) l (write_items is l)
unfolding write_items
write_items-Writes [] l h = unchanged-Writes l
write_items-Writes (i ∷ is) l (h, t) =
    Writes-append (write_item-Writes i l h) (write_items-Writes is _ t)
