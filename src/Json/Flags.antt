-- ===== src/Json/Flags.antt =====
-- The flags of `Serializer::serializeJSON` (nodebus/core/serializer.cpp) only lay the text out.
use jsonbus.Prelude.{
  ℕ, ◌≡◌, refl, sym, ap, ◌∙◌, true, false, none, some, List, [], ◌∷◌, ◌++◌, Exception,
  serializer_exception,
}
use jsonbus.Variant.{
  Variant, Items, Fields, Qt, invalid, bool, char, int, uint, long_long, ulong_long, double,
  date_time, string, byte_array, uuid, list, map, other, nil, cons, end, field,
}
use jsonbus.Bcon.Write.{Emit, emit, ◌&>◌}
use jsonbus.Json.Write.{
  Texts, sanitize_string, replace_inf, indent_off, inner_flags, write_text, write_number,
  serialize_json, serialize_json_items, serialize_json_fields,
}
use jsonbus.Json.Layout.{outside, place, strip, step, place-append, strip-append}
use jsonbus.Json.Closed.{
  IsClosed, IsText, text-IsClosed, number-IsClosed, NoQuotes, IsBlank, new_line-IsBlank,
  member_space-IsBlank, separator_space-IsBlank, last_line-IsBlank,
}

-- Two outputs that end alike and differ by white space outside of strings.
pub record SameText (a b : Emit) : Type 0 where
  pub same_end : a.1 ≡ b.1
  pub same_text : strip outside a.0 ≡ strip outside b.0
  pub left_closed : a.1 ≡ none → IsClosed a.0
  pub right_closed : b.1 ≡ none → IsClosed b.0

append-IsClosed : (a b : List ℕ) → IsClosed a → IsClosed b → IsClosed (a ++ b)
unfolding IsClosed
append-IsClosed a b x y = place-append outside a b ∙ ap (λ p. place p b) x ∙ y

strip-closed :
    (a b : List ℕ) → IsClosed a → strip outside (a ++ b) ≡ strip outside a ++ strip outside b
unfolding IsClosed
strip-closed a b x = strip-append outside a b ∙ ap (λ p. strip outside a ++ strip p b) x

joined-SameText :
    (x y : List ℕ) (c d : Emit)
    → IsClosed x
    → IsClosed y
    → strip outside x ≡ strip outside y
    → SameText c d
    → SameText (emit x &> c) (emit y &> d)
joined-SameText x y c d p q e s = record {
  same_end = s.same_end;
  same_text =
      strip-closed x c.0 p
      ∙ ap (λ z. z ++ strip outside c.0) e
      ∙ ap (λ z. strip outside y ++ z) s.same_text
      ∙ sym (strip-closed y d.0 q);
  left_closed = λ n. append-IsClosed x c.0 p (s.left_closed n);
  right_closed = λ n. append-IsClosed y d.0 q (s.right_closed n);
}

seq-SameText : (a b c d : Emit) → SameText a b → SameText c d → SameText (a &> c) (b &> d)
seq-SameText (x, none) (y, none) c d s t =
    joined-SameText x y c d (s.left_closed refl) (s.right_closed refl) s.same_text t
seq-SameText (x, some e) (y, some f) c d s t = s
seq-SameText (x, none) (y, some f) c d s t = let z = s.same_end in cc
seq-SameText (x, some e) (y, none) c d s t = let z = s.same_end in cc

closed-SameText : (x : List ℕ) → IsClosed x → SameText (emit x) (emit x)
closed-SameText x c = record {
  same_end = refl;
  same_text = refl;
  left_closed = λ _. c;
  right_closed = λ _. c;
}

blank-SameText : (x y : List ℕ) → IsBlank x → IsBlank y → SameText (emit x) (emit y)
unfolding IsClosed
blank-SameText x y a b = record {
  same_end = refl;
  same_text = a.strips ∙ sym b.strips;
  left_closed = λ _. a.closed;
  right_closed = λ _. b.closed;
}

thrown-SameText : (e : Exception) → SameText ([], some e) ([], some e)
thrown-SameText e = record {
  same_end = refl;
  same_text = refl;
  left_closed = λ n. cc;
  right_closed = λ n. cc;
}

module _ {qt : Qt} {texts : Texts} (h : IsText qt texts) where
  text-SameText : (s : List ℕ) → SameText (write_text qt texts s) (write_text qt texts s)
  unfolding write_text
  text-SameText s = closed-SameText (qt.to_local8bit (sanitize_string s)) (text-IsClosed h s)

  number-SameText :
      (s : List ℕ) → NoQuotes s → SameText (write_number qt texts s) (write_number qt texts s)
  unfolding write_number
  number-SameText s n = closed-SameText (qt.to_local8bit (replace_inf 0 s)) (number-IsClosed h s n)

  mutual
    unfolding serialize_json serialize_json_items serialize_json_fields IsClosed place step

    value-SameText :
        (v : Variant) (f g : ℕ)
        → SameText (serialize_json qt texts v f) (serialize_json qt texts v g)
    value-SameText invalid f g = closed-SameText (110 ∷ 117 ∷ 108 ∷ 108 ∷ []) refl
    value-SameText (bool true) f g = closed-SameText (116 ∷ 114 ∷ 117 ∷ 101 ∷ []) refl
    value-SameText (bool false) f g = closed-SameText (102 ∷ 97 ∷ 108 ∷ 115 ∷ 101 ∷ []) refl
    value-SameText (map end) f g = closed-SameText (123 ∷ 125 ∷ []) refl
    value-SameText (map (field k v fields)) f g =
        seq-SameText _ _ _ _ (closed-SameText (123 ∷ []) refl) (
          seq-SameText _ _ _ _
            (blank-SameText _ _ (new_line-IsBlank (indent_off f)) (new_line-IsBlank (indent_off g)))
            (seq-SameText _ _ _ _ (text-SameText k) (
              seq-SameText _ _ _ _ (closed-SameText (58 ∷ []) refl) (
                seq-SameText _ _ _ _
                  (blank-SameText _ _ (member_space-IsBlank f) (member_space-IsBlank g))
                  (seq-SameText _ _ _ _ (value-SameText v (inner_flags f) (inner_flags g)) (
                    seq-SameText _ _ _ _ (fields-SameText fields f g) (
                      seq-SameText _ _ _ _
                        (blank-SameText _ _ (last_line-IsBlank f) (last_line-IsBlank g))
                        (closed-SameText (125 ∷ []) refl))))))))
    value-SameText (list nil) f g = closed-SameText (91 ∷ 93 ∷ []) refl
    value-SameText (list (cons v items)) f g =
        seq-SameText _ _ _ _ (closed-SameText (91 ∷ []) refl) (
          seq-SameText _ _ _ _
            (blank-SameText _ _ (new_line-IsBlank (indent_off f)) (new_line-IsBlank (indent_off g)))
            (seq-SameText _ _ _ _ (value-SameText v (inner_flags f) (inner_flags g)) (
              seq-SameText _ _ _ _ (items-SameText items f g) (
                seq-SameText _ _ _ _
                  (blank-SameText _ _ (last_line-IsBlank f) (last_line-IsBlank g))
                  (closed-SameText (93 ∷ []) refl)))))
    value-SameText (string s) f g = text-SameText s
    value-SameText (byte_array bytes) f g = text-SameText (texts.byte_array_to_string bytes)
    value-SameText (char c) f g =
        number-SameText (texts.number_int (texts.char_to_int c)) (h.int_plain (texts.char_to_int c))
    value-SameText (int n) f g = number-SameText (texts.number_int n) (h.int_plain n)
    value-SameText (uint n) f g = number-SameText (texts.number_uint n) (h.uint_plain n)
    value-SameText (long_long n) f g =
        number-SameText (texts.number_long_long n) (h.long_long_plain n)
    value-SameText (ulong_long n) f g =
        number-SameText (texts.number_ulong_long n) (h.ulong_long_plain n)
    value-SameText (double n) f g = number-SameText (texts.number_double n) (h.double_plain n)
    value-SameText (date_time ms) f g = thrown-SameText serializer_exception
    value-SameText (uuid _) f g = thrown-SameText serializer_exception
    value-SameText (other _) f g = thrown-SameText serializer_exception

    items-SameText :
        (items : Items) (f g : ℕ)
        → SameText (serialize_json_items qt texts items f) (serialize_json_items qt texts items g)
    items-SameText nil f g = closed-SameText [] refl
    items-SameText (cons v items) f g = seq-SameText _ _ _ _ (closed-SameText (44 ∷ []) refl) (
        seq-SameText _ _ _ _
          (blank-SameText _ _ (separator_space-IsBlank f) (separator_space-IsBlank g))
          (seq-SameText _ _ _ _ (value-SameText v (inner_flags f) (inner_flags g))
            (items-SameText items f g)))

    fields-SameText :
        (fields : Fields) (f g : ℕ)
        → SameText
            (serialize_json_fields qt texts fields f)
            (serialize_json_fields qt texts fields g)
    fields-SameText end f g = closed-SameText [] refl
    fields-SameText (field k v fields) f g = seq-SameText _ _ _ _ (closed-SameText (44 ∷ []) refl) (
        seq-SameText _ _ _ _
          (blank-SameText _ _ (separator_space-IsBlank f) (separator_space-IsBlank g))
          (seq-SameText _ _ _ _ (text-SameText k) (
            seq-SameText _ _ _ _ (closed-SameText (58 ∷ []) refl) (
              seq-SameText _ _ _ _
                (blank-SameText _ _ (member_space-IsBlank f) (member_space-IsBlank g))
                (seq-SameText _ _ _ _ (value-SameText v (inner_flags f) (inner_flags g))
                  (fields-SameText fields f g))))))

  -- For an encoding that keeps ASCII and numbers without quotes, serializeJSON writes with any two
  -- values of the flags outputs that are the same without the spaces and line breaks outside of
  -- strings, and both end with the same exception or none, outside of any string.
  pub serialize_json-SameText :
      (v : Variant) (f g : ℕ) → SameText (serialize_json qt texts v f) (serialize_json qt texts v g)
  serialize_json-SameText v f g = value-SameText v f g
