-- ===== src/Nio/Stream/Fifo.antt =====
-- The channel is a queue of bytes (nodebus/nio/streamchannel.cpp): what its methods take is the front
-- of the bytes that are in the buffer, in the kernel, or on their way.
use jsonbus.Prelude.{
  ◌≢◌, ℕ, zero, suc, ◌+◌, ◌-◌, ◌<◌, ◌≤◌, ◌≡◌, refl, sym, ap, ◌∙◌, min, List, [], ◌∷◌, ◌++◌, length,
  take, drop, ◌==◌, Exception, Outcome, ok, throw, out_of_fuel, arith, append_assoc, length-append,
  length-take, length-drop, take_and_drop, drop-drop, drop_all, Bool-cases, inl, inr,
}
use jsonbus.Nio.Stream.{
  StreamChannel, and_then, s_read, fill_buf, check_buf, buff_at, get, peek, ignore, read_buffered,
  read_direct, read,
}
use jsonbus.Nio.Stream.Waits.{
  incoming, arrivals, IsSmall, Same, Waits, done, thrown, stuck, available-Waits,
}

-- All bytes that reading will give.
abbrev pub contents : StreamChannel → List ℕ
contents c = drop c.read_start c.read_buff ++ incoming c

-- The buffer's indices are in their order and within its 64 bytes, and the bytes up to `read_end` are
-- there; fewer than 2 ^ 31 bytes are on their way.
pub record IsValid (c : StreamChannel) : Type 0 where
  pub in_order : c.read_start ≤ c.read_end
  pub is_filled : c.read_end ≡ length c.read_buff
  pub fits : c.read_end ≤ 64
  pub is_small : IsSmall c

-- A run on a valid channel ends validly with a result that satisfies `P`, behind the bytes that the
-- result took, or it throws or waits for ever and takes none. It never uses a byte that was not read.
pub data Takes {A : Type 0} (bytes : A → List ℕ) (P : StreamChannel → A → Type 0)
    (c : StreamChannel) : StreamChannel × Outcome A → Type 0 where
  takes :
      (d : StreamChannel) (a : A)
      → IsValid d
      → contents c ≡ bytes a ++ contents d
      → P d a
      → Takes bytes P c (d, ok a)
  throws :
      (d : StreamChannel) (e : Exception)
      → IsValid d
      → contents c ≡ contents d
      → Takes bytes P c (d, throw e)
  waits :
      (d : StreamChannel) → IsValid d → contents c ≡ contents d → Takes bytes P c (d, out_of_fuel)

Same-contents : {c d : StreamChannel} → Same c d → contents d ≡ contents c
Same-contents s = rw (s.same_incoming, s.same_buff, s.same_start)

Same-IsValid : {c d : StreamChannel} → Same c d → IsValid c → IsValid d
Same-IsValid s v = record {
  in_order = omega (arith, s.same_start, s.same_end, v.in_order);
  is_filled = s.same_end ∙ v.is_filled ∙ ap length (sym s.same_buff);
  fits = omega (arith, s.same_end, v.fits);
  is_small = rw s.same_incoming v.is_small;
}

Takes-from :
    {A : Type 0} {bytes : A → List ℕ} {P : StreamChannel → A → Type 0} {c d : StreamChannel}
    {r : StreamChannel × Outcome A}
    → contents d ≡ contents c
    → Takes bytes P d r
    → Takes bytes P c r
Takes-from s (takes e a v t p) = takes e a v (sym s ∙ t) p
Takes-from s (throws e x v t) = throws e x v (sym s ∙ t)
Takes-from s (waits e v t) = waits e v (sym s ∙ t)

-- A run that only waited, and what goes on from it.
Takes-Waits :
    {A B : Type 0} {P : StreamChannel → A → Type 0} {Q : StreamChannel → B → Type 0}
    {bytes : B → List ℕ} {c : StreamChannel} {r : StreamChannel × Outcome A}
    {k : A → StreamChannel → StreamChannel × Outcome B}
    → IsValid c
    → Waits P c r
    → ((a : A) (d : StreamChannel) → IsValid d → Same c d → P d a → Takes bytes Q d (k a d))
    → Takes bytes Q c (and_then r k)
Takes-Waits v (done d a s p) next = Takes-from (Same-contents s) (next a d (Same-IsValid s v) s p)
Takes-Waits v (thrown d e s) next = throws d e (Same-IsValid s v) (sym (Same-contents s))
Takes-Waits v (stuck d s) next = waits d (Same-IsValid s v) (sym (Same-contents s))

-- A run that took nothing, and what goes on from it.
Takes-and_then :
    {A B : Type 0} {P : StreamChannel → A → Type 0} {Q : StreamChannel → B → Type 0}
    {bytes : B → List ℕ} {c : StreamChannel} {r : StreamChannel × Outcome A}
    {k : A → StreamChannel → StreamChannel × Outcome B}
    → Takes (λ _. []) P c r
    → ((a : A) (d : StreamChannel) → IsValid d → P d a → Takes bytes Q d (k a d))
    → Takes bytes Q c (and_then r k)
Takes-and_then (takes d a v e p) next = Takes-from (sym e) (next a d v p)
Takes-and_then (throws d e v s) next = throws d e v s
Takes-and_then (waits d v s) next = waits d v s

-- There is something in the buffer.
abbrev pub HasByte : StreamChannel → Unit {0} → Type 0
HasByte c _ = c.read_start < c.read_end

abbrev no_bytes : Unit {0} → List ℕ
no_bytes _ = []

used_up :
    (c : StreamChannel) → IsValid c → c.read_end ≡ c.read_start → drop c.read_start c.read_buff ≡ []
used_up c v e = drop_all c.read_start c.read_buff (omega (arith, v.is_filled))

fill_buf-Takes :
    (c : StreamChannel)
    → IsValid c
    → c.read_end ≡ c.read_start
    → Takes no_bytes HasByte c (fill_buf c)
unfolding fill_buf s_read
fill_buf-Takes c v e = Takes-Waits v (available-Waits c v.is_small e) λ n d w s counted.
    let front = take (min n 64) d.kernel.ready in
    let left = drop (min n 64) d.kernel.ready in
    let whole : front ++ left ≡ d.kernel.ready = take_and_drop (min n 64) d.kernel.ready in
    let size = length-take (min n 64) d.kernel.ready in
    let size_left = length-drop (min n 64) d.kernel.ready in
    let empty = used_up d w (s.same_end ∙ e ∙ sym s.same_start) in
    let sum = length-append d.kernel.ready (arrivals d.kernel.ticks) in
    let sum_left = length-append left (arrivals d.kernel.ticks) in
    takes _ tt
      (record {
        in_order = omega arith;
        is_filled = refl;
        fits = omega arith;
        is_small = omega (arith, w.is_small);
      })
      (rw empty (
        ap (λ l. l ++ arrivals d.kernel.ticks) (sym whole)
        ∙ append_assoc front left (arrivals d.kernel.ticks)))
      (omega (arith, counted.0, counted.1))

check_buf-Takes : (c : StreamChannel) → IsValid c → Takes no_bytes HasByte c (check_buf c)
unfolding check_buf
check_buf-Takes c v = elim (Bool-cases (c.read_end == c.read_start)) [
  | inl t ↦ rw (check_buf, t) (fill_buf-Takes c v (ground arith))
  | inr f ↦ rw (check_buf, f) (takes c tt v refl (ground (arith, v.in_order)))
]

buff_at-drop :
    (i : ℕ) (bytes : List ℕ)
    → i < length bytes
    → (b : ℕ) × (buff_at i bytes ≡ ok b) × (drop i bytes ≡ b ∷ drop (suc i) bytes)
unfolding buff_at
buff_at-drop i [] h = absurd (omega arith)
buff_at-drop zero (b ∷ bytes) h = (b, refl, refl)
buff_at-drop (suc i) (b ∷ bytes) h = buff_at-drop i bytes (omega arith)

-- The channel behind the next byte.
next_byte :
    (c : StreamChannel)
    → IsValid c
    → c.read_start < c.read_end
    → IsValid (record c { read_start = c.read_start + 1 })
next_byte c v h = record {
  in_order = omega arith;
  is_filled = v.is_filled;
  fits = v.fits;
  is_small = v.is_small;
}

-- On a channel whose buffer indices are in order and whose bytes fewer than 2 ^ 31, get takes the
-- first of the bytes that are in the buffer, in the kernel or on their way, or it throws or waits
-- for ever and takes none; it never uses a byte of the buffer that was not read.
pub get-Takes : (c : StreamChannel) → IsValid c → Takes (λ b. b ∷ []) (λ _ _. Unit) c (get c)
unfolding get
get-Takes c v = Takes-and_then (check_buf-Takes c v) λ _ d w h.
    let (b, at, split) = buff_at-drop d.read_start d.read_buff (omega (arith, w.is_filled)) in
    let one : d.read_start + 1 ≡ suc d.read_start = omega arith in
    rw at (takes _ b (next_byte d w h) (rw (split, one)) tt)

-- `peek` gives the first byte and takes none.
pub peek-Takes :
    (c : StreamChannel)
    → IsValid c
    → Takes (λ _. []) (λ d b. (rest : List ℕ) × (contents d ≡ b ∷ rest)) c (peek c)
unfolding peek
peek-Takes c v = Takes-and_then (check_buf-Takes c v) λ _ d w h.
    let (b, at, split) = buff_at-drop d.read_start d.read_buff (omega (arith, w.is_filled)) in
    rw at (takes d b w refl (drop (suc d.read_start) d.read_buff ++ incoming d, rw split))

read_buffered-Takes :
    (maxlen : ℕ) (c : StreamChannel)
    → IsValid c
    → c.read_start < c.read_end
    → Takes
        (λ bytes. bytes)
        (λ _ bytes. (length bytes ≤ maxlen) × (0 < maxlen → 0 < length bytes))
        c
        (read_buffered maxlen c)
unfolding read_buffered
read_buffered-Takes maxlen c v h =
    let count = min (c.read_end - c.read_start) maxlen in
    let kept = drop c.read_start c.read_buff in
    let size = length-take count kept in
    let size_kept = length-drop c.read_start c.read_buff in
    let filled = v.is_filled in
    takes _ (take count kept)
      (record {
        in_order = omega (arith, v.in_order);
        is_filled = v.is_filled;
        fits = v.fits;
        is_small = v.is_small;
      })
      (ap (λ l. l ++ incoming c) (sym (take_and_drop count kept))
        ∙ append_assoc (take count kept) (drop count kept) (incoming c)
        ∙ ap (λ l. take count kept ++ (l ++ incoming c))
            (drop-drop count c.read_start (c.read_start + count) c.read_buff refl))
      (omega arith, λ pos. omega arith)

read_direct-Takes :
    (maxlen : ℕ) (c : StreamChannel)
    → IsValid c
    → c.read_end ≡ c.read_start
    → Takes
        (λ bytes. bytes)
        (λ _ bytes. (length bytes ≤ maxlen) × (0 < maxlen → 0 < length bytes))
        c
        (read_direct maxlen c)
unfolding read_direct s_read
read_direct-Takes maxlen c v e = Takes-Waits v (available-Waits c v.is_small e) λ n d w s counted.
    let front = take (min n maxlen) d.kernel.ready in
    let left = drop (min n maxlen) d.kernel.ready in
    let size = length-take (min n maxlen) d.kernel.ready in
    let size_left = length-drop (min n maxlen) d.kernel.ready in
    let sum = length-append d.kernel.ready (arrivals d.kernel.ticks) in
    let sum_left = length-append left (arrivals d.kernel.ticks) in
    let there = counted.0 in
    let some = counted.1 in
    takes _ front
      (record {
        in_order = w.in_order;
        is_filled = w.is_filled;
        fits = w.fits;
        is_small = omega (arith, w.is_small);
      })
      (rw (used_up d w (s.same_end ∙ e ∙ sym s.same_start)) (
        ap (λ l. l ++ arrivals d.kernel.ticks) (sym (take_and_drop (min n maxlen) d.kernel.ready))
        ∙ append_assoc front left (arrivals d.kernel.ticks)))
      (omega arith, λ pos. omega arith)

-- On a channel whose buffer indices are in order and whose bytes fewer than 2 ^ 31, read gives a
-- front of the bytes to come, at most maxlen of them and at least one where maxlen is not 0, or it
-- throws or waits for ever and takes none; the indices stay in order and within the 64 bytes.
pub read-Takes :
    (maxlen : ℕ) (c : StreamChannel)
    → IsValid c
    → Takes
        (λ bytes. bytes)
        (λ _ bytes. (length bytes ≤ maxlen) × (0 < maxlen → 0 < length bytes))
        c
        (read maxlen c)
unfolding read
read-Takes maxlen c v = elim (Bool-cases (c.read_end == c.read_start)) [
  | inl t ↦ rw (read, t) (read_direct-Takes maxlen c v (ground arith))
  | inr f ↦ rw (read, f) (read_buffered-Takes maxlen c v (ground (arith, v.in_order)))
]

-- `ignore(len)` takes `len` bytes, or fewer and fails.
pub data Ignores (len : ℕ) (c : StreamChannel) : StreamChannel × Outcome (Unit {0}) → Type 0 where
  ignored :
      (d : StreamChannel) (bytes : List ℕ)
      → IsValid d
      → contents c ≡ bytes ++ contents d
      → length bytes ≡ len
      → Ignores len c (d, ok tt)
  cut_short :
      (d : StreamChannel) (o : Outcome (Unit {0})) (bytes : List ℕ)
      → IsValid d
      → contents c ≡ bytes ++ contents d
      → length bytes < len
      → o ≢ ok tt
      → Ignores len c (d, o)

Ignores-cons :
    {len b : ℕ} {c d : StreamChannel} {r : StreamChannel × Outcome (Unit {0})}
    → contents c ≡ b ∷ contents d
    → Ignores len d r
    → Ignores (suc len) c r
Ignores-cons {b} e (ignored f bytes v t l) =
    ignored f (b ∷ bytes) v (e ∙ ap (λ l. b ∷ l) t) (omega arith)
Ignores-cons {b} e (cut_short f o bytes v t l x) =
    cut_short f o (b ∷ bytes) v (e ∙ ap (λ l. b ∷ l) t) (omega arith) x

ignore_after :
    (len : ℕ) (c : StreamChannel) (r : StreamChannel × Outcome ℕ)
    → Takes (λ b. b ∷ []) (λ _ _. Unit) c r
    → ((d : StreamChannel) → IsValid d → Ignores len d (ignore len d))
    → Ignores (suc len) c (and_then r λ _ d. ignore len d)
ignore_after len c r (takes d b v e p) next = Ignores-cons e (next d v)
ignore_after len c r (throws d e v s) next = cut_short d (throw e) [] v s (omega arith) (λ x. cc)
ignore_after len c r (waits d v s) next = cut_short d out_of_fuel [] v s (omega arith) (λ x. cc)

-- `ignore(len)` skips exactly `len` bytes, or fewer and does not return.
pub ignore-Ignores : (len : ℕ) (c : StreamChannel) → IsValid c → Ignores len c (ignore len c)
unfolding ignore
ignore-Ignores zero c v = ignored c [] v refl refl
ignore-Ignores (suc len) c v = ignore_after len c (get c) (get-Takes c v) (ignore-Ignores len)
