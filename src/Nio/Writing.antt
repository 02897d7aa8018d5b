-- ===== src/Nio/Writing.antt =====
-- The writing loop of nodebus/nio/iochannel.cpp. What each call of `::write` answers is an argument.
use jsonbus.Prelude.{
  if_both, ◌≢◌, append-nil, All, ℕ, ◌≤◌, ◌<◌, ◌≡◌, refl, sym, ap, ◌∙◌, List, [], ◌∷◌, ◌++◌,
  append_assoc, length, take, drop, take_and_drop, length-drop, arith, ltb, if◌then◌else◌,
  io_exception, Outcome, ok, throw, undefined, out_of_fuel,
}

-- An answer to a call that writes: how many bytes it took, or that it failed.
pub data Answer : Type 0 where
  took : ℕ → Answer
  failed : Answer

-- `s_write`: the bytes that were sent, in order, and how it ended. Answers that run out stand for a call
-- that does not return; a call that takes more than it was given leads to a length that wraps around.
unfoldable pub s_write : List Answer → List ℕ → List ℕ → List ℕ × Outcome (Unit {0})
s_write answers [] sent = (sent, ok tt)
s_write [] (b ∷ bytes) sent = (sent, out_of_fuel)
s_write (failed ∷ answers) (b ∷ bytes) sent = (sent, throw io_exception)
s_write (took n ∷ answers) (b ∷ bytes) sent =
    let rest = s_write answers (drop n (b ∷ bytes)) (sent ++ take n (b ∷ bytes)) in
    if ltb (length (b ∷ bytes)) n then (sent, undefined) else rest

-- `write`
unfoldable pub write : List Answer → List ℕ → List ℕ → List ℕ × Outcome (Unit {0})
unfolding s_write
write = s_write

-- A run that returns has sent all the bytes in order, and one that throws a front of them.
pub Sends : List ℕ → List ℕ → List ℕ × Outcome (Unit {0}) → Type 0
Sends sent bytes (out, ok _) = out ≡ sent ++ bytes
Sends sent bytes (out, throw e) =
    (rest : List ℕ) × (sent ++ bytes ≡ out ++ rest) × (e ≡ io_exception)
Sends sent bytes (out, undefined) = (rest : List ℕ) × (sent ++ bytes ≡ out ++ rest)
Sends sent bytes (out, out_of_fuel) = (rest : List ℕ) × (sent ++ bytes ≡ out ++ rest)

split_at : (n : ℕ) (sent bytes : List ℕ) → (sent ++ take n bytes) ++ drop n bytes ≡ sent ++ bytes
split_at n sent bytes =
    append_assoc sent (take n bytes) (drop n bytes) ∙ ap (λ t. sent ++ t) (take_and_drop n bytes)

Sends-split :
    (n : ℕ) (sent bytes : List ℕ) (r : List ℕ × Outcome (Unit {0}))
    → Sends (sent ++ take n bytes) (drop n bytes) r
    → Sends sent bytes r
unfolding Sends
Sends-split n sent bytes (out, ok _) h = h ∙ split_at n sent bytes
Sends-split n sent bytes (out, throw e) (rest, h, i) = (rest, sym (split_at n sent bytes) ∙ h, i)
Sends-split n sent bytes (out, undefined) (rest, h) = (rest, sym (split_at n sent bytes) ∙ h)
Sends-split n sent bytes (out, out_of_fuel) (rest, h) = (rest, sym (split_at n sent bytes) ∙ h)

pub s_write-Sends :
    (answers : List Answer) (bytes sent : List ℕ) → Sends sent bytes (s_write answers bytes sent)
unfolding s_write Sends
s_write-Sends answers [] sent = sym (append-nil sent)
s_write-Sends [] (b ∷ bytes) sent = (b ∷ bytes, refl)
s_write-Sends (failed ∷ answers) (b ∷ bytes) sent = (b ∷ bytes, refl, refl)
s_write-Sends (took n ∷ answers) (b ∷ bytes) sent =
    if_both (Sends sent (b ∷ bytes)) (ltb (length (b ∷ bytes)) n) (b ∷ bytes, refl)
      (Sends-split n sent (b ∷ bytes) _
        (s_write-Sends answers (drop n (b ∷ bytes)) (sent ++ take n (b ∷ bytes))))

pub write-Sends :
    (answers : List Answer) (bytes sent : List ℕ) → Sends sent bytes (write answers bytes sent)
unfolding write
write-Sends = s_write-Sends

-- The call takes something or fails.
unfoldable pub Moves : Answer → Type 0
Moves (took n) = 0 < n
Moves failed = Unit

pub Returns : List ℕ × Outcome (Unit {0}) → Type 0
Returns (out, r) = r ≢ out_of_fuel

pub s_write-Returns :
    (answers : List Answer) (bytes sent : List ℕ)
    → All Moves answers
    → length bytes ≤ length answers
    → Returns (s_write answers bytes sent)
unfolding s_write Moves Returns
s_write-Returns answers [] sent h l = λ e. cc
s_write-Returns [] (b ∷ bytes) sent h l = absurd (omega arith)
s_write-Returns (failed ∷ answers) (b ∷ bytes) sent h l = λ e. cc
s_write-Returns (took n ∷ answers) (b ∷ bytes) sent (m, h) l =
    if_both Returns (ltb (length (b ∷ bytes)) n) (λ e. cc)
      (s_write-Returns answers (drop n (b ∷ bytes)) _ h (omega (arith, length-drop n (b ∷ bytes))))
