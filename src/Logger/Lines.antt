-- ===== src/Logger/Lines.antt =====
-- The lines of a log entry: what stands in front of each, and that nothing of the message is lost.
use mathlib.Core.Path.{subst}
use jsonbus.Prelude.{
  inr, inl, ℕ, ◌≡◌, ◌≢◌, refl, sym, ap, ◌∙◌, List, [], ◌∷◌, ◌++◌, append_assoc, append-nil, ◌==◌,
  if◌then◌else◌, ==_iff, Bool-cases, All, arith,
}
use jsonbus.Logger.{Logger, stream, replace_breaks}

-- A message as it is printed: each of its line breaks is followed by the header and the next of the times.
pub data Shows (header : List ℕ) : List (List ℕ) → List ℕ → List ℕ → Type 0 where
  done : Shows header [] [] []
  same :
      {c : ℕ} {ts : List (List ℕ)} {p t : List ℕ}
      → c ≢ b'\n'
      → Shows header ts p t
      → Shows header ts (c ∷ p) (c ∷ t)
  line :
      {ts : List (List ℕ)} {p t : List ℕ} (time : List ℕ)
      → Shows header ts p t
      → Shows header (time ∷ ts) (b'\n' ∷ p) (b'\n' ∷ header ++ (time ++ t))

-- A time for each line break of a text.
unfoldable pub break_times : List ℕ → List ℕ → List (List ℕ)
break_times now [] = []
break_times now (c ∷ cs) = let rest = break_times now cs in if c == b'\n' then now ∷ rest else rest

pub Shows-append :
    {h p q t u : List ℕ} {ts us : List (List ℕ)}
    → Shows h ts p t
    → Shows h us q u
    → Shows h (ts ++ us) (p ++ q) (t ++ u)
Shows-append done g = g
Shows-append (same n f) g = same n (Shows-append f g)
Shows-append {h} {q = q} {u = u} {us = us} (line {ts = ts} {p = p} {t = t} time f) g =
    subst (λ x. Shows h (time ∷ (ts ++ us)) (b'\n' ∷ (p ++ q)) (b'\n' ∷ x))
      (sym (append_assoc h (time ++ t) u ∙ ap (λ x. h ++ x) (append_assoc time t u)))
      (line time (Shows-append f g))

unfoldable pub IsPlain : List ℕ → Type 0
IsPlain = All (λ c. c ≢ b'\n')

pub IsPlain-Shows : {h : List ℕ} (t : List ℕ) → IsPlain t → Shows h [] t t
unfolding IsPlain
IsPlain-Shows [] _ = done
IsPlain-Shows (c ∷ t) (n, h) = same n (IsPlain-Shows t h)

pub IsPlain-append : (t u : List ℕ) → IsPlain t → IsPlain u → IsPlain (t ++ u)
unfolding IsPlain
IsPlain-append [] u h k = k
IsPlain-append (c ∷ t) u (n, h) k = (n, IsPlain-append t u h k)

pub replace_breaks-Shows :
    (h now t : List ℕ) → Shows h (break_times now t) t (replace_breaks (b'\n' ∷ h ++ now) t)
unfolding replace_breaks break_times
replace_breaks-Shows h now [] = done
replace_breaks-Shows h now (c ∷ t) = elim (Bool-cases (c == b'\n')) [
  | inl breaks ↦
      rw (breaks, (==_iff c b'\n').0 breaks, append_assoc h now)
        (line now (replace_breaks-Shows h now t))
  | inr keeps ↦ rw keeps (same (λ e. ground arith) (replace_breaks-Shows h now t))
]

-- The message was written behind the buffer with these times, and the header stayed.
pub record Writes (ts : List (List ℕ)) (p : List ℕ) (l m : Logger) : Type 0 where
  pub same_header : m.header ≡ l.header
  pub written : List ℕ
  pub behind : m.buffer ≡ l.buffer ++ written
  pub shown : Shows l.header ts p written

pub Writes-append :
    {ts us : List (List ℕ)} {p q : List ℕ} {l m n : Logger}
    → Writes ts p l m
    → Writes us q m n
    → Writes (ts ++ us) (p ++ q) l n
Writes-append {us = us} {q = q} {l = l} {m = m} f g = record {
  same_header = g.same_header ∙ f.same_header;
  written = f.written ++ g.written;
  behind = g.behind ∙ ap (λ b. b ++ g.written) f.behind ∙ append_assoc l.buffer f.written g.written;
  shown = Shows-append f.shown (subst (λ h. Shows h us q g.written) f.same_header g.shown);
}

pub stream-Writes :
    {ts : List (List ℕ)} {p : List ℕ} (t : List ℕ) (l : Logger)
    → Shows l.header ts p t
    → Writes ts p l (stream t l)
stream-Writes t l h = record { same_header = refl; written = t; behind = refl; shown = h }

pub unchanged-Writes : (l : Logger) → Writes [] [] l l
unchanged-Writes l = record {
  same_header = refl;
  written = [];
  behind = sym (append-nil l.buffer);
  shown = done;
}
