-- ===== src/Nio/Stream/Liveness.antt =====
-- When a method of the channel ends (nodebus/nio/streamchannel.cpp).
use jsonbus.Prelude.{
  ℕ, zero, suc, ◌≡◌, refl, Bool, true, false, not, ◌&&◌, List, [], ◌∷◌, if◌then◌else◌, ◌==◌,
  Exception, eof_exception, io_exception, io_timeout_exception, Outcome, ok, throw, undefined,
  Bool-cases, if_both, inl, inr, length,
}
use jsonbus.Nio.Stream.{
  Edge, readable, hung_up, failed, Tick, idle, closes, expires, arrives, StreamChannel, and_then,
  report, poll, poll_edges, pass, check_wait, wait_ticks, wait_edges, wait, s_available, s_read,
  wait_available, available, fill_buf, check_buf, buff_at, get, set_kernel, int_to_size,
}

-- Something comes that ends a wait: bytes, a close, or the deadline, if there is one.
abbrev pub ends_wait : Bool → List Tick → Bool
ends_wait has_deadline [] = false
ends_wait has_deadline (idle ∷ ticks) = ends_wait has_deadline ticks
ends_wait has_deadline (closes ∷ ticks) = true
ends_wait has_deadline (expires ∷ ticks) =
    if has_deadline then true else ends_wait has_deadline ticks
ends_wait has_deadline (arrives edge bytes ∷ ticks) = true

abbrev pub IsLive : StreamChannel → Type 0
IsLive c = ends_wait c.has_deadline c.kernel.ticks ≡ true

-- A run that ends: with a result and `P`, with an exception, or undefined.
pub data Ends {A : Type 0} (P : StreamChannel → Type 0) : StreamChannel × Outcome A → Type 0 where
  gives : (d : StreamChannel) (a : A) → P d → Ends P (d, ok a)
  throws : (d : StreamChannel) (e : Exception) → Ends P (d, throw e)
  is_undefined : (d : StreamChannel) → Ends P (d, undefined)

Ends-and_then :
    {A B : Type 0} {P Q : StreamChannel → Type 0} {r : StreamChannel × Outcome A}
    {k : A → StreamChannel → StreamChannel × Outcome B}
    → Ends P r
    → ((a : A) (d : StreamChannel) → P d → Ends Q (k a d))
    → Ends Q (and_then r k)
Ends-and_then (gives d a p) next = next a d p
Ends-and_then (throws d e) next = throws d e
Ends-and_then (is_undefined d) next = is_undefined d

abbrev pub Anyhow : StreamChannel → Type 0
Anyhow d = Unit

report-Ends :
    {P : StreamChannel → Type 0} (d : StreamChannel) (edge : Edge) → P d → Ends P (d, report edge)
unfolding report
report-Ends d readable p = gives d true p
report-Ends d hung_up p = throws d eof_exception
report-Ends d failed p = throws d io_exception

poll-Ends : (edges : List Edge) (c : StreamChannel) → Ends Anyhow (poll_edges edges c)
unfolding poll_edges
poll-Ends [] c = gives c false tt
poll-Ends (edge ∷ edges) c = report-Ends _ edge tt

poll_edges-Ends :
    (edges : List Edge) (c : StreamChannel) → IsLive c → Ends IsLive (poll_edges edges c)
unfolding poll_edges
poll_edges-Ends [] c h = gives c false h
poll_edges-Ends (edge ∷ edges) c h = report-Ends _ edge h

s_available-Ends : (c : StreamChannel) → IsLive c → Ends IsLive (s_available c)
unfolding s_available poll
s_available-Ends c h =
    Ends-and_then (poll_edges-Ends c.kernel.edges c h) λ _ d p. gives d (length d.kernel.ready) p

check_wait-Ends :
    (c : StreamChannel)
    → Ends (λ d. (d ≡ c) × ((c.has_deadline && c.expired) ≡ false)) (c, check_wait c)
unfolding check_wait
check_wait-Ends c = elim (Bool-cases (not c.active)) [
  | inl t ↦ rw (check_wait, t) (throws c eof_exception)
  | inr f ↦ elim (Bool-cases (c.has_deadline && c.expired)) [
    | inl t ↦ rw (check_wait, f, t) (throws c io_timeout_exception)
    | inr g ↦ rw (check_wait, f, g) (gives c tt (refl, refl))
  ]
]

expires_live :
    (has_deadline : Bool) (ticks : List Tick)
    → ends_wait has_deadline (expires ∷ ticks) ≡ true
    → (has_deadline && true) ≡ false
    → ends_wait has_deadline ticks ≡ true
expires_live true ticks h e = cc
expires_live false ticks h e = h

wait_ticks-Ends :
    (ticks : List Tick) (c : StreamChannel)
    → ends_wait c.has_deadline ticks ≡ true
    → Ends Anyhow (wait_ticks ticks c)
unfolding wait_ticks pass report
wait_ticks-Ends [] c h = cc
wait_ticks-Ends (idle ∷ ticks) c h =
    Ends-and_then (check_wait-Ends (set_kernel (record c.kernel { ticks = ticks }) c))
      λ _ d p. wait_ticks-Ends ticks d (rw p.0 h)
wait_ticks-Ends (closes ∷ ticks) c h = unfold check_wait in throws _ eof_exception
wait_ticks-Ends (expires ∷ ticks) c h =
    Ends-and_then
      (check_wait-Ends (record c { kernel = record c.kernel { ticks = ticks }; expired = true }))
      λ _ d p. wait_ticks-Ends ticks d (rw p.0 (expires_live c.has_deadline ticks h p.1))
wait_ticks-Ends (arrives readable bytes ∷ ticks) c h = gives _ tt tt
wait_ticks-Ends (arrives hung_up bytes ∷ ticks) c h = throws _ eof_exception
wait_ticks-Ends (arrives failed bytes ∷ ticks) c h = throws _ io_exception

wait_edges-Ends :
    (edges : List Edge) (c : StreamChannel) → IsLive c → Ends Anyhow (wait_edges edges c)
unfolding wait_edges
wait_edges-Ends [] c h = wait_ticks-Ends c.kernel.ticks c h
wait_edges-Ends (edge ∷ edges) c h =
    Ends-and_then (report-Ends {P = Anyhow} _ edge tt) λ _ d p. gives d tt tt

s_available-Ends-Anyhow : (c : StreamChannel) → Ends Anyhow (s_available c)
unfolding s_available poll poll_edges
s_available-Ends-Anyhow c =
    Ends-and_then (poll-Ends c.kernel.edges c) λ _ d p. gives d (length d.kernel.ready) tt

wait_available-Ends : (c : StreamChannel) → IsLive c → Ends Anyhow (wait_available c)
unfolding wait_available wait
wait_available-Ends c h = Ends-and_then (wait_edges-Ends c.kernel.edges c h) λ _ d p.
    Ends-and_then (s_available-Ends-Anyhow d)
      λ n e q. if_both (Ends Anyhow) (n == 0) (throws e eof_exception) (gives e (int_to_size n) tt)

available-Ends :
    (no_empty : Bool) (c : StreamChannel) → IsLive c → Ends Anyhow (available no_empty c)
unfolding available
available-Ends no_empty c h =
    Ends-and_then (s_available-Ends c h)
      λ n d p. if_both (Ends Anyhow) _ (wait_available-Ends d p) (gives d _ tt)

fill_buf-Ends : (c : StreamChannel) → IsLive c → Ends Anyhow (fill_buf c)
unfolding fill_buf s_read
fill_buf-Ends c h = Ends-and_then (available-Ends true c h) λ n d p. gives _ tt tt

buff_at-Ends : (i : ℕ) (bytes : List ℕ) (c : StreamChannel) → Ends Anyhow (c, buff_at i bytes)
unfolding buff_at
buff_at-Ends i [] c = is_undefined c
buff_at-Ends zero (b ∷ bytes) c = gives c b tt
buff_at-Ends (suc i) (b ∷ bytes) c = buff_at-Ends i bytes c

-- Where something comes that ends a wait (bytes, a close, or the deadline, if there is one), `get` does
-- not wait for ever.
pub get-Ends : (c : StreamChannel) → IsLive c → Ends Anyhow (get c)
unfolding get check_buf
get-Ends c h =
    Ends-and_then
      (if_both (Ends Anyhow) (c.read_end == c.read_start) (fill_buf-Ends c h) (gives c tt tt))
      λ _ d p. Ends-and_then (buff_at-Ends d.read_start d.read_buff d) λ b e q. gives _ b tt
