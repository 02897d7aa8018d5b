-- ===== src/Nio/Stream/Waits.antt =====
-- Waiting for bytes loses none and leaves the buffer alone (nodebus/nio/streamchannel.cpp).
use jsonbus.Prelude.{
  ℕ, ◌+◌, ◌-◌, ◌%◌, ◌^◌, ◌<◌, ◌≡◌, refl, ◌∙◌, true, false, not, ◌&&◌, List, [], ◌∷◌, ◌++◌, length,
  ◌==◌, Exception, eof_exception, Outcome, ok, throw, out_of_fuel, arith, append_assoc,
  length-append, Bool-cases, inl, inr, io_exception, io_timeout_exception, if_both,
}
use jsonbus.Nio.Stream.{
  io_exception, Edge, readable, hung_up, failed, Tick, idle, closes, expires, arrives, Kernel,
  StreamChannel, and_then, report, poll, poll_edges, wait_edges, pass, check_wait, wait_ticks, wait,
  s_available, int_to_size, wait_available, available, set_kernel,
}

-- All bytes that the ticks bring.
abbrev pub arrivals : List Tick → List ℕ
arrivals [] = []
arrivals (idle ∷ ticks) = arrivals ticks
arrivals (closes ∷ ticks) = arrivals ticks
arrivals (expires ∷ ticks) = arrivals ticks
arrivals (arrives edge bytes ∷ ticks) = bytes ++ arrivals ticks

-- What the kernel has and will have for the channel.
abbrev pub incoming : StreamChannel → List ℕ
incoming c = c.kernel.ready ++ arrivals c.kernel.ticks

pub record Same (c d : StreamChannel) : Type 0 where
  pub same_incoming : incoming d ≡ incoming c
  pub same_buff : d.read_buff ≡ c.read_buff
  pub same_start : d.read_start ≡ c.read_start
  pub same_end : d.read_end ≡ c.read_end

pub Same-refl : (c : StreamChannel) → Same c c
Same-refl c = record { same_incoming = refl; same_buff = refl; same_start = refl; same_end = refl }

pub Same-trans : {b c d : StreamChannel} → Same b c → Same c d → Same b d
Same-trans s t = record {
  same_incoming = t.same_incoming ∙ s.same_incoming;
  same_buff = t.same_buff ∙ s.same_buff;
  same_start = t.same_start ∙ s.same_start;
  same_end = t.same_end ∙ s.same_end;
}

-- A run ends with a result that satisfies `P`, throws, or waits for ever, and the bytes stay.
pub data Waits {A : Type 0} (P : StreamChannel → A → Type 0) (c : StreamChannel)
    : StreamChannel × Outcome A → Type 0 where
  done : (d : StreamChannel) (a : A) → Same c d → P d a → Waits P c (d, ok a)
  thrown : (d : StreamChannel) (e : Exception) → Same c d → Waits P c (d, throw e)
  stuck : (d : StreamChannel) → Same c d → Waits P c (d, out_of_fuel)

Waits-after :
    {A : Type 0} {P : StreamChannel → A → Type 0} {c d : StreamChannel}
    {r : StreamChannel × Outcome A}
    → Same c d
    → Waits P d r
    → Waits P c r
Waits-after s (done e a t p) = done e a (Same-trans s t) p
Waits-after s (thrown e x t) = thrown e x (Same-trans s t)
Waits-after s (stuck e t) = stuck e (Same-trans s t)

pub Waits-and_then :
    {A B : Type 0} {P : StreamChannel → A → Type 0} {Q : StreamChannel → B → Type 0}
    {c : StreamChannel} {r : StreamChannel × Outcome A}
    {k : A → StreamChannel → StreamChannel × Outcome B}
    → Waits P c r
    → ((a : A) (d : StreamChannel) → Same c d → P d a → Waits Q d (k a d))
    → Waits Q c (and_then r k)
Waits-and_then (done d a s p) next = Waits-after s (next a d s p)
Waits-and_then (thrown d e s) next = thrown d e s
Waits-and_then (stuck d s) next = stuck d s

-- No matter what the result is.
abbrev pub Any : {A : Type 0} → StreamChannel → A → Type 0
Any c a = Unit

report-Waits : (c d : StreamChannel) (edge : Edge) → Same c d → Waits Any c (d, report edge)
unfolding report
report-Waits c d readable s = done d true s tt
report-Waits c d hung_up s = thrown d eof_exception s
report-Waits c d failed s = thrown d io_exception s

kernel-Same :
    (c : StreamChannel) (k : Kernel)
    → k.ready ++ arrivals k.ticks ≡ incoming c
    → Same c (set_kernel k c)
kernel-Same c k e = record {
  same_incoming = e;
  same_buff = refl;
  same_start = refl;
  same_end = refl;
}

poll_edges-Waits : (edges : List Edge) (c : StreamChannel) → Waits Any c (poll_edges edges c)
unfolding poll_edges
poll_edges-Waits [] c = done c false (Same-refl c) tt
poll_edges-Waits (edge ∷ edges) c = report-Waits c _ edge (kernel-Same c _ refl)

poll-Waits : (c : StreamChannel) → Waits Any c (poll c)
unfolding poll
poll-Waits c = poll_edges-Waits c.kernel.edges c

pass-Waits :
    (tick : Tick) (ticks : List Tick) (c : StreamChannel)
    → c.kernel.ticks ≡ tick ∷ ticks
    → Waits (λ d _. d.kernel.ticks ≡ ticks) c (pass tick ticks c)
unfolding pass report
pass-Waits idle ticks c e = done _ false (kernel-Same c _ (rw e)) refl
pass-Waits closes ticks c e =
    done _ false
      (record { same_incoming = rw e; same_buff = refl; same_start = refl; same_end = refl }) refl
pass-Waits expires ticks c e =
    done _ false
      (record { same_incoming = rw e; same_buff = refl; same_start = refl; same_end = refl }) refl
pass-Waits (arrives readable bytes) ticks c e =
    done _ true (kernel-Same c _ (rw (e, append_assoc))) refl
pass-Waits (arrives hung_up bytes) ticks c e = thrown _ _ (kernel-Same c _ (rw (e, append_assoc)))
pass-Waits (arrives failed bytes) ticks c e = thrown _ _ (kernel-Same c _ (rw (e, append_assoc)))

check_wait-Waits : (c : StreamChannel) → Waits (λ d _. d ≡ c) c (c, check_wait c)
unfolding check_wait
check_wait-Waits c = elim (Bool-cases (not c.active)) [
  | inl t ↦ rw (check_wait, t) (thrown c eof_exception (Same-refl c))
  | inr f ↦ elim (Bool-cases (c.has_deadline && c.expired)) [
    | inl t ↦ rw (check_wait, f, t) (thrown c io_timeout_exception (Same-refl c))
    | inr g ↦ rw (check_wait, f, g) (done c tt (Same-refl c) refl)
  ]
]

wait_ticks-Waits :
    (ticks : List Tick) (c : StreamChannel)
    → c.kernel.ticks ≡ ticks
    → Waits Any c (wait_ticks ticks c)
unfolding wait_ticks
wait_ticks-Waits [] c e = stuck c (Same-refl c)
wait_ticks-Waits (tick ∷ ticks) c e = Waits-and_then (pass-Waits tick ticks c e) λ ready d s at.
    if_both (Waits Any d) ready (done d tt (Same-refl d) tt)
      (Waits-and_then (check_wait-Waits d) λ _ f t same. wait_ticks-Waits ticks f (rw same at))

wait_edges-Waits : (edges : List Edge) (c : StreamChannel) → Waits Any c (wait_edges edges c)
unfolding wait_edges
wait_edges-Waits [] c = wait_ticks-Waits c.kernel.ticks c refl
wait_edges-Waits (edge ∷ edges) c =
    Waits-and_then (report-Waits c _ edge (kernel-Same c _ refl))
      λ _ d s p. done d tt (Same-refl d) tt

s_available-Waits : (c : StreamChannel) → Waits (λ d n. n ≡ length d.kernel.ready) c (s_available c)
unfolding s_available
s_available-Waits c =
    Waits-and_then (poll-Waits c) λ _ d s p. done d (length d.kernel.ready) (Same-refl d) refl

-- Fewer than 2 ^ 31 bytes are on their way, so that no count becomes a negative int.
abbrev pub IsSmall : StreamChannel → Type 0
IsSmall c = length (incoming c) < 2 ^ 31

-- What `available(true)` gives: there is something, and it is counted.
abbrev pub Counted : StreamChannel → ℕ → Type 0
Counted c n = (n ≡ length c.kernel.ready) × (0 < n)

small_ready : (c : StreamChannel) → IsSmall c → length c.kernel.ready < 2 ^ 31
small_ready c h = let sum = length-append c.kernel.ready (arrivals c.kernel.ticks) in omega arith

int_to_size_small : (n : ℕ) → n < 2 ^ 31 → int_to_size n ≡ n
unfolding int_to_size
int_to_size_small n h = ground arith

Counted-some :
    (c : StreamChannel) (n : ℕ)
    → IsSmall c
    → n ≡ length c.kernel.ready
    → (n == 0) ≡ false
    → Waits Counted c (c, ok (int_to_size n))
Counted-some c n h e f =
    let small = small_ready c h in
    let same : int_to_size n ≡ n = int_to_size_small n (omega arith) in
    done c (int_to_size n) (Same-refl c) (same ∙ e, rw same (ground arith))

wait_available-Waits : (c : StreamChannel) → IsSmall c → Waits Counted c (wait_available c)
unfolding wait_available wait
wait_available-Waits c h = Waits-and_then (wait_edges-Waits c.kernel.edges c) λ _ d s p.
    Waits-and_then (s_available-Waits d) λ n f t e.
      let small : IsSmall f = rw (t.same_incoming, s.same_incoming) h in
      elim (Bool-cases (n == 0)) [
        | inl none_there ↦ rw none_there (thrown f eof_exception (Same-refl f))
        | inr some_there ↦ rw some_there (Counted-some f n small e some_there)
      ]

-- `available(true)` on a channel whose buffer is used up counts what is there, and that is something,
-- unless it throws or waits for ever; no byte is lost and the buffer stays.
pub available-Waits :
    (c : StreamChannel) → IsSmall c → c.read_end ≡ c.read_start → Waits Counted c (available true c)
unfolding available
available-Waits c h empty = Waits-and_then (s_available-Waits c) λ n d s e.
    let small : IsSmall d = rw s.same_incoming h in
    let used : n + (d.read_end - d.read_start) ≡ n = omega (arith, s.same_end, s.same_start) in
    let bound = small_ready d small in
    let cut : n % 2 ^ 32 ≡ n = omega arith in
    elim (Bool-cases (n == 0)) [
      | inl none_there ↦ rw (used, cut, none_there) (wait_available-Waits d small)
      | inr some_there ↦ rw (used, cut, some_there) (Counted-some d n small e some_there)
    ]
