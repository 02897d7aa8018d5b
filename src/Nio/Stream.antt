-- ===== src/Nio/Stream.antt =====
-- nodebus/nio/streamchannel.* and iochannel.*: a buffered channel over a descriptor.
-- What the kernel does while the channel waits is a list of ticks of 100 ms each. A method gives the
-- channel that it leaves and how it ended; a wait that nothing ever ends is `out_of_fuel`. The numbers
-- of bytes are cut to an int where the source does so.
pub mod Waits
pub mod Fifo
pub mod Liveness
use jsonbus.Prelude.{
  ℕ, zero, suc, ◌+◌, ◌-◌, ◌%◌, ◌^◌, min, Bool, true, false, not, ◌&&◌, List, [], ◌∷◌, ◌++◌, length,
  take, drop, if◌then◌else◌, ltb, ◌==◌, Exception, io_exception, eof_exception,
  io_timeout_exception, Outcome, ok, throw, undefined, out_of_fuel,
}

-- An edge that epoll reports.
pub data Edge : Type 0 where
  readable hung_up failed : Edge

-- What happens in a tick: nothing, bytes that come with an edge, another thread that closes the
-- channel, or the deadline that passes.
pub data Tick : Type 0 where
  idle closes expires : Tick
  arrives : Edge → List ℕ → Tick

-- `ready` is what FIONREAD counts; `edges` is what epoll has not reported yet.
pub record Kernel : Type 0 where
  pub ready : List ℕ
  pub edges : List Edge
  pub ticks : List Tick

-- `expired` is whether the time is past `m_deadline`.
pub record StreamChannel : Type 0 where
  pub kernel : Kernel
  pub active : Bool
  pub has_deadline : Bool
  pub expired : Bool
  pub read_buff : List ℕ
  pub read_start : ℕ
  pub read_end : ℕ

abbrev pub Cmd : Type 0 → Type 0
Cmd A = StreamChannel → StreamChannel × Outcome A

abbrev pub and_then :
    {A B : Type 0} → StreamChannel × Outcome A → (A → Cmd B) → StreamChannel × Outcome B
and_then (c, ok a) k = k a c
and_then (c, throw e) k = (c, throw e)
and_then (c, undefined) k = (c, undefined)
and_then (c, out_of_fuel) k = (c, out_of_fuel)

infixl 1 ◌>>=◌
abbrev pub ◌>>=◌ : {A B : Type 0} → Cmd A → (A → Cmd B) → Cmd B
◌>>=◌ m k c = and_then (m c) k

abbrev pub pure : {A : Type 0} → A → Cmd A
pure a c = (c, ok a)

abbrev pub set_kernel : Kernel → StreamChannel → StreamChannel
set_kernel k c = record c { kernel = k }

-- The constructor, on a descriptor that was just opened.
unfoldable pub new_channel : List Tick → StreamChannel
new_channel ticks = record {
  kernel = record { ready = []; edges = []; ticks = ticks };
  active = true;
  has_deadline = false;
  expired = false;
  read_buff = [];
  read_start = 0;
  read_end = 0;
}

-- What `s_waitForReadyRead` makes of an event.
unfoldable pub report : Edge → Outcome Bool
report readable = ok true
report hung_up = throw eof_exception
report failed = throw io_exception

-- The next edge, if there is one.
unfoldable pub poll_edges : List Edge → Cmd Bool
unfolding report
poll_edges [] c = (c, ok false)
poll_edges (edge ∷ edges) c = (set_kernel (record c.kernel { edges = edges }) c, report edge)

-- `s_waitForReadyRead(0)`
unfoldable pub poll : Cmd Bool
unfolding poll_edges
poll c = poll_edges c.kernel.edges c

-- A tick that passes while the channel waits.
unfoldable pub pass : Tick → List Tick → StreamChannel → StreamChannel × Outcome Bool
unfolding report
pass idle ticks c = (set_kernel (record c.kernel { ticks = ticks }) c, ok false)
pass closes ticks c =
    (record c { kernel = record c.kernel { ticks = ticks }; active = false }, ok false)
pass expires ticks c =
    (record c { kernel = record c.kernel { ticks = ticks }; expired = true }, ok false)
pass (arrives edge bytes) ticks c =
    (set_kernel (record c.kernel { ready = c.kernel.ready ++ bytes; ticks = ticks }) c, report edge)

-- The body of the loops of `available`, behind a wait that reported nothing.
unfoldable pub check_wait : StreamChannel → Outcome (Unit {0})
check_wait c =
    if not c.active
    then throw eof_exception
    else if c.has_deadline && c.expired
    then throw io_timeout_exception
    else ok tt

-- The loops of `available` over the ticks, once no edge is left.
unfoldable pub wait_ticks : List Tick → Cmd (Unit {0})
unfolding pass check_wait
wait_ticks [] c = (c, out_of_fuel)
wait_ticks (tick ∷ ticks) c = and_then (pass tick ticks c) λ ready c1.
    if ready then (c1, ok tt) else and_then (c1, check_wait c1) λ _ c2. wait_ticks ticks c2

-- The loops of `available`: an edge that is there is reported at once.
unfoldable pub wait_edges : List Edge → Cmd (Unit {0})
unfolding report wait_ticks
wait_edges [] c = wait_ticks c.kernel.ticks c
wait_edges (edge ∷ edges) c =
    and_then (set_kernel (record c.kernel { edges = edges }) c, report edge) λ _ c1. (c1, ok tt)

unfoldable pub wait : Cmd (Unit {0})
unfolding wait_edges
wait c = wait_edges c.kernel.edges c

-- `s_available`
unfoldable pub s_available : Cmd ℕ
unfolding poll
s_available c = and_then (poll c) λ _ c1. (c1, ok (length c1.kernel.ready))

-- `s_read`: what `::read` takes. Its callers read bytes that FIONREAD counted, and `::read` is taken not to
-- fail on these.
unfoldable pub s_read : ℕ → Cmd (List ℕ)
s_read maxlen c = (
  set_kernel (record c.kernel { ready = drop maxlen c.kernel.ready }) c,
  ok (take maxlen c.kernel.ready),
)

-- An int that becomes a size_t.
unfoldable pub int_to_size : ℕ → ℕ
int_to_size n = if ltb (n % 2 ^ 32) (2 ^ 31) then n % 2 ^ 32 else n % 2 ^ 32 + (2 ^ 64 - 2 ^ 32)

-- The end of `available`: nothing is there, and that is not allowed.
unfoldable pub wait_available : Cmd ℕ
unfolding wait s_available
wait_available c = and_then (wait c) λ _ c1.
    and_then (s_available c1)
      λ n c2. if n == 0 then (c2, throw eof_exception) else (c2, ok (int_to_size n))

-- `available`
unfoldable pub available : Bool → Cmd ℕ
unfolding s_available wait_available
available no_empty c = and_then (s_available c) λ n c1.
    if no_empty && (n + (c1.read_end - c1.read_start)) % 2 ^ 32 == 0
    then wait_available c1
    else (c1, ok (int_to_size (n + (c1.read_end - c1.read_start))))

-- `checkBuf`, where the buffer is used up.
unfoldable pub fill_buf : Cmd (Unit {0})
unfolding available s_read
fill_buf c = and_then (available true c) λ n c1.
    and_then (s_read (min n 64) c1)
      λ bytes c2. (record c2 { read_buff = bytes; read_end = length bytes; read_start = 0 }, ok tt)

-- `checkBuf`
unfoldable pub check_buf : Cmd (Unit {0})
unfolding fill_buf
check_buf c = if c.read_end == c.read_start then fill_buf c else (c, ok tt)

-- `m_readBuff[i]`: what was not read into the buffer has no value.
unfoldable pub buff_at : ℕ → List ℕ → Outcome ℕ
buff_at i [] = undefined
buff_at zero (b ∷ bytes) = ok b
buff_at (suc i) (b ∷ bytes) = buff_at i bytes

-- `get`
unfoldable pub get : Cmd ℕ
unfolding check_buf buff_at
get c = and_then (check_buf c) λ _ c1.
    and_then (c1, buff_at c1.read_start c1.read_buff)
      λ b c2. (record c2 { read_start = c2.read_start + 1 }, ok b)

-- `peek`
unfoldable pub peek : Cmd ℕ
unfolding check_buf buff_at
peek c = and_then (check_buf c) λ _ c1. (c1, buff_at c1.read_start c1.read_buff)

-- `ignore`
unfoldable pub ignore : ℕ → Cmd (Unit {0})
unfolding get
ignore zero c = (c, ok tt)
ignore (suc len) c = and_then (get c) λ _ c1. ignore len c1

-- `read` from the buffer.
unfoldable pub read_buffered : ℕ → Cmd (List ℕ)
read_buffered maxlen c =
    let count = min (c.read_end - c.read_start) maxlen in
    (
      record c { read_start = c.read_start + count },
      ok (take count (drop c.read_start c.read_buff)),
    )

-- `read` from the descriptor.
unfoldable pub read_direct : ℕ → Cmd (List ℕ)
unfolding available s_read
read_direct maxlen c = and_then (available true c) λ n c1. s_read (min n maxlen) c1

-- `read`
unfoldable pub read : ℕ → Cmd (List ℕ)
unfolding read_buffered read_direct
read maxlen c = if c.read_end == c.read_start then read_direct maxlen c else read_buffered maxlen c
