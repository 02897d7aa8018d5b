-- ===== src/Nio/Selector.antt =====
-- nodebus/nio/selector.cpp, selectionkey.* and channel.cpp: which channels a selector waits for.
-- This is the registry of one selector: of the map `m_keys` of a channel only the entry of that selector
-- is kept. Channels and keys are known by numbers, which stand for their SharedPtr. The interest list of
-- epoll is part of the state: adding what is there and deleting what is not fails. The lock makes each
-- method a step.

pub mod Registry
pub mod Cancel
pub mod Select
use jsonbus.Prelude.{
  ◌*◌, ◌/◌, ◌||◌, null_pointer_exception, ℕ, suc, ◌+◌, ◌-◌, ◌%◌, ◌^◌, ◌==◌, Bool, true, false, not,
  ◌&&◌, List, [], ◌∷◌, ◌++◌, Option, none, some, if◌then◌else◌, Exception, io_exception, Outcome,
  ok, throw, out_of_fuel,
}
use jsonbus.Dict.{nat_eq, Dict, lookup, insert, remove, contains}

pub record SelectionKey : Type 0 where
  pub channel : Option ℕ
  pub events : ℕ
  pub attachment : ℕ

-- `at_end` is whether FIONREAD fails or counts nothing.
pub record Channel : Type 0 where
  pub fd : ℕ
  pub active : Bool
  pub at_end : Bool
  pub key : Option ℕ

-- `interrupted` is whether `errno` is EINTR, and `next_key` the number of the key that `new` gives next.
pub record Selector : Type 0 where
  pub enabled : Bool
  pub keys : Dict ℕ ℕ
  pub epoll : Dict ℕ ℕ
  pub pending : List ℕ
  pub interrupted : Bool
  pub key : ℕ → SelectionKey
  pub channel : ℕ → Channel
  pub next_key : ℕ

abbrev pub Step : Type 0
Step = Selector × Option Exception

abbrev pub update {ℓ} : {A : Type ℓ} → ℕ → A → (ℕ → A) → ℕ → A
update k a f j = if k == j then a else f j

abbrev pub and_then : Step → (Selector → Step) → Step
and_then (s, none) f = f s
and_then (s, some e) f = (s, some e)

abbrev pub set_key : ℕ → SelectionKey → Selector → Selector
set_key k x s = record s { key = update k x s.key }

abbrev pub set_channel : ℕ → Channel → Selector → Selector
set_channel ch x s = record s { channel = update ch x s.channel }

-- `epoll_ctl` with EPOLL_CTL_ADD, which fails on a descriptor that is not open, with EBADF, or that is there,
-- and with EPOLL_CTL_DEL. The limit of watches, ENOSPC, is not modelled.
unfoldable pub epoll_add : Bool → ℕ → ℕ → Selector → Step
unfolding contains
epoll_add open_fd fd events s =
    if not open_fd || contains fd s.epoll
    then (s, some io_exception)
    else (record s { epoll = insert fd events s.epoll }, none)

unfoldable pub epoll_del : ℕ → Selector → Step
unfolding contains
epoll_del fd s =
    if contains fd s.epoll
    then (record s { epoll = remove fd s.epoll }, none)
    else (s, some io_exception)

-- `put`, for a key of the channel `ch`, whose descriptor is open while it is active: the flag EPOLLET joins the two that `events` can have.
unfoldable pub put : ℕ → ℕ → ℕ → Selector → Step
unfolding epoll_add
put k ch events s =
    let fd = (s.channel ch).fd in
    epoll_add (s.channel ch).active fd (events + 2 ^ 31) (record s { keys = insert fd k s.keys })

-- `remove`, for a key of the channel `ch`
unfoldable pub remove_key : ℕ → Selector → Step
unfolding epoll_del
remove_key ch s = let fd = (s.channel ch).fd in epoll_del fd (record s { keys = remove fd s.keys })

-- `events & (OP_READ | OP_WRITE)`: EPOLLIN is 1 and EPOLLOUT is 4.
unfoldable pub flags : ℕ → ℕ
flags events = events % 2 + events / 4 % 2 * 4

-- The constructor of SelectionKey
unfoldable pub new_key : ℕ → ℕ → ℕ → Selector → Step
unfolding put flags
new_key ch events attachment s =
    let k = s.next_key in
    let s1 =
      set_key k (record { channel = some ch; events = 0; attachment = attachment })
        (record s { next_key = suc k }) in
    and_then (put k ch (flags events) s1)
      λ s2. (set_channel ch (record (s2.channel ch) { key = some k }) s2, none)

-- `isValid`, `isReadable` and `isWritable`
unfoldable pub is_valid : ℕ → Selector → Bool
is_valid k s = elim (s.key k).channel [ none ↦ false | some ch ↦ true ]

unfoldable pub is_readable : ℕ → Selector → Bool
is_readable k s = (s.key k).events % 2 == 1

unfoldable pub is_writable : ℕ → Selector → Bool
is_writable k s = (s.key k).events / 4 % 2 == 1

-- The last lines of `SelectionKey::cancel`.
unfoldable pub detach : ℕ → ℕ → Selector → Selector
detach k ch s =
    set_key k (record (s.key k) { channel = none })
      (set_channel ch (record (s.channel ch) { key = none }) s)

-- `SelectionKey::cancel`
unfoldable pub cancel : ℕ → Selector → Step
unfolding remove_key detach
cancel k s = elim (s.key k).channel [
  | none ↦ (s, none)
  | some ch ↦ and_then (remove_key ch s) λ s1. (detach k ch s1, none)
]

-- The keys of a channel are cancelled: of this selector there is at most one.
unfoldable pub cancel_all : ℕ → Selector → Step
unfolding cancel
cancel_all ch s = elim (s.channel ch).key [ none ↦ (s, none) | some k ↦ cancel k s ]

-- `Channel::registerTo`
unfoldable pub register_to : ℕ → ℕ → ℕ → Selector → Step
unfolding cancel_all new_key
register_to ch events attachment s =
    and_then (cancel_all ch s) λ s1. new_key ch events attachment s1

-- `Channel::keyFor`
unfoldable pub key_for : ℕ → Selector → Option ℕ
key_for ch s = (s.channel ch).key

-- `Channel::closeChannel`
unfoldable pub close_channel : ℕ → Selector → Step
unfolding cancel_all
close_channel ch s =
    if not (s.channel ch).active
    then (s, none)
    else cancel_all ch (set_channel ch (record (s.channel ch) { active = false }) s)

-- `IOChannel::updateStatus`: EPOLLIN is 1.
unfoldable pub update_status : ℕ → ℕ → Selector → Step
unfolding close_channel
update_status ch events s =
    if events % 2 == 1 && (s.channel ch).at_end then close_channel ch s else (s, none)

-- The loop of `select` takes the key `k` of the channel `ch` out.
unfoldable pub take_out : ℕ → ℕ → ℕ → ℕ → Selector → Step
unfolding update_status
take_out fd events k ch s =
    let s1 =
      set_channel ch (record (s.channel ch) { key = none })
        (record s { keys = remove fd s.keys }) in
    and_then (update_status ch events s1) λ s2. (
      record (set_key k (record (s2.key k) { events = events }) s2) {
        pending = s2.pending ++ k ∷ [];
      },
      none,
    )

-- What the loop of `select` does with a key; a key without a channel would be a null pointer.
unfoldable pub select_key : ℕ → ℕ → ℕ → Selector → Step
unfolding take_out
select_key fd events k s = elim (s.key k).channel [
  | none ↦ (s, some null_pointer_exception)
  | some ch ↦ take_out fd events k ch s
]

-- The body of the loop of `select` over the events.
unfoldable pub select_event : ℕ → ℕ → Selector → Step
unfolding epoll_del select_key
select_event fd events s =
    and_then (epoll_del fd s)
      λ s1. elim (lookup fd s1.keys) [ none ↦ (s1, none) | some k ↦ select_key fd events k s1 ]

unfoldable pub select_events : List (ℕ × ℕ) → Selector → Step
unfolding select_event
select_events [] s = (s, none)
select_events ((fd, events) ∷ rest) s = and_then (select_event fd events s) (select_events rest)

-- What a call of `epoll_wait` of one millisecond comes to: events, perhaps none, a signal, an error, or
-- `Selector::cancel` from another thread in front of it.
pub data Round : Type 0 where
  ready : List (ℕ × ℕ) → Round
  signal error disable : Round

-- A call of `select` ends, or it goes on for ever.
abbrev pub Selected : Type 0
Selected = Selector × Outcome Bool

abbrev pub ended : Step → Selected
ended (s, none) = (s, ok true)
ended (s, some e) = (s, throw e)

-- A round of the loop of `select`: it goes on, or it ends.
pub data Turn : Type 0 where
  goes_on counts_down : Turn
  ends : Outcome Bool → Turn

-- The test of `errno` comes in front of the one of `ret`.
unfoldable pub select_turn : Round → Selector → Selector × Turn
unfolding select_events
select_turn (ready events) s = if s.interrupted then (s, goes_on) else elim events [
  | [] ↦ (s, counts_down)
  | event ∷ rest ↦ let (s1, o) = ended (select_events (event ∷ rest) s) in (s1, ends o)
]
select_turn signal s = (record s { interrupted = true }, goes_on)
select_turn error s = (record s { interrupted = false }, ends (throw io_exception))
select_turn disable s = (record s { enabled = false }, goes_on)

-- The loop of `select`: an int counts down from `timeout`.
unfoldable pub select_loop : List Round → ℕ → Selector → Selected
unfolding select_turn
select_loop [] timeout s = if not s.enabled || timeout == 0 then (s, ok false) else (s, out_of_fuel)
select_loop (round ∷ rounds) timeout s =
    if not s.enabled || timeout == 0
    then (s, ok false)
    else let (s1, turn) = select_turn round s in
      elim turn [
        | goes_on ↦ select_loop rounds timeout s1
        | counts_down ↦ select_loop rounds ((timeout + (2 ^ 32 - 1)) % 2 ^ 32) s1
        | ends o ↦ (s1, o)
      ]

-- `select`
unfoldable pub select : List Round → ℕ → Selector → Selected
unfolding select_loop
select rounds timeout s = select_loop rounds timeout (record s { pending = [] })
