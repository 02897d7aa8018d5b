-- ===== src/Nio/PeerAdmin.antt =====
-- nodebus/nio/peeradmin.cpp: the thread that accepts connections and hands peers to the thread pool.
-- A channel, a peer and a factory are known by the numbers of the selector's channels and attachments.
-- Messages to the log are left out. What `accept` and the factory come to is an argument, and so is
-- `Peer::isActive`, which asks `QIODevice::isOpen`.
pub mod Serving
use jsonbus.Prelude.{
  ℕ, ◌-◌, ◌^◌, Bool, true, false, not, ◌&&◌, List, [], ◌∷◌, ◌++◌, Option, none, some, if◌then◌else◌,
  Exception, Outcome, ok, throw, undefined, out_of_fuel,
}
use jsonbus.Nio.Selector.{Selector, Step, Round, select, register_to, is_valid}

-- What `instanceof` tells of a channel.
pub data Kind : Type 0 where
  server peer_socket other_channel : Kind

-- `ServerSocketChannel::accept` and `Factory::build`: a channel with the peer that is built for it, or an
-- exception of one of them.
pub data Accepted : Type 0 where
  connects : ℕ → ℕ → Accepted
  fails : Exception → Accepted

-- `started` lists the peers whose tasks were given to the thread pool.
pub record PeerAdmin : Type 0 where
  pub enabled : Bool
  pub selector : Selector
  pub started : List ℕ

abbrev pub Turned : Type 0
Turned = PeerAdmin × Option Exception

abbrev pub set_selector : PeerAdmin → Step → Turned
set_selector a (s, e) = (record a { selector = s }, e)

-- `attach`
unfoldable pub attach : ℕ → ℕ → PeerAdmin → Turned
unfolding register_to
attach channel attachment a = set_selector a (register_to channel 1 attachment a.selector)

-- `cancel`
unfoldable pub cancel : PeerAdmin → PeerAdmin
cancel a = record a { enabled = false; selector = record (a.selector) { enabled = false } }

-- The try block of `processServer`: its exceptions are caught.
unfoldable pub accept : Accepted → Selector → Selector
unfolding register_to
accept (connects channel peer) s = (register_to channel 1 peer s).0
accept (fails e) s = s

-- `processServer`
unfoldable pub process_server : Accepted → ℕ → ℕ → PeerAdmin → Turned
unfolding accept register_to
process_server accepted socket factory a =
    set_selector a (register_to socket 1 factory (accept accepted a.selector))

abbrev pub ended : Turned → PeerAdmin × Outcome (Unit {0})
ended (a, none) = (a, ok tt)
ended (a, some e) = (a, throw e)

module _ (kind : ℕ → Kind) (is_active : ℕ → Bool) (accepting : ℕ → Accepted) where
  -- `processPeer`
  unfoldable pub process_peer : ℕ → PeerAdmin → PeerAdmin
  process_peer peer a = if is_active peer then record a { started = a.started ++ peer ∷ [] } else a

  unfoldable pub process_channel : ℕ → ℕ → PeerAdmin → Turned
  unfolding process_server process_peer
  process_channel channel attachment a = elim (kind channel) [
    | server ↦ process_server (accepting channel) channel attachment a
    | peer_socket ↦ (process_peer attachment a, none)
    | other_channel ↦ (a, none)
  ]

  -- The body of the loop of `run` over the keys.
  unfoldable pub process_key : ℕ → PeerAdmin → Turned
  unfolding process_channel
  process_key k a = elim (a.selector.key k).channel [
    | none ↦ (a, none)
    | some channel ↦ process_channel channel (a.selector.key k).attachment a
  ]

  unfoldable pub process_keys : List ℕ → PeerAdmin → Turned
  unfolding process_key
  process_keys [] a = (a, none)
  process_keys (k ∷ ks) a =
      let (a1, e) = process_key k a in elim e [ none ↦ process_keys ks a1 | some x ↦ (a1, some x) ]

  -- A round of the loop of `run`, with what the calls of epoll_wait in `select` come to.
  unfoldable pub run_turn : List Round → PeerAdmin → PeerAdmin × Outcome (Unit {0})
  unfolding select process_keys
  run_turn rounds a =
      let (s, o) = select rounds (2 ^ 32 - 1) a.selector in
      let a1 = record a { selector = s } in
      elim o [
        | ok selected ↦
            if selected && a1.enabled then ended (process_keys s.pending a1) else (a1, ok tt)
        | throw e ↦ (a1, throw e)
        | undefined ↦ (a1, undefined)
        | out_of_fuel ↦ (a1, out_of_fuel)
      ]

  -- `run`: an exception ends the loop and is caught.
  unfoldable pub run : List (List Round) → PeerAdmin → PeerAdmin × Outcome (Unit {0})
  unfolding run_turn cancel
  run [] a = if a.enabled then (a, out_of_fuel) else (cancel a, ok tt)
  run (rounds ∷ rest) a =
      if not a.enabled
      then (cancel a, ok tt)
      else let (a1, o) = run_turn rounds a in
        elim o [
          | ok u ↦ run rest a1
          | throw e ↦ (cancel a1, ok tt)
          | undefined ↦ (a1, undefined)
          | out_of_fuel ↦ (a1, out_of_fuel)
        ]
