-- ===== src/Tests/Nio.antt =====
-- A channel that waits for two bytes and a selector with one channel (nodebus/nio).
use jsonbus.Prelude.{
  some, ℕ, sym, ◌≡◌, refl, true, false, none, [], ◌∷◌, ◌<◌, ◌≤◌, length, arith, ok,
}
use jsonbus.Nio.PeerAdmin.{PeerAdmin, connects, process_server}
use jsonbus.Nio.PeerAdmin.Serving.{IsNew, IsServed, process_server-IsServed}
use jsonbus.Dict.{lookup, insert}
use jsonbus.Nio.Stream.{
  int_to_size, StreamChannel, arrives, idle, readable, new_channel, get, read, ignore,
}
use jsonbus.Nio.Stream.Fifo.{IsValid, Takes, get-Takes, read-Takes, Ignores, ignore-Ignores}
use jsonbus.Nio.Stream.Liveness.{Ends, Anyhow, get-Ends}
use jsonbus.Nio.Selector.{key_for, Selector, register_to, select_events}
use jsonbus.Nio.Selector.Registry.{IsConsistent}
use jsonbus.Nio.Selector.Cancel.{Registered, register_to-Registered, IsAlone}
use jsonbus.Nio.Selector.Select.{
  SelectedKeys, Reported, none_left, next_one, select_events-Selected,
}

abbrev two_bytes : StreamChannel
two_bytes = new_channel (idle ∷ arrives readable (7 ∷ 8 ∷ []) ∷ [])

two_bytes-IsValid : IsValid two_bytes
unfolding new_channel
two_bytes-IsValid = record {
  in_order = omega arith;
  is_filled = refl;
  fits = omega arith;
  is_small = omega arith;
}

get-Takes_example : Takes (λ b. b ∷ []) (λ _ _. Unit) two_bytes (get two_bytes)
get-Takes_example = get-Takes two_bytes two_bytes-IsValid

ignore-Ignores_example : Ignores 1 two_bytes (ignore 1 two_bytes)
ignore-Ignores_example = ignore-Ignores 1 two_bytes two_bytes-IsValid

get-Ends_example : Ends Anyhow (get two_bytes)
unfolding new_channel
get-Ends_example = get-Ends two_bytes refl

get_seven : (get two_bytes).1 ≡ ok 7
unfolding get new_channel int_to_size
get_seven = refl

abbrev new_selector : Selector
new_selector = record {
  enabled = true;
  keys = [];
  epoll = [];
  pending = [];
  interrupted = false;
  key = λ _. record { channel = none; events = 0; attachment = 0 };
  channel = λ c. record { fd = c; active = true; at_end = false; key = none };
  next_key = 0;
}

new_selector-IsConsistent : IsConsistent new_selector
unfolding IsConsistent lookup
new_selector-IsConsistent = record {
  owned = λ f k e. ground (arith, e);
  listed = λ c k e. ground (arith, e);
  watched = λ f. refl;
  fresh = λ f k e. ground (arith, e);
}

new_selector-IsAlone : IsAlone 5 new_selector
unfolding IsAlone key_for
new_selector-IsAlone c k e f = ground (arith, e)

register_to-Registered_example : Registered 5 new_selector (register_to 5 1 0 new_selector)
register_to-Registered_example =
    register_to-Registered 5 1 0 new_selector new_selector-IsConsistent new_selector-IsAlone refl

-- The channel 5 is registered under the key 0.
abbrev one_channel : Selector
one_channel = (register_to 5 1 0 new_selector).0

one_channel-IsConsistent : IsConsistent one_channel
one_channel-IsConsistent =
    (register_to-Registered 5 1 0 new_selector new_selector-IsConsistent new_selector-IsAlone
      refl).is_consistent

one_channel-Reported : Reported ((5, 1) ∷ []) (0 ∷ []) one_channel.keys
unfolding register_to insert lookup
one_channel-Reported = next_one refl none_left

select_events-Selected_example :
    SelectedKeys (0 ∷ []) one_channel (select_events ((5, 1) ∷ []) one_channel)
select_events-Selected_example =
    select_events-Selected ((5, 1) ∷ []) (0 ∷ []) one_channel one_channel-IsConsistent
      one_channel-Reported

read-Takes_example :
    Takes
      (λ bytes. bytes)
      (λ _ bytes. (length bytes ≤ 2) × (0 < 2 → 0 < length bytes))
      two_bytes
      (read 2 two_bytes)
read-Takes_example = read-Takes 2 two_bytes two_bytes-IsValid

-- A thread that waits for the server 5, to which the channel 6 connects.
abbrev serving : PeerAdmin
serving = record { enabled = true; selector = one_channel; started = [] }

new_key_five : (c k : ℕ) → key_for c one_channel ≡ some k → c ≡ 5
unfolding register_to key_for
new_key_five c k e = ground (arith, e)

five-IsAlone : IsAlone 5 one_channel
unfolding IsAlone
five-IsAlone c k e f = sym (new_key_five c k e)

six-IsAlone : IsAlone 6 one_channel
unfolding IsAlone register_to
six-IsAlone c k e f = let m : c ≡ 5 = new_key_five c k e in ground (arith, m, f)

six-IsNew : IsNew 5 (connects 6 9) one_channel
unfolding IsNew register_to
six-IsNew = (six-IsAlone, refl, ground arith)

five_active : (one_channel.channel 5).active ≡ true
unfolding register_to
five_active = refl

process_server-IsServed_example :
    IsServed 5 (connects 6 9) (process_server (connects 6 9) 5 0 serving)
process_server-IsServed_example =
    process_server-IsServed (connects 6 9) 5 0 serving one_channel-IsConsistent five-IsAlone
      five_active six-IsNew
