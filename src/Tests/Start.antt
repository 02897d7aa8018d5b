-- ===== src/Tests/Start.antt =====
-- A start of the proxy with one address for each interface (nodebus/proxy/proxy.cpp).
use jsonbus.Prelude.{ℕ, ◌≡◌, refl, true, false, none, some, List, [], ◌∷◌, ok}
use jsonbus.Nio.Sockets.{
  socket, resolved, bind_host, bind_each, listen_bound, reuse_addr, mask_backlog, remove,
}
use jsonbus.Nio.Server.{new_server}
use jsonbus.Proxy.Keystore.{
  Keystore, Held, new_context, read_keystore, use_keystore, fill_context, add_authorities,
  session_id,
}
use jsonbus.Proxy.Keystore.Tidy.{IsTidy, new_context-IsTidy}
use jsonbus.Proxy.Start.{
  Outside, Starting, ProxySettings, on_start, open_interfaces, open_interface, open_urls, open_url,
  open_secure, open_plain, attach_server, add_server, ensure_context, format_of, split_commas,
  main_interface, console_interface,
}
use jsonbus.Proxy.Start.Servers.{IsStarted, on_start-IsStarted}

-- A keystore without a key.
abbrev keyless : Keystore
keyless = record {
  context = some 1;
  file = some 9;
  is_read = true;
  is_parsed = true;
  has_key = false;
  has_certificate = true;
  authorities = some [];
  uses_certificate = true;
  uses_key = true;
  key_fits = true;
  behind = [];
}

abbrev nothing_held : Held
nothing_held = record { contexts = []; files = []; objects = 0; session_ids = [] }

new_context-IsTidy_example : IsTidy nothing_held (new_context keyless nothing_held)
new_context-IsTidy_example = new_context-IsTidy keyless nothing_held

-- The addresses are `ssl` and `http`; every call of the system succeeds.
abbrev ssl_text : List ℕ
ssl_text = b's' ∷ b's' ∷ b'l' ∷ []

abbrev http_text : List ℕ
http_text = b'h' ∷ b't' ∷ b't' ∷ b'p' ∷ []

abbrev outside : Outside
outside = record {
  parse_url = λ t. record { scheme = t; host = b'h' ∷ []; port = none };
  decimals = λ _. b'0' ∷ [];
  resolve = λ _ _. resolved (socket 3 true true) [];
  listens = λ _. true;
  attaches = λ _. true;
  keystore = λ _ _. record keyless { has_key = true };
}

abbrev settings : ProxySettings
settings = record {
  edit_settings = false;
  main_uri = ssl_text;
  main_path = [];
  main_password = [];
  main_format = b'J' ∷ b'S' ∷ b'O' ∷ b'N' ∷ [];
  console_uri = http_text;
  console_path = [];
  console_password = [];
}

abbrev starting : Starting
starting = record {
  process = record { opened = []; watches = []; options = []; ssls = [] };
  held = nothing_held;
  servers = [];
}

on_start-IsStarted_example :
    IsStarted outside settings starting (on_start outside settings starting)
on_start-IsStarted_example = on_start-IsStarted outside settings starting

both_start : (on_start outside settings starting).1 ≡ ok tt
unfolding on_start open_interfaces open_interface open_urls open_url open_secure open_plain
    attach_server add_server ensure_context format_of split_commas main_interface console_interface
    new_server bind_host bind_each listen_bound reuse_addr mask_backlog new_context read_keystore
    use_keystore fill_context add_authorities session_id remove
both_start = refl
