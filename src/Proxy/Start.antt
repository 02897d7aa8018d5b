-- ===== src/Proxy/Start.antt =====
-- `Proxy::onStart` of nodebus/proxy/proxy.cpp: the servers of the proxy's two interfaces. QUrl is an
-- argument, and so is what the system and OpenSSL answer to the constructors of servers and contexts.
pub mod Turns
pub mod Interfaces
pub mod Servers
use jsonbus.Prelude.{
  ℕ, Bool, true, false, Option, none, some, List, [], ◌∷◌, ◌++◌, ◌==◌, if◌then◌else◌, is_empty,
  application_exception, io_exception, exit_application_exception, Exception, Outcome, ok, throw,
  undefined, out_of_fuel,
}
use jsonbus.Dict.{text_same}
use jsonbus.Nio.Sockets.{Process, Lookup}
use jsonbus.Nio.Server.{
  ServerSocketChannel, new_server, set_keep_alive, set_keep_intlv, set_keep_idle, set_keep_cnt,
}
use jsonbus.Proxy.{FileFormat, json, bson, bcon}
use jsonbus.Proxy.Keystore.{Keystore, Held, new_context}

pub record Url : Type 0 where
  pub scheme : List ℕ
  pub host : List ℕ
  pub port : Option ℕ

-- What lies outside: QUrl, the decimals of a port, the resolver with the answers to the sockets, `listen`,
-- whether `epoll_ctl` takes a server's descriptor when it is attached,
-- and the answers to opening the keystore of a path with a password.
pub record Outside : Type 0 where
  pub parse_url : List ℕ → Url
  pub decimals : ℕ → List ℕ
  pub resolve : List ℕ → ℕ → Lookup
  pub listens : ℕ → Bool
  pub attaches : ℕ → Bool
  pub keystore : List ℕ → List ℕ → Keystore

-- `StdPeer::Factory` with its format and `HttpPeer::Factory`.
pub data Factory : Type 0 where
  std_peers : FileFormat → Factory
  http_peers : Factory

-- A server that `m_socketAdmin` has, with the TLS context of an SSLServerSocketChannel.
pub record Attached : Type 0 where
  pub server : ServerSocketChannel
  pub context : Option ℕ
  pub factory : Factory

pub record Starting : Type 0 where
  pub process : Process
  pub held : Held
  pub servers : List Attached

abbrev pub Cmd : Type 0 → Type 0
Cmd A = Starting → Starting × Outcome A

abbrev pub and_then : {A B : Type 0} → Starting × Outcome A → (A → Cmd B) → Starting × Outcome B
and_then (s, ok a) k = k a s
and_then (s, throw e) k = (s, throw e)
and_then (s, undefined) k = (s, undefined)
and_then (s, out_of_fuel) k = (s, out_of_fuel)

-- What the two loops over addresses differ in. `tune` is what is set on a server.
pub record Interface : Type 0 where
  pub secure : List ℕ
  pub plain : List ℕ
  pub default_port : ℕ
  pub path : List ℕ
  pub password : List ℕ
  pub factory : Factory
  pub tune : ServerSocketChannel → ServerSocketChannel

-- `OPT_BACKLOG(5) | OPT_REUSEADDR`
abbrev pub server_options : ℕ
server_options = 131077

abbrev pub port_or : ℕ → Option ℕ → ℕ
port_or n none = n
port_or n (some p) = p

abbrev in_process : {A : Type 0} → Starting → Process × Outcome A → Starting × Outcome A
in_process s (p, o) = (record s { process = p }, o)

abbrev in_held : {A : Type 0} → Starting → Held × Outcome A → Starting × Outcome A
in_held s (h, o) = (record s { held = h }, o)

-- `attach`, which throws where the selector cannot register the server, and the options that are set on the
-- same object behind that. A server whose key the selector kept stays open.
unfoldable pub add_server : Outside → Interface → Option ℕ → ServerSocketChannel → Cmd (Unit {0})
add_server out i context server s =
    if out.attaches server.fd
    then (
      record s {
        servers =
            s.servers
            ++ record { server = i.tune server; context = context; factory = i.factory } ∷ [];
      },
      ok tt,
    )
    else (s, throw io_exception)

-- A server is made and attached.
unfoldable pub attach_server : Outside → Interface → Url → Option ℕ → Cmd (Unit {0})
unfolding new_server add_server
attach_server out i url context s =
    let port = port_or i.default_port url.port in
    and_then
      (in_process s (
        new_server out.listens (out.resolve url.host port) url.host (out.decimals port)
          server_options s.process))
      (add_server out i context)

-- `sslCtx`, which is made where it is still null.
unfoldable pub ensure_context : Outside → Interface → Option ℕ → Cmd ℕ
unfolding new_context
ensure_context out i (some c) s = (s, ok c)
ensure_context out i none s = in_held s (new_context (out.keystore i.path i.password) s.held)

-- The branches of the loops: a server over TLS, and one without.
unfoldable pub open_secure : Outside → Interface → Url → Option ℕ → Cmd (Option ℕ)
unfolding attach_server ensure_context
open_secure out i url ctx s =
    and_then (ensure_context out i ctx s)
      λ c t. and_then (attach_server out i url (some c) t) λ _ u. (u, ok (some c))

unfoldable pub open_plain : Outside → Interface → Url → Option ℕ → Cmd (Option ℕ)
unfolding attach_server
open_plain out i url ctx s = and_then (attach_server out i url none s) λ _ t. (t, ok ctx)

-- A turn of the loop, with the `sslCtx` that it leaves.
unfoldable pub open_url : Outside → Interface → Url → Option ℕ → Cmd (Option ℕ)
unfolding open_secure open_plain
open_url out i url ctx s =
    if text_same url.scheme i.secure
    then open_secure out i url ctx s
    else if text_same url.scheme i.plain
    then open_plain out i url ctx s
    else (s, throw application_exception)

-- One of the loops.
unfoldable pub open_urls : Outside → Interface → List (List ℕ) → Option ℕ → Cmd (Unit {0})
unfolding open_url
open_urls out i [] ctx s = (s, ok tt)
open_urls out i (u ∷ urls) ctx s =
    and_then (open_url out i (out.parse_url u) ctx s) λ c. open_urls out i urls c

-- `split(',')`, which gives a list of one empty text for an empty text.
unfoldable pub split_commas : List ℕ → List (List ℕ)
split_commas [] = [] ∷ []
split_commas (c ∷ cs) = elim (split_commas cs) [
  | [] ↦ [] ∷ []
  | w ∷ ws ↦ if c == b',' then [] ∷ w ∷ ws else (c ∷ w) ∷ ws
]

-- The settings, with what is asked for them on the command line.
pub record ProxySettings : Type 0 where
  pub edit_settings : Bool
  pub main_uri : List ℕ
  pub main_path : List ℕ
  pub main_password : List ℕ
  pub main_format : List ℕ
  pub console_uri : List ℕ
  pub console_path : List ℕ
  pub console_password : List ℕ

-- The test of `intf-main/format`.
unfoldable pub format_of : List ℕ → Outcome FileFormat
format_of name =
    if text_same name (b'J' ∷ b'S' ∷ b'O' ∷ b'N' ∷ [])
    then ok json
    else if text_same name (b'B' ∷ b'S' ∷ b'O' ∷ b'N' ∷ [])
    then ok bson
    else if text_same name (b'B' ∷ b'C' ∷ b'O' ∷ b'N' ∷ [])
    then ok bcon
    else throw application_exception

-- What the first loop sets on its servers.
unfoldable pub tune_main : ServerSocketChannel → ServerSocketChannel
unfolding set_keep_alive set_keep_intlv set_keep_idle set_keep_cnt
tune_main s = set_keep_cnt 5 (set_keep_idle 600 (set_keep_intlv 60 (set_keep_alive true s)))

-- The first loop: `ssl` and `socket` on the port 3693.
unfoldable pub main_interface : ProxySettings → FileFormat → Interface
unfolding tune_main
main_interface p format = record {
  secure = b's' ∷ b's' ∷ b'l' ∷ [];
  plain = b's' ∷ b'o' ∷ b'c' ∷ b'k' ∷ b'e' ∷ b't' ∷ [];
  default_port = 3693;
  path = p.main_path;
  password = p.main_password;
  factory = std_peers format;
  tune = tune_main;
}

-- The second loop: `https` and `http` on the port 3695.
unfoldable pub console_interface : ProxySettings → Interface
console_interface p = record {
  secure = b'h' ∷ b't' ∷ b't' ∷ b'p' ∷ b's' ∷ [];
  plain = b'h' ∷ b't' ∷ b't' ∷ b'p' ∷ [];
  default_port = 3695;
  path = p.console_path;
  password = p.console_password;
  factory = http_peers;
  tune = λ s. s;
}

-- One interface, behind the test of its list of addresses.
unfoldable pub open_interface : Outside → Interface → List (List ℕ) → Cmd (Unit {0})
unfolding open_urls
open_interface out i urls s =
    if is_empty urls then (s, throw application_exception) else open_urls out i urls none s

-- What follows the format.
unfoldable pub open_interfaces : Outside → ProxySettings → FileFormat → Cmd (Unit {0})
unfolding main_interface console_interface open_urls open_interface split_commas
open_interfaces out p format s =
    and_then (open_urls out (main_interface p format) (split_commas p.main_uri) none s)
      λ _. open_interface out (console_interface p) (split_commas p.console_uri)

-- `onStart` behind the definitions of the settings. The wizard of `setup` has its own model.
unfoldable pub on_start : Outside → ProxySettings → Cmd (Unit {0})
unfolding format_of open_interfaces split_commas
on_start out p s =
    if p.edit_settings
    then (s, throw exit_application_exception)
    else if is_empty (split_commas p.main_uri)
    then (s, throw application_exception)
    else and_then (s, format_of p.main_format) (open_interfaces out p)
