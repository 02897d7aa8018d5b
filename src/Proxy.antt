-- ===== src/Proxy.antt =====
-- nodebus/proxy: the state that the proxy's peers share, and what both kinds of peers do with it.
-- A peer is known by a number, which stands for its SharedPtr: a `StdPeer` is a box, an `HttpPeer` a
-- client of the console. Sockets take what is written: a failing write is not modelled. The locks make
-- each method a step.
pub mod Words
pub mod Std
pub mod Http
pub mod Keystore
pub mod Start
use jsonbus.Prelude.{
  length, ℕ, ◌==◌, Bool, true, false, List, [], ◌∷◌, ◌++◌, Option, none, some, if◌then◌else◌,
  is_empty, leb, Exception,
}
use jsonbus.Dict.{nat_eq, text_eq, Dict, lookup, remove}
use jsonbus.Variant.{Variant, invalid, string, map, Fields, end, field, insert, key_lt}
use jsonbus.Proxy.Words.{
  Word, word, Text, text, object_word, type_word, status_word, error_message_word, proxy_word,
  response_word, failure_word,
}

-- The formats of nodebus/core/global.h.
pub data FileFormat : Type 0 where
  json bson bcon idl : FileFormat

-- `QVariant::toString` and `QVariant::toMap`, which are Qt's, and what `Serializer(msgData, format).serialize`
-- throws for a value, if it does, whose model is the one of nodebus/core/serializer.cpp.
pub record Conversions : Type 0 where
  pub to_string : Variant → List ℕ
  pub to_map : Variant → Fields
  pub refuses : FileFormat → Variant → Option Exception

-- `format` is the one of `m_serializer`. The socket is null once the peer is cancelled, and not open once it is closed; `attached` is whether
-- the peer waits in the selector, which a closed socket never does.
pub record StdPeer : Type 0 where
  pub has_socket : Bool
  pub attached : Bool
  pub format : FileFormat
  pub uid : List ℕ
  pub http_peers : Dict (List ℕ) ℕ

-- The constructor leaves `m_format` as the memory is, taken to hold one of the formats; `process` sets it.
pub record HttpPeer : Type 0 where
  pub has_socket : Bool
  pub is_open : Bool
  pub attached : Bool
  pub process_done : Bool
  pub std_peer : Option ℕ
  pub format : FileFormat
  pub req_uid : List ℕ

-- What is written on a socket: a message of a box, or an answer with its format and code.
pub data Written : Type 0 where
  to_std : ℕ → Fields → Written
  to_http : ℕ → FileFormat → ℕ → Variant → Written

-- `std_peers` is the static member `m_stdPeers`; `written` has the newest first.
pub record World : Type 0 where
  pub std_peers : Dict (List ℕ) ℕ
  pub std : ℕ → StdPeer
  pub http : ℕ → HttpPeer
  pub written : List Written

abbrev pub update {ℓ} : {A : Type ℓ} → ℕ → A → (ℕ → A) → ℕ → A
update k a f j = if k == j then a else f j

abbrev pub set_std : ℕ → StdPeer → World → World
set_std n p w = record w { std = update n p w.std }

abbrev pub set_http : ℕ → HttpPeer → World → World
set_http n p w = record w { http = update n p w.http }

abbrev pub write : Written → World → World
write x w = record w { written = x ∷ w.written }

abbrev pub same_text : List ℕ → List ℕ → Bool
same_text a b = text_eq.same a b

abbrev pub is_word : Word → List ℕ → Bool
is_word k s = same_text s (word k)

-- `map.value(key)`: what a lookup gives, null on a missing key.
unfoldable pub value_of : List ℕ → Fields → Variant
value_of k end = invalid
value_of k (field j v fs) = if same_text j k then v else value_of k fs

unfoldable pub has_key : List ℕ → Fields → Bool
has_key k end = false
has_key k (field j v fs) = if same_text j k then true else has_key k fs

-- `map[key]` on a map that may be written: a missing key is added, with a null value.
unfoldable pub touch : List ℕ → Fields → Fields
unfolding has_key
touch k fs = if has_key k fs then fs else insert k invalid fs

abbrev pub word_of : Word → Fields → Variant
word_of k fs = value_of (word k) fs

abbrev pub set_word : Word → Variant → Fields → Fields
set_word k v fs = insert (word k) v fs

-- The map that `writeError` and the failures of `HttpPeer::process` build.
unfoldable pub failure : List ℕ → List ℕ → List ℕ → Fields
failure object message type = set_word error_message_word (string message) (
    set_word status_word (string (word failure_word))
      (set_word object_word (string object) (set_word type_word (string type) end)))

-- `StdPeer::rmRef`
unfoldable pub rm_ref : List ℕ → ℕ → World → World
rm_ref req_uid n w =
    let p = w.std n in set_std n (record p { http_peers = remove req_uid p.http_peers }) w

-- `if (m_stdPeer != NULL) m_stdPeer->rmRef(m_reqUid)`
unfoldable pub release : HttpPeer → World → World
unfolding rm_ref
release p w = elim p.std_peer [ none ↦ w | some box ↦ rm_ref p.req_uid box w ]

-- `HttpPeer::cancel`
unfoldable pub cancel_http : ℕ → World → World
unfolding release
cancel_http n w =
    let p = w.http n in
    if p.has_socket
    then set_http n (record p { has_socket = false; is_open = false; attached = false })
        (release p w)
    else w

-- `HttpPeer::sendResult` on a socket without TLS: `SSLSocketChannel::close` has no effect. A value that the
-- format cannot hold throws, and nothing is written or closed.
-- Closing the socket ends its registration; the signal `closed`, which the peers are connected to, is
-- emitted nowhere.
unfoldable pub send_result : Conversions → ℕ → ℕ → Variant → World → World × Option Exception
send_result conv n code content w = elim (conv.refuses (w.http n).format content) [
  | none ↦ (
    set_http n (record (w.http n) { is_open = false; attached = false })
        (write (to_http n (w.http n).format code content) w),
    none,
  )
  | some e ↦ (w, some e)
]

-- `StdPeer::cancel`
unfoldable pub cancel_std : ℕ → World → World
cancel_std n w =
    let p = w.std n in
    if p.has_socket
    then set_std n (record p { has_socket = false; attached = false; uid = [] })
        (record w { std_peers = if is_empty p.uid then w.std_peers else remove p.uid w.std_peers })
    else w

-- The constructors, on a socket that was accepted and is registered with the selector. `memory` is what
-- stands where `m_format` will be.
unfoldable pub new_std : FileFormat → StdPeer
new_std format = record {
  has_socket = true;
  attached = true;
  format = format;
  uid = [];
  http_peers = [];
}

unfoldable pub new_http : FileFormat → HttpPeer
new_http memory = record {
  has_socket = true;
  is_open = true;
  attached = true;
  process_done = false;
  std_peer = none;
  format = memory;
  req_uid = [];
}

-- `StdPeer::get`
unfoldable pub get : List ℕ → World → Option ℕ
get uid w = lookup uid w.std_peers

-- `StdPeer::clearClientList`
unfoldable pub clear_client_list : World → World
clear_client_list w = record w { std_peers = [] }

-- `Peer::isActive` of a client. `device_open` is what `QIODevice::isOpen` gives for its socket: it is not
-- `is_open`, and nothing opens the device.
unfoldable pub is_active : Bool → HttpPeer → Bool
is_active device_open p = if p.has_socket then device_open else false

-- `StdPeer::getCount`
unfoldable pub get_count : World → ℕ
get_count w = length w.std_peers
