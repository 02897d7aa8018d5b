-- ===== src/Proxy/Std.antt =====
-- nodebus/proxy/stdpeer.cpp: the messages of a box.
-- A message is what `m_parser.parse().toMap()` gives.

pub mod Registry
pub mod Replies
pub mod Refused
use jsonbus.Prelude.{
  ℕ, ◌==◌, Bool, true, false, not, List, [], ◌∷◌, ◌++◌, Option, none, some, if◌then◌else◌, is_empty,
  ◌&&◌, ◌||◌, Exception, ◌⊎◌, inl, inr,
}
use jsonbus.Dict.{nat_eq, text_eq, Dict, lookup, insert, remove, contains}
use jsonbus.Variant.{Variant, invalid, string, map, Fields, end, field}
use jsonbus.Proxy.{
  Conversions, StdPeer, HttpPeer, Written, to_std, to_http, World, set_std, set_http, write,
  is_word, value_of, has_key, touch, word_of, set_word, failure, send_result, cancel_std,
}
use jsonbus.Proxy.Words.{
  word, Text, text, object_word, type_word, status_word, data_word, uid_word, tuid_word,
  method_word, parameters_word, rel_msg_uid_word, message_word, request_word, response_word,
  success_word, failure_word, proxy_word, gateway_word, register_word, help_word, missing_object,
  invalid_type, service_not_found, already_registered, missing_uid, invalid_std_method,
}

-- `writeError`
unfoldable pub write_error : ℕ → Text → List ℕ → World → World
unfolding failure
write_error n message type w = write (to_std n (failure (word proxy_word) (text message) type)) w

-- The map that `writeResponse` builds.
unfoldable pub response : List ℕ → Variant → Fields
response object value = set_word data_word value (
    set_word status_word (string (word success_word))
      (set_word object_word (string object) (set_word type_word (string (word response_word)) end)))

-- `writeResponse`
unfoldable pub write_response : ℕ → List ℕ → Variant → World → World
unfolding response
write_response n object value w = write (to_std n (response object value)) w

-- `send`: the uid of the request, a new one if it has none, and the request with it.
unfoldable pub request_uid : Conversions → List ℕ → Fields → List ℕ
unfolding has_key value_of
request_uid conv new_uid request =
    if has_key (word uid_word) request then conv.to_string (word_of uid_word request) else new_uid

unfoldable pub request_with_uid : List ℕ → Fields → Fields
unfolding has_key
request_with_uid new_uid request =
    if has_key (word uid_word) request then request else set_word uid_word (string new_uid) request

-- The client waits under the uid.
unfoldable pub add_client : List ℕ → ℕ → ℕ → World → World
add_client uid peer n w =
    let p = w.std n in set_std n (record p { http_peers = insert uid peer p.http_peers }) w

-- `send`: `new_uid` is what `QUuid::createUuid` gives. Where the format of the box refuses the request, the
-- client was noted before; what the serializer wrote in front of the refused value is left out. The proxy's
-- own messages above are texts, which every format of a box holds.
unfoldable pub send : Conversions → List ℕ → Fields → ℕ → ℕ → World → World × Option Exception
unfolding request_uid request_with_uid add_client
send conv new_uid request peer n w =
    let w1 = add_client (request_uid conv new_uid request) peer n w in
    elim (conv.refuses (w.std n).format (map (request_with_uid new_uid request))) [
      | none ↦ (write (to_std n (request_with_uid new_uid request)) w1, none)
      | some e ↦ (w1, some e)
    ]

-- Whether the loop of `process` takes the next message, ends there or throws.
pub data Next : Type 0 where
  continues breaks : Next
  throws : Exception → Next

-- `m_uid = parameters["uid"]`, `["tuid"]` if that is empty.
unfoldable pub register_uid : Conversions → Fields → List ℕ
unfolding value_of
register_uid conv parameters =
    let uid = conv.to_string (word_of uid_word parameters) in
    if is_empty uid then conv.to_string (word_of tuid_word parameters) else uid

unfoldable pub process_register : Conversions → ℕ → Fields → World → World × Next
unfolding write_error write_response register_uid
process_register conv n parameters w =
    let p = w.std n in
    if not (is_empty p.uid)
    then (write_error n already_registered (word response_word) w, breaks)
    else let uid = register_uid conv parameters in
      let w1 = set_std n (record p { uid = uid }) w in
      if is_empty uid then (write_error n missing_uid (word response_word) w1, breaks) else (
        write_response n (word proxy_word) invalid
            (record w1 { std_peers = insert uid n w1.std_peers }),
        continues,
      )

-- The branch `type == "request"`.
unfoldable pub process_request : Conversions → ℕ → List ℕ → Fields → World → World × Next
unfolding write_error value_of process_register
process_request conv n object message w =
    let method = conv.to_string (word_of method_word message) in
    let parameters = conv.to_map (word_of parameters_word message) in
    if not (is_word proxy_word object) && not (is_word gateway_word object)
    then (write_error n (service_not_found object) (word response_word) w, breaks)
    else if is_word register_word method
    then process_register conv n parameters w
    else if is_word help_word method
    then (w, continues)
    else (write_error n (invalid_std_method method) (word response_word) w, continues)

-- The answer goes to the client that waits for it, if there is one, and which waits no more.
unfoldable pub deliver : Conversions → ℕ → List ℕ → Fields → World → World × Option Exception
unfolding send_result
deliver conv n msguid message w =
    let p = w.std n in
    elim (lookup msguid p.http_peers) [
      | none ↦ (w, none)
      | some client ↦
          send_result conv client 200 (map message)
            (set_std n (record p { http_peers = remove msguid p.http_peers }) w)
    ]

-- The branch `type == "response"`.
unfoldable pub process_response : Conversions → ℕ → Fields → World → World × Option Exception
unfolding value_of touch deliver
process_response conv n message w =
    let message1 = touch (word status_word) message in
    let status = conv.to_string (word_of status_word message1) in
    let message2 = touch (word rel_msg_uid_word) message1 in
    if is_word success_word status || is_word failure_word status
    then deliver conv n (conv.to_string (word_of rel_msg_uid_word message2)) message2 w
    else (w, none)

-- What a response leaves to the loop.
abbrev pub responded : World × Option Exception → World × Next
responded (w, none) = (w, continues)
responded (w, some e) = (w, throws e)

-- The body of the loop of `process`.
unfoldable pub process_message : Conversions → ℕ → Fields → World → World × Next
unfolding write_error value_of touch process_request process_response
process_message conv n message w =
    let message1 = touch (word object_word) message in
    let object = conv.to_string (word_of object_word message1) in
    let message2 = touch (word type_word) message1 in
    let type = conv.to_string (word_of type_word message2) in
    if is_empty object
    then (write_error n missing_object (word message_word) w, breaks)
    else if is_empty type || is_word message_word type
    then (w, breaks)
    else if is_word request_word type
    then process_request conv n object message2 w
    else if is_word response_word type
    then responded (process_response conv n message2 w)
    else (write_error n invalid_type (word message_word) w, continues)

-- The end of a turn of the loop.
unfoldable pub after_message :
    World × Next → (World → World × Option Exception) → World × Option Exception
after_message (w, continues) go = go w
after_message (w, breaks) go = (w, none)
after_message (w, throws e) go = (w, some e)

-- `process`: the messages that have come, or what the parser throws at one. Once there is nothing left to
-- read the peer goes back to the selector.
unfoldable pub process :
    Conversions → ℕ → List (Exception ⊎ Fields) → World → World × Option Exception
unfolding process_message
process conv n [] w = (set_std n (record (w.std n) { attached = true }) w, none)
process conv n (inl e ∷ rest) w = (w, some e)
process conv n (inr message ∷ rest) w =
    after_message (process_message conv n message w) (process conv n rest)

-- The handlers of `Peer::Task::run`: an exception ends the peer.
unfoldable pub after_process : ℕ → World × Option Exception → World
unfolding cancel_std
after_process n (w, none) = w
after_process n (w, some e) = cancel_std n w

-- `Peer::Task::run` on a box. The selector has let go of it.
unfoldable pub run : Conversions → ℕ → List (Exception ⊎ Fields) → World → World
unfolding process after_process
run conv n messages w =
    after_process n (process conv n messages (set_std n (record (w.std n) { attached = false }) w))
