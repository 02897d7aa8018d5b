-- ===== src/Proxy/Http.antt =====
-- nodebus/proxy/httppeer.cpp: the requests of the console's clients.
-- An `HTTPException`, which `process` catches itself, is the call of `fail` that its handler makes.

pub mod Reading
pub mod Answers
use jsonbus.Prelude.{
  ℕ, ◌==◌, Bool, true, false, not, List, [], ◌∷◌, ◌++◌, Option, none, some, if◌then◌else◌, is_empty,
  ◌&&◌, ◌||◌, length, take, leb, Exception, io_timeout_exception, ◌⊎◌, inl, inr,
}
use jsonbus.Dict.{nat_eq, text_eq, Dict, lookup}
use jsonbus.Variant.{
  Variant, invalid, string, uint, list, map, Items, nil, cons, Fields, end, field, insert,
}
use jsonbus.Proxy.{
  get_count, Conversions, HttpPeer, Written, World, FileFormat, json, bson, bcon, set_http, write,
  is_word, value_of, touch, word_of, set_word, failure, send_result,
}
use jsonbus.Proxy.Std.{send, request_uid}
use jsonbus.Proxy.Words.{
  word, Text, text, object_word, type_word, status_word, data_word, method_word, request_word,
  response_word, success_word, proxy_word, help_word, ping_word, get_status_word, get_box_list_word,
  box_count_word, post_word, application_json_word, application_bson_word, application_bcon_word,
  missing_object, service_not_found, request_timeout, invalid_header, only_post,
  unknown_content_type, no_data, data_parse_error, no_box, only_request, invalid_http_method,
}

-- What QHttpRequestHeader reads; `box` is the section 1 of the path.
pub record Header : Type 0 where
  pub is_valid : Bool
  pub method : List ℕ
  pub content_type : List ℕ
  pub content_length : ℕ
  pub box : List ℕ

-- Qt's header parser, the generated JSON parser, which `Parser::parse` runs whatever the format, the
-- message of an exception, what `QUuid::createUuid` gives, what reading throws behind the bytes that come
-- before the deadline, and what the loops that ignore the rest of the bytes throw, if they do.
pub record Env : Type 0 where
  pub conv : Conversions
  pub parse_header : List ℕ → Header
  pub parse_json : List ℕ → Exception ⊎ Variant
  pub message_of : Exception → List ℕ
  pub new_uid : List ℕ
  pub at_end : Exception
  pub drains : Option Exception

abbrev pub Step : Type 0
Step = World × Option Exception

abbrev pub is_header_end : ℕ → ℕ → ℕ → ℕ → Bool
is_header_end c1 c2 c3 c4 = c1 == 13 && c3 == 13 && c2 == 10 && c4 == 10

abbrev pub prepend : ℕ → Option (List ℕ × List ℕ) → Option (List ℕ × List ℕ)
prepend c none = none
prepend c (some (text, rest)) = some (c ∷ text, rest)

-- The loop over the last four characters: what it appends, and what is left.
unfoldable pub read_loop : ℕ → ℕ → ℕ → ℕ → List ℕ → Option (List ℕ × List ℕ)
read_loop c1 c2 c3 c4 [] = if is_header_end c1 c2 c3 c4 then some ([], []) else none
read_loop c1 c2 c3 c4 (c ∷ s) =
    if is_header_end c1 c2 c3 c4 then some ([], c ∷ s) else prepend c3 (read_loop c2 c3 c4 c s)

-- The header's text and the bytes behind it, unless the bytes run out.
unfoldable pub read_header : List ℕ → Option (List ℕ × List ℕ)
unfolding read_loop
read_header (c1 ∷ c2 ∷ c3 ∷ c4 ∷ s) = prepend c1 (prepend c2 (read_loop c1 c2 c3 c4 s))
read_header _ = none

-- The loop over `payloadData`.
unfoldable pub read_payload : ℕ → List ℕ → Option (List ℕ)
read_payload n s = if leb n (length s) then some (take n s) else none

-- The handler of HTTPException.
unfoldable pub fail : Env → ℕ → ℕ → Text → World → Step
unfolding failure send_result
fail env n code message w =
    send_result env.conv n code
      (map (failure (word proxy_word) (text message) (word response_word))) w

abbrev pub is_timeout : Exception → Bool
is_timeout io_timeout_exception = true
is_timeout _ = false

-- The bytes ran out: `catch (IOTimeoutException &e)`.
unfoldable pub read_failure : Env → ℕ → World → Step
unfolding fail
read_failure env n w =
    if is_timeout env.at_end then fail env n 408 request_timeout w else (w, some env.at_end)

unfoldable pub format_of : List ℕ → Option FileFormat
format_of content_type =
    if is_word application_json_word content_type
    then some json
    else if is_word application_bson_word content_type
    then some bson
    else if is_word application_bcon_word content_type
    then some bcon
    else none

-- `m_stdPeers.keys()`, by key.
unfoldable pub sorted_uids : Dict (List ℕ) ℕ → Fields
unfolding insert
sorted_uids [] = end
sorted_uids ((uid, n) ∷ d) = insert uid invalid (sorted_uids d)

unfoldable pub key_items : Fields → Items
key_items end = nil
key_items (field k v fs) = cons (string k) (key_items fs)

-- The answer of the methods.
unfoldable pub success : Variant → Fields
success value = set_word data_word value (
    set_word status_word (string (word success_word))
      (set_word type_word (string (word response_word)) end))

unfoldable pub succeed : Env → ℕ → Variant → World → Step
unfolding success send_result
succeed env n value w = send_result env.conv n 200 (map (success value)) w

-- A request that is not forwarded.
unfoldable pub answer : Env → ℕ → List ℕ → Fields → World → Step
unfolding fail succeed value_of sorted_uids key_items get_count
answer env n object message w =
    let method = env.conv.to_string (word_of method_word message) in
    if not (is_word proxy_word object)
    then fail env n 400 (service_not_found object) w
    else if is_word ping_word method || is_word help_word method
    then succeed env n invalid w
    else if is_word get_status_word method
    then succeed env n (map (set_word box_count_word (uint (get_count w)) end)) w
    else if is_word get_box_list_word method
    then succeed env n (list (key_items (sorted_uids w.std_peers))) w
    else fail env n 400 (invalid_http_method method) w

-- What follows the call of `send`.
unfoldable pub forwarded : ℕ → List ℕ → Step → Step
forwarded n uid (w, none) =
    (set_http n (record (w.http n) { req_uid = uid; attached = true; process_done = true }) w, none)
forwarded n uid (w, some e) = (w, some e)

-- A request to a box.
unfoldable pub forward : Env → ℕ → ℕ → Fields → World → Step
unfolding send request_uid forwarded
forward env n box message w =
    forwarded n (request_uid env.conv env.new_uid message)
      (send env.conv env.new_uid message n box w)

unfoldable pub dispatch_type : Env → ℕ → List ℕ → List ℕ → Fields → World → Step
unfolding fail forward answer
dispatch_type env n object type message w = elim (w.http n).std_peer [
  | some box ↦
      if not (is_word request_word type)
      then fail env n 400 only_request w
      else forward env n box message w
  | none ↦ answer env n object message w
]

unfoldable pub dispatch : Env → ℕ → Fields → World → Step
unfolding fail value_of touch dispatch_type
dispatch env n message w =
    let message1 = touch (word object_word) message in
    let object = env.conv.to_string (word_of object_word message1) in
    let message2 = touch (word type_word) message1 in
    let type = env.conv.to_string (word_of type_word message2) in
    if is_empty object
    then fail env n 400 missing_object w
    else dispatch_type env n object type message2 w

-- The box that the path names.
unfoldable pub find_box : Env → ℕ → List ℕ → Fields → World → Step
unfolding fail dispatch
find_box env n uid message w =
    if is_empty uid then dispatch env n message w else elim (lookup uid w.std_peers) [
      | none ↦ fail env n 404 (no_box uid) (set_http n (record (w.http n) { std_peer = none }) w)
      | some box ↦ dispatch env n message (set_http n (record (w.http n) { std_peer = some box }) w)
    ]

unfoldable pub parse_payload : Env → ℕ → Header → List ℕ → World → Step
unfolding fail find_box
parse_payload env n header payload w = elim (env.parse_json payload) [
  | inl e ↦ fail env n 400 (data_parse_error (env.message_of e)) w
  | inr value ↦ find_box env n header.box (env.conv.to_map value) w
]

-- `while ((n = m_socket->available()) > 0) m_socket->ignore(n)`
abbrev pub drain : Option Exception → World → Step → Step
drain none w next = next
drain (some e) w next = (w, some e)

-- The payload, once the format is known.
unfoldable pub process_payload : Env → ℕ → Header → List ℕ → World → Step
unfolding fail read_payload read_failure parse_payload
process_payload env n header rest w =
    if header.content_length == 0
    then fail env n 400 no_data w
    else elim (read_payload header.content_length rest) [
      | none ↦ read_failure env n w
      | some payload ↦ drain env.drains w (parse_payload env n header payload w)
    ]

-- `m_format`, if the content type is one of the three.
unfoldable pub process_format : Env → ℕ → Header → List ℕ → World → Step
unfolding fail format_of process_payload
process_format env n header rest w = elim (format_of header.content_type) [
  | none ↦ fail env n 415 unknown_content_type w
  | some format ↦
      process_payload env n header rest (set_http n (record (w.http n) { format = format }) w)
]

unfoldable pub process_header : Env → ℕ → Header → List ℕ → World → Step
unfolding fail process_format
process_header env n header rest w =
    if not header.is_valid
    then fail env n 400 invalid_header w
    else if not (is_word post_word header.method)
    then fail env n 405 only_post w
    else process_format env n header rest w

unfoldable pub process_request : Env → ℕ → List ℕ → World → Step
unfolding read_header read_failure process_header
process_request env n bytes w = elim (read_header bytes) [
  | none ↦ read_failure env n w
  | some (header, rest) ↦ process_header env n (env.parse_header header) rest w
]

-- `process`, on the bytes that come before the deadline. The selector has let go of the peer.
unfoldable pub process : Env → ℕ → List ℕ → World → Step
unfolding process_request
process env n bytes w =
    if (w.http n).process_done
    then drain env.drains w (set_http n (record (w.http n) { attached = true }) w, none)
    else process_request env n bytes w
