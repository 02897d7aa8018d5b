-- ===== src/Tests/Proxy.antt =====
-- A box and a client of the proxy at work (nodebus/proxy).
use jsonbus.Prelude.{
  arith, ◌||◌, ℕ, ◌≡◌, refl, true, false, List, [], ◌∷◌, none, some, is_empty, io_timeout_exception,
  exception, eof_exception, inl, inr,
}
use jsonbus.Dict.{nat_eq, text_eq, lookup}
use jsonbus.Variant.{Variant, string, map, Fields, end, field}
use jsonbus.Proxy.{is_word, touch, value_of, has_key, Conversions, cancel_std, json, World, set_std}
use jsonbus.Proxy.Words.{
  word, object_word, type_word, status_word, uid_word, rel_msg_uid_word, method_word, request_word,
  response_word, message_word, success_word, proxy_word, register_word, parameters_word,
}
use jsonbus.Proxy.Std.{process_register, run, register_uid, request_uid}
use jsonbus.Proxy.Std.Registry.{IsRegistry, run-IsRegistry}
use jsonbus.Proxy.Std.Replies.{takeover-cancel_std, object_of, type_of}
use jsonbus.Proxy.Http.{read_loop, Env, process, read_header}
use jsonbus.Proxy.Http.Reading.{IsCut, read_header-IsCut}
use jsonbus.Proxy.Http.Answers.{Served, process-Served}

abbrev plain_to_string : Variant → List ℕ
plain_to_string (string s) = s
plain_to_string _ = []

abbrev plain_to_map : Variant → Fields
plain_to_map (map fs) = fs
plain_to_map _ = end

abbrev conversions : Conversions
conversions = record { to_string = plain_to_string; to_map = plain_to_map; refuses = λ _ _. none }

abbrev quiet_world : World
quiet_world = record {
  std_peers = [];
  std =
      λ n. record { has_socket = true; attached = true; format = json; uid = []; http_peers = [] };
  http = λ n. record {
    has_socket = true;
    is_open = true;
    attached = true;
    process_done = false;
    std_peer = none;
    format = json;
    req_uid = [];
  };
  written = [];
}

abbrev name : List ℕ
name = 98 ∷ 111 ∷ 120 ∷ []

abbrev with_name : Fields
with_name = field (word uid_word) (string name) end

abbrev register : Fields
register = field (word method_word) (string (word register_word)) (
    field (word object_word) (string (word proxy_word)) (
      field (word parameters_word) (map with_name)
        (field (word type_word) (string (word request_word)) end)))

quiet-IsRegistry : IsRegistry quiet_world
unfolding lookup
quiet-IsRegistry = record { own_uid = λ uid n h. cc; named = λ uid n h. cc }

run-IsRegistry_example :
    IsRegistry (run conversions 1 (inr register ∷ inl eof_exception ∷ []) quiet_world)
run-IsRegistry_example =
    run-IsRegistry conversions 1 (inr register ∷ inl eof_exception ∷ []) quiet_world
      quiet-IsRegistry

abbrev reply : Fields
reply =
    field (word rel_msg_uid_word) (string name)
      (field (word status_word) (string (word success_word)) end)

abbrev waiting_world : World
waiting_world =
    set_std 1
      (record {
        has_socket = true;
        attached = true;
        format = json;
        uid = name;
        http_peers = (name, 7) ∷ [];
      })
      quiet_world

abbrev env : Env
env = record {
  conv = conversions;
  parse_header = λ text. record {
    is_valid = false;
    method = [];
    content_type = [];
    content_length = 0;
    box = [];
  };
  parse_json = λ payload. inr (map end);
  message_of = λ e. [];
  new_uid = name;
  at_end = io_timeout_exception;
  drains = none;
}

empty_uid : request_uid conversions name end ≡ name
unfolding request_uid has_key
empty_uid = refl

named : is_empty (register_uid conversions with_name) ≡ false
unfolding register_uid value_of word
named = refl

abbrev event : Fields
event =
    field (word object_word) (string name) (field (word type_word) (string (word message_word)) end)

event_object : is_empty (object_of conversions event) ≡ false
unfolding word touch value_of has_key
event_object = refl

event_type :
    (is_empty (type_of conversions event) || is_word message_word (type_of conversions event))
    ≡ true
unfolding word touch value_of has_key
event_type = refl

-- `A: b`, an empty line and `xy`.
abbrev bytes : List ℕ
bytes = 65 ∷ 58 ∷ 98 ∷ 13 ∷ 10 ∷ 13 ∷ 10 ∷ 120 ∷ 121 ∷ []

bytes_header : read_header bytes ≡ some (65 ∷ 58 ∷ 98 ∷ 13 ∷ 10 ∷ [], 120 ∷ 121 ∷ [])
unfolding read_header read_loop
bytes_header = refl

read_header-IsCut_example : IsCut bytes (65 ∷ 58 ∷ 98 ∷ 13 ∷ 10 ∷ []) (120 ∷ 121 ∷ [])
read_header-IsCut_example =
    read_header-IsCut bytes (65 ∷ 58 ∷ 98 ∷ 13 ∷ 10 ∷ []) (120 ∷ 121 ∷ []) bytes_header

process-Served_example : Served env 7 [] (process env 7 bytes quiet_world)
process-Served_example = process-Served env 7 bytes quiet_world refl

-- A format that holds nothing, and a reply with the members that `process` reads.
abbrev strict : Conversions
strict = record conversions { refuses = λ _ _. some exception }

abbrev response : Fields
response =
    field (word object_word) (string name)
      (field (word type_word) (string (word response_word)) reply)

-- The boxes 1 and 2 register under the same name, and 1 is cancelled.
takeover-cancel_std_example :
    (((cancel_std 1
          (process_register conversions 2 with_name
            (process_register conversions 1 with_name quiet_world).0).0).std
        2).uid
      ≡ register_uid conversions with_name)
    × (lookup
          (register_uid conversions with_name)
          (cancel_std 1
            (process_register conversions 2 with_name
              (process_register conversions 1 with_name quiet_world).0).0).std_peers
        ≡ none)
takeover-cancel_std_example =
    takeover-cancel_std conversions 1 2 with_name quiet_world (λ e. ground (arith, e)) refl refl
      refl named
