-- ===== src/Proxy/Std/Replies.antt =====
-- How the answer of a box finds its client, and what goes wrong (nodebus/proxy/stdpeer.cpp).
use jsonbus.Prelude.{
  ℕ, ◌≡◌, ◌≢◌, ap, true, false, List, ◌∷◌, none, is_empty, ◌||◌, Exception, arith, ◌⊎◌, inr,
}
use jsonbus.Dict.{nat_eq, text_eq, lookup, insert, lookup-remove, text_same_iff}
use jsonbus.Variant.{Fields, invalid}
use jsonbus.Proxy.{Conversions, World, set_std, has_key, touch, word_of, is_word, cancel_std}
use jsonbus.Proxy.Words.{
  word, proxy_word, status_word, rel_msg_uid_word, success_word, failure_word, object_word,
  type_word, message_word,
}
use jsonbus.Proxy.Std.{
  deliver, process_response, process_message, process, run, register_uid, process_register,
  write_response, breaks, after_message, after_process,
}

-- A success or a failure that names the message `uid`.
pub record IsReply (conv : Conversions) (uid : List ℕ) (reply : Fields) : Type 0 where
  pub has_status : has_key (word status_word) reply ≡ true
  pub has_uid : has_key (word rel_msg_uid_word) reply ≡ true
  pub is_final :
      (is_word success_word (conv.to_string (word_of status_word reply))
        || is_word failure_word (conv.to_string (word_of status_word reply)))
      ≡ true
  pub names_uid : conv.to_string (word_of rel_msg_uid_word reply) ≡ uid

pub touch_there : (k : List ℕ) (fs : Fields) → has_key k fs ≡ true → touch k fs ≡ fs
unfolding touch
touch_there k fs h = ground arith

pub process_response-IsReply :
    (conv : Conversions) (n : ℕ) (uid : List ℕ) (reply : Fields) (w : World)
    → IsReply conv uid reply
    → process_response conv n reply w ≡ deliver conv n uid reply w
unfolding process_response
process_response-IsReply conv n uid reply w h = rw (
  process_response,
  touch_there (word status_word) reply h.has_status,
  touch_there (word rel_msg_uid_word) reply h.has_uid,
  h.is_final,
  h.names_uid,
)

-- What a box that registers makes of the state.
abbrev registered : ℕ → List ℕ → World → World
registered n uid w =
    write_response n (word proxy_word) invalid
      (record (set_std n (record (w.std n) { uid = uid }) w) {
        std_peers = insert uid n w.std_peers;
      })

process_register-registered :
    (conv : Conversions) (n : ℕ) (parameters : Fields) (w : World)
    → is_empty (w.std n).uid ≡ true
    → is_empty (register_uid conv parameters) ≡ false
    → (process_register conv n parameters w).0 ≡ registered n (register_uid conv parameters) w
unfolding process_register
process_register-registered conv n parameters w e f = rw (process_register, e, f)

cancel_registered :
    (p q : ℕ) (uid : List ℕ) (w : World)
    → p ≢ q
    → (w.std p).has_socket ≡ true
    → is_empty uid ≡ false
    → ((cancel_std p (registered q uid (registered p uid w))).std q).uid ≡ uid
unfolding cancel_std write_response
cancel_registered p q uid w d socket f = ground arith

cancel_unregistered :
    (p q : ℕ) (uid : List ℕ) (w : World)
    → p ≢ q
    → (w.std p).has_socket ≡ true
    → is_empty uid ≡ false
    → lookup uid (cancel_std p (registered q uid (registered p uid w))).std_peers ≡ none
unfolding cancel_std write_response
cancel_unregistered p q uid w d socket f =
    ground (
      arith,
      lookup-remove uid uid (insert uid q (insert uid p w.std_peers)),
      text_same_iff uid uid,
    )

-- Where two different boxes without a name register under the same non-empty name and the first,
-- which has its socket, is cancelled, the second keeps the name as its own but the name is
-- registered for no box.
pub takeover-cancel_std :
    (conv : Conversions) (p q : ℕ) (parameters : Fields) (w : World)
    → p ≢ q
    → is_empty (w.std p).uid ≡ true
    → is_empty (w.std q).uid ≡ true
    → (w.std p).has_socket ≡ true
    → is_empty (register_uid conv parameters) ≡ false
    → (((cancel_std p
            (process_register conv q parameters (process_register conv p parameters w).0).0).std
          q).uid
        ≡ register_uid conv parameters)
      × (lookup
            (register_uid conv parameters)
            (cancel_std p
              (process_register conv q parameters
                (process_register conv p parameters w).0).0).std_peers
          ≡ none)
takeover-cancel_std conv p q parameters w d ep eq socket full =
    let uid = register_uid conv parameters in
    let still : is_empty ((registered p uid w).std q).uid ≡ true =
      unfold write_response in ground arith in
    rw
      (
        process_register-registered conv p parameters w ep full,
        process_register-registered conv q parameters (registered p uid w) still full,
      )
      (cancel_registered p q uid w d socket full, cancel_unregistered p q uid w d socket full)

-- The object and the type that `process` reads from a message.
abbrev pub object_of : Conversions → Fields → List ℕ
object_of conv message = conv.to_string (word_of object_word (touch (word object_word) message))

abbrev pub type_of : Conversions → Fields → List ℕ
type_of conv message =
    conv.to_string (word_of type_word (touch (word type_word) (touch (word object_word) message)))

process_message-message :
    (conv : Conversions) (n : ℕ) (message : Fields) (w : World)
    → is_empty (object_of conv message) ≡ false
    → (is_empty (type_of conv message) || is_word message_word (type_of conv message)) ≡ true
    → process_message conv n message w ≡ (w, breaks)
unfolding process_message
process_message-message conv n message w h k = rw (process_message, h, k)

process-message :
    (conv : Conversions) (n : ℕ) (message : Fields) (rest : List (Exception ⊎ Fields)) (w : World)
    → is_empty (object_of conv message) ≡ false
    → (is_empty (type_of conv message) || is_word message_word (type_of conv message)) ≡ true
    → process conv n (inr message ∷ rest) w ≡ (w, none)
unfolding process after_message
process-message conv n message rest w h k =
    ap (λ x. after_message x (process conv n rest)) (process_message-message conv n message w h k)

-- A message of the type "message", or of none, ends the service of its box: the messages behind it are
-- not read, and the box does not go back to the selector.
pub message-run :
    (conv : Conversions) (n : ℕ) (message : Fields) (rest : List (Exception ⊎ Fields)) (w : World)
    → is_empty (object_of conv message) ≡ false
    → (is_empty (type_of conv message) || is_word message_word (type_of conv message)) ≡ true
    → run conv n (inr message ∷ rest) w ≡ set_std n (record (w.std n) { attached = false }) w
unfolding run after_process
message-run conv n message rest w h k =
    let start = set_std n (record (w.std n) { attached = false }) w in
    ap (after_process n) (process-message conv n message rest start h k)
