-- ===== src/Proxy/Http/Answers.antt =====
-- Every request of a client gets one answer or goes to one box (nodebus/proxy/httppeer.cpp).
use jsonbus.Prelude.{
  ℕ, ◌==◌, ◌≡◌, refl, true, false, List, ◌∷◌, Option, none, some, is_empty, arith, Option-cases,
  Bool-cases, inl, inr, if_both, sum_cases, Exception,
}
use jsonbus.Dict.{nat_eq, text_eq, lookup, lookup-insert, text_same_iff}
use jsonbus.Variant.{Variant, Fields, map}
use jsonbus.Proxy.{Written, to_std, to_http, World, FileFormat, set_http, send_result}
use jsonbus.Proxy.Std.{add_client, send, request_uid, request_with_uid}
use jsonbus.Proxy.Words.{Text}
use jsonbus.Proxy.Http.{
  Env, Header, Step, fail, read_failure, format_of, succeed, answer, forward, forwarded,
  dispatch_type, dispatch, find_box, parse_payload, process_payload, process_format, process_header,
  process_request, process, drain, read_header, is_timeout, read_payload,
}

-- What a request can come to, where `log` had been written before: it was answered and its socket
-- closed; or it was written to a box, where the client waits under the request's uid; or reading, ignoring
-- the rest or serialising, the answer in the client's format or the request in the box's, threw, and nothing
-- was written.
pub data Served (env : Env) (n : ℕ) (log : List Written) : Step → Type 0 where
  answered :
      (format : FileFormat) (code : ℕ) (content : Variant) (w : World)
      → env.conv.refuses format content ≡ none
      → (w.http n).format ≡ format
      → w.written ≡ to_http n format code content ∷ log
      → (w.http n).is_open ≡ false
      → Served env n log (w, none)
  sent :
      (box : ℕ) (request : Fields) (w : World)
      → w.written ≡ to_std box request ∷ log
      → (w.http n).process_done ≡ true
      → lookup (w.http n).req_uid (w.std box).http_peers ≡ some n
      → Served env n log (w, none)
  interrupted : (w : World) → w.written ≡ log → Served env n log (w, some env.at_end)
  refused :
      (content : Variant) (e : Exception) (w : World)
      → env.conv.refuses (w.http n).format content ≡ some e
      → w.written ≡ log
      → Served env n log (w, some e)
  unsent :
      (box : ℕ) (request : Fields) (e : Exception) (w : World)
      → env.conv.refuses (w.std box).format (map request) ≡ some e
      → w.written ≡ log
      → Served env n log (w, some e)
  undrained :
      (e : Exception) (w : World)
      → env.drains ≡ some e
      → w.written ≡ log
      → Served env n log (w, some e)

module _ (env : Env) (n : ℕ) where
  send_result-Served :
      (code : ℕ) (content : Variant) (w : World)
      → Served env n w.written (send_result env.conv n code content w)
  unfolding send_result
  send_result-Served code content w =
      elim (Option-cases (env.conv.refuses (w.http n).format content)) [
        | inl e ↦
            rw (send_result, e)
              (answered (w.http n).format code content _ e (ground arith) refl (ground arith))
        | inr (x, e) ↦ rw (send_result, e) (refused content x w e refl)
      ]

  fail-Served : (code : ℕ) (t : Text) (w : World) → Served env n w.written (fail env n code t w)
  unfolding fail
  fail-Served code t w = send_result-Served code _ w

  read_failure-Served : (w : World) → Served env n w.written (read_failure env n w)
  unfolding read_failure
  read_failure-Served w =
      if_both (Served env n w.written) (is_timeout env.at_end) (fail-Served _ _ w)
        (interrupted w refl)

  succeed-Served : (value : Variant) (w : World) → Served env n w.written (succeed env n value w)
  unfolding succeed
  succeed-Served value w = send_result-Served 200 _ w

  answer-Served :
      (object : List ℕ) (m : Fields) (w : World) → Served env n w.written (answer env n object m w)
  unfolding answer
  answer-Served object m w = search (if_both (Served env n w.written), fail-Served, succeed-Served)

  forward-Served :
      (box : ℕ) (m : Fields) (w : World) → Served env n w.written (forward env n box m w)
  unfolding forward forwarded send add_client
  forward-Served box m w =
      let uid = request_uid env.conv env.new_uid m in
      let request = request_with_uid env.new_uid m in
      elim (Option-cases (env.conv.refuses (w.std box).format (map request))) [
        | inl e ↦
            rw (forward, send, e)
              (sent box request _ refl (ground arith) (
                ground
                  (arith, lookup-insert uid uid n (w.std box).http_peers, text_same_iff uid uid)))
        | inr (x, e) ↦ rw (forward, send, e) (unsent box request x _ (ground (arith, e)) refl)
      ]

  dispatch_type-Served :
      (object type : List ℕ) (m : Fields) (w : World)
      → Served env n w.written (dispatch_type env n object type m w)
  unfolding dispatch_type
  dispatch_type-Served object type m w = elim (Option-cases (w.http n).std_peer) [
    | inl e ↦ rw (dispatch_type, e) (answer-Served object m w)
    | inr (box, e) ↦
        rw (dispatch_type, e)
          (search (if_both (Served env n w.written), fail-Served, forward-Served))
  ]

  dispatch-Served : (m : Fields) (w : World) → Served env n w.written (dispatch env n m w)
  unfolding dispatch
  dispatch-Served m w = search (if_both (Served env n w.written), fail-Served, dispatch_type-Served)

  find_box-Served :
      (uid : List ℕ) (m : Fields) (w : World) → Served env n w.written (find_box env n uid m w)
  unfolding find_box
  find_box-Served uid m w = elim (Bool-cases (is_empty uid)) [
    | inl b ↦ rw (find_box, b) (dispatch-Served m w)
    | inr b ↦ elim (Option-cases (lookup uid w.std_peers)) [
      | inl e ↦
          rw (find_box, b, e)
            (fail-Served 404 _ (set_http n (record (w.http n) { std_peer = none }) w))
      | inr (box, e) ↦
          rw (find_box, b, e)
            (dispatch-Served m (set_http n (record (w.http n) { std_peer = some box }) w))
    ]
  ]

  parse_payload-Served :
      (header : Header) (payload : List ℕ) (w : World)
      → Served env n w.written (parse_payload env n header payload w)
  unfolding parse_payload
  parse_payload-Served header payload w = elim (sum_cases (env.parse_json payload)) [
    | inl (e, h) ↦ rw (parse_payload, h) (fail-Served 400 _ w)
    | inr (value, h) ↦ rw (parse_payload, h) (find_box-Served header.box _ w)
  ]

  drain-Served :
      (w : World) (next : Step) (o : Option Exception)
      → env.drains ≡ o
      → Served env n w.written next
      → Served env n w.written (drain o w next)
  drain-Served w next none e h = h
  drain-Served w next (some x) e h = undrained x w e refl

  process_payload-Served :
      (header : Header) (rest : List ℕ) (w : World)
      → Served env n w.written (process_payload env n header rest w)
  unfolding process_payload
  process_payload-Served header rest w = elim (Bool-cases (header.content_length == 0)) [
    | inl b ↦ rw (process_payload, b) (fail-Served 400 _ w)
    | inr b ↦ elim (Option-cases (read_payload header.content_length rest)) [
      | inl e ↦ rw (process_payload, b, e) (read_failure-Served w)
      | inr (payload, e) ↦
          rw (process_payload, b, e)
            (drain-Served w _ env.drains refl (parse_payload-Served header payload w))
    ]
  ]

  process_format-Served :
      (header : Header) (rest : List ℕ) (w : World)
      → Served env n w.written (process_format env n header rest w)
  unfolding process_format
  process_format-Served header rest w = elim (Option-cases (format_of header.content_type)) [
    | inl e ↦ rw (process_format, e) (fail-Served 415 _ w)
    | inr (format, e) ↦
        rw (process_format, e)
          (process_payload-Served header rest
            (set_http n (record (w.http n) { format = format }) w))
  ]

  process_header-Served :
      (header : Header) (rest : List ℕ) (w : World)
      → Served env n w.written (process_header env n header rest w)
  unfolding process_header
  process_header-Served header rest w =
      search (if_both (Served env n w.written), fail-Served, process_format-Served)

  process_request-Served :
      (bytes : List ℕ) (w : World) → Served env n w.written (process_request env n bytes w)
  unfolding process_request
  process_request-Served bytes w = elim (Option-cases (read_header bytes)) [
    | inl e ↦ rw (process_request, e) (read_failure-Served w)
    | inr ((text, rest), e) ↦
        rw (process_request, e) (process_header-Served (env.parse_header text) rest w)
  ]

-- HttpPeer::process answers a client that was not served yet once, in the format that the client has
-- and that can hold the answer, and closes its socket; or it writes the request once to a box, where
-- the client then waits under the request's uid; or, having written nothing, it throws what reading,
-- what ignoring the rest of the bytes, what serialising the answer in that format, or what
-- serialising the request in the format of the box throws.
pub process-Served :
    (env : Env) (n : ℕ) (bytes : List ℕ) (w : World)
    → (w.http n).process_done ≡ false
    → Served env n w.written (process env n bytes w)
unfolding process
process-Served env n bytes w h = rw (process, h) (process_request-Served env n bytes w)
