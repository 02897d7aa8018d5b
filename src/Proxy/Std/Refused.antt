-- ===== src/Proxy/Std/Refused.antt =====
-- A box whose reply the client's format cannot hold (nodebus/proxy/stdpeer.cpp and httppeer.cpp).
use jsonbus.Prelude.{ℕ, ◌≡◌, true, is_empty, false, List}
use jsonbus.Dict.{nat_eq, text_eq, remove}
use jsonbus.Variant.{Fields}
use jsonbus.Proxy.{Conversions, World, set_std, has_key, word_of}
use jsonbus.Proxy.Words.{response_word, word, object_word, type_word}
use jsonbus.Proxy.Std.Replies.{IsReply}

-- A reply that is a response, with the members that `process` reads.
pub record IsResponse (conv : Conversions) (uid : List ℕ) (reply : Fields) : Type 0 where
  pub has_object : has_key (word object_word) reply ≡ true
  pub has_type : has_key (word type_word) reply ≡ true
  pub is_named : is_empty (conv.to_string (word_of object_word reply)) ≡ false
  pub is_response : conv.to_string (word_of type_word reply) ≡ word response_word
  pub is_reply : IsReply conv uid reply

-- The box without the client that waited under the uid.
abbrev forgotten : ℕ → List ℕ → World → World
forgotten n uid w = set_std n (record (w.std n) { http_peers = remove uid (w.std n).http_peers }) w
