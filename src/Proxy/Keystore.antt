-- ===== src/Proxy/Keystore.antt =====
-- `PKCS12SSLCtx` of nodebus/proxy/proxy.cpp: a TLS context from a keystore. What OpenSSL and the system
-- answer is an argument.
pub mod Tidy
use jsonbus.Prelude.{
  inr, ◌+◌, inl, ℕ, ◌≡◌, refl, ◌∙◌, ap, Bool, true, false, not, ◌&&◌, Option, none, some,
  Option-cases, List, [], ◌∷◌, ◌++◌, take, if_both, if◌then◌else◌, exception, Outcome, ok, throw,
  undefined, out_of_fuel,
}
use jsonbus.Nio.Sockets.Held.{remove_first, remove_two}
use jsonbus.Nio.Sockets.{remove}

-- The answers for one CA: `SSL_CTX_add_extra_chain_cert`, `X509_STORE_add_cert`, `SSL_CTX_add_client_CA`.
pub record Authority : Type 0 where
  pub chained : Bool
  pub stored : Bool
  pub listed : Bool

-- The answers in the order of the calls: `SSL_CTX_new`, `fopen`, `d2i_PKCS12_fp`, `PKCS12_parse` and what
-- it finds, then the three calls with certificate and key. `behind` is the memory behind the literal
-- "Proxy" and its zero.
pub record Keystore : Type 0 where
  pub context : Option ℕ
  pub file : Option ℕ
  pub is_read : Bool
  pub is_parsed : Bool
  pub has_key : Bool
  pub has_certificate : Bool
  pub authorities : Option (List Authority)
  pub uses_certificate : Bool
  pub uses_key : Bool
  pub key_fits : Bool
  pub behind : List ℕ

-- What is allocated: contexts, open files, and how many PKCS12 objects were read, which nothing frees; and
-- the session identifiers that were given to contexts.
pub record Held : Type 0 where
  pub contexts : List ℕ
  pub files : List ℕ
  pub objects : ℕ
  pub session_ids : List (ℕ × List ℕ)

abbrev pub add_context : Option ℕ → Held → Held
add_context none h = h
add_context (some c) h = record h { contexts = c ∷ h.contexts }

-- `SSL_CTX_free` of a context that is not NULL.
abbrev pub free_context : Option ℕ → Held → Held
free_context none h = h
free_context (some c) h = record h { contexts = remove c h.contexts }

abbrev pub open_file : ℕ → Held → Held
open_file f h = record h { files = f ∷ h.files }

-- `fclose`
abbrev pub close_file : ℕ → Held → Held
close_file f h = record h { files = remove f h.files }

-- The handler, while the file is open or not. `throw e` with an `Exception &` throws a copy that is a plain
-- Exception, whatever was caught.
unfoldable pub give_up : Option ℕ → Option ℕ → Held → Held × Outcome ℕ
give_up context none h = (free_context context h, throw exception)
give_up context (some f) h = (close_file f (free_context context h), throw exception)

-- The loop over the CAs, up to the first call that fails.
unfoldable pub add_authorities : List Authority → Bool
add_authorities [] = true
add_authorities (a ∷ as') = a.chained && (a.stored && (a.listed && add_authorities as'))

-- The eleven bytes that `SSL_CTX_set_session_id_context` takes, five of them from behind the literal.
unfoldable pub session_id : List ℕ → List ℕ
session_id behind = take 11 ((b'P' ∷ b'r' ∷ b'o' ∷ b'x' ∷ b'y' ∷ 0 ∷ []) ++ behind)

-- The calls on the context, which may be NULL: those follow it.
unfoldable pub fill_context : Keystore → List Authority → Option ℕ → Held → Held × Outcome ℕ
unfolding give_up add_authorities session_id
fill_context k as' none h = (h, undefined)
fill_context k as' (some c) h =
    if k.uses_certificate && (k.uses_key && (k.key_fits && add_authorities as'))
    then (record h { session_ids = (c, session_id k.behind) ∷ h.session_ids }, ok c)
    else give_up (some c) none h

-- What follows `fclose`.
unfoldable pub use_keystore : Keystore → Held → Held × Outcome ℕ
unfolding give_up fill_context
use_keystore k h =
    if k.has_key && k.has_certificate
    then elim k.authorities [
      | none ↦ give_up k.context none h
      | some as' ↦ fill_context k as' k.context h
    ]
    else give_up k.context none h

-- What follows `fopen`.
unfoldable pub read_keystore : Keystore → ℕ → Held → Held × Outcome ℕ
unfolding give_up use_keystore
read_keystore k f h =
    if k.is_read
    then (let h1 = record h { objects = h.objects + 1 } in
        if k.is_parsed then use_keystore k (close_file f h1) else give_up k.context (some f) h1)
    else give_up k.context (some f) h

-- The constructor.
unfoldable pub new_context : Keystore → Held → Held × Outcome ℕ
unfolding give_up read_keystore
new_context k h =
    let h1 = add_context k.context h in
    elim k.file [ none ↦ give_up k.context none h1 | some f ↦ read_keystore k f (open_file f h1) ]

-- The destructor.
unfoldable pub delete_context : ℕ → Held → Held
delete_context c = free_context (some c)
