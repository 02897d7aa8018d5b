-- ===== src/Proxy/Start/Turns.antt =====
-- One turn of the loops of `Proxy::onStart`: the server that it attaches.
use jsonbus.Prelude.{
  ℕ, ◌≡◌, refl, ap, inl, inr, true, Option, none, some, [], ◌∷◌, ◌++◌, Bool-cases, if_both, Outcome,
  ok, throw, undefined, out_of_fuel,
}
use jsonbus.Dict.{text_same, text_same_iff}
use jsonbus.Nio.Sockets.{Process}
use jsonbus.Nio.Server.Options.{IsNewServer, new_server-IsNewServer}
use jsonbus.Nio.Server.{ServerSocketChannel}
use jsonbus.Proxy.Keystore.{Held, new_context}
use jsonbus.Proxy.Start.{
  add_server, Url, Outside, Attached, Starting, Interface, and_then, server_options, port_or,
  in_process, in_held, attach_server, ensure_context, open_secure, open_plain, open_url,
}

-- The name, the options and the peers of a server for an address.
pub record IsServer (out : Outside) (i : Interface) (url : Url) (a : Attached) : Type 0 where
  pub fd : ℕ
  pub is_tuned :
      a.server
      ≡ i.tune (record {
        fd = fd;
        name = url.host ++ b':' ∷ out.decimals (port_or i.default_port url.port);
        active = true;
        alive = 0;
        intlv = 0;
        idle = 0;
        cnt = 0;
      })
  pub has_factory : a.factory ≡ i.factory

-- The server's context and the one that later addresses share, given the one that there is.
pub data Shares (i : Interface) (url : Url) : Option ℕ → Option ℕ → Option ℕ → Type 0 where
  first : {c : ℕ} → url.scheme ≡ i.secure → Shares i url none (some c) (some c)
  again : {c : ℕ} → url.scheme ≡ i.secure → Shares i url (some c) (some c) (some c)
  plain : {ctx : Option ℕ} → url.scheme ≡ i.plain → Shares i url ctx none ctx

-- One server was attached, or none where the turn does not end.
unfoldable pub Opened :
    Outside → Interface → Url → Option ℕ → Starting → Starting × Outcome (Option ℕ) → Type 0
Opened out i url ctx s (t, ok later) =
    (a : Attached) × (t.servers ≡ s.servers ++ a ∷ [])
    × IsServer out i url a
    × Shares i url ctx a.context later
Opened out i url ctx s (t, _) = t.servers ≡ s.servers

Attaches : Outside → Interface → Url → Option ℕ → Starting → Starting × Outcome (Unit {0}) → Type 0
Attaches out i url context s (t, ok _) =
    (a : Attached) × (t.servers ≡ s.servers ++ a ∷ [])
    × IsServer out i url a
    × (a.context ≡ context)
Attaches out i url context s (t, _) = t.servers ≡ s.servers

add_server-Attaches :
    (out : Outside) (i : Interface) (url : Url) (context : Option ℕ) (s : Starting)
    (r : Process × Outcome ServerSocketChannel)
    → IsNewServer (url.host ++ b':' ∷ out.decimals (port_or i.default_port url.port)) r
    → Attaches out i url context s (and_then (in_process s r) (add_server out i context))
unfolding add_server IsNewServer Attaches
add_server-Attaches out i url context s (p, ok server) (fd, e) =
    if_both (Attaches out i url context s) (out.attaches server.fd)
      (
        record { server = i.tune server; context = context; factory = i.factory },
        refl,
        record { fd = fd; is_tuned = ap i.tune e; has_factory = refl },
        refl,
      )
      refl
add_server-Attaches out i url context s (p, throw e) h = refl
add_server-Attaches out i url context s (p, undefined) h = refl
add_server-Attaches out i url context s (p, out_of_fuel) h = refl

attach_server-Attaches :
    (out : Outside) (i : Interface) (url : Url) (context : Option ℕ) (s : Starting)
    → Attaches out i url context s (attach_server out i url context s)
unfolding attach_server
attach_server-Attaches out i url context s = add_server-Attaches out i url context s _ (
    new_server-IsNewServer out.listens (out.resolve url.host (port_or i.default_port url.port))
      url.host (out.decimals (port_or i.default_port url.port)) server_options s.process)

-- The turn of an address that was attached gives the context to the next turns.
Attaches-Opened :
    (out : Outside) (i : Interface) (url : Url) (ctx context later : Option ℕ) (s : Starting)
    (r : Starting × Outcome (Unit {0}))
    → Shares i url ctx context later
    → Attaches out i url context s r
    → Opened out i url ctx s (and_then r λ _ t. (t, ok later))
unfolding Opened Attaches
Attaches-Opened out i url ctx context later s (t, ok _) h (a, e, v, c) = (a, e, v, rw c h)
Attaches-Opened out i url ctx context later s (t, throw x) h e = e
Attaches-Opened out i url ctx context later s (t, undefined) h e = e
Attaches-Opened out i url ctx context later s (t, out_of_fuel) h e = e

open_secure-Opened :
    (out : Outside) (i : Interface) (url : Url) (ctx : Option ℕ) (s : Starting)
    → url.scheme ≡ i.secure
    → Opened out i url ctx s (open_secure out i url ctx s)
unfolding open_secure ensure_context Opened
open_secure-Opened out i url (some c) s h =
    Attaches-Opened out i url (some c) (some c) (some c) s _ (again h)
      (attach_server-Attaches out i url (some c) s)
open_secure-Opened out i url none s h = made (new_context (out.keystore i.path i.password) s.held)
  where
    made :
        (r : Held × Outcome ℕ)
        → Opened out i url none s (
            and_then
              (in_held s r)
              λ c t. and_then (attach_server out i url (some c) t) λ _ u. (u, ok (some c)))
    made (g, ok c) =
        Attaches-Opened out i url none (some c) (some c) _ _ (first h)
          (attach_server-Attaches out i url (some c) (record s { held = g }))
    made (g, throw e) = refl
    made (g, undefined) = refl
    made (g, out_of_fuel) = refl

pub open_url-Opened :
    (out : Outside) (i : Interface) (url : Url) (ctx : Option ℕ) (s : Starting)
    → Opened out i url ctx s (open_url out i url ctx s)
unfolding open_url open_plain Opened
open_url-Opened out i url ctx s = elim (Bool-cases (text_same url.scheme i.secure)) [
  | inl e ↦ rw e (open_secure-Opened out i url ctx s ((text_same_iff url.scheme i.secure).0 e))
  | inr n ↦ elim (Bool-cases (text_same url.scheme i.plain)) [
    | inl e ↦
        rw (n, e)
          (Attaches-Opened out i url ctx none ctx s _
            (plain ((text_same_iff url.scheme i.plain).0 e))
            (attach_server-Attaches out i url none s))
    | inr m ↦ rw (n, m) refl
  ]
]
