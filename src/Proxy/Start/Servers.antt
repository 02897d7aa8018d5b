-- ===== src/Proxy/Start/Servers.antt =====
-- What `Proxy::onStart` leaves when it returns.
use jsonbus.Prelude.{
  ℕ, ◌≡◌, refl, sym, ap, ◌∙◌, false, ◌==◌, arith, append-nil, none, List, [], ◌∷◌, ◌++◌,
  append_assoc, if_both, if◌then◌else◌, is_empty, Outcome, ok, throw, undefined, out_of_fuel,
}
use jsonbus.Proxy.{FileFormat}
use jsonbus.Proxy.Start.Interfaces.{Serves, Started, open_urls-Started}
use jsonbus.Proxy.Start.{
  Outside, Attached, Starting, and_then, open_urls, split_commas, ProxySettings, format_of,
  main_interface, console_interface, open_interface, open_interfaces, on_start,
}

split_commas-is_empty : (t : List ℕ) → is_empty (split_commas t) ≡ false
unfolding split_commas
split_commas-is_empty [] = refl
split_commas-is_empty (c ∷ t) = several (split_commas t)
  where
    several :
        (ws : List (List ℕ))
        → is_empty
            (elim ws [ [] ↦ [] ∷ [] | w ∷ ws' ↦ if c == b',' then [] ∷ w ∷ ws' else (c ∷ w) ∷ ws' ])
          ≡ false
    several [] = refl
    several (w ∷ ws') = ground arith

-- The servers of both interfaces, or, where an address fails, those in front of it.
abbrev pub Both : Outside → ProxySettings → FileFormat → Starting → Starting → Type 0
Both out p format s t =
    (as' : List Attached) × (bs : List Attached) × (t.servers ≡ s.servers ++ (as' ++ bs))
    × Serves out (main_interface p format) none (split_commas p.main_uri) as'
    × Serves out (console_interface p) none (split_commas p.console_uri) bs

-- A start that returns knows its format and has a server for each address of both lists, in order; one
-- that throws or fails has added servers and removed none.
pub IsStarted : Outside → ProxySettings → Starting → Starting × Outcome (Unit {0}) → Type 0
IsStarted out p s (t, ok _) =
    (format : FileFormat) × (format_of p.main_format ≡ ok format) × Both out p format s t
IsStarted out p s (t, _) = (as' : List Attached) × (t.servers ≡ s.servers ++ as')

module _ (out : Outside) (p : ProxySettings) (format : FileFormat) (s : Starting) where
  -- The second interface, behind the servers of the first.
  Started-Both :
      (as' : List Attached) (t : Starting) (r : Starting × Outcome (Unit {0}))
      → format_of p.main_format ≡ ok format
      → t.servers ≡ s.servers ++ as'
      → Serves out (main_interface p format) none (split_commas p.main_uri) as'
      → Started out (console_interface p) none (split_commas p.console_uri) t r
      → IsStarted out p s r
  unfolding Started IsStarted
  Started-Both as' t (q, ok _) k e v (bs, f, g) =
      (format, k, (as', bs, f ∙ ap (λ x. x ++ bs) e ∙ append_assoc s.servers as' bs, v, g))
  Started-Both as' t (q, throw x) k e v (bs, _, _, _, f, _) =
      (as' ++ bs, f ∙ ap (λ x. x ++ bs) e ∙ append_assoc s.servers as' bs)
  Started-Both as' t (q, undefined) k e v (bs, _, _, _, f, _) =
      (as' ++ bs, f ∙ ap (λ x. x ++ bs) e ∙ append_assoc s.servers as' bs)
  Started-Both as' t (q, out_of_fuel) k e v (bs, _, _, _, f, _) =
      (as' ++ bs, f ∙ ap (λ x. x ++ bs) e ∙ append_assoc s.servers as' bs)

  Started-IsStarted :
      (r : Starting × Outcome (Unit {0}))
      → format_of p.main_format ≡ ok format
      → Started out (main_interface p format) none (split_commas p.main_uri) s r
      → IsStarted out p s
          (and_then r λ _. open_interface out (console_interface p) (split_commas p.console_uri))
  unfolding Started IsStarted open_interface
  Started-IsStarted (t, ok _) k (as', e, v) = rw (split_commas-is_empty p.console_uri) (
      Started-Both as' t (open_urls out (console_interface p) (split_commas p.console_uri) none t) k
        e v (open_urls-Started out (console_interface p) (split_commas p.console_uri) none t))
  Started-IsStarted (t, throw x) k (as', _, _, _, e, _) = (as', e)
  Started-IsStarted (t, undefined) k (as', _, _, _, e, _) = (as', e)
  Started-IsStarted (t, out_of_fuel) k (as', _, _, _, e, _) = (as', e)

format-IsStarted :
    (out : Outside) (p : ProxySettings) (s : Starting) (o : Outcome FileFormat)
    → format_of p.main_format ≡ o
    → IsStarted out p s (and_then (s, o) (open_interfaces out p))
unfolding IsStarted open_interfaces
format-IsStarted out p s (ok format) e =
    Started-IsStarted out p format s
      (open_urls out (main_interface p format) (split_commas p.main_uri) none s) e
      (open_urls-Started out (main_interface p format) (split_commas p.main_uri) none s)
format-IsStarted out p s (throw x) e = ([], sym (append-nil s.servers))
format-IsStarted out p s undefined e = ([], sym (append-nil s.servers))
format-IsStarted out p s out_of_fuel e = ([], sym (append-nil s.servers))

-- A start of the proxy that returns knows its format and has added a server for each address of the
-- main and then of the console interface, in order: with the name, the options and the peers of its
-- interface, and, for the secure schemes, with the one TLS context that the addresses of an
-- interface share. One that does not return has added servers and removed none.
pub on_start-IsStarted :
    (out : Outside) (p : ProxySettings) (s : Starting) → IsStarted out p s (on_start out p s)
unfolding on_start IsStarted
on_start-IsStarted out p s =
    if_both (IsStarted out p s) p.edit_settings ([], sym (append-nil s.servers))
      (if_both (IsStarted out p s) (is_empty (split_commas p.main_uri))
        ([], sym (append-nil s.servers)) (format-IsStarted out p s (format_of p.main_format) refl))
