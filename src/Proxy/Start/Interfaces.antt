-- ===== src/Proxy/Start/Interfaces.antt =====
-- Which servers a start leaves, in which order, and with which TLS contexts.
use jsonbus.Prelude.{
  ℕ, ◌≡◌, refl, sym, ap, ◌∙◌, Option, List, [], ◌∷◌, ◌++◌, append_assoc, append-nil, Outcome, ok,
  throw, undefined, out_of_fuel,
}
use jsonbus.Proxy.Start.Turns.{IsServer, Shares, Opened, open_url-Opened}
use jsonbus.Proxy.Start.{Outside, Attached, Starting, Interface, and_then, open_urls}

-- A server for each address, in order.
pub data Serves (out : Outside) (i : Interface)
    : Option ℕ → List (List ℕ) → List Attached → Type 0 where
  end : {ctx : Option ℕ} → Serves out i ctx [] []
  next :
      {ctx later : Option ℕ} {u : List ℕ} {urls : List (List ℕ)} {a : Attached}
      {as' : List Attached}
      → IsServer out i (out.parse_url u) a
      → Shares i (out.parse_url u) ctx a.context later
      → Serves out i later urls as'
      → Serves out i ctx (u ∷ urls) (a ∷ as')

-- A server for each of the first addresses.
abbrev pub Partly : Outside → Interface → Option ℕ → List (List ℕ) → Starting → Starting → Type 0
Partly out i ctx urls s t =
    (as' : List Attached) × (front : List (List ℕ)) × (rest : List (List ℕ)) × (urls
      ≡ front ++ rest)
    × (t.servers ≡ s.servers ++ as')
    × Serves out i ctx front as'

-- A server for each address, or, where the loop does not end, for a front of them.
unfoldable pub Started :
    Outside
    → Interface
    → Option ℕ
    → List (List ℕ)
    → Starting
    → Starting × Outcome (Unit {0})
    → Type 0
Started out i ctx urls s (t, ok _) =
    (as' : List Attached) × (t.servers ≡ s.servers ++ as') × Serves out i ctx urls as'
Started out i ctx urls s (t, _) = Partly out i ctx urls s t

module _ (out : Outside) (i : Interface) (ctx : Option ℕ) where
  unchanged-Partly :
      (urls : List (List ℕ)) (s t : Starting) → t.servers ≡ s.servers → Partly out i ctx urls s t
  unchanged-Partly urls s t e = ([], [], urls, refl, e ∙ sym (append-nil s.servers), end)

  module _ (later : Option ℕ) (u : List ℕ) (urls : List (List ℕ)) (a : Attached) (s t : Starting)
      (e : t.servers ≡ s.servers ++ a ∷ []) (v : IsServer out i (out.parse_url u) a)
      (h : Shares i (out.parse_url u) ctx a.context later) where
    turn-Partly : (q : Starting) → Partly out i later urls t q → Partly out i ctx (u ∷ urls) s q
    turn-Partly q (as', front, rest, w, f, g) = (
      a ∷ as',
      u ∷ front,
      rest,
      ap (λ x. u ∷ x) w,
      f ∙ ap (λ x. x ++ as') e ∙ append_assoc s.servers (a ∷ []) as',
      next v h g,
    )

    turn-Started :
        (r : Starting × Outcome (Unit {0}))
        → Started out i later urls t r
        → Started out i ctx (u ∷ urls) s r
    unfolding Started
    turn-Started (q, ok _) (as', f, g) =
        (a ∷ as', f ∙ ap (λ x. x ++ as') e ∙ append_assoc s.servers (a ∷ []) as', next v h g)
    turn-Started (q, throw x) p = turn-Partly q p
    turn-Started (q, undefined) p = turn-Partly q p
    turn-Started (q, out_of_fuel) p = turn-Partly q p

  -- One turn, and then the others.
  Opened-Started :
      (u : List ℕ) (urls : List (List ℕ)) (s : Starting) (r : Starting × Outcome (Option ℕ))
      → ((c : Option ℕ) (t : Starting) → Started out i c urls t (open_urls out i urls c t))
      → Opened out i (out.parse_url u) ctx s r
      → Started out i ctx (u ∷ urls) s (and_then r λ c. open_urls out i urls c)
  unfolding Opened Started
  Opened-Started u urls s (t, ok later) k (a, e, v, h) =
      turn-Started later u urls a s t e v h (open_urls out i urls later t) (k later t)
  Opened-Started u urls s (t, throw x) k e = unchanged-Partly (u ∷ urls) s t e
  Opened-Started u urls s (t, undefined) k e = unchanged-Partly (u ∷ urls) s t e
  Opened-Started u urls s (t, out_of_fuel) k e = unchanged-Partly (u ∷ urls) s t e

pub open_urls-Started :
    (out : Outside) (i : Interface) (urls : List (List ℕ)) (ctx : Option ℕ) (s : Starting)
    → Started out i ctx urls s (open_urls out i urls ctx s)
unfolding open_urls Started
open_urls-Started out i [] ctx s = ([], sym (append-nil s.servers), end)
open_urls-Started out i (u ∷ urls) ctx s =
    Opened-Started out i ctx u urls s _ (open_urls-Started out i urls)
      (open_url-Opened out i (out.parse_url u) ctx s)
