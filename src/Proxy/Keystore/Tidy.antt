-- ===== src/Proxy/Keystore/Tidy.antt =====
-- What the constructor of `PKCS12SSLCtx` leaves allocated.
use jsonbus.Prelude.{
  inr, inl, ℕ, ◌≡◌, refl, ◌∙◌, ap, ◌&&◌, Option, none, some, Option-cases, List, ◌∷◌, if_both,
  exception, Outcome, ok, throw, undefined, out_of_fuel,
}
use jsonbus.Nio.Sockets.Held.{remove_first}
use jsonbus.Nio.Sockets.{remove}
use jsonbus.Proxy.Keystore.{
  Authority, Keystore, Held, add_context, open_file, give_up, add_authorities, fill_context,
  use_keystore, read_keystore, new_context,
}

-- The file is closed; a context that is given back was allocated, and the one of a constructor that
-- throws is freed.
pub IsTidy : Held → Held × Outcome ℕ → Type 0
IsTidy h (q, ok c) = (q.files ≡ h.files) × (q.contexts ≡ c ∷ h.contexts)
IsTidy h (q, throw e) = (q.files ≡ h.files) × (q.contexts ≡ h.contexts) × (e ≡ exception)
IsTidy h (q, undefined) = q.files ≡ h.files
IsTidy h (q, out_of_fuel) = ⊥

-- Only the PKCS12 objects differ between the states.
SameHeld : Held → Held → Type 0
SameHeld g h = (g.files ≡ h.files) × (g.contexts ≡ h.contexts)

give_up-IsTidy :
    (context : Option ℕ) (h g : Held)
    → SameHeld g (add_context context h)
    → IsTidy h (give_up context none g)
unfolding give_up IsTidy SameHeld
give_up-IsTidy none h g (f, c) = (f, c, refl)
give_up-IsTidy (some x) h g (f, c) = (f, ap (remove x) c ∙ remove_first x h.contexts, refl)

give_up_open-IsTidy :
    (context : Option ℕ) (file : ℕ) (h g : Held)
    → SameHeld g (open_file file (add_context context h))
    → IsTidy h (give_up context (some file) g)
unfolding give_up IsTidy SameHeld
give_up_open-IsTidy none x h g (f, c) = (ap (remove x) f ∙ remove_first x h.files, c, refl)
give_up_open-IsTidy (some y) x h g (f, c) =
    (ap (remove x) f ∙ remove_first x h.files, ap (remove y) c ∙ remove_first y h.contexts, refl)

fill_context-IsTidy :
    (k : Keystore) (as' : List Authority) (context : Option ℕ) (h g : Held)
    → SameHeld g (add_context context h)
    → IsTidy h (fill_context k as' context g)
unfolding fill_context IsTidy SameHeld
fill_context-IsTidy k as' none h g (f, c) = f
fill_context-IsTidy k as' (some x) h g s =
    if_both (IsTidy h) (k.uses_certificate && (k.uses_key && (k.key_fits && add_authorities as'))) s
      (give_up-IsTidy (some x) h g s)

use_keystore-IsTidy :
    (k : Keystore) (h g : Held) → SameHeld g (add_context k.context h) → IsTidy h (use_keystore k g)
unfolding use_keystore
use_keystore-IsTidy k h g s =
    if_both (IsTidy h) (k.has_key && k.has_certificate)
      (elim (Option-cases k.authorities) [
        | inl e ↦ rw e (give_up-IsTidy k.context h g s)
        | inr (as', e) ↦ rw e (fill_context-IsTidy k as' k.context h g s)
      ])
      (give_up-IsTidy k.context h g s)

read_keystore-IsTidy :
    (k : Keystore) (f : ℕ) (h : Held)
    → IsTidy h (read_keystore k f (open_file f (add_context k.context h)))
unfolding read_keystore SameHeld
read_keystore-IsTidy k f h =
    if_both (IsTidy h) k.is_read
      (if_both (IsTidy h) k.is_parsed
        (use_keystore-IsTidy k h _ (remove_first f (add_context k.context h).files, refl))
        (give_up_open-IsTidy k.context f h _ (refl, refl)))
      (give_up_open-IsTidy k.context f h _ (refl, refl))

-- Whichever call fails, the constructor of PKCS12SSLCtx leaves no file open; a context that it gives
-- back is allocated, and where it throws, which is a plain Exception, the context is freed.
pub new_context-IsTidy : (k : Keystore) (h : Held) → IsTidy h (new_context k h)
unfolding new_context SameHeld
new_context-IsTidy k h = elim (Option-cases k.file) [
  | inl e ↦ rw e (give_up-IsTidy k.context h _ (refl, refl))
  | inr (f, e) ↦ rw e (read_keystore-IsTidy k f h)
]
