-- ===== src/Variant/Order.antt =====
-- Inserting the entries of a sorted map one after the other gives the map again.
use jsonbus.Prelude.{ℕ, ◌≡◌, refl, ap, true, false, List, [], ◌∷◌, arith}
use jsonbus.Variant.{Variant, Fields, end, field, key_lt, insert}

unfoldable pub append_fields : Fields → Fields → Fields
append_fields end gs = gs
append_fields (field k v fs) gs = field k v (append_fields fs gs)

-- Every key of the map is below `k`.
abbrev pub KeysBelow : List ℕ → Fields → Type 0
KeysBelow k end = Unit
KeysBelow k (field j v fs) = (key_lt j k ≡ true) × KeysBelow k fs

-- Every key of `acc` is below every key of the second map.
abbrev pub AllBelow : Fields → Fields → Type 0
AllBelow acc end = Unit
AllBelow acc (field k v fs) = KeysBelow k acc × AllBelow acc fs

-- Every key of the map is above `k`.
abbrev pub KeysAbove : List ℕ → Fields → Type 0
KeysAbove k end = Unit
KeysAbove k (field j v fs) = (key_lt k j ≡ true) × KeysAbove k fs

pub key_lt_asymm : (a b : List ℕ) → key_lt a b ≡ true → key_lt b a ≡ false
unfolding key_lt
key_lt_asymm [] [] h = refl
key_lt_asymm [] (b ∷ bs) h = refl
key_lt_asymm (a ∷ as') [] h = ground arith
key_lt_asymm (a ∷ as') (b ∷ bs) h = ground (arith, key_lt_asymm as' bs)

pub insert-append_fields :
    (k : List ℕ) (v : Variant) (acc : Fields)
    → KeysBelow k acc
    → insert k v acc ≡ append_fields acc (field k v end)
unfolding insert append_fields
insert-append_fields k v end h = refl
insert-append_fields k v (field j w fs) h =
    ground (arith, key_lt_asymm j k, insert-append_fields k v fs h.1)

KeysBelow-append_fields :
    (k j : List ℕ) (v : Variant) (acc : Fields)
    → KeysBelow k acc
    → key_lt j k ≡ true
    → KeysBelow k (append_fields acc (field j v end))
unfolding append_fields
KeysBelow-append_fields k j v end h e = (e, tt)
KeysBelow-append_fields k j v (field i w fs) h e = (h.0, KeysBelow-append_fields k j v fs h.1 e)

pub AllBelow-append_fields :
    (k : List ℕ) (v : Variant) (acc fs : Fields)
    → AllBelow acc fs
    → KeysAbove k fs
    → AllBelow (append_fields acc (field k v end)) fs
AllBelow-append_fields k v acc end h a = tt
AllBelow-append_fields k v acc (field j w fs) h a =
    (KeysBelow-append_fields j k v acc h.0 a.0, AllBelow-append_fields k v acc fs h.1 a.1)

pub append_fields_assoc :
    (fs gs hs : Fields)
    → append_fields (append_fields fs gs) hs ≡ append_fields fs (append_fields gs hs)
unfolding append_fields
append_fields_assoc end gs hs = refl
append_fields_assoc (field k v fs) gs hs = ap (λ t. field k v t) (append_fields_assoc fs gs hs)

pub append_fields-end : (fs : Fields) → append_fields fs end ≡ fs
unfolding append_fields
append_fields-end end = refl
append_fields-end (field k v fs) = ap (λ t. field k v t) (append_fields-end fs)

pub AllBelow-end : (fs : Fields) → AllBelow end fs
AllBelow-end end = tt
AllBelow-end (field k v fs) = (tt, AllBelow-end fs)
