-- ===== src/Proxy/Std/Registry.antt =====
-- Which boxes are registered, and under which name (nodebus/proxy/stdpeer.cpp).
use jsonbus.Prelude.{
  ap, ℕ, ◌≡◌, ◌≢◌, refl, true, false, List, [], ◌∷◌, Option, none, some, is_empty, Exception, ◌⊎◌,
  inl, inr, arith, Bool-cases, if_both,
}
use jsonbus.Dict.{nat_eq, text_eq, lookup, insert, lookup-insert, lookup-remove, text_same_iff}
use jsonbus.Variant.{Variant, Fields}
use jsonbus.Proxy.{Conversions, StdPeer, World, cancel_std, set_std, update, send_result}
use jsonbus.Proxy.Words.{Text}
use jsonbus.Proxy.Std.{
  Next, continues, breaks, throws, responded, write_error, write_response, process_register,
  register_uid, process_request, deliver, process_response, process_message, process, after_message,
  after_process, run,
}

-- A box that is registered under a name has it as its own, and it is not the empty one.
pub record IsRegistry (w : World) : Type 0 where
  pub own_uid : (uid : List ℕ) (n : ℕ) → lookup uid w.std_peers ≡ some n → (w.std n).uid ≡ uid
  pub named : (uid : List ℕ) (n : ℕ) → lookup uid w.std_peers ≡ some n → is_empty uid ≡ false

-- The steps that leave the names alone: the register is the same, and each box's name.
pub record SameNames (v w : World) : Type 0 where
  pub same_peers : w.std_peers ≡ v.std_peers
  pub same_uid : (n : ℕ) → (w.std n).uid ≡ (v.std n).uid

SameNames-IsRegistry : {v w : World} → SameNames v w → IsRegistry v → IsRegistry w
SameNames-IsRegistry s r = record {
  own_uid = λ uid n h. ground (arith, s.same_peers, s.same_uid n, r.own_uid uid n);
  named = λ uid n h. ground (arith, s.same_peers, r.named uid n);
}

SameNames-refl : (w : World) → SameNames w w
SameNames-refl w = record { same_peers = refl; same_uid = λ n. refl }

write_error-SameNames :
    (n : ℕ) (t : Text) (type : List ℕ) (w : World) → SameNames w (write_error n t type w)
unfolding write_error
write_error-SameNames n t type w = record { same_peers = refl; same_uid = λ m. refl }

write_error-IsRegistry :
    (n : ℕ) (t : Text) (type : List ℕ) (w : World)
    → IsRegistry w
    → IsRegistry (write_error n t type w)
write_error-IsRegistry n t type w r = SameNames-IsRegistry (write_error-SameNames n t type w) r

-- A turn of the loop ends with a sound register.
abbrev EndsRegistry : World × Next → Type 0
EndsRegistry x = IsRegistry x.0

write_response-SameNames :
    (n : ℕ) (object : List ℕ) (value : Variant) (w : World)
    → SameNames w (write_response n object value w)
unfolding write_response
write_response-SameNames n object value w = record { same_peers = refl; same_uid = λ m. refl }

deliver-SameNames :
    (conv : Conversions) (n : ℕ) (msguid : List ℕ) (m : Fields) (w : World)
    → SameNames w (deliver conv n msguid m w).0
unfolding deliver send_result
deliver-SameNames conv n msguid m w = record {
  same_peers = ground arith;
  same_uid = λ k. ground arith;
}

process_response-SameNames :
    (conv : Conversions) (n : ℕ) (m : Fields) (w : World)
    → SameNames w (process_response conv n m w).0
unfolding process_response
process_response-SameNames conv n m w =
    if_both (λ (x : World × Option Exception). SameNames w x.0) _ (deliver-SameNames conv n _ _ w)
      (SameNames-refl w)

responded-IsRegistry : (x : World × Option Exception) → IsRegistry x.0 → EndsRegistry (responded x)
responded-IsRegistry (w, none) r = r
responded-IsRegistry (w, some e) r = r

response-IsRegistry :
    (conv : Conversions) (n : ℕ) (m : Fields) (w : World)
    → IsRegistry w
    → EndsRegistry (responded (process_response conv n m w))
response-IsRegistry conv n m w r =
    responded-IsRegistry (process_response conv n m w)
      (SameNames-IsRegistry (process_response-SameNames conv n m w) r)

-- A box without a name is registered nowhere.
unnamed-IsRegistry :
    {w : World} (n : ℕ) (uid : List ℕ)
    → IsRegistry w
    → is_empty (w.std n).uid ≡ true
    → lookup uid w.std_peers ≢ some n
unnamed-IsRegistry n uid r e h = let own = r.own_uid uid n h in let named = r.named uid n h in cc

rename-IsRegistry :
    (n : ℕ) (uid : List ℕ) (w : World)
    → IsRegistry w
    → is_empty (w.std n).uid ≡ true
    → IsRegistry (set_std n (record (w.std n) { uid = uid }) w)
rename-IsRegistry n uid w r e = record {
  own_uid = λ id k h. ground (arith, r.own_uid id k, unnamed-IsRegistry n id r e);
  named = λ id k h. r.named id k h;
}

insert-IsRegistry :
    (n : ℕ) (uid : List ℕ) (w : World)
    → IsRegistry w
    → is_empty uid ≡ false
    → (w.std n).uid ≡ uid
    → IsRegistry (record w { std_peers = insert uid n w.std_peers })
insert-IsRegistry n uid w r e own = record {
  own_uid = λ id k h.
      ground (arith, r.own_uid id k, lookup-insert id uid n w.std_peers, text_same_iff uid id);
  named = λ id k h.
      ground (arith, r.named id k, lookup-insert id uid n w.std_peers, text_same_iff uid id);
}

update-same {ℓ} : {A : Type ℓ} (k : ℕ) (a : A) (f : ℕ → A) → update k a f k ≡ a
update-same k a f = ground arith

process_register-IsRegistry :
    (conv : Conversions) (n : ℕ) (m : Fields) (w : World)
    → IsRegistry w
    → IsRegistry (process_register conv n m w).0
unfolding process_register
process_register-IsRegistry conv n m w r =
    let uid = register_uid conv m in
    let named = set_std n (record (w.std n) { uid = uid }) w in
    elim (Bool-cases (is_empty (w.std n).uid)) [
      | inr f ↦ rw (process_register, f) (write_error-IsRegistry n _ _ w r)
      | inl t ↦
          let r1 = rename-IsRegistry n uid w r t in
          elim (Bool-cases (is_empty uid)) [
            | inl empty ↦ rw (process_register, t, empty) (write_error-IsRegistry n _ _ named r1)
            | inr full ↦
                rw (process_register, t, full)
                  (SameNames-IsRegistry (write_response-SameNames n _ _ _) (
                    insert-IsRegistry n uid named r1 full (ap StdPeer.uid (update-same n _ w.std))))
          ]
    ]

cancel_std-IsRegistry : (n : ℕ) (w : World) → IsRegistry w → IsRegistry (cancel_std n w)
unfolding cancel_std
cancel_std-IsRegistry n w r = record {
  own_uid = λ uid k h. ground (
    arith,
    r.own_uid uid k,
    r.named uid k,
    lookup-remove uid (w.std n).uid w.std_peers,
    text_same_iff (w.std n).uid uid,
  );
  named = λ uid k h. ground (arith, r.named uid k, lookup-remove uid (w.std n).uid w.std_peers);
}

process_request-IsRegistry :
    (conv : Conversions) (n : ℕ) (object : List ℕ) (m : Fields) (w : World)
    → IsRegistry w
    → IsRegistry (process_request conv n object m w).0
unfolding process_request
process_request-IsRegistry conv n object m w r =
    if_both EndsRegistry _ (write_error-IsRegistry n _ _ w r) (
      if_both EndsRegistry _ (process_register-IsRegistry conv n _ w r)
        (if_both EndsRegistry _ r (write_error-IsRegistry n _ _ w r)))

process_message-IsRegistry :
    (conv : Conversions) (n : ℕ) (m : Fields) (w : World)
    → IsRegistry w
    → IsRegistry (process_message conv n m w).0
unfolding process_message
process_message-IsRegistry conv n m w r = search (
  if_both EndsRegistry,
  write_error-IsRegistry,
  process_request-IsRegistry,
  response-IsRegistry conv n,
  r,
)

after_message-IsRegistry :
    (x : World × Next) (go : World → World × Option Exception)
    → IsRegistry x.0
    → ((w : World) → IsRegistry w → IsRegistry (go w).0)
    → IsRegistry (after_message x go).0
unfolding after_message
after_message-IsRegistry (w, continues) go r h = h w r
after_message-IsRegistry (w, breaks) go r h = r
after_message-IsRegistry (w, throws e) go r h = r

process-IsRegistry :
    (conv : Conversions) (n : ℕ) (messages : List (Exception ⊎ Fields)) (w : World)
    → IsRegistry w
    → IsRegistry (process conv n messages w).0
unfolding process
process-IsRegistry conv n [] w r =
    SameNames-IsRegistry (record { same_peers = refl; same_uid = λ k. ground arith }) r
process-IsRegistry conv n (inl e ∷ rest) w r = r
process-IsRegistry conv n (inr m ∷ rest) w r =
    after_message-IsRegistry (process_message conv n m w) (process conv n rest)
      (process_message-IsRegistry conv n m w r) (λ v h. process-IsRegistry conv n rest v h)

after_process-IsRegistry :
    (n : ℕ) (x : World × Option Exception) → IsRegistry x.0 → IsRegistry (after_process n x)
unfolding after_process
after_process-IsRegistry n (w, none) r = r
after_process-IsRegistry n (w, some e) r = cancel_std-IsRegistry n w r

-- Running a box on any messages, exceptions of the parser included, leaves a sound register: every name
-- in it is a non-empty one that its box has as its own.
pub run-IsRegistry :
    (conv : Conversions) (n : ℕ) (messages : List (Exception ⊎ Fields)) (w : World)
    → IsRegistry w
    → IsRegistry (run conv n messages w)
unfolding run
run-IsRegistry conv n messages w r =
    let start = set_std n (record (w.std n) { attached = false }) w in
    let detached : SameNames w start = record { same_peers = refl; same_uid = λ k. ground arith } in
    after_process-IsRegistry n (process conv n messages start)
      (process-IsRegistry conv n messages start (SameNames-IsRegistry detached r))
