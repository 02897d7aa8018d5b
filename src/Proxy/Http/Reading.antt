-- ===== src/Proxy/Http/Reading.antt =====
-- How the header is cut from the bytes (nodebus/proxy/httppeer.cpp).
use jsonbus.Prelude.{
  ℕ, ◌≡◌, ap, true, List, [], ◌∷◌, ◌++◌, Option, none, some, arith, Bool-cases, inl, inr,
}
use jsonbus.Proxy.Http.{is_header_end, prepend, read_loop, read_header}

-- `bytes` begin with `start` and an empty line, and `text` is `start` with the end of its line.
pub record IsCut (bytes text rest : List ℕ) : Type 0 where
  pub start : List ℕ
  pub bytes_cut : bytes ≡ start ++ 13 ∷ 10 ∷ 13 ∷ 10 ∷ rest
  pub text_cut : text ≡ start ++ 13 ∷ 10 ∷ []

IsCut-here :
    (c1 c2 c3 c4 : ℕ) (s : List ℕ)
    → is_header_end c1 c2 c3 c4 ≡ true
    → IsCut (c1 ∷ c2 ∷ c3 ∷ c4 ∷ s) (c1 ∷ c2 ∷ []) s
IsCut-here c1 c2 c3 c4 s h = record {
  start = [];
  bytes_cut = ground arith;
  text_cut = ground arith;
}

IsCut-later :
    (c : ℕ) {bytes text rest : List ℕ} → IsCut bytes text rest → IsCut (c ∷ bytes) (c ∷ text) rest
IsCut-later c k = record {
  start = c ∷ k.start;
  bytes_cut = ap (λ x. c ∷ x) k.bytes_cut;
  text_cut = ap (λ x. c ∷ x) k.text_cut;
}

prepend-some :
    (c : ℕ) (o : Option (List ℕ × List ℕ)) (text rest : List ℕ)
    → prepend c o ≡ some (text, rest)
    → (t : List ℕ) × (o ≡ some (t, rest)) × (text ≡ c ∷ t)
prepend-some c none text rest h = cc
prepend-some c (some (t, r)) text rest h = (t, ground arith, ground arith)

at_once :
    (c1 c2 c3 c4 : ℕ) (s text rest : List ℕ)
    → is_header_end c1 c2 c3 c4 ≡ true
    → ◌≡◌ {A = Option (List ℕ × List ℕ)} (some ([], s)) (some (text, rest))
    → IsCut (c1 ∷ c2 ∷ c3 ∷ c4 ∷ s) (c1 ∷ c2 ∷ text) rest
at_once c1 c2 c3 c4 s text rest e h =
    let empty : text ≡ [] = cc in
    let same : rest ≡ s = cc in rw (empty, same) (IsCut-here c1 c2 c3 c4 s e)

read_loop-IsCut :
    (c1 c2 c3 c4 : ℕ) (s text rest : List ℕ)
    → read_loop c1 c2 c3 c4 s ≡ some (text, rest)
    → IsCut (c1 ∷ c2 ∷ c3 ∷ c4 ∷ s) (c1 ∷ c2 ∷ text) rest
unfolding read_loop
read_loop-IsCut c1 c2 c3 c4 [] text rest h = elim (Bool-cases (is_header_end c1 c2 c3 c4)) [
  | inl e ↦ at_once c1 c2 c3 c4 [] text rest e (ground (arith, h))
  | inr e ↦ ground (arith, h)
]
read_loop-IsCut c1 c2 c3 c4 (c ∷ s) text rest h = elim (Bool-cases (is_header_end c1 c2 c3 c4)) [
  | inl e ↦ at_once c1 c2 c3 c4 (c ∷ s) text rest e (ground (arith, h))
  | inr e ↦
      let (t, h1, e1) = prepend-some c3 (read_loop c2 c3 c4 c s) text rest (ground (arith, h)) in
      rw e1 (IsCut-later c1 (read_loop-IsCut c2 c3 c4 c s t rest h1))
]

-- What `process` takes as the header is the text in front of an empty line, with the end of its own last
-- line, and what is left is all that stands behind the empty line.
pub read_header-IsCut :
    (bytes text rest : List ℕ) → read_header bytes ≡ some (text, rest) → IsCut bytes text rest
unfolding read_header
read_header-IsCut [] text rest h = cc
read_header-IsCut (c1 ∷ []) text rest h = cc
read_header-IsCut (c1 ∷ c2 ∷ []) text rest h = cc
read_header-IsCut (c1 ∷ c2 ∷ c3 ∷ []) text rest h = cc
read_header-IsCut (c1 ∷ c2 ∷ c3 ∷ c4 ∷ s) text rest h =
    let (t1, h1, e1) = prepend-some c1 (prepend c2 (read_loop c1 c2 c3 c4 s)) text rest h in
    let (t2, h2, e2) = prepend-some c2 (read_loop c1 c2 c3 c4 s) t1 rest h1 in
    rw (e1, e2) (read_loop-IsCut c1 c2 c3 c4 s t2 rest h2)
