-- ===== src/Simulator/Audit/Keys.antt =====
-- The comparison of keys by their join.
use mathlib.Core.List.{append-nil}
use metrics_pipeline_go.Prelude.{
  ℕ, ◌≡◌, refl, sym, ap, ◌∙◌, Bool, true, not, ◌&&◌, List, [], ◌∷◌, ◌++◌, all, is_empty, Str, ◌==◌,
  arith,
}
use metrics_pipeline_go.Simulator.Audit.{join_keys}

abbrev pub is_plain : Str → Bool
is_plain k = not (is_empty k) && all (λ c. not (c == 0)) k

-- No key is empty or has a zero byte.
abbrev pub are_plain : List Str → Bool
are_plain keys = all is_plain keys

-- The join after the first key.
abbrev tail_of : List Str → Str
unfolding join_keys
tail_of [] = []
tail_of (k ∷ keys) = 0 ∷ join_keys (k ∷ keys)

join_keys_cons : (k : Str) (keys : List Str) → join_keys (k ∷ keys) ≡ k ++ tail_of keys
unfolding join_keys tail_of
join_keys_cons k [] = sym (append-nil k)
join_keys_cons k (j ∷ keys) = refl

tail_of_starts : (keys : List Str) (c : ℕ) (rest : Str) → tail_of keys ≡ c ∷ rest → c ≡ 0
unfolding tail_of
tail_of_starts [] c rest h = cc
tail_of_starts (k ∷ keys) c rest h = ground arith

-- Without zero bytes, what stands before the first zero byte is known.
split_at_zero :
    (s t : Str) (ks ls : List Str)
    → all (λ c. not (c == 0)) s ≡ true
    → all (λ c. not (c == 0)) t ≡ true
    → s ++ tail_of ks ≡ t ++ tail_of ls
    → (s ≡ t) × (tail_of ks ≡ tail_of ls)
split_at_zero [] [] ks ls hs ht h = (refl, h)
split_at_zero [] (y ∷ t) ks ls hs ht h =
    absurd (ground (arith, tail_of_starts ks y (t ++ tail_of ls) h))
split_at_zero (x ∷ s) [] ks ls hs ht h =
    absurd (ground (arith, tail_of_starts ls x (s ++ tail_of ks) (sym h)))
split_at_zero (x ∷ s) (y ∷ t) ks ls hs ht h = ground (arith, split_at_zero s t ks ls)

tail_of-injective :
    (ks ls : List Str)
    → are_plain ks ≡ true
    → are_plain ls ≡ true
    → tail_of ks ≡ tail_of ls
    → ks ≡ ls
unfolding tail_of
tail_of-injective [] [] hk hl h = refl
tail_of-injective [] (l ∷ ls) hk hl h = cc
tail_of-injective (k ∷ ks) [] hk hl h = cc
tail_of-injective (k ∷ ks) (l ∷ ls) hk hl h =
    let joined : k ++ tail_of ks ≡ l ++ tail_of ls =
      sym (join_keys_cons k ks) ∙ ground arith ∙ join_keys_cons l ls in
    let (same, rest) = split_at_zero k l ks ls (ground arith) (ground arith) joined in
    ground (arith, same, tail_of-injective ks ls, rest)

join_keys_empty : (k : Str) (keys : List Str) → is_plain k ≡ true → [] ≡ join_keys (k ∷ keys) → ⊥
join_keys_empty [] keys h e = ground arith
join_keys_empty (c ∷ k) keys h e = ground (arith, e, join_keys_cons (c ∷ k) keys)

-- Plain keys with the same join are the same.
pub join_keys-injective :
    (ks ls : List Str)
    → are_plain ks ≡ true
    → are_plain ls ≡ true
    → join_keys ks ≡ join_keys ls
    → ks ≡ ls
unfolding tail_of join_keys
join_keys-injective [] [] hk hl h = refl
join_keys-injective [] (l ∷ ls) hk hl h = absurd (join_keys_empty l ls (ground arith) h)
join_keys-injective (k ∷ ks) [] hk hl h = absurd (join_keys_empty k ks (ground arith) (sym h))
join_keys-injective (k ∷ ks) (l ∷ ls) hk hl h =
    tail_of-injective (k ∷ ks) (l ∷ ls) hk hl (ap (λ s. 0 ∷ s) h)
