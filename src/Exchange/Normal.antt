-- ===== src/Exchange/Normal.antt =====
-- agent/exchange/pairs.py: what stripping and lowering make of the characters of a pair.
use mathlib.Core.List.{reverse, reverse_aux, reverse-reverse}
use tio_indodax.Prelude.{
  ℕ, ◌≡◌, ◌≢◌, ◌⊎◌, ◌≤◌, refl, ap, ◌∙◌, false, [], ◌∷◌, ◌++◌, map, All, arith, inl, inr,
}
use tio_indodax.Exchange.Pairs.{
  Text, codes, is_space, strip_left, strip, canonical_char, normalise, upper_char,
}

-- A digit or a small letter.
abbrev pub IsNameChar : ℕ → Type 0
IsNameChar c = ((48 ≤ c) × (c ≤ 57)) ⊎ ((97 ≤ c) × (c ≤ 122))

abbrev pub IsName : Text → Type 0
IsName b = (b ≢ []) × All IsNameChar b

abbrev pub IsQuote : Text → Type 0
IsQuote q = (q ≡ codes "idr") ⊎ ((q ≡ codes "usdt") ⊎ (q ≡ codes "btc"))

abbrev IsInk : ℕ → Type 0
IsInk c = is_space c ≡ false

-- Text without spaces is not stripped.
module _ (P : ℕ → Type 0) where
  reverse_aux-All : (s t : Text) → All P s → All P t → All P (reverse_aux s t)
  reverse_aux-All [] t hs ht = ht
  reverse_aux-All (c ∷ s) t (h, hs) ht = reverse_aux-All s (c ∷ t) hs (h, ht)

  pub append-All : (s t : Text) → All P s → All P t → All P (s ++ t)
  append-All [] t hs ht = ht
  append-All (c ∷ s) t (h, hs) ht = (h, append-All s t hs ht)

strip_left_ink : (s : Text) → All IsInk s → strip_left s ≡ s
unfolding strip_left
strip_left_ink [] h = refl
strip_left_ink (c ∷ s) (h, hs) = rw h refl

strip_ink : (s : Text) → All IsInk s → strip s ≡ s
unfolding strip
strip_ink s h =
    ap (λ (t : Text). reverse (strip_left (reverse t))) (strip_left_ink s h)
    ∙ ap reverse (strip_left_ink (reverse s) (reverse_aux-All IsInk s [] h tt))
    ∙ reverse-reverse s

-- Characters that the normal form keeps.
abbrev pub IsStable : ℕ → Type 0
IsStable c = (IsInk c) × (canonical_char c ≡ c)

stable-IsInk : (s : Text) → All IsStable s → All IsInk s
stable-IsInk [] h = tt
stable-IsInk (c ∷ s) ((ink, same), hs) = (ink, stable-IsInk s hs)

stable-canonical : (s : Text) → All IsStable s → map canonical_char s ≡ s
stable-canonical [] h = refl
stable-canonical (c ∷ s) ((ink, same), hs) = rw (same, stable-canonical s hs) refl

pub normalise_stable : (s : Text) → All IsStable s → normalise s ≡ s
unfolding normalise
normalise_stable s h =
    ap (map canonical_char) (strip_ink s (stable-IsInk s h)) ∙ stable-canonical s h

name-IsInk : (c : ℕ) → IsNameChar c → IsInk c
unfolding is_space
name-IsInk c h = ground arith

upper-IsInk : (c : ℕ) → IsNameChar c → IsInk (upper_char c)
unfolding is_space upper_char
upper-IsInk c h = ground arith

canonical_name : (c : ℕ) → IsNameChar c → canonical_char c ≡ c
unfolding canonical_char
canonical_name c h = ground arith

canonical_upper : (c : ℕ) → IsNameChar c → canonical_char (upper_char c) ≡ c
unfolding canonical_char upper_char
canonical_upper c h = ground arith

pub names-IsStable : (s : Text) → All IsNameChar s → All IsStable s
names-IsStable [] h = tt
names-IsStable (c ∷ s) (h, hs) = ((name-IsInk c h, canonical_name c h), names-IsStable s hs)

uppers-IsInk : (s : Text) → All IsNameChar s → All IsInk (map upper_char s)
uppers-IsInk [] h = tt
uppers-IsInk (c ∷ s) (h, hs) = (upper-IsInk c h, uppers-IsInk s hs)

uppers-canonical : (s : Text) → All IsNameChar s → map canonical_char (map upper_char s) ≡ s
uppers-canonical [] h = refl
uppers-canonical (c ∷ s) (h, hs) = rw (canonical_upper c h, uppers-canonical s hs) refl

pub normalise_upper : (s : Text) → All IsNameChar s → normalise (map upper_char s) ≡ s
unfolding normalise
normalise_upper s h =
    ap (map canonical_char) (strip_ink (map upper_char s) (uppers-IsInk s h)) ∙ uppers-canonical s h

pub quote-IsName : (q : Text) → IsQuote q → All IsNameChar q
quote-IsName q (inl e) = rw e (ground arith)
quote-IsName q (inr (inl e)) = rw e (ground arith)
quote-IsName q (inr (inr e)) = rw e (ground arith)

pub bar-IsStable : IsStable b'_'
unfolding is_space canonical_char
bar-IsStable = (refl, refl)
