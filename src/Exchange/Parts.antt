-- ===== src/Exchange/Parts.antt =====
-- agent/exchange/pairs.py: where the base of a normalised pair ends.
use mathlib.Core.List.{reverse, reverse-append, reverse-reverse}
use tio_indodax.Prelude.{
  ℕ, ◌≡◌, ◌≢◌, ◌⊎◌, refl, sym, ap, ◌∙◌, true, false, none, some, List, [], ◌∷◌, ◌++◌, All, arith,
  ◌==◌, inl, inr,
}
use tio_indodax.Exchange.Pairs.{
  Text, codes, partition, known_quotes, split_suffix, drop_quote, drop_prefix,
}
use tio_indodax.Exchange.Normal.{IsNameChar, IsQuote}

list_cases : (s : Text) → (s ≡ []) ⊎ ((c : ℕ) × (r : Text) × (s ≡ c ∷ r))
list_cases [] = inl refl
list_cases (c ∷ r) = inr (c, r, refl)

-- Where the name ends.
pub partition-name : (s : Text) → All IsNameChar s → partition s ≡ none
unfolding partition
partition-name [] h = refl
partition-name (c ∷ s) (h, hs) =
    let letter : c == b'_' ≡ false = ground arith in rw (letter, partition-name s hs) refl

pub partition-ticker : (b q : Text) → All IsNameChar b → partition (b ++ (b'_' ∷ q)) ≡ some (b, q)
unfolding partition
partition-ticker [] q h = refl
partition-ticker (c ∷ b) q (h, hs) =
    let letter : c == b'_' ≡ false = ground arith in rw (letter, partition-ticker b q hs) refl

-- A quote is dropped from the end only.
drop_quote_miss : (q p : Text) → drop_prefix (reverse q) (reverse p) ≡ none → drop_quote q p ≡ none
unfolding drop_quote
drop_quote_miss q p h = rw (h, drop_quote) refl

drop_quote_hit :
    (q p : Text) (c : ℕ) (r : Text)
    → drop_prefix (reverse q) (reverse p) ≡ some (c ∷ r)
    → drop_quote q p ≡ some (reverse (c ∷ r))
unfolding drop_quote
drop_quote_hit q p c r h = rw (h, drop_quote) refl

drop_prefix-append : (s t : Text) → drop_prefix s (s ++ t) ≡ some t
unfolding drop_prefix
drop_prefix-append [] t = refl
drop_prefix-append (c ∷ s) t =
    let same : c == c ≡ true = ground arith in rw same (drop_prefix-append s t)

drop_quote-append : (b q : Text) → b ≢ [] → drop_quote q (b ++ q) ≡ some b
drop_quote-append b q full = elim (list_cases (reverse b)) [
  | inl none_left ↦ absurd (full (sym (reverse-reverse b) ∙ ap reverse none_left))
  | inr (c, r, e) ↦
      drop_quote_hit q (b ++ q) c r (
        ap (drop_prefix (reverse q)) (reverse-append b q)
        ∙ drop_prefix-append (reverse q) (reverse b)
        ∙ ap some e)
      ∙ ap some (ap reverse (sym e) ∙ reverse-reverse b)
]

drop_other :
    (b q other : Text)
    → drop_prefix (reverse other) (reverse q ++ reverse b) ≡ none
    → drop_quote other (b ++ q) ≡ none
drop_other b q other h =
    drop_quote_miss other (b ++ q) (ap (drop_prefix (reverse other)) (reverse-append b q) ∙ h)

split_suffix_hit :
    (q : Text) (rest : List Text) (p b : Text)
    → drop_quote q p ≡ some b
    → split_suffix (q ∷ rest) p ≡ some (b, q)
unfolding split_suffix
split_suffix_hit q rest p b h = rw (h, split_suffix) refl

split_suffix_miss :
    (q : Text) (rest : List Text) (p : Text)
    → drop_quote q p ≡ none
    → split_suffix (q ∷ rest) p ≡ split_suffix rest p
unfolding split_suffix
split_suffix_miss q rest p h = rw (h, split_suffix) refl

pub split_suffix-name :
    (b q : Text) → b ≢ [] → IsQuote q → split_suffix known_quotes (b ++ q) ≡ some (b, q)
unfolding drop_prefix
split_suffix-name b q full (inl e) =
    rw e (split_suffix_hit (codes "idr") _ _ b (drop_quote-append b (codes "idr") full))
split_suffix-name b q full (inr (inl e)) = rw e (
    split_suffix_miss (codes "idr") _ _ (drop_other b (codes "usdt") (codes "idr") refl)
    ∙ split_suffix_hit (codes "usdt") _ _ b (drop_quote-append b (codes "usdt") full))
split_suffix-name b q full (inr (inr e)) = rw e (
    split_suffix_miss (codes "idr") _ _ (drop_other b (codes "btc") (codes "idr") refl)
    ∙ split_suffix_miss (codes "usdt") _ _ (drop_other b (codes "btc") (codes "usdt") refl)
    ∙ split_suffix_hit (codes "btc") _ _ b (drop_quote-append b (codes "btc") full))
