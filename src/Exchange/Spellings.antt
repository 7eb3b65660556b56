-- ===== src/Exchange/Spellings.antt =====
-- agent/exchange/pairs.py: the spellings of a pair, and what they are read as.
use tio_indodax.Prelude.{
  ℕ, ◌≡◌, refl, ap, ◌∙◌, true, none, some, [], ◌∷◌, ◌++◌, map, All, some_of, inl, inr,
}
use tio_indodax.Exchange.Pairs.{
  Text, normalise, partition, split, upper_char, to_ticker_id, to_pair_id, to_symbol, known_quotes,
  split_suffix, text_eq,
}
use tio_indodax.Exchange.Normal.{
  IsNameChar, IsName, IsQuote, IsStable, append-All, normalise_stable, names-IsStable,
  normalise_upper, quote-IsName, bar-IsStable,
}
use tio_indodax.Exchange.Parts.{partition-name, partition-ticker, split_suffix-name}

-- The three spellings.
split_plain :
    (p : Text) → partition (normalise p) ≡ none → split p ≡ split_suffix known_quotes (normalise p)
unfolding split
split_plain p e = rw (split, e) refl

split_barred :
    (p b q : Text) (c : ℕ)
    → partition (normalise p) ≡ some (c ∷ b, q)
    → some_of (text_eq q) known_quotes ≡ true
    → split p ≡ some (c ∷ b, q)
unfolding split
split_barred p b q c e f = rw (split, e, f) refl

split_name : (p b q : Text) → normalise p ≡ b ++ q → IsName b → IsQuote q → split p ≡ some (b, q)
split_name p b q e (full, name) quote =
    split_plain p (
      ap partition e
      ∙ partition-name (b ++ q) (append-All IsNameChar b q name (quote-IsName q quote)))
    ∙ ap (split_suffix known_quotes) e
    ∙ split_suffix-name b q full quote

quote-known : (q : Text) → IsQuote q → some_of (text_eq q) known_quotes ≡ true
unfolding text_eq
quote-known q (inl e) = rw e refl
quote-known q (inr (inl e)) = rw e refl
quote-known q (inr (inr e)) = rw e refl

split_ticker : (b q : Text) → IsName b → IsQuote q → split (b ++ (b'_' ∷ q)) ≡ some (b, q)
split_ticker [] q (full, name) quote = absurd (full refl)
split_ticker (c ∷ b) q (full, name) quote =
    let stable =
      append-All IsStable (c ∷ b) (b'_' ∷ q) (names-IsStable (c ∷ b) name)
        (bar-IsStable, names-IsStable q (quote-IsName q quote)) in
    split_barred ((c ∷ b) ++ (b'_' ∷ q)) b q c
      (ap partition (normalise_stable ((c ∷ b) ++ (b'_' ∷ q)) stable)
        ∙ partition-ticker (c ∷ b) q name)
      (quote-known q quote)

split_upper : (b q : Text) → IsName b → IsQuote q → split (map upper_char (b ++ q)) ≡ some (b, q)
split_upper b q (full, name) quote =
    split_name (map upper_char (b ++ q)) b q
      (normalise_upper (b ++ q) (append-All IsNameChar b q name (quote-IsName q quote)))
      (full, name) quote

split_id : (b q : Text) → IsName b → IsQuote q → split (b ++ q) ≡ some (b, q)
split_id b q (full, name) quote =
    let chars = append-All IsNameChar b q name (quote-IsName q quote) in
    split_name (b ++ q) b q (normalise_stable (b ++ q) (names-IsStable (b ++ q) chars)) (full, name)
      quote

-- Each conversion by what the pair is split into.
spelt :
    (p b q : Text)
    → split p ≡ some (b, q)
    → (to_ticker_id p ≡ some (b ++ (b'_' ∷ q)))
      × (to_pair_id p ≡ some (b ++ q))
      × (to_symbol p ≡ some (map upper_char (b ++ q)))
unfolding to_ticker_id to_pair_id to_symbol
spelt p b q e =
    (rw (to_ticker_id, e) refl, rw (to_pair_id, e) refl, rw (to_symbol, to_pair_id, e) refl)

-- Let a pair have a base of digits and small letters, not empty, and one of the known quotes. Its
-- ticker id, its pair id and its symbol are each what the conversion to it makes of any of the three;
-- so going from one spelling to another and back gives the first again.
pub to_ticker_id_round_trip :
    (b q : Text)
    → IsName b
    → IsQuote q
    → All
        (λ (p : Text).
          (to_ticker_id p ≡ some (b ++ (b'_' ∷ q)))
          × (to_pair_id p ≡ some (b ++ q))
          × (to_symbol p ≡ some (map upper_char (b ++ q))))
        ((b ++ (b'_' ∷ q)) ∷ (b ++ q) ∷ map upper_char (b ++ q) ∷ [])
to_ticker_id_round_trip b q name quote = (
  spelt (b ++ (b'_' ∷ q)) b q (split_ticker b q name quote),
  (
    spelt (b ++ q) b q (split_id b q name quote),
    (spelt (map upper_char (b ++ q)) b q (split_upper b q name quote), tt),
  ),
)
