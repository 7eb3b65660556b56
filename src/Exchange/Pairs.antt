-- ===== src/Exchange/Pairs.antt =====
-- agent/exchange/pairs.py over ASCII text, as a list of codes. `none` is the `ValueError`.
use Prim.Native.Nat.{◌+◌, ◌-◌}
use Prim.Native.Char.{code}
use mathlib.Core.List.{reverse}
use tio_indodax.Prelude.{
  ℕ, String, Bool, true, false, ◌&&◌, ◌||◌, Option, none, some, List, [], ◌∷◌, ◌++◌, map, leb, ◌==◌,
  if◌then◌else◌, some_of,
}

abbrev pub Text : Type 0
Text = List ℕ

abbrev pub codes : String → Text
codes String.[] = []
codes (String.◌∷◌ c s) = code c ∷ codes s

unfoldable pub text_eq : Text → Text → Bool
text_eq [] [] = true
text_eq (a ∷ s) (b ∷ t) = a == b && text_eq s t
text_eq _ _ = false

-- What `str.strip` takes off.
unfoldable pub is_space : ℕ → Bool
is_space c = (leb 9 c && leb c 13) || (leb 28 c && leb c 32)

unfoldable pub strip_left : Text → Text
unfolding is_space
strip_left [] = []
strip_left (c ∷ s) = if is_space c then strip_left s else c ∷ s

unfoldable pub strip : Text → Text
unfolding strip_left
strip s = reverse (strip_left (reverse (strip_left s)))

-- `lower()`, then "/" and "-" to "_", by character.
unfoldable pub canonical_char : ℕ → ℕ
canonical_char c =
    if leb 65 c && leb c 90 then c + 32 else if c == b'/' || c == b'-' then b'_' else c

unfoldable pub normalise : Text → Text
unfolding strip canonical_char
normalise s = map canonical_char (strip s)

abbrev pub known_quotes : List Text
known_quotes = codes "idr" ∷ codes "usdt" ∷ codes "btc" ∷ []

-- p.partition("_"), if there is one.
unfoldable pub partition : Text → Option (Text × Text)
partition [] = none
partition (c ∷ s) =
    if c == b'_'
    then some ([], s)
    else elim (partition s) [ none ↦ none | some (b, q) ↦ some (c ∷ b, q) ]

unfoldable pub drop_prefix : Text → Text → Option Text
drop_prefix [] s = some s
drop_prefix (a ∷ p) [] = none
drop_prefix (a ∷ p) (b ∷ s) = if a == b then drop_prefix p s else none

-- p[: -len(quote)] if p ends with the quote and is longer.
unfoldable pub drop_quote : Text → Text → Option Text
unfolding drop_prefix
drop_quote quote p = elim (drop_prefix (reverse quote) (reverse p)) [
  | none ↦ none
  | some [] ↦ none
  | some (c ∷ r) ↦ some (reverse (c ∷ r))
]

unfoldable pub split_suffix : List Text → Text → Option (Text × Text)
unfolding drop_quote
split_suffix [] p = none
split_suffix (quote ∷ rest) p =
    let later = split_suffix rest p in
    elim (drop_quote quote p) [ some base ↦ some (base, quote) | none ↦ later ]

abbrev is_empty : Text → Bool
is_empty [] = true
is_empty (_ ∷ _) = false

-- `_split`
unfoldable pub split : Text → Option (Text × Text)
unfolding normalise partition split_suffix text_eq
split pair =
    let p = normalise pair in
    elim (partition p) [
      | some ([], quote) ↦ none
      | some (c ∷ base, quote) ↦
          if some_of (text_eq quote) known_quotes then some (c ∷ base, quote) else none
      | none ↦ split_suffix known_quotes p
    ]

unfoldable pub to_ticker_id : Text → Option Text
unfolding split
to_ticker_id pair = elim (split pair) [ none ↦ none | some (b, q) ↦ some (b ++ (b'_' ∷ q)) ]

unfoldable pub to_pair_id : Text → Option Text
unfolding split
to_pair_id pair = elim (split pair) [ none ↦ none | some (b, q) ↦ some (b ++ q) ]

-- `upper()`, by character.
unfoldable pub upper_char : ℕ → ℕ
upper_char c = if leb 97 c && leb c 122 then c - 32 else c

unfoldable pub to_symbol : Text → Option Text
unfolding to_pair_id
to_symbol pair = elim (to_pair_id pair) [ none ↦ none | some id ↦ some (map upper_char id) ]

unfoldable pub base_asset : Text → Option Text
unfolding split
base_asset pair = elim (split pair) [ none ↦ none | some (b, _) ↦ some b ]

unfoldable pub quote_asset : Text → Option Text
unfolding split
quote_asset pair = elim (split pair) [ none ↦ none | some (_, q) ↦ some q ]
