-- ===== src/Text/Search.antt =====
-- strings.Contains, strings.Split at a byte, and strings.Join, on lists of bytes.
use chum.Base.{ℕ, Bool, ◌||◌, List, [], ◌∷◌, ◌++◌, if◌then◌else◌, eqb, any}
use chum.Text.{Text, has_prefix, is_empty}

unfoldable pub contains : Text → Text → Bool
contains [] p = is_empty p
contains (x ∷ xs) p = has_prefix (x ∷ xs) p || contains xs p

-- Some pattern of the list stands in the text.
abbrev pub contains_any : List Text → Text → Bool
contains_any patterns s = any (contains s) patterns

abbrev pub cons_head : ℕ → List Text → List Text
cons_head x [] = (x ∷ []) ∷ []
cons_head x (l ∷ ls) = (x ∷ l) ∷ ls

unfoldable pub split : ℕ → Text → List Text
split c [] = [] ∷ []
split c (x ∷ xs) = let rest = split c xs in if eqb x c then [] ∷ rest else cons_head x rest

unfoldable pub join : Text → List Text → Text
join sep [] = []
join sep (t ∷ []) = t
join sep (t ∷ u ∷ ts) = t ++ sep ++ join sep (u ∷ ts)
