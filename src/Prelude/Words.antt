-- ===== src/Prelude/Words.antt =====
-- The methods of `str` that cut a text into words.
use Prim.Native.Nat.{ℕ, ◌+◌, ◌*◌, ◌-◌, ◌^◌}
use mathlib.Core.Bool.{Bool, ◌&&◌, not}
use mathlib.Core.Option.{Option, none, some}
use mathlib.Core.List.{List, [], ◌∷◌, ◌++◌, map}
use roblox.Prelude.Tests.{leb, ltb, if◌then◌else◌}
use roblox.Prelude.Lists.{is_empty}
use roblox.Prelude.Strings.{Text, is_whitespace, to_ascii_lowercase}

-- `Iterator::filter`
abbrev pub filter {ℓ} : {A : Type ℓ} → (A → Bool) → List A → List A
filter p [] = []
filter p (a ∷ l) = let rest = filter p l in if p a then a ∷ rest else rest

abbrev push : ℕ → List Text → List Text
push c [] = (c ∷ []) ∷ []
push c (word ∷ words) = (c ∷ word) ∷ words

-- `str::split`, on the characters that a test accepts.
unfoldable pub split : (ℕ → Bool) → Text → List Text
split at [] = [] ∷ []
split at (c ∷ s) = let rest = split at s in if at c then [] ∷ rest else push c rest

-- `str::split_whitespace`
unfoldable pub split_whitespace : Text → List Text
unfolding is_whitespace
split_whitespace s = filter (λ word. not (is_empty word)) (split is_whitespace s)

-- `join(" ")`
unfoldable pub join_spaces : List Text → Text
join_spaces [] = []
join_spaces (word ∷ []) = word
join_spaces (word ∷ more ∷ words) = word ++ b' ' ∷ join_spaces (more ∷ words)

-- `str::to_ascii_lowercase`
unfoldable pub text_lowercase : Text → Text
unfolding to_ascii_lowercase
text_lowercase s = map to_ascii_lowercase s

-- `char::is_ascii_digit`
abbrev pub is_ascii_digit : ℕ → Bool
is_ascii_digit c = leb b'0' c && leb c b'9'

-- The number that ASCII digits spell.
unfoldable pub number_from : ℕ → Text → ℕ
number_from n [] = n
number_from n (c ∷ s) = number_from (n * 10 + (c - b'0')) s

-- `parse::<uN>` of a text of ASCII digits, for N bits.
unfoldable pub parse_digits : ℕ → Text → Option ℕ
parse_digits bits s =
    let n = number_from 0 s in
    if is_empty s then none else if ltb n (2 ^ bits) then some n else none

unfoldable pub trim_start : Text → Text
unfolding is_whitespace
trim_start [] = []
trim_start (c ∷ s) = let rest = trim_start s in if is_whitespace c then rest else c ∷ s

unfoldable pub trim_end : Text → Text
unfolding is_whitespace
trim_end [] = []
trim_end (c ∷ s) =
    let rest = trim_end s in if is_empty rest && is_whitespace c then [] else c ∷ rest

-- `str::trim`
unfoldable pub trim : Text → Text
unfolding trim_start trim_end
trim s = trim_end (trim_start s)
