-- ===== src/Common/Text.antt =====
-- Text is the list of its Unicode code points, which is how Python indexes a `str`. The tests are
-- those of `str`, and a fixed-length pattern of character classes stands for the source's regular
-- expressions.
use Prim.Native.Nat.{ℕ, zero, suc, ◌+◌}
use Prim.Native.Char.{code}
use Prim.Native.String.{String}
use mathlib.Core.Bool.{Bool, true, false, ◌&&◌, ◌||◌}
use mathlib.Core.Logic.{◌↔◌}
use mathlib.Core.Path.{◌≡◌, refl}
use mathlib.Core.List.{List, [], ◌∷◌, ◌++◌, reverse}
use mathlib.Core.Option.{Option, none, some}
use native.Mathlib.Omega.{arith}
use checkdigit.Common.Tests.{leb, ◌==◌, if◌then◌else◌}
use checkdigit.Common.Lists.{take, drop, length}

abbrev pub Str : Type 0
Str = List ℕ

-- A literal of the source; each one is ASCII.
abbrev pub codes : String → Str
codes String.[] = []
codes (String.◌∷◌ c s) = code c ∷ codes s

-- `a == b`
unfoldable pub str_eq : Str → Str → Bool
str_eq [] [] = true
str_eq (x ∷ xs) (y ∷ ys) = x == y && str_eq xs ys
str_eq _ _ = false

-- `c in s`, for one character
unfoldable pub contains : ℕ → Str → Bool
contains c [] = false
contains c (x ∷ xs) = c == x || contains c xs

-- `s in set`, for a set of texts
unfoldable pub has : List Str → Str → Bool
has [] s = false
has (k ∷ ks) s = str_eq k s || has ks s

-- `s.startswith(p)`
unfoldable pub starts_with : Str → Str → Bool
starts_with [] s = true
starts_with (p ∷ ps) [] = false
starts_with (p ∷ ps) (c ∷ cs) = p == c && starts_with ps cs

-- `text[start:start + n]`
abbrev pub slice : Str → ℕ → ℕ → Str
slice text start n = take n (drop start text)

abbrev pub is_digit : ℕ → Bool
is_digit c = leb b'0' c && leb c b'9'

abbrev pub is_upper : ℕ → Bool
is_upper c = leb b'A' c && leb c b'Z'

-- `str.isspace` of one character, and `\s` of the `re` module: the same set.
unfoldable pub is_space : ℕ → Bool
is_space c =
    leb 9 c && leb c 13
    || leb 28 c && leb c 32
    || c == 0x85
    || c == 0xa0
    || c == 0x1680
    || leb 0x2000 c && leb c 0x200a
    || c == 0x2028
    || c == 0x2029
    || c == 0x202f
    || c == 0x205f
    || c == 0x3000

-- `str.lstrip()` and `str.strip()`
unfoldable pub lstrip : Str → Str
lstrip [] = []
lstrip (c ∷ cs) = if is_space c then lstrip cs else c ∷ cs

unfoldable pub strip : Str → Str
unfolding lstrip
strip s = reverse (lstrip (reverse (lstrip s)))

-- `not s.strip()`
unfoldable pub is_blank : Str → Bool
is_blank [] = true
is_blank (c ∷ cs) = is_space c && is_blank cs

abbrev pub is_empty : Str → Bool
is_empty [] = true
is_empty (_ ∷ _) = false

-- `t.find(s)` in the text `t`, counted from index `i` on, nothing for -1
unfoldable pub find_at : ℕ → Str → Str → Option ℕ
find_at i s [] = if starts_with s [] then some i else none
find_at i s (c ∷ cs) =
    let rest = find_at (i + 1) s cs in if starts_with s (c ∷ cs) then some i else rest

-- `xs[i]`, or `""` where the list ends before it
unfoldable pub text_at : ℕ → List Str → Str
text_at i [] = []
text_at zero (x ∷ xs) = x
text_at (suc i) (x ∷ xs) = text_at i xs

-- `s.replace(old, new, 1)`
unfoldable pub replace_first : Str → Str → Str → Str
replace_first old new [] = if starts_with old [] then new else []
replace_first old new (c ∷ cs) =
    let rest = replace_first old new cs in
    if starts_with old (c ∷ cs) then new ++ drop (length old) (c ∷ cs) else c ∷ rest

-- `sep.join(parts)`, for a separator of one character
unfoldable pub join : ℕ → List Str → Str
join sep [] = []
join sep (part ∷ []) = part
join sep (part ∷ next ∷ parts) = part ++ (sep ∷ join sep (next ∷ parts))

-- A character class for each character, and the whole text is used up: `re.fullmatch`.
unfoldable pub matches : List (ℕ → Bool) → Str → Bool
matches [] [] = true
matches (p ∷ ps) (c ∷ cs) = p c && matches ps cs
matches _ _ = false

-- The same with text left over: `re.match`.
unfoldable pub matches_prefix : List (ℕ → Bool) → Str → Bool
matches_prefix [] s = true
matches_prefix (p ∷ ps) [] = false
matches_prefix (p ∷ ps) (c ∷ cs) = p c && matches_prefix ps cs

pub str_eq_iff : (a b : Str) → (str_eq a b ≡ true) ↔ (a ≡ b)
unfolding str_eq
str_eq_iff [] [] = ground arith
str_eq_iff (x ∷ a) (y ∷ b) = ground (arith, str_eq_iff a b)
str_eq_iff _ _ = ground arith

pub str_eq_refl : (a : Str) → str_eq a a ≡ true
str_eq_refl a = (str_eq_iff a a).1 refl

-- A matched prefix is a full match of that many characters.
pub matches-take :
    (ps : List (ℕ → Bool)) (s : Str)
    → matches_prefix ps s ≡ true
    → matches ps (take (length ps) s) ≡ true
unfolding matches matches_prefix
matches-take [] s h = refl
matches-take (p ∷ ps) [] h = h
matches-take (p ∷ ps) (c ∷ cs) h = ground (arith, matches-take ps cs)

pub length-matches : (ps : List (ℕ → Bool)) (s : Str) → matches ps s ≡ true → length s ≡ length ps
unfolding matches
length-matches [] [] h = refl
length-matches [] (c ∷ cs) h = ground arith
length-matches (p ∷ ps) [] h = ground arith
length-matches (p ∷ ps) (c ∷ cs) h = ground (arith, length-matches ps cs)
