-- ===== src/Common/Lines.antt =====
-- `str.splitlines` of Python.
use Prim.Native.Nat.{ℕ}
use mathlib.Core.Bool.{Bool, not, ◌&&◌, ◌||◌}
use mathlib.Core.List.{List, [], ◌∷◌, ◌++◌, map}
use checkdigit.Common.Tests.{leb, ◌==◌, if◌then◌else◌}
use checkdigit.Common.Text.{Str, is_empty, starts_with}

-- A character that ends a line; a carriage return before a newline does not.
unfoldable pub is_break : ℕ → Bool
is_break c = leb 10 c && leb c 13 || leb 28 c && leb c 30 || c == 0x85 || c == 0x2028 || c == 0x2029

unfoldable pub lines_from : Str → Str → List Str
lines_from [] [] = []
lines_from (b ∷ buf) [] = (b ∷ buf) ∷ []
lines_from buf (c ∷ cs) =
    let line = buf ++ (c ∷ []) in
    let ended = is_break c && not (c == b'\r' && starts_with (b'\n' ∷ []) cs) in
    let rest = lines_from (if ended then [] else line) cs in if ended then line ∷ rest else rest

-- `s.splitlines(keepends=True)`
abbrev pub lines_with_ends : Str → List Str
lines_with_ends = lines_from []

-- A line without its end
unfoldable pub without_end : Str → Str
without_end [] = []
without_end (c ∷ []) = if is_break c then [] else c ∷ []
without_end (c ∷ d ∷ cs) =
    let rest = without_end (d ∷ cs) in
    if c == b'\r' && d == b'\n' && is_empty cs then [] else c ∷ rest

-- `s.splitlines()`
abbrev pub splitlines : Str → List Str
splitlines s = map without_end (lines_with_ends s)
