-- ===== src/Common/Scanning.antt =====
-- A scanner that reads a text from left to right and cuts pieces out of it: where the pieces stand.
use Prim.Native.Nat.{ℕ, ◌+◌, ◌<◌}
use mathlib.Core.Path.{◌≡◌, sym, ap, ◌∙◌}
use mathlib.Core.List.{[], ◌∷◌, ◌++◌, append_assoc, append-nil}
use native.Mathlib.Omega.{arith}
use checkdigit.Common.Lists.{length, take, drop, drop-drop, take-append, length-append}
use checkdigit.Common.Text.{Str, slice}

-- A piece with its offset stands in the text there.
abbrev pub StandsAt : Str → Str × ℕ → Type 0
StandsAt text (piece, start) = slice text start (length piece) ≡ piece

-- The first piece ends before the second begins, with a separator between them.
abbrev pub PieceBefore : Str × ℕ → Str × ℕ → Type 0
PieceBefore (piece, start) (_, start') = start + length piece < start'

-- What was read since `start` is in `buf`; `rest`, and behind it `tail`, are ahead of offset `o`.
pub record Reads (text tail : Str) (o start : ℕ) (buf rest : Str) : Type 0 where
  pub ahead : rest ++ tail ≡ drop o text
  pub behind : drop start text ≡ buf ++ (rest ++ tail)
  pub place : o ≡ start + length buf

module _ {text tail : Str} {o start c : ℕ} {buf cs : Str}
    (h : Reads text tail o start buf (c ∷ cs)) where
  ahead_next : cs ++ tail ≡ drop (o + 1) text
  ahead_next = ap (drop 1) h.ahead ∙ drop-drop 1 o (o + 1) text (omega arith)

  -- The next character joins the buffer.
  pub Reads-keep : Reads text tail (o + 1) start (buf ++ (c ∷ [])) cs
  Reads-keep = record {
    ahead = ahead_next;
    behind = h.behind ∙ sym (append_assoc buf (c ∷ []) (cs ++ tail));
    place = omega (arith, length-append buf (c ∷ []), h.place);
  }

  -- The next character is passed over, and a new piece begins behind it.
  pub Reads-cut : Reads text tail (o + 1) (o + 1) [] cs
  Reads-cut = record { ahead = ahead_next; behind = sym ahead_next; place = omega arith }

pub Reads-StandsAt :
    {text tail : Str} {o start : ℕ} {buf rest : Str}
    → Reads text tail o start buf rest
    → StandsAt text (buf, start)
Reads-StandsAt {tail} {buf} {rest} h =
    ap (take (length buf)) h.behind ∙ take-append buf (rest ++ tail)

-- The scan of the text from offset `i` on.
pub Reads-start : (text : Str) (i : ℕ) → Reads text [] i i [] (drop i text)
Reads-start text i = record {
  ahead = append-nil (drop i text);
  behind = sym (append-nil (drop i text));
  place = omega arith;
}
