-- ===== src/Substitution.antt =====
-- The splicing primitive, checkdigit/substitution.py.
pub mod Spliced
pub mod Order
pub mod Total
pub mod Ordered
pub mod Keeps
pub mod Offsets
use checkdigit.Common.{
  ℕ, ◌+◌, ◌-◌, Bool, ◌&&◌, ◌||◌, not, List, [], ◌∷◌, ◌++◌, ltb, leb, ◌==◌, if◌then◌else◌, length,
  take, drop, Str, str_eq, slice, Result, ok, err, overlapping_edit, verification_failed,
  unequal_lengths, index_outside,
}

-- The offset is the source's `start` where that is not negative.
pub record Edit : Type 0 where
  pub start : ℕ
  pub old : Str
  pub new : Str

-- Where an edit ends
abbrev pub end : Edit → ℕ
end e = e.start + length e.old

-- `sorted(edits, key=start)` is stable: an edit goes behind those of its offset that stood before.
unfoldable pub insert_edit : Edit → List Edit → List Edit
insert_edit e [] = e ∷ []
insert_edit e (f ∷ fs) = if ltb e.start f.start then e ∷ f ∷ fs else f ∷ insert_edit e fs

unfoldable pub sort_into : List Edit → List Edit → List Edit
sort_into done [] = done
sort_into done (e ∷ es) = sort_into (insert_edit e done) es

abbrev pub sort_edits : List Edit → List Edit
sort_edits = sort_into []

-- The loop; `parts` is joined already.
unfoldable pub splice : Str → ℕ → Str → List Edit → Result Str
splice text cursor parts [] = ok (parts ++ drop cursor text)
splice text cursor parts (e ∷ es) =
    let actual = slice text e.start (length e.old) in
    let rest = splice text (end e) (parts ++ (slice text cursor (e.start - cursor) ++ e.new)) es in
    if ltb e.start cursor
    then err (overlapping_edit e.start cursor)
    else if not (str_eq actual e.old)
    then err (verification_failed e.start e.old actual)
    else rest

unfoldable pub apply_edits : Str → List Edit → Result Str
apply_edits text edits = splice text 0 [] (sort_edits edits)

-- The indices from `i` on at which the zipped texts differ.
unfoldable pub differing : ℕ → Str → Str → List ℕ
differing i (x ∷ a) (y ∷ b) =
    if not (x == y) then i ∷ differing (i + 1) a b else differing (i + 1) a b
differing i _ _ = []

unfoldable pub changed_indices : Str → Str → Result (List ℕ)
changed_indices a b =
    if not (length a == length b) then err unequal_lengths else ok (differing 0 a b)

-- `sum(2 if ord(ch) > 0xFFFF else 1 for ch in s)`
unfoldable pub utf16_length : Str → ℕ
utf16_length [] = 0
utf16_length (c ∷ cs) = (if ltb 0xffff c then 2 else 1) + utf16_length cs

-- `index` is not negative here.
unfoldable pub utf16_index : Str → ℕ → Result ℕ
utf16_index text index =
    if ltb (length text) index
    then err (index_outside index (length text))
    else ok (utf16_length (take index text))
