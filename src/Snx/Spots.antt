-- ===== src/Snx/Spots.antt =====
-- Where the identifiers of an XML document stand.
use mathlib.Core.Path.{subst}
use checkdigit.Common.{
  ℕ, zero, suc, ◌+◌, ◌≤◌, ◌≡◌, inl, inr, refl, sym, ap, ◌∙◌, Bool, true, false, List, [], ◌∷◌, ◌++◌,
  append_assoc, arith, length, length-append, take, drop, slice, take-append, drop-append,
  drop-drop, Str, Option, none, some, ◌==◌, starts_with, starts_with_lem, All, EachPair, ok,
  >>=-eq-ok, ok_injective, Bool-cases, if◌then◌else◌, codes,
}
use checkdigit.Snx.Hardened.{Occurs, harden_and_parse-safe}
use checkdigit.Snx.{
  XmlTools, Element, SnxRef, Spot, assignment, scan_names, match_attr, spots_from,
  locate_occurrences, refs_of, harden_and_parse, parsed_counts, locate_equipment, is_boundary,
  element_of,
}

match_attr-some :
    (eqid : Str) (names : List Str) (s : Str) {name : Str}
    → match_attr eqid names s ≡ some name
    → starts_with (assignment name eqid) s ≡ true
unfolding match_attr
match_attr-some eqid [] s h = absurd (cc)
match_attr-some eqid (n ∷ names) s {name} h =
    elim (Bool-cases (starts_with (assignment n eqid) s)) [
      | inl here ↦
          let same : n ≡ name = some_injective (rw here at h) in
          subst (λ x. starts_with (assignment x eqid) s ≡ true) same here
      | inr missed ↦ match_attr-some eqid names s (rw missed at h)
    ]
  where
    some_injective : {x y : Str} → some x ≡ some y → x ≡ y
    some_injective k = cc

-- The identifier stands at the spot's offset, between quotes behind the attribute's name.
abbrev pub IsSpot : Str → Str → Spot → Type 0
IsSpot text eqid spot =
    (start : ℕ) × (spot.offset ≡ start + (length spot.attr + 2))
    × (slice text start (length (assignment spot.attr eqid)) ≡ assignment spot.attr eqid)
    × (slice text spot.offset (length eqid) ≡ eqid)

module _ (is_word : ℕ → Bool) (text : Str) (eqid : Str) where
  -- The first value ends before the second begins.
  abbrev pub SpotBefore : Spot → Spot → Type 0
  SpotBefore a b = a.offset + length eqid + 1 ≤ b.offset

  match_IsSpot :
      (o : ℕ) (s : Str) (name : Str)
      → s ≡ drop o text
      → match_attr eqid scan_names s ≡ some name
      → IsSpot text eqid
          (record { offset = o + (length name + 2); element = element_of text o; attr = name })
  match_IsSpot o s name here found =
      let whole = assignment name eqid in
      let (post, e) = starts_with_lem whole s (match_attr-some eqid scan_names s found) in
      let there : drop o text ≡ whole ++ post = sym here ∙ e in
      let head = name ++ (b'=' ∷ b'"' ∷ []) in
      let quoted : Str = b'=' ∷ b'"' ∷ [] in
      let cut : whole ++ post ≡ head ++ (eqid ++ (b'"' ∷ post)) =
        append_assoc name (b'=' ∷ b'"' ∷ (eqid ++ (b'"' ∷ []))) post
        ∙ ap (λ (x : Str). name ++ (b'=' ∷ b'"' ∷ x)) (append_assoc eqid (b'"' ∷ []) post)
        ∙ sym (append_assoc name quoted (eqid ++ (b'"' ∷ post))) in
      let long : length head ≡ length name + 2 = length-append name (b'=' ∷ b'"' ∷ []) in
      (
        o,
        refl,
        ap (take (length whole)) there ∙ take-append whole post,
        ap (take (length eqid)) (
              sym (drop-drop (length name + 2) o (o + (length name + 2)) text (omega arith))
              ∙ ap (drop (length name + 2)) (there ∙ cut)
              ∙ ap (λ (n : ℕ). drop n (head ++ (eqid ++ (b'"' ∷ post)))) (sym long)
              ∙ drop-append head (eqid ++ (b'"' ∷ post)))
            ∙ take-append eqid (b'"' ∷ post),
      )

  next_drop : (o c : ℕ) (cs : Str) → c ∷ cs ≡ drop o text → cs ≡ drop (o + 1) text
  next_drop o c cs h = ap (drop 1) h ∙ drop-drop 1 o (o + 1) text (omega arith)

  spot_at : ℕ → Str → Spot
  spot_at o attr = record {
    offset = o + (length attr + 2);
    element = element_of text o;
    attr = attr;
  }

  -- Induction along the scan: what holds of no text and is kept by each step holds of the spots found.
  module _ (P : ℕ → ℕ → Str → List Spot → Type 0) (at_end : (skip o : ℕ) → P skip o [] [])
      (on_skip : (skip o c : ℕ) (cs : Str) (out : List Spot)
        → P skip (o + 1) cs out
        → P (suc skip) o (c ∷ cs) out)
      (on_miss : (o c : ℕ) (cs : Str) (out : List Spot) → P 0 (o + 1) cs out → P 0 o (c ∷ cs) out)
      (on_match : (o c : ℕ) (cs : Str) (attr : Str) (out : List Spot)
        → match_attr eqid scan_names (c ∷ cs) ≡ some attr
        → P (length attr + 2 + length eqid) (o + 1) cs out
        → P 0 o (c ∷ cs) (spot_at o attr ∷ out)) where
    spots_from-induction :
        (s : Str) (skip o : ℕ) (before : Option ℕ)
        → P skip o s (spots_from is_word text eqid skip o before s)
    unfolding spots_from spot_at
    spots_from-induction [] skip o before = at_end skip o
    spots_from-induction (c ∷ cs) (suc skip) o before =
        on_skip skip o c cs _ (spots_from-induction cs skip (o + 1) (some c))
    spots_from-induction (c ∷ cs) zero o before =
        at_match
          (if is_boundary is_word text eqid before
            then match_attr eqid scan_names (c ∷ cs)
            else none)
          (only_if (is_boundary is_word text eqid before))
          (spots_from-induction cs 0 (o + 1) (some c))
          (λ attr. spots_from-induction cs (length attr + 2 + length eqid) (o + 1) (some c))
      where
        only_if :
            (b : Bool) (name : Str)
            → (if b then match_attr eqid scan_names (c ∷ cs) else none) ≡ some name
            → match_attr eqid scan_names (c ∷ cs) ≡ some name
        only_if true name e = e
        only_if false name e = absurd (cc)

        at_match :
            (m : Option Str)
            → ((name : Str) → m ≡ some name → match_attr eqid scan_names (c ∷ cs) ≡ some name)
            → P 0 (o + 1) cs (spots_from is_word text eqid 0 (o + 1) (some c) cs)
            → ((attr : Str)
                → P (length attr + 2 + length eqid) (o + 1) cs (
                    spots_from is_word text eqid
                      (length attr + 2 + length eqid)
                      (o + 1)
                      (some c)
                      cs))
            → P 0 o (c ∷ cs) (elim m [
              | none ↦ spots_from is_word text eqid zero (o + 1) (some c) cs
              | some attr ↦
                  record {
                    offset = o + (length attr + 2);
                    element = element_of text o;
                    attr = attr;
                  }
                  ∷ spots_from is_word text eqid (length attr + 2 + length eqid) (o + 1) (some c) cs
            ])
        at_match none found miss hit = on_miss o c cs _ miss
        at_match (some attr) found miss hit = on_match o c cs attr _ (found attr refl) (hit attr)

  spots_from-IsSpot :
      (s : Str) (skip o : ℕ) (before : Option ℕ)
      → s ≡ drop o text
      → All (IsSpot text eqid) (spots_from is_word text eqid skip o before s)
  unfolding spot_at
  spots_from-IsSpot =
      spots_from-induction (λ skip o s out. s ≡ drop o text → All (IsSpot text eqid) out)
        (λ skip o h. tt) (λ skip o c cs out rest h. rest (next_drop o c cs h))
        (λ o c cs out rest h. rest (next_drop o c cs h))
        (λ o c cs attr out found rest h.
          (match_IsSpot o (c ∷ cs) attr h found, rest (next_drop o c cs h)))

  -- Every later spot begins behind the characters that are skipped.
  spots_from-SpotBefore :
      (s : Str) (skip o : ℕ) (before : Option ℕ)
      → EachPair SpotBefore (spots_from is_word text eqid skip o before s)
        × ((b : ℕ)
            → b ≤ o + skip
            → All (λ spot. b ≤ spot.offset) (spots_from is_word text eqid skip o before s))
  unfolding spot_at
  spots_from-SpotBefore =
      spots_from-induction
        (λ skip o s out.
          EachPair SpotBefore out × ((b : ℕ) → b ≤ o + skip → All (λ spot. b ≤ spot.offset) out))
        (λ skip o. (tt, λ b h. tt))
        (λ skip o c cs out rest. (rest.0, λ b h. rest.1 b (omega arith)))
        (λ o c cs out rest. (rest.0, λ b h. rest.1 b (omega arith)))
        (λ o c cs attr out found rest. (
          (rest.1 (o + (length attr + 2) + length eqid + 1) (omega arith), rest.0),
          λ b h. (omega arith, rest.1 b (omega arith)),
        ))

-- The count of the parser and the spots of the scan agree, and each spot holds the identifier, one
-- behind the other.
abbrev pub IsSynced : (ℕ → Bool) → Str → List (Str × ℕ) → List SnxRef → Type 0
IsSynced is_word text [] [] = Unit
IsSynced is_word text ((eqid, n) ∷ counts) (ref ∷ refs) =
    (ref.eqid ≡ eqid)
    × (length ref.occurrences ≡ n)
    × All (IsSpot text eqid) ref.occurrences
    × EachPair (SpotBefore is_word text eqid) ref.occurrences
    × IsSynced is_word text counts refs
IsSynced is_word text _ _ = ⊥

refs_of-IsSynced :
    (is_word : ℕ → Bool) (text : Str) (counts : List (Str × ℕ)) {refs : List SnxRef}
    → refs_of is_word text counts ≡ ok refs
    → IsSynced is_word text counts refs
unfolding refs_of
refs_of-IsSynced is_word text [] h = subst (IsSynced is_word text []) (ok_injective h) tt
refs_of-IsSynced is_word text ((eqid, n) ∷ counts) {refs} h =
    let occ = locate_occurrences is_word text eqid in
    elim (Bool-cases (length occ == n)) [
      | inl agree ↦
          let (rest, e, k) = >>=-eq-ok (refs_of is_word text counts) _ (rw agree at h) in
          let count : length occ ≡ n = ground arith in
          subst (IsSynced is_word text ((eqid, n) ∷ counts)) (ok_injective k) (
            refl,
            count,
            spots_from-IsSpot is_word text eqid text 0 0 none refl,
            (spots_from-SpotBefore is_word text eqid text 0 0 none).0,
            refs_of-IsSynced is_word text counts e,
          )
      | inr differ ↦ absurd (let bad = rw differ at h in cc)
    ]

-- A document whose identifiers are located has been parsed and holds neither `<!DOCTYPE` nor
-- `<!ENTITY`, in letters of either case, and what is located is in step with the parser: for each
-- identifier as many spots as the parser counted attributes, each of them an attribute with that
-- value, one behind the other.
pub locate_equipment-IsSynced :
    (tools : XmlTools) (text : Str) {refs : List SnxRef}
    → locate_equipment tools text ≡ ok refs
    → (root : List Element) × (tools.parse text ≡ some root)
      × (¬ Occurs tools (codes "<!DOCTYPE") text)
      × (¬ Occurs tools (codes "<!ENTITY") text)
      × IsSynced tools.is_word text (parsed_counts root []) refs
unfolding locate_equipment
locate_equipment-IsSynced tools text h =
    let (root, e, k) = >>=-eq-ok (harden_and_parse tools text) _ h in
    let (parsed, doctype, entity) = harden_and_parse-safe tools text e in
    (root, parsed, doctype, entity, refs_of-IsSynced tools.is_word text (parsed_counts root []) k)
