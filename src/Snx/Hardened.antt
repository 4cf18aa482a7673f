-- ===== src/Snx/Hardened.antt =====
-- The guards of `harden_and_parse`.
use checkdigit.Common.{
  ◌≡◌, refl, ap, ◌∙◌, Bool, true, false, ◌||◌, List, [], ◌∷◌, ◌++◌, Str, codes, Option, none, some,
  ok, arith, if◌then◌else◌, err, xml_declaration, xml_malformed, ok_injective,
}
use checkdigit.Snx.{
  Element, XmlTools, starts_with_ignoring_case, occurs_ignoring_case, harden_and_parse,
}

module _ (tools : XmlTools) where
  -- The text is the word letter by letter, in either case.
  abbrev pub Spells : Str → Str → Type 0
  Spells [] [] = Unit
  Spells (p ∷ ps) (c ∷ cs) = (tools.same_letter p c ≡ true) × Spells ps cs
  Spells _ _ = ⊥

  -- The word stands somewhere in the text.
  abbrev pub Occurs : Str → Str → Type 0
  Occurs word text =
      (before : Str) × (s : Str) × (after : Str) × (text ≡ before ++ (s ++ after)) × Spells word s

  starts_with_ignoring_case-Spells :
      (word s after : Str)
      → Spells word s
      → starts_with_ignoring_case tools word (s ++ after) ≡ true
  unfolding starts_with_ignoring_case
  starts_with_ignoring_case-Spells [] [] after h = refl
  starts_with_ignoring_case-Spells [] (c ∷ s) after h = refl
  starts_with_ignoring_case-Spells (p ∷ ps) [] after h = elim h [ ]
  starts_with_ignoring_case-Spells (p ∷ ps) (c ∷ s) after (h, hs) =
      let rest = starts_with_ignoring_case-Spells ps s after hs in ground arith

  starts-occurs :
      (word s : Str)
      → starts_with_ignoring_case tools word s ≡ true
      → occurs_ignoring_case tools word s ≡ true
  unfolding occurs_ignoring_case
  starts-occurs word [] h = h
  starts-occurs word (c ∷ s) h = ground arith

  occurs_behind :
      (word before rest : Str)
      → occurs_ignoring_case tools word rest ≡ true
      → occurs_ignoring_case tools word (before ++ rest) ≡ true
  unfolding occurs_ignoring_case
  occurs_behind word [] rest h = h
  occurs_behind word (c ∷ before) rest h =
      let behind = occurs_behind word before rest h in ground arith

  occurs_ignoring_case-Occurs :
      (word text : Str) → Occurs word text → occurs_ignoring_case tools word text ≡ true
  occurs_ignoring_case-Occurs word text (before, s, after, e, spells) =
      ap (occurs_ignoring_case tools word) e
      ∙ occurs_behind word before (s ++ after)
          (starts-occurs word (s ++ after) (starts_with_ignoring_case-Spells word s after spells))

  not_found : (word text : Str) → occurs_ignoring_case tools word text ≡ false → ¬ Occurs word text
  not_found word text h o = let bad = occurs_ignoring_case-Occurs word text o in cc

  -- What is parsed holds no declaration that could define an entity.
  pub harden_and_parse-safe :
      (text : Str) {root : List Element}
      → harden_and_parse tools text ≡ ok root
      → (tools.parse text ≡ some root)
        × (¬ Occurs (codes "<!DOCTYPE") text)
        × (¬ Occurs (codes "<!ENTITY") text)
  unfolding harden_and_parse
  harden_and_parse-safe text {root} h =
      let free : (tools.parse text ≡ some root)
          × (occurs_ignoring_case tools (codes "<!DOCTYPE") text ≡ false)
          × (occurs_ignoring_case tools (codes "<!ENTITY") text ≡ false) =
        parsed (occurs_ignoring_case tools (codes "<!DOCTYPE") text)
          (occurs_ignoring_case tools (codes "<!ENTITY") text) (tools.parse text) h in
      (free.0, not_found (codes "<!DOCTYPE") text free.1, not_found (codes "<!ENTITY") text free.2)
    where
      parsed :
          (doctype entity : Bool) (out : Option (List Element))
          → (if doctype || entity
              then err xml_declaration
              else elim out [ none ↦ err xml_malformed | some r ↦ ok r ])
            ≡ ok root
          → (out ≡ some root) × (doctype ≡ false) × (entity ≡ false)
      parsed true entity out e = absurd (cc)
      parsed false true out e = absurd (cc)
      parsed false false none e = absurd (cc)
      parsed false false (some r) e = (ap some (ok_injective e), refl, refl)
