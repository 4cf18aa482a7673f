-- ===== src/Csv/Quoted.antt =====
-- A field written in quotes, and how the scanner of `parse_records` reads it.
use checkdigit.Common.{
  ℕ, ◌+◌, ◌≡◌, inl, inr, refl, sym, ap, ◌∙◌, Bool, true, false, List, [], ◌∷◌, ◌++◌, append_assoc,
  append-nil, arith, length, Str, ◌==◌, Bool-cases, if◌then◌else◌, starts_with,
}
use checkdigit.Csv.{
  CsvCell, Scan, Role, closing_quote, opening_quote, escaped_quote, content, step, role,
  role_in_quotes, role_outside, scan_from,
}

-- The rest of a quoted field's text, each quote doubled, and what follows
unfoldable pub doubled : Str → Str → Str
doubled [] rest = rest
doubled (c ∷ cs) rest =
    let more = doubled cs rest in if c == b'"' then b'"' ∷ b'"' ∷ more else c ∷ more

abbrev pub write_field : Str → Str → Str
write_field value rest = b'"' ∷ doubled value (b'"' ∷ rest)

-- The scanner's states at a written table: before a field, in its quotes and behind them.
abbrev pub before : List (List CsvCell) → List CsvCell → ℕ → ℕ → Scan
before rows row r i = record {
  rows = rows;
  row = row;
  field_start = i;
  buf = [];
  in_quotes = false;
  quoted_field = false;
  r = r;
  skip = false;
}

abbrev pub quoted : Bool → List (List CsvCell) → List CsvCell → ℕ → ℕ → Str → Scan
quoted inner rows row r start buf = record {
  rows = rows;
  row = row;
  field_start = start;
  buf = buf;
  in_quotes = inner;
  quoted_field = true;
  r = r;
  skip = false;
}

-- The scan of `input` from `s` at `i` goes on from a state at `i'` with `rest` ahead.
abbrev pub Reaches : Str → ℕ → Scan → Str → ℕ → Scan → Str → Type 0
Reaches delimiter i s input i' s' rest =
    (scan_from delimiter i s input ≡ scan_from delimiter i' s' rest)
    × (i' + length rest ≡ i + length input)

-- One step of the scan
pub scan_from-role :
    (delimiter : Str) (i : ℕ) (s : Scan) (ch : ℕ) (cs : Str) (x : Role)
    → s.skip ≡ false
    → role delimiter i s ch cs ≡ x
    → scan_from delimiter i s (ch ∷ cs) ≡ scan_from delimiter (i + 1) (step x i ch s) cs
unfolding scan_from
scan_from-role delimiter i s ch cs x keep e =
    let read : Scan = step (role delimiter i s ch cs) i ch s in
    ap
      (λ (b : Bool). scan_from delimiter (i + 1) (if b then record s { skip = false } else read) cs)
      keep
    ∙ ap (λ (y : Role). scan_from delimiter (i + 1) (step y i ch s) cs) e

-- A character that was read along with the last one
pub scan_from-skip :
    (delimiter : Str) (i : ℕ) (s : Scan) (ch : ℕ) (cs : Str)
    → scan_from delimiter i (record s { skip = true }) (ch ∷ cs)
      ≡ scan_from delimiter (i + 1) (record s { skip = false }) cs
unfolding scan_from
scan_from-skip delimiter i s ch cs = refl

module _ (delimiter : Str) (rows : List (List CsvCell)) (row : List CsvCell) (r : ℕ) where
  doubled-Reaches :
      (value : Str) (buf : Str) (i start c : ℕ) (rest : Str)
      → (b'"' == c) ≡ false
      → (i' : ℕ) × Reaches delimiter i
          (quoted true rows row r start buf)
          (doubled value (b'"' ∷ c ∷ rest))
          i'
          (quoted false rows row r start (buf ++ value))
          (c ∷ rest)
  unfolding doubled role role_in_quotes step starts_with
  doubled-Reaches [] buf i start c rest h =
      let s = quoted true rows row r start buf in
      let closes : role delimiter i s b'"' (c ∷ rest) ≡ closing_quote = rw h refl in
      (
        i + 1,
        (
          scan_from-role delimiter i s b'"' (c ∷ rest) closing_quote refl closes
              ∙ ap
                  (λ (b : Str).
                    scan_from delimiter (i + 1) (quoted false rows row r start b) (c ∷ rest))
                  (sym (append-nil buf)),
          omega arith,
        ),
      )
  doubled-Reaches (x ∷ xs) buf i start c rest h = elim (Bool-cases (x == b'"')) [
    | inl quote ↦
        let s = quoted true rows row r start buf in
        let more = doubled xs (b'"' ∷ c ∷ rest) in
        let (i', (e, n)) = doubled-Reaches xs (buf ++ (b'"' ∷ [])) (i + 1 + 1) start c rest h in
        let same : x ≡ b'"' = ground arith in
        rw quote (
          i',
          (
            scan_from-role delimiter i s b'"' (b'"' ∷ more) escaped_quote refl refl
                ∙ scan_from-skip delimiter (i + 1)
                    (quoted true rows row r start (buf ++ (b'"' ∷ []))) b'"' more
                ∙ e
                ∙ ap
                    (λ (b : Str).
                      scan_from delimiter i' (quoted false rows row r start b) (c ∷ rest))
                    (append_assoc buf (b'"' ∷ []) xs ∙ ap (λ (y : ℕ). buf ++ (y ∷ xs)) (sym same)),
            omega (arith, n),
          ),
        )
    | inr plain ↦
        let s = quoted true rows row r start buf in
        let more = doubled xs (b'"' ∷ c ∷ rest) in
        let (i', (e, n)) = doubled-Reaches xs (buf ++ (x ∷ [])) (i + 1) start c rest h in
        let stays : role delimiter i s x more ≡ content = rw plain refl in
        rw plain (
          i',
          (
            scan_from-role delimiter i s x more content refl stays
                ∙ e
                ∙ ap
                    (λ (b : Str).
                      scan_from delimiter i' (quoted false rows row r start b) (c ∷ rest))
                    (append_assoc buf (x ∷ []) xs),
            omega (arith, n),
          ),
        )
  ]

  pub write_field-Reaches :
      (value : Str) (i c : ℕ) (rest : Str)
      → (b'"' == c) ≡ false
      → (i' : ℕ) × Reaches delimiter i
          (before rows row r i)
          (write_field value (c ∷ rest))
          i'
          (quoted false rows row r i value)
          (c ∷ rest)
  unfolding role role_outside step
  write_field-Reaches value i c rest h =
      let (i', (e, n)) = doubled-Reaches value [] (i + 1) i c rest h in
      let here : (i == i) ≡ true = ground arith in
      let s = before rows row r i in
      let more = doubled value (b'"' ∷ c ∷ rest) in
      let opens : role delimiter i s b'"' more ≡ opening_quote = rw here refl in
      (i', (scan_from-role delimiter i s b'"' more opening_quote refl opens ∙ e, omega (arith, n)))
