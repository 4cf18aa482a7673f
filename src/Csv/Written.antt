-- ===== src/Csv/Written.antt =====
-- Tables written with every field in quotes, as RFC 4180 has it, and `parse_records`.
use mathlib.Core.Path.{subst}
use checkdigit.Common.{
  ℕ, ◌+◌, ◌≤◌, ◌≡◌, ◌≢◌, inl, inr, refl, sym, ap, ◌∙◌, true, false, List, [], ◌∷◌, ◌++◌, map,
  append_assoc, append-nil, arith, length, Str, ◌==◌, leb, ltb, is_empty, Bool-cases, str_eq,
  starts_with,
}
use checkdigit.Csv.{
  CsvCell, Scan, separator, return_newline, start_scan, step, role, role_outside, scan_from, finish,
  is_spurious, drop_spurious, parse_records,
}
use checkdigit.Csv.Spans.{RowChain, scan_from-IsSpanned, IsSpanned, CellChain-below}
use checkdigit.Csv.Quoted.{
  write_field, before, quoted, Reaches, scan_from-role, scan_from-skip, write_field-Reaches,
}

-- A row has a first field and more of them, and ends with CR LF.
unfoldable pub write_row : ℕ → Str → List Str → Str → Str
write_row d value [] rest = write_field value (b'\r' ∷ b'\n' ∷ rest)
write_row d value (next ∷ values) rest = write_field value (d ∷ write_row d next values rest)

unfoldable pub write_table : ℕ → List (Str × List Str) → Str
write_table d [] = []
write_table d ((value, values) ∷ table) = write_row d value values (write_table d table)

-- The values of the cells
abbrev pub values_of : List CsvCell → List Str
values_of = map (λ (cell : CsvCell). cell.value)

map-append : {A B : Type 0} (f : A → B) (xs ys : List A) → map f (xs ++ ys) ≡ map f xs ++ map f ys
map-append f [] ys = refl
map-append f (x ∷ xs) ys = ap (λ zs. f x ∷ zs) (map-append f xs ys)

abbrev pub fields_of : Str × List Str → List Str
fields_of (value, values) = value ∷ values

module _ (d : ℕ) (no_quote : d ≢ b'"') (no_return : d ≢ b'\r') where
  -- What a row's text makes of the scan: its cells join `row`, and the row joins the others.
  abbrev RowReaches : List (List CsvCell) → List CsvCell → ℕ → ℕ → Str → List Str → Str → Type 0
  RowReaches rows row r i input values rest =
      (i' : ℕ) × (done : List CsvCell) × Reaches (d ∷ []) i (before rows row r i) input i'
        (before (rows ++ (done ∷ [])) [] (r + 1) i') rest
      × (values_of done ≡ values_of row ++ values)

  write_row-Reaches :
      (value : Str) (values : List Str) (rows : List (List CsvCell)) (row : List CsvCell) (r i : ℕ)
      (rest : Str)
      → RowReaches rows row r i (write_row d value values rest) (value ∷ values) rest
  unfolding write_row role role_outside str_eq starts_with step
  write_row-Reaches value [] rows row r i rest =
      let (j, (e, n)) = write_field-Reaches (d ∷ []) rows row r value i b'\r' (b'\n' ∷ rest) refl in
      let s = quoted false rows row r i value in
      let differs : (b'\r' == d) ≡ false = ground arith in
      let ends : role (d ∷ []) j s b'\r' (b'\n' ∷ rest) ≡ return_newline = rw differs refl in
      let cell : CsvCell = record {
        row = r;
        col = length row;
        value = value;
        val_start = i;
        val_end = j;
        quoted = true;
      } in
      (
        j + 2,
        row ++ (cell ∷ []),
        (
          e
              ∙ scan_from-role (d ∷ []) j s b'\r' (b'\n' ∷ rest) return_newline refl ends
              ∙ scan_from-skip (d ∷ []) (j + 1)
                  (before (rows ++ ((row ++ (cell ∷ [])) ∷ [])) [] (r + 1) (j + 2)) b'\n' rest
              ∙ ap
                  (λ (k : ℕ).
                    scan_from (d ∷ []) k
                      (before (rows ++ ((row ++ (cell ∷ [])) ∷ [])) [] (r + 1) (j + 2)) rest)
                  (let two : j + 1 + 1 ≡ j + 2 = omega arith in two),
          omega (arith, n),
        ),
        map-append (λ (c : CsvCell). c.value) row (cell ∷ []),
      )
  write_row-Reaches value (next ∷ values) rows row r i rest =
      let more = write_row d next values rest in
      let quote_differs : (b'"' == d) ≡ false = ground arith in
      let (j, (e, n)) = write_field-Reaches (d ∷ []) rows row r value i d more quote_differs in
      let s = quoted false rows row r i value in
      let differs : (d == b'"') ≡ false = ground arith in
      let is_it : (d == d) ≡ true = ground arith in
      let ends : role (d ∷ []) j s d more ≡ separator = rw (differs, is_it) refl in
      let cell : CsvCell = record {
        row = r;
        col = length row;
        value = value;
        val_start = i;
        val_end = j;
        quoted = true;
      } in
      let (i', done, (f, m), same) =
        write_row-Reaches next values rows (row ++ (cell ∷ [])) r (j + 1) rest in
      (
        i',
        done,
        (e ∙ scan_from-role (d ∷ []) j s d more separator refl ends ∙ f, omega (arith, n, m)),
        same
            ∙ ap (λ (xs : List Str). xs ++ (next ∷ values))
                (map-append (λ (c : CsvCell). c.value) row (cell ∷ []))
            ∙ append_assoc (values_of row) (value ∷ []) (next ∷ values),
      )

  write_table-Reaches :
      (table : List (Str × List Str)) (rows : List (List CsvCell)) (r i : ℕ)
      → (i' : ℕ) × (done : List (List CsvCell)) × (r' : ℕ) × Reaches
          (d ∷ [])
          i
          (before rows [] r i)
          (write_table d table)
          i'
          (before (rows ++ done) [] r' i')
          []
        × (map values_of done ≡ map fields_of table)
  unfolding write_table
  write_table-Reaches [] rows r i = (
    i,
    [],
    r,
    (
      ap (λ (x : List (List CsvCell)). scan_from (d ∷ []) i (before x [] r i) [])
          (sym (append-nil rows)),
      refl,
    ),
    refl,
  )
  write_table-Reaches ((value, values) ∷ table) rows r i =
      let (j, row, (e, n), same) =
        write_row-Reaches value values rows [] r i (write_table d table) in
      let (i', done, r', (f, m), all) = write_table-Reaches table (rows ++ (row ∷ [])) (r + 1) j in
      (
        i',
        row ∷ done,
        r',
        (
          e
              ∙ f
              ∙ ap (λ (x : List (List CsvCell)). scan_from (d ∷ []) i' (before x [] r' i') [])
                  (append_assoc rows (row ∷ []) done),
          omega (arith, n, m),
        ),
        ap (λ (x : List Str). x ∷ map values_of done) same
            ∙ ap (λ (xs : List (List Str)). (value ∷ values) ∷ xs) all,
      )

-- A row that ends before the end of the text is kept.
drop_spurious-all :
    (n from to : ℕ) (rows : List (List CsvCell))
    → RowChain from to rows
    → to ≤ n
    → drop_spurious n rows ≡ rows
unfolding drop_spurious is_spurious
drop_spurious-all n from to [] h le = refl
drop_spurious-all n from to ([] ∷ []) h le = refl
drop_spurious-all n from to ((a ∷ b ∷ cells) ∷ []) h le = refl
drop_spurious-all n from to ((cell ∷ []) ∷ []) (mid, (a, b, c), h) le =
    let inside : leb n cell.val_start ≡ false = ground arith in
    elim (Bool-cases (is_empty cell.value)) [
      | inl empty ↦ rw (empty, inside) refl
      | inr other ↦ rw other refl
    ]
drop_spurious-all n from to (row ∷ next ∷ rows) (mid, h, hs) le =
    ap (λ (xs : List (List CsvCell)). row ∷ xs) (drop_spurious-all n mid to (next ∷ rows) hs le)

-- Nothing is left over behind the last row's end.
finish_nothing :
    (rows : List (List CsvCell)) (r i n : ℕ) → i ≡ n → finish n (before rows [] r i) ≡ rows
unfolding finish
finish_nothing rows r i n e = let over : ltb i n ≡ false = ground arith in rw over refl

-- A table written with every field in quotes is read back as it was: the values of every row come
-- back unchanged, whatever delimiters, quotes and line ends they hold. The delimiter is any
-- character but the quote and the carriage return.
pub parse_records-write_table :
    (d : ℕ) (table : List (Str × List Str))
    → d ≢ b'"'
    → d ≢ b'\r'
    → map values_of (parse_records (write_table d table) (d ∷ [])) ≡ map fields_of table
unfolding parse_records finish scan_from
parse_records-write_table d table no_quote no_return =
    let text = write_table d table in
    let (n, done, r, (e, m), same) = write_table-Reaches d no_quote no_return table [] 0 0 in
    let begun : IsSpanned 0 start_scan = record {
      row_start = 0;
      rows = omega arith;
      row = omega arith;
      place = omega arith;
    } in
    let (h, _) = scan_from-IsSpanned (d ∷ []) text 0 start_scan begun tt in
    let long : n ≡ length text = omega (arith, m) in
    let k : IsSpanned (length text) (before done [] r n) =
      let zero_plus : 0 + length text ≡ length text = omega arith in
      subst (λ s. IsSpanned (length text) s) e
        (subst (λ j. IsSpanned j (scan_from (d ∷ []) 0 start_scan text)) zero_plus h) in
    let below = CellChain-below k.row_start n [] k.row in
    let kept : finish (length text) (before done [] r n) ≡ done =
      finish_nothing done r n (length text) long in
    let whole : drop_spurious (length text) done ≡ done =
      drop_spurious-all (length text) 0 k.row_start done k.rows (omega (arith, below, long)) in
    ap (λ (s : Scan). map values_of (drop_spurious (length text) (finish (length text) s))) e
    ∙ ap (λ (rows : List (List CsvCell)). map values_of (drop_spurious (length text) rows)) kept
    ∙ ap (map values_of) whole
    ∙ same
