-- ===== src/Csv/Correct.antt =====
-- The delimited-table corrector as a whole.
use mathlib.Core.Path.{subst}
use checkdigit.Common.{
  ◌⊎◌, inl, inr, ap, ◌∙◌, column_not_found, Error, ◌+◌, ◌≡◌, refl, Bool, true, List, Str, All,
  EachPair, All-imp, length, Option, Result, ok, err, >>=-eq-ok, ok_injective, ℤ,
}
use checkdigit.Csv.{
  CsvCell, Options, header_row, resolve_columns, parse_records, sniff_delimiter, table_refs,
  locate_csv, evaluate_csv, correct_csv,
}
use checkdigit.Csv.Header.{HasColumn, Names, IsMissing, IsResolved, resolve_columns-IsResolved}
use checkdigit.Csv.Cells.{IsTargeted, table_refs-RefChain, table_refs-IsTargeted}
use checkdigit.Csv.Spans.{parse_records-RowChain}
use checkdigit.Grouped.{Located}
use checkdigit.Grouped.Apply.{Anchored, correct_grouped-total}
use checkdigit.Grouped.Evaluate.{evaluate_all-total, evaluate_all-All, evaluate_all-EachPair}
use checkdigit.Kernel.Decide.{Registry}
use checkdigit.Kernel.Router.Verdicts.{AcceptsPolicy}
use checkdigit.Kernel.Types.{OwnerPolicy, is_owner_policy}
use checkdigit.Policy.{Policy}
use checkdigit.Report.{CorrectionReport}
use checkdigit.Txt.{context_of}
use checkdigit.Txt.Correct.{token-Anchored, tokens_before}
use checkdigit.Txt.Fields.{RefChain, RefChain-IsToken, RefChain-RefBefore}
use checkdigit.Txt.Locate.{IsToken, RefBefore}

module _ (lower : Str → Str) (text : Str) (options : Options) where
  abbrev pub header : List CsvCell
  header =
      header_row options.has_header (parse_records text (sniff_delimiter text options.delimiter))

  abbrev pub columns_of : Result (List ℤ)
  columns_of = resolve_columns lower header options.columns

  -- Every reference is a token that stands at its offset, each ends before the next begins, and its
  -- label names a targeted column and no header row.
  pub locate_csv_sound :
      {refs : List Located}
      → locate_csv lower text options ≡ ok refs
      → (targets : List ℤ) × (columns_of ≡ ok targets)
        × All (IsToken text) refs
        × EachPair RefBefore refs
        × All (IsTargeted text options.has_header targets) refs
  unfolding locate_csv
  locate_csv_sound {refs} h =
      let rows = parse_records text (sniff_delimiter text options.delimiter) in
      let (targets, e, f) = >>=-eq-ok columns_of _ h in
      let is : table_refs text options.has_header options.whole_cell targets 0 rows ≡ refs =
        ok_injective f in
      let chain : RefChain text 0 (length text + 1) refs =
        subst (RefChain text 0 (length text + 1)) is (
          table_refs-RefChain text options.has_header options.whole_cell targets 0 0
            (length text + 1) rows
            (parse_records-RowChain text (sniff_delimiter text options.delimiter))) in
      (
        targets,
        e,
        RefChain-IsToken text 0 (length text + 1) refs chain,
        RefChain-RefBefore text 0 (length text + 1) refs chain,
        subst (All (IsTargeted text options.has_header targets)) is
            (table_refs-IsTargeted text options.has_header options.whole_cell targets 0 rows),
      )

  module _ (trust : Bool) (owner_policy : OwnerPolicy) (known : Registry)
      (policy : Option Policy) where
    abbrev call : Result CorrectionReport
    call = correct_csv lower text options trust owner_policy known policy

    -- Each named column is in the header and there is a report, or a named one is missing in it and
    -- the call raises its error.
    abbrev pub Answers : Type 0
    Answers =
        (All (HasColumn lower header) options.columns
          × ((report : CorrectionReport) × (call ≡ ok report)))
        ⊎ ((name : Str) × Names options.columns name
            × IsMissing lower header name
            × (call ≡ err (column_not_found name)))

    correct_csv-found :
        (targets : List ℤ)
        → is_owner_policy owner_policy ≡ true
        → AcceptsPolicy owner_policy policy
        → columns_of ≡ ok targets
        → (report : CorrectionReport) × (call ≡ ok report)
    unfolding correct_csv evaluate_csv locate_csv
    correct_csv-found targets accepted accepts h =
        let rows = parse_records text (sniff_delimiter text options.delimiter) in
        let refs = table_refs text options.has_header options.whole_cell targets 0 rows in
        let located : locate_csv lower text options ≡ ok refs = rw h refl in
        let (_, _, tokens, before, _) = locate_csv_sound located in
        let context = context_of trust in
        let (items, e) = evaluate_all-total context known owner_policy policy refs accepts in
        let on_tokens =
          evaluate_all-All context known owner_policy policy (IsToken text) refs tokens e in
        let apart =
          evaluate_all-EachPair context known owner_policy policy RefBefore refs before e in
        let (report, f) =
          correct_grouped-total text owner_policy items
            (All-imp (λ x. IsToken text x.0) (Anchored text) items (token-Anchored text) on_tokens)
            (tokens_before text items on_tokens apart) in
        (report, rw (accepted, h, e) f)

    correct_csv-missing :
        {e : Error} → is_owner_policy owner_policy ≡ true → columns_of ≡ err e → call ≡ err e
    unfolding correct_csv evaluate_csv locate_csv
    correct_csv-missing accepted h = rw (accepted, h) refl

    answer :
        (out : Result (List ℤ))
        → is_owner_policy owner_policy ≡ true
        → AcceptsPolicy owner_policy policy
        → columns_of ≡ out
        → IsResolved lower header options.columns out
        → Answers
    answer (ok targets) accepted accepts h all_there =
        inl (all_there, correct_csv-found targets accepted accepts h)
    answer (err e) accepted accepts h (name, same, asked, missing) =
        inr (name, asked, missing, correct_csv-missing accepted h ∙ ap err same)

    -- With an accepted owner policy and, where a policy is given, a constructed one, `correct_csv`
    -- returns a report for every table whose header has all the columns that are named, and for any
    -- other raises the error of a named column that no cell of the header names, whatever the case
    -- and the spaces around it.
    pub correct_csv-total :
        is_owner_policy owner_policy ≡ true → AcceptsPolicy owner_policy policy → Answers
    correct_csv-total accepted accepts =
        answer columns_of accepted accepts refl
          (resolve_columns-IsResolved lower header options.columns)
