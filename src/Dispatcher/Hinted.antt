-- ===== src/Dispatcher/Hinted.antt =====
-- When the dispatcher returns an outcome.
use checkdigit.Common.{
  ◌≡◌, ◌⊎◌, inl, inr, refl, true, List, [], ◌∷◌, All, Str, codes, str_eq, none, some, Result, ok,
  err, column_not_found, Error,
}
use checkdigit.Csv.{ColumnSel, Options, correct_csv}
use checkdigit.Csv.Correct.{correct_csv-total, Answers}
use checkdigit.Dispatcher.{
  with_report, Tools, Settings, Outcome, Format, edifact, snx, x12, txt, csv, fixed, xlsx,
  unsupported, column_error, csv_without_columns, Detection, detected, refused, detect_format,
  route_format, correct, ParseOptions, catch_csv, csv_hint, correct_with_hint, correct_edifact,
  correct_x12, correct_txt,
}
use checkdigit.Edifact.{locate_equipment}
use checkdigit.Snx.Corrector.{correct_snx}
use checkdigit.Edifact.Correct.{IsVerbatim, correct_edifact-total}
use checkdigit.Kernel.Router.Verdicts.{AcceptsPolicy}
use checkdigit.Kernel.Types.{is_owner_policy}
use checkdigit.Report.{CorrectionReport}
use checkdigit.Txt.Correct.{correct_txt-total}
use checkdigit.X12.Correct.{correct_x12-total}

module _ (tools : Tools) (text : Str) (settings : Settings) where
  -- A refusal with no report, or a report of the format
  abbrev pub IsServed : Format → Outcome → Type 0
  IsServed format (det, report) =
      ((det.fmt ≡ unsupported) × (report ≡ none))
      ⊎ ((det.fmt ≡ format) × ((r : CorrectionReport) × (report ≡ some r)))

  -- A report, or the error of a column that is not found
  abbrev IsCsvCall : Result CorrectionReport → Type 0
  IsCsvCall call =
      ((name : Str) × (call ≡ err (column_not_found name)))
      ⊎ ((r : CorrectionReport) × (call ≡ ok r))

  catch_csv-IsServed :
      (call : Result CorrectionReport)
      → IsCsvCall call
      → (out : Outcome) × (catch_csv call ≡ ok out) × IsServed csv out
  unfolding catch_csv
  catch_csv-IsServed call (inl (name, e)) =
      ((refused (column_error (column_not_found name)), none), rw e refl, inl (refl, refl))
  catch_csv-IsServed call (inr (r, e)) = ((detected csv, some r), rw e refl, inr (refl, (r, refl)))

  module _ (options : Options) where
    abbrev csv_call : Result CorrectionReport
    csv_call =
        correct_csv tools.lower text options settings.trust settings.owner_policy settings.known
          settings.policy

    answered :
        Answers tools.lower text options settings.trust settings.owner_policy settings.known
          settings.policy
        → IsCsvCall csv_call
    answered (inl (_, report)) = inr report
    answered (inr (name, _, _, raised)) = inl (name, raised)

    columns_given :
        (sels : List ColumnSel)
        → IsCsvCall csv_call
        → (out : Outcome) × ((elim sels [
          | [] ↦ ok (refused csv_without_columns, none)
          | _ ∷ _ ↦ catch_csv csv_call
        ])
            ≡ ok out)
          × IsServed csv out
    columns_given [] h = ((refused csv_without_columns, none), refl, inl (refl, refl))
    columns_given (sel ∷ sels) h = catch_csv-IsServed csv_call h

  -- With an accepted owner policy and, where a policy is given, a constructed one, the CSV hint never
  -- raises: the outcome is a report, or a refusal of the column specification without one.
  pub correct_with_hint-IsServed :
      (options : ParseOptions)
      → is_owner_policy settings.owner_policy ≡ true
      → AcceptsPolicy settings.owner_policy settings.policy
      → (out : Outcome) × (correct_with_hint tools text (codes "csv") options settings ≡ ok out)
        × IsServed csv out
  unfolding correct_with_hint csv_hint str_eq
  correct_with_hint-IsServed options accepted accepts =
      let given = options.csv_options in
      columns_given given given.columns (
        answered given (
          correct_csv-total tools.lower text given settings.trust settings.owner_policy
            settings.known settings.policy accepted accepts))

  -- What the content-based route asks of a text: that the identifiers of an EDIFACT message are found
  -- as they are written.
  abbrev pub IsServable : Format → Type 0
  IsServable edifact = All IsVerbatim (locate_equipment text)
  IsServable _ = Unit

  -- The call returns its report, which goes with the detection.
  abbrev Carries : Detection → Result CorrectionReport → Result Outcome → Type 0
  Carries det call out = (r : CorrectionReport) × (call ≡ ok r) × (out ≡ ok (det, some r))

  -- What the route of a format gives back: the report of that format's corrector; for XML the error
  -- of the corrector where it raises one; nothing for a format that has no corrector here.
  abbrev pub IsAnswer : Format → Detection → Result Outcome → Type 0
  IsAnswer edifact det out =
      Carries det (correct_edifact text settings.owner_policy settings.policy) out
  IsAnswer snx det out =
      Carries det (correct_snx tools.xml text settings.owner_policy settings.policy) out
      ⊎ ((e : Error) × (correct_snx tools.xml text settings.owner_policy settings.policy ≡ err e)
          × (out ≡ err e))
  IsAnswer x12 det out =
      Carries det (correct_x12 tools.char_tests text settings.owner_policy settings.policy) out
  IsAnswer txt det out =
      Carries det
        (correct_txt text settings.trust settings.owner_policy settings.known settings.policy) out
  IsAnswer _ det out = out ≡ ok (det, none)

  snx_answer :
      (det : Detection) (call : Result CorrectionReport)
      → Carries det call (with_report det call)
        ⊎ ((e : Error) × (call ≡ err e) × (with_report det call ≡ err e))
  snx_answer det (ok r) = inl (r, refl, refl)
  snx_answer det (err e) = inr (e, refl, refl)

  route_format-IsAnswer :
      (format : Format) (det : Detection)
      → is_owner_policy settings.owner_policy ≡ true
      → AcceptsPolicy settings.owner_policy settings.policy
      → IsServable format
      → IsAnswer format det (route_format tools format det text settings)
  unfolding route_format
  route_format-IsAnswer edifact det accepted accepts h =
      let (_, _, _, _, _, _, _, _, e) =
        correct_edifact-total text settings.owner_policy settings.policy accepted accepts h in
      (_, e, rw e refl)
  route_format-IsAnswer snx det accepted accepts h =
      snx_answer det (correct_snx tools.xml text settings.owner_policy settings.policy)
  route_format-IsAnswer x12 det accepted accepts h =
      let (_, _, _, _, _, _, _, _, _, e) =
        correct_x12-total tools.char_tests text settings.owner_policy settings.policy accepted
          accepts in
      (_, e, rw e refl)
  route_format-IsAnswer txt det accepted accepts h =
      let (r, e) =
        correct_txt-total text settings.trust settings.owner_policy settings.known settings.policy
          accepted accepts in
      (r, e, rw e refl)
  route_format-IsAnswer csv det accepted accepts h = refl
  route_format-IsAnswer fixed det accepted accepts h = refl
  route_format-IsAnswer xlsx det accepted accepts h = refl
  route_format-IsAnswer unsupported det accepted accepts h = refl

  -- With an accepted owner policy and, where a policy is given, a constructed one, `correct` gives
  -- back the detection with the report of the detected format's own corrector: for X12 and plain
  -- text always, for EDIFACT where the ids are found as they are written, for XML where the
  -- corrector returns, whose error it passes on otherwise. A format without a corrector has no
  -- report.
  pub correct-returns :
      is_owner_policy settings.owner_policy ≡ true
      → AcceptsPolicy settings.owner_policy settings.policy
      → IsServable (detect_format tools text).fmt
      → IsAnswer
          (detect_format tools text).fmt
          (detect_format tools text)
          (correct tools text settings)
  unfolding correct
  correct-returns accepted accepts h =
      let det = detect_format tools text in route_format-IsAnswer det.fmt det accepted accepts h
