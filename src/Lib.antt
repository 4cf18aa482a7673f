-- ===== src/Lib.antt =====
-- Verification of Checkdigit: equipment identifiers of the freight trade, their check digits, and
-- their correction in place inside messages and files.
--
-- The program. The kernel (checkdigit/equipment_checkdigit.py) computes the ISO 6346 and UIC check
-- digits and decides, token by token, whether an identifier is valid, corrected, flagged or not a
-- target. An operator's rules (checkdigit/policy.py) change the decision by owner prefix. A locator
-- for each format finds the tokens of a text with their offsets, the kernel judges each of them, and
-- the format's corrector turns the verdicts into edits that checkdigit/substitution.py splices into
-- the text; checkdigit/correction_report.py holds the report.
--
-- The files.
--   Common, Common/*: the library names in use, Boolean tests on native numbers, lists, texts as
--     lists of code points, relations on lists, and exceptions as values: Error has a constructor
--     for each raise of the source, and Result and its bind stand for a call that may raise.
--   Kernel/Digits: part 1 of the kernel, iso6346_value, iso6346_check_digit, uic_check_digit;
--     Digits/Iso6346 and Digits/Luhn give their closed forms, Digits/Detection the errors caught.
--   Kernel/Types: part 2, the enums, CorrectionResult and the regular expressions. A message is a
--     constructor of Reason with the values it shows, so two messages differ where the texts do.
--   Kernel/Normalize: normalize; upper_char has the upper-case mappings of Unicode 14.0, those of
--     Python 3.11, which Normalize/Casing lists; Normalize/Closed is about these tables.
--   Kernel/Decide and Kernel/Router: part 3, the decisions and the router correct_identifier. Below
--     Router, Total splits a run into its five ways, Again, Sound and Corrected treat corrections,
--     Trust and Verdicts the conditions under which the router may correct or accept, Denied the
--     deny list.
--   Kernel/Explain: explain, the worked steps of a check digit.
--   Kernel/X12: correct_x12_equipment, which assembles a number from the parts of an X12 segment.
--   Policy: Policy, its constructor's checks, _match and resolve; Policy/Match and Policy/Complete
--     are about the keys that match, Policy/Valid about constructed policies, Policy/Plan models
--     plan_for_tokens.
--   Substitution: apply_edits with its stable sort, changed_indices, utf16_index; Spliced is the
--     specification, a relation that cuts the text into gaps and old parts without a cursor.
--   Report: the report's records and inventory_from_results; Report/Inventory is about its counts.
--   Grouped: the grouping loop that the plain-text, CSV and fixed-width correctors share word for
--     word; Grouped/Edits and Grouped/Apply say which edits it makes.
--   Txt: txt_locator.py and txt_corrector.py; Txt/Fields is about tokens in the fields of a table.
--   Csv: csv_locator.py and csv_corrector.py. The scanner of parse_records has the state Scan and a
--     Role for each character; Csv/Spans and Csv/Cells say where cells and tokens stand,
--     Csv/Header which columns are found, and Csv/Quoted and Csv/Written write tables that the
--     scanner reads.
--   Fixedwidth: fixedwidth_locator.py and fixedwidth_corrector.py; Fixedwidth/Spans as above,
--     Fixedwidth/Placed says in which lines and ranges the tokens stand.
--   Edifact: edifact_locator.py, and in Edifact/Corrector its evaluate_text and edifact_corrector.py.
--     The scanner's state is Scan, its treatment of a character Role; Edifact/Segments and Edifact/Refs
--     say where segments and ids stand. An offset is a constructor of Offset, since the source's may be
--     -1, and the correction of such an id raises edit_before_start, as the splice does.
--   X12: x12_locator.py, and in X12/Corrector its evaluation and x12_corrector.py; X12/Segments,
--     X12/Fielded and X12/Located say where segments and values stand.
--   Snx: snx_locator.py, and in Snx/Corrector its evaluation and snx_corrector.py; Snx/Hardened is
--     about the guards before the parser, Snx/Spots about the attributes that the scan finds.
--   Dispatcher: dispatcher.py, over all the correctors.
--   Nearmiss: nearmiss.py; Nearmiss/Alignment holds the distance as a recursion over
--     prefixes, Nearmiss/Distance is about the rows, and Nearmiss/Suggest about the order.
--   SizeType: iso6346_sizetype.py, its tables and decode, in the parts that the characters set;
--     SizeType/Geometry is about the geometry that comes out.
--   Tests: runs at concrete inputs.
--
-- Exceptions are values of Error, dictionaries are lists of items in insertion order, sets are lists
-- of members in the order in which they are walked. Offsets are native natural numbers, counted in
-- code points as Python counts them. Loops are structural recursions over a text, a list or a count of
-- rounds that the source fixes before the loop, so there is no fuel.
--
-- What Python's libraries do is a parameter where the code relies on it: str.isalnum and str.isdigit
-- (CharTests), str.lower, the XML parser and two tests of the re module (XmlTools), and the name list of
-- a ZIP archive. No theorem assumes anything of them.
--
-- Not modelled: the XLSX path, which reads and writes workbooks through ZIP and XML libraries; the web
-- service, the storage, the workspace and the batch tools, which are input, output and SQL around the
-- correctors; the scenes and renders; the acceptance scripts; and the browser port, in another language.
-- byte_offset of substitution.py is UTF-8 encoding by Python's own library, and size_type_codes of
-- snx_locator.py only reports.
pub mod Common
pub mod Kernel
pub mod Policy
pub mod Substitution
pub mod Report
pub mod Grouped
pub mod Txt
pub mod Edifact
pub mod X12
pub mod Csv
pub mod Fixedwidth
pub mod Nearmiss
pub mod Snx
pub mod Dispatcher
pub mod SizeType
mod Tests
