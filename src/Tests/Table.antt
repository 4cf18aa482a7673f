-- ===== src/Tests/Table.antt =====
-- The delimited-table and fixed-width correctors at small files.
use checkdigit.Grouped.{Located}
use checkdigit.Report.{row_col}
use checkdigit.Common.{
  str_eq, lines_from, is_break, without_end, find_at, is_blank, is_space, lstrip, strip, matches,
  starts_with, ◌≡◌, refl, true, List, [], ◌∷◌, Str, codes, none, ok, All, EachPair, map, ℤ, arith,
}
use checkdigit.Csv.{
  resolve_columns, header_col, header_row, drop_spurious, finish, scan_from, step, role,
  role_outside, role_in_quotes, sniff_delimiter, count, first_line, cell_refs, is_spurious,
  is_target, most_frequent, row_refs, whole_ref, Options, named, parse_records, locate_csv,
  table_refs,
}
use checkdigit.Csv.Cells.{IsTargeted}
use checkdigit.Csv.Correct.{columns_of, locate_csv_sound, correct_csv-total, Answers}
use checkdigit.Csv.Written.{write_table, parse_records-write_table, values_of, fields_of}
use checkdigit.Kernel.Types.{strict}
use checkdigit.Txt.Locate.{IsToken, RefBefore}

abbrev table : Str
table = codes "Id,Box\n7,\"CSQU3054384\"\n8,CSQU3054384\n"

abbrev by_name : Options
by_name = record {
  columns = named (codes "Box ") ∷ [];
  delimiter = none;
  has_header = true;
  whole_cell = true;
}

abbrev same_case : Str → Str
same_case s = s

correct_csv-total_example : Answers same_case table by_name true strict none none
correct_csv-total_example =
    correct_csv-total same_case table by_name true strict none none refl refl

abbrev table_found : List Located
table_found =
    record { eqid = codes "CSQU3054384"; offset = 10; label = row_col 1 1 }
    ∷ record { eqid = codes "CSQU3054384"; offset = 25; label = row_col 2 1 }
    ∷ []

located_run : locate_csv same_case table by_name ≡ ok table_found
unfolding locate_csv resolve_columns header_col header_row parse_records drop_spurious finish
    scan_from step role role_outside role_in_quotes str_eq sniff_delimiter count first_line
    lines_from is_break without_end find_at is_blank is_space lstrip strip matches starts_with
    cell_refs is_spurious is_target most_frequent row_refs table_refs whole_ref
located_run = refl

locate_csv_sound_example :
    (targets : List ℤ) × (columns_of same_case table by_name ≡ ok targets)
    × All (IsToken table) table_found
    × EachPair RefBefore table_found
    × All (IsTargeted table true targets) table_found
locate_csv_sound_example = locate_csv_sound same_case table by_name located_run

parse_records-write_table_example :
    map values_of
      (parse_records (write_table b',' ((codes "a,\"b", codes "c\r\nd" ∷ []) ∷ [])) (b',' ∷ []))
    ≡ map fields_of ((codes "a,\"b", codes "c\r\nd" ∷ []) ∷ [])
parse_records-write_table_example =
    parse_records-write_table b',' ((codes "a,\"b", codes "c\r\nd" ∷ []) ∷ []) (λ e. ground arith)
      (λ e. ground arith)
