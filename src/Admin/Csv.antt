-- ===== src/Admin/Csv.antt =====
-- `csvRow` of internal/admin/admin.go, and the rows that a program reads back.
pub mod RoundTrip
use edge_delta_lab.Prelude.{
  ℕ, Bool, false, ◌||◌, Option, none, some, List, [], ◌∷◌, ◌++◌, if◌then◌else◌, ◌==◌,
}

abbrev pub Bytes : Type 0
Bytes = List ℕ

-- `strings.ContainsAny(c, ",\"\n")`
unfoldable pub is_special : ℕ → Bool
is_special c = c == b',' || c == b'"' || c == 10

unfoldable pub contains_any : Bytes → Bool
unfolding is_special
contains_any [] = false
contains_any (c ∷ cs) = is_special c || contains_any cs

-- `strings.ReplaceAll(c, "\"", "\"\"")`
unfoldable pub double_quotes : Bytes → Bytes
double_quotes [] = []
double_quotes (c ∷ cs) =
    let rest = double_quotes cs in if c == b'"' then b'"' ∷ b'"' ∷ rest else c ∷ rest

unfoldable pub row_cell : Bytes → Bytes
unfolding contains_any double_quotes
row_cell c = if contains_any c then b'"' ∷ (double_quotes c ++ b'"' ∷ []) else c

-- The cells after the first, and the newline
unfoldable pub row_rest : List Bytes → Bytes
unfolding row_cell
row_rest [] = 10 ∷ []
row_rest (c ∷ cs) = b',' ∷ (row_cell c ++ row_rest cs)

unfoldable pub csv_row : List Bytes → Bytes
unfolding row_rest row_cell
csv_row [] = 10 ∷ []
csv_row (c ∷ cs) = row_cell c ++ row_rest cs
