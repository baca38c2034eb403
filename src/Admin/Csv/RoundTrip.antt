-- ===== src/Admin/Csv/RoundTrip.antt =====
-- A reader of rows after RFC 4180, where a row ends in a newline or in a carriage return and a newline, reads
-- what `csvRow` of internal/admin/admin.go writes.
use edge_delta_lab.Prelude.{
  ℕ, ◌≡◌, ◌∙◌, refl, true, false, ◌||◌, Option, none, some, List, [], ◌∷◌, ◌++◌, if◌then◌else◌,
  ◌==◌, All, Bool, Bool-cases, ==_iff, inl, inr, arith,
}
use mathlib.Core.List.{append_assoc, append-nil}
use edge_delta_lab.Admin.Csv.{
  Bytes, is_special, contains_any, double_quotes, row_cell, row_rest, csv_row,
}

-- At the start of a cell, in a plain one, in a quoted one, behind a quote in a quoted one, behind a
-- carriage return that is not in a quoted one
data Mode : Type 0 where
  fresh plain quoted behind returned : Mode

-- The reader goes on with the mode, the cell and the cells before it, has a row, or fails.
data Action : Type 0 where
  go : Mode → Bytes → List Bytes → Action
  row : List Bytes → Action
  bad : Action

end_cell : ℕ → Bytes → List Bytes → Action → Action
end_cell c cell cells other =
    if c == b','
    then go fresh [] (cells ++ cell ∷ [])
    else if c == 10
    then row (cells ++ cell ∷ [])
    else if c == 13
    then go returned cell cells
    else other

act : Mode → ℕ → Bytes → List Bytes → Action
unfolding end_cell
act fresh c cell cells =
    if c == b'"'
    then go quoted [] cells
    else end_cell c cell cells (go plain (cell ++ c ∷ []) cells)
act plain c cell cells =
    if c == b'"' then bad else end_cell c cell cells (go plain (cell ++ c ∷ []) cells)
act quoted c cell cells =
    if c == b'"' then go behind cell cells else go quoted (cell ++ c ∷ []) cells
act behind c cell cells =
    if c == b'"' then go quoted (cell ++ c ∷ []) cells else end_cell c cell cells bad
act returned c cell cells = if c == 10 then row (cells ++ cell ∷ []) else bad

follow :
    Action
    → (Mode → Bytes → List Bytes → Option (List Bytes × Bytes))
    → Bytes
    → Option (List Bytes × Bytes)
follow (go m cell cells) f rest = f m cell cells
follow (row cells) f rest = some (cells, rest)
follow bad f rest = none

-- The cells of the first row, and the bytes behind it
read : Bytes → Mode → Bytes → List Bytes → Option (List Bytes × Bytes)
unfolding act follow
read [] m cell cells = none
read (c ∷ s) m cell cells = follow (act m c cell cells) (read s) s

pub read_row : Bytes → Option (List Bytes × Bytes)
unfolding read
read_row s = read s fresh [] []

-- What follows a cell: a comma and more, or the end of the row
abbrev ended : ℕ → Bytes → List Bytes → Option (List Bytes × Bytes)
ended d s cells = if d == b',' then read s fresh [] cells else some (cells, s)

abbrev IsEnd : ℕ → Type 0
IsEnd d = ((d == b',') || (d == 10)) ≡ true

read-behind :
    (d : ℕ) (s cell : Bytes) (cells : List Bytes)
    → IsEnd d
    → read (d ∷ s) behind cell cells ≡ ended d s (cells ++ cell ∷ [])
unfolding read
read-behind d s cell cells h = ground arith

read-plain_end :
    (d : ℕ) (s cell : Bytes) (cells : List Bytes)
    → IsEnd d
    → read (d ∷ s) plain cell cells ≡ ended d s (cells ++ cell ∷ [])
unfolding read
read-plain_end d s cell cells h = ground arith

-- A carriage return stands in the cell.
unfoldable pub has_return : Bytes → Bool
has_return [] = false
has_return (c ∷ cs) = c == 13 || has_return cs

-- A carriage return is in quotes: the cell also has a comma, a quote or a newline.
abbrev pub IsKept : Bytes → Type 0
IsKept c = contains_any c ≡ false → has_return c ≡ false

read-quoted_char :
    (c : ℕ) (s cell : Bytes) (cells : List Bytes)
    → (c == b'"') ≡ false
    → read (c ∷ s) quoted cell cells ≡ read s quoted (cell ++ c ∷ []) cells
unfolding read
read-quoted_char c s cell cells h = ground arith

read-plain_char :
    (c : ℕ) (s cell : Bytes) (cells : List Bytes)
    → is_special c ≡ false
    → (c == 13) ≡ false
    → read (c ∷ s) plain cell cells ≡ read s plain (cell ++ c ∷ []) cells
unfolding read is_special
read-plain_char c s cell cells h free = ground arith

read-fresh_char :
    (c : ℕ) (s : Bytes) (cells : List Bytes)
    → is_special c ≡ false
    → (c == 13) ≡ false
    → read (c ∷ s) fresh [] cells ≡ read s plain (c ∷ []) cells
unfolding read is_special
read-fresh_char c s cells h free = ground arith

-- The doubled quotes of a quoted cell and its last quote
read-quoted :
    (c s cell : Bytes) (cells : List Bytes)
    → read (double_quotes c ++ b'"' ∷ s) quoted cell cells ≡ read s behind (cell ++ c) cells
unfolding double_quotes
read-quoted [] s cell cells = unfold read in rw append-nil refl
read-quoted (c ∷ cs) s cell cells =
    let rest = read-quoted cs s (cell ++ c ∷ []) cells in
    let joined = append_assoc cell (c ∷ []) cs in
    elim (Bool-cases (c == b'"')) [
      | inl q ↦ quote ((==_iff c b'"').0 q) (rw joined at rest)
      | inr q ↦
          rw q
            (read-quoted_char c (double_quotes cs ++ b'"' ∷ s) cell cells q ∙ (rw joined at rest))
    ]
  where
    quote :
        c ≡ b'"'
        → read (double_quotes cs ++ b'"' ∷ s) quoted (cell ++ c ∷ []) cells
          ≡ read s behind (cell ++ c ∷ cs) cells
        → read (double_quotes (c ∷ cs) ++ b'"' ∷ s) quoted cell cells
          ≡ read s behind (cell ++ c ∷ cs) cells
    quote e h = unfold read in rw e (rw e at h)

read-plain :
    (c : Bytes) (d : ℕ) (s cell : Bytes) (cells : List Bytes)
    → contains_any c ≡ false
    → has_return c ≡ false
    → IsEnd d
    → read (c ++ d ∷ s) plain cell cells ≡ ended d s (cells ++ (cell ++ c) ∷ [])
unfolding contains_any has_return
read-plain [] d s cell cells h free e = rw append-nil (read-plain_end d s cell cells e)
read-plain (c ∷ cs) d s cell cells h free e =
    let rest =
      read-plain cs d s (cell ++ c ∷ []) cells (ground (arith, h)) (ground (arith, free)) e in
    read-plain_char c (cs ++ d ∷ s) cell cells (ground (arith, h)) (ground (arith, free))
    ∙ (rw (append_assoc cell (c ∷ []) cs) at rest)

read-fresh_end :
    (d : ℕ) (s : Bytes) (cells : List Bytes)
    → IsEnd d
    → read (d ∷ s) fresh [] cells ≡ ended d s (cells ++ [] ∷ [])
unfolding read
read-fresh_end d s cells h = ground arith

-- A written cell and the byte behind it
read-row_cell :
    (c : Bytes) (d : ℕ) (s : Bytes) (cells : List Bytes)
    → IsKept c
    → IsEnd d
    → read (row_cell c ++ d ∷ s) fresh [] cells ≡ ended d s (cells ++ c ∷ [])
unfolding row_cell
read-row_cell c d s cells k e = elim (Bool-cases (contains_any c)) [
  | inl q ↦ rw q (quoted_cell c)
  | inr q ↦ rw q (plain_cell c q (k q))
]
  where
    quoted_cell :
        (c : Bytes)
        → read ((b'"' ∷ (double_quotes c ++ b'"' ∷ [])) ++ d ∷ s) fresh [] cells
          ≡ ended d s (cells ++ c ∷ [])
    quoted_cell c =
        unfold read in
        rw (append_assoc (double_quotes c) (b'"' ∷ []) (d ∷ s))
          (read-quoted c (d ∷ s) [] cells ∙ read-behind d s c cells e)

    plain_cell :
        (c : Bytes)
        → contains_any c ≡ false
        → has_return c ≡ false
        → read (c ++ d ∷ s) fresh [] cells ≡ ended d s (cells ++ c ∷ [])
    plain_cell [] q free = read-fresh_end d s cells e
    plain_cell (x ∷ xs) q free =
        unfold contains_any in
        unfold has_return in
        read-fresh_char x (xs ++ d ∷ s) cells (ground (arith, q)) (ground (arith, free))
        ∙ read-plain xs d s (x ∷ []) cells (ground (arith, q)) (ground (arith, free)) e

read-row_rest :
    (c : Bytes) (cs : List Bytes) (s : Bytes) (cells : List Bytes)
    → All IsKept (c ∷ cs)
    → read (row_cell c ++ row_rest cs ++ s) fresh [] cells ≡ some (cells ++ c ∷ cs, s)
unfolding row_rest
read-row_rest c [] s cells (k, ks) =
    rw (append_assoc (row_cell c) (10 ∷ []) s) (read-row_cell c 10 s cells k refl)
read-row_rest c (c' ∷ cs) s cells (k, ks) =
    rw (append_assoc (row_cell c) (b',' ∷ (row_cell c' ++ row_rest cs)) s) (
      read-row_cell c b',' (row_cell c' ++ row_rest cs ++ s) cells k refl
      ∙ read-row_rest c' cs s (cells ++ c ∷ []) ks
      ∙ rw (append_assoc cells (c ∷ []) (c' ∷ cs)) refl)

-- From a written row with one cell or more, and whatever follows it, the reader gets just these cells, with
-- their commas, quotes and newlines, and what follows; where a cell with a carriage return has one of those
-- three as well. The code quotes no other cell, so a carriage return at the end of a row's last cell would be
-- read as part of the row's end.
pub read_row-csv_row :
    (c : Bytes) (cs : List Bytes) (rest : Bytes)
    → All IsKept (c ∷ cs)
    → read_row (csv_row (c ∷ cs) ++ rest) ≡ some (c ∷ cs, rest)
unfolding read_row csv_row
read_row-csv_row c cs rest kept = read-row_rest c cs rest [] kept

-- The carriage return of the one cell of a row is lost.
return_lost : read_row (csv_row ((b'a' ∷ 13 ∷ []) ∷ [])) ≡ some ((b'a' ∷ []) ∷ [], [])
unfolding read_row read csv_row row_cell row_rest contains_any is_special
return_lost = refl
