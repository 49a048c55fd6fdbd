-- ===== src/Mojibake/Rewrite.antt =====
-- What the updates of the found candidates do to a row and to the rows of a table.
use mathlib.Core.Option
use agentic_memory_stack_for.Prelude.Codes.{same}
use agentic_memory_stack_for.Prelude.{
  ℕ, String, ◌≡◌, refl, ap, ◌∙◌, arith, true, false, List, [], ◌∷◌, map, All, none, some, Option,
  ◌==◌, eqb, if◌then◌else◌, eq_iff, or_else,
}
use agentic_memory_stack_for.Prelude.Dict.{Dict, get, get-put}
use agentic_memory_stack_for.Mojibake.Repair.{contains_mojibake, repair_text}
use agentic_memory_stack_for.Mojibake.Phase.{
  Row, Cell, words, other, Candidate, Change, row_changes, set_cells, update_rows, scan_rows,
  change_of, cell_of, add_change, candidate_of,
}
use agentic_memory_stack_for.Prelude.Text.{mem}

-- The cell that a repair leaves.
abbrev pub repaired : Cell → Cell
repaired other = other
repaired (words t) = if contains_mojibake t then words (repair_text t) else words t

same_sound : (xs ys : List ℕ) → same xs ys ≡ true → xs ≡ ys
same_sound [] [] h = refl
same_sound [] (y ∷ ys) h = cc
same_sound (x ∷ xs) [] h = cc
same_sound (x ∷ xs) (y ∷ ys) h = ground (arith, same_sound xs ys)

after_change : Option Change → Option Cell → Option Cell
after_change none o = o
after_change (some c) o = some (words c.after)

get-set_cells :
    (k : String) (cs : Dict Change) (cells : Dict Cell)
    → get k (set_cells cs cells) ≡ after_change (get k cs) (get k cells)
unfolding set_cells get after_change
get-set_cells k [] cells = refl
get-set_cells k ((col, c) ∷ cs) cells =
    ground (arith, get-put col k (words c.after) (set_cells cs cells), get-set_cells k cs cells)

get-add_change :
    (k col : String) (o : Option Change) (rest : Dict Change)
    → get k (add_change col o rest) ≡ or_else (if col == k then o else none) (get k rest)
unfolding get
get-add_change k col none rest = ground arith
get-add_change k col (some c) rest = ground arith

get-row_changes :
    (k : String) (cols : List String) (row : Row)
    → get k (row_changes cols row)
      ≡ (if mem k cols then change_of (cell_of (get k row.cells)) else none)
unfolding row_changes get mem
get-row_changes k [] row = refl
get-row_changes k (col ∷ cols) row = ground (
  arith,
  get-add_change k col (change_of (cell_of (get col row.cells))) (row_changes cols row),
  get-row_changes k cols row,
  eq_iff k col,
  eq_iff col k,
)

change_of-repaired :
    (o : Option Cell) → after_change (change_of (cell_of o)) o ≡ Option.map repaired o
unfolding after_change
change_of-repaired none = refl
change_of-repaired (some other) = refl
change_of-repaired (some (words t)) = ground (arith, same_sound t (repair_text t))

-- A row whose columns `cols` are repaired.
unfoldable pub repair_row : List String → Row → Row
unfolding set_cells row_changes
repair_row cols row = record row { cells = set_cells (row_changes cols row) row.cells }

pub get-repair_row :
    (k : String) (cols : List String) (row : Row)
    → get k (repair_row cols row).cells
      ≡ (if mem k cols then Option.map repaired (get k row.cells) else get k row.cells)
unfolding repair_row after_change
get-repair_row k cols row = ground (
  arith,
  get-set_cells k (row_changes cols row) row.cells,
  get-row_changes k cols row,
  change_of-repaired (get k row.cells),
)

abbrev pub Apart : ℕ → List Row → Type 0
Apart pk rows = All (λ (r : Row). eqb r.id pk ≡ false) rows

-- The ids of a table's rows differ: they are its primary key.
abbrev pub IsKeyed : List Row → Type 0
IsKeyed [] = Unit
IsKeyed (r ∷ rs) = Apart r.id rs × IsKeyed rs

update_rows-Apart :
    (pk : ℕ) (cs : Dict Change) (rows : List Row) → Apart pk rows → update_rows pk cs rows ≡ rows
unfolding update_rows
update_rows-Apart pk cs [] h = refl
update_rows-Apart pk cs (r ∷ rs) h = rw h.0 (ap (◌∷◌ r) (update_rows-Apart pk cs rs h.1))

abbrev pub fold_rows : List Candidate → List Row → List Row
fold_rows [] rows = rows
fold_rows (c ∷ cs) rows = fold_rows cs (update_rows c.pk_value c.changes rows)

abbrev Others : Row → List Candidate → Type 0
Others r cs = All (λ (c : Candidate). eqb r.id c.pk_value ≡ false) cs

fold_rows-Others :
    (cs : List Candidate) (r : Row) (rs : List Row)
    → Others r cs
    → fold_rows cs (r ∷ rs) ≡ r ∷ fold_rows cs rs
unfolding update_rows
fold_rows-Others [] r rs h = refl
fold_rows-Others (c ∷ cs) r rs h =
    rw h.0 (fold_rows-Others cs r (update_rows c.pk_value c.changes rs) h.1)

candidate_of-Others :
    (label table : String) (r x : Row) (cs : Dict Change) (rest : List Candidate)
    → eqb x.id r.id ≡ false
    → Others r rest
    → Others r (candidate_of label table x cs rest)
candidate_of-Others label table r x [] rest h k = k
candidate_of-Others label table r x (c ∷ cs) rest h k = (ground arith, k)

scan_rows-Others :
    (label table : String) (cols : List String) (r : Row) (rs : List Row)
    → Apart r.id rs
    → Others r (scan_rows label table cols rs)
unfolding scan_rows
scan_rows-Others label table cols r [] h = tt
scan_rows-Others label table cols r (x ∷ rs) h =
    candidate_of-Others label table r x (row_changes cols x) (scan_rows label table cols rs) h.0
      (scan_rows-Others label table cols r rs h.1)

update_rows-own :
    (r : Row) (cs : Dict Change) (rs : List Row)
    → update_rows r.id cs (r ∷ rs)
      ≡ record r { cells = set_cells cs r.cells } ∷ update_rows r.id cs rs
unfolding update_rows
update_rows-own r cs rs = ground arith

fold_rows-candidate_of :
    (label table : String) (r : Row) (cs : Dict Change) (rest : List Candidate) (rs : List Row)
    → Others r rest
    → Apart r.id rs
    → fold_rows (candidate_of label table r cs rest) (r ∷ rs)
      ≡ record r { cells = set_cells cs r.cells } ∷ fold_rows rest rs
unfolding update_rows set_cells
fold_rows-candidate_of label table r [] rest rs h k = fold_rows-Others rest r rs h
fold_rows-candidate_of label table r (c ∷ cs) rest rs h k =
    let r' : Row = record r { cells = set_cells (c ∷ cs) r.cells } in
    ap (fold_rows rest)
      (update_rows-own r (c ∷ cs) rs ∙ ap (◌∷◌ r') (update_rows-Apart r.id (c ∷ cs) rs k))
    ∙ fold_rows-Others rest r' rs h

-- Each row's own update, and no other, changes it.
pub fold_rows-scan_rows :
    (label table : String) (cols : List String) (rows : List Row)
    → IsKeyed rows
    → fold_rows (scan_rows label table cols rows) rows ≡ map (repair_row cols) rows
unfolding scan_rows repair_row
fold_rows-scan_rows label table cols [] h = refl
fold_rows-scan_rows label table cols (r ∷ rs) h =
    fold_rows-candidate_of label table r (row_changes cols r) (scan_rows label table cols rs) rs
      (scan_rows-Others label table cols r rs h.0) h.0
    ∙ ap (◌∷◌ (repair_row cols r)) (fold_rows-scan_rows label table cols rs h.1)
