-- ===== src/Mojibake/Phase.antt =====
-- The sqlite phases of scripts/wsl/cp437-repair.py: `scan_sqlite_phase`, `_flag_gate`,
-- `apply_sqlite_phase`, and the gate that `main` keeps before it. A database is a dict of tables; an
-- update that sqlite refuses is a parameter.
use Prim.Native.String.{◌++◌ as ◌<>◌}
use agentic_memory_stack_for.Prelude.Codes.{codes, same}
use agentic_memory_stack_for.Prelude.{
  ℕ, ◌+◌, String, Bool, true, false, not, ◌&&◌, ◌||◌, Option, none, some, List, [], ◌∷◌, ◌++◌, ◌==◌,
  leb, eqb, if◌then◌else◌, any, map,
}
use agentic_memory_stack_for.Prelude.Dict.{Dict, get, put}
use agentic_memory_stack_for.Prelude.Text.{mem}
use agentic_memory_stack_for.Payload.{decimal}
use agentic_memory_stack_for.Mojibake.Repair.{contains_mojibake, repair_text}

-- A column's value: a text, or NULL or a number.
pub data Cell : Type 0 where
  words : List ℕ → Cell
  other : Cell

pub record Row : Type 0 where
  pub id : ℕ
  pub cells : Dict Cell

abbrev pub Database : Type 0
Database = Dict (List Row)

pub record Change : Type 0 where
  pub before : List ℕ
  pub after : List ℕ

pub record Candidate : Type 0 where
  pub id : String
  pub table : String
  pub pk_value : ℕ
  pub changes : Dict Change
  pub flagged : Bool

abbrev pub cell_of : Option Cell → Cell
cell_of none = other
cell_of (some c) = c

-- `(?i)` folds A to Z, and the three other characters that it takes for an i or a k.
unfoldable fold_case : ℕ → ℕ
fold_case c =
    if leb 65 c && leb c 90
    then c + 32
    else if eqb c 0x130 || eqb c 0x131
    then 105
    else if eqb c 0x212a
    then 107
    else c

abbrev is_prefix : List ℕ → List ℕ → Bool
is_prefix [] ys = true
is_prefix (x ∷ xs) [] = false
is_prefix (x ∷ xs) (y ∷ ys) = eqb x y && is_prefix xs ys

unfoldable contains_word : List ℕ → List ℕ → Bool
contains_word w [] = is_prefix w []
contains_word w (c ∷ cs) = is_prefix w (c ∷ cs) || contains_word w cs

-- `_FLAG_RE.search`
unfoldable pub flags : List ℕ → Bool
unfolding fold_case contains_word any
flags text =
    any (λ w. contains_word (codes w) (map fold_case text))
      ("cp437" ∷ "mojibake" ∷ "encoding" ∷ "glyph" ∷ [])

-- One column of the loop over `cols`.
abbrev pub change_of : Cell → Option Change
change_of other = none
change_of (words val) =
    let fixed = repair_text val in
    if not (contains_mojibake val)
    then none
    else if same val fixed
    then none
    else some (record { before = val; after = fixed })

abbrev pub add_change : String → Option Change → Dict Change → Dict Change
add_change col none rest = rest
add_change col (some c) rest = (col, c) ∷ rest

unfoldable pub row_changes : List String → Row → Dict Change
unfolding get
row_changes [] row = []
row_changes (col ∷ cols) row =
    add_change col (change_of (cell_of (get col row.cells))) (row_changes cols row)

abbrev any_flagged : Dict Change → Bool
any_flagged [] = false
any_flagged ((col, c) ∷ cs) = flags c.before || any_flagged cs

-- `f"{label}:{table}:{row[pk]}"`
unfoldable pub candidate_id : String → String → ℕ → String
unfolding decimal
candidate_id label table pk = label <> ":" <> table <> ":" <> decimal pk

abbrev pub candidate_of : String → String → Row → Dict Change → List Candidate → List Candidate
candidate_of label table row [] rest = rest
candidate_of label table row (c ∷ cs) rest =
    record {
      id = candidate_id label table row.id;
      table = table;
      pk_value = row.id;
      changes = c ∷ cs;
      flagged = any_flagged (c ∷ cs);
    }
    ∷ rest

unfoldable pub scan_rows : String → String → List String → List Row → List Candidate
unfolding candidate_id row_changes
scan_rows label table cols [] = []
scan_rows label table cols (row ∷ rows) =
    candidate_of label table row (row_changes cols row) (scan_rows label table cols rows)

abbrev pub rows_of : Option (List Row) → List Row
rows_of none = []
rows_of (some rows) = rows

-- `scan_sqlite_phase`: the targets are the tables with their columns of text.
unfoldable pub scan_sqlite_phase : Database → List (String × List String) → String → List Candidate
unfolding scan_rows get
scan_sqlite_phase db [] label = []
scan_sqlite_phase db ((table, cols) ∷ targets) label =
    scan_rows label table cols (rows_of (get table db)) ++ scan_sqlite_phase db targets label

abbrev episodic_targets : List (String × List String)
episodic_targets =
    ("episodes", "goal_text" ∷ "summary_text" ∷ [])
    ∷ ("goals", "title" ∷ "description" ∷ [])
    ∷ ("open_questions", "question_text" ∷ [])
    ∷ []

abbrev history_targets : List (String × List String)
history_targets = ("history", "new_memory" ∷ []) ∷ []

pub record Stats : Type 0 where
  pub planned : ℕ
  pub repaired : ℕ
  pub flag_skipped : ℕ
  pub errors : ℕ

abbrev pub no_stats : Stats
no_stats = record { planned = 0; repaired = 0; flag_skipped = 0; errors = 0 }

-- The database, the receipts (each with the id and the changes of its record), and the counters.
pub record World : Type 0 where
  pub db : Database
  pub receipts : List (String × Dict Change)
  pub stats : Stats

unfoldable pub set_cells : Dict Change → Dict Cell → Dict Cell
unfolding put
set_cells [] cells = cells
set_cells ((col, c) ∷ cs) cells = put col (words c.after) (set_cells cs cells)

-- `UPDATE table SET … WHERE pk = ?`
unfoldable pub update_rows : ℕ → Dict Change → List Row → List Row
unfolding set_cells
update_rows pk cs [] = []
update_rows pk cs (row ∷ rows) =
    (if eqb row.id pk then record row { cells = set_cells cs row.cells } else row)
    ∷ update_rows pk cs rows

unfoldable pub update_table : Candidate → Database → Database
unfolding update_rows
update_table cand [] = []
update_table cand ((table, rows) ∷ db) =
    (table, if table == cand.table then update_rows cand.pk_value cand.changes rows else rows)
    ∷ update_table cand db

unfoldable pub flag_gate : Candidate → List String → Bool
unfolding mem
flag_gate cand include_flagged = cand.flagged && not (mem cand.id include_flagged)

module _ (refuses : Candidate → Bool) (live : Bool) (include_flagged : List String) where
  -- One turn of the loop of `apply_sqlite_phase`.
  unfoldable pub apply_candidate : Candidate → World → World
  unfolding flag_gate update_table
  apply_candidate cand w =
      let s = w.stats in
      if flag_gate cand include_flagged
      then record w { stats = record s { flag_skipped = s.flag_skipped + 1 } }
      else if not live
      then record w { stats = record s { planned = s.planned + 1 } }
      else if refuses cand
      then record w { stats = record s { planned = s.planned + 1; errors = s.errors + 1 } }
      else record {
        db = update_table cand w.db;
        receipts = w.receipts ++ ((cand.id, cand.changes) ∷ []);
        stats = record s { planned = s.planned + 1; repaired = s.repaired + 1 };
      }

  unfoldable pub apply_sqlite_phase : List Candidate → World → World
  unfolding apply_candidate
  apply_sqlite_phase [] w = w
  apply_sqlite_phase (c ∷ cs) w = apply_sqlite_phase cs (apply_candidate c w)

-- The flags of the command line that decide what runs.
record Args : Type 0 where
  pub apply : Bool
  pub dry_run : Bool
  pub live : Bool
  pub require_boundary_marker : Bool
  pub force : Bool

pub data Mode : Type 0 where
  report refused dry_run live : Mode

unfoldable mode_of : Args → Mode
mode_of a =
    if not a.apply
    then report
    else if not a.dry_run && not a.live
    then refused
    else if a.dry_run && a.live
    then refused
    else if a.live && a.require_boundary_marker && not a.force
    then refused
    else if a.dry_run
    then dry_run
    else live
