-- ===== src/Mojibake/Repaired.antt =====
-- What a live run leaves in the table that it repairs.
use mathlib.Core.List.{append-nil}
use mathlib.Core.Option
use agentic_memory_stack_for.Prelude.{
  String, ◌≡◌, refl, ap, ◌∙◌, arith, Bool, true, false, List, [], ◌∷◌, map, filter, All, some,
  if◌then◌else◌, eq_iff,
}
use agentic_memory_stack_for.Prelude.Dict.{Dict, get}
use agentic_memory_stack_for.Mojibake.Phase.{
  Row, Candidate, Change, Database, World, row_changes, update_rows, update_table, scan_rows,
  candidate_of, rows_of, scan_sqlite_phase, apply_sqlite_phase, flag_gate,
}
use agentic_memory_stack_for.Mojibake.Receipts.{written, update_all, apply_sqlite_phase-written}
use agentic_memory_stack_for.Prelude.Text.{mem}
use agentic_memory_stack_for.Mojibake.Rewrite.{
  repaired, repair_row, get-repair_row, IsKeyed, fold_rows, fold_rows-scan_rows,
}

get-update_table :
    (t : String) (c : Candidate) (db : Database) (rows : List Row)
    → c.table ≡ t
    → get t db ≡ some rows
    → get t (update_table c db) ≡ some (update_rows c.pk_value c.changes rows)
unfolding get update_table
get-update_table t c [] rows e h = cc
get-update_table t c ((u, us) ∷ db) rows e h =
    ground (arith, eq_iff u t, eq_iff u c.table, get-update_table t c db rows)

abbrev InTable : String → List Candidate → Type 0
InTable t cs = All (λ (c : Candidate). c.table ≡ t) cs

get-update_all :
    (t : String) (cs : List Candidate) (db : Database) (rows : List Row)
    → InTable t cs
    → get t db ≡ some rows
    → get t (update_all cs db) ≡ some (fold_rows cs rows)
get-update_all t [] db rows k h = h
get-update_all t (c ∷ cs) db rows k h =
    get-update_all t cs (update_table c db) (update_rows c.pk_value c.changes rows) k.1
      (get-update_table t c db rows k.0 h)

candidate_of-InTable :
    (label table : String) (x : Row) (cs : Dict Change) (rest : List Candidate)
    → InTable table rest
    → InTable table (candidate_of label table x cs rest)
candidate_of-InTable label table x [] rest k = k
candidate_of-InTable label table x (c ∷ cs) rest k = (refl, k)

scan_rows-InTable :
    (label table : String) (cols : List String) (rs : List Row)
    → InTable table (scan_rows label table cols rs)
unfolding scan_rows
scan_rows-InTable label table cols [] = tt
scan_rows-InTable label table cols (r ∷ rs) =
    candidate_of-InTable label table r (row_changes cols r) (scan_rows label table cols rs)
      (scan_rows-InTable label table cols rs)

-- Neither flagged nor refused.
abbrev pub IsClear : (Candidate → Bool) → List String → List Candidate → Type 0
IsClear refuses include_flagged cs =
    All (λ (c : Candidate). (flag_gate c include_flagged ≡ false) × (refuses c ≡ false)) cs

filter-written :
    (refuses : Candidate → Bool) (include_flagged : List String) (cs : List Candidate)
    → IsClear refuses include_flagged cs
    → filter (written refuses true include_flagged) cs ≡ cs
unfolding filter
filter-written refuses include_flagged [] h = refl
filter-written refuses include_flagged (c ∷ cs) h =
    ground (arith, h.0, filter-written refuses include_flagged cs)

scan_sqlite_phase-rows :
    (label table : String) (cols : List String) (rows : List Row) (db : Database)
    → get table db ≡ some rows
    → scan_sqlite_phase db ((table, cols) ∷ []) label ≡ scan_rows label table cols rows
unfolding scan_sqlite_phase
scan_sqlite_phase-rows label table cols rows db e =
    append-nil (scan_rows label table cols (rows_of (get table db)))
    ∙ ap (λ o. scan_rows label table cols (rows_of o)) e

module _ (refuses : Candidate → Bool) (include_flagged : List String) (label table : String)
    (cols : List String) (rows : List Row) (w : World) where
  -- A live run over the candidates that a scan found in one table whose row ids differ, none of
  -- which sqlite refuses or the eyeball gate holds back, leaves the table with every scanned text
  -- that holds mojibake repaired and every other cell as it was.
  pub apply_sqlite_phase-repaired :
      get table w.db ≡ some rows
      → IsKeyed rows
      → let cands = scan_sqlite_phase w.db ((table, cols) ∷ []) label in
        IsClear refuses include_flagged cands
        → let r = apply_sqlite_phase refuses true include_flagged cands w in
          (get table r.db ≡ some (map (repair_row cols) rows))
          × ((k : String) (row : Row)
              → get k (repair_row cols row).cells
                ≡ (if mem k cols then Option.map repaired (get k row.cells) else get k row.cells))
  apply_sqlite_phase-repaired e k c =
      let cands = scan_sqlite_phase w.db ((table, cols) ∷ []) label in
      let q = scan_sqlite_phase-rows label table cols rows w.db e in
      (
        ap (get table) (apply_sqlite_phase-written refuses true include_flagged cands w).0
            ∙ ap (λ cs. get table (update_all cs w.db))
                (filter-written refuses include_flagged cands c ∙ q)
            ∙ get-update_all table (scan_rows label table cols rows) w.db rows
                (scan_rows-InTable label table cols rows) e
            ∙ ap some (fold_rows-scan_rows label table cols rows k),
        λ j row. get-repair_row j cols row,
      )
