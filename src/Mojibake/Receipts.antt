-- ===== src/Mojibake/Receipts.antt =====
-- What a sqlite phase writes, and the receipts it leaves.
use mathlib.Core.List.{append-nil, append_assoc}
use agentic_memory_stack_for.Prelude.{
  ◌+◌, String, ◌≡◌, refl, sym, arith, Bool, not, ◌&&◌, List, [], ◌∷◌, ◌++◌, map, length, filter,
}
use agentic_memory_stack_for.Prelude.Dict.{Dict}
use agentic_memory_stack_for.Mojibake.Phase.{
  Candidate, Change, Database, World, flag_gate, update_table, apply_candidate, apply_sqlite_phase,
}

abbrev pub update_all : List Candidate → Database → Database
update_all [] db = db
update_all (c ∷ cs) db = update_all cs (update_table c db)

module _ (refuses : Candidate → Bool) (live : Bool) (include_flagged : List String) where
  -- The candidates that a run writes, and those whose write fails.
  abbrev pub passes : Candidate → Bool
  passes c = not (flag_gate c include_flagged)

  abbrev pub written : Candidate → Bool
  written c = passes c && live && not (refuses c)

  abbrev pub failed : Candidate → Bool
  failed c = passes c && live && refuses c

  abbrev pub receipt : Candidate → String × Dict Change
  receipt c = (c.id, c.changes)

  written_db :
      (cs : List Candidate) (w : World)
      → (apply_sqlite_phase refuses live include_flagged cs w).db
        ≡ update_all (filter written cs) w.db
  unfolding apply_sqlite_phase apply_candidate filter
  written_db [] w = refl
  written_db (c ∷ cs) w =
      ground (arith, written_db cs (apply_candidate refuses live include_flagged c w))

  written_stats :
      (cs : List Candidate) (w : World)
      → let r = apply_sqlite_phase refuses live include_flagged cs w in
        (r.stats.planned ≡ w.stats.planned + length (filter passes cs))
        × (r.stats.repaired ≡ w.stats.repaired + length (filter written cs))
        × (r.stats.errors ≡ w.stats.errors + length (filter failed cs))
        × (r.stats.planned + r.stats.flag_skipped
            ≡ w.stats.planned + w.stats.flag_skipped + length cs)
  unfolding apply_sqlite_phase apply_candidate filter
  written_stats [] w = omega arith
  written_stats (c ∷ cs) w =
      ground (arith, written_stats cs (apply_candidate refuses live include_flagged c w))

  written_receipts :
      (cs : List Candidate) (w : World)
      → (apply_sqlite_phase refuses live include_flagged cs w).receipts
        ≡ w.receipts ++ map receipt (filter written cs)
  unfolding apply_sqlite_phase apply_candidate filter
  written_receipts [] w = sym (append-nil w.receipts)
  written_receipts (c ∷ cs) w = ground (
    arith,
    written_receipts cs (apply_candidate refuses live include_flagged c w),
    append_assoc w.receipts (receipt c ∷ []) (map receipt (filter written cs)),
  )

  -- Whatever sqlite refuses, a run updates exactly the candidates that it may write (none on a dry
  -- run, on a live one those that are neither held back nor refused), leaves one receipt for each
  -- of them in their order, and counts them as repaired, the refused ones as errors, and every
  -- candidate as planned or as held back.
  pub apply_sqlite_phase-written :
      (cs : List Candidate) (w : World)
      → let r = apply_sqlite_phase refuses live include_flagged cs w in
        (r.db ≡ update_all (filter written cs) w.db)
        × (r.receipts ≡ w.receipts ++ map receipt (filter written cs))
        × (r.stats.planned ≡ w.stats.planned + length (filter passes cs))
        × (r.stats.repaired ≡ w.stats.repaired + length (filter written cs))
        × (r.stats.errors ≡ w.stats.errors + length (filter failed cs))
        × (r.stats.planned + r.stats.flag_skipped
            ≡ w.stats.planned + w.stats.flag_skipped + length cs)
  apply_sqlite_phase-written cs w =
      let s = written_stats cs w in (written_db cs w, written_receipts cs w, s.0, s.1, s.2, s.3)
