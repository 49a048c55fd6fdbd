-- ===== src/Mojibake/Tests.antt =====
-- The repair, the tripwire and a sqlite phase at work on small inputs.
use mathlib.Core.Option
use agentic_memory_stack_for.Prelude.{
  ℕ, ◌+◌, ◌*◌, ◌≤◌, String, ◌≡◌, refl, arith, Bool, true, false, none, some, List, [], ◌∷◌, ◌++◌,
  map, if◌then◌else◌, length, any, eqb, All, filter,
}
use agentic_memory_stack_for.Prelude.Text.{mem}
use agentic_memory_stack_for.Prelude.Dict.{get}
use agentic_memory_stack_for.Mojibake.Codec.{
  garble, IsScalar, cp437_encode, utf8_decode, cp437_byte,
}
use agentic_memory_stack_for.Mojibake.Repaired.{apply_sqlite_phase-repaired}
use agentic_memory_stack_for.Mojibake.Repair.{repair_text, contains_mojibake}
use agentic_memory_stack_for.Mojibake.RoundTrip.{repair_text-garble}
use agentic_memory_stack_for.Mojibake.Detection.{
  non_ascii, contains_mojibake-garble, repair_text-garble_twice,
}
use agentic_memory_stack_for.Mojibake.Scan.{
  Scroll, any_mojibake, mojibake_health, no_scan, max_samples, page_cap, page_size,
}
use agentic_memory_stack_for.Mojibake.Counts.{IsPaged, mojibake_health_bounds}
use agentic_memory_stack_for.Mojibake.Receipts.{
  update_all, written, passes, failed, receipt, apply_sqlite_phase-written,
}
use agentic_memory_stack_for.Mojibake.Phase.{
  Row, words, other, World, Candidate, no_stats, scan_sqlite_phase, apply_sqlite_phase, flag_gate,
  flags,
}
use agentic_memory_stack_for.Mojibake.Rewrite.{repaired, repair_row}
use agentic_memory_stack_for.Mojibake.Repaired.{IsClear}

-- An h, an e with an acute accent, and a euro sign.
abbrev word : List ℕ
word = 104 ∷ 233 ∷ 0x20ac ∷ []

word-IsScalar : All IsScalar word
word-IsScalar = ((omega arith, refl), ((omega arith, refl), ((omega arith, refl), tt)))

-- One more character for each byte above the first.
garble-word : garble word ≡ 104 ∷ 9500 ∷ 8976 ∷ 915 ∷ 233 ∷ 188 ∷ []
unfolding garble
garble-word = refl

repair_text-garble_example : repair_text (garble word) ≡ word
repair_text-garble_example = repair_text-garble word word-IsScalar

contains_mojibake-garble_example : contains_mojibake (garble word) ≡ any non_ascii word
contains_mojibake-garble_example = contains_mojibake-garble word word-IsScalar

any-word : any non_ascii word ≡ true
unfolding any
any-word = refl

repair_text-garble_twice_example :
    let once = repair_text (garble (garble word)) in
    (once ≡ garble word) × (contains_mojibake once ≡ true) × (repair_text once ≡ word)
repair_text-garble_twice_example = repair_text-garble_twice word word-IsScalar any-word

-- A run that is no mojibake stays as it is: an e with an acute accent before an ASCII letter.
repair_text_kept : repair_text (233 ∷ 97 ∷ []) ≡ 233 ∷ 97 ∷ []
unfolding repair_text cp437_byte
repair_text_kept = refl

-- One page with one point, on which an e with an acute accent is garbled.
abbrev scroll : Scroll
scroll offset limit =
    if eqb limit 0
    then some ([], none)
    else some
        (record { id = "p1"; mojibake_ok = false; texts = (9500 ∷ 8976 ∷ []) ∷ [] } ∷ [], none)

scroll-IsPaged : IsPaged scroll
scroll-IsPaged offset limit points next h = ground arith

mojibake_health_bounds_example :
    let h = mojibake_health scroll in
    (h.ok ≡ true)
    × (h.scan.scanned ≤ page_cap * page_size)
    × (h.scan.hits + h.scan.allowlisted ≤ h.scan.scanned)
    × (length h.scan.sample_ids ≤ max_samples)
    × (length h.scan.sample_ids ≤ h.scan.hits)
    × (h.error ≡ true → h.scan ≡ no_scan)
mojibake_health_bounds_example = mojibake_health_bounds scroll scroll-IsPaged

hits_one : (mojibake_health scroll).scan.hits ≡ 1
unfolding mojibake_health contains_mojibake any_mojibake
hits_one = refl

abbrev rows : List Row
rows =
    record { id = 1; cells = ("new_memory", words (9500 ∷ 8976 ∷ [])) ∷ [] }
    ∷ record { id = 2; cells = ("new_memory", other) ∷ [] }
    ∷ []

abbrev world : World
world = record { db = ("history", rows) ∷ []; receipts = []; stats = no_stats }

abbrev refuses : Candidate → Bool
refuses c = false

abbrev cands : List Candidate
cands = scan_sqlite_phase world.db (("history", "new_memory" ∷ []) ∷ []) "history-db"

cands-IsClear : IsClear refuses [] cands
unfolding scan_sqlite_phase flag_gate flags contains_mojibake repair_text cp437_encode utf8_decode
cands-IsClear = ((refl, refl), tt)

history_rows : get "history" world.db ≡ some rows
unfolding get
history_rows = refl

apply_sqlite_phase-repaired_example :
    (get "history" (apply_sqlite_phase refuses true [] cands world).db
      ≡ some (map (repair_row ("new_memory" ∷ [])) rows))
    × ((k : String) (row : Row)
        → get k (repair_row ("new_memory" ∷ []) row).cells ≡ (
            if mem k ("new_memory" ∷ [])
            then Option.map repaired (get k row.cells)
            else get k row.cells))
apply_sqlite_phase-repaired_example =
    apply_sqlite_phase-repaired refuses [] "history-db" "history" ("new_memory" ∷ []) rows world
      history_rows ((refl, tt), (tt, tt)) cands-IsClear

apply_sqlite_phase-written_example :
    let r = apply_sqlite_phase refuses true [] cands world in
    (r.db ≡ update_all (filter (written refuses true []) cands) world.db)
    × (r.receipts ≡ [] ++ map (receipt refuses true []) (filter (written refuses true []) cands))
    × (r.stats.planned ≡ 0 + length (filter (passes refuses true []) cands))
    × (r.stats.repaired ≡ 0 + length (filter (written refuses true []) cands))
    × (r.stats.errors ≡ 0 + length (filter (failed refuses true []) cands))
    × (r.stats.planned + r.stats.flag_skipped ≡ 0 + 0 + length cands)
apply_sqlite_phase-written_example = apply_sqlite_phase-written refuses true [] cands world
