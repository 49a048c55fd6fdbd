-- ===== src/Mojibake/Scan.antt =====
-- mem0-server/mojibake_check.py: `scan_payloads` over the points that `mojibake_health` pages through.
-- The scroll of the store is a parameter, which may raise; the time that the check took is left out.
use agentic_memory_stack_for.Prelude.{
  ℕ, zero, suc, ◌+◌, String, Bool, true, false, Option, none, some, List, [], ◌∷◌, ◌++◌, ltb,
  if◌then◌else◌, length, any,
}
use agentic_memory_stack_for.Mojibake.Repair.{contains_mojibake}

-- A payload as the scan reads it: whether `mojibake_ok` is the boolean True, and the values of the
-- text keys, empty where a key is missing or null.
pub record Point : Type 0 where
  pub id : String
  pub mojibake_ok : Bool
  pub texts : List (List ℕ)

pub record Scan : Type 0 where
  pub scanned : ℕ
  pub hits : ℕ
  pub sample_ids : List String
  pub allowlisted : ℕ

abbrev pub max_samples : ℕ
max_samples = 5

abbrev pub no_scan : Scan
no_scan = record { scanned = 0; hits = 0; sample_ids = []; allowlisted = 0 }

-- The loop over the text keys ends at the first hit.
unfoldable pub any_mojibake : Point → Bool
unfolding any
any_mojibake p = any contains_mojibake p.texts

unfoldable pub scan_point : Point → Scan → Scan
scan_point p s =
    let t : Scan = record s { scanned = s.scanned + 1 } in
    if p.mojibake_ok
    then record t { allowlisted = s.allowlisted + 1 }
    else if any_mojibake p
    then record t {
      hits = s.hits + 1;
      sample_ids =
          if ltb (length s.sample_ids) max_samples
          then s.sample_ids ++ (p.id ∷ [])
          else s.sample_ids;
    }
    else t

unfoldable pub scan_from : List Point → Scan → Scan
unfolding scan_point
scan_from [] s = s
scan_from (p ∷ ps) s = scan_from ps (scan_point p s)

unfoldable pub scan_payloads : List Point → Scan
unfolding scan_from
scan_payloads ps = scan_from ps no_scan

-- A page of the scroll: `none` is an exception, else the points and the next offset.
abbrev pub Scroll : Type 0
Scroll = Option String → ℕ → Option (List Point × Option String)

abbrev pub page_size : ℕ
page_size = 1000

abbrev pub page_cap : ℕ
page_cap = 50

-- `_iter` with the pages that are left: the points it yields, and whether a page raised.
unfoldable pub pages : Scroll → ℕ → Option String → List Point × Bool
pages scroll zero offset = ([], false)
pages scroll (suc n) offset = elim (scroll offset page_size) [
  | none ↦ ([], true)
  | some (points, next) ↦ elim next [
    | none ↦ (points, false)
    | some at_next ↦ let rest = pages scroll n (some at_next) in (points ++ rest.0, rest.1)
  ]
]

pub record Health : Type 0 where
  pub ok : Bool
  pub scan : Scan
  pub error : Bool

-- `out.update(res)` is reached only when no page raised.
unfoldable pub mojibake_health : Scroll → Health
unfolding pages scan_payloads
mojibake_health scroll =
    let (points, raised) = pages scroll page_cap none in
    record { ok = true; scan = if raised then no_scan else scan_payloads points; error = raised }
