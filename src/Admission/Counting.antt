-- ===== src/Admission/Counting.antt =====
-- The accounts of mem0-server/admission_gate.py: a search returns the admitted results in their
-- order, and every other result is counted once, and logged where the log takes its line.
use agentic_memory_stack_for.Prelude.{
  ℕ, ◌+◌, String, ◌≡◌, refl, sym, Bool, not, Option, none, some, List, [], ◌∷◌, ◌++◌, arith,
  eq_refl, length, length-append, filter, is_some, ◌∙◌, if◌then◌else◌,
}
use mathlib.Core.List.{append-nil, append_assoc}
use agentic_memory_stack_for.Prelude.Dict.{Dict}
use agentic_memory_stack_for.Payload.{Payload, Value, truthy, text}
use agentic_memory_stack_for.Admission.Policy.{
  Floats, Hit, Policy, Settings, Clock, Reason, default_policy_for_class,
}
use agentic_memory_stack_for.Admission.Apply.{
  Fetcher, Gate, Rejections, roll, count_rejection, note_stamp, log_rejected, reject, verdict,
  settle, admit_all, normal_class, resolve, apply_admission,
}

module _ (floats : Floats) (clock : Clock) (today : String) where
  open floats use {F}

  abbrev LogLine : Type 0
  LogLine = Value × Reason

  -- The lines that a log takes, one after the other.
  abbrev pub append_lines :
      (List LogLine → LogLine → Bool) → List LogLine → List LogLine → List LogLine
  append_lines takes log [] = log
  append_lines takes log (l ∷ ls) =
      append_lines takes (if takes log l then log ++ l ∷ [] else log) ls

  note_stamp-Same :
      (forensic : Bool) (tiers : Option (Dict Value)) (r : Hit F) (g : Gate floats)
      → let n = note_stamp floats today forensic tiers r g in
        (n.log ≡ g.log) × (n.rejections ≡ g.rejections) × (n.log_takes ≡ g.log_takes)
  unfolding note_stamp
  note_stamp-Same forensic none r g = (refl, refl, refl)
  note_stamp-Same forensic (some t) r g = ground arith

  roll_today : (s : Rejections) → s.date ≡ some today → roll today s ≡ s
  unfolding roll
  roll_today s e = rw e (rw (eq_refl today) refl)

  -- The loop from one state to another: the lines that it had to write, on today's counters.
  record IsAccounted (lines : List LogLine) (g after : Gate floats) : Type 0 where
    dated : after.rejections.date ≡ some today
    takes : after.log_takes ≡ g.log_takes
    logged : after.log ≡ append_lines g.log_takes g.log lines
    counted : after.rejections.total ≡ g.rejections.total + length lines

  reject-IsAccounted :
      (r : Hit F) (reason : Reason) (g : Gate floats)
      → g.rejections.date ≡ some today
      → IsAccounted
          (((if truthy r.id then r.id else text "unknown"), reason) ∷ [])
          g
          (reject floats today r reason g)
  unfolding reject count_rejection log_rejected
  reject-IsAccounted r reason g h = record {
    dated = rw (roll_today g.rejections h) h;
    takes = refl;
    logged = refl;
    counted = rw (roll_today g.rejections h) (omega arith);
  }

  note_stamp-IsAccounted :
      (forensic : Bool) (tiers : Option (Dict Value)) (r : Hit F) (g : Gate floats)
      → g.rejections.date ≡ some today
      → IsAccounted [] g (note_stamp floats today forensic tiers r g)
  note_stamp-IsAccounted forensic tiers r g h =
      let (l, c, t) = note_stamp-Same forensic tiers r g in
      record { dated = rw c h; takes = t; logged = l; counted = rw c (omega arith) }

  append_lines_append :
      (takes : List LogLine → LogLine → Bool) (log ls ms : List LogLine)
      → append_lines takes (append_lines takes log ls) ms ≡ append_lines takes log (ls ++ ms)
  append_lines_append takes log [] ms = refl
  append_lines_append takes log (l ∷ ls) ms = append_lines_append takes _ ls ms

  IsAccounted-append :
      (ls ms : List LogLine) (f g h : Gate floats)
      → IsAccounted ls f g
      → IsAccounted ms g h
      → IsAccounted (ls ++ ms) f h
  IsAccounted-append ls ms f g h a b = record {
    dated = b.dated;
    takes = b.takes ∙ a.takes;
    logged = b.logged ∙ rw (a.takes, a.logged) (append_lines_append f.log_takes f.log ls ms);
    counted = omega (arith, a.counted, b.counted, length-append {0} {A = LogLine} ls ms);
  }

  module _ (policy : Policy F) (scope : Payload) (query_class : String)
      (tiers : Option (Dict Value)) where
    abbrev pub admits : Hit F → Bool
    admits r = not (is_some (verdict floats clock today policy scope query_class tiers r))

    abbrev line_of : Hit F → Option Reason → List LogLine
    line_of r none = []
    line_of r (some reason) = ((if truthy r.id then r.id else text "unknown"), reason) ∷ []

    -- The results that the policy rejects, with their reasons.
    abbrev pub rejected : List (Hit F) → List LogLine
    rejected [] = []
    rejected (r ∷ rs) =
        line_of r (verdict floats clock today policy scope query_class tiers r) ++ rejected rs

    settle_filter :
        (r : Hit F) (o : Option Reason) (rs : List (Hit F)) (s : List (Hit F) × Gate floats)
        → (settle floats clock today policy scope query_class tiers r o s).0 ++ rs
          ≡ s.0 ++ (if not (is_some o) then r ∷ rs else rs)
    unfolding settle
    settle_filter r none rs (kept, g) = append_assoc kept (r ∷ []) rs
    settle_filter r (some reason) rs (kept, g) = refl

    pub admit_all-filter :
        (rs : List (Hit F)) (s : List (Hit F) × Gate floats)
        → (admit_all floats clock today policy scope query_class tiers rs s).0
          ≡ s.0 ++ filter admits rs
    unfolding admit_all filter
    admit_all-filter [] s = sym (append-nil s.0)
    admit_all-filter (r ∷ rs) s =
        admit_all-filter rs _
        ∙ settle_filter r (verdict floats clock today policy scope query_class tiers r)
            (filter admits rs) s

    settle-IsAccounted :
        (r : Hit F) (o : Option Reason) (s : List (Hit F) × Gate floats)
        → s.1.rejections.date ≡ some today
        → IsAccounted
            (line_of r o)
            s.1
            (settle floats clock today policy scope query_class tiers r o s).1
    unfolding settle
    settle-IsAccounted r none (kept, g) h = note_stamp-IsAccounted policy.forensic tiers r g h
    settle-IsAccounted r (some reason) (kept, g) h = reject-IsAccounted r reason g h

    admit_all-IsAccounted :
        (rs : List (Hit F)) (s : List (Hit F) × Gate floats)
        → s.1.rejections.date ≡ some today
        → IsAccounted
            (rejected rs)
            s.1
            (admit_all floats clock today policy scope query_class tiers rs s).1
    unfolding admit_all
    admit_all-IsAccounted [] s h = record {
      dated = h;
      takes = refl;
      logged = refl;
      counted = omega arith;
    }
    admit_all-IsAccounted (r ∷ rs) s h =
        let o = verdict floats clock today policy scope query_class tiers r in
        let first = settle-IsAccounted r o s h in
        IsAccounted-append (line_of r o) (rejected rs) s.1 _ _ first (
          admit_all-IsAccounted rs (settle floats clock today policy scope query_class tiers r o s)
            first.dated)

  -- When the counters are today's, a search returns exactly the results that its policy admits, in
  -- their order; the log gets, of one line for each other result, those that it takes; and the
  -- day's total grows by the number of the other results, whatever the log takes.
  pub apply_admission_accounts :
      (settings : Settings F) (fetcher : Fetcher) (monotonic : ℕ) (results : List (Hit F))
      (scope : Payload) (query_class : String) (g : Gate floats)
      → g.rejections.date ≡ some today
      → let qc = normal_class floats query_class in
        let policy = default_policy_for_class settings qc in
        let tiers = (resolve floats fetcher monotonic policy results g.cache).0 in
        let lines = rejected policy scope qc tiers results in
        let s =
          apply_admission floats settings clock fetcher monotonic today results scope query_class
            g in
        (s.0 ≡ filter (admits policy scope qc tiers) results)
        × (s.1.log ≡ append_lines g.log_takes g.log lines)
        × (s.1.rejections.total ≡ g.rejections.total + length lines)
  unfolding apply_admission
  apply_admission_accounts settings fetcher monotonic results scope query_class g h =
      let qc = normal_class floats query_class in
      let policy = default_policy_for_class settings qc in
      let (tiers, cache) = resolve floats fetcher monotonic policy results g.cache in
      let start : List (Hit F) × Gate floats = ([], record g { cache = cache }) in
      let a = admit_all-IsAccounted policy scope qc tiers results start h in
      (admit_all-filter policy scope qc tiers results start, a.logged, a.counted)
