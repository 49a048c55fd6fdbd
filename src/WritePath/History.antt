-- ===== src/WritePath/History.antt =====
-- What the tracker publishes, told from the history of the writes alone.
use Prim.Native.String.{◌++◌}
use agentic_memory_stack_for.Prelude.{
  ℕ, suc, ◌≤◌, String, ◌≡◌, refl, sym, ◌∙◌, Bool, true, false, not, ◌&&◌, Option, none, some, List,
  [], ◌∷◌, arith, if◌then◌else◌, All,
}
use agentic_memory_stack_for.Payload.{decimal}
use agentic_memory_stack_for.WritePath.Tracker.{
  Tracker, Published, reset, outcome_of, clean_reason, is_aged, pop_aged, prune, note, record_write,
  count_after, published, snapshot,
}

pub record Write : Type 0 where
  pub status : ℕ
  pub reason : Option String
  pub time : ℕ

-- A history has its newest write first, and no write is older than one before it.
abbrev pub Ordered : List Write → Type 0
Ordered [] = Unit
Ordered (w ∷ ws) = All (λ e. e.time ≤ w.time) ws × Ordered ws

-- The newest write of the outcome.
unfoldable pub newest : (Option Bool → Bool) → List Write → Option Write
newest p [] = none
newest p (w ∷ ws) = if p (outcome_of w.status) then some w else newest p ws

unfoldable pub is_counted : Option Bool → Bool
is_counted none = false
is_counted (some failed) = true

unfoldable pub is_success : Option Bool → Bool
is_success none = false
is_success (some failed) = not failed

unfoldable pub is_failure : Option Bool → Bool
is_failure none = false
is_failure (some failed) = failed

abbrev pub has_failed : Option Write → Bool
has_failed none = false
has_failed (some w) = is_failure (outcome_of w.status)

abbrev pub time_of : Option Write → Option ℕ
time_of none = none
time_of (some w) = some w.time

abbrev pub label_of : Option Write → Option String
label_of none = none
label_of (some w) = some (decimal w.status ++ " " ++ clean_reason w.reason)

module _ (window : ℕ) where
  -- The tracker after a history.
  unfoldable pub after : List Write → Tracker
  after [] = reset
  after (w ∷ ws) = record_write window w.status w.reason w.time (after ws)

  -- How many writes of the outcome are in the window.
  unfoldable pub count_in_window : (Option Bool → Bool) → ℕ → List Write → ℕ
  count_in_window p now [] = 0
  count_in_window p now (w ∷ ws) =
      let rest = count_in_window p now ws in
      if p (outcome_of w.status) && not (is_aged window now w.time) then suc rest else rest

  -- What a snapshot should say: `ok` is false while the newest write that counts has failed.
  abbrev pub told : ℕ → List Write → Published
  told now ws = record {
    ok = not (has_failed (newest is_counted ws));
    last_ok_at = time_of (newest is_success ws);
    last_error_at = time_of (newest is_failure ws);
    last_error = label_of (newest is_failure ws);
    errors_1h = count_in_window is_failure now ws;
    writes_1h = count_in_window is_counted now ws;
  }

  aged_later : (s now t : ℕ) → s ≤ now → is_aged window s t ≡ true → is_aged window now t ≡ true
  unfolding is_aged
  aged_later s now t h a = ground arith

  aged_older : (now t u : ℕ) → u ≤ t → is_aged window now t ≡ true → is_aged window now u ≡ true
  unfolding is_aged
  aged_older now t u h a = ground arith

  count_after-pop_aged :
      (s now : ℕ) (ts : List ℕ)
      → s ≤ now
      → count_after window now (pop_aged window s ts) ≡ count_after window now ts
  unfolding pop_aged count_after
  count_after-pop_aged s now [] h = refl
  count_after-pop_aged s now (t ∷ ts) h =
      ground (arith, count_after-pop_aged s now ts h, aged_later s now t h)

  count_in_window-aged :
      (p : Option Bool → Bool) (now t : ℕ) (ws : List Write)
      → All (λ e. e.time ≤ t) ws
      → is_aged window now t ≡ true
      → count_in_window p now ws ≡ 0
  unfolding count_in_window
  count_in_window-aged p now t [] h a = refl
  count_in_window-aged p now t (w ∷ ws) h a =
      let rest = count_in_window-aged p now t ws h.1 a in
      let old = aged_older now t w.time h.0 a in ground (arith, rest, old)

  writes-note :
      (o : Option Bool) (status : ℕ) (reason : Option String) (t now : ℕ) (tr : Tracker)
      → t ≤ now
      → count_after window now (note window o status reason t tr).writes ≡ (
          if is_counted o
          then (if is_aged window now t then 0 else suc (count_after window now tr.writes))
          else count_after window now tr.writes)
  unfolding note is_counted prune count_after
  writes-note none status reason t now tr h = refl
  writes-note (some true) status reason t now tr h =
      rw (count_after-pop_aged t now tr.writes h) refl
  writes-note (some false) status reason t now tr h =
      rw (count_after-pop_aged t now tr.writes h) refl

  errors-note :
      (o : Option Bool) (status : ℕ) (reason : Option String) (t now : ℕ) (tr : Tracker)
      → t ≤ now
      → count_after window now (note window o status reason t tr).errors ≡ (
          if is_failure o
          then (if is_aged window now t then 0 else suc (count_after window now tr.errors))
          else count_after window now tr.errors)
  unfolding note is_failure prune count_after
  errors-note none status reason t now tr h = refl
  errors-note (some true) status reason t now tr h =
      rw (count_after-pop_aged t now tr.errors h) refl
  errors-note (some false) status reason t now tr h = count_after-pop_aged t now tr.errors h

  -- One more write, in the two ways of counting.
  count_step :
      (b aged : Bool) (n : ℕ)
      → (aged ≡ true → n ≡ 0)
      → (if b then (if aged then 0 else suc n) else n) ≡ (if b && not aged then suc n else n)
  count_step true true n h = sym (h refl)
  count_step true false n h = refl
  count_step false aged n h = refl

  writes-after :
      (now : ℕ) (ws : List Write)
      → Ordered ws
      → All (λ e. e.time ≤ now) ws
      → count_after window now (after ws).writes ≡ count_in_window is_counted now ws
  unfolding after count_in_window record_write count_after
  writes-after now [] o h = refl
  writes-after now (w ∷ ws) o h =
      writes-note (outcome_of w.status) w.status w.reason w.time now (after ws) h.0
      ∙ rw (writes-after now ws o.1 h.1) (
          count_step (is_counted (outcome_of w.status)) (is_aged window now w.time)
            (count_in_window is_counted now ws)
            (λ a. count_in_window-aged is_counted now w.time ws o.0 a))

  errors-after :
      (now : ℕ) (ws : List Write)
      → Ordered ws
      → All (λ e. e.time ≤ now) ws
      → count_after window now (after ws).errors ≡ count_in_window is_failure now ws
  unfolding after count_in_window record_write count_after
  errors-after now [] o h = refl
  errors-after now (w ∷ ws) o h =
      errors-note (outcome_of w.status) w.status w.reason w.time now (after ws) h.0
      ∙ rw (errors-after now ws o.1 h.1) (
          count_step (is_failure (outcome_of w.status)) (is_aged window now w.time)
            (count_in_window is_failure now ws)
            (λ a. count_in_window-aged is_failure now w.time ws o.0 a))

  -- What stands in the tracker besides the counters.
  record IsTold (tr : Tracker) (ws : List Write) : Type 0 where
    failing : tr.failing ≡ has_failed (newest is_counted ws)
    ok_at : tr.last_ok_at ≡ time_of (newest is_success ws)
    error_at : tr.last_error_at ≡ time_of (newest is_failure ws)
    label : tr.last_error ≡ label_of (newest is_failure ws)

  note-IsTold :
      (w : Write) (ws : List Write) (o : Option Bool)
      → outcome_of w.status ≡ o
      → IsTold (after ws) ws
      → IsTold (note window o w.status w.reason w.time (after ws)) (w ∷ ws)
  unfolding note prune newest is_counted is_success is_failure
  note-IsTold w ws none e h = record {
    failing = rw e h.failing;
    ok_at = rw e h.ok_at;
    error_at = rw e h.error_at;
    label = rw e h.label;
  }
  note-IsTold w ws (some true) e h = record {
    failing = rw e (rw e refl);
    ok_at = rw e h.ok_at;
    error_at = rw e refl;
    label = rw e refl;
  }
  note-IsTold w ws (some false) e h = record {
    failing = rw e (rw e refl);
    ok_at = rw e refl;
    error_at = rw e h.error_at;
    label = rw e h.label;
  }

  after-IsTold : (ws : List Write) → IsTold (after ws) ws
  unfolding after record_write newest
  after-IsTold [] = record { failing = refl; ok_at = refl; error_at = refl; label = refl }
  after-IsTold (w ∷ ws) = note-IsTold w ws (outcome_of w.status) refl (after-IsTold ws)

  published-after :
      (now : ℕ) (ws : List Write)
      → Ordered ws
      → All (λ e. e.time ≤ now) ws
      → published window now (after ws) ≡ told now ws
  published-after now ws o h =
      let t = after-IsTold ws in
      rw (t.failing, t.ok_at, t.error_at, t.label, errors-after now ws o h, writes-after now ws o h)
        refl

  pruned :
      (now : ℕ) (tr : Tracker)
      → published window now (prune window now tr) ≡ published window now tr
  unfolding prune
  pruned now tr =
      rw
        (
          count_after-pop_aged now now tr.writes (omega arith),
          count_after-pop_aged now now tr.errors (omega arith),
        )
        refl

  -- When no recorded outcome is older than one before it or newer than the snapshot, what the
  -- tracker publishes is what the whole history of outcomes tells, although it keeps the stamps of
  -- one window only.
  pub snapshot-after :
      (wall_clock : Bool) (now : ℕ) (ws : List Write)
      → Ordered ws
      → All (λ e. e.time ≤ now) ws
      → (snapshot window wall_clock now (after ws)).0 ≡ told now ws
  unfolding snapshot
  snapshot-after true now ws o h = pruned now (after ws) ∙ published-after now ws o h
  snapshot-after false now ws o h = published-after now ws o h
