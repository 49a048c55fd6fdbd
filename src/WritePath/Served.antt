-- ===== src/WritePath/Served.antt =====
-- What the server publishes of its write path after the requests that it has served.
use agentic_memory_stack_for.Prelude.{
  ℕ, ◌≤◌, ◌≡◌, refl, ap, ◌∙◌, inl, inr, Bool, true, false, ◌&&◌, Option, none, some, List, [], ◌∷◌,
  leb, ltb, if◌then◌else◌, Bool-cases, All,
}
use agentic_memory_stack_for.WritePath.Tracker.{Tracker, reset, snapshot}
use agentic_memory_stack_for.WritePath.History.{Write, Ordered, after, told, snapshot-after}
use agentic_memory_stack_for.WritePath.Middleware.{
  Answer, raised, response, Request, is_write_request, reason_from, record_response, record_answer,
  middleware,
}

-- What an answer tells of the write path: a neutral success tells nothing, and an exception is a 500.
abbrev pub write_of_answer : ℕ → Answer → Option Write
write_of_answer now raised = some (record { status = 500; reason = none; time = now })
write_of_answer now (response status neutral chunk) =
    if leb 200 status && ltb status 300 && neutral
    then none
    else some (record {
      status = status;
      reason = if leb 500 status then reason_from chunk else none;
      time = now;
    })

-- Only the two write requests tell anything.
abbrev pub write_of : Request → Option Write
write_of r = if is_write_request r.method r.path then write_of_answer r.time r.answer else none

abbrev add : Option Write → List Write → List Write
add none ws = ws
add (some w) ws = w ∷ ws

-- The writes of the requests, newest first.
unfoldable pub writes_of : List Request → List Write
writes_of [] = []
writes_of (r ∷ rs) = add (write_of r) (writes_of rs)

-- No request is older than one before it.
abbrev pub InOrder : List Request → Type 0
InOrder [] = Unit
InOrder (r ∷ rs) = All (λ e. e.time ≤ r.time) rs × InOrder rs

abbrev NoLater : ℕ → Option Write → Type 0
NoLater now none = Unit
NoLater now (some w) = w.time ≤ now

NoLater-answer : (now t : ℕ) (a : Answer) → t ≤ now → NoLater now (write_of_answer t a)
NoLater-answer now t raised h = h
NoLater-answer now t (response status neutral chunk) h =
    elim (Bool-cases (leb 200 status && ltb status 300 && neutral)) [
      | inl e ↦ rw e tt
      | inr e ↦ rw e h
    ]

NoLater-write_of : (now : ℕ) (r : Request) → r.time ≤ now → NoLater now (write_of r)
NoLater-write_of now r h = elim (Bool-cases (is_write_request r.method r.path)) [
  | inl e ↦ rw e (NoLater-answer now r.time r.answer h)
  | inr e ↦ rw e tt
]

All-add :
    (now : ℕ) (o : Option Write) (ws : List Write)
    → NoLater now o
    → All (λ w. w.time ≤ now) ws
    → All (λ w. w.time ≤ now) (add o ws)
All-add now none ws h a = a
All-add now (some w) ws h a = (h, a)

All-writes_of :
    (now : ℕ) (rs : List Request)
    → All (λ r. r.time ≤ now) rs
    → All (λ w. w.time ≤ now) (writes_of rs)
unfolding writes_of
All-writes_of now [] h = tt
All-writes_of now (r ∷ rs) h =
    All-add now (write_of r) (writes_of rs) (NoLater-write_of now r h.0) (All-writes_of now rs h.1)

-- A write of an answer has the answer's time.
AtTime : ℕ → Option Write → Type 0
AtTime t none = Unit
AtTime t (some w) = w.time ≡ t

Ordered-add :
    (t : ℕ) (o : Option Write) (ws : List Write)
    → AtTime t o
    → All (λ w. w.time ≤ t) ws
    → Ordered ws
    → Ordered (add o ws)
unfolding AtTime
Ordered-add t none ws e a h = h
Ordered-add t (some w) ws e a h = (rw e a, h)

AtTime-answer : (t : ℕ) (a : Answer) → AtTime t (write_of_answer t a)
unfolding AtTime
AtTime-answer t raised = refl
AtTime-answer t (response status neutral chunk) =
    elim (Bool-cases (leb 200 status && ltb status 300 && neutral)) [
      | inl e ↦ rw e tt
      | inr e ↦ rw e refl
    ]

AtTime-write_of : (r : Request) → AtTime r.time (write_of r)
unfolding AtTime
AtTime-write_of r = elim (Bool-cases (is_write_request r.method r.path)) [
  | inl e ↦ rw e (AtTime-answer r.time r.answer)
  | inr e ↦ rw e tt
]

Ordered-writes_of : (rs : List Request) → InOrder rs → Ordered (writes_of rs)
unfolding writes_of
Ordered-writes_of [] h = tt
Ordered-writes_of (r ∷ rs) h =
    Ordered-add r.time (write_of r) (writes_of rs) (AtTime-write_of r) (All-writes_of r.time rs h.0)
      (Ordered-writes_of rs h.1)

module _ (window : ℕ) where
  unfoldable pub served : List Request → Tracker
  served [] = reset
  served (r ∷ rs) = middleware window r (served rs)

  answer-after :
      (a : Answer) (now : ℕ) (ws : List Write)
      → record_answer window a now (after window ws) ≡ after window (add (write_of_answer now a) ws)
  unfolding record_answer record_response after
  answer-after raised now ws = refl
  answer-after (response status neutral chunk) now ws =
      elim (Bool-cases (leb 200 status && ltb status 300 && neutral)) [
        | inl e ↦ rw e refl
        | inr e ↦ rw e refl
      ]

  guarded :
      (b : Bool) (r : Request) (ws : List Write)
      → (if b then record_answer window r.answer r.time (after window ws) else after window ws)
        ≡ after window (add (if b then write_of_answer r.time r.answer else none) ws)
  guarded true r ws = answer-after r.answer r.time ws
  guarded false r ws = refl

  middleware-after :
      (r : Request) (ws : List Write)
      → middleware window r (after window ws) ≡ after window (add (write_of r) ws)
  unfolding middleware
  middleware-after r ws = guarded (is_write_request r.method r.path) r ws

  served-after : (rs : List Request) → served rs ≡ after window (writes_of rs)
  unfolding served writes_of after
  served-after [] = refl
  served-after (r ∷ rs) =
      ap (middleware window r) (served-after rs) ∙ middleware-after r (writes_of rs)

  -- When no request is older than one before it or newer than the snapshot, what the tracker
  -- publishes is what the history of the write requests tells: it is not ok while the newest write
  -- that counts has failed, it has the times and the label of the newest success and failure, and
  -- it counts the writes and the failures in the window; searches and neutral successes tell
  -- nothing.
  pub snapshot-served :
      (wall_clock : Bool) (now : ℕ) (rs : List Request)
      → InOrder rs
      → All (λ r. r.time ≤ now) rs
      → (snapshot window wall_clock now (served rs)).0 ≡ told window now (writes_of rs)
  snapshot-served wall_clock now rs o h =
      ap (λ w. (snapshot window wall_clock now w).0) (served-after rs)
      ∙ snapshot-after window wall_clock now (writes_of rs) (Ordered-writes_of rs o)
          (All-writes_of now rs h)
