-- ===== src/WritePath/Tests.antt =====
-- The write path's theorems at work on a failure, a neutral answer and a search.
use agentic_memory_stack_for.Prelude.{ℕ, ◌≡◌, arith, true, false, none, some, List, [], ◌∷◌}
use agentic_memory_stack_for.Payload.{text}
use agentic_memory_stack_for.WritePath.Tracker.{snapshot}
use agentic_memory_stack_for.WritePath.History.{Write, Ordered, told}
use agentic_memory_stack_for.WritePath.Middleware.{Request, raised, response, unread, object}
use agentic_memory_stack_for.WritePath.Served.{InOrder, served, writes_of, snapshot-served}

abbrev hour : ℕ
hour = 3600000000

abbrev history : List Write
history =
    record { status = 503; reason = some "cold  embedder"; time = 20 }
    ∷ record { status = 404; reason = none; time = 15 }
    ∷ record { status = 200; reason = none; time = 10 }
    ∷ []

history-Ordered : Ordered history
history-Ordered = ((omega arith, (omega arith, tt)), ((omega arith, tt), (tt, tt)))

abbrev requests : List Request
requests =
    record { method = "POST"; path = "/v1/memories"; answer = response 200 true unread; time = 30 }
    ∷ record {
      method = "put";
      path = "/v1/memories/a";
      answer = response 503 false (object (text "cold-embedder"));
      time = 20;
    }
    ∷ record { method = "POST"; path = "/v1/memories/search"; answer = raised; time = 10 }
    ∷ []

requests-InOrder : InOrder requests
requests-InOrder = ((omega arith, (omega arith, tt)), ((omega arith, tt), (tt, tt)))

snapshot-served_example :
    (snapshot hour false 40 (served hour requests)).0 ≡ told hour 40 (writes_of requests)
snapshot-served_example =
    snapshot-served hour false 40 requests requests-InOrder
      (omega arith, (omega arith, (omega arith, tt)))
