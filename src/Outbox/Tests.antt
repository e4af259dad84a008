-- ===== src/Outbox/Tests.antt =====
-- The outbox of src/transport/control_outbox.cpp on concrete calls.
use hux.Base.{List, [], ◌∷◌, arith}
use hux.Outbox.{takes, full, interrupted}
use hux.Outbox.History.{Call, posts, flushes, fresh, calls, Ordered, calls-Ordered}

-- The first message goes out in two pieces, the second waits for it.
abbrev two_posts : List Call
two_posts =
    posts (1 ∷ 2 ∷ 3 ∷ []) (takes 0 ∷ full ∷ [])
    ∷ posts (4 ∷ 5 ∷ []) (interrupted ∷ full ∷ [])
    ∷ flushes (takes 9 ∷ takes 0 ∷ [])
    ∷ []

calls-Ordered_example : Ordered 64 3 (calls (fresh 64) two_posts)
calls-Ordered_example = calls-Ordered 64 3 two_posts (omega arith, (omega arith, (tt, tt)))
