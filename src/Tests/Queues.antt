-- ===== src/Tests/Queues.antt =====
-- The theorem on runs of calls at a concrete buffer.
use libopenssh.Base.{true, List, [], ◌∷◌, codes}
use libopenssh.Sshbuf.Sanity.{WellFormed}
use libopenssh.Queue.{Call, put, put_string, get, get_string, consume, Explains}
use libopenssh.Queue.Calls.{perform_all, queue_of, perform_all-Refines}
use libopenssh.Tests.{libc, half_full, half_full-WellFormed}

-- A string is written behind two bytes and read back.
abbrev calls : List Call
calls =
    consume 4 ∷ put (1 ∷ 2 ∷ []) ∷ put_string (codes "ab") ∷ get 2 ∷ get_string true ∷ get 1 ∷ []

perform_all-Refines_example :
    WellFormed (perform_all libc calls half_full).0
    × Explains
        (queue_of half_full)
        calls
        (perform_all libc calls half_full).1
        (queue_of (perform_all libc calls half_full).0)
perform_all-Refines_example = perform_all-Refines libc calls half_full half_full-WellFormed
