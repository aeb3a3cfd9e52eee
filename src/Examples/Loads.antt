-- ===== src/Examples/Loads.antt =====
-- Two readers that share a load, and one that comes too late for it.
use bahn_project_manager.Prelude.{◌≡◌, refl, true, none, [], ◌∷◌, arith}
use bahn_project_manager.FreshRead.{FreshRead, new_fresh_read, read, start}
use bahn_project_manager.FreshRead.Freshness.{
  Reach, Fresh, created, passed, asked, started, Reach-Fresh,
}

abbrev two_readers : FreshRead
two_readers = read 2 (read 3 new_fresh_read)

two_readers-idle : two_readers.running ≡ none
unfolding read
two_readers-idle = refl

two_readers-queued : two_readers.queued ≡ true
unfolding read
two_readers-queued = refl

abbrev late_reader : FreshRead
late_reader = read 5 (start 4 two_readers)

late_reader-Reach : Reach 6 (5 ∷ 2 ∷ 3 ∷ []) (4 ∷ []) late_reader
late_reader-Reach = asked 6 (2 ∷ 3 ∷ []) (4 ∷ []) (start 4 two_readers) 5 (omega arith) (
    passed 4 (2 ∷ 3 ∷ []) (4 ∷ []) (start 4 two_readers) 6 (omega arith) (
      started 4 (2 ∷ 3 ∷ []) [] two_readers two_readers-idle two_readers-queued (
        asked 4 (3 ∷ []) [] (read 3 new_fresh_read) 2 (omega arith) (
          asked 4 [] [] new_fresh_read 3 (omega arith)
            (passed 0 [] [] new_fresh_read 4 (omega arith) created)))))

Reach-Fresh_example : Fresh 6 (5 ∷ 2 ∷ 3 ∷ []) (4 ∷ []) late_reader
Reach-Fresh_example = Reach-Fresh 6 (5 ∷ 2 ∷ 3 ∷ []) (4 ∷ []) late_reader late_reader-Reach
