-- ===== src/Tests/Queues.antt =====
-- Tests of the models of src/util.
use restful_cweb.Prelude.{ℕ, ◌+◌, ◌<◌, ◌≡◌, refl, List, [], ◌∷◌, length, arith}
use restful_cweb.Util.MemoryPool.{MemoryPool}
use restful_cweb.Util.MemoryPool.Apart.{Request, take_bytes, give_back}
use restful_cweb.Util.LockfreeQueue.{
  Queue, new_queue, load_back, test_room, write_slot, load_front, store_back, loads_back,
  tests_room, writes_slot, stores_back, loads_front, Reach, start, later,
}
use restful_cweb.Util.LockfreeQueue.Order.{waiting, reach-Simulates}

-- A push of 5 up to the write, and a pop that has loaded its index in between.
abbrev half_pushed : Queue ℕ
half_pushed =
    load_front 3 0 (write_slot 3 0 5 0 (test_room 3 0 5 0 (load_back 3 0 5 (new_queue 3 0))))

half_pushed-Reach : Reach 3 0 half_pushed
half_pushed-Reach =
    later
      (later (later (later start (loads_back 5 refl)) (tests_room 5 0 refl)) (writes_slot 5 0 refl))
      (loads_front refl)

reach-Simulates_example :
    (waiting 3 0 (store_back 3 0 5 0 half_pushed) ≡ 5 ∷ [])
    × (length (waiting 3 0 half_pushed) + 1 < 3)
reach-Simulates_example =
    reach-Simulates 3 0 {q = half_pushed} (omega arith) half_pushed-Reach (stores_back 5 0 refl)

-- Two chunks, of which the first is given back.
abbrev requests : List Request
requests = take_bytes 20 ∷ take_bytes 1000 ∷ give_back (record { block = 1; offset = 0 }) 20 ∷ []
