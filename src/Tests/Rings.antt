-- ===== src/Tests/Rings.antt =====
-- The ring of packets with three slots.
use statsd_c.Base.{◌≡◌, ◌<◌, refl, none, some, List, [], ◌∷◌, arith, codes}
use statsd_c.Queue.{Queue, queue_init, queue_store_sized, queue_pop_first_sized, store_index}
use statsd_c.Queue.Bounds.{InBounds, queue_init-InBounds, calls-InBounds}
use statsd_c.Queue.Fifo.{
  Call, store, pop, ideal_run, run, Holds, queue_init-Holds, run_refines, queue_store-Holds,
}
use statsd_c.Queue.Overrun.{pop_times, overrun_stalls}

abbrev calls : List Call
calls =
    store (codes "a")
    ∷ store (codes "b")
    ∷ pop
    ∷ store (codes "c")
    ∷ store (codes "d")
    ∷ pop
    ∷ pop
    ∷ pop
    ∷ pop
    ∷ []

run-calls :
    run 3 queue_init calls
    ≡ none
      ∷ none
      ∷ some (codes "a")
      ∷ none
      ∷ none
      ∷ some (codes "b")
      ∷ some (codes "c")
      ∷ some (codes "d")
      ∷ none
      ∷ []
unfolding run queue_init queue_store_sized queue_pop_first_sized
run-calls = refl

calls-InBounds_example :
    (store_index 3 queue_init < 3)
    × (queue_init.retrieve_pos < 3)
    × InBounds 3 (queue_store_sized 3 (codes "a") queue_init)
    × InBounds 3 (queue_pop_first_sized 3 queue_init).1
calls-InBounds_example =
    calls-InBounds 3 (omega arith) (codes "a") (queue_init-InBounds 3 (omega arith))

run_refines_example : run 3 queue_init calls ≡ ideal_run [] calls
run_refines_example =
    run_refines 3 calls queue_init [] (queue_init-Holds 3 (omega arith)) (omega arith)

abbrev full : Queue
full = queue_store_sized 2 (codes "b") (queue_store_sized 2 (codes "a") queue_init)

full-Holds : Holds 2 full (codes "a" ∷ codes "b" ∷ [])
full-Holds =
    queue_store-Holds 2 (queue_store_sized 2 (codes "a") queue_init) (codes "a" ∷ []) (codes "b")
      (queue_store-Holds 2 queue_init [] (codes "a") (queue_init-Holds 2 (omega arith))
        (omega arith))
      (omega arith)

overrun_stalls_example :
    ((queue_pop_first_sized 2 (queue_store_sized 2 (codes "c") full)).0 ≡ some (codes "c"))
    × ((queue_pop_first_sized 2 (
          queue_store_sized 2 (codes "d") (pop_times 2 2 (queue_store_sized 2 (codes "c") full)))).0
        ≡ none)
overrun_stalls_example =
    overrun_stalls 2 full (codes "a") (codes "b" ∷ []) (codes "c") (codes "d") full-Holds refl
      (omega arith)
