-- ===== src/Tests/Rings.antt =====
-- A schedule of two programs on one ring.
use sddf_i2c_driver.Prelude.{◌≡◌, refl, List, [], ◌∷◌, ◌++◌}
use sddf_i2c_driver.Ring.{Desc, desc, ring_full, ring_empty}
use sddf_i2c_driver.Ring.Refine.{Holds}
use sddf_i2c_driver.Ring.Interleave.{
  Turn, silent, pushed, popped, empty, call_enqueue, call_dequeue, produce, consume, schedule,
}
use sddf_i2c_driver.Ring.Interleave.State.{DoesAll}
use sddf_i2c_driver.Ring.Interleave.Linear.{
  between_calls, put_in, taken_out, schedule-DoesAll, schedule-in_order,
}
use sddf_i2c_driver.Tests.Data.{one_ring}
use sddf_i2c_driver.Tests.Scene.{one_held}

-- The consumer takes what there was while the producer is between its stores, and what the producer
-- then adds.
abbrev turns : List Turn
turns =
    call_enqueue 0x40_0000 9
    ∷ produce
    ∷ produce
    ∷ call_dequeue
    ∷ consume
    ∷ consume
    ∷ produce
    ∷ consume
    ∷ consume
    ∷ produce
    ∷ call_dequeue
    ∷ consume
    ∷ consume
    ∷ consume
    ∷ consume
    ∷ call_dequeue
    ∷ consume
    ∷ []

turns_lem :
    (schedule turns (between_calls one_ring)).0
    ≡ silent
      ∷ silent
      ∷ silent
      ∷ silent
      ∷ silent
      ∷ silent
      ∷ silent
      ∷ silent
      ∷ popped (desc 0x40_0200 5)
      ∷ pushed (desc 0x40_0000 9)
      ∷ silent
      ∷ silent
      ∷ silent
      ∷ silent
      ∷ popped (desc 0x40_0000 9)
      ∷ silent
      ∷ empty
      ∷ []
unfolding schedule ring_full ring_empty
turns_lem = refl

schedule-DoesAll_example :
    (q' : List Desc) × DoesAll
      (desc 0x40_0200 5 ∷ [])
      (schedule turns (between_calls one_ring)).0
      q'
    × Holds (schedule turns (between_calls one_ring)).1.ring q'
schedule-DoesAll_example = schedule-DoesAll turns one_ring (desc 0x40_0200 5 ∷ []) one_held

schedule-in_order_example :
    (q' : List Desc) × Holds (schedule turns (between_calls one_ring)).1.ring q'
    × (desc 0x40_0200 5 ∷ put_in (schedule turns (between_calls one_ring)).0
        ≡ taken_out (schedule turns (between_calls one_ring)).0 ++ q')
schedule-in_order_example = schedule-in_order turns one_ring (desc 0x40_0200 5 ∷ []) one_held
