-- ===== src/Thread/Handler/Tests.antt =====
-- Runs of a handler.
use zway_lib.Base.{refl, true, false, [], ◌∷◌}
use zway_lib.Thread.Handler.{
  Handler, at_top, processing, found_empty, waiting, free, started, go_on, see_awake, take_front,
  see_empty, set_idle, wait, wake, set_busy, push, see_idle, notify, notified, Steps, here, next,
}
use zway_lib.Thread.Handler.Order.{Agrees, Steps-Agrees}
use zway_lib.Thread.Handler.Wakes.{awake, worker-drains, post-unnoticed}

-- The first wait of a worker with nothing to do.
abbrev asleep : Handler
asleep = record started { worker = waiting }

falls_asleep : Steps started asleep
falls_asleep =
    next
      (next (next (next (next here (go_on refl refl)) (see_awake refl refl)) (see_empty refl refl))
        (set_idle refl))
      (wait refl)

-- An element is posted and taken.
abbrev at_work : Handler
at_work = record started {
  worker = processing 5;
  caller = free;
  m_queue = 5 ∷ [];
  m_posted = 5 ∷ [];
}

gets_to_work : Steps started at_work
unfolding notified
gets_to_work =
    next
      (next
        (next (next (next (next here (push 5 refl)) (see_idle refl refl)) (notify refl))
          (go_on refl refl))
        (see_awake refl refl))
      (take_front 5 [] refl refl)

Steps-Agrees_example : Agrees (processing 5) (5 ∷ []) (5 ∷ []) []
Steps-Agrees_example = Steps-Agrees gets_to_work refl

worker-drains_example :
    Steps (awake started at_top (1 ∷ 2 ∷ []) []) (awake started found_empty [] (1 ∷ 2 ∷ []))
worker-drains_example = worker-drains started (1 ∷ 2 ∷ []) []

-- A worker that has been woken before finds nothing more to do.
abbrev between : Handler
between = record started { worker = found_empty; m_busy = true }

gets_between : Steps started between
gets_between =
    next
      (next (next (next (next falls_asleep (wake refl)) (set_busy refl)) (go_on refl refl))
        (see_awake refl refl))
      (see_empty refl refl)

post-unnoticed_example :
    Steps between
      (record between { worker = waiting; m_busy = false; m_queue = 7 ∷ []; m_posted = 7 ∷ [] })
post-unnoticed_example = post-unnoticed between 7 refl refl refl
