-- ===== src/Thread/Handler/Wakes.antt =====
-- When the worker of a handler gets on, and when it does not (include/Zway/thread/handler.h).
use zway_lib.Base.{
  ℕ, ◌≡◌, refl, ap, sym, Bool, true, false, List, [], ◌∷◌, ◌++◌, append_assoc, append-nil,
}
use zway_lib.Thread.Handler.{
  Handler, Worker, at_top, found_empty, before_wait, waiting, woken, resting, free, started,
  notified, resumed, Step, see_canceled, go_on, see_suspended, see_awake, rest, take_front, process,
  pop_front, see_empty, set_idle, wait, wake, set_busy, wake_rested, push, see_busy, see_idle,
  notify, clear, suspend, resume, notify_resume, cancel, cancel_suspended, cancel_awake,
  cancel_stopped, Steps, here, next,
}

Steps-trans : {s t u : Handler} → Steps s t → Steps t u → Steps s u
Steps-trans r here = r
Steps-trans r (next q step) = next (Steps-trans r q) step

-- A handler that is neither canceled nor suspended.
abbrev pub awake : Handler → Worker → List ℕ → List ℕ → Handler
awake s w queue processed = record s {
  worker = w;
  m_queue = queue;
  m_processed = processed;
  m_canceled = false;
  m_suspended = false;
}

-- One turn of the loop.
turn :
    (s : Handler) (x : ℕ) (q d : List ℕ)
    → Steps (awake s at_top (x ∷ q) d) (awake s at_top q (d ++ (x ∷ [])))
turn s x q d =
    next
      (next
        (next (next (next here (go_on refl refl)) (see_awake refl refl)) (take_front x q refl refl))
        (process x refl))
      (pop_front x refl)

-- The worker of a handler that is neither canceled nor suspended, at the top of its loop, comes by
-- its own steps to an empty queue, having processed the whole queue in its order.
pub worker-drains :
    (s : Handler) (q d : List ℕ) → Steps (awake s at_top q d) (awake s found_empty [] (d ++ q))
worker-drains s [] d =
    rw (append-nil d)
      (next (next (next here (go_on refl refl)) (see_awake refl refl)) (see_empty refl refl))
worker-drains s (x ∷ q) d =
    rw (sym (append_assoc d (x ∷ []) q))
      (Steps-trans (turn s x q d) (worker-drains s q (d ++ (x ∷ []))))

-- The handler is not busy where its worker waits or is about to.
abbrev IsIdleAt : Worker → Bool → Type 0
IsIdleAt before_wait b = b ≡ false
IsIdleAt waiting b = b ≡ false
IsIdleAt _ b = Unit {0}

notified-IsIdleAt : (w : Worker) (b : Bool) → IsIdleAt w b → IsIdleAt (notified w) b
unfolding notified
notified-IsIdleAt waiting b h = tt
notified-IsIdleAt w b h = h

resumed-IsIdleAt : (w : Worker) (b : Bool) → IsIdleAt w b → IsIdleAt (resumed w) b
unfolding resumed
resumed-IsIdleAt resting b h = tt
resumed-IsIdleAt w b h = h

idle_moved : {v w : Worker} (b : Bool) → v ≡ w → IsIdleAt v b → IsIdleAt w b
idle_moved b e h = rw (sym e) h

step-IsIdleAt : {s t : Handler} → Step s t → IsIdleAt s.worker s.m_busy → IsIdleAt t.worker t.m_busy
step-IsIdleAt (set_idle e) h = refl
step-IsIdleAt (wait e) h = idle_moved _ e h
step-IsIdleAt (see_canceled e c) h = tt
step-IsIdleAt (go_on e c) h = tt
step-IsIdleAt (see_suspended e c) h = tt
step-IsIdleAt (see_awake e c) h = tt
step-IsIdleAt (rest e) h = tt
step-IsIdleAt (take_front x q e f) h = tt
step-IsIdleAt (process x e) h = tt
step-IsIdleAt (pop_front x e) h = tt
step-IsIdleAt (see_empty e f) h = tt
step-IsIdleAt (wake e) h = tt
step-IsIdleAt (set_busy e) h = tt
step-IsIdleAt (wake_rested e) h = tt
step-IsIdleAt {s = s} (notify e) h = notified-IsIdleAt s.worker _ h
step-IsIdleAt {s = s} (notify_resume b e) h = resumed-IsIdleAt s.worker _ h
step-IsIdleAt (push x e) h = h
step-IsIdleAt (see_busy e f) h = h
step-IsIdleAt (see_idle e f) h = h
step-IsIdleAt (clear e) h = h
step-IsIdleAt (suspend e) h = h
step-IsIdleAt (resume e f k) h = h
step-IsIdleAt (cancel e) h = h
step-IsIdleAt (cancel_suspended e f k) h = h
step-IsIdleAt (cancel_awake e f) h = h
step-IsIdleAt (cancel_stopped e f) h = h

Steps-IsIdleAt : {s : Handler} → Steps started s → IsIdleAt s.worker s.m_busy
Steps-IsIdleAt here = tt
Steps-IsIdleAt (next r step) = step-IsIdleAt step (Steps-IsIdleAt r)

arrive : {s t u : Handler} → t ≡ u → Steps s t → Steps s u
arrive e r = rw (sym e) r

-- In a state that a started handler comes to, a post while the worker waits and the caller is in
-- no method wakes the worker, with the element in the queue.
pub post-wakes :
    (s : Handler) (x : ℕ)
    → Steps started s
    → s.worker ≡ waiting
    → s.caller ≡ free
    → Steps s (record s {
      caller = free;
      worker = woken;
      m_queue = s.m_queue ++ (x ∷ []);
      m_posted = s.m_posted ++ (x ∷ []);
    })
unfolding notified
post-wakes s x r e f =
    arrive
      (λ i. record s {
        caller = free;
        worker = ap notified e i;
        m_queue = s.m_queue ++ (x ∷ []);
        m_posted = s.m_posted ++ (x ∷ []);
      })
      (next (next (next here (push x f)) (see_idle refl (idle_moved _ e (Steps-IsIdleAt r))))
        (notify refl))

-- A post while the worker of a busy handler has found the queue empty and does not wait yet, and
-- the caller is in no method, can leave the worker waiting with the element in the queue and
-- nobody about to notify it.
pub post-unnoticed :
    (s : Handler) (x : ℕ)
    → s.worker ≡ found_empty
    → s.caller ≡ free
    → s.m_busy ≡ true
    → Steps s (record s {
      caller = free;
      worker = waiting;
      m_busy = false;
      m_queue = s.m_queue ++ (x ∷ []);
      m_posted = s.m_posted ++ (x ∷ []);
    })
post-unnoticed s x e f b =
    next (next (next (next here (push x f)) (see_busy refl b)) (set_idle e)) (wait refl)
