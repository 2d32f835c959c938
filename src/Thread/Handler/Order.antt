-- ===== src/Thread/Handler/Order.antt =====
-- What a handler does with the elements posted to it (include/Zway/thread/handler.h).
use zway_lib.Base.{
  ℕ, ◌≡◌, refl, sym, Bool, true, false, ◌||◌, List, [], ◌∷◌, ◌++◌, drop, append_assoc, append-nil,
}
use zway_lib.Thread.Handler.{
  Handler, Worker, processing, popping, waiting, resting, started, notified, resumed, holds, Step,
  see_canceled, go_on, see_suspended, see_awake, rest, take_front, process, pop_front, see_empty,
  set_idle, wait, wake, set_busy, wake_rested, push, see_busy, see_idle, notify, clear, suspend,
  resume, notify_resume, cancel, cancel_suspended, cancel_awake, cancel_stopped, Steps, here, next,
}

-- What was posted is what was processed and, behind it, the queue; the element that is processed
-- stands first in the queue until it is popped.
abbrev pub Agrees : Worker → List ℕ → List ℕ → List ℕ → Type 0
Agrees (processing x) queue posted done =
    (l : List ℕ) × (queue ≡ x ∷ l) × (posted ≡ done ++ (x ∷ l))
Agrees (popping x) queue posted done = (l : List ℕ) × (queue ≡ x ∷ l) × (posted ≡ done ++ l)
Agrees _ queue posted done = posted ≡ done ++ queue

-- What agrees at a place agrees at the place that the worker is known to be at.
moved : {v w : Worker} (q p d : List ℕ) → v ≡ w → Agrees v q p d → Agrees w q p d
moved q p d e h = rw (sym e) h

notified-Agrees : (w : Worker) (q p d : List ℕ) → Agrees w q p d → Agrees (notified w) q p d
unfolding notified
notified-Agrees waiting q p d h = h
notified-Agrees w q p d h = h

resumed-Agrees : (w : Worker) (q p d : List ℕ) → Agrees w q p d → Agrees (resumed w) q p d
unfolding resumed
resumed-Agrees resting q p d h = h
resumed-Agrees w q p d h = h

pushed-Agrees :
    (w : Worker) (x : ℕ) (q p d : List ℕ)
    → Agrees w q p d
    → Agrees w (q ++ (x ∷ [])) (p ++ (x ∷ [])) d
pushed-Agrees (processing y) x q p d (l, e, f) =
    (l ++ (x ∷ []), rw e refl, rw f (append_assoc d (y ∷ l) (x ∷ [])))
pushed-Agrees (popping y) x q p d (l, e, f) =
    (l ++ (x ∷ []), rw e refl, rw f (append_assoc d l (x ∷ [])))
pushed-Agrees w x q p d h = rw h (append_assoc d q (x ∷ []))

cleared-Agrees : (w : Worker) (d : List ℕ) (c : Bool) → c || holds w ≡ false → Agrees w [] d d
unfolding holds
cleared-Agrees (processing x) d true h = cc
cleared-Agrees (processing x) d false h = cc
cleared-Agrees (popping x) d true h = cc
cleared-Agrees (popping x) d false h = cc
cleared-Agrees w d c h = sym (append-nil d)

or_false : (a b : Bool) → a || b ≡ false → a ≡ false
or_false true b h = h
or_false false b h = refl

front_popped : (x : ℕ) (q p d : List ℕ) → Agrees (popping x) q p d → p ≡ d ++ drop 1 q
front_popped x q p d (l, e, f) = rw e f

front_processed :
    (x : ℕ) (q p d : List ℕ) → Agrees (processing x) q p d → Agrees (popping x) q p (d ++ (x ∷ []))
front_processed x q p d (l, e, f) = (l, e, rw f (sym (append_assoc d (x ∷ []) l)))

front_taken : (x : ℕ) (l q p d : List ℕ) → q ≡ x ∷ l → p ≡ d ++ q → Agrees (processing x) q p d
front_taken x l q p d e h = (l, e, rw (sym e) h)

step-Agrees :
    {s t : Handler}
    → Step s t
    → (s.m_dangling ≡ false → Agrees s.worker s.m_queue s.m_posted s.m_processed)
    → t.m_dangling ≡ false
    → Agrees t.worker t.m_queue t.m_posted t.m_processed
step-Agrees {s = s} (see_canceled e c) h g = moved _ _ _ e (h g)
step-Agrees {s = s} (go_on e c) h g = moved _ _ _ e (h g)
step-Agrees {s = s} (see_suspended e c) h g = moved _ _ _ e (h g)
step-Agrees {s = s} (see_awake e c) h g = moved _ _ _ e (h g)
step-Agrees {s = s} (rest e) h g = moved _ _ _ e (h g)
step-Agrees {s = s} (take_front x q e f) h g = front_taken x q _ _ _ f (moved _ _ _ e (h g))
step-Agrees {s = s} (process x e) h g = front_processed x _ _ _ (moved _ _ _ e (h g))
step-Agrees {s = s} (pop_front x e) h g = front_popped x _ _ _ (moved _ _ _ e (h g))
step-Agrees {s = s} (see_empty e f) h g = moved _ _ _ e (h g)
step-Agrees {s = s} (set_idle e) h g = moved _ _ _ e (h g)
step-Agrees {s = s} (wait e) h g = moved _ _ _ e (h g)
step-Agrees {s = s} (wake e) h g = moved _ _ _ e (h g)
step-Agrees {s = s} (set_busy e) h g = moved _ _ _ e (h g)
step-Agrees {s = s} (wake_rested e) h g = moved _ _ _ e (h g)
step-Agrees {s = s} (push x e) h g = pushed-Agrees s.worker x _ _ _ (h g)
step-Agrees {s = s} (see_busy e f) h g = h g
step-Agrees {s = s} (see_idle e f) h g = h g
step-Agrees {s = s} (notify e) h g = notified-Agrees s.worker _ _ _ (h g)
step-Agrees {s = s} (clear e) h g = cleared-Agrees s.worker _ s.m_dangling g
step-Agrees {s = s} (suspend e) h g = h g
step-Agrees {s = s} (resume e f k) h g = h g
step-Agrees {s = s} (notify_resume b e) h g = resumed-Agrees s.worker _ _ _ (h g)
step-Agrees {s = s} (cancel e) h g = h g
step-Agrees {s = s} (cancel_suspended e f k) h g = h g
step-Agrees {s = s} (cancel_awake e f) h g = h g
step-Agrees {s = s} (cancel_stopped e f) h g = h g

-- In every state that a started handler comes to, whatever the interleaving of the worker with posts,
-- clears, suspensions and cancels, and unless `clear` freed an element that the worker held: what was
-- posted and not cleared is what was processed, in the same order, and behind it the queue; while an
-- element is processed or about to be popped, it is the first of the queue.
pub Steps-Agrees :
    {s : Handler}
    → Steps started s
    → s.m_dangling ≡ false
    → Agrees s.worker s.m_queue s.m_posted s.m_processed
Steps-Agrees here g = refl
Steps-Agrees (next r step) g = step-Agrees step (Steps-Agrees r) g
