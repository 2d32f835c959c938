-- ===== src/Thread/Handler.antt =====
-- include/Zway/thread/handler.h and the flags of src/thread/thread.cpp that it uses: a worker thread
-- with a queue, as steps of the worker and of one thread that calls the handler's methods. A step is
-- what a thread does under one lock. `getElements` is the base class's, which has none.
-- `m_posted` and `m_processed` are what was posted and processed, in order; what `clear` throws away
-- no longer counts as posted. `m_dangling` tells that `clear` freed the element that the worker holds
-- by a pointer; the source goes on from there with undefined behaviour.
pub mod Order
pub mod Wakes
mod Tests
use zway_lib.Base.{ℕ, ◌≡◌, Bool, true, false, ◌||◌, List, [], ◌∷◌, ◌++◌, drop}

-- Where the worker is in `run`.
pub data Worker : Type 0 where
  at_top not_canceled not_suspended : Worker
  processing popping : ℕ → Worker
  found_empty before_wait waiting woken : Worker
  before_rest resting stopped : Worker

-- Where the other thread is: in no method, in `post` behind the push, before `notify`, in `cancel`
-- before `resume`, in `resume` before its notification; the flag tells that `notify` follows.
pub data Caller : Type 0 where
  free pushed notifying canceling : Caller
  resuming : Bool → Caller

pub record Handler : Type 0 where
  pub m_queue : List ℕ
  pub m_busy : Bool
  pub m_suspended : Bool
  pub m_canceled : Bool
  pub worker : Worker
  pub caller : Caller
  pub m_posted : List ℕ
  pub m_processed : List ℕ
  pub m_dangling : Bool

-- The constructors, and `start`.
abbrev pub started : Handler
started = record {
  m_queue = [];
  m_busy = false;
  m_suspended = false;
  m_canceled = false;
  worker = at_top;
  caller = free;
  m_posted = [];
  m_processed = [];
  m_dangling = false;
}

-- `notify_one` on the condition of `wait`, and on that of `waitResume`.
unfoldable pub notified : Worker → Worker
notified waiting = woken
notified w = w

unfoldable pub resumed : Worker → Worker
resumed resting = at_top
resumed w = w

-- The worker holds a pointer to the front of the queue.
unfoldable pub holds : Worker → Bool
holds (processing x) = true
holds (popping x) = true
holds _ = false

-- `running()`
unfoldable pub running : Worker → Bool
running stopped = false
running _ = true

abbrev pub after_resume : Bool → Caller
after_resume true = notifying
after_resume false = free

pub data Step (s : Handler) : Handler → Type 0 where
  -- `run`
  see_canceled : s.worker ≡ at_top → s.m_canceled ≡ true → Step s (record s { worker = stopped })
  go_on : s.worker ≡ at_top → s.m_canceled ≡ false → Step s (record s { worker = not_canceled })
  see_suspended :
      s.worker ≡ not_canceled → s.m_suspended ≡ true → Step s (record s { worker = before_rest })
  see_awake :
      s.worker ≡ not_canceled → s.m_suspended ≡ false → Step s (record s { worker = not_suspended })
  rest : s.worker ≡ before_rest → Step s (record s { worker = resting })
  take_front :
      (x : ℕ) (q : List ℕ)
      → s.worker ≡ not_suspended
      → s.m_queue ≡ x ∷ q
      → Step s (record s { worker = processing x })
  process :
      (x : ℕ)
      → s.worker ≡ processing x
      → Step s (record s { worker = popping x; m_processed = s.m_processed ++ (x ∷ []) })
  pop_front :
      (x : ℕ)
      → s.worker ≡ popping x
      → Step s (record s { worker = at_top; m_queue = drop 1 s.m_queue })
  see_empty : s.worker ≡ not_suspended → s.m_queue ≡ [] → Step s (record s { worker = found_empty })
  -- `wait`, which also returns for no reason, as `waitResume` does.
  set_idle : s.worker ≡ found_empty → Step s (record s { worker = before_wait; m_busy = false })
  wait : s.worker ≡ before_wait → Step s (record s { worker = waiting })
  wake : s.worker ≡ waiting → Step s (record s { worker = woken })
  set_busy : s.worker ≡ woken → Step s (record s { worker = at_top; m_busy = true })
  wake_rested : s.worker ≡ resting → Step s (record s { worker = at_top })
  -- `post`
  push :
      (x : ℕ)
      → s.caller ≡ free
      → Step s (record s {
        caller = pushed;
        m_queue = s.m_queue ++ (x ∷ []);
        m_posted = s.m_posted ++ (x ∷ []);
      })
  see_busy : s.caller ≡ pushed → s.m_busy ≡ true → Step s (record s { caller = free })
  see_idle : s.caller ≡ pushed → s.m_busy ≡ false → Step s (record s { caller = notifying })
  notify : s.caller ≡ notifying → Step s (record s { caller = free; worker = notified s.worker })
  -- `clear`
  clear :
      s.caller ≡ free
      → Step s (record s {
        m_queue = [];
        m_posted = s.m_processed;
        m_dangling = s.m_dangling || holds s.worker;
      })
  -- `suspend`, `resume` and `cancel`
  suspend :
      s.caller ≡ free
      → Step s (record s { caller = notifying; m_suspended = s.m_suspended || running s.worker })
  resume :
      s.caller ≡ free
      → running s.worker ≡ true
      → s.m_suspended ≡ true
      → Step s (record s { caller = resuming false; m_suspended = false })
  notify_resume :
      (then_notify : Bool)
      → s.caller ≡ resuming then_notify
      → Step s (record s { caller = after_resume then_notify; worker = resumed s.worker })
  cancel : s.caller ≡ free → Step s (record s { caller = canceling; m_canceled = true })
  cancel_suspended :
      s.caller ≡ canceling
      → running s.worker ≡ true
      → s.m_suspended ≡ true
      → Step s (record s { caller = resuming true; m_suspended = false })
  cancel_awake :
      s.caller ≡ canceling → s.m_suspended ≡ false → Step s (record s { caller = notifying })
  cancel_stopped :
      s.caller ≡ canceling → running s.worker ≡ false → Step s (record s { caller = notifying })

pub data Steps (s : Handler) : Handler → Type 0 where
  here : Steps s s
  next : {t u : Handler} → Steps s t → Step t u → Steps s u
