-- ===== src/Schedular/Notify.antt =====
-- src/tree/schedular/atomic_waker.rs: the waker that other threads wake while it is registered.
-- A call is cut into its steps: between two of them, each an access to the state or the cell, other
-- threads may take theirs. The memory order of the accesses is that of the interleaving.
use reblessive.Base.{
  Bool, Option, none, some, List, [], ◌∷◌, ◌++◌, ◌≡◌, Outcome, ok, panicked, assertion, unwrap_none,
  if◌then◌else◌,
}

-- The bits of `state`: WAITING, REGISTERING, WAKING and REGISTERING | WAKING
pub data State : Type 0 where
  waiting : State
  registering : State
  waking : State
  both : State

-- `fetch_or(WAKING)`
abbrev pub with_waking : State → State
with_waking waiting = waking
with_waking registering = both
with_waking waking = waking
with_waking both = both

-- `fetch_and(!WAKING)`
abbrev pub without_waking : State → State
without_waking waiting = waiting
without_waking registering = registering
without_waking waking = waiting
without_waking both = registering

-- `AtomicWaker`, and the wakers that were woken so far, the last one first
pub record AtomicWaker (W : Type 0) : Type 0 where
  pub state : State
  pub waker : Option W
  pub woken : List W

-- Where a thread stands in `register` or in `wake`
pub data Thread (W : Type 0) : Type 0 where
  register : W → Thread W  -- before the first `compare_exchange`
  store_waker : W → Thread W  -- before the waker is put in the cell
  release : Thread W  -- before the second `compare_exchange`
  recover : Thread W  -- before `take().unwrap()`
  reset : W → Thread W  -- before `swap(WAITING)`
  notify : W → Thread W  -- before the waker is woken
  wake : Thread W  -- before `fetch_or(WAKING)`
  take_waker : Thread W  -- before the waker is taken out of the cell
  unlock : Option W → Thread W  -- before `fetch_and(!WAKING)`
  finished : Thread W

-- Where a call of `register` or of `wake` begins
abbrev pub IsCall : {W : Type 0} → Thread W → Type 0
IsCall (register w) = Unit
IsCall wake = Unit
IsCall _ = ⊥

abbrev pub new : {W : Type 0} → AtomicWaker W
new = record { state = waiting; waker = none; woken = [] }

module _ {W : Type 0} (will_wake : W → W → Bool) where
  -- What `register` leaves in the cell: the old waker if it wakes the same task
  abbrev pub stored : W → Option W → W
  stored w none = w
  stored w (some old) = if will_wake old w then old else w

  -- The first `compare_exchange` of `register`, from the state that it finds
  unfoldable pub begin_register : W → State → AtomicWaker W → Outcome (AtomicWaker W) (Thread W)
  begin_register w waiting c = ok (store_waker w) (record c { state = registering })
  begin_register w waking c = ok (notify w) c
  begin_register w registering c = ok finished c
  begin_register w both c = ok finished c

  -- The second one, with the assertion about the state that it finds
  unfoldable pub try_release : State → AtomicWaker W → Outcome (AtomicWaker W) (Thread W)
  try_release registering c = ok finished (record c { state = waiting })
  try_release both c = ok recover c
  try_release waiting c = panicked assertion
  try_release waking c = panicked assertion

  -- The `fetch_or` of `take`
  unfoldable pub begin_wake : State → AtomicWaker W → Outcome (AtomicWaker W) (Thread W)
  begin_wake waiting c = ok take_waker (record c { state = waking })
  begin_wake registering c = ok finished (record c { state = both })
  begin_wake waking c = ok finished c
  begin_wake both c = ok finished c

  -- `take().unwrap()`
  unfoldable pub recover_waker : Option W → AtomicWaker W → Outcome (AtomicWaker W) (Thread W)
  recover_waker none c = panicked unwrap_none
  recover_waker (some w) c = ok (reset w) (record c { waker = none })

  -- What `wake` does with the waker that `take` returned
  abbrev pub wake_taken : Option W → Thread W
  wake_taken none = finished
  wake_taken (some w) = notify w

  -- The next step of a thread in `AtomicWaker::register` or `AtomicWaker::wake`
  unfoldable pub step : Thread W → AtomicWaker W → Outcome (AtomicWaker W) (Thread W)
  unfolding begin_register try_release begin_wake recover_waker
  step (register w) c = begin_register w c.state c
  step (store_waker w) c = ok release (record c { waker = some (stored w c.waker) })
  step release c = try_release c.state c
  step recover c = recover_waker c.waker c
  step (reset w) c = ok (notify w) (record c { state = waiting })
  step (notify w) c = ok finished (record c { woken = w ∷ c.woken })
  step wake c = begin_wake c.state c
  step take_waker c = ok (unlock c.waker) (record c { waker = none })
  step (unlock w) c = ok (wake_taken w) (record c { state = without_waking c.state })
  step finished c = ok finished c

  -- What threads that call `register` and `wake`, in any order and any number, can come to
  pub data Reach : AtomicWaker W → List (Thread W) → Type 0 where
    start : Reach new []
    call :
        (c : AtomicWaker W) (ts : List (Thread W)) (t : Thread W)
        → Reach c ts
        → IsCall t
        → Reach c (t ∷ ts)
    move :
        (c d : AtomicWaker W) (xs ys : List (Thread W)) (t u : Thread W)
        → Reach c (xs ++ t ∷ ys)
        → step t c ≡ ok u d
        → Reach d (xs ++ u ∷ ys)
