-- ===== src/Cleanup/Slot.antt =====
-- `CleanupManager` (compute/collection/cleanup.py): its fields, one function per hold of the lock, and its
-- callers and worker threads as steps. `Result` is what a job's function returns.
use Prim.Native.String.{String}
use cat_automation.Prelude.{
  ℕ, suc, ◌+◌, ◌≡◌, refl, Bool, true, false, Option, none, some, if◌then◌else◌, arith,
}

pub record CleanupManager (Result : Type 0) : Type 0 where
  pub running : Bool
  pub kind : Option String
  pub done : ℕ
  pub total : ℕ
  pub error : Option String
  pub result : Option Result
  pub stopping : Bool

-- `threads` counts the worker threads that have been prepared and have not ended.
pub record Slot (Result : Type 0) : Type 0 where
  pub manager : CleanupManager Result
  pub threads : ℕ

pub data Request : Type 0 where
  started : String → Request
  canceled : Request
  total_set : ℕ → Request
  done_added : ℕ → Request
  done_set : ℕ → Request

module _ {Result : Type 0} where
  unfoldable pub new_cleanup : CleanupManager Result
  new_cleanup = record {
    running = false;
    kind = none;
    done = 0;
    total = 0;
    error = none;
    result = none;
    stopping = false;
  }

  -- `_start`, and whether it starts a thread.
  unfoldable pub start : String → CleanupManager Result → CleanupManager Result × Bool
  start kind m = if m.running then (m, false) else (
    record m {
      kind = some kind;
      done = 0;
      total = 0;
      error = none;
      stopping = false;
      running = true;
    },
    true,
  )

  unfoldable pub cancel : CleanupManager Result → CleanupManager Result
  cancel m = if m.running then record m { stopping = true } else m

  unfoldable pub keep_or : Option Result → Option Result → Option Result
  keep_or prior none = prior
  keep_or prior (some result) = some result

  -- The `finally` block of `_worker`, for a job that returned a result or failed with an error.
  unfoldable pub end_job :
      Option String → Option Result → CleanupManager Result → CleanupManager Result
  unfolding keep_or
  end_job error result m = record m {
    error = error;
    result = keep_or m.result result;
    running = false;
  }

  -- `_start`, `cancel`, `_set_total`, `_add_done` and `_set_done`.
  unfoldable pub serve : Request → Slot Result → Slot Result
  unfolding start cancel
  serve (started kind) w =
      let (m, starts) = start kind w.manager in
      record { manager = m; threads = if starts then suc w.threads else w.threads }
  serve canceled w = record w { manager = cancel w.manager }
  serve (total_set total) w = record w { manager = record (w.manager) { total = total } }
  serve (done_added n) w = record w { manager = record (w.manager) { done = w.manager.done + n } }
  serve (done_set done) w = record w { manager = record (w.manager) { done = done } }

  pub data SlotStep : Slot Result → Slot Result → Type 0 where
    asks : (r : Request) (w : Slot Result) → SlotStep w (serve r w)
    ends :
        (error : Option String) (result : Option Result) (w : Slot Result) (n : ℕ)
        → w.threads ≡ suc n
        → SlotStep w (record { manager = end_job error result w.manager; threads = n })

  unfoldable pub new_slot : Slot Result
  unfolding new_cleanup
  new_slot = record { manager = new_cleanup; threads = 0 }

  pub data SlotReach : Slot Result → Type 0 where
    begin : SlotReach new_slot
    next : {w v : Slot Result} → SlotReach w → SlotStep w v → SlotReach v

  -- One thread runs while the flag is set, and none otherwise.
  abbrev pub IsSingle : Slot Result → Type 0
  IsSingle w = w.threads ≡ (if w.manager.running then 1 else 0)

  SlotStep-IsSingle : {w v : Slot Result} → SlotStep w v → IsSingle w → IsSingle v
  unfolding serve end_job
  SlotStep-IsSingle (asks (started kind) w) h = ground (arith, h)
  SlotStep-IsSingle (asks canceled w) h = ground (arith, h)
  SlotStep-IsSingle (asks (total_set total) w) h = h
  SlotStep-IsSingle (asks (done_added n) w) h = h
  SlotStep-IsSingle (asks (done_set done) w) h = h
  SlotStep-IsSingle (ends error result w n e) h = ground (arith, h, e)

  -- In whatever order callers ask and workers end, one cleanup thread runs while the flag is set and
  -- none otherwise.
  pub SlotReach-IsSingle : {w : Slot Result} → SlotReach w → IsSingle w
  unfolding new_slot
  SlotReach-IsSingle begin = refl
  SlotReach-IsSingle (next r st) = SlotStep-IsSingle st (SlotReach-IsSingle r)
