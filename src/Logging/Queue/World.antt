-- ===== src/Logging/Queue/World.antt =====
-- src/logging/LogManager.cpp: every interleaving of the callers, the destructor and the writer.
use model_lib.Base.{ℕ, zero, suc, ◌+◌, Bool, true, false, List, [], ◌∷◌, ◌++◌, if◌then◌else◌}
use model_lib.Logging.Event.{Event}
use model_lib.Logging.Queue.{
  LogQueue, Phase, waiting, looking, gone, writing, reporting, finishing, summarizing, is_access,
  enqueue, stop, wake, look, report, finish, fail,
}

-- The manager, its writer, and what happened so far: the calls, the events written in order, the
-- numbers in the summaries written, and what an error of the files lost.
pub record World : Type 0 where
  pub manager : LogQueue
  pub phase : Phase
  pub called_access : ℕ
  pub called_error : ℕ
  pub written : List Event
  pub summarized_access : ℕ
  pub summarized_error : ℕ
  pub lost : List Event
  pub unsummarized_access : ℕ
  pub unsummarized_error : ℕ

unfoldable pub constructed : World
constructed = record {
  manager = record {
    queue = [];
    accepted_access = 0;
    accepted_error = 0;
    dropped_access = 0;
    dropped_error = 0;
    reported_dropped_access = 0;
    reported_dropped_error = 0;
    writer_busy = false;
    stopping = false;
  };
  phase = waiting;
  called_access = 0;
  called_error = 0;
  written = [];
  summarized_access = 0;
  summarized_error = 0;
  lost = [];
  unsummarized_access = 0;
  unsummarized_error = 0;
}

-- `log_access` or `log_error`.
unfoldable pub call : ℕ → Bool → Event → World → World
call capacity memory e w = record w {
  manager = enqueue capacity memory e w.manager;
  called_access = (if is_access e then 1 else 0) + w.called_access;
  called_error = (if is_access e then 0 else 1) + w.called_error;
}

abbrev pub moved : LogQueue × Phase → World → World
moved (l, phase) w = record w { manager = l; phase = phase }

-- An exception of `write_line`, and the events that go with it.
unfoldable pub broken : List Event → ℕ → ℕ → World → World
broken events access error w = record w {
  manager = fail w.manager;
  phase = gone;
  lost = w.lost ++ events ++ w.manager.queue;
  unsummarized_access = w.unsummarized_access + access;
  unsummarized_error = w.unsummarized_error + error;
}

-- What the writer does next; the flag says whether the file takes a line.
unfoldable pub act : Bool → Phase → World → World
act ok waiting w = moved (wake w.manager.queue w.manager.stopping w.manager) w
act true (writing e) w = record w { written = w.written ++ e ∷ []; phase = looking }
act false (writing e) w = broken (e ∷ []) 0 0 w
act ok looking w = record w { phase = look w.manager.queue }
act ok (reporting leaves) w = moved (report leaves w.manager) w
act true (summarizing leaves access error) w = record w {
  summarized_access = w.summarized_access + access;
  summarized_error = w.summarized_error + error;
  phase = finishing leaves;
}
act false (summarizing leaves access error) w = broken [] access error w
act ok (finishing leaves) w = moved (finish leaves w.manager) w
act ok gone w = record w { phase = gone }

unfoldable pub writer_step : Bool → World → World
writer_step ok w = act ok w.phase w

-- The writer alone, for so many steps, with files that take every line.
unfoldable pub run : ℕ → World → World
run zero w = w
run (suc n) w = run n (writer_step true w)

pub data Step (capacity : ℕ) : World → World → Type 0 where
  calls : {w : World} (memory : Bool) (e : Event) → Step capacity w (call capacity memory e w)
  stops : {w : World} → Step capacity w (record w { manager = stop w.manager })
  writes : {w : World} (ok : Bool) → Step capacity w (writer_step ok w)

pub data Reachable (capacity : ℕ) : World → Type 0 where
  begun : Reachable capacity constructed
  steps : {v w : World} → Reachable capacity v → Step capacity v w → Reachable capacity w
