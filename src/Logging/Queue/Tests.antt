-- ===== src/Logging/Queue/Tests.antt =====
-- Runs of the log manager, and its theorems after a few calls.
use model_lib.Base.Bytes.{codes}
use model_lib.Base.{◌+◌, ◌*◌, ◌^◌, ◌≤◌, ◌<◌, ◌≡◌, refl, true, [], ◌∷◌, arith, length}
use model_lib.Logging.Event.{Event, error, access_payload, error_payload, holds_access}
use model_lib.Logging.Queue.{
  drop_event, push_event, put_back, without_access, displace, enqueue_full, enqueue, wake, look,
  report, finish,
}
use model_lib.Logging.Queue.World.{
  World, constructed, call, act, writer_step, run, Reachable, begun, steps, calls,
}
use model_lib.Logging.Queue.Accounts.{Accounted}
use model_lib.Logging.Queue.Counting.{Reachable-Accounted}
use model_lib.Logging.Queue.Draining.{Drained, Reachable-Drained}

abbrev served : Event
served = record {
  timestamp = 1;
  payload = access_payload (record {
    request_id = codes "1";
    client_ip = codes "192.0.2.7";
    scheme = codes "http";
    listener_port = 80;
    host = codes "a.b";
    method = codes "GET";
    path = codes "/";
    status = 200;
    response_bytes = 5;
    duration = 1500;
    config_revision = 1;
  });
}

abbrev failed : Event
failed = record {
  timestamp = 2;
  payload = error_payload (record {
    severity = error;
    component = codes "proxy";
    message = codes "refused";
    request_id = [];
  });
}

-- A queue of two that has two requests takes an error in place of the first.
abbrev full : World
full = call 2 true failed (call 2 true served (call 2 true served constructed))

displaced : full.manager.queue ≡ served ∷ failed ∷ []
unfolding constructed call enqueue enqueue_full displace without_access put_back push_event
    drop_event holds_access
displaced = refl

counted : full.manager.dropped_access ≡ 1
unfolding constructed call enqueue enqueue_full displace without_access put_back push_event
    drop_event holds_access
counted = refl

drained : (run 21 full).written ≡ served ∷ failed ∷ []
unfolding constructed call enqueue enqueue_full displace without_access put_back push_event
    drop_event holds_access run writer_step act wake look report finish
drained = refl

summarized : (run 21 full).summarized_access ≡ 1
unfolding constructed call enqueue enqueue_full displace without_access put_back push_event
    drop_event holds_access run writer_step act wake look report finish
summarized = refl

full-Reachable : Reachable 2 full
full-Reachable =
    steps (steps (steps begun (calls true served)) (calls true served)) (calls true failed)

few_calls : full.called_access + full.called_error < 2 ^ 64
unfolding constructed call holds_access
few_calls = omega arith

enough_steps : 6 * length full.manager.queue + 9 ≤ 21
unfolding constructed call enqueue enqueue_full displace without_access put_back push_event
    drop_event holds_access
enough_steps = omega arith

Reachable-Accounted_example : Accounted 2 full
Reachable-Accounted_example = Reachable-Accounted 2 full full-Reachable few_calls

Reachable-Drained_example : Drained full (run 21 full)
Reachable-Drained_example = Reachable-Drained 2 21 full full-Reachable enough_steps
