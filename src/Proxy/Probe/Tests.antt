-- ===== src/Proxy/Probe/Tests.antt =====
-- Runs of a probe, and its theorem after a failed resolution and an exception in `finish`.
use model_lib.Base.Bytes.{codes}
use model_lib.Base.{◌≤◌, ◌≡◌, ◌⊎◌, refl, true, false, [], ◌∷◌, ◌++◌, none, some, length}
use model_lib.Routing.Router
use model_lib.Routing.Router.{BackendConfig}
use model_lib.Proxy.Probe.{
  Platform, timer, resolving, connecting, Outcome, is_https, begin, started_operations, message,
  complete, finish, ended, nowhere, at_cancel, leaves_start, leaves_completion, caught,
  connected_result, on_connected, on_resolved, open_stream, begins, unless_over, handle, guarded,
  World, reacted, Reachable, starts, steps, handles,
}
use model_lib.Proxy.Probe.Owing.{in_flight}
use model_lib.Proxy.Probe.Once.{Reachable-delivered}

abbrev upstream : BackendConfig
upstream = record {
  address = codes "backend.local";
  port = 8090;
  protocol = Router.http;
  host = [];
  tls_sni = [];
  tls_verify_certificate = true;
  connect_timeout_seconds = 5;
  response_timeout_seconds = 60;
  keep_alive = true;
}

abbrev names_only : Platform
names_only = record {
  is_address = λ s. false;
  takes_host_name = λ s. true;
  timed_out = codes "timed out";
  operation_aborted = codes "aborted";
  invalid_argument = codes "invalid";
}

abbrev fine : Outcome
fine = record { error = none; address = codes "192.0.2.7"; port = 8090; now = 70; throws = nowhere }

abbrev unknown : Outcome
unknown = record {
  error = some (codes "no such host");
  address = [];
  port = 0;
  now = 60;
  throws = at_cancel;
}

begins_to_connect : (guarded names_only resolving fine (begin upstream 50)).begun ≡ connecting ∷ []
unfolding guarded caught leaves_start handle on_resolved unless_over open_stream is_https begins
    begin
begins_to_connect = refl

succeeds :
    (guarded names_only connecting fine (begin upstream 50)).delivered
    ≡ record {
      success = true;
      protocol = codes "http";
      remote_address = codes "192.0.2.7";
      remote_port = 8090;
      latency = 20;
      tls_verified = false;
      error = [];
    }
      ∷ []
unfolding guarded caught leaves_start handle on_connected unless_over finish ended complete
    leaves_completion connected_result message is_https begin
succeeds = refl

abbrev unresolved : World
unresolved =
    reacted ((timer ∷ []) ++ []) [] (guarded names_only resolving unknown (begin upstream 50))

unresolved-Reachable : Reachable names_only upstream 50 unresolved
unfolding started_operations
unresolved-Reachable = steps starts (handles (timer ∷ []) resolving [] unknown)

Reachable-delivered_example :
    (length unresolved.delivered ≡ 1)
    ⊎ ((length unresolved.delivered ≡ 0) × (1 ≤ in_flight unresolved.pending))
Reachable-delivered_example =
    Reachable-delivered names_only upstream 50 unresolved unresolved-Reachable
