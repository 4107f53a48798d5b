-- ===== src/Proxy/Probe.antt =====
-- src/proxy/BackendProbe.cpp: `ProbeState`, whose handlers run one after the other. Errors are their
-- messages, and times are in nanoseconds.
pub mod Owing
pub mod Paying
pub mod Once
mod Tests
use model_lib.Base.Bytes.{Bytes, codes, is_empty}
use model_lib.Base.{
  ℕ, ◌-◌, Bool, true, false, not, ◌&&◌, List, [], ◌∷◌, ◌++◌, Option, none, some, is_some,
  if◌then◌else◌,
}
use model_lib.Routing.Host.{normalize_authority}
use model_lib.Routing.Router
use model_lib.Routing.Router.{BackendConfig, BackendProtocol}

pub record BackendProbeResult : Type 0 where
  pub success : Bool
  pub protocol : Bytes
  pub remote_address : Bytes
  pub remote_port : ℕ
  pub latency : ℕ
  pub tls_verified : Bool
  pub error : Bytes

-- Of the members, those that are not objects of Boost; a stream is whether it is there.
pub record Probe : Type 0 where
  pub backend : BackendConfig
  pub plain_stream : Bool
  pub tls_stream : Bool
  pub result : BackendProbeResult
  pub completion : Bool
  pub started : ℕ
  pub finished : Bool

-- Boost and OpenSSL: whether a text is an address, whether `SSL_set_tlsext_host_name` takes a name,
-- and the messages of three errors.
pub record Platform : Type 0 where
  pub is_address : Bytes → Bool
  pub takes_host_name : Bytes → Bool
  pub timed_out : Bytes
  pub operation_aborted : Bytes
  pub invalid_argument : Bytes

-- The operations whose handler is still to come.
pub data Pending : Type 0 where
  timer resolving connecting tls_connecting handshaking cancelling : Pending

-- Where an exception leaves the code of a handler: before it has changed anything, at the start of
-- the next operation, at the `cancel` calls of `finish`, at the message of the error, or in the
-- completion. At a place that the handler does not come to there is none.
pub data Throw : Type 0 where
  nowhere at_start at_operation at_cancel at_message in_completion : Throw

-- What a handler is called with, when, and where it throws.
pub record Outcome : Type 0 where
  pub error : Option Bytes
  pub address : Bytes
  pub port : ℕ
  pub now : ℕ
  pub throws : Throw

-- What a handler leaves: the state, the calls of the completion, the operations begun, and whether an
-- exception leaves it.
pub record Reaction : Type 0 where
  pub probe : Probe
  pub delivered : List BackendProbeResult
  pub begun : List Pending
  pub thrown : Bool

unfoldable pub named_host : Option Bytes → Bytes → Bytes
named_host none address = address
named_host (some name) address = name

unfoldable pub tls_name : BackendConfig → Bytes
tls_name backend =
    if not (is_empty backend.tls_sni)
    then backend.tls_sni
    else (if not (is_empty backend.host)
        then named_host (normalize_authority backend.host) backend.address
        else backend.address)

unfoldable pub is_https : BackendProtocol → Bool
is_https Router.https = true
is_https _ = false

-- The constructor and `start`.
unfoldable pub begin : BackendConfig → ℕ → Probe
begin backend now = record {
  backend = backend;
  plain_stream = false;
  tls_stream = false;
  result = record {
    success = false;
    protocol = if is_https backend.protocol then codes "https" else codes "http";
    remote_address = [];
    remote_port = 0;
    latency = 0;
    tls_verified = false;
    error = [];
  };
  completion = true;
  started = now;
  finished = false;
}

unfoldable pub started_operations : List Pending
started_operations = timer ∷ resolving ∷ []

unfoldable pub quiet : Probe → Reaction
quiet p = record { probe = p; delivered = []; begun = []; thrown = false }

-- An exception, with the state that it leaves behind.
unfoldable pub raises : Probe → Reaction
raises p = record { probe = p; delivered = []; begun = []; thrown = true }

unfoldable pub leaves_start : Throw → Bool
leaves_start at_start = true
leaves_start _ = false

unfoldable pub leaves_completion : Throw → Bool
leaves_completion in_completion = true
leaves_completion _ = false

unfoldable pub message : Option Bytes → Bytes
message none = []
message (some text) = text

-- `completion_` is moved from and called, if it is there.
unfoldable pub complete : Throw → Probe → Reaction
complete throw p = record {
  probe = record p { completion = false };
  delivered = if p.completion then p.result ∷ [] else [];
  begun = [];
  thrown = leaves_completion throw && p.completion;
}

-- `finish` from the `cancel` calls on.
unfoldable pub ended : Throw → ℕ → Option Bytes → Probe → Reaction
ended at_cancel now error p = raises p
ended at_message now (some text) p =
    raises (record p { result = record p.result { success = false } })
ended throw now error p = complete throw (record p {
  result = record p.result {
    success = not (is_some error);
    error = message error;
    latency = now - p.started;
  };
})

unfoldable pub finish : Outcome → Option Bytes → Probe → Reaction
finish o error p =
    if p.finished then quiet p else ended o.throws o.now error (record p { finished = true })

-- What `timer_.cancel()` and the completion throw is dropped.
unfoldable pub abort_noexcept : Probe → Reaction
abort_noexcept p = complete nowhere (record p { finished = true })

-- The `catch` of a handler, which goes on from the state that the exception left.
unfoldable pub caught : Reaction → Reaction
caught r =
    if r.thrown
    then record {
      probe = (abort_noexcept r.probe).probe;
      delivered = r.delivered ++ (abort_noexcept r.probe).delivered;
      begun = r.begun;
      thrown = false;
    }
    else r

unfoldable pub begins : Throw → Pending → Probe → Reaction
begins at_operation operation p = raises p
begins throw operation p = record {
  probe = p;
  delivered = [];
  begun = operation ∷ [];
  thrown = false;
}

unfoldable pub connected_result : Outcome → Probe → Probe
connected_result o p = record p {
  result = record p.result { remote_address = o.address; remote_port = o.port };
}

module _ (platform : Platform) where
  unfoldable pub on_timeout : Outcome → Probe → Reaction
  on_timeout o p =
      if not (is_some o.error) && not p.finished
      then finish o (some platform.timed_out) p
      else quiet p

  unfoldable pub cancel_on_executor : Outcome → Probe → Reaction
  cancel_on_executor o p = finish o (some platform.operation_aborted) p

  unfoldable pub open_tls : Outcome → Probe → Reaction
  open_tls o p =
      let opened : Probe = record p { tls_stream = true } in
      if not (platform.is_address (tls_name p.backend))
        && not (platform.takes_host_name (tls_name p.backend))
      then finish o (some platform.invalid_argument) opened
      else begins o.throws tls_connecting opened

  unfoldable pub open_stream : Outcome → Probe → Reaction
  open_stream o p =
      if is_https p.backend.protocol
      then open_tls o p
      else begins o.throws connecting (record p { plain_stream = true })

  -- The common beginning of three handlers.
  unfoldable pub unless_over : Outcome → Reaction → Probe → Reaction
  unless_over o goes_on p =
      if p.finished then quiet p else (if is_some o.error then finish o o.error p else goes_on)

  unfoldable pub on_resolved : Outcome → Probe → Reaction
  on_resolved o p = unless_over o (open_stream o p) p

  unfoldable pub on_connected : Outcome → Probe → Reaction
  on_connected o p = unless_over o (finish o none (connected_result o p)) p

  unfoldable pub on_tls_connected : Outcome → Probe → Reaction
  on_tls_connected o p = unless_over o (begins o.throws handshaking (connected_result o p)) p

  unfoldable pub verified_result : Outcome → Probe → Probe
  verified_result o p =
      if is_some o.error
      then p
      else record p { result = record p.result { tls_verified = p.backend.tls_verify_certificate } }

  unfoldable pub on_tls_handshake : Outcome → Probe → Reaction
  on_tls_handshake o p = finish o o.error (verified_result o p)

  unfoldable pub handle : Pending → Outcome → Probe → Reaction
  handle timer o p = on_timeout o p
  handle resolving o p = on_resolved o p
  handle connecting o p = on_connected o p
  handle tls_connecting o p = on_tls_connected o p
  handle handshaking o p = on_tls_handshake o p
  handle cancelling o p = cancel_on_executor o p

  unfoldable pub guarded : Pending → Outcome → Probe → Reaction
  guarded operation o p = caught (if leaves_start o.throws then raises p else handle operation o p)

-- The probe, the handlers to come, and the results delivered so far.
pub record World : Type 0 where
  pub probe : Probe
  pub pending : List Pending
  pub delivered : List BackendProbeResult

unfoldable pub reacted : List Pending → List BackendProbeResult → Reaction → World
reacted pending delivered r = record {
  probe = r.probe;
  pending = pending ++ r.begun;
  delivered = delivered ++ r.delivered;
}

-- Any pending handler may be the next, and `cancel` may be called at any time, also when `dispatch`
-- throws.
pub data Step (platform : Platform) : World → World → Type 0 where
  handles :
      {p : Probe} {delivered : List BackendProbeResult} (front : List Pending) (operation : Pending)
      (back : List Pending) (o : Outcome)
      → Step platform
          (record { probe = p; pending = front ++ operation ∷ back; delivered = delivered })
          (reacted (front ++ back) delivered (guarded platform operation o p))
  cancels : {w : World} → Step platform w (record w { pending = w.pending ++ cancelling ∷ [] })
  cancel_throws :
      {w : World} → Step platform w (reacted w.pending w.delivered (abort_noexcept w.probe))

pub data Reachable (platform : Platform) (backend : BackendConfig) (now : ℕ) : World → Type 0 where
  starts :
      Reachable platform backend now
        (record { probe = begin backend now; pending = started_operations; delivered = [] })
  steps :
      {v w : World}
      → Reachable platform backend now v
      → Step platform v w
      → Reachable platform backend now w
