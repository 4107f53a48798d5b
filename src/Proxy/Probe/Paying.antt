-- ===== src/Proxy/Probe/Paying.antt =====
-- src/proxy/BackendProbe.cpp: each handler delivers what it no longer owes.
use model_lib.Base.{
  ℕ, ◌+◌, ◌≤◌, ◌≡◌, ◌⊎◌, refl, inl, inr, true, not, ◌&&◌, none, is_some, arith, Bool-cases,
}
use model_lib.Proxy.Probe.{
  Probe, Platform, Pending, timer, resolving, connecting, tls_connecting, handshaking, cancelling,
  leaves_start, Outcome, tls_name, is_https, quiet, finish, begins, connected_result, on_timeout,
  cancel_on_executor, open_tls, open_stream, on_resolved, on_connected, on_tls_connected,
  verified_result, on_tls_handshake, handle, guarded,
}
use model_lib.Proxy.Probe.Owing.{
  carries, Consistent, Pays, Safe, raises-Safe, quiet-Safe, either-Safe, begins-Safe, finish-Safe,
  unless_over-Safe,
}

module _ (platform : Platform) (o : Outcome) (p : Probe) (others : ℕ) (c : Consistent p) where
  open_tls-Safe : Safe p others (open_tls platform o p)
  unfolding open_tls
  open_tls-Safe =
      either-Safe
        (not (platform.is_address (tls_name p.backend))
          && not (platform.takes_host_name (tls_name p.backend)))
        p others _ _ (λ _. finish-Safe o _ p _ others c refl)
        (λ _. begins-Safe o.throws tls_connecting p _ others refl c refl)

  open_stream-Safe : Safe p others (open_stream platform o p)
  unfolding open_stream
  open_stream-Safe =
      either-Safe (is_https p.backend.protocol) p others _ _ (λ _. open_tls-Safe)
        (λ _. begins-Safe o.throws connecting p _ others refl c refl)

  connected-Safe : Safe p others (finish o none (connected_result o p))
  unfolding connected_result
  connected-Safe = finish-Safe o none p _ others c refl

  tls_connected-Safe : Safe p others (begins o.throws handshaking (connected_result o p))
  unfolding connected_result
  tls_connected-Safe = begins-Safe o.throws handshaking p _ others refl c refl

  handshake-Safe : Safe p others (on_tls_handshake platform o p)
  unfolding on_tls_handshake verified_result
  handshake-Safe = elim (Bool-cases (is_some o.error)) [
    | inl e ↦ rw e (finish-Safe o o.error p p others c refl)
    | inr e ↦ rw e (finish-Safe o o.error p _ others c refl)
  ]

  timeout-Safe : (p.finished ≡ true) ⊎ (1 ≤ others) → Safe p others (on_timeout platform o p)
  unfolding on_timeout
  timeout-Safe idle =
      either-Safe (not (is_some o.error) && not p.finished) p others _ (quiet p)
        (λ _. finish-Safe o _ p p others c refl) (λ _. quiet-Safe p p others c refl idle)

  -- The handler of an operation that carries the probe on needs no other; the others do not end it.
  handle-Safe :
      (operation : Pending)
      → (p.finished ≡ true) ⊎ (1 ≤ carries operation + others)
      → Safe p others (handle platform operation o p)
  unfolding handle on_resolved on_connected on_tls_connected cancel_on_executor
  handle-Safe timer idle =
      timeout-Safe (elim idle [ inl over ↦ inl over | inr more ↦ inr (omega (arith, more)) ])
  handle-Safe resolving idle = unless_over-Safe platform o _ p others c open_stream-Safe
  handle-Safe connecting idle = unless_over-Safe platform o _ p others c connected-Safe
  handle-Safe tls_connecting idle = unless_over-Safe platform o _ p others c tls_connected-Safe
  handle-Safe handshaking idle = handshake-Safe
  handle-Safe cancelling idle = finish-Safe o _ p p others c refl

  pub guarded-Pays :
      (operation : Pending)
      → (p.finished ≡ true) ⊎ (1 ≤ carries operation + others)
      → Pays p others (guarded platform operation o p)
  unfolding guarded
  guarded-Pays operation idle =
      either-Safe (leaves_start o.throws) p others _ _ (λ _. raises-Safe p p others refl)
        (λ _. handle-Safe operation idle)
