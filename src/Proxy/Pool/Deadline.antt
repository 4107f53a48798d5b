-- ===== src/Proxy/Pool/Deadline.antt =====
-- src/proxy/BackendConnectionPool.cpp: the deadline that the reaper sleeps until.
use model_lib.Base.Bytes.{Bytes, bytes_eq}
use model_lib.Base.Map.{Map, Entries}
use model_lib.Base.{
  ℕ, ◌≤◌, ◌≡◌, refl, inl, inr, List, [], ◌∷◌, Option, none, some, arith, Bool-cases, ltb, All,
  All-mono,
}
use model_lib.Proxy.Pool.{
  IdleConnection, Pool, earlier, recompute, next_or_earliest, earliest, earliest_all,
}

-- A deadline is known that is not after this time.
abbrev pub Known : Option ℕ → ℕ → Type 0
Known next d = (n : ℕ) × (next ≡ some n) × (n ≤ d)

abbrev pub AllKnown : Option ℕ → List IdleConnection → Type 0
AllKnown next cs = All (λ (c : IdleConnection). Known next c.expires_at) cs

earlier_self : (e : ℕ) (next : Option ℕ) → Known (earlier e next) e
unfolding earlier
earlier_self e none = (e, refl, omega arith)
earlier_self e (some n) = elim (Bool-cases (ltb e n)) [
  | inl f ↦ rw f (e, refl, omega arith)
  | inr f ↦ rw f (n, refl, ground (arith, f))
]

earlier-Known : (e d : ℕ) (next : Option ℕ) → Known next d → Known (earlier e next) d
unfolding earlier
earlier-Known e d none (n, h, le) = absurd (cc h)
earlier-Known e d (some m) (n, h, le) = elim (Bool-cases (ltb e m)) [
  | inl f ↦ rw f (e, refl, ground (arith, f, h, le))
  | inr f ↦ rw f (m, refl, ground (arith, h, le))
]

earliest-Known :
    (d : ℕ) (cs : List IdleConnection) (next : Option ℕ) → Known next d → Known (earliest cs next) d
unfolding earliest
earliest-Known d [] next h = h
earliest-Known d (c ∷ cs) next h =
    earlier-Known c.expires_at d (earliest cs next) (earliest-Known d cs next h)

earliest_all-Known :
    (d : ℕ) (m : Map Bytes (List IdleConnection)) (next : Option ℕ)
    → Known next d
    → Known (earliest_all m next) d
unfolding earliest_all
earliest_all-Known d [] next h = h
earliest_all-Known d ((k, cs) ∷ m) next h =
    earliest_all-Known d m (earliest cs next) (earliest-Known d cs next h)

earliest-AllKnown : (cs : List IdleConnection) (next : Option ℕ) → AllKnown (earliest cs next) cs
unfolding earliest
earliest-AllKnown [] next = tt
earliest-AllKnown (c ∷ cs) next = (
  earlier_self c.expires_at (earliest cs next),
  All-mono _ _ (λ (b : IdleConnection). earlier-Known c.expires_at b.expires_at (earliest cs next))
      cs (earliest-AllKnown cs next),
)

earliest_all-AllKnown :
    (m : Map Bytes (List IdleConnection)) (next : Option ℕ)
    → Entries (λ k cs. AllKnown (earliest_all m next) cs) m
unfolding earliest_all
earliest_all-AllKnown [] next = tt
earliest_all-AllKnown ((k, cs) ∷ m) next = (
  All-mono _ _ (λ (b : IdleConnection). earliest_all-Known b.expires_at m (earliest cs next)) cs
      (earliest-AllKnown cs next),
  earliest_all-AllKnown m (earliest cs next),
)

-- When the reaper wakes and knows no deadline, the one that it then sleeps until is known and is
-- not after the deadline of any idle connection.
pub recompute_due :
    (p : Pool)
    → p.next_expiration ≡ none
    → Entries (λ k cs. AllKnown (recompute p).next_expiration cs) p.idle
unfolding recompute next_or_earliest
recompute_due p unknown = rw unknown (earliest_all-AllKnown p.idle none)
