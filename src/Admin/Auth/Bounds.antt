-- ===== src/Admin/Auth/Bounds.antt =====
-- src/admin/AuthService.cpp: how much the service keeps.
use model_lib.Base.Bytes.{Bytes, bytes_eq}
use model_lib.Base.Map.{
  Map, lookup, erase, Distinct, insert-Distinct, Entries, insert-Entries, erase-Entries,
}
use model_lib.Base.{
  ℕ, ◌+◌, ◌≤◌, ◌<◌, ◌≡◌, refl, subst, inl, inr, Bool, true, false, ◌||◌, ◌==◌, [], ◌∷◌, Option,
  none, some, arith, length, Bool-cases, Option-cases, leb,
}
use model_lib.Admin.Auth.{
  Auth, Options, FailureBucket, Reply, window_over, check_bucket, check_rate_limit, fail_once,
  record_failure, purge, make_room, insert_session, issue_session, clear_failures, limited,
  finish_login, to_hex,
}
use model_lib.Admin.Auth.Sessions.{
  purge-Distinct, length-purge, length-insert, length-make_room, make_room-Distinct,
}

-- Sessions within the cap, one to a token, and no bucket beyond the five failures that lock it.
pub record WellFormed (o : Options) (s : Auth) : Type 0 where
  pub distinct : Distinct s.sessions
  pub capped : length s.sessions ≤ o.maximum_active_sessions
  pub five : Entries (λ ip (b : FailureBucket). b.failures ≤ 5) s.buckets

-- The buckets as `check_rate_limit` leaves them: that of the address, if any, is open.
pub record Checked (ip : Bytes) (buckets : Map Bytes FailureBucket) : Type 0 where
  pub within : Entries (λ ip (b : FailureBucket). b.failures ≤ 5) buckets
  pub open_bucket : (b : FailureBucket) → lookup ip buckets ≡ some b → b.failures < 5

lookup-erase_same : (k : Bytes) (m : Map Bytes FailureBucket) → lookup k (erase k m) ≡ none
unfolding lookup erase
lookup-erase_same k [] = refl
lookup-erase_same k ((j, v) ∷ m) = ground (arith, lookup-erase_same k m)

pub check-Checked :
    (now : ℕ) (ip : Bytes) (m n : Map Bytes FailureBucket)
    → Entries (λ ip (b : FailureBucket). b.failures ≤ 5) m
    → check_rate_limit now ip m ≡ some n
    → Checked ip n
unfolding check_rate_limit check_bucket
check-Checked now ip m n five passed = elim (Option-cases (lookup ip m)) [
  | inl e ↦
      let h : some m ≡ some n = rw e at passed in
      let same : m ≡ n = cc h in
      subst (Checked ip) same
        record { within = five; open_bucket = λ b found. absurd (cc (e, found)) }
  | inr (c, e) ↦ elim (Bool-cases (window_over now c)) [
    | inl over ↦
        let h : some (erase ip m) ≡ some n = rw (e, over) at passed in
        let same : erase ip m ≡ n = cc h in
        subst (Checked ip) same record {
          within = erase-Entries _ ip m five;
          open_bucket = λ b found. absurd (cc (lookup-erase_same ip m, found));
        }
    | inr within_window ↦ elim (Bool-cases (leb 5 c.failures)) [
      | inl locked ↦ absurd (let h = rw (e, within_window, locked) at passed in cc h)
      | inr free ↦
          let h : some m ≡ some n = rw (e, within_window, free) at passed in
          let same : m ≡ n = cc h in
          subst (Checked ip) same
            record { within = five; open_bucket = λ b found. below c b e found free }
    ]
  ]
]
  where
    below :
        (c b : FailureBucket)
        → lookup ip m ≡ some c
        → lookup ip m ≡ some b
        → leb 5 c.failures ≡ false
        → b.failures < 5
    below c b e found free =
        let same : c ≡ b = cc (e, found) in
        let bound : leb 5 b.failures ≡ false = subst (λ x. leb 5 x.failures ≡ false) same free in
        ground (arith, bound)

fail_once-five :
    (now : ℕ) (o : Option FailureBucket)
    → ((b : FailureBucket) → o ≡ some b → b.failures < 5)
    → (fail_once now o).failures ≤ 5
unfolding fail_once
fail_once-five now none h = omega arith
fail_once-five now (some b) h = elim (Bool-cases (b.failures == 0 || window_over now b)) [
  | inl e ↦ rw e (omega arith)
  | inr e ↦ rw e (omega (arith, h b refl))
]

record_failure-five :
    (now : ℕ) (ip : Bytes) (m : Map Bytes FailureBucket)
    → Checked ip m
    → Entries (λ ip (b : FailureBucket). b.failures ≤ 5) (record_failure now ip m)
unfolding record_failure
record_failure-five now ip m c =
    insert-Entries _ ip (fail_once now (lookup ip m)) m
      (fail_once-five now (lookup ip m) c.open_bucket) c.within

pub issue-WellFormed :
    (o : Options) (now : ℕ) (random : Option Bytes) (s : Auth)
    → 0 < o.maximum_active_sessions
    → WellFormed o s
    → WellFormed o (issue_session o now random s).0
unfolding issue_session insert_session
issue-WellFormed o now random s room w =
    let live = purge now s.sessions in
    let small : length live ≤ o.maximum_active_sessions =
      omega (arith, length-purge now s.sessions, w.capped) in
    let kept = make_room o.maximum_active_sessions live in
    let one =
      make_room-Distinct o.maximum_active_sessions live
        (purge-Distinct now s.sessions w.distinct) in
    let fits = length-make_room o.maximum_active_sessions live room small in
    elim (Option-cases random) [
      | inl e ↦ rw e record { distinct = one; capped = omega (arith, fits); five = w.five }
      | inr (bytes, e) ↦ rw e record {
        distinct = insert-Distinct (to_hex bytes) _ kept one;
        capped = omega (arith, fits, length-insert (to_hex bytes) (now + o.lifetime) kept);
        five = w.five;
      }
    ]

pub finish-WellFormed :
    (o : Options) (recorded issued : ℕ) (ip : Bytes) (random : Option Bytes) (v : Option Bool)
    (s : Auth)
    → 0 < o.maximum_active_sessions
    → Checked ip s.buckets
    → WellFormed o s
    → WellFormed o (finish_login o recorded issued ip random v s).0
unfolding finish_login clear_failures
finish-WellFormed o recorded issued ip random none s room c w = w
finish-WellFormed o recorded issued ip random (some false) s room c w = record {
  distinct = w.distinct;
  capped = w.capped;
  five = record_failure-five recorded ip s.buckets c;
}
finish-WellFormed o recorded issued ip random (some true) s room c w =
    issue-WellFormed o issued random _ room record {
      distinct = w.distinct;
      capped = w.capped;
      five = erase-Entries _ ip s.buckets c.within;
    }

pub limited-WellFormed :
    (o : Options) (now : ℕ) (ip : Bytes) (s : Auth) (continue : Auth → Auth × Reply)
    → WellFormed o s
    → ((t : Auth) → Checked ip t.buckets → WellFormed o t → WellFormed o (continue t).0)
    → WellFormed o (limited (check_rate_limit now ip s.buckets) s continue).0
unfolding limited
limited-WellFormed o now ip s continue w next =
    elim (Option-cases (check_rate_limit now ip s.buckets)) [
      | inl e ↦ rw e w
      | inr (m, e) ↦
          let c = check-Checked now ip s.buckets m w.five e in
          rw e (
            next (record s { buckets = m }) c
              (record { distinct = w.distinct; capped = w.capped; five = c.within }))
    ]
