-- ===== src/Admin/Auth/Access.antt =====
-- src/admin/AuthService.cpp: which tokens are let in.
use model_lib.Base.Bytes.{Bytes, bytes_eq, is_empty}
use model_lib.Base.Map.{lookup, insert, erase, Distinct, lookup-insert, lookup-erase}
use model_lib.Base.{
  ℕ, ◌+◌, ◌<◌, ◌≡◌, ◌≢◌, ◌↔◌, ◌⊎◌, ◌==◌, ◌&&◌, refl, ap, subst, inl, inr, Bool, true, false, List,
  Option, none, some, arith, length, Bool-cases, Option-cases,
}
use model_lib.Admin.Auth.{
  Auth, Options, PasswordCrypto, Readings, token, check_rate_limit, purge, make_room,
  insert_session, issue_session, clear_failures, limited, finish_login, login, extend_session,
  authorize, logout, to_hex, verify, compare_candidate,
}
use model_lib.Admin.Auth.Users.{AdminUser, find_admin_user}
use model_lib.Admin.Auth.Sessions.{purge_missing, lookup-purge}
use model_lib.Admin.Auth.Bounds.{WellFormed}

-- A session that has not expired at this time.
abbrev pub Live : ℕ → Bytes → Auth → Type 0
Live now name s = (e : ℕ) × (lookup name s.sessions ≡ some e) × (now < e)

lookup-purge_live :
    (now : ℕ) (name : Bytes) (e : ℕ) (s : Auth)
    → Distinct s.sessions
    → lookup name s.sessions ≡ some e
    → now < e
    → lookup name (purge now s.sessions) ≡ some e
lookup-purge_live now name e s d found alive =
    ground (arith, lookup-purge now name e s.sessions d found, alive)

Live-purge :
    (now : ℕ) (name : Bytes) (t : ℕ) (s : Auth)
    → Distinct s.sessions
    → lookup name (purge now s.sessions) ≡ some t
    → Live now name s
Live-purge now name t s d found = elim (Option-cases (lookup name s.sessions)) [
  | inl e ↦ absurd (let gone = purge_missing now name s.sessions e in cc (gone, found))
  | inr (u, e) ↦ (u, e, ground (arith, lookup-purge now name u s.sessions d e, found))
]

-- A token is authorized exactly when it is not empty and its session has not expired; and then
-- its session runs for a whole lifetime from this call on.
pub authorize_iff :
    (o : Options) (now : ℕ) (name : Bytes) (s : Auth)
    → WellFormed o s
    → (((authorize o now name s).1 ≡ true) ↔ ((is_empty name ≡ false) × Live now name s))
      × (((authorize o now name s).1 ≡ false)
          ⊎ (lookup name (authorize o now name s).0.sessions ≡ some (now + o.lifetime)))
unfolding authorize extend_session
authorize_iff o now name s w = elim (Bool-cases (is_empty name)) [
  | inl e ↦ rw e ((λ h. absurd (cc h), λ (h, l). absurd (cc h)), inl refl)
  | inr e ↦ elim (Option-cases (lookup name (purge now s.sessions))) [
    | inl f ↦
        rw (e, f)
          (
            (
              λ h. absurd (cc h),
              λ (h, (t, at, alive)).
                  absurd (
                    let there = lookup-purge_live now name t s w.distinct at alive in
                    cc (there, f)),
            ),
            inl refl,
          )
    | inr (t, f) ↦
        rw (e, f)
          (
            (λ h. (refl, Live-purge now name t s w.distinct f), λ h. refl),
            inr (
                ground (
                  arith,
                  lookup-insert name name (now + o.lifetime) (purge now s.sessions),
                  bytes_eq.beq_iff name name,
                )),
          )
  ]
]

-- After `logout` a token is not authorized at any time.
pub authorize-logout :
    (o : Options) (now : ℕ) (name : Bytes) (s : Auth)
    → (authorize o now name (logout name s)).1 ≡ false
unfolding authorize logout extend_session
authorize-logout o now name s =
    let gone : lookup name (erase name s.sessions) ≡ none =
      ground (arith, lookup-erase name name s.sessions, bytes_eq.beq_iff name name) in
    let purged = purge_missing now name (erase name s.sessions) gone in
    elim (Bool-cases (is_empty name)) [ inl e ↦ rw e refl | inr e ↦ rw (e, purged) refl ]

issued_session :
    (o : Options) (now : ℕ) (random : Option Bytes) (s : Auth) (t : Bytes)
    → (issue_session o now random s).1 ≡ token t
    → lookup t (issue_session o now random s).0.sessions ≡ some (now + o.lifetime)
unfolding issue_session insert_session
issued_session o now random s t got = elim (Option-cases random) [
  | inl e ↦ absurd (let h = rw e at got in cc h)
  | inr (bytes, e) ↦
      let h : token (to_hex bytes) ≡ token t = rw e at got in
      let same : to_hex bytes ≡ t = cc h in
      let kept = make_room o.maximum_active_sessions (purge now s.sessions) in
      rw e (
        subst
          (λ k. lookup k (insert (to_hex bytes) (now + o.lifetime) kept) ≡ some (now + o.lifetime))
          same
          (ground (
            arith,
            lookup-insert (to_hex bytes) (to_hex bytes) (now + o.lifetime) kept,
            bytes_eq.beq_iff (to_hex bytes) (to_hex bytes),
          )))
]

compared :
    (crypto : PasswordCrypto) (hash : Bytes) (c : Option Bytes)
    → compare_candidate crypto hash c ≡ some true
    → c ≡ some hash
unfolding compare_candidate
compared crypto hash none h = absurd (cc h)
compared crypto hash (some c) h =
    let both : (length c == length hash && crypto.memcmp_zero c hash) ≡ true = cc h in
    let sizes : length c ≡ length hash = ground (arith, both) in
    ap some ((crypto.memcmp_zero_iff c hash sizes).0 (ground (arith, both)))

-- The password of a user, as the record keeps it.
abbrev pub Authentic : PasswordCrypto → Bytes → Bytes → List AdminUser → Type 0
Authentic crypto username password users =
    (u : AdminUser) × (find_admin_user username users ≡ some u)
    × (crypto.derive password u.password_salt u.password_iterations (length u.password_hash)
        ≡ some u.password_hash)

verified :
    (crypto : PasswordCrypto) (username password : Bytes) (users : List AdminUser)
    → verify crypto password (find_admin_user username users) ≡ some true
    → Authentic crypto username password users
unfolding verify
verified crypto username password users h = elim (Option-cases (find_admin_user username users)) [
  | inl e ↦ absurd (let g = rw e at h in cc g)
  | inr (u, e) ↦ (u, e, compared crypto u.password_hash _ (rw e at h))
]

finished :
    (o : Options) (recorded issued : ℕ) (ip : Bytes) (random : Option Bytes) (v : Option Bool)
    (s : Auth) (t : Bytes)
    → (finish_login o recorded issued ip random v s).1 ≡ token t
    → (v ≡ some true)
      × (lookup t (finish_login o recorded issued ip random v s).0.sessions
          ≡ some (issued + o.lifetime))
unfolding finish_login
finished o recorded issued ip random none s t got = absurd (cc got)
finished o recorded issued ip random (some false) s t got = absurd (cc got)
finished o recorded issued ip random (some true) s t got =
    (refl, issued_session o issued random (clear_failures ip s) t got)

-- When `login` returns a token, the address was not locked, the derived password is the one on
-- record for the user of that name, and the token has a session of a whole lifetime.
pub login_sound :
    (crypto : PasswordCrypto) (o : Options) (at : Readings) (random : Option Bytes)
    (username password ip : Bytes) (s : Auth) (t : Bytes)
    → (login crypto o at random username password ip s).1 ≡ token t
    → (check_rate_limit at.checked ip s.buckets ≢ none)
      × Authentic crypto username password s.users
      × (lookup t (login crypto o at random username password ip s).0.sessions
          ≡ some (at.issued + o.lifetime))
unfolding login limited
login_sound crypto o at random username password ip s t got =
    elim (Option-cases (check_rate_limit at.checked ip s.buckets)) [
      | inl e ↦ absurd (let h = rw e at got in cc h)
      | inr (m, e) ↦
          let done =
            finished o at.recorded at.issued ip random
              (verify crypto password (find_admin_user username s.users)) (record s { buckets = m })
              t (rw e at got) in
          rw e (λ h. absurd (cc h), verified crypto username password s.users done.0, done.1)
    ]
