-- ===== src/Admin/Auth/Calls.antt =====
-- src/admin/AuthService.cpp: every call keeps the bounds.
use model_lib.Base.Bytes.{Bytes, bytes_eq, is_empty}
use model_lib.Base.Map.{
  Map, lookup, insert, Distinct, insert-Distinct, erase-Entries, erase-Distinct,
}
use model_lib.Base.{
  ℕ, ◌+◌, ◌≤◌, ◌<◌, ◌≡◌, refl, inl, inr, ◌==◌, List, [], ◌∷◌, Option, none, some, arith, length,
  Bool-cases,
}
use model_lib.Admin.Auth.{
  Auth, Options, PasswordCrypto, Readings, purge, clear_failures, finish_login, login, store_admin,
  first_admin, create_first_admin, extend_session, authorize, logout, verify, derive_admin,
  valid_credentials,
}
use model_lib.Admin.Auth.Users.{AdminUser, find_admin_user, admin_user_count}
use model_lib.Admin.Auth.Sessions.{purge-Distinct, length-purge, length-erase}
use model_lib.Admin.Auth.Bounds.{
  WellFormed, Checked, issue-WellFormed, finish-WellFormed, limited-WellFormed,
}

-- One call, with its effect on the service.
pub data Step (crypto : PasswordCrypto) (o : Options) : Auth → Auth → Type 0 where
  logs_in :
      {s : Auth} (at : Readings) (random : Option Bytes) (username password ip : Bytes)
      → Step crypto o s (login crypto o at random username password ip s).0
  creates :
      {s : Auth} (at : Readings) (salt random : Option Bytes) (username password ip : Bytes)
      → Step crypto o s (create_first_admin crypto o at salt random username password ip s).0
  authorizes : {s : Auth} (now : ℕ) (name : Bytes) → Step crypto o s (authorize o now name s).0
  logs_out : {s : Auth} (name : Bytes) → Step crypto o s (logout name s)

store_admin-WellFormed :
    (o : Options) (issued : ℕ) (random : Option Bytes) (ip : Bytes) (us : Option (List AdminUser))
    (s : Auth)
    → 0 < o.maximum_active_sessions
    → Checked ip s.buckets
    → WellFormed o s
    → WellFormed o (store_admin o issued random ip us s).0
unfolding store_admin clear_failures
store_admin-WellFormed o issued random ip none s room c w = w
store_admin-WellFormed o issued random ip (some us) s room c w =
    issue-WellFormed o issued random _ room record {
      distinct = w.distinct;
      capped = w.capped;
      five = erase-Entries _ ip s.buckets c.within;
    }

first_admin-WellFormed :
    (crypto : PasswordCrypto) (o : Options) (issued : ℕ) (salt random : Option Bytes)
    (username password ip : Bytes) (s : Auth)
    → 0 < o.maximum_active_sessions
    → Checked ip s.buckets
    → WellFormed o s
    → WellFormed o (first_admin crypto o issued salt random username password ip s).0
unfolding first_admin
first_admin-WellFormed crypto o issued salt random username password ip s room c w =
    elim (Bool-cases (admin_user_count s.users == 0)) [
      | inl e ↦ rw e (
          store_admin-WellFormed o issued random ip
            (derive_admin crypto username password salt s.users) s room c w)
      | inr e ↦ rw e w
    ]

extend-WellFormed :
    (found : Option ℕ) (o : Options) (now : ℕ) (name : Bytes) (m : Map Bytes ℕ)
    → lookup name m ≡ found
    → Distinct m
    → length m ≤ o.maximum_active_sessions
    → Distinct (extend_session found o now name m).0
      × (length (extend_session found o now name m).0 ≤ o.maximum_active_sessions)
unfolding extend_session lookup insert
extend-WellFormed none o now name m e d h = (d, h)
extend-WellFormed (some t) o now name m e d h = (
  insert-Distinct name _ m d,
  omega (arith, h, length-insert_found name (now + o.lifetime) t m e),
)
  where
    length-insert_found :
        (k : Bytes) (v t : ℕ) (m : Map Bytes ℕ)
        → lookup k m ≡ some t
        → length (insert k v m) ≡ length m
    length-insert_found k v t [] found = absurd (cc found)
    length-insert_found k v t ((j, w) ∷ m) found =
        ground (arith, found, length-insert_found k v t m)

authorize-WellFormed :
    (o : Options) (now : ℕ) (name : Bytes) (s : Auth)
    → WellFormed o s
    → WellFormed o (authorize o now name s).0
unfolding authorize
authorize-WellFormed o now name s w = elim (Bool-cases (is_empty name)) [
  | inl e ↦ rw e w
  | inr e ↦
      let live = purge now s.sessions in
      let kept =
        extend-WellFormed (lookup name live) o now name live refl
          (purge-Distinct now s.sessions w.distinct)
          (omega (arith, length-purge now s.sessions, w.capped)) in
      rw e record { distinct = kept.0; capped = kept.1; five = w.five }
]

-- With a cap above zero, every call keeps the service well formed: a token has one session, the
-- sessions are no more than the cap, and no address has more than five failures on record.
pub call-WellFormed :
    (crypto : PasswordCrypto) (o : Options) {s t : Auth}
    → 0 < o.maximum_active_sessions
    → Step crypto o s t
    → WellFormed o s
    → WellFormed o t
unfolding login create_first_admin logout
call-WellFormed crypto o {s} room (logs_in at random username password ip) w =
    limited-WellFormed o at.checked ip s
      (finish_login o at.recorded at.issued ip random
        (verify crypto password (find_admin_user username s.users)))
      w
      (λ t.
        finish-WellFormed o at.recorded at.issued ip random
          (verify crypto password (find_admin_user username s.users)) t room)
call-WellFormed crypto o {s} room (creates at salt random username password ip) w =
    elim (Bool-cases (valid_credentials username password)) [
      | inl e ↦ rw e (
          limited-WellFormed o at.checked ip s
            (first_admin crypto o at.issued salt random username password ip) w
            (λ t.
              first_admin-WellFormed crypto o at.issued salt random username password ip t room))
      | inr e ↦ rw e w
    ]
call-WellFormed crypto o {s} room (authorizes now name) w = authorize-WellFormed o now name s w
call-WellFormed crypto o {s} room (logs_out name) w = record {
  distinct = erase-Distinct name s.sessions w.distinct;
  capped = omega (arith, length-erase name s.sessions, w.capped);
  five = w.five;
}
