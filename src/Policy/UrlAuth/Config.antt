-- ===== src/Policy/UrlAuth/Config.antt =====
-- src/policy/UrlAuthenticator.cpp: which configurations the constructor takes.
use model_lib.Base.Bytes.{Bytes, equal, equal_iff, is_alnum}
use model_lib.Base.{
  ℕ, ◌≤◌, ◌<◌, ◌≡◌, ◌≢◌, ◌⊎◌, ◌↔◌, refl, inl, inr, Bool, true, false, not, ◌||◌, List, [], ◌∷◌,
  none, arith, length, all, any, All, All-mono, leb, ◌==◌,
}
use model_lib.Policy.UrlAuth.{
  UrlAuthSpec, UrlAuthUriSpec, every, valid_key, valid_path, check_rules, rule_key, check_spec,
}

-- A key is left out, or 6 to 128 letters and digits.
abbrev pub KeyFit : Bytes → Type 0
KeyFit key = (key ≡ []) ⊎ ((6 ≤ length key) × (length key ≤ 128) × All (λ c. is_alnum c ≡ true) key)

-- A path begins with a slash, is no longer than 8192 bytes, and has no control byte, space, `?`, `#`
-- or delete.
abbrev pub PathFit : Bytes → Type 0
PathFit [] = ⊥
PathFit (c ∷ s) =
    (c ≡ b'/')
    × (length (c ∷ s) ≤ 8192)
    × All (λ d. (0x20 < d) × (d ≢ 0x7F) × (d ≢ b'?') × (d ≢ b'#')) (c ∷ s)

abbrev pub Different : UrlAuthUriSpec → UrlAuthUriSpec → Type 0
Different r q = (q.path ≢ r.path) ⊎ (q.match ≢ r.match)

-- No two rules have the same path and way to match.
abbrev pub Unrepeated : List UrlAuthUriSpec → Type 0
Unrepeated [] = Unit
Unrepeated (r ∷ rs) = All (Different r) rs × Unrepeated rs

all_iff : (p : ℕ → Bool) (s : Bytes) → (all p s ≡ true) ↔ All (λ c. p c ≡ true) s
all_iff p [] = (λ h. tt, λ h. refl)
all_iff p (c ∷ s) =
    (λ h. ground (arith, (all_iff p s).0), λ h. ground (arith, (all_iff p s).1 h.1, h.0))

valid_key_iff : (key : Bytes) → (valid_key key ≡ true) ↔ KeyFit key
unfolding valid_key
valid_key_iff [] = (λ h. inl refl, λ h. refl)
valid_key_iff (c ∷ s) = (
  λ h. inr (ground arith, ground arith, (all_iff is_alnum (c ∷ s)).0 (ground arith)),
  λ h. elim h [
    | inl e ↦ absurd cc
    | inr (low, high, letters) ↦
        let spelled = (all_iff is_alnum (c ∷ s)).1 letters in ground (arith, low, high, spelled)
  ],
)

path_spelled :
    (s : Bytes)
    → ((any (λ d. d == b'?' || d == b'#') s ≡ false)
        × (all (λ d. not (leb d 0x20 || d == 0x7F)) s ≡ true))
      ↔ All (λ d. (0x20 < d) × (d ≢ 0x7F) × (d ≢ b'?') × (d ≢ b'#')) s
path_spelled [] = (λ h. tt, λ h. (refl, refl))
path_spelled (c ∷ s) = (
  λ h. (ground (arith, h.0, h.1), (path_spelled s).0 (ground (arith, h.0), ground (arith, h.1))),
  λ h.
      let rest = (path_spelled s).1 h.1 in
      (ground (arith, h.0, rest.0), ground (arith, h.0, rest.1)),
)

valid_path_iff : (path : Bytes) → (valid_path path ≡ true) ↔ PathFit path
unfolding valid_path
valid_path_iff [] = (λ h. cc, λ h. absurd h)
valid_path_iff (c ∷ s) = (
  λ h.
      (ground arith, ground arith, (path_spelled (c ∷ s)).0 (ground (arith, h), ground (arith, h))),
  λ h. let spelled = (path_spelled (c ∷ s)).1 h.2 in ground (arith, h.0, h.1, spelled.0, spelled.1),
)

rule_key_iff : (r q : UrlAuthUriSpec) → (equal (rule_key q) (rule_key r) ≡ false) ↔ Different r q
unfolding rule_key equal
rule_key_iff r q = (
  λ h. ground (arith, equal_iff q.path r.path, h),
  λ h. ground (arith, equal_iff q.path r.path, h),
)

-- A rule among the others, with the keys seen before them.
abbrev Fresh : List Bytes → UrlAuthUriSpec → Type 0
Fresh seen q = PathFit q.path × (any (equal (rule_key q)) seen ≡ false)

not_seen :
    (seen : List Bytes) (r : UrlAuthUriSpec) (rs : List UrlAuthUriSpec)
    → All (Fresh seen) rs
    → All (Different r) rs
    → All (Fresh (rule_key r ∷ seen)) rs
not_seen seen r [] fresh other = tt
not_seen seen r (q ∷ rs) (f, fresh) (d, other) =
    ((f.0, rw ((rule_key_iff r q).1 d, f.1) refl), not_seen seen r rs fresh other)

check_rules_sound :
    (seen : List Bytes) (rs : List UrlAuthUriSpec)
    → check_rules seen rs ≡ none
    → All (Fresh seen) rs × Unrepeated rs
unfolding check_rules
check_rules_sound seen [] h = (tt, tt)
check_rules_sound seen (r ∷ rs) h =
    let later = check_rules_sound (rule_key r ∷ seen) rs (ground (arith, h)) in
    (
      (
        ((valid_path_iff r.path).0 (ground (arith, h)), ground (arith, h)),
        All-mono (Fresh (rule_key r ∷ seen)) (Fresh seen) (λ q f. (f.0, ground (arith, f.1))) rs
            later.0,
      ),
      (
        All-mono (Fresh (rule_key r ∷ seen)) (Different r)
            (λ q f. (rule_key_iff r q).0 (ground (arith, f.1))) rs later.0,
        later.1,
      ),
    )

check_rules_complete :
    (seen : List Bytes) (rs : List UrlAuthUriSpec)
    → All (Fresh seen) rs
    → Unrepeated rs
    → check_rules seen rs ≡ none
unfolding check_rules
check_rules_complete seen [] fresh other = refl
check_rules_complete seen (r ∷ rs) (f, fresh) (d, other) =
    let later = check_rules_complete (rule_key r ∷ seen) rs (not_seen seen r rs fresh d) other in
    let path = (valid_path_iff r.path).1 f.0 in ground (arith, later, path, f.1)

-- The constructor takes a configuration exactly when its validity is 1 to 31536000 seconds, each key
-- is left out or 6 to 128 letters and digits, there is a key if it is enabled, there are at most 200
-- rules, whose paths begin with a slash, are no longer than 8192 bytes and are free of control bytes,
-- spaces, `?` and `#`, no two rules have the same path and way to match, and there is a rule if it is
-- enabled for specified paths only.
pub check_spec_iff :
    (s : UrlAuthSpec)
    → (check_spec s ≡ none) ↔ (
        (0 < s.validity_seconds)
        × (s.validity_seconds ≤ 31536000)
        × KeyFit s.primary_key
        × KeyFit s.backup_key
        × ((s.enabled ≡ false) ⊎ (s.primary_key ≢ []) ⊎ (s.backup_key ≢ []))
        × (length s.protected_uris ≤ 200)
        × All (λ (r : UrlAuthUriSpec). PathFit r.path) s.protected_uris
        × Unrepeated s.protected_uris
        × ((s.enabled ≡ false) ⊎ (s.scope ≡ every) ⊎ (s.protected_uris ≢ [])))
unfolding check_spec
check_spec_iff s = (
  λ h.
      let rules = check_rules_sound [] s.protected_uris (ground (arith, h)) in
      (
        ground (arith, h),
        ground (arith, h),
        (valid_key_iff s.primary_key).0 (ground (arith, h)),
        (valid_key_iff s.backup_key).0 (ground (arith, h)),
        ground (arith, h),
        ground (arith, h),
        All-mono (Fresh []) (λ r. PathFit r.path) (λ q f. f.0) s.protected_uris rules.0,
        rules.1,
        ground (arith, h),
      ),
  λ (low, high, primary, backup, some_key, few, paths, other, some_rule).
      let rules =
        check_rules_complete [] s.protected_uris
          (All-mono (λ r. PathFit r.path) (Fresh []) (λ q f. (f, refl)) s.protected_uris paths)
          other in
      let first = (valid_key_iff s.primary_key).1 primary in
      let second = (valid_key_iff s.backup_key).1 backup in
      ground (arith, low, high, first, second, some_key, few, rules, some_rule),
)
