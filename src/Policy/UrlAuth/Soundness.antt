-- ===== src/Policy/UrlAuth/Soundness.antt =====
-- src/policy/UrlAuthenticator.cpp: what a request must carry to be let through.
use model_lib.Base.Bytes.{Bytes, decimal, is_digit, is_empty, cut, cut_sound}
use model_lib.Base.{
  ℕ, ◌+◌, ◌≤◌, ◌<◌, ◌^◌, ◌≡◌, ◌≢◌, refl, ap, subst, ◌∙◌, ◌⊎◌, inl, inr, true, not, ◌||◌, [], ◌∷◌,
  ◌++◌, Option, none, some, arith, ◌==◌, length, all, Bool-cases, Option-cases, ==_iff,
}
use model_lib.Policy.UrlAuth.Query.{parse_query, cleaned_target}
use model_lib.Policy.UrlAuth.Time.{ℤ, pos, negsuc, fresh}
use model_lib.Policy.UrlAuth.{
  UrlAuthSpec, UrlAuthResult, Crypto, AuthKey, to_hex, protects, split_key, well_formed,
  signing_text, md5_hex, digest_matches, matches_key, accepts, authenticate_query,
  authenticate_parts, split_found, split_target, authenticate, denied,
}

-- The time is within the validity, and at most 300 seconds ahead of the clock.
abbrev pub InWindow : ℕ → ℕ → ℤ → Type 0
InWindow timestamp validity (negsuc n) = ⊥
InWindow timestamp validity (pos now) =
    (timestamp ≤ now + 300) × (now ≤ timestamp + validity) × (timestamp + validity < 2 ^ 63)

fresh-InWindow :
    (timestamp validity : ℕ) (now : ℤ)
    → validity < 2 ^ 32
    → fresh timestamp validity now ≡ true
    → InWindow timestamp validity now
unfolding fresh
fresh-InWindow t v (pos now) small h = ground arith
fresh-InWindow t v (negsuc n) small h = cc

abbrev pub dashed : AuthKey → Bytes
dashed k = k.timestamp ++ b'-' ∷ (k.random ++ b'-' ∷ (k.uid ++ b'-' ∷ k.digest))

split_key_sound : (key : Bytes) (k : AuthKey) → split_key key ≡ some k → key ≡ dashed k
unfolding split_key
split_key_sound key k h = elim (Option-cases (cut b'-' key)) [
  | inl e ↦ absurd (let f = rw e at h in cc)
  | inr (tr, e) ↦
      let f = rw e at h in
      elim (Option-cases (cut b'-' tr.1)) [
        | inl e₂ ↦ absurd (let g = rw e₂ at f in cc)
        | inr (ru, e₂) ↦
            let g = rw e₂ at f in
            elim (Option-cases (cut b'-' ru.1)) [
              | inl e₃ ↦ absurd (let i = rw e₃ at g in cc)
              | inr (ud, e₃) ↦
                  let i = rw e₃ at g in
                  ground (
                    arith,
                    cut_sound b'-' key tr.0 tr.1 e,
                    cut_sound b'-' tr.1 ru.0 ru.1 e₂,
                    cut_sound b'-' ru.1 ud.0 ud.1 e₃,
                  )
            ]
      ]
]

split_target_sound :
    (target query : Bytes)
    → (split_target target).1 ≡ some query
    → target ≡ (split_target target).0 ++ b'?' ∷ query
unfolding split_target
split_target_sound target query h = elim (Option-cases (cut b'?' target)) [
  | inl missing ↦ absurd (let f = rw (missing, split_found) at h in cc)
  | inr (pq, found) ↦
      let f = rw (found, split_found) at h in
      ground (arith, found, cut_sound b'?' target pq.0 pq.1 found)
]

module _ (crypto : Crypto) where
  -- The credential `k` of a request for `path` is signed with the key `key`.
  abbrev pub IsSigned : Bytes → AuthKey → Bytes → Type 0
  IsSigned path k key =
      (key ≢ [])
      × ((d : Bytes) × (crypto.md5 (signing_text path k key) ≡ some d)
          × (length d ≡ 16)
          × (k.digest ≡ to_hex d))

  md5_hex_sound :
      (text e : Bytes)
      → md5_hex crypto text ≡ some e
      → (d : Bytes) × (crypto.md5 text ≡ some d) × (length d ≡ 16) × (e ≡ to_hex d)
  unfolding md5_hex
  md5_hex_sound text e h = elim (Option-cases (crypto.md5 text)) [
    | inl missing ↦ absurd (let f = rw missing at h in cc)
    | inr (d, found) ↦
        let f = rw found at h in
        elim (Bool-cases (length d == 16)) [
          | inl sized ↦ (d, found, (==_iff _ _).0 sized, (let g = rw sized at f in cc))
          | inr other ↦ absurd (let g = rw other at f in cc)
        ]
  ]

  digest_matches_sound : (a b : Bytes) → digest_matches crypto a b ≡ true → a ≡ b
  unfolding digest_matches
  digest_matches_sound a b h = grind (arith, crypto.memcmp_zero_iff a b)

  matches_key_sound :
      (path key : Bytes) (k : AuthKey) → matches_key crypto path k key ≡ true → IsSigned path k key
  unfolding matches_key
  matches_key_sound path [] k h = absurd (cc)
  matches_key_sound path (c ∷ key) k h =
      elim (Option-cases (md5_hex crypto (signing_text path k (c ∷ key)))) [
        | inl missing ↦ absurd (let f = rw missing at h in cc)
        | inr (e, found) ↦
            let f = rw found at h in
            let (d, digest, size, hex) = md5_hex_sound (signing_text path k (c ∷ key)) e found in
            ((λ x. cc), (d, digest, size, digest_matches_sound k.digest e f ∙ hex))
      ]

  -- What lets a request through: one parameter `auth_key` of four fields, of which the first is a
  -- time of ten digits in the window and the last the digest, under a configured key, of the path
  -- and the other three.
  pub record Authorized (s : UrlAuthSpec) (path query : Bytes) (now : ℤ) : Type 0 where
    pub credential : AuthKey
    pub key : Bytes
    pub single : (parse_query query).auth_key_count ≡ 1
    pub dashes : (parse_query query).auth_key ≡ dashed credential
    pub ten_digits : (length credential.timestamp ≡ 10) × (all is_digit credential.timestamp ≡ true)
    pub filled : (credential.random ≢ []) × (credential.uid ≢ [])
    pub timely : InWindow (decimal 0 credential.timestamp) s.validity_seconds now
    pub configured : (key ≡ s.primary_key) ⊎ (key ≡ s.backup_key)
    pub signed : IsSigned path credential key

  well_formed_sound :
      (k : AuthKey)
      → well_formed k ≡ true
      → (length k.timestamp ≡ 10)
        × (all is_digit k.timestamp ≡ true)
        × (k.random ≢ [])
        × (k.uid ≢ [])
  unfolding well_formed
  well_formed_sound k h = ground arith

  accepts_sound :
      (s : UrlAuthSpec) (path query : Bytes) (now : ℤ) (k : AuthKey)
      → s.validity_seconds < 2 ^ 32
      → (parse_query query).auth_key_count ≡ 1
      → (parse_query query).auth_key ≡ dashed k
      → accepts crypto s now path k ≡ true
      → Authorized s path query now
  unfolding accepts
  accepts_sound s path query now k small single dashes h =
      let formed : well_formed k ≡ true = ground arith in
      let timed : fresh (decimal 0 k.timestamp) s.validity_seconds now ≡ true = ground arith in
      let keyed : (matches_key crypto path k s.primary_key ≡ true)
          ⊎ (matches_key crypto path k s.backup_key ≡ true) =
        ground arith in
      let form = well_formed_sound k formed in
      let window = fresh-InWindow (decimal 0 k.timestamp) s.validity_seconds now small timed in
      elim keyed [
        | inl primary ↦ record {
          credential = k;
          key = s.primary_key;
          single = single;
          dashes = dashes;
          ten_digits = (form.0, form.1);
          filled = (form.2, form.3);
          timely = window;
          configured = inl refl;
          signed = matches_key_sound path s.primary_key k primary;
        }
        | inr backup ↦ record {
          credential = k;
          key = s.backup_key;
          single = single;
          dashes = dashes;
          ten_digits = (form.0, form.1);
          filled = (form.2, form.3);
          timely = window;
          configured = inr refl;
          signed = matches_key_sound path s.backup_key k backup;
        }
      ]

  query_sound :
      (s : UrlAuthSpec) (path query : Bytes) (now : ℤ)
      → s.validity_seconds < 2 ^ 32
      → (authenticate_query crypto s now path (parse_query query)).allowed ≡ true
      → Authorized s path query now
        × ((authenticate_query crypto s now path (parse_query query)).rewritten_target
            ≡ cleaned_target path (parse_query query).retained_parameters)
  unfolding authenticate_query
  query_sound s path query now small h =
      let q = parse_query query in
      elim (Bool-cases (not (q.auth_key_count == 1) || is_empty q.auth_key)) [
        | inl bad ↦ absurd (let f = rw bad at h in cc)
        | inr good ↦
            let f = rw good at h in
            elim (Option-cases (split_key q.auth_key)) [
              | inl missing ↦ absurd (let g = rw missing at f in cc)
              | inr (k, found) ↦
                  let g = rw found at f in
                  elim (Bool-cases (accepts crypto s now path k)) [
                    | inr refused ↦ absurd (let i = rw refused at g in cc)
                    | inl accepted ↦ (
                      accepts_sound s path query now k small (ground arith)
                          (split_key_sound q.auth_key k found) accepted,
                      rw (good, found, accepted),
                    )
                  ]
            ]
      ]

  parts_sound :
      (s : UrlAuthSpec) (path : Bytes) (o : Option Bytes) (now : ℤ)
      → s.validity_seconds < 2 ^ 32
      → s.enabled ≡ true
      → protects s path ≡ true
      → (authenticate_parts crypto s now path o).allowed ≡ true
      → (query : Bytes) × (o ≡ some query)
        × Authorized s path query now
        × ((authenticate_parts crypto s now path o).rewritten_target
            ≡ cleaned_target path (parse_query query).retained_parameters)
  unfolding authenticate_parts
  parts_sound s path none now small on covered h =
      let closed : authenticate_parts crypto s now path none ≡ denied = ground arith in
      absurd (let f = subst (λ (r : UrlAuthResult). r.allowed ≡ true) closed h in cc)
  parts_sound s path (some query) now small on covered h =
      let opened : authenticate_parts crypto s now path (some query)
          ≡ authenticate_query crypto s now path (parse_query query) =
        ground arith in
      let found =
        query_sound s path query now small
          (subst (λ (r : UrlAuthResult). r.allowed ≡ true) opened h) in
      (query, refl, found.0, ap (λ (r : UrlAuthResult). r.rewritten_target) opened ∙ found.1)

  -- When authentication is enabled, of the requests for a protected path it lets through only those
  -- with a query that authorizes them, and they go on without the credential: the rewritten target
  -- is the path with the retained parameters.
  pub authenticate_sound :
      (s : UrlAuthSpec) (target : Bytes) (now : ℤ)
      → s.validity_seconds < 2 ^ 32
      → s.enabled ≡ true
      → protects s (split_target target).0 ≡ true
      → (authenticate crypto s target now).allowed ≡ true
      → (query : Bytes) × (target ≡ (split_target target).0 ++ b'?' ∷ query)
        × Authorized s (split_target target).0 query now
        × ((authenticate crypto s target now).rewritten_target
            ≡ cleaned_target (split_target target).0 (parse_query query).retained_parameters)
  unfolding authenticate
  authenticate_sound s target now small on covered h =
      let (query, found, credentials, rewritten) =
        parts_sound s (split_target target).0 (split_target target).1 now small on covered h in
      (query, split_target_sound target query found, credentials, rewritten)
