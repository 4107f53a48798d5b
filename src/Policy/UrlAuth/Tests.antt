-- ===== src/Policy/UrlAuth/Tests.antt =====
-- Runs of the authenticator, and its theorems at a concrete request. The digest is a constant.
use model_lib.Base.Bytes.{Bytes, codes, equal, equal_iff, decimal, cut, components, walk, strip}
use model_lib.Base.{
  ◌≤◌, ◌<◌, ◌≡◌, ◌≢◌, ◌⊎◌, ◌↔◌, refl, true, false, [], ◌∷◌, ◌++◌, some, none, arith, length, All,
}
use model_lib.Policy.UrlAuth.Query.{parse_query, cleaned_target, join}
use model_lib.Policy.UrlAuth.Time.{pos, fresh}
use model_lib.Policy.UrlAuth.Cleaning.{parse_query-join}
use model_lib.Policy.UrlAuth.Config.{KeyFit, PathFit, Unrepeated, check_spec_iff}
use model_lib.Policy.UrlAuth.Soundness.{Authorized, authenticate_sound}
use model_lib.Policy.UrlAuth.{
  UrlAuthSpec, UrlAuthUriSpec, specified, every, prefix, Crypto, protects, split_target,
  authenticate, denied, check_spec, check_rules, rule_key, duplicate_rule, valid_key, valid_path,
  split_key, accepts, well_formed, matches_key, md5_hex, digest_matches, lower_hex_digest, to_hex,
}

abbrev constant_digest : Crypto
constant_digest = record {
  md5 = λ _. some (1 ∷ 2 ∷ 3 ∷ 4 ∷ 5 ∷ 6 ∷ 7 ∷ 8 ∷ 9 ∷ 10 ∷ 11 ∷ 12 ∷ 13 ∷ 14 ∷ 15 ∷ 255 ∷ []);
  memcmp_zero = equal;
  memcmp_zero_iff = λ a b _. equal_iff a b;
}

abbrev videos : UrlAuthSpec
videos = record {
  enabled = true;
  scope = specified;
  primary_key = codes "secret1";
  backup_key = [];
  validity_seconds = 1800;
  protected_uris = record { path = codes "/video/"; match = prefix } ∷ [];
}

abbrev target : Bytes
target = codes "/video/a.mp4?x=1&auth_key=1700000000-r-u-0102030405060708090a0b0c0d0e0fff&time=3&y"

accepted :
    (authenticate constant_digest videos target (pos 1700000100)).rewritten_target
    ≡ codes "/video/a.mp4?x=1&y"
unfolding authenticate protects split_target parse_query components walk cut cleaned_target
    split_key accepts well_formed matches_key md5_hex digest_matches lower_hex_digest to_hex decimal
    strip equal fresh
accepted = refl

let_through : (authenticate constant_digest videos target (pos 1700000100)).allowed ≡ true
unfolding authenticate protects split_target parse_query components walk cut cleaned_target
    split_key accepts well_formed matches_key md5_hex digest_matches lower_hex_digest to_hex decimal
    strip equal fresh
let_through = refl

expired : authenticate constant_digest videos target (pos 1700001801) ≡ denied
unfolding authenticate protects split_target parse_query components walk cut cleaned_target
    split_key accepts well_formed matches_key md5_hex digest_matches lower_hex_digest to_hex decimal
    strip equal fresh
expired = refl

covered : protects videos (split_target target).0 ≡ true
unfolding protects split_target cut strip
covered = refl

authenticate_sound_example :
    (query : Bytes) × (target ≡ (split_target target).0 ++ b'?' ∷ query)
    × Authorized constant_digest videos (split_target target).0 query (pos 1700000100)
    × ((authenticate constant_digest videos target (pos 1700000100)).rewritten_target
        ≡ cleaned_target (split_target target).0 (parse_query query).retained_parameters)
authenticate_sound_example =
    authenticate_sound constant_digest videos target (pos 1700000100) (omega arith) refl covered
      let_through

abbrev signed_query : Bytes
signed_query = codes "x=1&auth_key=1-2-3-4&sign=5&y"

parse_query-join_example :
    parse_query (join (parse_query signed_query).retained_parameters) ≡ record {
      auth_key = [];
      retained_parameters = (parse_query signed_query).retained_parameters;
      auth_key_count = 0;
    }
parse_query-join_example = parse_query-join signed_query

abbrev rule : UrlAuthUriSpec
rule = record { path = codes "/video/"; match = prefix }

taken : check_spec videos ≡ none
unfolding check_spec valid_key valid_path
taken = refl

check_spec_iff_example : (check_spec videos ≡ none) ↔ (
    (0 < videos.validity_seconds)
    × (videos.validity_seconds ≤ 31536000)
    × KeyFit videos.primary_key
    × KeyFit videos.backup_key
    × ((videos.enabled ≡ false) ⊎ (videos.primary_key ≢ []) ⊎ (videos.backup_key ≢ []))
    × (length videos.protected_uris ≤ 200)
    × All (λ (r : UrlAuthUriSpec). PathFit r.path) videos.protected_uris
    × Unrepeated videos.protected_uris
    × ((videos.enabled ≡ false) ⊎ (videos.scope ≡ every) ⊎ (videos.protected_uris ≢ [])))
check_spec_iff_example = check_spec_iff videos

repeated : check_spec (record videos { protected_uris = rule ∷ rule ∷ [] }) ≡ some duplicate_rule
unfolding check_spec valid_key valid_path check_rules rule_key equal
repeated = refl
