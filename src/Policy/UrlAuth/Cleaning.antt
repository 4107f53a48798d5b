-- ===== src/Policy/UrlAuth/Cleaning.antt =====
-- src/policy/UrlAuthenticator.cpp: the target that goes to the backend has no credential.
use mathlib.Core.List.{append_assoc}
use model_lib.Base.Bytes.{
  Bytes, is_empty, cut, contains, walk, components, walk_lacks, walk-plain, walk-cons,
}
use model_lib.Base.{ℕ, ◌≡◌, refl, ap, ◌∙◌, Bool, false, List, [], ◌∷◌, ◌++◌, arith, All, All-append}
use model_lib.Policy.UrlAuth.Query.{
  ParsedQuery, parameter_name, is_auth_key, is_signing, take_parameter, take_all, no_parameters,
  parse_query, join,
}

-- A parameter that is retained, whatever stands before it.
record Clean (p : Bytes) : Type 0 where
  filled : is_empty p ≡ false
  whole : contains b'&' p ≡ false
  other : is_auth_key (parameter_name p (cut b'=' p)) ≡ false
  unsigned : is_signing (parameter_name p (cut b'=' p)) ≡ false

take_parameter-Clean :
    (q : ParsedQuery) (p : Bytes)
    → contains b'&' p ≡ false
    → All Clean q.retained_parameters
    → All Clean (take_parameter q p).retained_parameters
unfolding take_parameter
take_parameter-Clean q p whole h = ground (arith, All-append Clean q.retained_parameters (p ∷ []) h)

take_all-Clean :
    (q : ParsedQuery) (ps : List (Bytes × Bool))
    → All (λ (p : Bytes × Bool). contains b'&' p.0 ≡ false) ps
    → All Clean q.retained_parameters
    → All Clean (take_all q ps).retained_parameters
unfolding take_all
take_all-Clean q [] whole h = h
take_all-Clean q ((p, last) ∷ ps) whole h =
    take_all-Clean (take_parameter q p) ps whole.1 (take_parameter-Clean q p whole.0 h)

take-Clean :
    (q : ParsedQuery) (p : Bytes)
    → Clean p
    → take_parameter q p ≡ record q { retained_parameters = q.retained_parameters ++ p ∷ [] }
unfolding take_parameter
take-Clean q p c = ground arith

join-filled : (d : ℕ) (r : Bytes) (ps : List Bytes) → is_empty (join ((d ∷ r) ∷ ps)) ≡ false
unfolding join
join-filled d r [] = refl
join-filled d r (p ∷ ps) = refl

components-lack :
    (query : Bytes) → All (λ (p : Bytes × Bool). contains b'&' p.0 ≡ false) (components b'&' query)
unfolding components
components-lack [] = tt
components-lack (c ∷ s) = walk_lacks b'&' [] (c ∷ s) refl

-- The joined parameters are read back one by one.
take_all-join :
    (q : ParsedQuery) (p : Bytes) (ps : List Bytes)
    → All Clean (p ∷ ps)
    → take_all q (walk b'&' [] (join (p ∷ ps)))
      ≡ record q { retained_parameters = q.retained_parameters ++ p ∷ ps }
unfolding join take_all
take_all-join q p [] (c, h) = rw (walk-plain b'&' [] p c.whole) (take-Clean q p c)
take_all-join q p ((d ∷ r) ∷ ps) (c, h) =
    rw (walk-cons b'&' [] p (join ((d ∷ r) ∷ ps)) c.whole, join-filled d r ps)
      (ap (λ taken. take_all taken (walk b'&' [] (join ((d ∷ r) ∷ ps)))) (take-Clean q p c)
        ∙ take_all-join _ (d ∷ r) ps h
        ∙ ap (λ kept. record q { retained_parameters = kept })
            (append_assoc q.retained_parameters (p ∷ []) ((d ∷ r) ∷ ps)))
take_all-join q p ([] ∷ ps) (c, (e, h)) = absurd (cc e.filled)

read_back :
    (ps : List Bytes)
    → All Clean ps
    → take_all no_parameters (components b'&' (join ps))
      ≡ record { auth_key = []; retained_parameters = ps; auth_key_count = 0 }
unfolding components
read_back [] h = unfold join take_all in refl
read_back ([] ∷ ps) (c, h) = absurd (cc c.filled)
read_back ((d ∷ r) ∷ ps) h = rw (join-filled d r ps) (take_all-join no_parameters (d ∷ r) ps h)

-- Cleaning leaves no credential, and a second cleaning leaves all as it is: the parameters that are
-- retained, joined and parsed again, are retained, and no `auth_key` is among them.
pub parse_query-join :
    (query : Bytes)
    → parse_query (join (parse_query query).retained_parameters) ≡ record {
      auth_key = [];
      retained_parameters = (parse_query query).retained_parameters;
      auth_key_count = 0;
    }
unfolding parse_query
parse_query-join query =
    read_back _ (take_all-Clean no_parameters (components b'&' query) (components-lack query) tt)
