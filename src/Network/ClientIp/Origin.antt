-- ===== src/Network/ClientIp/Origin.antt =====
-- src/network/ClientIpResolver.cpp: where the address that `resolve` answers comes from.
use model_lib.Base.Bytes.{Bytes, codes, is_empty}
use model_lib.Base.{
  ℕ, zero, suc, ◌≡◌, ◌≢◌, ◌⊎◌, refl, sym, ap, subst, inl, inr, ◌∙◌, true, false, List, [], ◌∷◌,
  ◌++◌, none, some, ◌==◌, >>=_some, take, map, All, Bool-cases, Option-cases,
}
use model_lib.Policy.Cidr.{Address, Range}
use model_lib.Network.ClientIp.{
  Boost, Header, split_commas, put_front, reversed_onto, parse_ip, parse_chain, is_trusted, follow,
  end_of_chain, read_header, first_named, read_headers, resolve,
}

reversed_append :
    {A : Type 0} (xs ys zs : List A) → reversed_onto xs ys ++ zs ≡ reversed_onto xs (ys ++ zs)
unfolding reversed_onto
reversed_append [] ys zs = refl
reversed_append (x ∷ xs) ys zs = reversed_append xs (x ∷ ys) zs

reversed_twice :
    {A : Type 0} (xs ys : List A) → reversed_onto (reversed_onto xs ys) [] ≡ reversed_onto ys xs
unfolding reversed_onto
reversed_twice [] ys = refl
reversed_twice (x ∷ xs) ys = reversed_twice xs (x ∷ ys)

reversed_split :
    {A : Type 0} (xs ys zs : List A) (y : A)
    → reversed_onto (xs ++ y ∷ ys) zs ≡ reversed_onto ys [] ++ y ∷ reversed_onto xs zs
unfolding reversed_onto
reversed_split [] ys zs y = sym (reversed_append ys [] (y ∷ zs))
reversed_split (x ∷ xs) ys zs y = reversed_split xs ys (x ∷ zs) y

reversed_All :
    {A : Type 0} (P : A → Type 0) (xs ys : List A)
    → All P xs
    → All P ys
    → All P (reversed_onto xs ys)
unfolding reversed_onto
reversed_All P [] ys hx hy = hy
reversed_All P (x ∷ xs) ys hx hy = reversed_All P xs (x ∷ ys) hx.1 (hx.0, hy)

reversed_cons :
    {A : Type 0} (x : A) (xs ys : List A)
    → (z : A) × (zs : List A) × (reversed_onto (x ∷ xs) ys ≡ z ∷ zs)
unfolding reversed_onto
reversed_cons x [] ys = (x, ys, refl)
reversed_cons x (y ∷ xs) ys = reversed_cons y xs (x ∷ ys)

split_commas_part :
    (value : Bytes) → (part : Bytes) × (parts : List Bytes) × (split_commas value ≡ part ∷ parts)
unfolding split_commas put_front
split_commas_part [] = ([], [], refl)
split_commas_part (c ∷ s) =
    let (part, parts, split) = split_commas_part s in
    elim (Bool-cases (c == b',')) [
      | inl comma ↦ rw comma ([], split_commas s, refl)
      | inr other ↦ rw (other, split) (c ∷ part, parts, refl)
    ]

module _ (boost : Boost) (ranges : List Range) where
  abbrev pub Trusted : Address → Type 0
  Trusted a = is_trusted boost ranges a ≡ true

  -- The chain has trusted addresses behind this one, which is its first or is not trusted.
  pub record Rightmost (chain : List Address) (a : Address) : Type 0 where
    pub front : List Address
    pub back : List Address
    pub parts : chain ≡ front ++ a ∷ back
    pub behind : All Trusted back
    pub ends : (front ≡ []) ⊎ (is_trusted boost ranges a ≡ false)

  -- A header that says nothing: empty, no address, or a chain with a part that is none.
  abbrev pub Silent : Header → Type 0
  Silent h =
      (is_empty h.1 ≡ true)
      ⊎ ((boost.iequals h.0 (codes "X-Forwarded-For") ≡ true)
          × (parse_chain boost 64 (split_commas h.1) ≡ none))
      ⊎ ((boost.iequals h.0 (codes "X-Forwarded-For") ≡ false) × (parse_ip boost h.1 ≡ none))

  -- Where the answer comes from when the peer is trusted: the first header that is not silent.
  pub data Named (peer : Address) : List Header → Address → Type 0 where
    nobody : Named peer [] peer
    passed :
        {h : Header} {hs : List Header} {a : Address}
        → Silent h
        → Named peer hs a
        → Named peer (h ∷ hs) a
    chained :
        {h : Header} {hs : List Header} {a : Address} (addresses : List Address)
        → boost.iequals h.0 (codes "X-Forwarded-For") ≡ true
        → map (λ part. parse_ip boost part) (take 64 (split_commas h.1)) ≡ map some addresses
        → Rightmost addresses a
        → Named peer (h ∷ hs) a
    single :
        {h : Header} {hs : List Header} {a : Address}
        → boost.iequals h.0 (codes "X-Forwarded-For") ≡ false
        → parse_ip boost h.1 ≡ some a
        → Named peer (h ∷ hs) a

  -- The walk over trusted addresses, seen from the end of the chain.
  record Stops (chain : List Address) (a : Address) : Type 0 where
    seen : List Address
    left : List Address
    whole : chain ≡ seen ++ a ∷ left
    passed_over : All Trusted seen
    stop : (left ≡ []) ⊎ (is_trusted boost ranges a ≡ false)

  follow-Stops :
      (current : Address) (rest : List Address)
      → Stops (current ∷ rest) (follow boost ranges current rest)
  unfolding follow
  follow-Stops current [] = record {
    seen = [];
    left = [];
    whole = refl;
    passed_over = tt;
    stop = inl refl;
  }
  follow-Stops current (next ∷ rest) = elim (Bool-cases (is_trusted boost ranges current)) [
    | inl trusted ↦
        let s = follow-Stops next rest in
        rw trusted record {
          seen = current ∷ s.seen;
          left = s.left;
          whole = ap (λ xs. current ∷ xs) s.whole;
          passed_over = (trusted, s.passed_over);
          stop = s.stop;
        }
    | inr stranger ↦ rw stranger record {
      seen = [];
      left = next ∷ rest;
      whole = refl;
      passed_over = tt;
      stop = inr stranger;
    }
  ]

  end_Rightmost :
      (chain : List Address) (a : Address) → Stops (reversed_onto chain []) a → Rightmost chain a
  unfolding reversed_onto
  end_Rightmost chain a s = record {
    front = reversed_onto s.left [];
    back = reversed_onto s.seen [];
    parts =
        sym (reversed_twice chain [])
        ∙ ap (λ xs. reversed_onto xs []) s.whole
        ∙ reversed_split s.seen s.left [] a;
    behind = reversed_All Trusted s.seen [] s.passed_over tt;
    ends = elim s.stop [
      | inl none_left ↦ inl (ap (λ xs. reversed_onto xs []) none_left)
      | inr stranger ↦ inr stranger
    ];
  }

  follow_on :
      (peer next : Address) (rest : List Address)
      → Trusted peer
      → Stops (next ∷ rest) (follow boost ranges peer (next ∷ rest))
  unfolding follow
  follow_on peer next rest trusted = rw trusted (follow-Stops next rest)

  follow-Rightmost :
      (peer first : Address) (chain : List Address)
      → Trusted peer
      → Rightmost (first ∷ chain) (follow boost ranges peer (reversed_onto (first ∷ chain) []))
  follow-Rightmost peer first chain trusted =
      let (next, rest, turned) = reversed_cons first chain [] in
      end_Rightmost (first ∷ chain) (follow boost ranges peer (reversed_onto (first ∷ chain) [])) (
        subst (λ xs. Stops xs (follow boost ranges peer xs)) (sym turned)
          (follow_on peer next rest trusted))

  parse_chain_parts :
      (room : ℕ) (parts : List Bytes) (chain : List Address)
      → parse_chain boost room parts ≡ some chain
      → map (λ part. parse_ip boost part) (take room parts) ≡ map some chain
  unfolding parse_chain
  parse_chain_parts zero parts chain made = let same : [] ≡ chain = cc made in ap (map some) same
  parse_chain_parts (suc room) [] chain made = let same : [] ≡ chain = cc made in ap (map some) same
  parse_chain_parts (suc room) (part ∷ parts) chain made =
      let (a, first, g) = >>=_some (parse_ip boost part) _ chain made in
      let (rest, others, e) = >>=_some (parse_chain boost room parts) _ chain g in
      let same : a ∷ rest ≡ chain = cc e in
      let behind = parse_chain_parts room parts rest others in
      rw (first, behind) (ap (map some) same)

  -- Splitting gives a part at least.
  chain_filled : (value : Bytes) → parse_chain boost 64 (split_commas value) ≢ some []
  unfolding parse_chain
  chain_filled value empty =
      let (part, parts, split) = split_commas_part value in
      let made : parse_chain boost 64 (part ∷ parts) ≡ some [] =
        subst (λ xs. parse_chain boost 64 xs ≡ some []) split empty in
      let (a, _, g) = >>=_some (parse_ip boost part) _ [] made in
      let (rest, _, e) = >>=_some (parse_chain boost 63 parts) _ [] g in cc e

  read_header-Named :
      (peer : Address) (h : Header) (hs : List Header) (later : Address)
      → Trusted peer
      → Named peer hs later
      → Named peer (h ∷ hs) (first_named boost peer (read_header boost ranges peer h) later)
  unfolding read_header first_named end_of_chain
  read_header-Named peer h hs later trusted others = elim (Bool-cases (is_empty h.1)) [
    | inl empty ↦ rw empty (passed (inl empty) others)
    | inr full ↦ elim (Bool-cases (boost.iequals h.0 (codes "X-Forwarded-For"))) [
      | inl forwarded ↦ elim (Option-cases (parse_chain boost 64 (split_commas h.1))) [
        | inl broken ↦ rw (full, forwarded, broken) (passed (inr (inl (forwarded, broken))) others)
        | inr ([], made) ↦ absurd (chain_filled h.1 made)
        | inr (a ∷ chain, made) ↦
            rw (full, forwarded, made)
              (chained (a ∷ chain) forwarded
                (parse_chain_parts 64 (split_commas h.1) (a ∷ chain) made)
                (follow-Rightmost peer a chain trusted))
      ]
      | inr other ↦ elim (Option-cases (parse_ip boost h.1)) [
        | inl missing ↦ rw (full, other, missing) (passed (inr (inr (other, missing))) others)
        | inr (a, found) ↦ rw (full, other, found) (single other found)
      ]
    ]
  ]

  read_headers-Named :
      (peer : Address) (hs : List Header)
      → Trusted peer
      → Named peer hs (read_headers boost ranges peer hs)
  unfolding read_headers
  read_headers-Named peer [] trusted = nobody
  read_headers-Named peer (h ∷ hs) trusted =
      read_header-Named peer h hs (read_headers boost ranges peer hs) trusted
        (read_headers-Named peer hs trusted)

  -- A peer that is not trusted is answered whatever the headers say. Behind a trusted peer the first
  -- header that is not silent decides: an address that stands alone, or of the addresses in
  -- X-Forwarded-For, of which the first 64 count, the last that is not trusted, and the first when
  -- all behind it are; with no such header the peer itself is answered.
  pub resolve-Named :
      (peer : Address) (hs : List Header)
      → (a : Address) × (resolve boost ranges peer hs ≡ boost.to_string a)
        × (((is_trusted boost ranges peer ≡ false) × (a ≡ peer))
            ⊎ ((is_trusted boost ranges peer ≡ true) × Named peer hs a))
  unfolding resolve
  resolve-Named peer hs = elim (Bool-cases (is_trusted boost ranges peer)) [
    | inl trusted ↦
        rw trusted
          (read_headers boost ranges peer hs, refl, inr (refl, read_headers-Named peer hs trusted))
    | inr stranger ↦ rw stranger (peer, refl, inl (refl, refl))
  ]
