-- ===== src/Logging/Lines/Reading.antt =====
-- src/logging/LogManager.cpp: `json_escape` against a reader of JSON strings.
use model_lib.Base.Bytes.{Bytes}
use model_lib.Base.{
  ℕ, zero, suc, ◌+◌, ◌-◌, ◌*◌, ◌/◌, ◌%◌, ◌<◌, ◌≤◌, ◌≡◌, refl, inl, inr, ◌∙◌, ap, sym, subst, Bool,
  true, false, ◌&&◌, ◌||◌, [], ◌∷◌, ◌++◌, Option, none, some, arith, ltb, leb, ◌==◌, if◌then◌else◌,
  All, Bool-cases,
}
use mathlib.Core.List.{append_assoc}
use model_lib.Logging.Lines.{hexadecimal, escape_other, escape_byte, json_escape}

-- A reader of what follows an opening quotation mark: in the text, behind a backslash, or with so
-- many hexadecimal digits left of a number.
pub data Mode : Type 0 where
  text escaped : Mode
  digits : ℕ → ℕ → Mode

pub data Next : Type 0 where
  closes refuses : Next
  gives : ℕ → Next
  goes : Mode → Next

unfoldable pub digit_value : ℕ → Option ℕ
digit_value c =
    if leb b'0' c && leb c b'9'
    then some (c - b'0')
    else (if leb b'a' c && leb c b'f' then some (c - b'a' + 10) else none)

-- A number stands for one byte, as long as it is in ASCII.
unfoldable pub next_digit : ℕ → ℕ → Option ℕ → Next
next_digit left value none = refuses
next_digit zero value (some d) =
    if ltb (value * 16 + d) 0x80 then gives (value * 16 + d) else refuses
next_digit (suc left) value (some d) = goes (digits left (value * 16 + d))

unfoldable pub next : Mode → ℕ → Next
next text c =
    if c == b'"'
    then closes
    else (if c == b'\\' then goes escaped else (if ltb c 0x20 then refuses else gives c))
next escaped c =
    if c == b'"' || c == b'\\' || c == b'/'
    then gives c
    else (if c == b'b'
        then gives 8
        else (if c == b'f'
            then gives 12
            else (if c == b'n'
                then gives 10
                else (if c == b'r'
                    then gives 13
                    else (if c == b't'
                        then gives 9
                        else (if c == b'u' then goes (digits 3 0) else refuses))))))
next (digits left value) c = next_digit left value (digit_value c)

abbrev mode_after : Next → Mode
mode_after (goes m) = m
mode_after _ = text

unfoldable pub put : ℕ → Option (Bytes × Bytes) → Option (Bytes × Bytes)
put c none = none
put c (some (s, rest)) = some (c ∷ s, rest)

unfoldable pub took : Next → Bytes → Option (Bytes × Bytes) → Option (Bytes × Bytes)
took closes rest later = some ([], rest)
took refuses rest later = none
took (gives c) rest later = put c later
took (goes m) rest later = later

-- The text up to the closing quotation mark, and what stands behind that.
unfoldable pub read_string : Mode → Bytes → Option (Bytes × Bytes)
read_string m [] = none
read_string m (c ∷ s) =
    let n = next m c in let later = read_string (mode_after n) s in took n s later

-- A byte that ends no line and is no other control character.
abbrev pub Plain : ℕ → Type 0
Plain c = 0x20 ≤ c

digit_hexadecimal : (d : ℕ) → d < 16 → digit_value (hexadecimal d) ≡ some d
unfolding digit_value hexadecimal
digit_hexadecimal d small = elim (Bool-cases (ltb d 10)) [
  | inl e ↦ ground (arith, e)
  | inr e ↦ ground (arith, e, small)
]

read_digits :
    (c : ℕ) (t : Bytes)
    → c < 0x20
    → read_string (digits 1 0) (hexadecimal (c / 16 % 16) ∷ hexadecimal (c % 16) ∷ t)
      ≡ put c (read_string text t)
unfolding read_string next took next_digit
read_digits c t small =
    let high = digit_hexadecimal (c / 16 % 16) (omega arith) in
    let low = digit_hexadecimal (c % 16) (omega arith) in
    let whole : (0 * 16 + c / 16 % 16) * 16 + c % 16 ≡ c = omega (arith, small) in
    let ascii : ltb c 0x80 ≡ true = ground (arith, small) in rw (high, low, whole, ascii) refl

read_escape_other :
    (c : ℕ) (t : Bytes)
    → (c == b'"') ≡ false
    → (c == b'\\') ≡ false
    → read_string text (escape_other c ++ t) ≡ put c (read_string text t)
unfolding escape_other read_string next took next_digit digit_value
read_escape_other c t quote slash = elim (Bool-cases (ltb c 0x20)) [
  | inr fine ↦ rw (fine, quote, slash, fine) refl
  | inl control ↦ rw control (read_digits c t (ground (arith, control)))
]

abbrev ReadsBack : Bytes → ℕ → Type 0
ReadsBack t c = read_string text (escape_byte c ++ t) ≡ put c (read_string text t)

-- The characters with an escape of their own.
read_special : (d c : ℕ) (t : Bytes) → ReadsBack t d → (c == d) ≡ true → ReadsBack t c
read_special d c t reads same = subst (ReadsBack t) (sym (ground (arith, same))) reads

read_escape_byte : (c : ℕ) (t : Bytes) → ReadsBack t c
unfolding escape_byte read_string next took
read_escape_byte c t = elim (Bool-cases (c == b'"')) [
  | inl e ↦ read_special b'"' c t refl e
  | inr quote ↦ elim (Bool-cases (c == b'\\')) [
    | inl e ↦ read_special b'\\' c t refl e
    | inr slash ↦ elim (Bool-cases (c == 8)) [
      | inl e ↦ read_special 8 c t refl e
      | inr e8 ↦ elim (Bool-cases (c == 12)) [
        | inl e ↦ read_special 12 c t refl e
        | inr e12 ↦ elim (Bool-cases (c == 10)) [
          | inl e ↦ read_special 10 c t refl e
          | inr e10 ↦ elim (Bool-cases (c == 13)) [
            | inl e ↦ read_special 13 c t refl e
            | inr e13 ↦ elim (Bool-cases (c == 9)) [
              | inl e ↦ read_special 9 c t refl e
              | inr e9 ↦
                  rw (quote, slash, e8, e12, e10, e13, e9) (read_escape_other c t quote slash)
            ]
          ]
        ]
      ]
    ]
  ]
]

escape_other-Plain : (c : ℕ) → All Plain (escape_other c)
unfolding escape_other hexadecimal
escape_other-Plain c = elim (Bool-cases (ltb c 0x20)) [
  | inl e ↦
      rw e (
        omega arith,
        (omega arith, (omega arith, (omega arith, (ground arith, (ground arith, tt))))),
      )
  | inr e ↦ rw e (ground (arith, e), tt)
]

if-Plain : (b : Bool) (s t : Bytes) → All Plain s → All Plain t → All Plain (if b then s else t)
if-Plain true s t hs ht = hs
if-Plain false s t hs ht = ht

escape_byte-Plain : (c : ℕ) → All Plain (escape_byte c)
unfolding escape_byte
escape_byte-Plain c =
    let two : (d : ℕ) → 0x20 ≤ d → All Plain (b'\\' ∷ d ∷ []) =
      λ d printed. (omega arith, (printed, tt)) in
    if-Plain (c == b'"') _ _ (two b'"' (omega arith)) (
      if-Plain (c == b'\\') _ _ (two b'\\' (omega arith)) (
        if-Plain (c == 8) _ _ (two b'b' (omega arith)) (
          if-Plain (c == 12) _ _ (two b'f' (omega arith)) (
            if-Plain (c == 10) _ _ (two b'n' (omega arith)) (
              if-Plain (c == 13) _ _ (two b'r' (omega arith))
                (if-Plain (c == 9) _ _ (two b't' (omega arith)) (escape_other-Plain c)))))))

pub append-Plain : (s t : Bytes) → All Plain s → All Plain t → All Plain (s ++ t)
append-Plain [] t hs ht = ht
append-Plain (c ∷ s) t hs ht = (hs.0, append-Plain s t hs.1 ht)

pub json_escape-Plain : (s : Bytes) → All Plain (json_escape s)
unfolding json_escape
json_escape-Plain [] = tt
json_escape-Plain (c ∷ s) =
    append-Plain (escape_byte c) (json_escape s) (escape_byte-Plain c) (json_escape-Plain s)

-- A reader of JSON gets each text back that `json_escape` wrote, and ends it at the quotation mark
-- that the line has behind it, whatever the text and the rest of the line are.
pub read_string-json_escape :
    (s rest : Bytes) → read_string text (json_escape s ++ b'"' ∷ rest) ≡ some (s, rest)
unfolding json_escape
read_string-json_escape [] rest = unfold read_string next took in refl
read_string-json_escape (c ∷ s) rest =
    ap (read_string text) (append_assoc (escape_byte c) (json_escape s) (b'"' ∷ rest))
    ∙ read_escape_byte c (json_escape s ++ b'"' ∷ rest)
    ∙ ap (put c) (read_string-json_escape s rest)
    ∙ (unfold put in refl)
