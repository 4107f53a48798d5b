-- ===== src/Logging/Recent/Written.antt =====
-- src/logging/LogManager.cpp: what `recent_lines` gets of the events that the writer wrote.
use model_lib.Base.Bytes.{Bytes}
use model_lib.Base.{
  ℕ, zero, suc, ◌+◌, ◌-◌, ◌≤◌, ◌<◌, ◌^◌, ◌≡◌, refl, sym, ap, ◌∙◌, inl, inr, false, ◌||◌, List, [],
  ◌∷◌, ◌++◌, some, arith, ltb, ◌==◌, if◌then◌else◌, length, drop, map, All, Bool-cases,
}
use mathlib.Core.List.{append-nil, append_assoc}
use model_lib.Logging.Event.{Event}
use model_lib.Logging.Lines.{Formats, event_line}
use model_lib.Logging.Lines.Printed.{PlainFormats, event_line-Plain}
use model_lib.Logging.Recent.{
  put_first, getlines, pop_front, push_line, keep_last, prepend_file, prepend_files, recent_lines,
}

-- The last lines of a list, and those that are not too long.
abbrev pub last_n : ℕ → List Bytes → List Bytes
last_n n lines = drop (length lines - n) lines

unfoldable pub short : List Bytes → List Bytes
short [] = []
short (l ∷ ls) = if ltb (2 ^ 20) (length l) then short ls else l ∷ short ls

length_append : (xs ys : List Bytes) → length (xs ++ ys) ≡ length xs + length ys
length_append [] ys = omega arith
length_append (x ∷ xs) ys = omega (arith, length_append xs ys)

drop_less : (k : ℕ) (xs ys : List Bytes) → k ≤ length xs → drop k (xs ++ ys) ≡ drop k xs ++ ys
drop_less zero xs ys h = refl
drop_less (suc k) [] ys h = absurd (omega (arith, h))
drop_less (suc k) (x ∷ xs) ys h = drop_less k xs ys (omega (arith, h))

drop_more : (k : ℕ) (xs ys : List Bytes) → drop (length xs + k) (xs ++ ys) ≡ drop k ys
drop_more k [] ys = ap (λ n. drop n ys) (omega arith)
drop_more k (x ∷ xs) ys =
    let size : length (x ∷ xs) + k ≡ suc (length xs + k) = omega arith in
    ap (λ n. drop n (x ∷ (xs ++ ys))) size ∙ drop_more k xs ys

-- Lines in front change nothing when there are enough behind them, and fill up what is missing.
last_enough : (n : ℕ) (xs ys : List Bytes) → n ≤ length ys → last_n n (xs ++ ys) ≡ last_n n ys
last_enough n xs ys h =
    let size : length (xs ++ ys) - n ≡ length xs + (length ys - n) =
      omega (arith, length_append xs ys, h) in
    ap (λ k. drop k (xs ++ ys)) size ∙ drop_more (length ys - n) xs ys

last_fill :
    (n : ℕ) (xs ys : List Bytes)
    → length ys ≤ n
    → last_n n (xs ++ ys) ≡ last_n (n - length ys) xs ++ ys
last_fill n xs ys h =
    let size : length (xs ++ ys) - n ≡ length xs - (n - length ys) =
      omega (arith, length_append xs ys, h) in
    ap (λ k. drop k (xs ++ ys)) size ∙ drop_less (length xs - (n - length ys)) xs ys (omega arith)

last_all : (n : ℕ) (xs : List Bytes) → length xs ≤ n → last_n n xs ≡ xs
last_all n xs h =
    let none_left : length xs - n ≡ 0 = omega (arith, h) in ap (λ k. drop k xs) none_left

-- A list that is too long by one loses its first line, which no end of it has.
pop_last :
    (n : ℕ) (lines : List Bytes) (line : Bytes) (more : List Bytes)
    → length lines ≤ n
    → n < length (lines ++ line ∷ [])
    → (length (pop_front (lines ++ line ∷ [])) ≤ n)
      × (last_n n (pop_front (lines ++ line ∷ []) ++ more) ≡ last_n n (lines ++ line ∷ more))
unfolding pop_front
pop_last n [] line more h long =
    (omega arith, sym (last_enough n (line ∷ []) more (omega (arith, long))))
pop_last n (x ∷ xs) line more h long =
    let size = length_append xs (line ∷ []) in
    let whole = length_append xs (line ∷ more) in
    (
      omega (arith, h, size),
      ap (last_n n) (append_assoc xs (line ∷ []) more)
          ∙ sym (last_enough n (x ∷ []) (xs ++ line ∷ more) (omega (arith, h, long, size, whole))),
    )

push_last :
    (n : ℕ) (lines : List Bytes) (line : Bytes) (more : List Bytes)
    → length lines ≤ n
    → (length (push_line n lines line) ≤ n)
      × (last_n n (push_line n lines line ++ more) ≡ last_n n (lines ++ line ∷ more))
unfolding push_line
push_last n lines line more h = elim (Bool-cases (ltb n (length (lines ++ line ∷ [])))) [
  | inl long ↦ rw long (pop_last n lines line more h (ground (arith, long)))
  | inr fine ↦ rw fine (ground (arith, fine), ap (last_n n) (append_assoc lines (line ∷ []) more))
]

keep_last_lem :
    (n : ℕ) (lines more : List Bytes)
    → length lines ≤ n
    → keep_last n lines more ≡ last_n n (lines ++ short more)
unfolding keep_last short
keep_last_lem n lines [] h = sym (last_all n lines h) ∙ ap (last_n n) (sym (append-nil lines))
keep_last_lem n lines (line ∷ more) h = elim (Bool-cases (ltb (2 ^ 20) (length line))) [
  | inl long ↦ rw long (keep_last_lem n lines more h)
  | inr fine ↦
      let (room, same) = push_last n lines line (short more) h in
      rw fine (keep_last_lem n (push_line n lines line) more room ∙ same)
]

-- All lines that are not too long, the oldest first, with these behind them.
unfoldable pub before : List Bytes → List Bytes → List Bytes
before [] newer = newer
before (content ∷ contents) newer = before contents (short (getlines content) ++ newer)

before_enough :
    (n : ℕ) (contents newer : List Bytes)
    → n ≤ length newer
    → last_n n (before contents newer) ≡ last_n n newer
unfolding before
before_enough n [] newer h = refl
before_enough n (content ∷ contents) newer h =
    let older = short (getlines content) in
    before_enough n contents (older ++ newer) (omega (arith, h, length_append older newer))
    ∙ last_enough n older newer h

length-drop : (k : ℕ) (xs : List Bytes) → length (drop k xs) ≡ length xs - k
length-drop zero xs = omega arith
length-drop (suc k) [] = omega arith
length-drop (suc k) (x ∷ xs) = omega (arith, length-drop k xs)

prepend_file_last :
    (n : ℕ) (newer : List Bytes) (content : Bytes)
    → length newer ≤ n
    → prepend_file n newer content ≡ last_n n (short (getlines content) ++ newer)
unfolding prepend_file
prepend_file_last n newer content h = elim (Bool-cases (n - length newer == 0)) [
  | inl full ↦ rw full (
      sym (
        last_enough n (short (getlines content)) newer (ground (arith, full)) ∙ last_all n newer h))
  | inr room ↦ rw room (
      ap (λ ls. ls ++ newer) (keep_last_lem (n - length newer) [] (getlines content) (omega arith))
      ∙ sym (last_fill n (short (getlines content)) newer h))
]

prepend_files_last :
    (n : ℕ) (newer contents : List Bytes)
    → prepend_files n (last_n n newer) contents ≡ last_n n (before contents newer)
unfolding prepend_files before
prepend_files_last n newer [] = refl
prepend_files_last n newer (content ∷ contents) =
    let older = short (getlines content) in
    elim (Bool-cases (ltb (length newer) n)) [
      | inl room ↦
          let all = last_all n newer (ground (arith, room)) in
          ap (λ ls. prepend_files n ls (content ∷ contents)) all
          ∙ (rw room (
              ap (λ ls. prepend_files n ls contents)
                (prepend_file_last n newer content (ground (arith, room)))
              ∙ prepend_files_last n (older ++ newer) contents))
      | inr full ↦
          let size = length-drop (length newer - n) newer in
          let stop : ltb (length (last_n n newer)) n ≡ false = ground (arith, size, full) in
          rw stop (sym (before_enough n (content ∷ contents) newer (ground (arith, full))))
    ]

-- `recent_lines` gives the last lines of all files, the oldest first.
recent_lines_last :
    (n : ℕ) (base : Bytes) (rotated : List Bytes)
    → 1 ≤ n
    → n ≤ 100000
    → recent_lines n base rotated ≡ some (last_n n (before (base ∷ rotated) []))
unfolding recent_lines before
recent_lines_last n base rotated low high =
    let fine : (n == 0 || ltb 100000 n) ≡ false = ground (arith, low, high) in
    rw fine (
      ap some (
        ap (λ ls. prepend_files n ls rotated) (prepend_file_last n [] base (omega arith))
        ∙ prepend_files_last n (short (getlines base) ++ []) rotated))

-- What the writer makes of these events in one file.
unfoldable pub file_text : Formats → List Event → Bytes
file_text formats [] = []
file_text formats (e ∷ es) = event_line formats e ++ b'\n' ∷ file_text formats es

getlines_line :
    (line rest : Bytes)
    → All (λ c. 0x20 ≤ c) line
    → getlines (line ++ b'\n' ∷ rest) ≡ line ∷ getlines rest
unfolding getlines put_first
getlines_line [] rest plain = refl
getlines_line (c ∷ line) rest plain =
    let other : (c == b'\n') ≡ false = ground (arith, plain.0) in
    rw other (ap (put_first c) (getlines_line line rest plain.1))

getlines-file_text :
    (formats : Formats) (es : List Event)
    → PlainFormats formats
    → getlines (file_text formats es) ≡ map (λ e. event_line formats e) es
unfolding file_text
getlines-file_text formats [] times = unfold getlines in refl
getlines-file_text formats (e ∷ es) times =
    getlines_line (event_line formats e) (file_text formats es) (event_line-Plain formats times e)
    ∙ ap (λ ls. event_line formats e ∷ ls) (getlines-file_text formats es times)

-- The lines of the events in some files, the newest file first, with these behind them.
unfoldable pub lines_before : Formats → List (List Event) → List Bytes → List Bytes
lines_before formats [] newer = newer
lines_before formats (es ∷ files) newer =
    lines_before formats files (short (map (λ e. event_line formats e) es) ++ newer)

before-lines_before :
    (formats : Formats) (files : List (List Event)) (newer : List Bytes)
    → PlainFormats formats
    → before (map (λ es. file_text formats es) files) newer ≡ lines_before formats files newer
unfolding before lines_before
before-lines_before formats [] newer times = refl
before-lines_before formats (es ∷ files) newer times =
    ap (λ ls. before (map (λ fs. file_text formats fs) files) (short ls ++ newer))
      (getlines-file_text formats es times)
    ∙ before-lines_before formats files (short (map (λ e. event_line formats e) es) ++ newer) times

-- When times are printed without control characters, `recent_lines` of files that the writer wrote
-- gives one line for each event, with what was logged as the writer printed it: the last ones of all
-- files, as many as asked for, the oldest first, without those longer than 2 ^ 20 bytes.
pub recent_lines-file_text :
    (formats : Formats) (n : ℕ) (events : List Event) (rotated : List (List Event))
    → PlainFormats formats
    → 1 ≤ n
    → n ≤ 100000
    → recent_lines n (file_text formats events) (map (λ es. file_text formats es) rotated)
      ≡ some (last_n n (lines_before formats (events ∷ rotated) []))
recent_lines-file_text formats n events rotated times low high =
    recent_lines_last n (file_text formats events) (map (λ es. file_text formats es) rotated) low
      high
    ∙ ap (λ ls. some (last_n n ls)) (before-lines_before formats (events ∷ rotated) [] times)
