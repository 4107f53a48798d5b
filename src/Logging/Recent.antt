-- ===== src/Logging/Recent.antt =====
-- src/logging/LogManager.cpp: `recent_lines`, on the contents of the files, the current one first. A
-- file that is missing has no content.
pub mod Written
mod Tests
use model_lib.Base.Bytes.{Bytes}
use model_lib.Base.{
  ℕ, ◌-◌, ◌^◌, Bool, ◌||◌, List, [], ◌∷◌, ◌++◌, Option, none, some, ltb, ◌==◌, if◌then◌else◌,
  length,
}

unfoldable pub put_first : ℕ → List Bytes → List Bytes
put_first c [] = (c ∷ []) ∷ []
put_first c (line ∷ lines) = (c ∷ line) ∷ lines

-- The loop of `std::getline` over a file.
unfoldable pub getlines : Bytes → List Bytes
getlines [] = []
getlines (c ∷ s) = let rest = getlines s in if c == b'\n' then [] ∷ rest else put_first c rest

unfoldable pub pop_front : List Bytes → List Bytes
pop_front [] = []
pop_front (line ∷ lines) = lines

-- `push_back`, and `pop_front` when there are too many.
unfoldable pub push_line : ℕ → List Bytes → Bytes → List Bytes
push_line remaining lines line =
    let longer = lines ++ line ∷ [] in
    if ltb remaining (length longer) then pop_front longer else longer

unfoldable pub keep_last : ℕ → List Bytes → List Bytes → List Bytes
keep_last remaining lines [] = lines
keep_last remaining lines (line ∷ more) =
    keep_last remaining
      (if ltb (2 ^ 20) (length line) then lines else push_line remaining lines line) more

unfoldable pub prepend_file : ℕ → List Bytes → Bytes → List Bytes
prepend_file maximum lines content =
    if maximum - length lines == 0
    then lines
    else keep_last (maximum - length lines) [] (getlines content) ++ lines

-- The loop over the rotated files.
unfoldable pub prepend_files : ℕ → List Bytes → List Bytes → List Bytes
prepend_files maximum lines [] = lines
prepend_files maximum lines (content ∷ contents) =
    if ltb (length lines) maximum
    then prepend_files maximum (prepend_file maximum lines content) contents
    else lines

-- `none` is an exception.
unfoldable pub recent_lines : ℕ → Bytes → List Bytes → Option (List Bytes)
recent_lines maximum base rotated =
    if maximum == 0 || ltb 100000 maximum
    then none
    else some (prepend_files maximum (prepend_file maximum [] base) rotated)
