-- ===== src/NoSorry/Tests.antt =====
-- check_no_sorry.py at concrete sources.
use proof_forge_near.Prelude.{
  ℕ, ◌≡◌, refl, Bool, true, ◌||◌, ◌&&◌, leb, none, some, [], ◌∷◌, ◌++◌, Text, codes, All, length,
  arith,
}
use proof_forge_near.NoSorry.{
  newline, strip_comments, split_lines, sorry_word, is_free, search, Source, scan_file, main,
}
use proof_forge_near.NoSorry.Lines.{length-split_lines-strip_comments}
use proof_forge_near.NoSorry.Comments.{end, char, nested, strip_comments-block}
use proof_forge_near.NoSorry.Search.{Occurs, search-iff-Occurs}
use proof_forge_near.NoSorry.ByLine.{any_line, search-any_line}
use proof_forge_near.NoSorry.Gate.{IsAccepted, main_status}
use proof_forge_near.NoSorry.Report.{IsLocated, scan_file-IsLocated}

-- The ASCII part of `\w`.
abbrev is_word : ℕ → Bool
is_word c =
    (leb b'a' c && leb c b'z')
    || (leb b'A' c && leb c b'Z')
    || (leb b'0' c && leb c b'9')
    || (leb b'_' c && leb c b'_')

newline_gap : is_free is_word (some newline) ≡ true
unfolding is_free
newline_gap = refl

-- A file with a nested comment that names the placeholder, and one that uses it on its third line.
abbrev commented : Source
commented = record { rel = codes "A.lean"; text = codes "x /- a /- sorry -/ b -/ y" }

abbrev hole_text : Text
hole_text = codes "-- a" ++ (newline ∷ (codes "def" ++ (newline ∷ codes " sorry")))

abbrev with_hole : Source
with_hole = record { rel = codes "B.lean"; text = hole_text }

abbrev allowed : Source
allowed = record { rel = codes "Tests/Fixtures.lean"; text = codes "sorry" }

hole_found : (main is_word (commented ∷ with_hole ∷ [])).status ≡ 1
unfolding main
hole_found = refl

length-split_lines-strip_comments_example : length (split_lines (strip_comments hole_text)) ≡ 3
unfolding split_lines
length-split_lines-strip_comments_example = length-split_lines-strip_comments hole_text

strip_comments-block_example : strip_comments (codes "x /- /- sorry -/b-/y") ≡ codes "x          y"
unfolding strip_comments
strip_comments-block_example =
    strip_comments-block (codes "x ")
      (char b' ' (
        nested
          (char b' ' (char b's' (char b'o' (char b'r' (char b'r' (char b'y' (char b' ' end)))))))
          (char b'b' end)))
      (codes "y") (ground arith) (ground arith)

search-iff-Occurs_example : Occurs is_word sorry_word none (codes "by sorry")
unfolding search
search-iff-Occurs_example = (search-iff-Occurs is_word sorry_word (codes "by sorry")).0 refl

search-any_line_example :
    search is_word sorry_word hole_text
    ≡ any_line is_word newline_gap sorry_word (split_lines hole_text)
unfolding is_free
search-any_line_example = search-any_line is_word newline_gap sorry_word (ground arith) hole_text

main_status_example : All (IsAccepted is_word newline_gap) (commented ∷ allowed ∷ [])
unfolding main is_free
main_status_example = (main_status is_word newline_gap (commented ∷ allowed ∷ [])).0 refl

scan_file-IsLocated_example :
    All
      (IsLocated is_word (codes "B.lean") 1 (split_lines (strip_comments hole_text)))
      (scan_file is_word with_hole)
scan_file-IsLocated_example = scan_file-IsLocated is_word with_hole
