-- ===== src/NoSorry/Comments.antt =====
-- What `strip_comments` does to a whole comment: a block comment at any nesting, a line comment.
use proof_forge_near.Prelude.{
  ℕ, suc, ◌≡◌, ◌≢◌, refl, ap, ◌∙◌, [], ◌∷◌, ◌++◌, ◌==◌, arith, if◌then◌else◌, append_assoc, All,
  Text,
}
use proof_forge_near.NoSorry.{newline, in_code, in_line, in_block, strip, strip_comments}

-- The inside of a block comment: characters, and comments within.
pub data Body : Type 0 where
  end : Body
  char : ℕ → Body → Body
  nested : Body → Body → Body

abbrev pub render : Body → Text
render end = []
render (char c more) = c ∷ render more
render (nested inner more) = b'/' ∷ b'-' ∷ (render inner ++ (b'-' ∷ b'/' ∷ render more))

-- What is left of it.
abbrev pub blanks : Body → Text
blanks end = []
blanks (char c more) = (if c == newline then newline else b' ') ∷ blanks more
blanks (nested inner more) = blanks inner ++ blanks more

-- A character that is in no comment delimiter.
abbrev pub IsPlain : ℕ → Type 0
IsPlain c = (c ≢ b'-') × (c ≢ b'/')

abbrev pub IsPlainBody : Body → Type 0
IsPlainBody end = Unit
IsPlainBody (char c more) = IsPlain c × IsPlainBody more
IsPlainBody (nested inner more) = IsPlainBody inner × IsPlainBody more

strip-plain_block :
    (d c : ℕ) (t : Text)
    → IsPlain c
    → strip (in_block d) (c ∷ t) ≡ (if c == newline then newline else b' ') ∷ strip (in_block d) t
unfolding strip
strip-plain_block d c [] h = refl
strip-plain_block d c (x ∷ t) h = ground arith

strip-plain_code : (c : ℕ) (t : Text) → IsPlain c → strip in_code (c ∷ t) ≡ c ∷ strip in_code t
unfolding strip
strip-plain_code c [] h = refl
strip-plain_code c (x ∷ t) h = ground arith

strip-code : (pre t : Text) → All IsPlain pre → strip in_code (pre ++ t) ≡ pre ++ strip in_code t
strip-code [] t h = refl
strip-code (c ∷ pre) t h =
    strip-plain_code c (pre ++ t) h.0 ∙ ap (λ r. c ∷ r) (strip-code pre t h.1)

strip-close : (d : ℕ) (t : Text) → strip (in_block (suc d)) (b'-' ∷ b'/' ∷ t) ≡ strip (in_block d) t
unfolding strip
strip-close d t = refl

strip-open : (d : ℕ) (t : Text) → strip (in_block d) (b'/' ∷ b'-' ∷ t) ≡ strip (in_block (suc d)) t
unfolding strip
strip-open d t = refl

strip-render :
    (d : ℕ) (b : Body) (t : Text)
    → IsPlainBody b
    → strip (in_block d) (render b ++ t) ≡ blanks b ++ strip (in_block d) t
strip-render d end t h = refl
strip-render d (char c more) t h =
    strip-plain_block d c (render more ++ t) h.0
    ∙ ap (λ r. (if c == newline then newline else b' ') ∷ r) (strip-render d more t h.1)
strip-render d (nested inner more) t h =
    strip-open d ((render inner ++ (b'-' ∷ b'/' ∷ render more)) ++ t)
    ∙ (rw append_assoc (
        strip-render (suc d) inner (b'-' ∷ b'/' ∷ (render more ++ t)) h.0
        ∙ (rw (strip-close d, strip-render d more t h.1, append_assoc))))

-- A block comment, whatever is nested in it, becomes blanks, and the code around it stays:
-- newlines are kept, every other character is a space, and the delimiters are dropped. The text
-- before it and the inside hold no `-` and no `/` outside the delimiters.
pub strip_comments-block :
    (pre : Text) (b : Body) (rest : Text)
    → All IsPlain pre
    → IsPlainBody b
    → strip_comments (pre ++ (b'/' ∷ b'-' ∷ (render b ++ (b'-' ∷ b'/' ∷ rest))))
      ≡ pre ++ (blanks b ++ strip_comments rest)
unfolding strip_comments
strip_comments-block pre b rest hp hb =
    strip-code pre _ hp ∙ ap (λ r. pre ++ r) (unfold strip in strip-render 0 b _ hb)

strip-line :
    (line rest : Text)
    → All (λ c. c ≢ newline) line
    → strip in_line (line ++ (newline ∷ rest)) ≡ newline ∷ strip in_code rest
unfolding strip
strip-line [] rest h = refl
strip-line (c ∷ line) rest h = ground (arith, strip-line line rest h.1)

-- A line comment is dropped up to its newline, which stays, as does the code before it. The code
-- before it holds no `-` and no `/`; nothing is asked of the comment but that it is one line.
pub strip_comments-line :
    (pre line rest : Text)
    → All IsPlain pre
    → All (λ c. c ≢ newline) line
    → strip_comments (pre ++ (b'-' ∷ b'-' ∷ (line ++ (newline ∷ rest))))
      ≡ pre ++ (newline ∷ strip_comments rest)
unfolding strip_comments
strip_comments-line pre line rest hp hl =
    strip-code pre _ hp ∙ ap (λ r. pre ++ r) (unfold strip in strip-line line rest hl)
