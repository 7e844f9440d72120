-- ===== src/Scalar/Like.antt =====
-- src/parseval/symbolic/operations.py, `like`: a pattern becomes a regular expression of `.*`, `.`
-- and escaped characters, which `re.fullmatch` runs on the text (with DOTALL).
use par_seval.Common.{
  ℕ, ◌+◌, Bool, true, false, ◌&&◌, ◌||◌, List, [], ◌∷◌, ◌==◌, leb, if◌then◌else◌,
}
use par_seval.Scalar.Outcome.{Outcome, returned, failed, ◌>>=◌}

pub data Piece : Type 0 where
  any_run : Piece
  any_one : Piece
  exactly : ℕ → Piece

abbrev pub backslash : ℕ
backslash = 92

abbrev pub percent : ℕ
percent = 37

abbrev pub underscore : ℕ
underscore = 95

unfoldable pub piece_of : ℕ → Piece
piece_of c = if c == percent then any_run else if c == underscore then any_one else exactly c

-- The loop over the pattern, with its flag `escaped`.
unfoldable pub pieces_of : Bool → List ℕ → Outcome (List Piece)
unfolding piece_of
pieces_of true [] = failed
pieces_of false [] = returned []
pieces_of true (c ∷ cs) = pieces_of false cs >>= λ ps. returned (exactly c ∷ ps)
pieces_of false (c ∷ cs) =
    let escape = pieces_of true cs in
    let plain = pieces_of false cs >>= λ ps. returned (piece_of c ∷ ps) in
    if c == backslash then escape else plain

-- `re.IGNORECASE | re.ASCII`.
unfoldable pub ascii_lower : ℕ → ℕ
ascii_lower c = if leb 65 c && leb c 90 then c + 32 else c

unfoldable pub same_char : Bool → ℕ → ℕ → Bool
unfolding ascii_lower
same_char insensitive c d = if insensitive then ascii_lower c == ascii_lower d else c == d

unfoldable pub full_match : Bool → List Piece → List ℕ → Bool
unfolding same_char
full_match i [] [] = true
full_match i [] (c ∷ cs) = false
full_match i (any_run ∷ ps) [] = full_match i ps []
full_match i (any_run ∷ ps) (c ∷ cs) = full_match i ps (c ∷ cs) || full_match i (any_run ∷ ps) cs
full_match i (any_one ∷ ps) [] = false
full_match i (any_one ∷ ps) (c ∷ cs) = full_match i ps cs
full_match i (exactly d ∷ ps) [] = false
full_match i (exactly d ∷ ps) (c ∷ cs) = same_char i d c && full_match i ps cs

unfoldable pub like : Bool → List ℕ → List ℕ → Outcome Bool
unfolding pieces_of full_match
like insensitive value pattern =
    pieces_of false pattern >>= λ ps. returned (full_match insensitive ps value)
