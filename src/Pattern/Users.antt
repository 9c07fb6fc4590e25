-- ===== src/Pattern/Users.antt =====
-- src/clamdb/pattern.rs: the second half of `PatternSet::build`, which lists for each piece the
-- logical signatures that use it, as a counting sort into one flat array.
pub mod Entries
pub mod Starts
pub mod Sorted
use blackshard.Prelude.{
  ℕ, zero, suc, ◌+◌, ◌-◌, List, [], ◌∷◌, Option, none, some, length, get_elem?, get_or, take, drop,
  set, replicate,
}
use blackshard.Pattern.Set.{Logical}

pub record PieceUsers : Type 0 where
  pub starts : List ℕ
  pub users : List ℕ

abbrev pub between : List ℕ → Option ℕ → Option ℕ → List ℕ
between users none end = []
between users (some start) none = []
between users (some start) (some end) = take (end - start) (drop start users)

-- `PieceUsers::of`
abbrev pub of : PieceUsers → ℕ → List ℕ
of u piece = between u.users (get_elem? u.starts piece) (get_elem? u.starts (piece + 1))

abbrev pub increment : List ℕ → ℕ → List ℕ
increment ns i = set ns i (get_or ns i 0 + 1)

unfoldable pub count_pieces : List ℕ → List ℕ → List ℕ
count_pieces [] starts = starts
count_pieces (piece ∷ pieces) starts = count_pieces pieces (increment starts (piece + 1))

unfoldable pub count_logicals : List Logical → List ℕ → List ℕ
unfolding count_pieces
count_logicals [] starts = starts
count_logicals (l ∷ logicals) starts = count_logicals logicals (count_pieces l.pieces starts)

-- `starts[index] += starts[index - 1]` from the left.
unfoldable pub sums_from : ℕ → List ℕ → List ℕ
sums_from sum [] = []
sums_from sum (n ∷ ns) = (sum + n) ∷ sums_from (sum + n) ns

abbrev pub Placing : Type 0
Placing = List ℕ × List ℕ

-- `users[next[piece]] = index; next[piece] += 1`
abbrev pub place : ℕ → ℕ → Placing → Placing
place index piece (next, users) = (increment next piece, set users (get_or next piece 0) index)

unfoldable pub place_pieces : ℕ → List ℕ → Placing → Placing
place_pieces index [] p = p
place_pieces index (piece ∷ pieces) p = place_pieces index pieces (place index piece p)

unfoldable pub place_logicals : ℕ → List Logical → Placing → Placing
unfolding place_pieces
place_logicals index [] p = p
place_logicals index (l ∷ logicals) p =
    place_logicals (index + 1) logicals (place_pieces index l.pieces p)

-- `starts[starts.len() - 1]`
unfoldable pub last_or : ℕ → List ℕ → ℕ
last_or n [] = n
last_or n (m ∷ ms) = last_or m ms

unfoldable pub build_users : ℕ → List Logical → PieceUsers
unfolding count_logicals sums_from place_logicals last_or
build_users signatures logicals =
    let starts = sums_from 0 (count_logicals logicals (replicate (signatures + 1) 0)) in
    record {
      starts = starts;
      users = (place_logicals 0 logicals (starts, replicate (last_or 0 starts) 0)).1;
    }
