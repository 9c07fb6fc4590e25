-- ===== src/Cvd/Tar/Paths.antt =====
-- src/clamdb/cvd.rs: `safe_entry_name`, with the components that `Path` has on Windows: both
-- slashes separate, empty components and inner dots are left out, and a letter with a colon is a
-- drive.
use blackshard.Prelude.{
  ℕ, Bool, false, ◌&&◌, ◌||◌, List, [], ◌∷◌, Option, none, some, leb, ◌==◌, if◌then◌else◌, length,
}
use blackshard.Prelude.Bytes.{Bytes, codes, bytes_eq}
use blackshard.Prelude.Text.{trim, to_first}

abbrev pub is_separator : ℕ → Bool
is_separator c = c == b'/' || c == 92

-- The texts between separators.
unfoldable pub path_pieces : Bytes → List Bytes
path_pieces [] = [] ∷ []
path_pieces (c ∷ s) =
    let rest = path_pieces s in if is_separator c then [] ∷ rest else to_first c rest

abbrev pub is_dot : Bytes → Bool
is_dot s = bytes_eq s (codes ".")

abbrev pub is_dots : Bytes → Bool
is_dots s = bytes_eq s (codes "..")

pub data Component : Type 0 where
  prefix root cur_dir parent_dir : Component
  normal : Bytes → Component

abbrev pub component : Bytes → Component
component s = if is_dots s then parent_dir else normal s

-- The components after the first piece: empty ones and dots are skipped.
unfoldable pub later_components : List Bytes → List Component
unfolding bytes_eq
later_components [] = []
later_components (s ∷ rest) =
    if length s == 0 || is_dot s then later_components rest else component s ∷ later_components rest

abbrev pub is_letter : ℕ → Bool
is_letter c = (leb b'a' c && leb c b'z') || (leb b'A' c && leb c b'Z')

abbrev pub has_drive : Bytes → Bool
has_drive (c ∷ d ∷ s) = is_letter c && d == b':'
has_drive _ = false

abbrev pub starts_with_separator : Bytes → Bool
starts_with_separator [] = false
starts_with_separator (c ∷ s) = is_separator c

abbrev pub from_pieces : List Bytes → List Component
from_pieces [] = []
from_pieces (s ∷ rest) =
    if is_dot s then cur_dir ∷ later_components rest else later_components (s ∷ rest)

-- `Path::components`; what a drive or a root is followed by does not matter here.
unfoldable pub components : Bytes → List Component
unfolding path_pieces later_components
components path =
    if has_drive path
    then prefix ∷ []
    else if starts_with_separator path
    then root ∷ later_components (path_pieces path)
    else from_pieces (path_pieces path)

unfoldable pub contains_backslash : Bytes → Bool
contains_backslash [] = false
contains_backslash (c ∷ s) = c == 92 || contains_backslash s

abbrev pub single_normal : List Component → Option Bytes
single_normal (normal s ∷ []) =
    if is_dot s || is_dots s || contains_backslash s then none else some s
single_normal _ = none

unfoldable pub safe_entry_name : Bytes → Option Bytes
unfolding components trim contains_backslash bytes_eq
safe_entry_name name =
    if length (trim name) == 0 then none else single_normal (components (trim name))
