-- ===== src/Shortcut/RoundTrip.antt =====
-- The shortcuts that `build` of src/lnk.rs makes are read back.
use blackshard.Prelude.{
  ℕ, ◌+◌, ◌*◌, ◌/◌, ◌%◌, ◌^◌, ◌<◌, ◌≡◌, refl, sym, ap, ap₂, ◌∙◌, true, false, not, List, [], ◌∷◌,
  ◌++◌, Option, none, some, arith, ltb, if◌then◌else◌, length, take-append, drop-append, append_nil,
  append_assoc, length-append, All,
}
use blackshard.Prelude.Bytes.{Bytes, bytes_eq, starts_with}
use blackshard.Prelude.Readers.{bind_eq}
use blackshard.Shortcut.{
  Text, Shortcut, from_le_bytes, to_le_bytes, is_shortcut, read, u16, units, from_utf16_lossy,
  string, body, parse, encode, build_text, build, is_minimized, is_high, is_low,
}

-- A unit of UTF-16 that stands for itself.
abbrev pub IsPlain : ℕ → Type 0
IsPlain u = (u < 0x10000) × (is_high u ≡ false) × (is_low u ≡ false)

units-encode : (l : List ℕ) → units (encode l) ≡ l
unfolding units encode
units-encode [] = refl
units-encode (u ∷ l) =
    let e : u % 256 + 256 * (u / 256) ≡ u = omega arith in ap₂ (◌∷◌) e (units-encode l)

length-encode : (l : List ℕ) → length (encode l) ≡ length l * 2
unfolding encode
length-encode [] = refl
length-encode (u ∷ l) = omega (arith, length-encode l)

from_utf16_lossy-plain : (l : List ℕ) → All IsPlain l → from_utf16_lossy l ≡ l
unfolding from_utf16_lossy
from_utf16_lossy-plain [] h = refl
from_utf16_lossy-plain (u ∷ []) h = rw (h.0.1, h.0.2) refl
from_utf16_lossy-plain (u ∷ v ∷ l) h =
    rw (h.0.1, h.0.2) (ap (◌∷◌ u) (from_utf16_lossy-plain (v ∷ l) h.1))

read-append : (s rest : Bytes) (n : ℕ) → n ≡ length s → read n (s ++ rest) ≡ some (s, rest)
unfolding read
read-append s rest n h =
    let fits : ltb (length (s ++ rest)) (length s) ≡ false = ground (arith, length-append s rest) in
    rw (h, fits, take-append s rest, drop-append s rest) refl

u16-append : (n : ℕ) (rest : Bytes) → n < 0x10000 → u16 (to_le_bytes 2 n ++ rest) ≡ some (n, rest)
unfolding u16 to_le_bytes from_le_bytes
u16-append n rest h =
    let e : n % 256 + 256 * (n / 256 % 256 + 256 * 0) ≡ n = omega arith in
    bind_eq (read 2) _ _ rest (n % 256 ∷ n / 256 % 256 ∷ [])
      (read-append (n % 256 ∷ n / 256 % 256 ∷ []) rest 2 refl)
    ∙ ap (λ k. some (k, rest)) e

string-build_text :
    (text : List ℕ) (rest : Bytes)
    → length text < 0x10000
    → All IsPlain text
    → string true (build_text text ++ rest) ≡ some (text, rest)
unfolding string
string-build_text text rest l h =
    ap (string true) (append_assoc (to_le_bytes 2 (length text)) (encode text) rest)
    ∙ bind_eq u16 _ _ (encode text ++ rest) (length text)
        (u16-append (length text) (encode text ++ rest) l)
    ∙ bind_eq (read (length text * 2)) _ _ rest (encode text)
        (read-append (encode text) rest (length text * 2) (sym (length-encode text)))
    ∙ ap (λ t. some (t, rest))
        (ap from_utf16_lossy (units-encode text) ∙ from_utf16_lossy-plain text h)

body-build :
    (target arguments : List ℕ)
    → length target < 0x10000
    → length arguments < 0x10000
    → All IsPlain target
    → All IsPlain arguments
    → body 168 (build_text target ++ build_text arguments) ≡ some ((target, arguments), [])
unfolding body
body-build target arguments l m h k =
    bind_eq (string true) _ _ (build_text arguments) target
      (string-build_text target (build_text arguments) l h)
    ∙ bind_eq (string true) _ _ [] arguments (
        ap (string true) (sym (append_nil (build_text arguments)))
        ∙ string-build_text arguments [] m k)

from_le_bytes-to_le_bytes : (n : ℕ) → n < 2 ^ 32 → from_le_bytes (to_le_bytes 4 n) ≡ n
unfolding from_le_bytes to_le_bytes
from_le_bytes-to_le_bytes n h = omega arith

is_shortcut-build :
    (target arguments : List ℕ) (show : ℕ) → is_shortcut (build target arguments show) ≡ true
unfolding build is_shortcut bytes_eq starts_with to_le_bytes
is_shortcut-build target arguments show = ground arith

-- A shortcut that was built from two texts of at most 65,535 plain UTF-16 units is read back: its
-- target, its arguments and whether its window is minimized.
pub parse-build :
    (target arguments : List ℕ) (show : ℕ)
    → length target < 0x10000
    → length arguments < 0x10000
    → All IsPlain target
    → All IsPlain arguments
    → show < 2 ^ 32
    → parse (build target arguments show)
      ≡ some (record { target = target; arguments = arguments; minimized = is_minimized show })
unfolding parse build to_le_bytes from_le_bytes
parse-build target arguments show l m h k b =
    let result : ℕ → Option ((Text × Text) × List ℕ) → Option Shortcut = λ n r. elim r [
      | none ↦ none
      | some ((t, a), _) ↦ some (record { target = t; arguments = a; minimized = is_minimized n })
    ] in
    let read_back = body 168 (build_text target ++ build_text arguments) in
    ap (λ t. if not t then none else result (from_le_bytes (to_le_bytes 4 show)) read_back)
      (is_shortcut-build target arguments show)
    ∙ ap (result (from_le_bytes (to_le_bytes 4 show))) (body-build target arguments l m h k)
    ∙ ap (λ n. result n (some ((target, arguments), []))) (from_le_bytes-to_le_bytes show b)
