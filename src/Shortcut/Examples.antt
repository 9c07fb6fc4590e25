-- ===== src/Shortcut/Examples.antt =====
-- The shortcuts of the tests of src/lnk.rs, and the theorems at them.
use blackshard.Prelude.{◌≡◌, refl, arith, true, some}
use blackshard.Prelude.Bytes.{Bytes, codes, bytes_eq, starts_with}
use blackshard.Shortcut.{
  Shortcut, parse, build, is_shortcut, read, u16, units, from_utf16_lossy, string, body,
  from_le_bytes, to_le_bytes, encode,
}
use blackshard.Shortcut.RoundTrip

abbrev runs : Bytes
runs = build (codes "cmd.exe") (codes "/c") 7

abbrev read_back : Shortcut
read_back = record { target = codes "cmd.exe"; arguments = codes "/c"; minimized = true }

parse_test : parse runs ≡ some read_back
unfolding parse build is_shortcut read u16 units from_utf16_lossy string body from_le_bytes
    to_le_bytes encode bytes_eq starts_with
parse_test = refl

parse-build_example :
    parse (build (codes "cmd.exe") (codes "/c") 7)
    ≡ some (record { target = codes "cmd.exe"; arguments = codes "/c"; minimized = true })
parse-build_example =
    RoundTrip.parse-build (codes "cmd.exe") (codes "/c") 7 (omega arith) (omega arith)
      (
        (omega arith, refl, refl),
        (
          (omega arith, refl, refl),
          (
            (omega arith, refl, refl),
            (
              (omega arith, refl, refl),
              (
                (omega arith, refl, refl),
                ((omega arith, refl, refl), ((omega arith, refl, refl), tt)),
              ),
            ),
          ),
        ),
      )
      ((omega arith, refl, refl), ((omega arith, refl, refl), tt)) (omega arith)
