-- ===== src/Cvd.antt =====
-- src/clamdb/cvd.rs: the header of a definition container and the check of its signature. Big
-- integers are the natural numbers; `trim` is that of ASCII text. The archive is in Cvd/Tar.
pub mod Tar
pub mod Powers
pub mod Digits
pub mod Signed
pub mod Extract
mod Examples
use blackshard.Prelude.{
  ℕ, zero, suc, ◌+◌, ◌-◌, ◌*◌, ◌/◌, ◌%◌, ◌^◌, Bool, true, false, not, ◌&&◌, ◌||◌, List, [], ◌∷◌,
  ◌++◌, Option, none, some, ltb, leb, ◌==◌, if◌then◌else◌, length, take, drop,
}
use mathlib.Core.List.{reverse}
use blackshard.Prelude.Bytes.{Bytes, codes, bytes_eq, to_ascii_lowercase}
use blackshard.Prelude.Results.{Result, ok, error, ◌>>=◌, ok_or}
use blackshard.Prelude.Text.{split, trim, trim_start, strip_prefix, parse_unsigned}

-- `io` is an error of the reader or of the file system; `out_of_fuel` belongs to the model only.
pub data CvdError : Type 0 where
  io malformed out_of_fuel : CvdError

abbrev pub header_len : ℕ
header_len = 512

pub record CvdHeader : Type 0 where
  pub build_time : Bytes
  pub version : ℕ
  pub signature_count : ℕ
  pub functionality_level : ℕ
  pub md5 : Bytes
  pub signature : Bytes
  pub builder : Bytes

-- The next byte of a text that is to be UTF-8: how many bytes must follow it, and the range of the
-- first of them.
abbrev pub lead_byte : ℕ → Option (ℕ × ℕ × ℕ)
lead_byte c =
    if ltb c 0x80
    then some (0, 0x80, 0xbf)
    else if leb 0xc2 c && leb c 0xdf
    then some (1, 0x80, 0xbf)
    else if c == 0xe0
    then some (2, 0xa0, 0xbf)
    else if c == 0xed
    then some (2, 0x80, 0x9f)
    else if leb 0xe1 c && leb c 0xef
    then some (2, 0x80, 0xbf)
    else if c == 0xf0
    then some (3, 0x90, 0xbf)
    else if leb 0xf1 c && leb c 0xf3
    then some (3, 0x80, 0xbf)
    else if c == 0xf4
    then some (3, 0x80, 0x8f)
    else none

unfoldable pub utf8_from : ℕ → ℕ → ℕ → Bytes → Bool
utf8_from pending lo hi [] = pending == 0
utf8_from zero lo hi (c ∷ s) = elim (lead_byte c) [
  | none ↦ false
  | some next ↦ utf8_from next.0 next.1 next.2 s
]
utf8_from (suc pending) lo hi (c ∷ s) = leb lo c && leb c hi && utf8_from pending 0x80 0xbf s

-- Whether `str::from_utf8` accepts the bytes.
abbrev pub is_utf8 : Bytes → Bool
is_utf8 s = utf8_from 0 0x80 0xbf s

unfoldable pub drop_zeros : Bytes → Bytes
drop_zeros [] = []
drop_zeros (c ∷ s) = if c == 0 then drop_zeros s else c ∷ s

-- `trim_end_matches` of zero bytes, then `trim_end`.
unfoldable pub trim_header : Bytes → Bytes
unfolding drop_zeros trim_start
trim_header text = reverse (trim_start (drop_zeros (reverse text)))

abbrev pub is_hexdigit : ℕ → Bool
is_hexdigit c =
    (leb b'0' c && leb c b'9') || (leb b'a' c && leb c b'f') || (leb b'A' c && leb c b'F')

unfoldable pub all_hexdigits : Bytes → Bool
all_hexdigits [] = true
all_hexdigits (c ∷ s) = is_hexdigit c && all_hexdigits s

abbrev pub number_field : ℕ → Bytes → Result CvdError ℕ
number_field greatest field = ok_or malformed (parse_unsigned greatest (trim field))

abbrev pub digest_field : Bytes → Result CvdError Bytes
digest_field md5 =
    if not (length md5 == 32) || not (all_hexdigits md5) then error malformed else ok md5

abbrev pub header_fields : List Bytes → Result CvdError CvdHeader
header_fields (time ∷ version ∷ count ∷ level ∷ md5 ∷ signature ∷ builder ∷ _) = do
  v ← number_field (2 ^ 64 - 1) version
  c ← number_field (2 ^ 64 - 1) count
  l ← number_field (2 ^ 32 - 1) level
  digest ← digest_field (trim md5)
  ok (record {
    build_time = trim time;
    version = v;
    signature_count = c;
    functionality_level = l;
    md5 = digest;
    signature = trim signature;
    builder = trim builder;
  })
header_fields _ = error malformed

-- `CvdHeader::parse`
unfoldable pub parse_header : Bytes → Result CvdError CvdHeader
unfolding utf8_from trim_header strip_prefix split trim parse_unsigned all_hexdigits
parse_header block =
    if ltb (length block) header_len || not (is_utf8 (take header_len block))
    then error malformed
    else (do
      body ←
          ok_or malformed (strip_prefix (codes "ClamAV-VDB:") (trim_header (take header_len block)))
      header_fields (split b':' body))

-- `CLAMAV_MODULUS` and `CLAMAV_EXPONENT`
unfoldable pub clamav_modulus : ℕ
clamav_modulus =
    118640995551645342603070001658453189751527774412027743746599405743243142607464144767361060640655844749760788890022283424922762488917565551002467771109669598189410434699034532232228621591089508178591428456220796841621637175567590476666928698770143328137383952820383197532047771780196576957695822641224262693037

unfoldable pub clamav_exponent : ℕ
clamav_exponent = 100_001_027

-- The index of a byte in `SIGNATURE_ALPHABET`.
unfoldable pub digit_value : ℕ → Option ℕ
digit_value c =
    if leb b'a' c && leb c b'z'
    then some (c - b'a')
    else if leb b'A' c && leb c b'Z'
    then some (c - b'A' + 26)
    else if leb b'0' c && leb c b'9'
    then some (c - b'0' + 52)
    else if c == b'+'
    then some 62
    else if c == b'/'
    then some 63
    else none

-- The loop over the symbols: `weight` is two to the power of six times the position.
unfoldable pub signature_value : ℕ → ℕ → Bytes → Result CvdError ℕ
unfolding digit_value
signature_value weight value [] = ok value
signature_value weight value (c ∷ s) = do
  digit ← ok_or malformed (digit_value c)
  signature_value (weight * 64) (value + digit * weight) s

-- `modpow`, by squaring; the fuel bounds the bits of the exponent.
unfoldable pub modpow : ℕ → ℕ → ℕ → ℕ → ℕ
modpow zero base exponent modulus = 1 % modulus
modpow (suc bits) base exponent modulus =
    let half = modpow bits (base * base % modulus) (exponent / 2) modulus in
    if exponent % 2 == 1 then base * half % modulus else half

abbrev pub hex_symbol : ℕ → ℕ
hex_symbol d = if ltb d 10 then d + b'0' else d - 10 + b'a'

-- `hex::encode` of as many bytes as the fuel says, the most significant first.
unfoldable pub hex_encode : ℕ → ℕ → Bytes → Bytes
hex_encode zero n rest = rest
hex_encode (suc count) n rest =
    hex_encode count (n / 256) (hex_symbol (n % 256 / 16) ∷ hex_symbol (n % 16) ∷ rest)

-- `verify_signature`
unfoldable pub verify_signature : CvdHeader → Result CvdError (Unit {0})
verify_signature header = do
  signature ← signature_value 1 0 header.signature
  if signature == 0 || leb clamav_modulus signature
      then error malformed
      else (let digest = modpow 27 signature clamav_exponent clamav_modulus in
          if leb (2 ^ 128) digest
            || not (
                bytes_eq (to_ascii_lowercase (hex_encode 16 digest []))
                  (to_ascii_lowercase header.md5))
          then error malformed
          else ok tt)
