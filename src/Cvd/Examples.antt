-- ===== src/Cvd/Examples.antt =====
-- Containers of src/clamdb/cvd.rs: the headers of its tests, small archives, and the theorems at
-- concrete inputs.
use blackshard.Prelude.{
  ℕ, ◌-◌, ◌<◌, ◌≡◌, refl, some, true, false, List, [], ◌∷◌, ◌++◌, ◌↔◌, length, replicate, take,
  drop, arith,
}
use blackshard.Prelude.Bytes.{Bytes, codes, bytes_eq, to_ascii_lowercase}
use blackshard.Prelude.Results.{Result, ok, error}
use blackshard.Prelude.Text.{digits_from}
use blackshard.Cvd
use blackshard.Cvd.{CvdError, malformed, out_of_fuel, CvdHeader, parse_header, verify_signature}
use blackshard.Cvd.Signed.{IsSigned, verify_signature_iff}
use blackshard.Cvd.Tar.{File, Disk, unpack_tar}
use blackshard.Cvd.Tar.Paths.{safe_entry_name}
use blackshard.Cvd.Tar.Plain.{AllPlain}
use blackshard.Cvd.Tar.Reader.{ReadCall, chunk, interrupted, stream_of, read_full, read_stream}
use blackshard.Cvd.Tar.Streams.{unpack_tar-stream}
use blackshard.Cvd.Tar.Enough.{unpack_tar-ends}
use blackshard.Cvd.Extract.{extract, extract-AllPlain}

-- A header as the distribution site served it.
abbrev main_header : Bytes
main_header =
    (codes "ClamAV-VDB:16 Dec 2025 23-18 +0000:63:3287027:90:9c353a6b32555186a45a6"
      ++ (codes "1c6441f38c0:gI9w3cezaElJbedEoiykyQeX1f6j9Xbs3a+cf9U/kH5QScGMe2mRz1K2Jl"
          ++ (codes "YOrqfBuOUMbiKmvkVvAquOsMeDp/ejLVDx5WulC6klZVhLOfBHda29OjaLZwEGR9GPIHDr"
              ++ codes "0mXriv7pivuMH60/loxpASIJHLOszyj95pxVK+EaTCh:tomjudge:1765927102")))

abbrev header_of : Result CvdError CvdHeader → CvdHeader
header_of (ok h) = h
header_of (error e) = record {
  build_time = [];
  version = 0;
  signature_count = 0;
  functionality_level = 0;
  md5 = [];
  signature = [];
  builder = [];
}

abbrev main_block : Bytes
main_block = main_header ++ replicate (512 - length main_header) b' '

main_version : (header_of (parse_header main_block)).version ≡ 63
unfolding parse_header digits_from
main_version = refl

main_is_signed : verify_signature (header_of (parse_header main_block)) ≡ ok tt
unfolding parse_header verify_signature digits_from Cvd.clamav_modulus Cvd.clamav_exponent
    Cvd.signature_value Cvd.modpow Cvd.hex_encode bytes_eq to_ascii_lowercase
main_is_signed = refl

abbrev tar_entry : Bytes → Bytes → Bytes → ℕ → Bytes
tar_entry name size body flag =
    name
    ++ (replicate (124 - length name) 0
        ++ (size
            ++ (replicate (32 - length size) 0
                ++ (flag ∷ [] ++ (replicate 355 0 ++ (body ++ replicate (512 - length body) 0))))))

abbrev archive : Bytes
archive =
    tar_entry (codes "../evil.hsb") (codes "00000000004") (codes "evil") b'0'
    ++ (tar_entry (codes "main.hsb") (codes "00000000005") (codes "hello") b'0' ++ replicate 1024 0)

abbrev call : Bytes → List ReadCall → List ReadCall
call [] calls = calls
call (c ∷ s) calls = chunk c s ∷ calls

-- The archive in one piece, and in three with an interruption.
abbrev at_once : List ReadCall
at_once = call archive []

abbrev in_pieces : List ReadCall
in_pieces =
    call (take 7 archive)
      (interrupted ∷ call (take 600 (drop 7 archive)) (call (drop 607 archive) []))

abbrev unpacked : Disk × Result CvdError (List Bytes)
unpacked =
    (record { name = codes "main.hsb"; content = codes "hello" } ∷ [], ok (codes "main.hsb" ∷ []))

whole_archive : unpack_tar read_full (λ _. true) 5 [] [] at_once ≡ unpacked
unfolding unpack_tar read_full Cvd.Tar.max_entries Cvd.Tar.max_entry_bytes
whole_archive = refl

divided_archive : unpack_tar read_full (λ _. true) 5 [] [] in_pieces ≡ unpacked
unfolding unpack_tar read_full Cvd.Tar.max_entries Cvd.Tar.max_entry_bytes
divided_archive = refl

archive_as_stream : unpack_tar read_stream (λ _. true) 5 [] [] (archive, false) ≡ unpacked
unfolding unpack_tar read_stream Cvd.Tar.max_entries Cvd.Tar.max_entry_bytes
archive_as_stream = refl

unpack_tar-stream_example :
    unpack_tar read_full (λ _. true) 5 [] [] in_pieces
    ≡ unpack_tar read_stream (λ _. true) 5 [] [] (stream_of in_pieces)
unpack_tar-stream_example = unpack_tar-stream (λ _. true) 5 [] [] in_pieces

pieces_are_shorter : length (stream_of in_pieces).0 < 3073
unfolding stream_of
pieces_are_shorter = omega arith

unpack_tar-ends_example :
    ¬ ((unpack_tar read_full (λ _. true) 3073 [] [] in_pieces).1 ≡ error out_of_fuel)
unpack_tar-ends_example = unpack_tar-ends (λ _. true) 3073 [] [] in_pieces pieces_are_shorter

abbrev container : List ReadCall
container = call main_block in_pieces

extract-AllPlain_example :
    AllPlain
      (extract read_full
        (λ calls. calls)
        read_full
        (λ _. true)
        true
        5
        (some (codes "CLD"))
        []
        container).0
extract-AllPlain_example =
    extract-AllPlain read_full (λ calls. calls) read_full (λ _. true) true 5 (some (codes "CLD")) []
      container tt

-- The digest in capital letters, with the signature of the same header.
abbrev in_capitals : CvdHeader
in_capitals = record (header_of (parse_header main_block)) {
  md5 = codes "9C353A6B32555186A45A61C6441F38C0";
}

capitals_are_signed : verify_signature in_capitals ≡ ok tt
unfolding parse_header verify_signature digits_from Cvd.clamav_modulus Cvd.clamav_exponent
    Cvd.signature_value Cvd.modpow Cvd.hex_encode bytes_eq to_ascii_lowercase
capitals_are_signed = refl

verify_signature_iff_example : verify_signature in_capitals ≡ ok tt ↔ IsSigned in_capitals
verify_signature_iff_example = verify_signature_iff in_capitals

-- A name with a colon is taken, though on NTFS it is a stream of the file before the colon.
colon_is_taken : safe_entry_name (codes "main.hsb:stream") ≡ some (codes "main.hsb:stream")
unfolding safe_entry_name
colon_is_taken = refl
