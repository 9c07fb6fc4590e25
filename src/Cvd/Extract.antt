-- ===== src/Cvd/Extract.antt =====
-- src/clamdb/cvd.rs: `read_header` and `extract`, from the opened file on. The decompressor, whether
-- the directory can be made, and the extension of the container's name are arguments.
use blackshard.Prelude.{
  ℕ, Bool, true, not, List, [], Option, none, some, ◌==◌, if◌then◌else◌, if_split, length,
}
use blackshard.Prelude.Bytes.{Bytes, codes, bytes_eq, to_ascii_lowercase}
use blackshard.Prelude.Results.{Result, ok, error, ◌>>=◌}
use blackshard.Cvd.{CvdError, io, CvdHeader, parse_header, header_len}
use blackshard.Cvd.Tar.{Read, Disk, Unpacked, unpack_tar}
use blackshard.Cvd.Tar.Plain.{AllPlain, unpack_tar-AllPlain}

-- `read_exact`: a reader that ends too early is an I/O error.
abbrev pub read_exact : {R : Type 0} → Read R → Read R
read_exact read n r = do
  (block, r) ← read n r
  if length block == n then ok (block, r) else error io

-- A name without an extension counts as compressed.
abbrev pub is_compressed : Option Bytes → Bool
is_compressed none = true
is_compressed (some extension) = not (bytes_eq (to_ascii_lowercase extension) (codes "cld"))

abbrev pub Extracted : Type 0
Extracted = Disk × Result CvdError (CvdHeader × List Bytes)

abbrev pub with_header : CvdHeader → Unpacked → Extracted
with_header header (disk, error e) = (disk, error e)
with_header header (disk, ok names) = (disk, ok (header, names))

abbrev pub after_header :
    {R : Type 0} → Disk → Result CvdError (CvdHeader × R) → (CvdHeader → R → Extracted) → Extracted
after_header disk (error e) next = (disk, error e)
after_header disk (ok (header, r)) next = next header r

module _ {R F : Type 0} (read : Read R) (unzip : R → F) (read_unzipped : Read F)
    (creates : Bytes → Bool) (makes_directory : Bool) where
  -- With the reader after the header.
  unfoldable pub read_header : R → Result CvdError (CvdHeader × R)
  read_header r = do
    (block, r) ← read_exact read header_len r
    header ← parse_header block
    ok (header, r)

  unfoldable pub extract : ℕ → Option Bytes → Disk → R → Extracted
  unfolding bytes_eq to_ascii_lowercase
  extract fuel extension disk r = after_header disk (read_header r) (λ header r.
      if makes_directory
      then with_header header (
          if is_compressed extension
          then unpack_tar read_unzipped creates fuel [] disk (unzip r)
          else unpack_tar read creates fuel [] disk r)
      else (disk, error io))

  with_header-AllPlain :
      (header : CvdHeader) (u : Unpacked) → AllPlain u.0 → AllPlain (with_header header u).0
  with_header-AllPlain header (disk, error e) a = a
  with_header-AllPlain header (disk, ok names) a = a

  after_header-AllPlain :
      (disk : Disk) (h : Result CvdError (CvdHeader × R)) (next : CvdHeader → R → Extracted)
      → AllPlain disk
      → ((header : CvdHeader) (r : R) → AllPlain (next header r).0)
      → AllPlain (after_header disk h next).0
  after_header-AllPlain disk (error e) next a f = a
  after_header-AllPlain disk (ok (header, r)) next a f = f header r

  -- Whatever a container holds, compressed or not, and whether it is refused or not, no file is
  -- written under a name with a separator, a drive, or dots alone, if none had such a name before.
  pub extract-AllPlain :
      (fuel : ℕ) (extension : Option Bytes) (disk : Disk) (r : R)
      → AllPlain disk
      → AllPlain (extract fuel extension disk r).0
  unfolding extract
  extract-AllPlain fuel extension disk r a =
      after_header-AllPlain disk (read_header r) _ a (λ header r.
        if_split (λ (e : Extracted). AllPlain e.0) makes_directory
          (with_header-AllPlain header _ (
            if_split (λ (u : Unpacked). AllPlain u.0) (is_compressed extension)
              (unpack_tar-AllPlain read_unzipped creates fuel [] disk (unzip r) a)
              (unpack_tar-AllPlain read creates fuel [] disk r a)))
          a)
