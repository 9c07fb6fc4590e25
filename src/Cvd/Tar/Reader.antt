-- ===== src/Cvd/Tar/Reader.antt =====
-- src/clamdb/cvd.rs: `read_full`, over the results of the calls of `Read::read`; and the same on a
-- stream of bytes that ends, or ends in an error. What one call gives is what it has, up to the
-- room in the buffer; it gives nothing only at the end.
use blackshard.Prelude.{
  ℕ, zero, suc, ◌-◌, ◌≤◌, ◌≡◌, refl, sym, ap, ◌∙◌, inl, inr, Bool, true, false, List, [], ◌∷◌, ◌++◌,
  leb, if◌then◌else◌, length, length-append, take, drop, take-append_ge, drop-append_ge,
  take-append_le, drop-append_le, arith, Bool-cases,
}
use blackshard.Prelude.Bytes.{Bytes}
use blackshard.Prelude.Results.{Result, ok, error}
use blackshard.Cvd.{CvdError, io}
use blackshard.Cvd.Tar.{Read}

-- `chunk` has a first byte and the others.
pub data ReadCall : Type 0 where
  chunk : ℕ → Bytes → ReadCall
  interrupted failed : ReadCall

-- What of a chunk does not fit stays for the next call.
abbrev pub leftover : Bytes → List ReadCall → List ReadCall
leftover [] calls = calls
leftover (c ∷ s) calls = chunk c s ∷ calls

abbrev pub prepend :
    {R : Type 0} → Bytes → Result CvdError (Bytes × R) → Result CvdError (Bytes × R)
prepend got (error e) = error e
prepend got (ok (more, r)) = ok (got ++ more, r)

unfoldable pub read_full : Read (List ReadCall)
read_full zero calls = ok ([], calls)
read_full (suc n) [] = ok ([], [])
read_full (suc n) (interrupted ∷ calls) = read_full (suc n) calls
read_full (suc n) (failed ∷ calls) = error io
read_full (suc n) (chunk c s ∷ calls) =
    let more = read_full (n - length s) calls in
    if leb (length s) n then prepend (c ∷ s) more else ok (c ∷ take n s, leftover (drop n s) calls)

-- The bytes up to the end or the first error, and whether it is an error.
abbrev pub Stream : Type 0
Stream = Bytes × Bool

abbrev pub before : Bytes → Stream → Stream
before s (t, fails) = (s ++ t, fails)

unfoldable pub stream_of : List ReadCall → Stream
stream_of [] = ([], false)
stream_of (interrupted ∷ calls) = stream_of calls
stream_of (failed ∷ calls) = ([], true)
stream_of (chunk c s ∷ calls) = before (c ∷ s) (stream_of calls)

unfoldable pub read_stream : Read Stream
read_stream want (s, fails) =
    if leb want (length s)
    then ok (take want s, (drop want s, fails))
    else if fails
    then error io
    else ok (s, ([], false))

abbrev pub map_rest : {R F A : Type 0} → (R → F) → Result CvdError (A × R) → Result CvdError (A × F)
map_rest f (error e) = error e
map_rest f (ok (a, r)) = ok (a, f r)

-- Reading on the stream with more bytes in front.
read_stream-before :
    (s : Bytes) (n : ℕ) (t : Stream)
    → length s ≤ n
    → read_stream n (before s t) ≡ prepend s (read_stream (n - length s) t)
unfolding read_stream
read_stream-before s n (t, fails) h = elim (Bool-cases (leb (n - length s) (length t))) [
  | inl enough ↦
      let all : leb n (length (s ++ t)) ≡ true = ground (arith, length-append s t) in
      rw (enough, all, take-append_ge n s t h, drop-append_ge n s t h) refl
  | inr few ↦
      let not_all : leb n (length (s ++ t)) ≡ false = ground (arith, length-append s t) in
      rw (few, not_all) (elim (Bool-cases fails) [ inl f ↦ rw f refl | inr f ↦ rw f refl ])
]

map-prepend :
    {R F : Type 0} (f : R → F) (s : Bytes) (r : Result CvdError (Bytes × R))
    → map_rest f (prepend s r) ≡ prepend s (map_rest f r)
map-prepend f s (error e) = refl
map-prepend f s (ok (more, r)) = refl

leftover_stream :
    (s : Bytes) (calls : List ReadCall) → stream_of (leftover s calls) ≡ before s (stream_of calls)
unfolding stream_of
leftover_stream [] calls = refl
leftover_stream (c ∷ s) calls = refl

-- However the bytes arrive, and however often a call is interrupted.
pub read_full-stream :
    (n : ℕ) (calls : List ReadCall)
    → map_rest stream_of (read_full n calls) ≡ read_stream n (stream_of calls)
unfolding read_full stream_of read_stream
read_full-stream zero calls = ground arith
read_full-stream (suc n) [] = ground arith
read_full-stream (suc n) (interrupted ∷ calls) = read_full-stream (suc n) calls
read_full-stream (suc n) (failed ∷ calls) = ground arith
read_full-stream (suc n) (chunk c s ∷ calls) = elim (Bool-cases (leb (length s) n)) [
  | inl fits ↦
      let shorter : n - length s ≡ suc n - length (c ∷ s) = omega arith in
      rw fits (
        map-prepend stream_of (c ∷ s) (read_full (n - length s) calls)
        ∙ ap (prepend (c ∷ s)) (read_full-stream (n - length s) calls)
        ∙ ap (λ k. prepend (c ∷ s) (read_stream k (stream_of calls))) shorter
        ∙ sym (read_stream-before (c ∷ s) (suc n) (stream_of calls) (ground arith)))
  | inr longer ↦
      let t = stream_of calls in
      let le : n ≤ length s = ground arith in
      let enough : leb (suc n) (length ((c ∷ s) ++ t.0)) ≡ true =
        ground (arith, length-append s t.0) in
      rw
        (
          longer,
          enough,
          leftover_stream (drop n s) calls,
          take-append_le n s t.0 le,
          drop-append_le n s t.0 le,
        )
        refl
]
