-- ===== src/Cvd/Tar/Enough.antt =====
-- The fuel of the loops over an archive: what is read takes a block a round, so that the loops end
-- before the fuel does.
use blackshard.Prelude.{
  ℕ, zero, suc, ◌+◌, ◌-◌, ◌*◌, ◌≤◌, ◌<◌, ◌≡◌, sym, ap, ◌∙◌, subst, inl, inr, Bool, true, not, List,
  [], ◌∷◌, Option, none, some, ltb, leb, min, ◌==◌, if_split, length, length-take, length-drop,
  take, drop, arith, Bool-cases, Option-cases,
}
use blackshard.Prelude.Bytes.{Bytes}
use blackshard.Prelude.Results.{Result, ok, error, Yields, Yields-bind, Yields-weaken}
use blackshard.Prelude.Text.{trim}
use blackshard.Cvd.{CvdError, io, malformed, out_of_fuel, is_utf8}
use blackshard.Cvd.Tar.{
  Disk, TarEntry, Round, stop, entry, Unpacked, Copied, skip, copy_body, next_entry, read_entry,
  after_block, after_read, unless_failed, do_entry, go_on, wanted, padded, unpack_tar, tar_block,
  max_entries, is_zero_block, tar_string, tar_octal, octal_or_zero, octal, max_entry_bytes,
  before_zero,
}
use blackshard.Cvd.Tar.Reader.{ReadCall, Stream, stream_of, read_full, read_stream}
use blackshard.Cvd.Tar.Streams.{unpack_tar-stream}

-- An error of the program.
abbrev IsReal : CvdError → Type 0
IsReal io = Unit
IsReal malformed = Unit
IsReal out_of_fuel = ⊥

abbrev FailsReally : {A : Type 0} → Result CvdError A → Type 0
FailsReally r = Yields (λ _. Unit {0}) IsReal r

abbrev left : Stream → ℕ
left s = length s.0

abbrev NoLonger : Stream → Result CvdError Stream → Type 0
NoLonger s r = Yields (λ t. left t ≤ left s) IsReal r

abbrev Parts : Stream → Bytes × Stream → Type 0
Parts s (got, t) = length got + left t ≡ left s

read_stream_lem : (want : ℕ) (s : Stream) → Yields (Parts s) IsReal (read_stream want s)
unfolding read_stream
read_stream_lem want (s, fails) = elim (Bool-cases (leb want (length s))) [
  | inl enough ↦ rw enough (ground (arith, length-take want s, length-drop want s))
  | inr short ↦ rw short (elim (Bool-cases fails) [ inl f ↦ rw f tt | inr f ↦ rw f (omega arith) ])
]

skip_lem : (fuel count : ℕ) (s : Stream) → count ≤ fuel → NoLonger s (skip read_stream fuel count s)
unfolding skip
skip_lem zero count s h = let z : (count == 0) ≡ true = ground arith in rw z (omega arith)
skip_lem (suc fuel) count s h = elim (Bool-cases (count == 0)) [
  | inl done ↦ rw done (omega arith)
  | inr more ↦ rw more (
      Yields-bind (Parts s) (λ t. left t ≤ left s) IsReal (read_stream (min count (8 * 1024)) s) _
        (read_stream_lem (min count (8 * 1024)) s)
        (λ a _ p. elim (Bool-cases (length a.0 == 0)) [
          | inl e ↦ rw e tt
          | inr e ↦ rw e (
              Yields-weaken (λ t. left t ≤ left a.1) (λ t. left t ≤ left s) IsReal
                (skip read_stream fuel (count - length a.0) a.1) (λ t l. omega arith)
                (skip_lem fuel (count - length a.0) a.1 (ground arith)))
        ]))
]

after_read_lem :
    (want : ℕ) (s : Stream) (r : Result CvdError (Bytes × Stream))
    (next : Bytes → Stream → Copied Stream)
    → Yields (Parts s) IsReal r
    → ((got : Bytes) (t : Stream)
        → length got ≡ want
        → Parts s (got, t)
        → NoLonger s (next got t).1)
    → NoLonger s (after_read want r next).1
after_read_lem want s (error e) next h f = h
after_read_lem want s (ok (got, t)) next h f = elim (Bool-cases (length got == want)) [
  | inl e ↦ rw e (f got t (ground arith) h)
  | inr e ↦ rw e tt
]

copy_body_lem :
    (fuel count : ℕ) (s : Stream) → count ≤ fuel → NoLonger s (copy_body read_stream fuel count s).1
unfolding copy_body
copy_body_lem zero count s h = let z : (count == 0) ≡ true = ground arith in rw z (omega arith)
copy_body_lem (suc fuel) count s h = elim (Bool-cases (count == 0)) [
  | inl done ↦ rw done (omega arith)
  | inr more ↦
      let want = min count (64 * 1024) in
      rw more (
        after_read_lem want s (read_stream want s) _ (read_stream_lem want s) (λ got t e p.
          Yields-weaken (λ u. left u ≤ left t) (λ u. left u ≤ left s) IsReal
            (copy_body read_stream fuel (count - length got) t).1 (λ u l. omega arith)
            (copy_body_lem fuel (count - length got) t (ground arith))))
]

abbrev Shorter : Stream → Round Stream → Type 0
Shorter s stop = Unit
Shorter s (entry e t) = left t < left s

tar_string_lem : (field : Bytes) → FailsReally (tar_string field)
unfolding tar_string
tar_string_lem field = if_split FailsReally (is_utf8 (before_zero field)) tt tt

octal_or_zero_lem : (s : Bytes) → FailsReally (octal_or_zero s)
octal_or_zero_lem [] = tt
octal_or_zero_lem (c ∷ s) = elim (Option-cases (octal (c ∷ s))) [
  | inl e ↦ rw e tt
  | inr (n, e) ↦ rw e tt
]

tar_octal_lem : (field : Bytes) → FailsReally (tar_octal field)
unfolding tar_octal
tar_octal_lem field =
    Yields-bind (λ _. Unit {0}) (λ _. Unit {0}) IsReal (tar_string field) _ (tar_string_lem field)
      (λ text _ _. octal_or_zero_lem (trim text))

read_entry_lem :
    (s t : Stream) (block : Bytes)
    → left t < left s
    → Yields (Shorter s) IsReal (read_entry block t)
read_entry_lem s t block h =
    Yields-bind (λ _. Unit {0}) (Shorter s) IsReal (tar_string (take 100 block)) _
      (tar_string_lem (take 100 block))
      (λ name _ _.
        Yields-bind (λ _. Unit {0}) (Shorter s) IsReal (tar_octal (take 12 (drop 124 block))) _
          (tar_octal_lem (take 12 (drop 124 block)))
          (λ size _ _. if_split (Yields (Shorter s) IsReal) (ltb max_entry_bytes size) tt h))

after_block_lem :
    (s t : Stream) (block : Bytes)
    → Parts s (block, t)
    → Yields (Shorter s) IsReal (after_block block t)
after_block_lem s t block p = elim (Bool-cases (length block == 0)) [
  | inl a ↦ rw a tt
  | inr a ↦ elim (Bool-cases (not (length block == tar_block))) [
    | inl b ↦ rw (a, b) tt
    | inr b ↦ elim (Bool-cases (is_zero_block block)) [
      | inl c ↦ rw (a, b, c) tt
      | inr c ↦ rw (a, b, c) (read_entry_lem s t block (ground arith))
    ]
  ]
]

next_entry_lem :
    (written : ℕ) (s : Stream) → Yields (Shorter s) IsReal (next_entry read_stream written s)
unfolding next_entry
next_entry_lem written s = if_split (Yields (Shorter s) IsReal) (ltb max_entries written) tt (
    Yields-bind (Parts s) (Shorter s) IsReal (read_stream tar_block s) _
      (read_stream_lem tar_block s) (λ a _ p. after_block_lem s a.1 a.0 p))

abbrev Ends : Unpacked → Type 0
Ends u = FailsReally u.1

unless_failed-Ends :
    {R : Type 0} (P : R → Type 0) (disk : Disk) (r : Result CvdError R) (next : R → Unpacked)
    → Yields P IsReal r
    → ((r : R) → P r → Ends (next r))
    → Ends (unless_failed disk r next)
unless_failed-Ends P disk (error e) next h f = h
unless_failed-Ends P disk (ok r) next h f = f r h

module _ (creates : Bytes → Bool) (next : List Bytes → Disk → Stream → Unpacked) where
  do_entry-Ends :
      (written : List Bytes) (e : TarEntry) (s : Stream) (disk : Disk) (base : Option Bytes)
      → ((names : List Bytes) (now : Disk) (t : Stream) → left t ≤ left s → Ends (next names now t))
      → Ends (do_entry read_stream creates written e s disk base next)
  do_entry-Ends written e s disk none f =
      unless_failed-Ends (λ t. left t ≤ left s) disk
        (skip read_stream (padded e.size) (padded e.size) s) (next written disk)
        (skip_lem (padded e.size) (padded e.size) s (omega arith)) (f written disk)
  do_entry-Ends written e s disk (some base) f =
      let gap = padded e.size - e.size in
      if_split Ends (creates base)
        (unless_failed-Ends (λ t. left t ≤ left s) _ (copy_body read_stream e.size e.size s).1 _
          (copy_body_lem e.size e.size s (omega arith))
          (λ t l.
            unless_failed-Ends (λ u. left u ≤ left t) _ (skip read_stream gap gap t) _
              (skip_lem gap gap t (omega arith)) (λ u m. f _ _ u (omega arith))))
        tt

  go_on-Ends :
      (written : List Bytes) (s : Stream) (disk : Disk) (round : Round Stream)
      → Shorter s round
      → ((names : List Bytes) (now : Disk) (t : Stream) → left t < left s → Ends (next names now t))
      → Ends (go_on read_stream creates written disk round next)
  go_on-Ends written s disk stop p f = tt
  go_on-Ends written s disk (entry e t) p f =
      do_entry-Ends written e t disk (wanted e) (λ names now u m. f names now u (omega arith))

unpack_tar-Ends :
    (creates : Bytes → Bool) (fuel : ℕ) (written : List Bytes) (disk : Disk) (s : Stream)
    → left s < fuel
    → Ends (unpack_tar read_stream creates fuel written disk s)
unfolding unpack_tar
unpack_tar-Ends creates zero written disk s h = absurd (omega arith)
unpack_tar-Ends creates (suc fuel) written disk s h =
    unless_failed-Ends (Shorter s) disk (next_entry read_stream (length written) s) _
      (next_entry_lem (length written) s)
      (λ round p.
        go_on-Ends creates (λ names now r. unpack_tar read_stream creates fuel names now r) written
          s disk round p (λ names now u m. unpack_tar-Ends creates fuel names now u (omega arith)))

-- With more fuel than the reader has bytes, the loops over the entries, over a body and over what is
-- skipped end, whatever the bytes are and however the calls divide them: the result is the names
-- or one of the program's own errors.
pub unpack_tar-ends :
    (creates : Bytes → Bool) (fuel : ℕ) (written : List Bytes) (disk : Disk) (calls : List ReadCall)
    → length (stream_of calls).0 < fuel
    → ¬ ((unpack_tar read_full creates fuel written disk calls).1 ≡ error out_of_fuel)
unpack_tar-ends creates fuel written disk calls h e =
    let same = unpack_tar-stream creates fuel written disk calls in
    subst FailsReally (ap (λ (u : Unpacked). u.1) (sym same) ∙ e)
      (unpack_tar-Ends creates fuel written disk (stream_of calls) h)
