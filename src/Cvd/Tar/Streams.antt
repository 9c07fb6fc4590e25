-- ===== src/Cvd/Tar/Streams.antt =====
-- Unpacking depends on the bytes that the reader gives, and not on how its calls divide them.
use blackshard.Prelude.{
  ℕ, zero, suc, ◌-◌, ◌*◌, min, ◌≡◌, refl, sym, ap, ◌∙◌, ◌⊎◌, inl, inr, Bool, not, List, [], ◌∷◌,
  ◌++◌, Option, none, some, ltb, ◌==◌, length, take, drop, arith, Bool-cases,
}
use blackshard.Prelude.Bytes.{Bytes}
use blackshard.Prelude.Results.{Result, ok, error}
use blackshard.Cvd.{CvdError}
use blackshard.Cvd.Tar.{
  Read, Disk, TarEntry, Round, stop, entry, Unpacked, Copied, skip, copy_body, next_entry,
  read_entry, after_block, written_before, unless_failed, do_entry, go_on, wanted, padded,
  unpack_tar, tar_block, max_entries, is_zero_block, tar_string, tar_octal, max_entry_bytes,
}
use blackshard.Cvd.Tar.Reader.{
  ReadCall, stream_of, read_full, read_stream, map_rest, read_full-stream,
}

pub Result-cases :
    {A : Type 0} (r : Result CvdError A) → ((e : CvdError) × (r ≡ error e)) ⊎ ((a : A) × (r ≡ ok a))
Result-cases (error e) = inl (e, refl)
Result-cases (ok a) = inr (a, refl)

-- A reader that gives what another one gives, for what `f` makes of it.
module _ {R F : Type 0} (f : R → F) (read : Read R) (read' : Read F)
    (same : (n : ℕ) (r : R) → map_rest f (read n r) ≡ read' n (f r)) where
  abbrev over : Result CvdError R → Result CvdError F
  over (error e) = error e
  over (ok r) = ok (f r)

  abbrev over_copied : Copied R → Copied F
  over_copied (content, r) = (content, over r)

  abbrev over_round : Round R → Round F
  over_round stop = stop
  over_round (entry e r) = entry e (f r)

  abbrev over_next : Result CvdError (Round R) → Result CvdError (Round F)
  over_next (error e) = error e
  over_next (ok round) = ok (over_round round)

  skip-over : (fuel count : ℕ) (r : R) → over (skip read fuel count r) ≡ skip read' fuel count (f r)
  unfolding skip
  skip-over zero count r = ground arith
  skip-over (suc fuel) count r = elim (Bool-cases (count == 0)) [
    | inl done ↦ rw done refl
    | inr more ↦
        let want = min count (8 * 1024) in
        elim (Result-cases (read want r)) [
          | inl (e, k) ↦ let k' = sym (same want r) ∙ ap (map_rest f) k in rw (more, k, k') refl
          | inr (a, k) ↦
              let k' = sym (same want r) ∙ ap (map_rest f) k in
              rw (more, k, k')
                (elim (Bool-cases (length a.0 == 0)) [
                  | inl e ↦ rw e refl
                  | inr e ↦ rw e (skip-over fuel (count - length a.0) a.1)
                ])
        ]
  ]

  written-over :
      (got : Bytes) (c : Copied R)
      → over_copied (written_before got c) ≡ written_before got (over_copied c)
  written-over got (content, r) = refl

  copy_body-over :
      (fuel remaining : ℕ) (r : R)
      → over_copied (copy_body read fuel remaining r) ≡ copy_body read' fuel remaining (f r)
  unfolding copy_body
  copy_body-over zero remaining r = elim (Bool-cases (remaining == 0)) [
    | inl e ↦ rw e refl
    | inr e ↦ rw e refl
  ]
  copy_body-over (suc fuel) remaining r = elim (Bool-cases (remaining == 0)) [
    | inl done ↦ rw done refl
    | inr more ↦
        let want = min remaining (64 * 1024) in
        elim (Result-cases (read want r)) [
          | inl (e, k) ↦ let k' = sym (same want r) ∙ ap (map_rest f) k in rw (more, k, k') refl
          | inr (a, k) ↦
              let k' = sym (same want r) ∙ ap (map_rest f) k in
              rw (more, k, k')
                (elim (Bool-cases (length a.0 == want)) [
                  | inl e ↦ rw e (
                      written-over a.0 (copy_body read fuel (remaining - length a.0) a.1)
                      ∙ ap (written_before a.0) (copy_body-over fuel (remaining - length a.0) a.1))
                  | inr e ↦ rw e refl
                ])
        ]
  ]

  read_entry-over :
      (block : Bytes) (r : R) → over_next (read_entry block r) ≡ read_entry block (f r)
  read_entry-over block r = elim (Result-cases (tar_string (take 100 block))) [
    | inl (e, k) ↦ rw k refl
    | inr (name, k) ↦ elim (Result-cases (tar_octal (take 12 (drop 124 block)))) [
      | inl (e, l) ↦ rw (k, l) refl
      | inr (size, l) ↦
          rw (k, l)
            (elim (Bool-cases (ltb max_entry_bytes size)) [ inl b ↦ rw b refl | inr b ↦ rw b refl ])
    ]
  ]

  after_block-over :
      (block : Bytes) (r : R) → over_next (after_block block r) ≡ after_block block (f r)
  after_block-over block r = elim (Bool-cases (length block == 0)) [
    | inl a ↦ rw a refl
    | inr a ↦ elim (Bool-cases (not (length block == tar_block))) [
      | inl b ↦ rw (a, b) refl
      | inr b ↦ elim (Bool-cases (is_zero_block block)) [
        | inl c ↦ rw (a, b, c) refl
        | inr c ↦ rw (a, b, c) (read_entry-over block r)
      ]
    ]
  ]

  next_entry-over :
      (written : ℕ) (r : R) → over_next (next_entry read written r) ≡ next_entry read' written (f r)
  unfolding next_entry
  next_entry-over written r = elim (Bool-cases (ltb max_entries written)) [
    | inl many ↦ rw many refl
    | inr few ↦ elim (Result-cases (read tar_block r)) [
      | inl (e, k) ↦ let k' = sym (same tar_block r) ∙ ap (map_rest f) k in rw (few, k, k') refl
      | inr (a, k) ↦
          let k' = sym (same tar_block r) ∙ ap (map_rest f) k in
          rw (few, k, k') (after_block-over a.0 a.1)
    ]
  ]

  unless_failed-over :
      (disk : Disk) (x : Result CvdError R) (y : Result CvdError F) (next : R → Unpacked)
      (next' : F → Unpacked)
      → over x ≡ y
      → ((r : R) → next r ≡ next' (f r))
      → unless_failed disk x next ≡ unless_failed disk y next'
  unless_failed-over disk (error e) y next next' h k = ap (λ z. unless_failed disk z next') h
  unless_failed-over disk (ok r) y next next' h k = k r ∙ ap (λ z. unless_failed disk z next') h

  module _ (creates : Bytes → Bool) (next : List Bytes → Disk → R → Unpacked)
      (next' : List Bytes → Disk → F → Unpacked)
      (h : (names : List Bytes) (now : Disk) (r : R)
        → next names now r ≡ next' names now (f r)) where
    do_entry-over :
        (written : List Bytes) (e : TarEntry) (r : R) (disk : Disk) (base : Option Bytes)
        → do_entry read creates written e r disk base next
          ≡ do_entry read' creates written e (f r) disk base next'
    do_entry-over written e r disk none =
        unless_failed-over disk (skip read (padded e.size) (padded e.size) r)
          (skip read' (padded e.size) (padded e.size) (f r)) (next written disk)
          (next' written disk) (skip-over (padded e.size) (padded e.size) r) (h written disk)
    do_entry-over written e r disk (some base) = elim (Bool-cases (creates base)) [
      | inr no_file ↦ rw no_file refl
      | inl made ↦
          let names = written ++ (base ∷ []) in
          let copied = copy_body-over e.size e.size r in
          let content = ap (λ (c : Copied F). c.0) copied in
          let put : Bytes → Disk = λ s. record { name = base; content = s } ∷ disk in
          let now = put (copy_body read e.size e.size r).0 in
          let now' = put (copy_body read' e.size e.size (f r)).0 in
          let same_disk : now ≡ now' = ap put content in
          let gap = padded e.size - e.size in
          rw made (
            unless_failed-over now (copy_body read e.size e.size r).1
              (copy_body read' e.size e.size (f r)).1
              (λ r. unless_failed now (skip read gap gap r) (next names now))
              (λ r. unless_failed now (skip read' gap gap r) (next' names now))
              (ap (λ (c : Copied F). c.1) copied)
              (λ r.
                unless_failed-over now (skip read gap gap r) (skip read' gap gap (f r))
                  (next names now) (next' names now) (skip-over gap gap r) (h names now))
            ∙ ap
                (λ (d : Disk).
                  unless_failed d (copy_body read' e.size e.size (f r)).1
                    (λ r. unless_failed d (skip read' gap gap r) (next' names d)))
                same_disk)
    ]

    go_on-over :
        (written : List Bytes) (disk : Disk) (round : Round R)
        → go_on read creates written disk round next
          ≡ go_on read' creates written disk (over_round round) next'
    go_on-over written disk stop = refl
    go_on-over written disk (entry e r) = do_entry-over written e r disk (wanted e)

  pub unpack_tar-over :
      (creates : Bytes → Bool) (fuel : ℕ) (written : List Bytes) (disk : Disk) (r : R)
      → unpack_tar read creates fuel written disk r
        ≡ unpack_tar read' creates fuel written disk (f r)
  unfolding unpack_tar
  unpack_tar-over creates zero written disk r = refl
  unpack_tar-over creates (suc fuel) written disk r =
      let next =
        λ (names : List Bytes) (now : Disk) (r : R). unpack_tar read creates fuel names now r in
      let next' =
        λ (names : List Bytes) (now : Disk) (r : F). unpack_tar read' creates fuel names now r in
      let rounds = go_on-over creates next next' (unpack_tar-over creates fuel) written disk in
      elim (Result-cases (next_entry read (length written) r)) [
        | inl (e, k) ↦
            let k' = sym (next_entry-over (length written) r) ∙ ap over_next k in rw (k, k') refl
        | inr (round, k) ↦
            let k' = sym (next_entry-over (length written) r) ∙ ap over_next k in
            rw (k, k') (rounds round)
      ]

-- What is unpacked, and the error if there is one, depends on the bytes up to the end or the first
-- error, and not on how the calls of the reader divide them or how often one is interrupted.
pub unpack_tar-stream :
    (creates : Bytes → Bool) (fuel : ℕ) (written : List Bytes) (disk : Disk) (calls : List ReadCall)
    → unpack_tar read_full creates fuel written disk calls
      ≡ unpack_tar read_stream creates fuel written disk (stream_of calls)
unpack_tar-stream creates fuel written disk calls =
    unpack_tar-over stream_of read_full read_stream read_full-stream creates fuel written disk calls
