-- ===== src/Cvd/Tar/Plain.antt =====
-- Whatever an archive holds, the files that are written have plain names.
use blackshard.Prelude.{
  ℕ, zero, suc, ◌-◌, ◌<◌, ◌≡◌, refl, sym, subst, inl, inr, Bool, false, ◌||◌, List, [], ◌∷◌, ◌++◌,
  Option, none, some, ◌==◌, if_split, length, All, arith, Bool-cases, Option-cases,
}
use blackshard.Prelude.Bytes.{Bytes}
use blackshard.Prelude.Results.{Result, ok, error}
use blackshard.Prelude.Text.{trim, to_first}
use blackshard.Cvd.{CvdError}
use blackshard.Cvd.Tar.Paths.{
  is_separator, path_pieces, is_dot, is_dots, Component, component, later_components, has_drive,
  starts_with_separator, from_pieces, components, contains_backslash, single_normal,
  safe_entry_name,
}
use blackshard.Cvd.Tar.{
  Read, File, Disk, skip, copy_body, next_entry, Round, stop, entry, TarEntry, wanted, is_regular,
  padded, unless_failed, do_entry, go_on, unpack_tar, Unpacked,
}

-- The name of a file in the directory itself.
pub record IsPlain (n : Bytes) : Type 0 where
  pub nonempty : 0 < length n
  pub no_separator : All (λ c. is_separator c ≡ false) n
  pub no_dot : is_dot n ≡ false
  pub no_dots : is_dots n ≡ false
  pub no_drive : has_drive n ≡ false

abbrev NoSeparator : Bytes → Type 0
NoSeparator s = All (λ c. is_separator c ≡ false) s

to_first-All :
    (c : ℕ) (fields : List Bytes)
    → is_separator c ≡ false
    → All NoSeparator fields
    → All NoSeparator (to_first c fields)
to_first-All c [] h a = ((h, tt), tt)
to_first-All c (f ∷ fields) h a = ((h, a.0), a.1)

path_pieces-All : (s : Bytes) → All NoSeparator (path_pieces s)
unfolding path_pieces
path_pieces-All [] = (tt, tt)
path_pieces-All (c ∷ s) = elim (Bool-cases (is_separator c)) [
  | inl e ↦ rw e (tt, path_pieces-All s)
  | inr e ↦ rw e (to_first-All c (path_pieces s) e (path_pieces-All s))
]

path_pieces-cons : (s : Bytes) → (f : Bytes) × (rest : List Bytes) × (path_pieces s ≡ f ∷ rest)
unfolding path_pieces
path_pieces-cons [] = ([], [], refl)
path_pieces-cons (c ∷ s) =
    let (f, rest, e) = path_pieces-cons s in
    elim (Bool-cases (is_separator c)) [
      | inl k ↦ ([], path_pieces s, rw k refl)
      | inr k ↦ (c ∷ f, rest, rw (k, e) refl)
    ]

abbrev Starts : Bytes → Type 0
Starts f = (0 < length f) × (has_drive f ≡ false)

-- The first piece starts as the text does.
first_piece :
    (s f : Bytes) (rest : List Bytes)
    → path_pieces s ≡ f ∷ rest
    → 0 < length s
    → starts_with_separator s ≡ false
    → has_drive s ≡ false
    → (0 < length f) × (has_drive f ≡ false)
unfolding path_pieces
first_piece [] f rest e l h d = absurd (omega arith)
first_piece (c ∷ []) f rest e l h d =
    let k : c ∷ [] ≡ f = cc (rw h at e) in subst Starts k (omega arith, refl)
first_piece (c ∷ b ∷ s) f rest e l h d =
    let (g, gs, q) = path_pieces-cons s in
    elim (Bool-cases (is_separator b)) [
      | inl sep ↦ let k : c ∷ [] ≡ f = cc (rw (h, sep) at e) in subst Starts k (omega arith, refl)
      | inr no_sep ↦
          let k : c ∷ b ∷ g ≡ f = cc (rw (h, no_sep, q) at e) in subst Starts k (omega arith, d)
    ]

-- A single normal component is the text that it was made of.
single_component :
    (f : Bytes) (more : List Component) (n : Bytes)
    → single_normal (component f ∷ more) ≡ some n
    → (n ≡ f) × (is_dot n ≡ false) × (is_dots n ≡ false)
single_component f (c ∷ more) n h = elim (Bool-cases (is_dots f)) [
  | inl dots ↦ cc (rw (dots, component) at h)
  | inr no_dots ↦ cc (rw (no_dots, component) at h)
]
single_component f [] n h = elim (Bool-cases (is_dots f)) [
  | inl dots ↦ cc (rw (dots, component) at h)
  | inr no_dots ↦
      let h' = rw (no_dots, component) at h in
      elim (Bool-cases (is_dot f || is_dots f || contains_backslash f)) [
        | inl bad ↦ cc (rw bad at h')
        | inr good ↦
            let e : f ≡ n = cc (rw good at h') in
            subst (λ m. (m ≡ f) × (is_dot m ≡ false) × (is_dots m ≡ false)) e
              (refl, ground arith, ground arith)
      ]
]

single_piece :
    (f : Bytes) (rest : List Bytes) (n : Bytes)
    → 0 < length f
    → single_normal (from_pieces (f ∷ rest)) ≡ some n
    → (n ≡ f) × (is_dot n ≡ false) × (is_dots n ≡ false)
unfolding later_components
single_piece f rest n l h = elim (Bool-cases (is_dot f)) [
  | inl dot ↦ cc (rw (dot, from_pieces) at h)
  | inr no_dot ↦
      let long : (length f == 0) ≡ false = ground arith in
      let e : from_pieces (f ∷ rest) ≡ component f ∷ later_components rest =
        rw (no_dot, from_pieces, long) refl in
      single_component f (later_components rest) n (subst (λ cs. single_normal cs ≡ some n) e h)
]

named-IsPlain : (t n : Bytes) → 0 < length t → single_normal (components t) ≡ some n → IsPlain n
unfolding components
named-IsPlain t n l h = elim (Bool-cases (has_drive t)) [
  | inl drive ↦ cc (rw (drive, components) at h)
  | inr no_drive ↦ elim (Bool-cases (starts_with_separator t)) [
    | inl sep ↦ cc (rw (no_drive, components, sep) at h)
    | inr no_sep ↦
        let (f, rest, e) = path_pieces-cons t in
        let h' : single_normal (from_pieces (f ∷ rest)) ≡ some n =
          subst (λ ps. single_normal (from_pieces ps) ≡ some n) e
            (rw (no_drive, components, no_sep) at h) in
        let (long, drive) = first_piece t f rest e l no_sep no_drive in
        let (same, dot, dots) = single_piece f rest n long h' in
        record {
          nonempty = subst (λ m. 0 < length m) (sym same) long;
          no_separator =
              subst NoSeparator (sym same) (subst (All NoSeparator) e (path_pieces-All t)).0;
          no_dot = dot;
          no_dots = dots;
          no_drive = subst (λ m. has_drive m ≡ false) (sym same) drive;
        }
  ]
]

safe_entry_name-IsPlain : (name n : Bytes) → safe_entry_name name ≡ some n → IsPlain n
unfolding safe_entry_name
safe_entry_name-IsPlain name n h = elim (Bool-cases (length (trim name) == 0)) [
  | inl empty ↦ cc (rw (empty, safe_entry_name) at h)
  | inr full ↦ named-IsPlain (trim name) n (ground arith) (rw (full, safe_entry_name) at h)
]

abbrev pub AllPlain : Disk → Type 0
AllPlain disk = All (λ (f : File). IsPlain f.name) disk

wanted-IsPlain : (e : TarEntry) (base : Bytes) → wanted e ≡ some base → IsPlain base
wanted-IsPlain e base h = elim (Option-cases (safe_entry_name e.name)) [
  | inl none_safe ↦ cc (rw (none_safe, wanted) at h)
  | inr (safe, k) ↦ elim (Bool-cases (is_regular e.flag)) [
    | inl regular ↦
        let same : safe ≡ base = cc (rw (k, wanted, regular) at h) in
        subst IsPlain same (safe_entry_name-IsPlain e.name safe k)
    | inr other ↦ cc (rw (k, wanted, other) at h)
  ]
]

unless_failed-AllPlain :
    {R : Type 0} (disk : Disk) (r : Result CvdError R) (next : R → Unpacked)
    → AllPlain disk
    → ((r : R) → AllPlain (next r).0)
    → AllPlain (unless_failed disk r next).0
unless_failed-AllPlain disk (error why) next a f = a
unless_failed-AllPlain disk (ok r) next a f = f r

module _ {R : Type 0} (read : Read R) (creates : Bytes → Bool) where
  do_entry-AllPlain :
      (written : List Bytes) (e : TarEntry) (r : R) (disk : Disk) (base : Option Bytes)
      (next : List Bytes → Disk → R → Unpacked)
      → AllPlain disk
      → ((b : Bytes) → base ≡ some b → IsPlain b)
      → ((names : List Bytes) (now : Disk) (r : R) → AllPlain now → AllPlain (next names now r).0)
      → AllPlain (do_entry read creates written e r disk base next).0
  do_entry-AllPlain written e r disk none next a p f =
      unless_failed-AllPlain disk (skip read (padded e.size) (padded e.size) r) (next written disk)
        a (λ r. f written disk r a)
  do_entry-AllPlain written e r disk (some base) next a p f =
      let names = written ++ (base ∷ []) in
      let copied = copy_body read e.size e.size r in
      let now = record { name = base; content = copied.0 } ∷ disk in
      let plain : AllPlain now = (p base refl, a) in
      if_split (λ (u : Unpacked). AllPlain u.0) (creates base)
        (unless_failed-AllPlain now copied.1 _ plain (λ r.
          unless_failed-AllPlain now (skip read (padded e.size - e.size) (padded e.size - e.size) r)
            (next names now) plain (λ r. f names now r plain)))
        a

  go_on-AllPlain :
      (written : List Bytes) (disk : Disk) (round : Round R)
      (next : List Bytes → Disk → R → Unpacked)
      → AllPlain disk
      → ((names : List Bytes) (now : Disk) (r : R) → AllPlain now → AllPlain (next names now r).0)
      → AllPlain (go_on read creates written disk round next).0
  go_on-AllPlain written disk stop next a f = a
  go_on-AllPlain written disk (entry e r) next a f =
      do_entry-AllPlain written e r disk (wanted e) next a (λ b h. wanted-IsPlain e b h) f

  -- Whatever the reader gives, and whether the archive is refused or not, no file is written under a
  -- name with a separator, a drive, or dots alone.
  pub unpack_tar-AllPlain :
      (fuel : ℕ) (written : List Bytes) (disk : Disk) (r : R)
      → AllPlain disk
      → AllPlain (unpack_tar read creates fuel written disk r).0
  unfolding unpack_tar
  unpack_tar-AllPlain zero written disk r a = a
  unpack_tar-AllPlain (suc fuel) written disk r a =
      unless_failed-AllPlain disk (next_entry read (length written) r)
        (λ round.
          go_on read creates written disk round
            (λ names now r. unpack_tar read creates fuel names now r))
        a
        (λ round.
          go_on-AllPlain written disk round
            (λ names now r. unpack_tar read creates fuel names now r) a
            (λ names now r b. unpack_tar-AllPlain fuel names now r b))
