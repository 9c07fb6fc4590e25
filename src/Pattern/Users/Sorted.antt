-- ===== src/Pattern/Users/Sorted.antt =====
-- The counting sort gives for each piece the logical signatures that use it.
use blackshard.Prelude.{
  ℕ, zero, suc, ◌+◌, ◌-◌, ◌≤◌, ◌<◌, ◌≡◌, refl, sym, ap, ap₂, ◌∙◌, subst, inl, inr, false, List, [],
  ◌∷◌, ◌++◌, some, ◌==◌, ==_iff, ==_refl, length, length-append, get_elem?, get_elem?-drop,
  get_elem?-append_left, get_elem?-append_right, get_elem?-set_ne, get_or, get_or-get_elem?, set,
  replicate, take, drop, append_assoc, append_nil, arith, Bool-cases, All, All-append,
}
use blackshard.Pattern.Set.{Logical}
use blackshard.Pattern.Users.{
  of, between, Placing, place, increment, sums_from, last_or, build_users,
}
use blackshard.Pattern.Users.Entries.{
  Entry, entries, entries_of, users_of, uses, below, place_all, count_all, place_logicals-entries,
  count_logicals-entries, users_of-append, uses-append, below_mono, length-set, get_or-set, InRange,
}
use blackshard.Pattern.Users.Starts.{starts, starts-below, length-replicate, length-count_all}

-- Where the entries that are placed so far stand, and where the next one of each piece goes.
record Placed (n : ℕ) (all done : List Entry) (p : Placing) : Type 0 where
  next : (q : ℕ) → q < n → get_or p.0 q 0 ≡ below q all + uses q done
  users :
      (q i : ℕ)
      → q < n
      → i < uses q done
      → get_elem? p.1 (below q all + i) ≡ get_elem? (users_of q done) i
  long : length p.1 ≡ below n all
  longer : length p.0 ≡ n + 1

get_elem?-set_at : (xs : List ℕ) (i v : ℕ) → i < length xs → get_elem? (set xs i v) i ≡ some v
get_elem?-set_at [] i v h = absurd (omega arith)
get_elem?-set_at (x ∷ xs) zero v h = refl
get_elem?-set_at (x ∷ xs) (suc i) v h = get_elem?-set_at xs i v (omega arith)

module _ (n : ℕ) (all done : List Entry) (piece index : ℕ) (rest : List Entry)
    (whole : all ≡ done ++ ((piece, index) ∷ rest)) (r : piece < n) (p : Placing)
    (h : Placed n all done p) where
  -- There is room for the entry among those of its piece.
  room : uses piece done < uses piece all
  unfolding users_of
  room =
      let e = ap (uses piece) whole ∙ uses-append piece done ((piece, index) ∷ rest) in
      ground (arith, ==_refl piece)

  at : get_or p.0 piece 0 ≡ below piece all + uses piece done
  at = h.next piece r

  users_of_other :
      (q : ℕ) → (piece == q) ≡ false → users_of q (done ++ ((piece, index) ∷ [])) ≡ users_of q done
  unfolding users_of
  users_of_other q e =
      users_of-append q done ((piece, index) ∷ []) ∙ rw e (append_nil (users_of q done))

  users_of_same :
      users_of piece (done ++ ((piece, index) ∷ [])) ≡ users_of piece done ++ (index ∷ [])
  unfolding users_of
  users_of_same = users_of-append piece done ((piece, index) ∷ []) ∙ rw (==_refl piece) refl

  abbrev after : List Entry
  after = done ++ ((piece, index) ∷ [])

  uses_same : uses piece after ≡ uses piece done + 1
  uses_same = ap (length {A = ℕ}) users_of_same ∙ length-append (users_of piece done) (index ∷ [])

  uses_le : (q : ℕ) → uses q done ≤ uses q all
  uses_le q = let e = ap (uses q) whole ∙ uses-append q done ((piece, index) ∷ rest) in omega arith

  in_bounds : get_or p.0 piece 0 < length p.1
  in_bounds = omega (arith, at, room, below_mono piece n all r, h.long)

  next_after : (q : ℕ) → q < n → get_or (increment p.0 piece) q 0 ≡ below q all + uses q after
  next_after q b = elim (Bool-cases (piece == q)) [
    | inl e ↦
        subst (λ k. get_or (increment p.0 piece) k 0 ≡ below k all + uses k after)
          ((==_iff piece q).0 e)
          (ground (
            arith,
            get_or-set p.0 piece piece (get_or p.0 piece 0 + 1) 0,
            at,
            uses_same,
            ==_refl piece,
            h.longer,
          ))
    | inr e ↦
        let same = ap (length {A = ℕ}) (users_of_other q e) in
        ground (arith, get_or-set p.0 piece q (get_or p.0 piece 0 + 1) 0, h.next q b, h.longer)
  ]

  users_same :
      (i : ℕ)
      → i < uses piece after
      → get_elem? (set p.1 (get_or p.0 piece 0) index) (below piece all + i)
        ≡ get_elem? (users_of piece after) i
  users_same i b = elim (Bool-cases (i == uses piece done)) [
    | inl e ↦
        let same = (==_iff i (uses piece done)).0 e in
        let here : below piece all + i ≡ get_or p.0 piece 0 = omega (arith, at) in
        let last : i ≡ length (users_of piece done) + 0 = omega arith in
        ap (get_elem? (set p.1 (get_or p.0 piece 0) index)) here
        ∙ get_elem?-set_at p.1 (get_or p.0 piece 0) index in_bounds
        ∙ sym (get_elem?-append_right (users_of piece done) (index ∷ []) 0)
        ∙ sym (ap₂ (get_elem? {A = ℕ}) users_of_same last)
    | inr e ↦
        let old : i < uses piece done = ground (arith, uses_same) in
        get_elem?-set_ne p.1 (get_or p.0 piece 0) (below piece all + i) index
          (λ f. ground (arith, at))
        ∙ h.users piece i r old
        ∙ sym (get_elem?-append_left (users_of piece done) (index ∷ []) i old)
        ∙ sym (ap (λ us. get_elem? us i) users_of_same)
  ]

  users_after :
      (q i : ℕ)
      → q < n
      → i < uses q after
      → get_elem? (set p.1 (get_or p.0 piece 0) index) (below q all + i)
        ≡ get_elem? (users_of q after) i
  users_after q i b c = elim (Bool-cases (piece == q)) [
    | inl e ↦
        let same = (==_iff piece q).0 e in
        subst
          (λ k.
            i < uses k after
            → get_elem? (set p.1 (get_or p.0 piece 0) index) (below k all + i)
              ≡ get_elem? (users_of k after) i)
          same (users_same i) c
    | inr e ↦
        let other = users_of_other q e in
        let old : i < uses q done = omega (arith, ap (length {A = ℕ}) other) in
        get_elem?-set_ne p.1 (get_or p.0 piece 0) (below q all + i) index
          (λ f. ground (arith, at, room, uses_le q, below_mono q piece all, below_mono piece q all))
        ∙ h.users q i b old
        ∙ sym (ap (λ us. get_elem? us i) other)
  ]

  place-Placed : Placed n all after (place index piece p)
  place-Placed = record {
    next = next_after;
    users = users_after;
    long = length-set p.1 (get_or p.0 piece 0) index ∙ h.long;
    longer = length-set p.0 piece (get_or p.0 piece 0 + 1) ∙ h.longer;
  }

place_all-Placed :
    (n : ℕ) (all done rest : List Entry) (p : Placing)
    → all ≡ done ++ rest
    → InRange n rest
    → Placed n all done p
    → Placed n all all (place_all rest p)
unfolding place_all
place_all-Placed n all done [] p e r h =
    subst (λ es. Placed n all es p) (sym (e ∙ append_nil done)) h
place_all-Placed n all done ((piece, index) ∷ rest) p e r h =
    place_all-Placed n all (done ++ ((piece, index) ∷ [])) rest (place index piece p)
      (e ∙ sym (append_assoc done ((piece, index) ∷ []) rest)) r.1
      (place-Placed n all done piece index rest e r.0 p h)

length-sums_from : (sum : ℕ) (ns : List ℕ) → length (sums_from sum ns) ≡ length ns
unfolding sums_from
length-sums_from sum [] = refl
length-sums_from sum (n ∷ ns) = ap suc (length-sums_from (sum + n) ns)

last_or-at :
    (d : ℕ) (xs : List ℕ) (k v : ℕ) → length xs ≡ suc k → get_elem? xs k ≡ some v → last_or d xs ≡ v
unfolding last_or
last_or-at d [] k v l h = absurd (omega arith)
last_or-at d (x ∷ []) zero v l h = cc
last_or-at d (x ∷ []) (suc k) v l h = cc
last_or-at d (x ∷ y ∷ xs) zero v l h = absurd (omega arith)
last_or-at d (x ∷ y ∷ xs) (suc k) v l h = last_or-at x (y ∷ xs) k v (omega arith) h

take-same :
    (ys zs : List ℕ)
    → ((i : ℕ) → i < length ys → get_elem? zs i ≡ get_elem? ys i)
    → take (length ys) zs ≡ ys
take-same [] zs h = refl
take-same (y ∷ ys) [] h = let e = h 0 (omega arith) in cc
take-same (y ∷ ys) (z ∷ zs) h =
    let e = h 0 (omega arith) in let rest = take-same ys zs (λ i l. h (suc i) (omega arith)) in cc

module _ (n : ℕ) (es : List Entry) (r : InRange n es) where
  start-Placed : Placed n es [] (starts n es r, replicate (last_or 0 (starts n es r)) 0)
  unfolding users_of
  start-Placed =
      let s = starts n es r in
      let long : length s ≡ suc n =
        length-sums_from 0 (count_all es (replicate (n + 1) 0))
        ∙ length-count_all es (replicate (n + 1) 0)
        ∙ length-replicate (n + 1) 0
        ∙ omega arith in
      let end : last_or 0 s ≡ below n es =
        last_or-at 0 s n (below n es) long (starts-below n es r n (omega arith)) in
      record {
        next = λ q l.
            get_or-get_elem? s q (below q es) 0 (starts-below n es r q (omega arith)) ∙ omega arith;
        users = λ q i l k. absurd (omega arith);
        long = length-replicate (last_or 0 s) 0 ∙ end;
        longer = long ∙ omega arith;
      }

  sorted :
      (p : ℕ)
      → p < n
      → between
          (place_all es (starts n es r, replicate (last_or 0 (starts n es r)) 0)).1
          (get_elem? (starts n es r) p)
          (get_elem? (starts n es r) (p + 1))
        ≡ users_of p es
  sorted p l =
      let s = starts n es r in
      let placed = place_all-Placed n es [] es (s, replicate (last_or 0 s) 0) refl r start-Placed in
      let us = (place_all es (s, replicate (last_or 0 s) 0)).1 in
      let from = starts-below n es r p (omega arith) in
      let to : get_elem? s (p + 1) ≡ some (below p es + uses p es) =
        ap (get_elem? s) (omega arith) ∙ starts-below n es r (suc p) (omega arith) in
      let width : below p es + uses p es - below p es ≡ uses p es = omega arith in
      rw (from, to, width)
        (take-same (users_of p es) (drop (below p es) us)
          (λ i k. get_elem?-drop (below p es) us i ∙ placed.users p i l k))

-- Every piece that a logical signature refers to is one of the `n`.
abbrev pub AllInRange : ℕ → List Logical → Type 0
AllInRange n logicals = All (λ (l : Logical). All (λ p. p < n) l.pieces) logicals

entries_of-InRange :
    (n index : ℕ) (pieces : List ℕ) → All (λ p. p < n) pieces → InRange n (entries_of index pieces)
entries_of-InRange n index [] h = tt
entries_of-InRange n index (p ∷ pieces) h = (h.0, entries_of-InRange n index pieces h.1)

entries-InRange :
    (n index : ℕ) (logicals : List Logical)
    → AllInRange n logicals
    → InRange n (entries index logicals)
entries-InRange n index [] h = tt
entries-InRange n index (l ∷ logicals) h =
    All-append (λ (entry : Entry). entry.0 < n) (entries_of index l.pieces)
      (entries (index + 1) logicals) (entries_of-InRange n index l.pieces h.0)
      (entries-InRange n (index + 1) logicals h.1)

-- The users of a piece are the logical signatures that refer to it, in order, each as often as it
-- does, when all pieces that are referred to are among the signatures.
pub of-build_users :
    (n : ℕ) (logicals : List Logical) (piece : ℕ)
    → AllInRange n logicals
    → piece < n
    → of (build_users n logicals) piece ≡ users_of piece (entries 0 logicals)
unfolding build_users
of-build_users n logicals piece h l =
    let es = entries 0 logicals in
    let r = entries-InRange n 0 logicals h in
    rw
      (count_logicals-entries 0 logicals (replicate (n + 1) 0), place_logicals-entries 0 logicals _)
      (sorted n es r piece l)
