-- ===== src/Cvd/Signed.antt =====
-- src/clamdb/cvd.rs: what it means that `verify_signature` accepts a header.
use blackshard.Cvd.Powers.{modpow-power}
use blackshard.Cvd.Digits.{
  Spells, signature_value-Spells, Spells-signature_value, hex_number_unique, hex_number-bound,
  hex_number, hex_number-lowercase, hex_number-encode, length-hex_encode, length-lowercase,
}
use blackshard.Prelude.{
  ◌+◌, subst, some, ◌↔◌, false, ◌*◌, ◌%◌, ◌<◌, length, ℕ, ◌^◌, ◌≡◌, refl, sym, ap, ◌∙◌, inl, inr,
  true, ◌||◌, [], ◌∷◌, leb, ◌==◌, arith, Bool-cases,
}
use blackshard.Prelude.Bytes.{Bytes, bytes_eq, to_ascii_lowercase}
use blackshard.Prelude.Results.{ok}
use blackshard.Cvd.{
  CvdHeader, verify_signature, signature_value, modpow, clamav_modulus, clamav_exponent, hex_encode,
}
use blackshard.Cvd.Tar.Streams.{Result-cases}

bytes_eq-equal : (s t : Bytes) → bytes_eq s t ≡ true → s ≡ t
unfolding bytes_eq
bytes_eq-equal [] [] h = refl
bytes_eq-equal [] (d ∷ t) h = cc h
bytes_eq-equal (c ∷ s) [] h = cc h
bytes_eq-equal (c ∷ s) (d ∷ t) h =
    let e : c ≡ d = ground arith in
    let rest : bytes_eq s t ≡ true = ground arith in cc (e, bytes_eq-equal s t rest)

exponent_fits : clamav_exponent < 2 ^ 27
unfolding clamav_exponent
exponent_fits = omega arith

below_size : (n : ℕ) → leb (2 ^ 128) n ≡ false → n < 256 ^ 16
below_size n h = ground arith

-- The digest that a signature carries.
abbrev digest_of : ℕ → ℕ
digest_of value = modpow 27 value clamav_exponent clamav_modulus

-- What the key's owner vouches for: the digest is the power of the signature.
pub record IsSigned (h : CvdHeader) : Type 0 where
  pub value : ℕ
  pub spelled : Spells h.signature value
  pub positive : 0 < value
  pub below : value < clamav_modulus
  pub size : length h.md5 ≡ 32
  pub digest : hex_number 0 h.md5 ≡ some (value ^ clamav_exponent % clamav_modulus)

-- With a digest that the check accepts.
accepted-IsSigned :
    (h : CvdHeader) (v : ℕ)
    → signature_value 1 0 h.signature ≡ ok v
    → (v == 0 || leb clamav_modulus v) ≡ false
    → leb (2 ^ 128) (digest_of v) ≡ false
    → to_ascii_lowercase (hex_encode 16 (digest_of v) []) ≡ to_ascii_lowercase h.md5
    → IsSigned h
unfolding hex_number
accepted-IsSigned h v k good small same =
    let (r, spelled, e) = signature_value-Spells 1 0 h.signature v k in
    let equal : r ≡ v = omega (arith, e) in
    let encoded = hex_encode 16 (digest_of v) [] in
    let power : digest_of v ≡ v ^ clamav_exponent % clamav_modulus =
      modpow-power 27 v clamav_exponent clamav_modulus exponent_fits in
    record {
      value = v;
      spelled = subst (Spells h.signature) equal spelled;
      positive = ground arith;
      below = ground arith;
      size =
          sym (length-lowercase h.md5)
          ∙ ap length (sym same)
          ∙ length-lowercase encoded
          ∙ length-hex_encode 16 (digest_of v) [];
      digest =
          sym (hex_number-lowercase 0 h.md5)
          ∙ ap (hex_number 0) (sym same)
          ∙ hex_number-lowercase 0 encoded
          ∙ hex_number-encode 16 (digest_of v) [] (below_size (digest_of v) small)
          ∙ ap some power;
    }

verify_signature-IsSigned : (h : CvdHeader) → verify_signature h ≡ ok tt → IsSigned h
unfolding verify_signature
verify_signature-IsSigned h e = elim (Result-cases (signature_value 1 0 h.signature)) [
  | inl (why, k) ↦ cc (rw (k, verify_signature) at e)
  | inr (v, k) ↦ elim (Bool-cases (v == 0 || leb clamav_modulus v)) [
    | inl bad ↦ cc (rw (k, verify_signature, bad) at e)
    | inr good ↦ elim (Bool-cases (leb (2 ^ 128) (digest_of v))) [
      | inl bad ↦ cc (rw (k, verify_signature, good, bad) at e)
      | inr small ↦
          let encoded = to_ascii_lowercase (hex_encode 16 (digest_of v) []) in
          elim (Bool-cases (bytes_eq encoded (to_ascii_lowercase h.md5))) [
            | inl same ↦
                accepted-IsSigned h v k good small
                  (bytes_eq-equal encoded (to_ascii_lowercase h.md5) same)
            | inr other ↦ cc (rw (k, verify_signature, good, small, other) at e)
          ]
    ]
  ]
]

bytes_eq_refl : (s : Bytes) → bytes_eq s s ≡ true
unfolding bytes_eq
bytes_eq_refl [] = refl
bytes_eq_refl (c ∷ s) = ground (arith, bytes_eq_refl s)

-- What the check asks for is enough.
accepts :
    (h : CvdHeader) (v : ℕ)
    → signature_value 1 0 h.signature ≡ ok v
    → (v == 0 || leb clamav_modulus v) ≡ false
    → leb (2 ^ 128) (digest_of v) ≡ false
    → to_ascii_lowercase (hex_encode 16 (digest_of v) []) ≡ to_ascii_lowercase h.md5
    → verify_signature h ≡ ok tt
unfolding verify_signature
accepts h v k good small same =
    let encoded = to_ascii_lowercase (hex_encode 16 (digest_of v) []) in
    let equal : bytes_eq encoded (to_ascii_lowercase h.md5) ≡ true =
      ap (bytes_eq encoded) (sym same) ∙ bytes_eq_refl encoded in
    rw (verify_signature, k, good, small, equal) refl

above_size : (n : ℕ) → n < (0 + 1) * 16 ^ 32 → leb (2 ^ 128) n ≡ false
above_size n h = ground arith

times_one : (v : ℕ) → 0 + v * 1 ≡ v
times_one v = omega arith

in_range : (v : ℕ) → 0 < v → v < clamav_modulus → (v == 0 || leb clamav_modulus v) ≡ false
in_range v p b = ground arith

IsSigned-verify_signature : (h : CvdHeader) → IsSigned h → verify_signature h ≡ ok tt
unfolding hex_number
IsSigned-verify_signature h s =
    let v = s.value in
    let read : signature_value 1 0 h.signature ≡ ok v =
      Spells-signature_value 1 0 h.signature v s.spelled ∙ ap ok (times_one v) in
    let power : digest_of v ≡ v ^ clamav_exponent % clamav_modulus =
      modpow-power 27 v clamav_exponent clamav_modulus exponent_fits in
    let digest : hex_number 0 h.md5 ≡ some (digest_of v) = s.digest ∙ ap some (sym power) in
    let bound : digest_of v < (0 + 1) * 16 ^ 32 =
      subst (λ k. digest_of v < (0 + 1) * 16 ^ k) s.size
        (hex_number-bound 0 h.md5 (digest_of v) digest) in
    let small = above_size (digest_of v) bound in
    let encoded = hex_encode 16 (digest_of v) [] in
    let spelled : hex_number 0 encoded ≡ some (digest_of v) =
      hex_number-encode 16 (digest_of v) [] (below_size (digest_of v) small) in
    accepts h v read (in_range v s.positive s.below) small
      (hex_number_unique 0 0 encoded h.md5 (digest_of v)
        (length-hex_encode 16 (digest_of v) [] ∙ sym s.size) spelled digest).1

-- A header verifies exactly when it is signed: its signature spells a number above zero and below the
-- modulus, and its digest is 32 hexadecimal digits, in either case, of the power of that number to
-- the public exponent, modulo the public key.
pub verify_signature_iff : (h : CvdHeader) → verify_signature h ≡ ok tt ↔ IsSigned h
verify_signature_iff h = (verify_signature-IsSigned h, IsSigned-verify_signature h)
