-- ===== src/Convert/Bounds.antt =====
-- The bounds of what `readLength` of request.go reads.
use gldap.Base.{
  Bool-cases, Fits, Text, [], ap, arith, inl, inr, length, ltb, minus_one, pos, signed, subst, suc,
  sym, zero, ℕ, ℤ, ◌%◌, ◌*◌, ◌+◌, ◌-◌, ◌<◌, ◌==◌, ◌^◌, ◌∙◌, ◌∷◌, ◌≡◌, ◌≤◌,
}
use gldap.Outcome.{ok, ok_injective}
use gldap.Convert.{read_length, read_length_octets}

signed-Fits : (n : ℕ) → n < 2 ^ 64 → Fits 63 (signed 63 n)
signed-Fits n h = ground arith

read_length_octets-bounds :
    (count : ℕ) (bytes : Text) (read length64 : ℕ) (n : ℤ) (used : ℕ)
    → length64 < 2 ^ 64
    → read_length_octets count bytes read length64 ≡ ok (n, used)
    → (used ≡ read + count) × (count ≤ length bytes) × Fits 63 n
unfolding read_length_octets
read_length_octets-bounds zero bytes read length64 n used h e =
    let same = ok_injective e in
    (
      sym (ap (λ p. p.1) same) ∙ omega arith,
      omega arith,
      subst (Fits 63) (ap (λ p. p.0) same) (signed-Fits length64 h),
    )
read_length_octets-bounds (suc count) [] read length64 n used h e = cc e
read_length_octets-bounds (suc count) (b ∷ bytes) read length64 n used h e =
    let (total, enough, fits) =
      read_length_octets-bounds count bytes (suc read) ((length64 * 256 + b) % 2 ^ 64) n used
        (omega arith) e in
    (omega (arith, total), omega (arith, enough), fits)

-- A length in one byte.
one_octet :
    (bytes : Text) (b : ℕ) (n : ℤ) (used : ℕ) (m : ℤ)
    → Fits 63 m
    → ◌≡◌ {A = ℤ × ℕ} (m, 1) (n, used)
    → (1 ≤ used) × (used ≤ 9) × (used ≤ length (b ∷ bytes)) × Fits 63 n
one_octet bytes b n used m h e =
    let one : 1 ≡ used = ap (λ p. p.1) e in
    (
      omega (arith, one),
      omega (arith, one),
      omega (arith, one),
      subst (Fits 63) (ap (λ p. p.0) e) h,
    )

-- A length that `readLength` reads takes between 1 and 9 bytes, no more than there are, and fits an
-- int64, so that the slice behind it stays within the text.
pub read_length-bounds :
    (bytes : Text) (n : ℤ) (used : ℕ)
    → read_length bytes ≡ ok (n, used)
    → (1 ≤ used) × (used ≤ 9) × (used ≤ length bytes) × Fits 63 n
unfolding read_length
read_length-bounds [] n used e = cc e
read_length-bounds (b ∷ bytes) n used e = elim (Bool-cases (b == 255)) [
  | inl invalid ↦ absurd (cc (rw invalid at e))
  | inr valid ↦ elim (Bool-cases (b == 128)) [
    | inl indefinite ↦
        let same = ok_injective (rw (valid, indefinite) at e) in
        one_octet bytes b n used minus_one (omega arith) same
    | inr definite ↦ elim (Bool-cases (ltb b 128)) [
      | inl short ↦
          let same = ok_injective (rw (valid, definite, short) at e) in
          one_octet bytes b n used (pos b) (ground (arith, short)) same
      | inr long ↦ elim (Bool-cases (ltb 8 (b - 128))) [
        | inl over ↦ absurd (cc (rw (valid, definite, long, over) at e))
        | inr within ↦
            let (total, enough, fits) =
              read_length_octets-bounds (b - 128) bytes 1 0 n used (omega arith)
                (rw (valid, definite, long, within) at e) in
            let few : b - 128 ≤ 8 = ground (arith, within) in
            (omega (arith, total), omega (arith, total, few), omega (arith, total, enough), fits)
      ]
    ]
  ]
]
