-- ===== src/Text/Decimal/RoundTrip.antt =====
-- `strconv.Atoi` reads what `strconv.Itoa` prints.
use yukon_collector.Base.{
  ℕ, zero, suc, ◌+◌, ◌/◌, ◌%◌, ◌^◌, ◌<◌, ◌≡◌, sym, ap, ◌∙◌, true, inl, inr, Bool-cases, some, [],
  ◌∷◌, arith, Bytes, ltb, pos,
}
use yukon_collector.Text.Decimal.{digits, itoa, is_digit, read_digits, unsigned, atoi}

pub read_digits-digits :
    (f n : ℕ) (out : Bytes) → n < f → read_digits 0 (digits f n out) ≡ read_digits n out
unfolding read_digits digits
read_digits-digits zero n out h = elim h [ ]
read_digits-digits (suc f) n out h =
    ground (arith, read_digits-digits f (n / 10) ((b'0' + n % 10) ∷ out))

pub digits-head :
    (f n : ℕ) (out : Bytes)
    → n < f
    → (c : ℕ) × (s : Bytes) × (digits f n out ≡ c ∷ s) × (is_digit c ≡ true)
unfolding digits
digits-head zero n out h = elim h [ ]
digits-head (suc f) n out h = elim (Bool-cases (ltb n 10)) [
  | inl last ↦ (b'0' + n, out, ground arith, ground arith)
  | inr more ↦
      let (c, s, e, d) = digits-head f (n / 10) ((b'0' + n % 10) ∷ out) (ground arith) in
      (c, s, ground arith, d)
]

atoi_digit :
    (c : ℕ) (s : Bytes) (n : ℕ)
    → is_digit c ≡ true
    → read_digits 0 (c ∷ s) ≡ some n
    → n < 2 ^ 63
    → atoi (c ∷ s) ≡ some (pos n)
unfolding atoi unsigned
atoi_digit c s n d e h = ground arith

-- Every number that fits a positive int64 is read back.
pub atoi-itoa : (n : ℕ) → n < 2 ^ 63 → atoi (itoa n) ≡ some (pos n)
unfolding itoa read_digits
atoi-itoa n h =
    let (c, s, e, d) = digits-head (suc n) n [] (omega arith) in
    rw e (
      atoi_digit c s n d
        (ap (read_digits 0) (sym e) ∙ read_digits-digits (suc n) n [] (omega arith)) h)
