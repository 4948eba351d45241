-- ===== src/PeerId/Parsing.antt =====
-- What `from_str` computes, seen without its array, and the text form as a round trip.
use sf_rs.Prelude.{
  ℕ, zero, suc, ◌+◌, ◌-◌, ◌*◌, ◌/◌, ◌%◌, ◌≤◌, ◌<◌, List, [], ◌∷◌, ◌++◌, true, false, ◌≡◌, refl,
  subst, ap, ap₂, ◌∙◌, ◌↔◌, arith, length, set, drop, replicate, All, IsByte, map, Outcome, ok, err,
  panic, ◌>>=◌, >>=-eq-ok, all, join_nibbles, set-append, length-append, length-replicate,
  le→ltb_false, >>=_assoc, Bool-cases, ◌⊎◌, inl, inr,
}
use native.Mathlib.Nat.{sub-zero, zero-sub, suc-sub-suc}
use mathlib.Core.List.{append_assoc}
use sf_rs.PeerId.Errors.{Error, invalid_hex_encoding}
use sf_rs.PeerId.Hex.{
  hex_char_to_value, hex_digit, is_hex, lower, hex_char_to_value-hex_digit, hex_char_to_value_ok,
  hex_char_to_value-is_hex, hex_char_to_value_refused, join_nibbles_lem, join_nibbles-sum,
}
use sf_rs.PeerId.Text.{parse_chunks, from_str, format_bytes}

-- The bytes that a text stands for, chunk by chunk.
unfoldable pub values : ℕ → List ℕ → Outcome Error (List ℕ)
values i [] = ok []
values i (high ∷ []) = do high_val ← hex_char_to_value high (i * 2); panic
values i (high ∷ low ∷ rest) = do
  high_val ← hex_char_to_value high (i * 2)
  low_val ← hex_char_to_value low (i * 2 + 1)
  vs ← values (i + 1) rest
  ok (join_nibbles high_val low_val ∷ vs)

-- An array whose first places are overwritten.
unfoldable pub overwrite : List ℕ → List ℕ → List ℕ
overwrite vs xs = vs ++ drop (length vs) xs

-- The loop, from chunk `length pre` on, over a text that fits.
abbrev Loop : List ℕ → List ℕ → List ℕ → Type 0
Loop s pre xs =
    parse_chunks (length pre) s (pre ++ xs)
    ≡ (values (length pre) s >>= λ vs. ok (pre ++ overwrite vs xs))

Loop-snoc :
    (rest pre xs : List ℕ) (x v : ℕ)
    → Loop rest (pre ++ v ∷ []) xs
    → parse_chunks (length pre + 1) rest (set (pre ++ x ∷ xs) (length pre) v)
      ≡ (values (length pre + 1) rest >>= λ vs. ok (pre ++ overwrite (v ∷ vs) (x ∷ xs)))
unfolding overwrite
Loop-snoc rest pre xs x v ih = rw (set-append pre x v xs) (simp (length-append, append_assoc) at ih)

Loop-cons :
    (rest pre xs : List ℕ) (a b x : ℕ)
    → ((v : ℕ) → Loop rest (pre ++ v ∷ []) xs)
    → Loop (a ∷ b ∷ rest) pre (x ∷ xs)
unfolding parse_chunks values
Loop-cons rest pre xs a b x ih =
    step (hex_char_to_value a (length pre * 2)) (hex_char_to_value b (length pre * 2 + 1))
  where
    bind_last :
        (m : Outcome Error (List ℕ)) (v : ℕ)
        → (m >>= λ vs. ok (pre ++ overwrite (v ∷ vs) (x ∷ xs)))
          ≡ ((m >>= λ vs. ok (v ∷ vs)) >>= λ vs. ok (pre ++ overwrite vs (x ∷ xs)))
    bind_last (ok vs) v = refl
    bind_last (err e) v = refl
    bind_last panic v = refl

    step :
        (m n : Outcome Error ℕ)
        → (m >>= λ hi. n >>= λ lo.
            parse_chunks
              (length pre + 1)
              rest
              (set (pre ++ x ∷ xs) (length pre) (join_nibbles hi lo)))
          ≡ ((m >>= λ hi.
                n >>= λ lo. values (length pre + 1) rest >>= λ vs. ok (join_nibbles hi lo ∷ vs))
              >>= λ vs. ok (pre ++ overwrite vs (x ∷ xs)))
    step (ok hi) (ok lo) =
        Loop-snoc rest pre xs x (join_nibbles hi lo) (ih (join_nibbles hi lo))
        ∙ bind_last (values (length pre + 1) rest) (join_nibbles hi lo)
    step (ok hi) (err e) = refl
    step (ok hi) panic = refl
    step (err e) n = refl
    step panic n = refl

parse_chunks-values : (s pre xs : List ℕ) → length s ≤ 2 * length xs → Loop s pre xs
unfolding parse_chunks values overwrite
parse_chunks-values [] pre xs h = refl
parse_chunks-values (a ∷ []) pre xs h = ground arith
parse_chunks-values (a ∷ b ∷ rest) pre [] h = absurd (omega arith)
parse_chunks-values (a ∷ b ∷ rest) pre (x ∷ xs) h =
    Loop-cons rest pre xs a b x λ v. parse_chunks-values rest (pre ++ v ∷ []) xs (omega arith)

pub values-format_bytes : (i : ℕ) (bs : List ℕ) → All IsByte bs → values i (format_bytes bs) ≡ ok bs
unfolding values format_bytes
values-format_bytes i [] h = refl
values-format_bytes i (b ∷ bs) h = rw (
  hex_char_to_value-hex_digit (b / 16) (i * 2) (omega arith),
  hex_char_to_value-hex_digit (b % 16) (i * 2 + 1) (omega arith),
  values-format_bytes (i + 1) bs h.1,
  join_nibbles_lem b h.0,
)

-- What an accepted text looks like.
pub record Decodes (s vs : List ℕ) : Type 0 where
  pub even : length s ≡ 2 * length vs
  pub bytes : All IsByte vs
  pub printed : format_bytes vs ≡ map lower s
  pub digits : all is_hex s ≡ true

Decodes-nil : Decodes [] []
unfolding format_bytes
Decodes-nil = record { even = refl; bytes = tt; printed = refl; digits = refl }

byte_of_nibbles :
    (hi lo : ℕ)
    → hi < 16
    → lo < 16
    → (join_nibbles hi lo < 256) × (join_nibbles hi lo / 16 ≡ hi) × (join_nibbles hi lo % 16 ≡ lo)
byte_of_nibbles hi lo h k = rw (join_nibbles-sum hi lo h k) (omega arith)

Decodes-cons :
    (a b i j hi lo : ℕ) (rest ws : List ℕ)
    → hex_char_to_value a i ≡ ok hi
    → hex_char_to_value b j ≡ ok lo
    → Decodes rest ws
    → Decodes (a ∷ b ∷ rest) (join_nibbles hi lo ∷ ws)
unfolding format_bytes
Decodes-cons a b i j hi lo rest ws e f d =
    let (hi_lt, a_hex, hi_digit) = hex_char_to_value_ok a i e in
    let (lo_lt, b_hex, lo_digit) = hex_char_to_value_ok b j f in
    let (byte, high, low) = byte_of_nibbles hi lo hi_lt lo_lt in
    record {
      even = omega (arith, d.even);
      bytes = (byte, d.bytes);
      printed =
          ap₂ ◌∷◌ (ap hex_digit high ∙ hi_digit) (ap₂ ◌∷◌ (ap hex_digit low ∙ lo_digit) d.printed);
      digits = rw (a_hex, b_hex, d.digits);
    }

-- An accepted text has two hexadecimal digits for each byte, and prints back in lower case.
pub values_ok : (i : ℕ) (s vs : List ℕ) → values i s ≡ ok vs → Decodes s vs
unfolding values format_bytes
values_ok i [] [] h = Decodes-nil
values_ok i [] (v ∷ vs) h = cc
values_ok i (a ∷ []) vs h = ground arith
values_ok i (a ∷ b ∷ rest) vs h =
    let (hi, e, h1) = >>=-eq-ok (hex_char_to_value a (i * 2)) _ h in
    let (lo, f, h2) = >>=-eq-ok (hex_char_to_value b (i * 2 + 1)) _ h1 in
    let (ws, g, h3) = >>=-eq-ok (values (i + 1) rest) _ h2 in
    subst (Decodes (a ∷ b ∷ rest)) (cc)
      (Decodes-cons a b (i * 2) (i * 2 + 1) hi lo rest ws e f (values_ok (i + 1) rest ws g))

hex_cases :
    (c i : ℕ)
    → ((n : ℕ) × (hex_char_to_value c i ≡ ok n) × (is_hex c ≡ true))
      ⊎ ((hex_char_to_value c i ≡ err (invalid_hex_encoding c i)) × (is_hex c ≡ false))
hex_cases c i = elim (Bool-cases (is_hex c)) [
  | inl h ↦ let (n, e) = hex_char_to_value-is_hex c i h in inl (n, e, h)
  | inr h ↦ inr (hex_char_to_value_refused c i h, h)
]

-- A text runs off its last chunk exactly when its length is odd and every digit is one.
pub values_panic :
    (i : ℕ) (s : List ℕ) → (values i s ≡ panic) ↔ ((length s % 2 ≡ 1) × (all is_hex s ≡ true))
unfolding values
values_panic i [] = (λ h. cc, λ h. absurd (omega (arith, h.0)))
values_panic i (a ∷ []) = elim (hex_cases a (i * 2)) [
  | inl (n, e, h) ↦ (λ _. (omega arith, rw h), λ _. rw e)
  | inr (e, h) ↦ (λ k. ground (arith, e), λ k. ground (arith, h))
]
values_panic i (a ∷ b ∷ rest) =
    let (there, back) = values_panic (i + 1) rest in
    elim (hex_cases a (i * 2)) [
      | inl (n, e, h) ↦ elim (hex_cases b (i * 2 + 1)) [
        | inl (m, f, k) ↦ (
          λ p.
              let r : values (i + 1) rest ≡ panic = ground (arith, e, f) in
              (omega (arith, (there r).0), rw (h, k, (there r).1)),
          λ q.
              let digits : all is_hex rest ≡ true = ground (arith, h, k, q.1) in
              rw (e, f, back (omega (arith, q.0), digits)),
        )
        | inr (f, k) ↦ (λ p. ground (arith, e, f), λ q. ground (arith, h, k))
      ]
      | inr (e, h) ↦ (λ p. ground (arith, e), λ q. ground (arith, h))
    ]

-- `from_str` on a text that is not too long: the bytes, and zeroes behind them.
pub from_str-values :
    (S : ℕ) (s : List ℕ)
    → length s ≤ 2 * S
    → from_str S s ≡ (
        values 0 s >>= λ vs.
        ok (record { size = length s / 2 % 256; bytes = overwrite vs (replicate S 0) }))
unfolding from_str
from_str-values S s h =
    rw
      (
        le→ltb_false (2 * S) (length s) h,
        parse_chunks-values s [] (replicate S 0) (omega (arith, length-replicate S zero)),
      )
      (>>=_assoc (values 0 s) _ _)

pub drop-replicate : (n m a : ℕ) → drop n (replicate m a) ≡ replicate (m - n) a
drop-replicate zero m a = rw sub-zero
drop-replicate (suc n) zero a = rw zero-sub
drop-replicate (suc n) (suc m) a = rw suc-sub-suc (drop-replicate n m a)

pub values_hex :
    (i : ℕ) (s : List ℕ)
    → length s % 2 ≡ 0
    → all is_hex s ≡ true
    → (vs : List ℕ) × (values i s ≡ ok vs)
unfolding values
values_hex i [] even digits = ([], refl)
values_hex i (a ∷ []) even digits = absurd (omega arith)
values_hex i (a ∷ b ∷ rest) even digits =
    let (hi, e) = hex_char_to_value-is_hex a (i * 2) (ground arith) in
    let (lo, f) = hex_char_to_value-is_hex b (i * 2 + 1) (ground arith) in
    let (vs, g) = values_hex (i + 1) rest (omega arith) (ground arith) in
    (join_nibbles hi lo ∷ vs, rw (e, f, g))
