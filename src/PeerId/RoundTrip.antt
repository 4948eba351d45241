-- ===== src/PeerId/RoundTrip.antt =====
-- sf-peer-id/src/peer_id.rs: what `from_str` accepts, refuses and panics on, against `Display`.
use sf_rs.Prelude.{
  ℕ, zero, ◌-◌, ◌*◌, ◌/◌, ◌%◌, ◌≤◌, ◌<◌, List, [], ◌∷◌, ◌++◌, true, ◌≡◌, refl, sym, ap, ap₂, subst,
  ◌∙◌, ◌↔◌, arith, length, drop, replicate, IsByte, map, Outcome, ok, err, panic, >>=-eq-ok, all,
  length-append, length-take, length-replicate, take-append, All-take, All-append, All-replicate,
  le_or_lt, lt→ltb, inl, inr,
}
use sf_rs.PeerId.Errors.{Error, invalid_length}
use sf_rs.PeerId.Hex.{is_hex, lower}
use sf_rs.PeerId.Base.{PeerId, visible, IsValid, canonical}
use sf_rs.PeerId.Text.{from_str, format_bytes, display}
use sf_rs.PeerId.Parsing.{
  values, overwrite, Decodes, from_str-values, values-format_bytes, values_ok, values_panic,
  values_hex, drop-replicate,
}

length-format_bytes : (bs : List ℕ) → length (format_bytes bs) ≡ 2 * length bs
unfolding format_bytes
length-format_bytes [] = omega arith
length-format_bytes (b ∷ bs) = omega (arith, length-format_bytes bs)

abbrev accepted : ℕ → List ℕ → Outcome Error PeerId
accepted size bytes = ok (record { size = size; bytes = bytes })

padding :
    (S n : ℕ) (vs : List ℕ)
    → length vs ≡ n
    → drop (length vs) (replicate S zero) ≡ replicate (S - n) 0
padding S n vs e = drop-replicate (length vs) S 0 ∙ ap (λ m. replicate (S - m) 0) e

pub from_str_long :
    (S : ℕ) (s : List ℕ) → 2 * S < length s → from_str S s ≡ err (invalid_length (2 * S) (length s))
unfolding from_str
from_str_long S s h = rw (lt→ltb (2 * S) (length s) h)

-- A well-formed identifier that is printed and parsed again comes back equal, at any capacity: the
-- parser restores its size and its visible bytes, and clears the bytes behind them.
pub from_str-display :
    (S : ℕ) (id : PeerId) → IsValid S id → from_str S (display id) ≡ ok (canonical S id)
unfolding display canonical overwrite
from_str-display S id v =
    from_str-values S (display id) (omega (arith, digits, v.within))
    ∙ rw (values-format_bytes 0 (visible id) (All-take IsByte id.size id.bytes v.all_bytes)) (
        ap₂ accepted (omega (arith, digits, v.size_byte))
          (ap (◌++◌ (visible id)) (padding S id.size (visible id) shown)))
  where
    shown : length (visible id) ≡ id.size
    shown = length-take id.size id.bytes (omega (arith, v.array, v.within))

    digits : length (format_bytes (visible id)) ≡ 2 * id.size
    digits = omega (arith, length-format_bytes (visible id), shown)

-- What `from_str` accepts, and what it makes of it.
pub record Accepts (S : ℕ) (s : List ℕ) (id : PeerId) : Type 0 where
  pub digit_count : length s ≡ 2 * id.size
  pub fits : length s ≤ 2 * S
  pub digits : all is_hex s ≡ true
  pub valid : IsValid S id
  pub zeroes_behind : id ≡ canonical S id
  pub prints : display id ≡ map lower s

abbrev padded : ℕ → List ℕ → PeerId
padded S vs = record { size = length vs; bytes = vs ++ replicate (S - length vs) 0 }

padded-Accepts :
    (S : ℕ) (s vs : List ℕ) → S < 256 → length s ≤ 2 * S → Decodes s vs → Accepts S s (padded S vs)
unfolding canonical display
padded-Accepts S s vs h fits d = record {
  digit_count = d.even;
  fits = fits;
  digits = d.digits;
  valid = record {
    array = omega (
      arith,
      length-append vs (replicate (S - length vs) 0),
      length-replicate (S - length vs) zero,
      d.even,
    );
    within = omega (arith, d.even);
    size_byte = omega (arith, d.even);
    all_bytes =
        All-append IsByte vs (replicate (S - length vs) 0) d.bytes
          (All-replicate IsByte (S - length vs) 0 (omega arith));
  };
  zeroes_behind =
      ap (λ bs. record { size = length vs; bytes = bs ++ replicate (S - length vs) 0 })
        (sym (take-append vs (replicate (S - length vs) 0)));
  prints = ap format_bytes (take-append vs (replicate (S - length vs) 0)) ∙ d.printed;
}

-- What `from_str` accepts at a capacity below 256: an even number of hexadecimal digits, at most
-- `2 * S` of them, in either case. The result is well-formed, has half as many bytes as the text
-- has digits, hides only zeroes, and prints as the text in lower case.
pub from_str_ok :
    (S : ℕ) (s : List ℕ) (id : PeerId) → S < 256 → from_str S s ≡ ok id → Accepts S s id
unfolding overwrite
from_str_ok S s id h e = elim (le_or_lt (length s) (2 * S)) [
  | inr long ↦ cc (from_str_long S s long)
  | inl fits ↦
      let (vs, decoded, result) = >>=-eq-ok (values 0 s) _ (sym (from_str-values S s fits) ∙ e) in
      let d : Decodes s vs = values_ok 0 s vs decoded in
      subst (Accepts S s) (same vs fits d result) (padded-Accepts S s vs h fits d)
]
  where
    same :
        (vs : List ℕ)
        → length s ≤ 2 * S
        → Decodes s vs
        → accepted (length s / 2 % 256) (overwrite vs (replicate S 0)) ≡ ok id
        → padded S vs ≡ id
    same vs fits d result =
        let shape : accepted (length vs) (vs ++ replicate (S - length vs) 0)
            ≡ accepted (length s / 2 % 256) (overwrite vs (replicate S 0)) =
          ap₂ accepted (omega (arith, d.even))
            (ap (◌++◌ vs) (sym (padding S (length vs) vs refl))) in
        cc

-- Conversely an even number of hexadecimal digits that fits is accepted.
pub from_str_accepts :
    (S : ℕ) (s : List ℕ)
    → length s ≤ 2 * S
    → length s % 2 ≡ 0
    → all is_hex s ≡ true
    → (id : PeerId) × (from_str S s ≡ ok id)
from_str_accepts S s fits even digits =
    let (vs, e) = values_hex 0 s even digits in
    (
      record { size = length s / 2 % 256; bytes = overwrite vs (replicate S 0) },
      from_str-values S s fits ∙ rw e,
    )

-- `from_str` panics exactly on the texts of odd length that are not too long and have only
-- hexadecimal digits: its last chunk has no second byte.
pub from_str_panic :
    (S : ℕ) (s : List ℕ)
    → (from_str S s ≡ panic) ↔ ((length s ≤ 2 * S) × (length s % 2 ≡ 1) × (all is_hex s ≡ true))
from_str_panic S s = elim (le_or_lt (length s) (2 * S)) [
  | inr long ↦ (λ e. cc (from_str_long S s long), λ h. absurd (omega (arith, h.0, long)))
  | inl fits ↦ (
    λ e.
        let (odd, digits) = (values_panic 0 s).0 (ground (arith, from_str-values S s fits, e)) in
        (fits, odd, digits),
    λ h. from_str-values S s fits ∙ rw ((values_panic 0 s).1 (h.1, h.2)),
  )
]
