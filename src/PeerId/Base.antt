-- ===== src/PeerId/Base.antt =====
-- sf-peer-id/src/peer_id.rs: the struct, its equality, hash and derived order.
-- The const generic `S` is an argument of the functions that use it.
use Prim.Native.Nat.{compare, Ordering}
use sf_rs.Prelude.{
  ℕ, zero, ◌-◌, ◌≤◌, ◌<◌, List, [], ◌∷◌, ◌++◌, Bool, true, false, not, ◌==◌, ◌≡◌, refl, sym, ap,
  ap₂, ◌∙◌, ◌↔◌, arith, ==_iff, if◌then◌else◌, length, take, drop, replicate, All, IsByte, bytes_eq,
  bytes_eq_refl, bytes_eq→eq, length-replicate, All-replicate, length-take, length-append,
  take-append, take-append-drop, All-append, All-take,
}
use sf_rs.Prelude.Maps.{Equivalence}

-- `FixedSizePeerID<S>`.
pub record PeerId : Type 0 where
  pub size : ℕ  -- u8
  pub bytes : List ℕ  -- [u8; S]

-- `PeerID` has 32 bytes.
abbrev pub peer_id_size : ℕ
peer_id_size = 32

-- `bytes()`: the slice `&self.bytes[..self.size]`, in range while `size ≤ S`.
abbrev pub visible : PeerId → List ℕ
visible id = take id.size id.bytes

-- `zeroed()`.
unfoldable pub zeroed : ℕ → PeerId
zeroed S = record { size = 0; bytes = replicate S 0 }

-- `impl PartialEq`.
unfoldable pub peer_eq : PeerId → PeerId → Bool
peer_eq a b = if not (a.size == b.size) then false else bytes_eq (visible a) (take a.size b.bytes)

-- `impl Hash`: what the hasher is fed, the `u8` first and then the slice, length first.
unfoldable pub hash_input : PeerId → List ℕ
hash_input id = id.size ∷ length (visible id) ∷ visible id

-- The derived `Ord` of `[u8]` and of the struct: by the fields in their order, all bytes included.
unfoldable pub compare_bytes : List ℕ → List ℕ → Ordering
compare_bytes [] [] = Ordering.eq
compare_bytes [] (y ∷ ys) = Ordering.lt
compare_bytes (x ∷ xs) [] = Ordering.gt
compare_bytes (x ∷ xs) (y ∷ ys) =
    let rest = compare_bytes xs ys in
    elim (compare x y) [
      | Ordering.lt ↦ Ordering.lt
      | Ordering.eq ↦ rest
      | Ordering.gt ↦ Ordering.gt
    ]

unfoldable pub compare_peers : PeerId → PeerId → Ordering
compare_peers a b = elim (compare a.size b.size) [
  | Ordering.lt ↦ Ordering.lt
  | Ordering.eq ↦ compare_bytes a.bytes b.bytes
  | Ordering.gt ↦ Ordering.gt
]

-- What every constructor establishes for `FixedSizePeerID<S>`.
pub record IsValid (S : ℕ) (id : PeerId) : Type 0 where
  pub array : length id.bytes ≡ S
  pub within : id.size ≤ S
  pub size_byte : id.size < 256
  pub all_bytes : All IsByte id.bytes

-- The identifier with the same visible bytes and zeroes behind them.
unfoldable pub canonical : ℕ → PeerId → PeerId
canonical S id = record id { bytes = visible id ++ replicate (S - id.size) 0 }

pub zeroed-IsValid : (S : ℕ) → IsValid S (zeroed S)
unfolding zeroed
zeroed-IsValid S = record {
  array = length-replicate S 0;
  within = omega arith;
  size_byte = omega arith;
  all_bytes = All-replicate IsByte S 0 (omega arith);
}

-- Two identifiers are equal exactly when they have the same size and the same visible bytes.
pub peer_eq_iff :
    (a b : PeerId) → (peer_eq a b ≡ true) ↔ ((a.size ≡ b.size) × (visible a ≡ visible b))
unfolding peer_eq
peer_eq_iff a b = (
  λ h.
      let e : a.size ≡ b.size = (==_iff _ _).0 (ground arith) in
      (e, bytes_eq→eq _ _ (ground arith) ∙ ap (λ n. take n b.bytes) e),
  λ h.
      let e : take a.size b.bytes ≡ visible a = ap (λ n. take n b.bytes) h.0 ∙ sym h.1 in
      ground (arith, e, h.0, bytes_eq_refl (visible a)),
)

-- Equal identifiers feed a hasher the same bytes, and different ones different bytes.
pub hash_input_iff : (a b : PeerId) → (peer_eq a b ≡ true) ↔ (hash_input a ≡ hash_input b)
unfolding hash_input
hash_input_iff a b = (
  λ h. let e = (peer_eq_iff a b).0 h in ground (arith, e.0, e.1),
  λ h. (peer_eq_iff a b).1 (cc, cc),
)

compare_bytes_iff : (xs ys : List ℕ) → (compare_bytes xs ys ≡ Ordering.eq) ↔ (xs ≡ ys)
unfolding compare_bytes
compare_bytes_iff [] [] = (λ _. refl, λ _. refl)
compare_bytes_iff [] (y ∷ ys) = (λ h. cc, λ h. cc)
compare_bytes_iff (x ∷ xs) [] = (λ h. cc, λ h. cc)
compare_bytes_iff (x ∷ xs) (y ∷ ys) = (
  λ h. ground (arith, (compare_bytes_iff xs ys).0),
  λ h. ground (arith, (compare_bytes_iff xs ys).1),
)

-- The derived order calls two identifiers equal exactly when all their bytes agree, so it agrees with
-- `==` only where the bytes behind the visible ones do.
pub compare_peers_iff :
    (a b : PeerId)
    → peer_eq a b ≡ true
    → (compare_peers a b ≡ Ordering.eq) ↔ (drop a.size a.bytes ≡ drop b.size b.bytes)
unfolding compare_peers
compare_peers_iff a b h =
    let (e, v) = (peer_eq_iff a b).0 h in
    (
      λ k.
          let same : a.bytes ≡ b.bytes =
            (compare_bytes_iff a.bytes b.bytes).0 (ground (arith, e)) in
          ap₂ drop e same,
      λ k. ground (arith, e, (compare_bytes_iff a.bytes b.bytes).1 (bytes_of_parts v k)),
    )
  where
    bytes_of_parts :
        visible a ≡ visible b → drop a.size a.bytes ≡ drop b.size b.bytes → a.bytes ≡ b.bytes
    bytes_of_parts v k =
        sym (take-append-drop a.size a.bytes) ∙ ap₂ ◌++◌ v k ∙ take-append-drop b.size b.bytes

pub visible-canonical : (S : ℕ) (id : PeerId) → IsValid S id → visible (canonical S id) ≡ visible id
unfolding canonical
visible-canonical S id v =
    ap (λ n. take n (visible id ++ replicate (S - id.size) 0))
      (sym (length-take id.size id.bytes (omega (arith, v.array, v.within))))
    ∙ take-append (visible id) (replicate (S - id.size) 0)

pub canonical-IsValid : (S : ℕ) (id : PeerId) → IsValid S id → IsValid S (canonical S id)
unfolding canonical
canonical-IsValid S id v = record {
  array = omega (
    arith,
    length-append (visible id) (replicate (S - id.size) 0),
    length-take id.size id.bytes (omega (arith, v.array, v.within)),
    length-replicate (S - id.size) zero,
    v.within,
  );
  within = v.within;
  size_byte = v.size_byte;
  all_bytes =
      All-append IsByte (visible id) (replicate (S - id.size) 0)
        (All-take IsByte id.size id.bytes v.all_bytes)
        (All-replicate IsByte (S - id.size) 0 (omega arith));
}

-- The identifier with its hidden bytes cleared is equal to it.
pub canonical-eq : (S : ℕ) (id : PeerId) → IsValid S id → peer_eq id (canonical S id) ≡ true
unfolding canonical
canonical-eq S id v = (peer_eq_iff id (canonical S id)).1 (refl, sym (visible-canonical S id v))

-- `impl Eq`: the comparison is an equivalence relation.
pub peer_eq-Equivalence : Equivalence peer_eq
peer_eq-Equivalence = record {
  eq_refl = λ a. (peer_eq_iff a a).1 (refl, refl);
  eq_sym = λ a b h. let (e, v) = (peer_eq_iff a b).0 h in (peer_eq_iff b a).1 (sym e, sym v);
  eq_trans = λ a b c h k.
      let (e, v) = (peer_eq_iff a b).0 h in
      let (f, w) = (peer_eq_iff b c).0 k in (peer_eq_iff a c).1 (e ∙ f, v ∙ w);
}
