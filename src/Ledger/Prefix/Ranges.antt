-- ===== src/Ledger/Prefix/Ranges.antt =====
-- The range that `endIter` closes: the keys from a prefix on, below the prefix raised by one.
use topia.Base.{
  ℕ, zero, suc, ◌+◌, ◌≤◌, ◌≡◌, ◌≢◌, ◌⊎◌, refl, sym, ◌∙◌, ap, ◌↔◌, inl, inr, Bool, true, false, [],
  ◌∷◌, Option, none, some, ltb, if◌then◌else◌, length, get_elem?, set, arith, All, Bool-cases,
  Option-cases,
}
use topia.Ledger.Prefix.{Bytes, bytes_ltb, has_prefix, end_loop, end_iter, panicked, up_to, byte_at}

-- The bytes after the loop has cleared those before the index.
abbrev cleared : ℕ → Bytes → Bytes
cleared zero ret = ret
cleared (suc i) ret = cleared i (set ret i 0)

abbrev pub raised : ℕ → Bytes → Option Bytes → Option Bytes
raised b rest none = if ltb b 255 then some ((b + 1) ∷ rest) else none
raised b rest (some r) = some (b ∷ r)

end_loop-cons :
    (n : ℕ) (b : ℕ) (ret : Bytes)
    → end_loop (suc n) (b ∷ ret) ≡ raised b (cleared n ret) (end_loop n ret)
unfolding end_loop
end_loop-cons zero b ret = ground arith
end_loop-cons (suc n) b ret = elim (Bool-cases (ltb (byte_at (get_elem? ret n)) 255)) [
  | inl low ↦ rw low refl
  | inr full ↦ rw full (end_loop-cons n b (set ret n 0))
]

abbrev pub zeros : Bytes → Bytes
zeros [] = []
zeros (b ∷ bs) = 0 ∷ zeros bs

-- `endIter` byte by byte.
abbrev pub raise : Bytes → Option Bytes
raise [] = none
raise (b ∷ bs) = raised b (zeros bs) (raise bs)

cleared-cons : (n b : ℕ) (ret : Bytes) → cleared (suc n) (b ∷ ret) ≡ 0 ∷ cleared n ret
cleared-cons zero b ret = refl
cleared-cons (suc n) b ret = cleared-cons n b (set ret n 0)

cleared-zeros : (ret : Bytes) → cleared (length ret) ret ≡ zeros ret
cleared-zeros [] = refl
cleared-zeros (b ∷ ret) = cleared-cons (length ret) b ret ∙ ap (◌∷◌ 0) (cleared-zeros ret)

end_loop-raise : (bz : Bytes) → end_loop (length bz) bz ≡ raise bz
unfolding end_loop
end_loop-raise [] = refl
end_loop-raise (b ∷ bz) =
    end_loop-cons (length bz) b bz
    ∙ ap (raised b (cleared (length bz) bz)) (end_loop-raise bz)
    ∙ ap (λ z. raised b z (raise bz)) (cleared-zeros bz)

pub end_iter-raise : (b : ℕ) (bz : Bytes) → end_iter (b ∷ bz) ≡ up_to (raise (b ∷ bz))
unfolding end_iter
end_iter-raise b bz = ap up_to (end_loop-raise (b ∷ bz))

-- Below the end of a range; nil is no end.
abbrev pub below_end : Bytes → Option Bytes → Bool
below_end k none = true
below_end k (some e) = bytes_ltb k e

pub has_prefix-at_least : (k p : Bytes) → has_prefix k p ≡ true → bytes_ltb k p ≡ false
unfolding has_prefix bytes_ltb
has_prefix-at_least [] [] h = refl
has_prefix-at_least (x ∷ k) [] h = refl
has_prefix-at_least [] (b ∷ p) h = ground (arith, h)
has_prefix-at_least (x ∷ k) (b ∷ p) h = ground (arith, has_prefix-at_least k p)

has_prefix-below : (k p : Bytes) → has_prefix k p ≡ true → below_end k (raise p) ≡ true
unfolding has_prefix bytes_ltb
has_prefix-below k [] h = refl
has_prefix-below [] (b ∷ p) h = ground (arith, h)
has_prefix-below (x ∷ k) (b ∷ p) h =
    let same : x ≡ b = ground arith in
    let rest : has_prefix k p ≡ true = ground arith in
    elim (Option-cases (raise p)) [
      | inl full ↦ rw full (ground arith)
      | inr (e, up) ↦
          let ih : bytes_ltb k e ≡ true = ap (below_end k) (sym up) ∙ has_prefix-below k p rest in
          rw up (ground (arith, ih))
    ]

not_below-zeros : (k p : Bytes) → length p ≤ length k → bytes_ltb k (zeros p) ≡ false
unfolding bytes_ltb
not_below-zeros [] [] h = refl
not_below-zeros (x ∷ k) [] h = refl
not_below-zeros [] (b ∷ p) h = ground arith
not_below-zeros (x ∷ k) (b ∷ p) h = ground (arith, not_below-zeros k p)

has_prefix-between :
    (k p : Bytes)
    → All (λ b. b ≤ 255) k
    → length p ≤ length k
    → bytes_ltb k p ≡ false
    → below_end k (raise p) ≡ true
    → has_prefix k p ≡ true
unfolding has_prefix bytes_ltb
has_prefix-between k [] bytes long low high = refl
has_prefix-between [] (b ∷ p) bytes long low high = ground arith
has_prefix-between (x ∷ k) (b ∷ p) bytes long low high = elim (Option-cases (raise p)) [
  | inl full ↦
      let bounded : below_end (x ∷ k) (raised b (zeros p) none) ≡ true =
        ap (λ r. below_end (x ∷ k) (raised b (zeros p) r)) (sym full) ∙ high in
      let open_above : below_end k (raise p) ≡ true = ap (below_end k) full in
      let same : x ≡ b = ground (arith, bounded, not_below-zeros k p, bytes.0) in
      ground (
        arith,
        same,
        has_prefix-between k p bytes.1 (omega (arith, long)) (ground (arith, same)) open_above,
      )
  | inr (e, up) ↦
      let bounded : bytes_ltb (x ∷ k) (b ∷ e) ≡ true =
        ap (λ r. below_end (x ∷ k) (raised b (zeros p) r)) (sym up) ∙ high in
      let same : x ≡ b = ground (arith, bounded) in
      let rest : below_end k (raise p) ≡ true =
        ap (below_end k) up ∙ ground (arith, bounded, same) in
      ground (
        arith,
        same,
        has_prefix-between k p bytes.1 (omega (arith, long)) (ground (arith, same)) rest,
      )
]

-- `endIter` panics at the empty prefix and at no other. A key of bytes that is not shorter than another
-- prefix lies between the prefix and the end that `endIter` gives, if and only if it has the prefix;
-- with no end, if and only if it is not below the prefix.
pub end_iter-exact :
    (key prefix : Bytes)
    → All (λ b. b ≤ 255) key
    → length prefix ≤ length key
    → ((prefix ≡ []) × (end_iter prefix ≡ panicked))
      ⊎ ((prefix ≢ [])
          × ((end : Option Bytes) × (end_iter prefix ≡ up_to end)
              × (((bytes_ltb key prefix ≡ false) × (below_end key end ≡ true))
                  ↔ (has_prefix key prefix ≡ true))))
unfolding end_iter
end_iter-exact key [] bytes long = inl (refl, refl)
end_iter-exact key (b ∷ prefix) bytes long = inr (
  ground arith,
  (
    raise (b ∷ prefix),
    end_iter-raise b prefix,
    (
      (λ r. has_prefix-between key (b ∷ prefix) bytes long r.0 r.1),
      (λ h. (has_prefix-at_least key (b ∷ prefix) h, has_prefix-below key (b ∷ prefix) h)),
    ),
  ),
)
