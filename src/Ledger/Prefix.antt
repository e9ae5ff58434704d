-- ===== src/Ledger/Prefix.antt =====
-- ledger/backend/backend_prefixed.go: a part of a database, whose keys have a common prefix. Keys are lists
-- of bytes, compared as bytes.Compare does. An iterator is the list of the entries that it meets.
pub mod Ranges
pub mod Walks
mod Tests
use topia.Base.{
  ℕ, zero, suc, ◌+◌, Bool, true, false, not, ◌&&◌, List, [], ◌∷◌, ◌++◌, Option, none, some, ◌=?◌,
  ltb, if◌then◌else◌, length, get_elem?, set, drop,
}

abbrev pub Bytes : Type 0
Bytes = List ℕ

-- bytes.Compare(a, b) < 0
unfoldable pub bytes_ltb : Bytes → Bytes → Bool
bytes_ltb [] [] = false
bytes_ltb [] (y ∷ ys) = true
bytes_ltb (x ∷ xs) [] = false
bytes_ltb (x ∷ xs) (y ∷ ys) =
    let rest = bytes_ltb xs ys in if ltb x y then true else (if x =? y then rest else false)

-- bytes.HasPrefix(key, prefix)
unfoldable pub has_prefix : Bytes → Bytes → Bool
has_prefix key [] = true
has_prefix [] (p ∷ ps) = false
has_prefix (k ∷ ks) (p ∷ ps) = let rest = has_prefix ks ps in (k =? p) && rest

pub prefixed : Bytes → Bytes → Bytes
prefixed prefix key = prefix ++ key

abbrev pub byte_at : Option ℕ → ℕ
byte_at none = 0
byte_at (some b) = b

-- The loop of `endIter` before the index `n`: it raises the last byte that can be raised and clears
-- those behind it. `none` is nil, for bytes that are all 0xFF.
unfoldable pub end_loop : ℕ → Bytes → Option Bytes
end_loop zero ret = none
end_loop (suc i) ret =
    let b = byte_at (get_elem? ret i) in
    let rest = end_loop i (set ret i 0) in if ltb b 255 then some (set ret i (b + 1)) else rest

-- The end of a range, where nil is none, or the panic at an empty prefix.
pub data EndIter : Type 0 where
  panicked : EndIter
  up_to : Option Bytes → EndIter

unfoldable pub end_iter : Bytes → EndIter
unfolding end_loop
end_iter [] = panicked
end_iter (b ∷ bz) = up_to (end_loop (length (b ∷ bz)) (b ∷ bz))

-- The upper bound that `Iterator` and `ReverseIterator` hand on.
unfoldable pub iterator_end : Bytes → Option Bytes → EndIter
unfolding end_iter prefixed
iterator_end prefix none = end_iter prefix
iterator_end prefix (some end) = up_to (some (prefixed prefix end))

-- What `Next` meets of the source's entries: it stops at the first key without the prefix, and skips the
-- key that is the prefix itself. `Key` cuts the prefix off.
unfoldable pub walk {ℓ} : {V : Type ℓ} → Bytes → List (Bytes × V) → List (Bytes × V)
walk prefix [] = []
walk prefix ((key, value) ∷ rest) =
    let later = walk prefix rest in
    if has_prefix key prefix
    then (if length key =? length prefix then later else (drop (length prefix) key, value) ∷ later)
    else []
