-- ===== src/Pack/Delta/Match.antt =====
-- The search for a match in `createDelta` of src/lib/pack/delta.ts.
use just_git.Base.{
  ℕ, zero, suc, ◌+◌, ◌-◌, ◌*◌, ◌/◌, ◌%◌, ◌^◌, min, Bool, true, false, not, none, some, List, [],
  ◌∷◌, length, take, drop, get_elem?, ltb, leb, ◌==◌, if◌then◌else◌,
}
use Prim.Native.Nat.{bit_and, bit_or, bit_xor}
use just_git.Pack.Sizes.{Bytes}
use just_git.Pack.Delta.Tables.{t_table, u_table}

abbrev pub rabin_window : ℕ
rabin_window = 16

abbrev pub min_copy_size : ℕ
min_copy_size = 4

abbrev pub good_enough_match : ℕ
good_enough_match = 4096

abbrev pub max_copy_size : ℕ
max_copy_size = 0x10000

abbrev pub max_insert_size : ℕ
max_insert_size = 0x7f

-- The block that ends at `ptr`, and its hash.
pub record BlockEntry : Type 0 where
  pub ptr : ℕ
  pub val : ℕ

pub record DeltaIndex : Type 0 where
  pub src : Bytes
  pub hash_mask : ℕ
  pub buckets : List ℕ
  pub entries : List BlockEntry

-- `xs[i]` where what is out of range counts as 0 in a bit operation.
unfoldable pub element : List ℕ → ℕ → ℕ
element xs i = elim (get_elem? xs i) [ none ↦ 0 | some x ↦ x ]

-- `((val << 8) | byte) ^ T[val >>> RABIN_SHIFT]`
unfoldable pub roll : ℕ → ℕ → ℕ
unfolding element
roll val byte = bit_xor (bit_or (val * 256 % 2 ^ 32) byte) (element t_table (val / 2 ^ 23))

-- The hash of a block, from a start value.
unfoldable pub roll_all : ℕ → Bytes → ℕ
roll_all val [] = val
roll_all val (byte ∷ bytes) = roll_all (roll val byte) bytes

pub record Match : Type 0 where
  pub moff : ℕ
  pub msize : ℕ

-- The bytes that agree, up to a count that neither list is shorter than.
unfoldable pub match_len : ℕ → Bytes → Bytes → ℕ
match_len zero a b = 0
match_len (suc n) [] b = 0
match_len (suc n) (x ∷ a) [] = 0
match_len (suc n) (x ∷ a) (y ∷ b) = if x == y then suc (match_len n a b) else 0

-- One round of the search: whether it breaks, and the match.
unfoldable pub try_entry : Bytes → Bytes → ℕ → BlockEntry → Match → Bool × Match
try_entry src rest val e m =
    if not (e.val == val)
    then (false, m)
    else let ref_size = min (length src - e.ptr) (length rest) in
      if leb ref_size m.msize
      then (true, m)
      else let n = match_len ref_size (drop e.ptr src) rest in
        if ltb m.msize n
        then (leb good_enough_match n, record { moff = e.ptr; msize = n })
        else (false, m)

-- `rest` is the target from `dataPos` on.
unfoldable pub find_match : Bytes → Bytes → ℕ → List BlockEntry → Match → Match
unfolding try_entry
find_match src rest val [] m = m
find_match src rest val (e ∷ es) m =
    let tried = try_entry src rest val e m in
    let more = find_match src rest val es tried.1 in if tried.0 then tried.1 else more

pub record Writer : Type 0 where
  pub out : Bytes
  pub val : ℕ
  pub inscnt : ℕ
  pub data_pos : ℕ
  pub moff : ℕ
  pub msize : ℕ

-- The entries of a bucket.
unfoldable pub bucket_of : DeltaIndex → ℕ → List BlockEntry
unfolding element
bucket_of index val =
    let bucket = bit_and val index.hash_mask in
    let first = element index.buckets bucket in
    take (element index.buckets (bucket + 1) - first) (drop first index.entries)

unfoldable pub search_match : DeltaIndex → Bytes → Writer → Writer
unfolding element roll
search_match index target s =
    if ltb s.msize good_enough_match
    then (let out_byte = element u_table (element target (s.data_pos - rabin_window)) in
        let val = roll (bit_xor s.val out_byte) (element target s.data_pos) in
        let found =
          find_match index.src (drop s.data_pos target) val (bucket_of index val)
            (record { moff = s.moff; msize = s.msize }) in
        record s { val = val; moff = found.moff; msize = found.msize })
    else s
