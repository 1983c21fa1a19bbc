-- ===== src/Pack/Delta/Index.antt =====
-- `createDeltaIndex` of src/lib/pack/delta.ts. The blocks are hashed from the last to the first; `rawEntries` is
-- the newest first. `hashCount` is only written there, and has no place here.
use just_git.Base.{
  ℕ, zero, suc, ◌+◌, ◌-◌, ◌*◌, ◌/◌, max, Option, none, some, List, [], ◌∷◌, ◌++◌, reverse, length,
  take, drop, get_elem?, filter, ltb, leb, ◌==◌, if◌then◌else◌,
}
use Prim.Native.Nat.{bit_and, bit_or}
use just_git.Pack.Sizes.{Bytes}
use just_git.Pack.Delta.Match.{BlockEntry, DeltaIndex, rabin_window, roll_all}

abbrev pub hash_limit : ℕ
hash_limit = 64

-- `v |= v >> k` for each k, below 2 ^ 31.
unfoldable pub next_pow2 : ℕ → ℕ
next_pow2 n =
    let a = n - 1 in
    let b = bit_or a (a / 2) in
    let c = bit_or b (b / 4) in
    let d = bit_or c (c / 16) in
    let e = bit_or d (d / 256) in
    let f = bit_or e (e / 65536) in let v = f + 1 in if ltb v 16 then 16 else v

-- A block whose hash is that of the block behind it takes its place. The hash of a block is below
-- 2 ^ 31, so that the first is never that of the start, and there is an entry then.
unfoldable pub push_block : ℕ → BlockEntry → List BlockEntry → List BlockEntry
push_block prev e [] = e ∷ []
push_block prev e (last ∷ raw) =
    if e.val == prev then record last { ptr = e.ptr } ∷ raw else e ∷ last ∷ raw

-- The loop on the blocks below the count.
unfoldable pub block_entries : ℕ → Bytes → ℕ → List BlockEntry → List BlockEntry
unfolding push_block roll_all
block_entries zero src prev raw = raw
block_entries (suc k) src prev raw =
    let off = k * rabin_window in
    let val = roll_all 0 (take rabin_window (drop (off + 1) src)) in
    block_entries k src val (push_block prev (record { ptr = off + rabin_window; val = val }) raw)

-- `keep.push(list[Math.floor(i * step)])`, for the i from the first on; the step is a multiple of 1/64.
unfoldable pub cull_from : ℕ → ℕ → List BlockEntry → List BlockEntry
cull_from zero i list = []
cull_from (suc rounds) i list =
    let more = cull_from rounds (i + 1) list in
    elim (get_elem? list (i * length list / hash_limit)) [ none ↦ more | some e ↦ e ∷ more ]

-- The list of a bucket in `bucketAssign`, in the order of the blocks.
unfoldable pub bucket_list : ℕ → List BlockEntry → ℕ → List BlockEntry
unfolding cull_from
bucket_list mask raw bucket =
    let list = filter (λ e. bit_and e.val mask == bucket) raw in
    if leb (length list) hash_limit then list else cull_from hash_limit 0 list

-- The loop that packs the buckets from i on: their boundaries and entries.
unfoldable pub pack_buckets : ℕ → ℕ → ℕ → List BlockEntry → ℕ → List ℕ × List BlockEntry
unfolding bucket_list
pack_buckets zero i mask raw offset = (offset ∷ [], [])
pack_buckets (suc rounds) i mask raw offset =
    let list = bucket_list mask raw i in
    let more = pack_buckets rounds (i + 1) mask raw (offset + length list) in
    (offset ∷ more.0, list ++ more.1)

unfoldable pub create_delta_index : Bytes → Option DeltaIndex
unfolding next_pow2 block_entries pack_buckets
create_delta_index src =
    let blocks = (length src - 1) / rabin_window in
    let hsize = next_pow2 (max (blocks / 4) 16) in
    let raw = reverse (block_entries blocks src 0xffffffff []) in
    let packed = pack_buckets hsize 0 (hsize - 1) raw 0 in
    if blocks == 0
    then none
    else some (record { src = src; hash_mask = hsize - 1; buckets = packed.0; entries = packed.1 })
