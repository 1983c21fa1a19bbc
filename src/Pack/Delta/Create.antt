-- ===== src/Pack/Delta/Create.antt =====
-- `createDelta` of src/lib/pack/delta.ts. The output is the bytes before `outpos`, the newest first: a write at
-- `outpos` pushes, `outpos--` pops. `ensureSpace` always leaves room for what is written.
use just_git.Base.{
  ℕ, zero, suc, ◌+◌, ◌-◌, ◌/◌, ◌%◌, min, Bool, true, false, ◌&&◌, not, Option, none, some, [], ◌∷◌,
  ◌++◌, reverse, length, take, drop, get_elem?, ltb, ◌==◌, if◌then◌else◌,
}
use Prim.Native.Nat.{bit_or}
use just_git.Pack.Sizes.{Bytes, encode_size_at}
use just_git.Pack.Delta.Match.{
  rabin_window, min_copy_size, good_enough_match, max_copy_size, max_insert_size, DeltaIndex,
  element, roll_all, Writer, search_match,
}

-- `out[outpos - inscnt - 1] = inscnt`
unfoldable pub patch : ℕ → ℕ → Bytes → Bytes
patch i n [] = []
patch zero n (b ∷ out) = n ∷ out
patch (suc i) n (b ∷ out) = b ∷ patch i n out

unfoldable pub emit_insert : Bytes → Writer → Writer
unfolding element patch
emit_insert target s =
    let opened = if s.inscnt == 0 then 0 ∷ s.out else s.out in
    let out = element target s.data_pos ∷ opened in
    let n = s.inscnt + 1 in
    if n == max_insert_size
    then record s { out = patch n n out; inscnt = 0; data_pos = s.data_pos + 1; msize = 0 }
    else record s { out = out; inscnt = n; data_pos = s.data_pos + 1; msize = 0 }

-- `outpos--`
unfoldable pub pop : Bytes → Bytes
pop [] = []
pop (b ∷ out) = out

-- `src[i] === target[j]`
unfoldable pub same_byte : Option ℕ → Option ℕ → Bool
same_byte none none = true
same_byte none (some y) = false
same_byte (some x) none = false
same_byte (some x) (some y) = x == y

unfoldable pub can_extend : Bytes → Bytes → Writer → Bool
unfolding same_byte
can_extend src target s =
    ltb 0 s.moff && same_byte (get_elem? src (s.moff - 1)) (get_elem? target (s.data_pos - 1))

-- One round of the loop that extends a match backward; with no byte left the count byte goes too.
unfoldable pub step_back : Writer → Writer
unfolding pop
step_back s =
    let n = s.inscnt - 1 in
    let out = if n == 0 then pop (pop s.out) else pop s.out in
    record s {
      out = out;
      inscnt = n;
      data_pos = s.data_pos - 1;
      moff = s.moff - 1;
      msize = s.msize + 1;
    }

-- The loop, on the bytes to insert. An `inscnt` of -1 is 0 here: it is reset behind the loop.
unfoldable pub extend_back : ℕ → Bytes → Bytes → Writer → Writer
unfolding can_extend step_back
extend_back zero src target s = s
extend_back (suc n) src target s =
    let more = extend_back n src target (step_back s) in if can_extend src target s then more else s

-- `if (inscnt > 0) out[outpos - inscnt - 1] = inscnt; inscnt = 0`
unfoldable pub close_insert : Writer → Writer
unfolding patch
close_insert s =
    if ltb 0 s.inscnt
    then record s { out = patch s.inscnt s.inscnt s.out; inscnt = 0 }
    else record s { inscnt = 0 }

-- `if (n & mask) out[outpos++] = ...`, for one byte of n, in front of what comes later.
unfoldable pub argument : ℕ → Bytes → Bytes
argument b later = if b == 0 then later else b ∷ later

-- `cmd |= bit`
unfoldable pub set_flag : Bool → ℕ → ℕ → ℕ
set_flag true bit cmd = bit_or cmd bit
set_flag false bit cmd = cmd

-- `n & (0xff << 8 * i)`, moved down.
abbrev pub byte_0 : ℕ → ℕ
byte_0 n = n % 256

abbrev pub byte_1 : ℕ → ℕ
byte_1 n = n / 256 % 256

abbrev pub byte_2 : ℕ → ℕ
byte_2 n = n / 65536 % 256

abbrev pub byte_3 : ℕ → ℕ
byte_3 n = n / 16777216 % 256

unfoldable pub flags_of : Bool → Bool → Bool → Bool → Bool → Bool → ℕ
unfolding set_flag
flags_of a b c d e f =
    set_flag f 0x20
      (set_flag e 0x10 (set_flag d 0x08 (set_flag c 0x04 (set_flag b 0x02 (set_flag a 0x01 0x80)))))

unfoldable pub copy_command : ℕ → ℕ → ℕ
unfolding flags_of
copy_command moff msize =
    flags_of (not (byte_0 moff == 0)) (not (byte_1 moff == 0)) (not (byte_2 moff == 0))
      (not (byte_3 moff == 0)) (not (byte_0 msize == 0)) (not (byte_1 msize == 0))

unfoldable pub copy_arguments : ℕ → ℕ → Bytes
unfolding argument
copy_arguments moff msize = argument (byte_0 moff) (
    argument (byte_1 moff) (
      argument (byte_2 moff)
        (argument (byte_3 moff) (argument (byte_0 msize) (argument (byte_1 msize) [])))))

unfoldable pub emit_copy : Bytes → Bytes → Writer → Writer
unfolding extend_back close_insert copy_command copy_arguments roll_all
emit_copy src target s =
    let c = close_insert (extend_back s.inscnt src target s) in
    let size = min c.msize max_copy_size in
    let pos = c.data_pos + size in
    let off = c.moff + size in
    let left = if ltb 0xffffffff off then 0 else c.msize - size in
    record {
      out = reverse (copy_arguments c.moff size) ++ (copy_command c.moff size ∷ c.out);
      val =
          if ltb left good_enough_match
          then roll_all 0 (take rabin_window (drop (pos - rabin_window) target))
          else c.val;
      inscnt = 0;
      data_pos = pos;
      moff = off;
      msize = left;
    }

-- The body of the main loop.
unfoldable pub write_step : DeltaIndex → Bytes → Writer → Writer
unfolding search_match emit_insert emit_copy
write_step index target s =
    let found = search_match index target s in
    if ltb found.msize min_copy_size
    then emit_insert target found
    else emit_copy index.src target found

pub data Created : Type 0 where
  null : Created
  delta : Bytes → Created
  -- The fuel ran out.
  stuck : Created

-- `maxSize && outpos > maxSize`
unfoldable pub is_too_big : Option ℕ → Bytes → Bool
is_too_big none out = false
is_too_big (some n) out = ltb 0 n && ltb n (length out)

-- What follows the main loop.
unfoldable pub finish_delta : Option ℕ → Writer → Created
unfolding close_insert is_too_big
finish_delta max_size s =
    let c = close_insert s in if is_too_big max_size c.out then null else delta (reverse c.out)

unfoldable pub write_loop : ℕ → DeltaIndex → Bytes → Option ℕ → Writer → Created
unfolding write_step finish_delta is_too_big
write_loop zero index target max_size s =
    if ltb s.data_pos (length target) then stuck else finish_delta max_size s
write_loop (suc fuel) index target max_size s =
    let next = write_step index target s in
    let more = write_loop fuel index target max_size next in
    let round = if is_too_big max_size next.out then null else more in
    if ltb s.data_pos (length target) then round else finish_delta max_size s

-- The header, and the first bytes of the target as data to insert.
unfoldable pub start_writer : Bytes → Bytes → Writer
unfolding roll_all
start_writer src target =
    let n = min rabin_window (length target) in
    let first = take n target in
    let header = encode_size_at (length src) ++ encode_size_at (length target) in
    record {
      out = reverse first ++ (0 ∷ reverse header);
      val = roll_all 0 first;
      inscnt = n;
      data_pos = n;
      moff = 0;
      msize = 0;
    }

unfoldable pub create_delta : Option DeltaIndex → Bytes → Option ℕ → Created
unfolding write_loop start_writer
create_delta none target max_size = null
create_delta (some index) [] max_size = null
create_delta (some index) (b ∷ bytes) max_size =
    let target = b ∷ bytes in
    write_loop (length target) index target max_size (start_writer index.src target)
