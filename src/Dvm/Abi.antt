-- ===== src/Dvm/Abi.antt =====
-- The host functions that a guest calls: `define_abi` of crates/dvm/src/lib.rs.
use ducp_node_rs.Common.{
  ℕ, zero, suc, ◌+◌, ◌-◌, ◌%◌, ◌^◌, ◌≤◌, ◌<◌, ◌≡◌, refl, arith, Option, none, some, [], ◌∷◌, ◌++◌,
  min, ltb, leb, ◌&&◌, if◌then◌else◌, inl, inr, Bool-cases,
}
use ducp_node_rs.Common.Int.{ℤ, pos, negsuc}
use ducp_node_rs.Common.Lists.{length}
use ducp_node_rs.Common.Words.{u64_mod, saturating_sub}
use ducp_node_rs.Types.Bytes.{Bytes}

pub record HostState : Type 0 where
  pub input : Bytes
  pub output : Bytes
  pub fail_code : Option ℤ
  -- the memory size of the `StoreLimits`
  pub limits : ℕ

abbrev pub new_host : Bytes → ℕ → HostState
new_host input max_memory_bytes = record {
  input = input;
  output = [];
  fail_code = none;
  limits = max_memory_bytes;
}

-- `n as usize` of an i32: a negative number wraps.
unfoldable pub as_usize : ℤ → ℕ
as_usize (pos n) = n
as_usize (negsuc n) = u64_mod - 1 - n

-- `n as i32` of a usize.
unfoldable pub as_i32 : ℕ → ℤ
as_i32 n =
    let bits = n % 2 ^ 32 in if ltb bits (2 ^ 31) then pos bits else negsuc (2 ^ 32 - 1 - bits)

unfoldable pub take : ℕ → Bytes → Bytes
take zero bs = []
take (suc n) [] = []
take (suc n) (b ∷ bs) = b ∷ take n bs

unfoldable pub drop : ℕ → Bytes → Bytes
drop zero bs = bs
drop (suc n) [] = []
drop (suc n) (b ∷ bs) = drop n bs

-- `bs[from..from + n]`, which panics past the end.
unfoldable pub slice : ℕ → ℕ → Bytes → Option Bytes
unfolding take drop
slice from n bs = if leb (from + n) (length bs) then some (take n (drop from bs)) else none

-- `memory[dst..dst + n].copy_from_slice(bytes)`, where `bytes` has `n` bytes and the range is within.
unfoldable pub splice : ℕ → Bytes → Bytes → Bytes
unfolding take drop
splice dst bytes memory = take dst memory ++ (bytes ++ drop (dst + length bytes) memory)

unfoldable pub input_len : HostState → ℤ
input_len state = as_i32 (length state.input)

-- The guest's memory, if it exports one, and the answer; `none` where the host function panics.
unfoldable pub input_read : HostState → Option Bytes → ℤ → ℤ → ℤ → Option (Option Bytes × ℤ)
unfolding slice splice
input_read state none dst' offset' len' = some (none, pos 0)
input_read state (some memory) dst' offset' len' =
    let dst = as_usize dst' in
    let offset = as_usize offset' in
    let len = as_usize len' in
    let n = min len (saturating_sub (length state.input) offset) in
    if ltb (dst + n) u64_mod && leb (dst + n) (length memory)
    then elim (slice offset n state.input) [
      | none ↦ none
      | some bytes ↦ some (some (splice dst bytes memory), as_i32 n)
    ]
    else some (some memory, pos 0)

unfoldable pub output_write : HostState → Option Bytes → ℤ → ℤ → HostState
unfolding take drop
output_write state none src' len' = state
output_write state (some memory) src' len' =
    let src = as_usize src' in
    let len = as_usize len' in
    if ltb (src + len) u64_mod && leb (src + len) (length memory)
    then record state { output = state.output ++ take len (drop src memory) }
    else state

unfoldable pub fail : HostState → ℤ → HostState
fail state code = record state { fail_code = some code }

length-take : (n : ℕ) (bs : Bytes) → length (take n bs) ≡ min n (length bs)
unfolding take
length-take zero bs = ground arith
length-take (suc n) [] = ground arith
length-take (suc n) (b ∷ bs) = ground (arith, length-take n bs)

length-drop : (n : ℕ) (bs : Bytes) → length (drop n bs) ≡ length bs - n
unfolding drop
length-drop zero bs = omega arith
length-drop (suc n) [] = omega arith
length-drop (suc n) (b ∷ bs) = omega (arith, length-drop n bs)

length-++ : (xs bs : Bytes) → length (xs ++ bs) ≡ length xs + length bs
length-++ [] bs = omega arith
length-++ (x ∷ xs) bs = omega (arith, length-++ xs bs)

length-splice :
    (dst : ℕ) (bytes memory : Bytes)
    → dst + length bytes ≤ length memory
    → length (splice dst bytes memory) ≡ length memory
unfolding splice
length-splice dst bytes memory h = ground (
  arith,
  length-++ (take dst memory) (bytes ++ drop (dst + length bytes) memory),
  length-++ bytes (drop (dst + length bytes) memory),
  length-take dst memory,
  length-drop (dst + length bytes) memory,
)

-- With an exported memory and an offset that is not past the input's end, `input_read` answers
-- without a panic and leaves the memory at its size.
pub input_read_safe :
    (state : HostState) (memory : Bytes) (dst offset len : ℤ)
    → as_usize offset ≤ length state.input
    → (memory' : Bytes) × (n : ℤ) × (input_read state (some memory) dst offset len
        ≡ some (some memory', n))
      × (length memory' ≡ length memory)
unfolding input_read slice
input_read_safe state memory dst offset len within =
    let at = as_usize offset in
    let n = min (as_usize len) (saturating_sub (length state.input) at) in
    let piece = take n (drop at state.input) in
    let size : length piece ≡ n =
      ground (arith, length-take n (drop at state.input), length-drop at state.input) in
    elim (Bool-cases (ltb (as_usize dst + n) u64_mod && leb (as_usize dst + n) (length memory))) [
      | inl fits ↦ (
        splice (as_usize dst) piece memory,
        as_i32 n,
        ground (arith, fits, size),
        ground (arith, fits, size, length-splice (as_usize dst) piece memory),
      )
      | inr out ↦ (memory, pos 0, ground (arith, out), refl)
    ]

-- With an offset past the input's end, and a destination inside a memory smaller than 2 ^ 64,
-- `input_read` panics.
pub input_read_panics :
    (state : HostState) (memory : Bytes) (dst offset len : ℤ)
    → length state.input < as_usize offset
    → as_usize dst ≤ length memory
    → length memory < u64_mod
    → input_read state (some memory) dst offset len ≡ none
unfolding input_read slice
input_read_panics state memory dst offset len past inside fits = ground arith
