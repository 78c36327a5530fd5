-- ===== src/Types/Bytes.antt =====
-- Identifiers and their bytes. A 32-byte array is the number that its bytes spell, first byte
-- first; a byte string is a list of numbers.
use ducp_node_rs.Common.{
  ℕ, zero, suc, ◌+◌, ◌*◌, ◌/◌, ◌%◌, ◌<◌, ◌≡◌, refl, ◌∙◌, ap, arith, List, [], ◌∷◌, ◌++◌, Option,
  none, some, ◌==◌, ==_self, if◌then◌else◌,
}
use ducp_node_rs.Common.Lists.{length, length-snoc}

abbrev pub Hash : Type 0
Hash = ℕ

abbrev pub Identity : Type 0
Identity = ℕ

abbrev pub Signature : Type 0
Signature = ℕ

abbrev pub ContentId : Type 0
ContentId = Hash

abbrev pub TaskId : Type 0
TaskId = Hash

abbrev pub TxId : Type 0
TxId = Hash

-- A u128 of base units.
abbrev pub Ucu : Type 0
Ucu = ℕ

abbrev pub Epoch : Type 0
Epoch = ℕ

abbrev pub BenchmarkVersion : Type 0
BenchmarkVersion = ℕ

abbrev pub Bytes : Type 0
Bytes = List ℕ

abbrev pub ucu_scale : Ucu
ucu_scale = 1_000_000_000

abbrev pub micro_q_scale : ℕ
micro_q_scale = 1_000_000

-- The `k` bytes of an array that spells `n`.
unfoldable pub be_bytes : ℕ → ℕ → Bytes
be_bytes zero n = []
be_bytes (suc k) n = be_bytes k (n / 256) ++ (n % 256) ∷ []

-- `to_le_bytes` of a `k`-byte integer.
unfoldable pub le_bytes : ℕ → ℕ → Bytes
le_bytes zero n = []
le_bytes (suc k) n = (n % 256) ∷ le_bytes k (n / 256)

-- `from_le_bytes`
unfoldable pub from_le_bytes : Bytes → ℕ
from_le_bytes [] = 0
from_le_bytes (b ∷ bs) = b + 256 * from_le_bytes bs

-- `bytes.try_into()` to an array of `k` bytes, as the number that they spell.
unfoldable pub from_be_bytes : Bytes → ℕ → ℕ
from_be_bytes [] n = n
from_be_bytes (b ∷ bs) n = from_be_bytes bs (n * 256 + b)

unfoldable pub to_array : ℕ → Bytes → Option ℕ
unfolding from_be_bytes
to_array k bs = if length bs == k then some (from_be_bytes bs 0) else none

-- `[b; k]`, as the number that its bytes spell.
abbrev pub filled : ℕ → ℕ → ℕ
filled zero b = 0
filled (suc k) b = filled k b * 256 + b

-- Every item of a byte string is below 256.
abbrev pub AreBytes : Bytes → Type 0
AreBytes [] = Unit {0}
AreBytes (b ∷ bs) = (b < 256) × AreBytes bs

++-AreBytes : (xs ys : Bytes) → AreBytes xs → AreBytes ys → AreBytes (xs ++ ys)
++-AreBytes [] ys a b = b
++-AreBytes (x ∷ xs) ys (small, a) b = (small, ++-AreBytes xs ys a b)

pub be_bytes-AreBytes : (k n : ℕ) → AreBytes (be_bytes k n)
unfolding be_bytes
be_bytes-AreBytes zero n = tt
be_bytes-AreBytes (suc k) n =
    ++-AreBytes (be_bytes k (n / 256)) ((n % 256) ∷ []) (be_bytes-AreBytes k (n / 256))
      (omega arith, tt)

-- 256 ^ k
abbrev pub span : ℕ → ℕ
span zero = 1
span (suc k) = 256 * span k

length-be_bytes : (k n : ℕ) → length (be_bytes k n) ≡ k
unfolding be_bytes
length-be_bytes zero n = refl
length-be_bytes (suc k) n =
    length-snoc (be_bytes k (n / 256)) (n % 256) ∙ ap suc (length-be_bytes k (n / 256))

from_be_bytes-snoc :
    (bs : Bytes) (b n : ℕ) → from_be_bytes (bs ++ b ∷ []) n ≡ from_be_bytes bs n * 256 + b
unfolding from_be_bytes
from_be_bytes-snoc [] b n = refl
from_be_bytes-snoc (c ∷ bs) b n = from_be_bytes-snoc bs b (n * 256 + c)

from_be_bytes-be_bytes : (k n : ℕ) → n < span k → from_be_bytes (be_bytes k n) 0 ≡ n
unfolding be_bytes
from_be_bytes-be_bytes zero n fits = unfold from_be_bytes in omega arith
from_be_bytes-be_bytes (suc k) n fits = omega (
  arith,
  from_be_bytes-snoc (be_bytes k (n / 256)) (n % 256) 0,
  from_be_bytes-be_bytes k (n / 256) (omega arith),
)

-- An array is read back from its bytes.
pub to_array-be_bytes : (k n : ℕ) → n < span k → to_array k (be_bytes k n) ≡ some n
unfolding to_array
to_array-be_bytes k n fits =
    rw (length-be_bytes k n, from_be_bytes-be_bytes k n fits, ==_self k) refl
