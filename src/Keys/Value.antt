-- ===== src/Keys/Value.antt =====
-- The number that a key stands for, and the round trips of `int2key` and `key2int`.
use native.Mathlib.Nat.{pow-succ'}
use dex_partial.Base.{ℕ, zero, suc, ◌+◌, ◌*◌, ◌^◌, ◌<◌, ◌≡◌, ap, ◌∙◌, arith}
use dex_partial.Keys.{key_len, Key, int2key, key2int_loop, key2int}

-- The first `n` bytes as a number.
unfoldable pub value : ℕ → Key → ℕ
value zero k = 0
value (suc n) k = 256 * value n k + k n

pub value_lt : (n : ℕ) (k : Key) → ((i : ℕ) → k i < 256) → value n k < 256 ^ n
unfolding value
value_lt zero k b = omega arith
value_lt (suc n) k b = omega (arith, value_lt n k b, b n, pow-succ' 256 n)

pub key2int-value : (k : Key) → ((i : ℕ) → k i < 256) → key2int k ≡ value key_len k
unfolding key2int key2int_loop value
key2int-value k b = omega (arith, b 0, b 1, b 2, b 3, b 4, b 5, b 6, b 7)

int2key_small : (x i : ℕ) → int2key x i < 256
unfolding int2key
int2key_small x i = ground arith

from_value :
    (k : Key) → ((i : ℕ) → k i < 256) → (i : ℕ) → i < key_len → int2key (value key_len k) i ≡ k i
unfolding int2key value
from_value k b zero h = omega (arith, b 0, b 1, b 2, b 3, b 4, b 5, b 6, b 7)
from_value k b (suc zero) h = omega (arith, b 0, b 1, b 2, b 3, b 4, b 5, b 6, b 7)
from_value k b (suc (suc zero)) h = omega (arith, b 0, b 1, b 2, b 3, b 4, b 5, b 6, b 7)
from_value k b (suc (suc (suc zero))) h = omega (arith, b 0, b 1, b 2, b 3, b 4, b 5, b 6, b 7)
from_value k b (suc (suc (suc (suc zero)))) h =
    omega (arith, b 0, b 1, b 2, b 3, b 4, b 5, b 6, b 7)
from_value k b (suc (suc (suc (suc (suc zero))))) h =
    omega (arith, b 0, b 1, b 2, b 3, b 4, b 5, b 6, b 7)
from_value k b (suc (suc (suc (suc (suc (suc zero)))))) h =
    omega (arith, b 0, b 1, b 2, b 3, b 4, b 5, b 6, b 7)
from_value k b (suc (suc (suc (suc (suc (suc (suc zero))))))) h =
    omega (arith, b 0, b 1, b 2, b 3, b 4, b 5, b 6, b 7)
from_value k b (suc (suc (suc (suc (suc (suc (suc (suc i)))))))) h = absurd (omega arith)

-- `int2key` and `key2int` undo each other, on 64-bit numbers and on keys of bytes.
pub key2int-int2key :
    (x : ℕ) (k : Key)
    → x < 2 ^ 64
    → ((i : ℕ) → k i < 2 ^ 8)
    → (key2int (int2key x) ≡ x) × ((i : ℕ) → i < key_len → int2key (key2int k) i ≡ k i)
unfolding value int2key
key2int-int2key x k small b = (
  key2int-value (int2key x) (int2key_small x) ∙ omega arith,
  λ i h. ap (λ z. int2key z i) (key2int-value k b) ∙ from_value k b i h,
)
