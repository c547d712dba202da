-- ===== src/Dlmalloc/Memory.antt =====
-- Memory as bytes, and unsigned numbers of any width in it, the low byte first.
use id.Base.{
  ℕ, zero, suc, ◌+◌, ◌*◌, ◌/◌, ◌%◌, ◌^◌, ◌≤◌, ◌<◌, ◌≡◌, refl, ◌⊎◌, arith, ◌==◌, if◌then◌else◌,
}
use native.Mathlib.Nat.{pow-suc}
use native.Mathlib.Decide.{dec_lt}
use id.Base.{fun_ext}

abbrev pub Mem : Type 0
Mem = ℕ → ℕ

-- Reads and writes of `w` bytes at an address.
unfoldable pub load : ℕ → ℕ → Mem → ℕ
load zero a m = 0
load (suc w) a m = m a % 256 + 256 * load w (a + 1) m

abbrev put : ℕ → ℕ → Mem → Mem
put a v m b = if b == a then v else m b

unfoldable pub store : ℕ → ℕ → ℕ → Mem → Mem
store zero a v m = m
store (suc w) a v m = put a (v % 256) (store w (a + 1) (v / 256) m)

-- The bytes that a write of `w` bytes keeps of `v`.
unfoldable pub trunc : ℕ → ℕ → ℕ
trunc zero v = 0
trunc (suc w) v = v % 256 + 256 * trunc w (v / 256)

pub store-outside : (w a v : ℕ) (m : Mem) (b : ℕ) → (b < a) ⊎ (a + w ≤ b) → store w a v m b ≡ m b
unfolding store
store-outside zero a v m b h = refl
store-outside (suc w) a v m b h = ground (arith, store-outside w (a + 1) (v / 256) m b)

pub load-store_ne :
    (w a w' b v : ℕ) (m : Mem) → (a + w ≤ b) ⊎ (b + w' ≤ a) → load w a (store w' b v m) ≡ load w a m
unfolding load
load-store_ne zero a w' b v m h = refl
load-store_ne (suc w) a w' b v m h =
    ground (arith, store-outside w' b v m a, load-store_ne w (a + 1) w' b v m)

load-put : (w a b v : ℕ) (m : Mem) → b < a → load w a (put b v m) ≡ load w a m
unfolding load
load-put zero a b v m h = refl
load-put (suc w) a b v m h = ground (arith, load-put w (a + 1) b v m)

pub load-store : (w a v : ℕ) (m : Mem) → load w a (store w a v m) ≡ trunc w v
unfolding load store trunc
load-store zero a v m = refl
load-store (suc w) a v m = ground (
  arith,
  load-put w (a + 1) a (v % 256) (store w (a + 1) (v / 256) m),
  load-store w (a + 1) (v / 256) m,
)

pub trunc-half : (v : ℕ) → trunc 2 v ≡ v % 2 ^ 16
unfolding trunc
trunc-half v = omega arith

trunc-of_lt : (w v : ℕ) → v < 256 ^ w → trunc w v ≡ v
unfolding trunc
trunc-of_lt zero v h = omega arith
trunc-of_lt (suc w) v h =
    let small : v < 256 ^ w * 256 = rw (← pow-suc 256 w) h in
    omega (arith, trunc-of_lt w (v / 256) (omega arith))

pub trunc-word : (v : ℕ) → v < 2 ^ 64 → trunc 8 v ≡ v
trunc-word v h = trunc-of_lt 8 v h

store-inside :
    (w a v : ℕ) (m m' : Mem) (b : ℕ) → a ≤ b → b < a + w → store w a v m b ≡ store w a v m' b
unfolding store
store-inside zero a v m m' b h k = absurd (omega arith)
store-inside (suc w) a v m m' b h k = ground (arith, store-inside w (a + 1) (v / 256) m m' b)

store_comm_outside :
    (w a v w' b u : ℕ) (m : Mem) (c : ℕ)
    → (c < a) ⊎ (a + w ≤ c)
    → store w a v (store w' b u m) c ≡ store w' b u (store w a v m) c
store_comm_outside w a v w' b u m c out = elim (dec_lt c b) [
  | yes low ↦ ground (
    arith,
    store-outside w a v (store w' b u m) c,
    store-outside w' b u (store w a v m) c,
    store-outside w' b u m c,
    store-outside w a v m c,
  )
  | no high ↦ ground (
    arith,
    store-outside w a v (store w' b u m) c,
    store-outside w' b u (store w a v m) c,
    store-outside w' b u m c,
    store-outside w a v m c,
    store-inside w' b u m (store w a v m) c,
  )
]

-- Two writes that do not overlap commute.
pub store_comm :
    (w a v w' b u : ℕ) (m : Mem)
    → (a + w ≤ b) ⊎ (b + w' ≤ a)
    → store w a v (store w' b u m) ≡ store w' b u (store w a v m)
store_comm w a v w' b u m h = fun_ext λ c. ground (
  arith,
  store_comm_outside w a v w' b u m c,
  store-inside w a v (store w' b u m) m c,
  store-outside w' b u (store w a v m) c,
)
