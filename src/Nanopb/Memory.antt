-- ===== src/Nanopb/Memory.antt =====
-- Memory as nanopb's message functions see it: bytes at addresses, numbers with their lowest byte
-- first, pointers of eight bytes.
use firebase_login.Base.{ℕ, zero, suc, ◌+◌, ◌*◌, ◌/◌, ◌%◌, List, [], ◌∷◌, ◌==◌, if◌then◌else◌}

abbrev pub Memory : Type 0
Memory = ℕ → ℕ

-- The number in the `width` bytes from an address on.
unfoldable pub load : ℕ → ℕ → Memory → ℕ
load zero address m = 0
load (suc width) address m = m address % 256 + 256 * load width (address + 1) m

abbrev pub load_pointer : ℕ → Memory → ℕ
load_pointer address m = load 8 address m

-- `pb_size_t`
abbrev pub load_size : ℕ → Memory → ℕ
load_size address m = load 4 address m

unfoldable pub read_bytes : ℕ → ℕ → Memory → List ℕ
read_bytes zero address m = []
read_bytes (suc count) address m = (m address % 256) ∷ read_bytes count (address + 1) m

unfoldable pub set_byte : ℕ → ℕ → Memory → Memory
set_byte address b m a = if a == address then b else m a

unfoldable pub store : ℕ → ℕ → ℕ → Memory → Memory
unfolding set_byte
store zero address n m = m
store (suc width) address n m = store width (address + 1) (n / 256) (set_byte address (n % 256) m)

-- `memcpy` from the bytes of a list
unfoldable pub write_bytes : ℕ → List ℕ → Memory → Memory
unfolding set_byte
write_bytes address [] m = m
write_bytes address (b ∷ bytes) m = write_bytes (address + 1) bytes (set_byte address b m)

-- The bytes of a text and its terminator, for `limit` bytes at most.
unfoldable pub read_text : ℕ → ℕ → Memory → List ℕ
read_text zero address m = []
read_text (suc limit) address m = elim (m address % 256) [
  | zero ↦ 0 ∷ []
  | suc c ↦ suc c ∷ read_text limit (address + 1) m
]
