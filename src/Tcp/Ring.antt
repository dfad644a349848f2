-- ===== src/Tcp/Ring.antt =====
-- The circular byte buffers of a socket: `WINDOW_SIZE` bytes that `copy` writes and slices read. A
-- byte is any number. `Write` and `Read` relate them to going round the buffer byte by byte.
pub mod Write
pub mod Read
use ip_tcp.Base.{
  ℕ, zero, suc, ◌+◌, ◌-◌, ◌%◌, ◌≤◌, ◌<◌, ◌&&◌, List, [], ◌∷◌, leb, ltb, ◌==◌, if◌then◌else◌, length,
  get_or,
}

-- `WINDOW_SIZE`
abbrev pub window_size : ℕ
window_size = 65536

-- What a slice of `WINDOW_SIZE` bytes holds at each index.
abbrev pub Buffer : Type 0
Buffer = ℕ → ℕ

-- `copy(buf[at:at+len(xs)], xs)`
unfoldable pub copy_at : Buffer → ℕ → List ℕ → Buffer
copy_at buf at xs i = if leb at i && ltb i (at + length xs) then get_or xs (i - at) 0 else buf i

-- `buf[at:at+n]`
unfoldable pub slice : Buffer → ℕ → ℕ → List ℕ
slice buf at zero = []
slice buf at (suc n) = buf at ∷ slice buf (at + 1) n

-- The byte at position `at`, replaced.
unfoldable pub update : Buffer → ℕ → ℕ → Buffer
update buf at x i = if at == i then x else buf i

-- The reference: bytes go to positions `p`, `p + 1`, … modulo `WINDOW_SIZE`.
unfoldable pub write_ring : Buffer → ℕ → List ℕ → Buffer
unfolding update
write_ring buf p [] = buf
write_ring buf p (x ∷ xs) = write_ring (update buf (p % window_size) x) (p + 1) xs

-- The reference: the `n` bytes at positions `p`, `p + 1`, … modulo `WINDOW_SIZE`.
unfoldable pub read_ring : Buffer → ℕ → ℕ → List ℕ
read_ring buf p zero = []
read_ring buf p (suc n) = buf (p % window_size) ∷ read_ring buf (p + 1) n
