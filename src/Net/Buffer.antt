-- ===== src/Net/Buffer.antt =====
-- `Buffer`, include/qing/net/buffer.hpp and src/net/buffer.cpp: a string of bytes.
use qing.Common.{
  ℕ, Bool, true, false, Option, none, some, List, [], ◌++◌, ltb, leb, ◌==◌, if◌then◌else◌, length,
  take, drop,
}

pub record Buffer : Type 0 where
  pub bytes : List ℕ

-- `Buffer()`.
unfoldable pub new_buffer : Buffer
new_buffer = record { bytes = [] }

unfoldable pub release : Buffer → Buffer
release b = record b { bytes = [] }

-- What stands at the address that `buffer()` returns.
unfoldable pub buffer : Buffer → List ℕ
buffer b = b.bytes

unfoldable pub size : Buffer → ℕ
size b = length b.bytes

-- `write`: the memory behind `data` is a list, `none` for NULL. No result: the copy would read
-- past that memory.
unfoldable pub write : Option (List ℕ) → ℕ → Buffer → Option Buffer
write none n b = some b
write (some memory) n b =
    if n == 0
    then some b
    else (if leb n (length memory)
        then some (record b { bytes = b.bytes ++ take n memory })
        else none)

-- `fetch`, with the memory at `data` before and after. No result: the copy would write past it.
unfoldable pub fetch : List ℕ → ℕ → Buffer → Option (Bool × List ℕ × Buffer)
unfolding size
fetch memory n b =
    if ltb (size b) n
    then some (false, memory, b)
    else (if leb n (length memory)
        then some (true, take n b.bytes ++ drop n memory, record b { bytes = drop n b.bytes })
        else none)
