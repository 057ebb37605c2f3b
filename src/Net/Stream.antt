-- ===== src/Net/Stream.antt =====
-- A buffer against the stream of the bytes that go through it.
use mathlib.Core.List.{append_assoc, append-nil}
use qing.Common.{
  ℕ, zero, suc, ◌≤◌, ◌<◌, ◌≡◌, refl, sym, ap, ◌∙◌, inl, inr, true, false, Option, some, List, [],
  ◌∷◌, ◌++◌, arith, leb, if◌then◌else◌, length, take, drop, length-append, length-take,
  take-append-drop, replicate, Bool-cases, leb→le, ◌>>=◌,
}
use qing.Net.Buffer.{Buffer, size, write, fetch}

take_all : (xs : List ℕ) → take (length xs) xs ≡ xs
take_all [] = refl
take_all (x ∷ xs) = ap (λ l. x ∷ l) (take_all xs)

take-append : (n : ℕ) (xs ys : List ℕ) → n ≤ length xs → take n (xs ++ ys) ≡ take n xs
take-append zero xs ys h = refl
take-append (suc n) [] ys h = absurd (omega arith)
take-append (suc n) (x ∷ xs) ys h = ap (λ l. x ∷ l) (take-append n xs ys (omega arith))

drop-append : (n : ℕ) (xs ys : List ℕ) → n ≤ length xs → drop n (xs ++ ys) ≡ drop n xs ++ ys
drop-append zero xs ys h = refl
drop-append (suc n) [] ys h = absurd (omega arith)
drop-append (suc n) (x ∷ xs) ys h = drop-append n xs ys (omega arith)

-- What a client does with a buffer: write some bytes, or ask for a number of them in memory of
-- that size.
pub data Op : Type 0 where
  puts : List ℕ → Op
  gets : ℕ → Op

-- One operation, with the bytes that it hands out.
unfoldable pub step : Op → Buffer → Option (List ℕ × Buffer)
step (puts xs) b = write (some xs) (length xs) b >>= λ b'. some ([], b')
step (gets n) b = fetch (replicate n 0) n b >>= λ r. some (if r.0 then r.1 else [], r.2)

unfoldable pub run : List Op → Buffer → Option (List ℕ × Buffer)
run [] b = some ([], b)
run (op ∷ ops) b = step op b >>= λ r. run ops r.1 >>= λ q. some (r.0 ++ q.0, q.1)

abbrev pub sent : List Op → List ℕ
sent [] = []
sent (puts xs ∷ ops) = xs ++ sent ops
sent (gets n ∷ ops) = sent ops

-- The bounded requests: what a fetch of `n` bytes hands out of the bytes that wait.
abbrev pub grant : ℕ → List ℕ → List ℕ
grant n xs = if leb n (length xs) then take n xs else []

length-replicate : (n a : ℕ) → length (replicate n a) ≡ n
length-replicate zero a = refl
length-replicate (suc n) a = ap suc (length-replicate n a)

drop-replicate : (n a : ℕ) → drop n (replicate n a) ≡ []
drop-replicate zero a = refl
drop-replicate (suc n) a = drop-replicate n a

step_puts :
    (xs : List ℕ) (b : Buffer) → step (puts xs) b ≡ some ([], record b { bytes = b.bytes ++ xs })
unfolding step write
step_puts [] b = ground (arith, append-nil b.bytes)
step_puts (x ∷ xs) b = ground (arith, take_all xs)

-- A fetch hands out the oldest bytes and leaves the others, or hands out nothing and leaves all.
step_gets :
    (n : ℕ) (b : Buffer)
    → step (gets n) b
      ≡ some (grant n b.bytes, record b { bytes = drop (length (grant n b.bytes)) b.bytes })
unfolding step fetch size
step_gets n b = ground (
  arith,
  length-take n b.bytes,
  drop-replicate n 0,
  length-replicate n 0,
  append-nil (take n b.bytes),
)

grant-rest : (n : ℕ) (xs : List ℕ) → grant n xs ++ drop (length (grant n xs)) xs ≡ xs
grant-rest n xs = elim (Bool-cases (leb n (length xs))) [
  | inl le ↦
      let whole : length (take n xs) ≡ n =
        omega (arith, length-take n xs, leb→le n (length xs) le) in
      rw (le, whole) (take-append-drop n xs)
  | inr gt ↦ rw gt
]

-- No byte is lost, made up or moved: whatever a client writes and fetches, every operation
-- returns, and the bytes handed out, followed by those that still wait, are the bytes that waited
-- at first, followed by those written.
pub run_conserves :
    (ops : List Op) (b : Buffer)
    → (out : List ℕ) × (b' : Buffer) × (run ops b ≡ some (out, b'))
      × (out ++ b'.bytes ≡ b.bytes ++ sent ops)
unfolding run
run_conserves [] b = ([], b, refl, sym (append-nil b.bytes))
run_conserves (puts xs ∷ ops) b =
    let b1 : Buffer = record b { bytes = b.bytes ++ xs } in
    let (out, b', e, q) = run_conserves ops b1 in
    (out, b', rw (step_puts xs b, e), q ∙ append_assoc b.bytes xs (sent ops))
run_conserves (gets n ∷ ops) b =
    let b1 : Buffer = record b { bytes = drop (length (grant n b.bytes)) b.bytes } in
    let (out, b', e, q) = run_conserves ops b1 in
    (
      grant n b.bytes ++ out,
      b',
      rw (step_gets n b, e),
      rw (
        append_assoc (grant n b.bytes) out b'.bytes,
        q,
        ← append_assoc (grant n b.bytes) b1.bytes (sent ops),
        grant-rest n b.bytes,
      ),
    )

-- After a write, a fetch of bytes that waited before it gives the oldest of them, in order and at
-- the start of the client's memory, and leaves the others in front of those written, if the memory
-- has room for them.
pub fetch-write :
    (data_at : List ℕ) (m : ℕ) (memory : List ℕ) (n : ℕ) (b : Buffer) {b' : Buffer}
    → write (some data_at) m b ≡ some b'
    → n ≤ size b
    → n ≤ length memory
    → fetch memory n b'
      ≡ some (
        true,
        take n b.bytes ++ drop n memory,
        record { bytes = drop n b.bytes ++ take m data_at },
      )
unfolding write fetch size
fetch-write data_at m memory n b w h h' = ground (
  arith,
  take-append n b.bytes (take m data_at),
  drop-append n b.bytes (take m data_at),
  length-append b.bytes (take m data_at),
  append-nil b.bytes,
  append-nil (drop n b.bytes),
)

-- A fetch of more bytes than wait fails and changes neither the buffer nor the client's memory.
pub fetch_refused :
    (memory : List ℕ) (n : ℕ) (b : Buffer) → size b < n → fetch memory n b ≡ some (false, memory, b)
unfolding fetch
fetch_refused memory n b h = ground arith
