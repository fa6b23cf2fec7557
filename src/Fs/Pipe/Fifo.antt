-- ===== src/Fs/Pipe/Fifo.antt =====
-- fs/pipe.c: the pipe as a queue of bytes.
use linux.Prelude.{
  ℕ, zero, suc, ◌+◌, ◌-◌, ◌≤◌, ◌<◌, ◌≡◌, ◌≢◌, ◌⊎◌, inl, inr, refl, sym, ap, ◌∙◌, arith, true, false,
  Bool-cases, List, [], ◌∷◌, ◌++◌, length, ◌==◌, set_bit, take,
}
use mathlib.Core.List.{append-nil, append_assoc}
use Prim.Native.Nat.{min}
use linux.Fs.Pipe.{
  Pipe, End, returned, failed, sleeping, pipe_size, pipe_empty, pipe_full, inc_pipe, take_bytes,
  count_bytes, read_pipe, put_byte, put_bytes, write_pipe, stop_full,
}
use linux.Fs.Pipe.Window.{IsPipe, window, contents, contents-put_byte, put_byte-IsPipe}

-- What `read_pipe` does to the bytes: those read and those left are those that were there; the
-- head, the page and the counts stay.
abbrev pub IsRead : ℕ → Pipe → List ℕ → Pipe → Type 0
IsRead count p bytes p' =
    (bytes ++ contents p' ≡ contents p)
    × (length bytes ≡ min count (pipe_size p))
    × IsPipe p'
    × (p' ≡ record p { tail = p'.tail })

-- The oldest byte.
contents-first :
    (p : Pipe)
    → IsPipe p
    → pipe_empty p ≡ false
    → contents p ≡ p.page p.tail ∷ contents (record p { tail = inc_pipe p.tail })
contents-first p v ne = ap (window p.page p.tail) size
  where
    size : pipe_size p ≡ suc (pipe_size (record p { tail = inc_pipe p.tail }))
    size = ground arith

take_bytes-IsRead :
    (count : ℕ) (p : Pipe) → IsPipe p → IsRead count p (take_bytes count p).0 (take_bytes count p).1
unfolding take_bytes
take_bytes-IsRead zero p v = (refl, omega arith, v, refl)
take_bytes-IsRead (suc count) p v = elim (Bool-cases (pipe_empty p)) [
  | inl e ↦ rw e (refl, ground arith, v, refl)
  | inr ne ↦
      rw ne (more ne (take_bytes-IsRead count (record p { tail = inc_pipe p.tail }) (omega arith)))
]
  where
    next : Pipe
    next = record p { tail = inc_pipe p.tail }

    more :
        pipe_empty p ≡ false
        → IsRead count next (take_bytes count next).0 (take_bytes count next).1
        → IsRead (suc count) p (p.page p.tail ∷ (take_bytes count next).0) (take_bytes count next).1
    more ne (bytes_ok, len, v', same) = (
      ap (◌∷◌ (p.page p.tail)) bytes_ok ∙ sym (contents-first p v ne),
      ground (arith, len),
      v',
      same,
    )

-- What a write has done, with `n` bytes written before: the first bytes have gone in at the end,
-- in order; all of them if it returned their number, and as many as there was room for if it
-- sleeps or found no reader.
abbrev pub IsWritten : List ℕ → ℕ → Pipe → Pipe → End → Type 0
IsWritten bytes n p p' (returned m) =
    (n ≤ m)
    × (m ≤ n + length bytes)
    × (contents p' ≡ contents p ++ take (m - n) bytes)
    × IsPipe p'
    × ((m ≡ n + length bytes) ⊎ ((p.count ≢ 2) × (pipe_size p' ≡ 4095)))
IsWritten bytes n p p' (sleeping left) =
    (0 < left)
    × (left ≤ length bytes)
    × (contents p' ≡ contents p ++ take (length bytes - left) bytes)
    × IsPipe p'
    × (p.count ≡ 2)
    × (pipe_size p' ≡ 4095)
IsWritten bytes n p p' failed = ⊥

append_take :
    (xs ys bs : List ℕ) (b k j : ℕ)
    → j ≡ suc k
    → ys ≡ xs ++ b ∷ []
    → ys ++ take k bs ≡ xs ++ take j (b ∷ bs)
append_take xs ys bs b k j e first = rw (e, first) (append_assoc xs (b ∷ []) (take k bs))

-- One byte put, and the rest written, is the whole written.
IsWritten-cons :
    (b : ℕ) (bs : List ℕ) (n : ℕ) (p p' : Pipe) (end : End)
    → contents (put_byte b p) ≡ contents p ++ b ∷ []
    → IsWritten bs (n + 1) (put_byte b p) p' end
    → IsWritten (b ∷ bs) n p p' end
IsWritten-cons b bs n p p' (returned m) first (lo, hi, c, v, why) = (
  omega arith,
  omega arith,
  c
      ∙ append_take (contents p) (contents (put_byte b p)) bs b (m - (n + 1)) (m - n) (omega arith)
          first,
  v,
  all_or_full why,
)
  where
    all_or_full :
        (m ≡ n + 1 + length bs) ⊎ ((p.count ≢ 2) × (pipe_size p' ≡ 4095))
        → (m ≡ n + suc (length bs)) ⊎ ((p.count ≢ 2) × (pipe_size p' ≡ 4095))
    all_or_full (inl e) = inl (omega arith)
    all_or_full (inr f) = inr f
IsWritten-cons b bs n p p' (sleeping left) first (lo, hi, c, v, open', full) = (
  lo,
  omega arith,
  c
      ∙ append_take (contents p) (contents (put_byte b p)) bs b (length bs - left)
          (suc (length bs) - left) (omega arith) first,
  v,
  open',
  full,
)
IsWritten-cons b bs n p p' failed first h = absurd h

count_bytes-eq-length : (bs : List ℕ) → count_bytes bs ≡ length bs
count_bytes-eq-length [] = refl
count_bytes-eq-length (b ∷ bs) = ap suc (count_bytes-eq-length bs)

stop_full-IsWritten :
    (bytes : List ℕ) (n : ℕ) (p : Pipe)
    → 0 < length bytes
    → IsPipe p
    → pipe_full p ≡ true
    → IsWritten bytes n p
        (stop_full (count_bytes bytes) n p).0
        (stop_full (count_bytes bytes) n p).1
unfolding stop_full
stop_full-IsWritten bytes n p some_left v full = elim (Bool-cases (p.count == 2)) [
  | inl two ↦
      rw (two, count_bytes-eq-length bytes)
        (
          some_left,
          omega arith,
          rw (same_left (length bytes)) none_taken,
          v,
          ground arith,
          ground arith,
        )
  | inr closed ↦
      rw (closed, same_left n)
        (omega arith, omega arith, none_taken, omega arith, inr (ground arith, ground arith))
]
  where
    none_taken : contents p ≡ contents p ++ []
    none_taken = sym (append-nil (contents p))

    same_left : (k : ℕ) → k - k ≡ 0
    same_left k = omega arith

put_bytes-IsWritten :
    (bytes : List ℕ) (n : ℕ) (p : Pipe)
    → IsPipe p
    → IsWritten bytes n p (put_bytes bytes n p).0 (put_bytes bytes n p).1
unfolding put_bytes
put_bytes-IsWritten [] n p v = (
  omega arith,
  omega arith,
  sym (rw (zero_left n) (append-nil (contents p))),
  v,
  inl (omega arith),
)
  where
    zero_left : (k : ℕ) → k - k ≡ 0
    zero_left k = omega arith
put_bytes-IsWritten (b ∷ bs) n p v = elim (Bool-cases (pipe_full p)) [
  | inr room ↦ rw room (
      IsWritten-cons b bs n p (put_bytes bs (n + 1) (put_byte b p)).0
        (put_bytes bs (n + 1) (put_byte b p)).1 (contents-put_byte b p v (ground arith))
        (put_bytes-IsWritten bs (n + 1) (put_byte b p) (put_byte-IsPipe b p v)))
  | inl full ↦ rw full (stop_full-IsWritten (b ∷ bs) n p (omega arith) v full)
]

-- `read_pipe` of a pipe whose indices lie in its page. If the pipe is empty it changes nothing, and
-- sleeps while both ends are open and returns 0 if not. Otherwise it returns as many bytes as were
-- asked for and were there: they are the oldest, in order, and the rest stays.
pub read_pipe_lem :
    (count : ℕ) (p : Pipe)
    → IsPipe p
    → let (bytes, p', end) = read_pipe count p in
      IsRead count p bytes p'
      × (((pipe_size p ≡ 0) × (p.count ≡ 2) × (end ≡ sleeping count))
          ⊎ (((pipe_size p ≢ 0) ⊎ (p.count ≢ 2)) × (end ≡ returned (length bytes))))
unfolding read_pipe
read_pipe_lem count p v = elim (Bool-cases (pipe_empty p)) [
  | inr some_left ↦ rw some_left (
    take_bytes-IsRead count p v,
    inr (inl (ground arith), ap returned (count_bytes-eq-length (take_bytes count p).0)),
  )
  | inl empty ↦ rw empty (elim (Bool-cases (p.count == 2)) [
    | inl two ↦ rw two ((refl, ground arith, v, refl), inl (ground arith, ground arith, refl))
    | inr closed ↦ rw closed ((refl, ground arith, v, refl), inr (inr (ground arith), refl))
  ])
]

-- `write_pipe` to a pipe whose indices lie in its page. Without a reader it returns -1 and the
-- bytes stay as they were. Otherwise the bytes go in behind those that are there, in order: all of
-- them, and it returns their number; or the first of them until the pipe holds 4095 bytes, and it
-- sleeps with the rest to go.
pub write_pipe_lem :
    (bytes : List ℕ) (p : Pipe)
    → IsPipe p
    → let (p', end) = write_pipe bytes p in
      ((p.count ≡ 2) × IsWritten bytes 0 p p' end)
      ⊎ ((p.count ≢ 2) × (end ≡ failed) × (p' ≡ record p { signal = set_bit 12 p.signal }))
unfolding write_pipe
write_pipe_lem bytes p v = elim (Bool-cases (p.count == 2)) [
  | inl two ↦ rw two (inl (ground arith, put_bytes-IsWritten bytes 0 p v))
  | inr closed ↦ rw closed (inr (ground arith, refl, refl))
]
