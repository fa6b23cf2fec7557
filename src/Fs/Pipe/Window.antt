-- ===== src/Fs/Pipe/Window.antt =====
-- The bytes in a pipe, oldest first.
use linux.Prelude.{
  ℕ, zero, suc, ◌+◌, ◌%◌, ◌<◌, ◌≡◌, ◌≢◌, refl, ap, ◌∙◌, arith, List, [], ◌∷◌, ◌++◌, update,
  update_self, length, ring, IsRing, ring-snoc, ring-update,
}
use mathlib.Core.Path.{ap₂}
use linux.Fs.Pipe.{Pipe, pipe_size, inc_pipe, put_byte}

-- `n` bytes of the page from `t` on, going round at its end.
abbrev pub window : (ℕ → ℕ) → ℕ → ℕ → List ℕ
window = ring inc_pipe

abbrev pub contents : Pipe → List ℕ
contents p = window p.page p.tail (pipe_size p)

-- Both indices are in the page.
pub record IsPipe (p : Pipe) : Type 0 where
  pub head_in : p.head < 4096
  pub tail_in : p.tail < 4096

pub length-window : (page : ℕ → ℕ) (t n : ℕ) → length (window page t n) ≡ n
length-window page t zero = refl
length-window page t (suc n) = ap suc (length-window page (inc_pipe t) n)

around : ℕ → ℕ → ℕ
around t n = (t + n) % 4096

pipe-IsRing : IsRing 4096 inc_pipe around
unfolding around
pipe-IsRing = record {
  step_in = λ t h. omega arith;
  nth_zero = λ t h. omega arith;
  nth_suc = λ t n h. omega arith;
}

-- A byte put into a pipe that is not full comes last.
pub contents-put_byte :
    (b : ℕ) (p : Pipe)
    → IsPipe p
    → pipe_size p ≢ 4095
    → contents (put_byte b p) ≡ contents p ++ b ∷ []
unfolding around
contents-put_byte b p v room =
    ap (window (update p.page p.head b) p.tail) grown
    ∙ ring-snoc 4096 inc_pipe around pipe-IsRing (update p.page p.head b) p.tail (pipe_size p)
        v.tail_in
    ∙ ap₂ (λ (xs : List ℕ) (x : ℕ). xs ++ x ∷ [])
        (ring-update 4096 inc_pipe around pipe-IsRing p.page b p.tail (pipe_size p) p.head v.tail_in
          (λ k l. omega arith))
        (ap (update p.page p.head b) last ∙ update_self p.page b p.head)
  where
    grown : pipe_size (put_byte b p) ≡ suc (pipe_size p)
    grown = omega arith

    last : (p.tail + pipe_size p) % 4096 ≡ p.head
    last = omega arith

pub put_byte-IsPipe : (b : ℕ) (p : Pipe) → IsPipe p → IsPipe (put_byte b p)
put_byte-IsPipe b p v = omega arith
