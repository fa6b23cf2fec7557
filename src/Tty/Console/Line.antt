-- ===== src/Tty/Console/Line.antt =====
-- The line discipline on sequences of characters.
use linux.Prelude.{
  ◌%◌, test_bit, leb, ℕ, ◌+◌, ◌≡◌, refl, ap, ◌∙◌, arith, inl, inr, Bool, true, false, not, ◌&&◌,
  ◌||◌, ◌==◌, if◌then◌else◌, Bool-cases, Option, none, some, List, [], ◌∷◌, ◌++◌,
}
use linux.Tty.Queue.{Queue, Tty}
use linux.Tty.Console.{
  Console, is_char, translate, erase_char, eof_char, stop_char, start_char, intr_char,
}

-- A newline or an end-of-file ends a line.
abbrev pub ends_line : Tty → ℕ → Bool
ends_line t c = c == 10 || is_char c (eof_char t)

-- What a typed character stands for, by the flags of the terminal. With ICRNL (bit 8 of `iflag`) a
-- carriage return is a newline, and else with IGNCR (7) it is nothing; with INLCR (6) a newline is a
-- carriage return; with IUCLC (9) a capital letter becomes what the
-- macro `tolower` makes of it, 162 more, as a char.
abbrev pub lowered : Tty → ℕ → ℕ
lowered t c = if test_bit 9 t.iflag && (leb 65 c && leb c 90) then (c + 162) % 256 else c

abbrev pub meant : Tty → ℕ → Option ℕ
meant t c =
    if c == 13 && test_bit 8 t.iflag
    then some 10
    else if c == 13 && test_bit 7 t.iflag
    then none
    else if c == 10 && test_bit 6 t.iflag
    then some 13
    else some (lowered t c)

pub translate-meant : (t : Tty) (c : ℕ) → translate t c ≡ meant t c
unfolding translate
translate-meant t c = ground arith

-- The last character goes, unless it ends a line.
abbrev pub erased : Tty → List ℕ → List ℕ
erased t [] = []
erased t (c ∷ []) = if ends_line t c then c ∷ [] else []
erased t (c ∷ d ∷ s) = c ∷ erased t (d ∷ s)

-- One character typed: ICANON is bit 1 of `lflag` and ISIG bit 0, whose test the source has the
-- wrong way round; `s` being the characters that wait to be read.
abbrev pub typed : Tty → ℕ → List ℕ → List ℕ
typed t c s =
    if test_bit 1 t.lflag && is_char c (erase_char t)
    then erased t s
    else (if test_bit 1 t.lflag && is_char c (stop_char t)
        then s
        else (if test_bit 1 t.lflag && is_char c (start_char t)
            then s
            else (if not (test_bit 0 t.lflag) && is_char c (intr_char t) then s else s ++ c ∷ [])))

abbrev pub typed_option : Tty → Option ℕ → List ℕ → List ℕ
typed_option t none s = s
typed_option t (some c) s = typed t c s

abbrev pub typed_all : Tty → List ℕ → List ℕ → List ℕ
typed_all t [] s = s
typed_all t (c ∷ cs) s = typed_all t cs (typed_option t (meant t c) s)

-- The lines that wait to be read.
abbrev pub line_count : Tty → List ℕ → ℕ
line_count t [] = 0
line_count t (c ∷ s) = (if ends_line t c then 1 else 0) + line_count t s

pub erased-snoc :
    (t : Tty) (s : List ℕ) (c : ℕ)
    → erased t (s ++ c ∷ []) ≡ (if ends_line t c then s ++ c ∷ [] else s)
erased-snoc t [] c = refl
erased-snoc t (d ∷ []) c = elim (Bool-cases (ends_line t c)) [
  | inl y ↦ rw y refl
  | inr n ↦ rw n refl
]
erased-snoc t (d ∷ e ∷ s) c = ap (◌∷◌ d) (erased-snoc t (e ∷ s) c) ∙ in_front (ends_line t c)
  where
    in_front :
        (b : Bool)
        → d ∷ (if b then (e ∷ s) ++ c ∷ [] else e ∷ s)
          ≡ (if b then (d ∷ e ∷ s) ++ c ∷ [] else d ∷ e ∷ s)
    in_front true = refl
    in_front false = refl

pub line_count-snoc :
    (t : Tty) (s : List ℕ) (c : ℕ)
    → line_count t (s ++ c ∷ []) ≡ line_count t s + (if ends_line t c then 1 else 0)
line_count-snoc t [] c = omega arith
line_count-snoc t (d ∷ s) c = omega (arith, line_count-snoc t s c)

-- An output function such as `rs_write`: it takes from the write queue and leaves the rest of the
-- terminal.
pub record IsPlain (write : Console → Console) : Type 0 where
  pub lflag_kept : (k : Console) → (write k).tty.lflag ≡ k.tty.lflag
  pub iflag_kept : (k : Console) → (write k).tty.iflag ≡ k.tty.iflag
  pub cc_kept : (k : Console) → (write k).tty.cc ≡ k.tty.cc
  pub read_kept : (k : Console) → (write k).tty.read_q ≡ k.tty.read_q
  pub secondary_kept : (k : Console) → (write k).tty.secondary ≡ k.tty.secondary

-- The settings and the two input queues.
pub record Input : Type 0 where
  pub lflag : ℕ
  pub iflag : ℕ
  pub cc : ℕ → ℕ
  pub read_q : Queue
  pub secondary : Queue

abbrev pub input : Console → Input
input k = record {
  lflag = k.tty.lflag;
  iflag = k.tty.iflag;
  cc = k.tty.cc;
  read_q = k.tty.read_q;
  secondary = k.tty.secondary;
}

pub write-input :
    (write : Console → Console) → IsPlain write → (k : Console) → input (write k) ≡ input k
write-input write p k =
    cc (p.lflag_kept k, p.iflag_kept k, p.cc_kept k, p.read_kept k, p.secondary_kept k)
