-- ===== src/Fs/Buffer/Fair.antt =====
-- What the other tasks may do to the cache while a task sleeps in a routine of it.
use linux.Prelude.{
  ℕ, zero, suc, ◌-◌, ◌<◌, ◌≡◌, refl, sym, ap, ◌∙◌, inl, inr, Bool, true, false, ◌==◌, if◌then◌else◌,
  Bool-cases, update_ne,
}
use mathlib.Core.Path.{subst}
use linux.Fs.Buffer.{
  Buffer, Cache, Others, Run, done, panics, unfinished, after, on_buffer, wait_on_buffer,
  sync_buffer, sync_some, sync_dev, brelse, sync_old,
}
use linux.Fs.Buffer.Unique.{
  IsCache, IsAside, key, in_chain, keyed, keys-IsCache, done-injective, true_not_false,
}

-- The task holds the buffer outside the hash table.
abbrev pub IsHeld : ℕ → Cache → Type 0
IsHeld bh c = (0 < (c.buffers bh).count) × IsAside bh c

-- Others leave the hash table sound, and a buffer alone that a task holds outside of it.
pub record Keeps (f : Cache → Cache) : Type 0 where
  pub sound : (c : Cache) → IsCache c → IsCache (f c)
  pub held : (bh : ℕ) (c : Cache) → IsHeld bh c → IsHeld bh (f c)

pub record IsFair (others : Others) : Type 0 where
  pub wait_keeps : (bh : ℕ) → Keeps (others.wait bh)
  pub sleep_keeps : Keeps others.sleep
  pub block_keeps : (write : Bool) (bh : ℕ) → Keeps (others.ll_rw_block write bh)

same-Keeps : Keeps (λ c. c)
same-Keeps = record { sound = λ c v. v; held = λ bh c h. h }

if-Keeps :
    (test : Cache → Bool) (f g : Cache → Cache)
    → Keeps f
    → Keeps g
    → Keeps (λ c. if test c then f c else g c)
if-Keeps test f g k l = record {
  sound = λ c v. branch (test c) IsCache (k.sound c v) (l.sound c v);
  held = λ bh c h. branch (test c) (IsHeld bh) (k.held bh c h) (l.held bh c h);
}
  where
    branch : (b : Bool) (P : Cache → Type 0) {c d : Cache} → P c → P d → P (if b then c else d)
    branch true P p q = p
    branch false P p q = q

then-Keeps : (f g : Cache → Cache) → Keeps f → Keeps g → Keeps (λ c. g (f c))
then-Keeps f g k l = record {
  sound = λ c v. l.sound (f c) (k.sound c v);
  held = λ bh c h. l.held bh (f c) (k.held bh c h);
}

pub after-eq-done :
    {A B : Type 0} (first : Run A) (next : A → Run B) {r : B}
    → after first next ≡ done r
    → (a : A) × (first ≡ done a) × (next a ≡ done r)
after-eq-done (done a) next e = (a, refl, e)
after-eq-done panics next e = cc
after-eq-done unfinished next e = cc

pub on_buffer-IsCache :
    (bh : ℕ) (f : Buffer → Buffer) (c : Cache)
    → ((x : Buffer) → key (f x) ≡ key x)
    → IsCache c
    → IsCache (on_buffer bh f c)
on_buffer-IsCache bh f c q v =
    keys-IsCache c (on_buffer bh f c) (λ h b. refl) (λ h b m. keyed key bh f c b q) v

-- A buffer in no chain changes its block.
pub aside-IsCache :
    (bh : ℕ) (f : Buffer → Buffer) (c : Cache)
    → IsAside bh c
    → IsCache c
    → IsCache (on_buffer bh f c)
aside-IsCache bh f c a v =
    keys-IsCache c (on_buffer bh f c) (λ h b. refl)
      (λ h b m. ap key (
        update_ne c.buffers (f (c.buffers bh))
          (λ e. true_not_false (sym m ∙ ap (in_chain c h) (sym e) ∙ a h))))
      v

module _ (others : Others) (fair : IsFair others) where
  pub wait_on_buffer-Keeps : (bh : ℕ) → Keeps (wait_on_buffer others bh)
  wait_on_buffer-Keeps bh =
      if-Keeps (λ c. (c.buffers bh).lock) (others.wait bh) (λ c. c) (fair.wait_keeps bh) same-Keeps

  sync_buffer-Keeps : (bh : ℕ) → Keeps (sync_buffer others bh)
  sync_buffer-Keeps bh = then-Keeps (wait_on_buffer others bh) _ (wait_on_buffer-Keeps bh) (
      if-Keeps (λ c. (c.buffers bh).dirt) (others.ll_rw_block true bh) (λ c. c)
        (fair.block_keeps true bh) same-Keeps)

  sync_some-Keeps : (dev n bh : ℕ) → Keeps (sync_some others dev n bh)
  unfolding sync_some
  sync_some-Keeps dev zero bh = same-Keeps
  sync_some-Keeps dev (suc n) bh =
      then-Keeps _ (sync_some others dev n (suc bh))
        (if-Keeps (λ c. (c.buffers bh).dev == dev) (sync_buffer others bh) (λ c. c)
          (sync_buffer-Keeps bh) same-Keeps)
        (sync_some-Keeps dev n (suc bh))

  pub sync_old-Keeps : (tmp : ℕ) → Keeps (sync_old others tmp)
  unfolding sync_dev
  sync_old-Keeps tmp =
      if-Keeps (λ c. (c.buffers tmp).dirt) (λ c. sync_dev others (c.buffers tmp).dev c) (λ c. c)
        (record {
          sound = λ c v. (sync_some-Keeps (c.buffers tmp).dev c.nr_buffers 1).sound c v;
          held = λ bh c h. (sync_some-Keeps (c.buffers tmp).dev c.nr_buffers 1).held bh c h;
        })
        same-Keeps

  pub brelse-IsCache :
      (bh : ℕ) (c c' : Cache) → IsCache c → brelse others bh c ≡ done c' → IsCache c'
  unfolding brelse
  brelse-IsCache bh c c' v e = elim (Bool-cases (bh == 0)) [
    | inl null ↦ subst IsCache (done-injective (rw null at e)) v
    | inr buffer ↦ elim (Bool-cases ((d.buffers bh).count == 0)) [
      | inl unused ↦ cc (rw (buffer, unused) at e)
      | inr used ↦ subst IsCache (done-injective (rw (buffer, used) at e)) (
          on_buffer-IsCache bh (λ b. record b { count = b.count - 1 }) d (λ x. refl)
            ((wait_on_buffer-Keeps bh).sound c v))
    ]
  ]
    where
      d : Cache
      d = wait_on_buffer others bh c
