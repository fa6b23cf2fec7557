-- ===== src/Fs/Buffer/Unique.antt =====
-- fs/buffer.c: when the hash table is well formed.
use linux.Prelude.{
  ℕ, ◌≡◌, ◌≢◌, refl, sym, ap, ◌∙◌, arith, inl, inr, Bool, true, false, not, ◌&&◌, ◌||◌, ◌==◌,
  Bool-cases, update, List, [], ◌∷◌,
}
use mathlib.Core.Path.{subst}
use linux.Fs.Buffer.{
  Buffer, Cache, hashfn, remove, unhash, unlink_free, remove_from_queues, link_free, on_buffer,
  done, panics,
}

abbrev pub mem : ℕ → List ℕ → Bool
mem b [] = false
mem b (x ∷ xs) = x == b || mem b xs

abbrev pub key : Buffer → ℕ × ℕ
key b = (b.dev, b.blocknr)

abbrev pub in_chain : Cache → (h : ℕ) → (b : ℕ) → Bool
in_chain c h b = mem b (c.hash_table h)

-- Each buffer is in the chain of its block, and no two there have one block.
pub record IsCache (c : Cache) : Type 0 where
  pub placed :
      (h b : ℕ) → in_chain c h b ≡ true → hashfn (c.buffers b).dev (c.buffers b).blocknr ≡ h
  pub unique :
      (h b d : ℕ)
      → in_chain c h b ≡ true
      → in_chain c h d ≡ true
      → key (c.buffers b) ≡ key (c.buffers d)
      → b ≡ d

-- The buffer is in no chain.
abbrev pub IsAside : ℕ → Cache → Type 0
IsAside b c = (h : ℕ) → in_chain c h b ≡ false

mem-remove : (b x : ℕ) (xs : List ℕ) → mem b (remove x xs) ≡ (mem b xs && not (b == x))
unfolding remove
mem-remove b x [] = refl
mem-remove b x (y ∷ ys) = ground (arith, mem-remove b x ys)

pub eq_of : (i j : ℕ) → (i == j) ≡ true → i ≡ j
eq_of i j e = ground arith

pub fst_of : (a b : Bool) → (a && b) ≡ true → a ≡ true
fst_of true b e = refl
fst_of false b e = e

pub kept_by {ℓ} :
    {A : Type ℓ} (field : Buffer → A) (buffers : ℕ → Buffer) (i b : ℕ) (x : Buffer)
    → field x ≡ field (buffers i)
    → field (update buffers i x b) ≡ field (buffers b)
kept_by field buffers i b x e = elim (Bool-cases (i == b)) [
  | inl y ↦ rw y (e ∙ ap (λ (j : ℕ). field (buffers j)) (eq_of i b y))
  | inr n ↦ rw n refl
]

-- A change of buffers that keeps the chains and the blocks of the buffers in them.
pub keys-IsCache :
    (c c' : Cache)
    → ((h b : ℕ) → in_chain c' h b ≡ in_chain c h b)
    → ((h b : ℕ) → in_chain c h b ≡ true → key (c'.buffers b) ≡ key (c.buffers b))
    → IsCache c
    → IsCache c'
keys-IsCache c c' chains keys v = record {
  placed =
      λ h b m. ap (λ (k : ℕ × ℕ). hashfn k.0 k.1) (keys h b (was h b m)) ∙ v.placed h b (was h b m);
  unique = λ h b d m n e.
      v.unique h b d (was h b m) (was h d n)
        (sym (keys h b (was h b m)) ∙ e ∙ keys h d (was h d n));
}
  where
    was : (h b : ℕ) → in_chain c' h b ≡ true → in_chain c h b ≡ true
    was h b m = sym (chains h b) ∙ m

-- A buffer is in no chain but that of its block.
only_chain :
    (bh : ℕ) (c : Cache)
    → IsCache c
    → (h : ℕ) → (hashfn (c.buffers bh).dev (c.buffers bh).blocknr == h) ≡ false
    → in_chain c h bh ≡ false
only_chain bh c v h n = elim (Bool-cases (in_chain c h bh)) [
  | inl m ↦
      let e : hashfn (c.buffers bh).dev (c.buffers bh).blocknr ≡ h = v.placed h bh m in ground arith
  | inr m ↦ m
]

and_true : (a : Bool) → (a && true) ≡ a
and_true true = refl
and_true false = refl

pub unhash-chain :
    (bh : ℕ) (c : Cache)
    → IsCache c
    → (h b : ℕ) → in_chain (unhash bh c) h b ≡ (in_chain c h b && not (b == bh))
unhash-chain bh c v h b =
    elim (Bool-cases (hashfn (c.buffers bh).dev (c.buffers bh).blocknr == h)) [
      | inl here ↦ rw here (
          mem-remove b bh (c.hash_table (hashfn (c.buffers bh).dev (c.buffers bh).blocknr))
          ∙ ap (λ (k : ℕ). mem b (c.hash_table k) && not (b == bh)) (eq_of _ h here))
      | inr there ↦ rw there (elsewhere (only_chain bh c v h there))
    ]
  where
    elsewhere : in_chain c h bh ≡ false → in_chain c h b ≡ (in_chain c h b && not (b == bh))
    elsewhere n = elim (Bool-cases (b == bh)) [
      | inl y ↦
          let m : in_chain c h b ≡ false = ap (in_chain c h) (eq_of b bh y) ∙ n in rw (y, m) refl
      | inr z ↦ rw z (sym (and_true (in_chain c h b)))
    ]

unhash-IsCache : (bh : ℕ) (c : Cache) → IsCache c → IsCache (unhash bh c)
unhash-IsCache bh c v = record {
  placed = λ h b m. v.placed h b (was h b m);
  unique = λ h b d m n e. v.unique h b d (was h b m) (was h d n) e;
}
  where
    was : (h b : ℕ) → in_chain (unhash bh c) h b ≡ true → in_chain c h b ≡ true
    was h b m = fst_of (in_chain c h b) _ (sym (unhash-chain bh c v h b) ∙ m)

unhash-IsAside : (bh : ℕ) (c : Cache) → IsCache c → IsAside bh (unhash bh c)
unhash-IsAside bh c v h = unhash-chain bh c v h bh ∙ itself (in_chain c h bh)
  where
    itself : (a : Bool) → (a && not (bh == bh)) ≡ false
    itself a = ground arith

pub done-injective : {A : Type 0} {a b : A} → done a ≡ done b → a ≡ b
done-injective e = cc

pub true_not_false : true ≢ false
true_not_false e = cc

pub zero_dev : (n : ℕ) → n ≡ 0 → (n == 0) ≡ true
zero_dev n e = ground arith

not_done : {A : Type 0} {a : A} → panics ≢ done a
not_done e = cc

module _ {ℓ} {A : Type ℓ} (field : Buffer → A) where
  pub keyed :
      (bh : ℕ) (f : Buffer → Buffer) (c : Cache) (b : ℕ)
      → ((x : Buffer) → field (f x) ≡ field x)
      → field ((on_buffer bh f c).buffers b) ≡ field (c.buffers b)
  keyed bh f c b q = kept_by field c.buffers bh b (f (c.buffers bh)) (q (c.buffers bh))

  module _
      (links : (x : Buffer) (p n : ℕ)
        → field (record x { prev_free = p; next_free = n }) ≡ field x) where
    pub unlink_free-kept :
        (bh : ℕ) (c : Cache) (b : ℕ) → field ((unlink_free bh c).buffers b) ≡ field (c.buffers b)
    unlink_free-kept bh c b =
        keyed next (λ x. record x { prev_free = prev })
          (on_buffer prev (λ x. record x { next_free = next }) c) b (λ x. links x prev x.next_free)
        ∙ keyed prev (λ x. record x { next_free = next }) c b (λ x. links x x.prev_free next)
      where
        next : ℕ
        next = (c.buffers bh).next_free

        prev : ℕ
        prev = (c.buffers bh).prev_free

    pub link_free-kept :
        (bh : ℕ) (c : Cache) (b : ℕ) → field ((link_free bh c).buffers b) ≡ field (c.buffers b)
    link_free-kept bh c b =
        keyed c.free_list (λ x. record x { prev_free = bh })
          (on_buffer last (λ x. record x { next_free = bh }) c') b (λ x. links x bh x.next_free)
        ∙ keyed last (λ x. record x { next_free = bh }) c' b (λ x. links x x.prev_free bh)
        ∙ keyed bh
            (λ x. record x {
              next_free = c.free_list;
              prev_free = (c.buffers c.free_list).prev_free;
            })
            c b (λ x. links x (c.buffers c.free_list).prev_free c.free_list)
      where
        c' : Cache
        c' =
            on_buffer bh
              (λ x. record x {
                next_free = c.free_list;
                prev_free = (c.buffers c.free_list).prev_free;
              })
              c

        last : ℕ
        last = (c'.buffers c.free_list).prev_free

-- The buffer comes out of the queues; what is left is as before.
pub remove_from_queues-IsCache :
    (bh : ℕ) (c c' : Cache)
    → IsCache c
    → remove_from_queues bh c ≡ done c'
    → IsCache c' × IsAside bh c' × ((c'.buffers bh).count ≡ (c.buffers bh).count)
unfolding remove_from_queues
remove_from_queues-IsCache bh c c' v e =
    elim (Bool-cases ((c.buffers bh).prev_free == 0 || (c.buffers bh).next_free == 0)) [
      | inl stop ↦ absurd (not_done (rw stop at e))
      | inr going ↦
          subst
            (λ (d : Cache).
              IsCache d × IsAside bh d × ((d.buffers bh).count ≡ (c.buffers bh).count))
            (done-injective (rw going at e))
            (
              keys-IsCache (unhash bh c) (unlink_free bh (unhash bh c)) (λ h b. refl)
                  (λ h b m. unlink_free-kept key (λ x p n. refl) bh (unhash bh c) b)
                  (unhash-IsCache bh c v),
              unhash-IsAside bh c v,
              unlink_free-kept (λ x. x.count) (λ x p n. refl) bh (unhash bh c) bh,
            )
    ]
