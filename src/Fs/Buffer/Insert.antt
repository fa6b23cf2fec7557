-- ===== src/Fs/Buffer/Insert.antt =====
-- Putting a buffer into the hash table.
use linux.Prelude.{
  ℕ, ◌≡◌, ◌≢◌, refl, sym, ap, ◌∙◌, arith, ◌⊎◌, inl, inr, true, false, ◌==◌, Bool-cases, update,
  none, some, List, [], ◌∷◌,
}
use linux.Fs.Buffer.{
  Buffer, Cache, hashfn, link_free, insert_into_queues, is_block, find_in, find_buffer,
}
use linux.Fs.Buffer.Unique.{
  IsCache, mem, key, in_chain, keys-IsCache, link_free-kept, eq_of, true_not_false, zero_dev,
}

pub not_none : {A : Type 0} {a : A} → some a ≢ none
not_none e = cc

pub find_in-none :
    (dev block : ℕ) (buffers : ℕ → Buffer) (bs : List ℕ) (b : ℕ)
    → find_in dev block buffers bs ≡ none
    → mem b bs ≡ true
    → is_block (buffers b) dev block ≡ false
unfolding find_in
find_in-none dev block buffers [] b e m = absurd (true_not_false (sym m))
find_in-none dev block buffers (x ∷ bs) b e m = elim (Bool-cases (is_block (buffers x) dev block)) [
  | inl y ↦ absurd (not_none (rw y at e))
  | inr n ↦ in_rest n (find_in-none dev block buffers bs b (rw n at e))
]
  where
    in_rest :
        is_block (buffers x) dev block ≡ false
        → (mem b bs ≡ true → is_block (buffers b) dev block ≡ false)
        → is_block (buffers b) dev block ≡ false
    in_rest n r = elim (Bool-cases (x == b)) [
      | inl same ↦ ap (λ (i : ℕ). is_block (buffers i) dev block) (sym (eq_of x b same)) ∙ n
      | inr other ↦ r (rw other at m)
    ]

is_block-key : (b d : Buffer) → key b ≡ key d → is_block b d.dev d.blocknr ≡ true
is_block-key b d e =
    let p : b.dev ≡ d.dev = ap (λ (k : ℕ × ℕ). k.0) e in
    let q : b.blocknr ≡ d.blocknr = ap (λ (k : ℕ × ℕ). k.1) e in ground arith

abbrev add_first : ℕ → (h : ℕ) → Cache → Cache
add_first bh h c = record c { hash_table = update c.hash_table h (bh ∷ c.hash_table h) }

either :
    (bh h : ℕ) (c : Cache) (h' b : ℕ)
    → in_chain (add_first bh h c) h' b ≡ true
    → (in_chain c h' b ≡ true) ⊎ ((h ≡ h') × (bh ≡ b))
either bh h c h' b m = elim (Bool-cases (h == h')) [
  | inl y ↦ elim (Bool-cases (bh == b)) [
    | inl z ↦ inr (eq_of h h' y, eq_of bh b z)
    | inr z ↦ inl (ap (λ (i : ℕ). in_chain c i b) (sym (eq_of h h' y)) ∙ (rw (y, z) at m))
  ]
  | inr n ↦ inl (rw n at m)
]

add_first-IsCache :
    (bh h : ℕ) (c : Cache)
    → IsCache c
    → hashfn (c.buffers bh).dev (c.buffers bh).blocknr ≡ h
    → ((b : ℕ) → in_chain c h b ≡ true → key (c.buffers b) ≢ key (c.buffers bh))
    → IsCache (add_first bh h c)
add_first-IsCache bh h c v e new = record {
  placed = λ k b m. elim (either bh h c k b m) [
    | inl old ↦ v.placed k b old
    | inr (p, q) ↦ ap (λ (i : ℕ). hashfn (c.buffers i).dev (c.buffers i).blocknr) (sym q) ∙ e ∙ p
  ];
  unique = λ k b d m n same. elim (either bh h c k b m) [
    | inl old ↦ elim (either bh h c k d n) [
      | inl also ↦ v.unique k b d old also same
      | inr (p, q) ↦ absurd (
          new b (ap (λ (i : ℕ). in_chain c i b) p ∙ old)
            (same ∙ ap (λ (i : ℕ). key (c.buffers i)) (sym q)))
    ]
    | inr (p, q) ↦ elim (either bh h c k d n) [
      | inl also ↦ absurd (
          new d (ap (λ (i : ℕ). in_chain c i d) p ∙ also)
            (sym same ∙ ap (λ (i : ℕ). key (c.buffers i)) (sym q)))
      | inr (r, t) ↦ sym q ∙ t
    ]
  ];
}

-- A buffer comes into the queues, where no other has its block.
pub insert_into_queues-IsCache :
    (bh : ℕ) (c : Cache)
    → IsCache c
    → (find_buffer (c.buffers bh).dev (c.buffers bh).blocknr c ≡ none) ⊎ ((c.buffers bh).dev ≡ 0)
    → IsCache (insert_into_queues bh c)
unfolding insert_into_queues
insert_into_queues-IsCache bh c v free =
    elim (Bool-cases (((link_free bh c).buffers bh).dev == 0)) [
      | inl no_dev ↦ rw no_dev linked
      | inr some_dev ↦ rw some_dev (
          add_first-IsCache bh (hashfn (d.buffers bh).dev (d.buffers bh).blocknr) d linked refl
            (λ b m q.
              new some_dev free b
                (ap (λ (k : ℕ × ℕ). in_chain c (hashfn k.0 k.1) b) (sym (keys bh)) ∙ m)
                (sym (keys b) ∙ q ∙ keys bh)))
    ]
  where
    d : Cache
    d = link_free bh c

    keys : (b : ℕ) → key (d.buffers b) ≡ key (c.buffers b)
    keys b = link_free-kept key (λ x p n. refl) bh c b

    linked : IsCache d
    linked = keys-IsCache c d (λ h b. refl) (λ h b m. keys b) v

    new :
        (((link_free bh c).buffers bh).dev == 0) ≡ false
        → (find_buffer (c.buffers bh).dev (c.buffers bh).blocknr c ≡ none)
          ⊎ ((c.buffers bh).dev ≡ 0)
        → (b : ℕ) → in_chain c (hashfn (c.buffers bh).dev (c.buffers bh).blocknr) b ≡ true
        → key (c.buffers b) ≢ key (c.buffers bh)
    new s (inl e) b m q = true_not_false (
        sym (is_block-key (c.buffers b) (c.buffers bh) q)
        ∙ find_in-none (c.buffers bh).dev (c.buffers bh).blocknr c.buffers _ b e m)
    new s (inr e) b m q =
        true_not_false
          (sym (zero_dev (d.buffers bh).dev (ap (λ (k : ℕ × ℕ). k.0) (keys bh) ∙ e)) ∙ s)
