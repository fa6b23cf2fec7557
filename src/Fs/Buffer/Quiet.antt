-- ===== src/Fs/Buffer/Quiet.antt =====
-- fs/buffer.c: getblk, when no other task runs.
use linux.Prelude.{
  ℕ, zero, suc, ◌+◌, ◌%◌, ◌^◌, ◌<◌, ◌≡◌, ◌≢◌, refl, sym, ap, ◌∙◌, arith, ◌⊎◌, inl, inr, Bool, true,
  false, not, ◌&&◌, ◌||◌, ◌==◌, Bool-cases, Option-cases, update_ne, none, some, List, [], ◌∷◌,
}
use mathlib.Core.Path.{ap₂}
use linux.Fs.Buffer.{
  Buffer, Cache, Others, Run, done, after, wait_on_buffer, remove_from_queues, unhash, unlink_free,
  hashfn, insert_into_queues, is_block, find_in, find_buffer, count_up, get_hash_table, next_in,
  find_free, give_back, rename, renamed, sync_old, take_over, getblk,
}
use linux.Fs.Buffer.Unique.{
  IsCache, mem, key, in_chain, keyed, unlink_free-kept, unhash-chain, fst_of,
}
use linux.Fs.Buffer.Insert.{find_in-none}
use linux.Fs.Buffer.Fair.{on_buffer-IsCache, IsFair}
use linux.Fs.Buffer.Lookup.{some-injective, IsGot, getblk-IsGot}

-- From head `tmp` on, `bh` is the first free one of the free list, `k` heads further.
abbrev pub IsFirstFree : Cache → (tmp : ℕ) → (bh : ℕ) → (k : ℕ) → Type 0
IsFirstFree c tmp bh zero = (tmp ≡ bh) × ((c.buffers tmp).count ≡ 0)
IsFirstFree c tmp bh (suc k) =
    ((c.buffers tmp).count ≢ 0)
    × ((c.buffers tmp).next_free ≢ c.free_list)
    × IsFirstFree c (c.buffers tmp).next_free bh k

-- No buffer is locked.
abbrev pub IsUnlocked : Cache → Type 0
IsUnlocked c = (b : ℕ) → (c.buffers b).lock ≡ false

no_panic : {a b : ℕ} → a ≢ 0 → b ≢ 0 → (a == 0 || b == 0) ≡ false
no_panic p q = ground arith

is_zero : (n : ℕ) → n ≡ 0 → (n == 0) ≡ true
is_zero n e = ground arith

differs : (m n : ℕ) → m ≢ n → (m == n) ≡ false
differs m n e = ground arith

wait_on_buffer-unlocked :
    (others : Others) (bh : ℕ) (c : Cache)
    → (c.buffers bh).lock ≡ false
    → wait_on_buffer others bh c ≡ c
wait_on_buffer-unlocked others bh c e = rw e refl

nothing_below : (k : ℕ) → k < 0 → zero ≢ zero
nothing_below k h = elim h [ ]

find_free-finds :
    (rounds : ℕ) (others : Others) (c : Cache) (tmp bh k : ℕ)
    → IsUnlocked c
    → IsFirstFree c tmp bh k
    → k < rounds
    → find_free rounds others tmp c ≡ done (some bh, c)
unfolding find_free
find_free-finds zero others c tmp bh k u l enough = absurd (nothing_below k enough refl)
find_free-finds (suc rounds) others c tmp bh zero u (e, n) enough =
    rw (is_zero (c.buffers tmp).count n, u tmp, is_zero (c.buffers tmp).count n, find_free)
      (ap₂ (λ (b : ℕ) (d : Cache). done (some b, d)) e
        (wait_on_buffer-unlocked others tmp c (u tmp)))
find_free-finds (suc rounds) others c tmp bh (suc k) u (used, on, l) enough =
    rw
      (
        differs (c.buffers tmp).count 0 used,
        differs (c.buffers tmp).next_free c.free_list on,
        find_free,
        next_in,
      )
      (find_free-finds rounds others c (c.buffers tmp).next_free bh k u l (omega arith))

find_in-some :
    (dev block : ℕ) (buffers : ℕ → Buffer) (bs : List ℕ) (b : ℕ)
    → find_in dev block buffers bs ≡ some b
    → is_block (buffers b) dev block ≡ true
unfolding find_in
find_in-some dev block buffers [] b e = cc
find_in-some dev block buffers (x ∷ bs) b e = elim (Bool-cases (is_block (buffers x) dev block)) [
  | inl y ↦ ap (λ (i : ℕ). is_block (buffers i) dev block) (some-injective (sym (rw y at e))) ∙ y
  | inr n ↦ find_in-some dev block buffers bs b (rw n at e)
]

find_in-absent :
    (dev block : ℕ) (buffers : ℕ → Buffer) (bs : List ℕ)
    → ((b : ℕ) → mem b bs ≡ true → is_block (buffers b) dev block ≡ false)
    → find_in dev block buffers bs ≡ none
unfolding find_in
find_in-absent dev block buffers [] h = refl
find_in-absent dev block buffers (x ∷ bs) h =
    rw (h x (first x (mem x bs)))
      (find_in-absent dev block buffers bs (λ b m. h b (further (x == b) (mem b bs) m)))
  where
    first : (i : ℕ) (b : Bool) → (i == i || b) ≡ true
    first i b = ground arith

    further : (a b : Bool) → b ≡ true → (a || b) ≡ true
    further a b e = ground arith

-- A buffer with its links comes out of the queues.
taken_out : ℕ → Cache → Cache
taken_out tmp c = unlink_free tmp (unhash tmp (count_up tmp c))

remove_from_queues-removes :
    (tmp : ℕ) (c : Cache)
    → (c.buffers tmp).prev_free ≢ 0
    → (c.buffers tmp).next_free ≢ 0
    → remove_from_queues tmp (count_up tmp c) ≡ done (taken_out tmp c)
unfolding remove_from_queues taken_out
remove_from_queues-removes tmp c prev next = rw (no_panic prev' next') refl
  where
    prev' : ((count_up tmp c).buffers tmp).prev_free ≢ 0
    prev' e = prev (
        sym (
          keyed (λ b. b.prev_free) tmp (λ b. record b { count = (b.count + 1) % 2 ^ 8 }) c tmp
            (λ x. refl))
        ∙ e)

    next' : ((count_up tmp c).buffers tmp).next_free ≢ 0
    next' e = next (
        sym (
          keyed (λ b. b.next_free) tmp (λ b. record b { count = (b.count + 1) % 2 ^ 8 }) c tmp
            (λ x. refl))
        ∙ e)

taken_out-kept :
    {A : Type 0} (field : Buffer → A)
    → ((x : Buffer) (p n : ℕ) → field (record x { prev_free = p; next_free = n }) ≡ field x)
    → ((x : Buffer) (n : ℕ) → field (record x { count = n }) ≡ field x)
    → (tmp : ℕ) (c : Cache) (b : ℕ) → field ((taken_out tmp c).buffers b) ≡ field (c.buffers b)
unfolding taken_out
taken_out-kept field links counts tmp c b =
    unlink_free-kept field links tmp (unhash tmp (count_up tmp c)) b
    ∙ keyed field tmp (λ x. record x { count = (x.count + 1) % 2 ^ 8 }) c b
        (λ x. counts x ((x.count + 1) % 2 ^ 8))

-- The block is absent still, once a buffer has been taken out and renamed.
taken_out-absent :
    (dev block tmp : ℕ) (c : Cache)
    → IsCache c
    → find_buffer dev block c ≡ none
    → find_buffer dev block (rename tmp dev block (taken_out tmp c)) ≡ none
unfolding taken_out
taken_out-absent dev block tmp c v e =
    find_in-absent dev block (rename tmp dev block (taken_out tmp c)).buffers _ absent
  where
    sound : IsCache (count_up tmp c)
    sound = on_buffer-IsCache tmp (λ b. record b { count = (b.count + 1) % 2 ^ 8 }) c (λ x. refl) v

    absent :
        (b : ℕ)
        → in_chain (taken_out tmp c) (hashfn dev block) b ≡ true
        → is_block ((rename tmp dev block (taken_out tmp c)).buffers b) dev block ≡ false
    absent b m =
        let both = sym (unhash-chain tmp (count_up tmp c) sound (hashfn dev block) b) ∙ m in
        ap (λ (k : ℕ × ℕ). k.0 == dev && k.1 == block)
          (ap key (
              update_ne (taken_out tmp c).buffers
                (renamed dev block ((taken_out tmp c).buffers tmp))
                (other (in_chain c (hashfn dev block) b) b both))
            ∙ taken_out-kept key (λ x p n. refl) (λ x n. refl) tmp c b)
        ∙ find_in-none dev block c.buffers (c.hash_table (hashfn dev block)) b e
            (fst_of (in_chain c (hashfn dev block) b) _ both)
      where
        other : (a : Bool) (b : ℕ) → (a && not (b == tmp)) ≡ true → tmp ≢ b
        other a b e = ground arith

module _ (others : Others) (dev block : ℕ) where
  get_hash_table-misses :
      (rounds : ℕ) (c : Cache)
      → find_buffer dev block c ≡ none
      → get_hash_table (suc rounds) others dev block c ≡ done (none, c)
  unfolding get_hash_table
  get_hash_table-misses rounds c e = rw (e, get_hash_table) refl

  get_hash_table-hits :
      (rounds : ℕ) (c : Cache) (bh : ℕ)
      → IsUnlocked c
      → find_buffer dev block c ≡ some bh
      → get_hash_table (suc rounds) others dev block c ≡ done (some bh, count_up bh c)
  unfolding get_hash_table
  get_hash_table-hits rounds c bh u e =
      rw (e, wait_on_buffer-unlocked others bh (count_up bh c) unlocked, same_block, get_hash_table)
        (ap (λ (d : Cache). done (some bh, d))
          (wait_on_buffer-unlocked others bh (count_up bh c) unlocked))
    where
      unlocked : ((count_up bh c).buffers bh).lock ≡ false
      unlocked =
          keyed (λ b. b.lock) bh (λ b. record b { count = (b.count + 1) % 2 ^ 8 }) c bh (λ x. refl)
          ∙ u bh

      same_block : is_block ((count_up bh c).buffers bh) dev block ≡ true
      same_block =
          ap (λ (k : ℕ × ℕ). k.0 == dev && k.1 == block)
            (keyed key bh (λ b. record b { count = (b.count + 1) % 2 ^ 8 }) c bh (λ x. refl))
          ∙ find_in-some dev block c.buffers (c.hash_table (hashfn dev block)) bh e

  take_over-takes :
      (again : Cache → Run (ℕ × Cache)) (tmp : ℕ) (c : Cache)
      → IsCache c
      → find_buffer dev block c ≡ none
      → (c.buffers tmp).dirt ≡ false
      → (c.buffers tmp).prev_free ≢ 0
      → (c.buffers tmp).next_free ≢ 0
      → (d : Cache) × (take_over others again dev block tmp c ≡ done (tmp, d))
  unfolding take_over
  take_over-takes again tmp c v e clean prev next = (
    insert_into_queues tmp (rename tmp dev block d),
    ap (λ (r : Run Cache). after r named) (remove_from_queues-removes tmp c prev next)
        ∙ ap (λ (k : Cache). placed (rename tmp dev block k)) quiet
        ∙ rw (taken_out-absent dev block tmp c v e) refl,
  )
    where
      d : Cache
      d = taken_out tmp c

      placed : Cache → Run (ℕ × Cache)
      placed k = elim (find_buffer dev block k) [
        | some b ↦ again (give_back tmp k)
        | none ↦ done (tmp, insert_into_queues tmp k)
      ]

      named : Cache → Run (ℕ × Cache)
      named k = placed (rename tmp dev block (sync_old others tmp k))

      quiet : sync_old others tmp d ≡ d
      quiet = rw (taken_out-kept (λ b. b.dirt) (λ x p n. refl) (λ x n. refl) tmp c tmp ∙ clean) refl

-- No buffer is locked; the first free one of the free list is `k` heads from its beginning, is clean
-- and has its links.
pub record IsQuiet (c : Cache) (bh : ℕ) (k : ℕ) : Type 0 where
  pub unlocked : IsUnlocked c
  pub first_free : IsFirstFree c c.free_list bh k
  pub clean : (c.buffers bh).dirt ≡ false
  pub has_prev : (c.buffers bh).prev_free ≢ 0
  pub has_next : (c.buffers bh).next_free ≢ 0

-- When no buffer is locked and the first free one in the list is clean, `getblk` comes back, its
-- loop over the free list having gone to that buffer at most, whatever other tasks would do; the
-- buffer is the one that the block had, or the free one when it had none; it is the buffer of the
-- block, and no block has two.
pub getblk_total :
    (others : Others)
    → IsFair others
    → (dev block : ℕ) (c : Cache) (free k rounds : ℕ) → dev < 2 ^ 16
    → block < 2 ^ 16
    → IsCache c
    → IsQuiet c free k
    → k < rounds
    → (bh : ℕ) × (d : Cache) × (getblk rounds others dev block c ≡ done (bh, d))
      × IsGot dev block (bh, d)
      × ((find_buffer dev block c ≡ some bh) ⊎ ((find_buffer dev block c ≡ none) × (bh ≡ free)))
unfolding getblk
getblk_total others fair dev block c free k zero p q v quiet enough =
    absurd (nothing_below k enough refl)
getblk_total others fair dev block c free k (suc rounds) p q v quiet enough =
    elim (Option-cases (find_buffer dev block c)) [
      | inl nothing ↦
          let (d, taken) =
            take_over-takes others dev block (getblk rounds others dev block) free c v nothing
              quiet.clean quiet.has_prev quiet.has_next in
          let e : getblk (suc rounds) others dev block c ≡ done (free, d) =
            rw
              (
                get_hash_table-misses others dev block rounds c nothing,
                find_free-finds (suc rounds) others c c.free_list free k quiet.unlocked
                    quiet.first_free enough,
                getblk,
              )
              taken in
          (
            free,
            d,
            e,
            getblk-IsGot others fair dev block p q (suc rounds) c (free, d) v e,
            inr (nothing, refl),
          )
      | inr (bh, there) ↦
          let e : getblk (suc rounds) others dev block c ≡ done (bh, count_up bh c) =
            rw (get_hash_table-hits others dev block rounds c bh quiet.unlocked there, getblk)
              refl in
          (
            bh,
            count_up bh c,
            e,
            getblk-IsGot others fair dev block p q (suc rounds) c (bh, count_up bh c) v e,
            inl there,
          )
    ]
