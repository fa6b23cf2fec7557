-- ===== src/Fs/Buffer/Lookup.antt =====
-- fs/buffer.c: getblk, among other tasks.
use linux.Prelude.{
  ℕ, zero, suc, ◌+◌, ◌%◌, ◌^◌, ◌<◌, ◌≡◌, ◌≢◌, refl, sym, ap, ◌∙◌, arith, inl, inr, Bool, true,
  false, ◌==◌, if◌then◌else◌, Bool-cases, Option-cases, update_self, Option, none, some, List,
}
use mathlib.Core.Path.{subst, ap₂}
use linux.Fs.Buffer.{
  Buffer, Cache, Others, Run, done, after, on_buffer, wait_on_buffer, remove_from_queues,
  insert_into_queues, is_block, find_buffer, count_up, brelse, get_hash_table, next_in, find_free,
  rename, renamed, give_back, sync_old, take_over, getblk, link_free,
}
use linux.Fs.Buffer.Unique.{
  IsCache, IsAside, key, remove_from_queues-IsCache, done-injective, link_free-kept,
}
use linux.Fs.Buffer.Insert.{insert_into_queues-IsCache}
use linux.Fs.Buffer.Fair.{
  IsHeld, IsFair, after-eq-done, on_buffer-IsCache, aside-IsCache, wait_on_buffer-Keeps,
  sync_old-Keeps, brelse-IsCache,
}

-- The buffer is that of the block, and no block has two in the hash table.
abbrev pub IsGot : (dev block : ℕ) → (r : ℕ × Cache) → Type 0
IsGot dev block r =
    IsCache r.1 × ((r.1.buffers r.0).dev ≡ dev) × ((r.1.buffers r.0).blocknr ≡ block)

zero_of : (n : ℕ) → (n == 0) ≡ true → n ≡ 0
zero_of n e = ground arith

pub insert-key :
    (bh : ℕ) (c : Cache) → key ((insert_into_queues bh c).buffers bh) ≡ key (c.buffers bh)
unfolding insert_into_queues
insert-key bh c =
    either_way (((link_free bh c).buffers bh).dev == 0) _
    ∙ link_free-kept key (λ x p n. refl) bh c bh
  where
    either_way :
        (t : Bool) (h : ℕ → List ℕ)
        → key
            ((if t then link_free bh c else record (link_free bh c) { hash_table = h }).buffers bh)
          ≡ key ((link_free bh c).buffers bh)
    either_way true h = refl
    either_way false h = refl

pub counted :
    (tmp : ℕ) (c : Cache) → (c.buffers tmp).count ≡ 0 → ((count_up tmp c).buffers tmp).count ≡ 1
counted tmp c e =
    ap (λ (b : Buffer). b.count)
      (update_self c.buffers
        (record (c.buffers tmp) { count = ((c.buffers tmp).count + 1) % 2 ^ 8 }) tmp)
    ∙ ap (λ (n : ℕ). (n + 1) % 2 ^ 8) e

not_some : {A : Type 0} {a : A} → none ≢ some a
not_some e = cc

pub some-injective : {A : Type 0} {a b : A} → some a ≡ some b → a ≡ b
some-injective e = cc

module _ (others : Others) (fair : IsFair others) where
  module _ (dev block : ℕ) where
    -- What `get_hash_table` comes back with.
    abbrev IsFound : Option ℕ → Cache → Type 0
    IsFound found c =
        IsCache c × ((bh : ℕ) → found ≡ some bh → is_block (c.buffers bh) dev block ≡ true)

    get_hash_table-IsFound :
        (rounds : ℕ) (c : Cache) (found : Option ℕ) (c' : Cache)
        → IsCache c
        → get_hash_table rounds others dev block c ≡ done (found, c')
        → IsFound found c'
    unfolding get_hash_table
    get_hash_table-IsFound zero c found c' v e = cc
    get_hash_table-IsFound (suc rounds) c found c' v e =
        elim (Option-cases (find_buffer dev block c)) [
          | inl nothing ↦
              subst (λ (r : Option ℕ × Cache). IsFound r.0 r.1)
                (done-injective (rw (nothing, get_hash_table) at e)) (v, λ b q. absurd (not_some q))
          | inr (bh, some_there) ↦
              let d : Cache = wait_on_buffer others bh (count_up bh c) in
              let w : IsCache d = (wait_on_buffer-Keeps others fair bh).sound (count_up bh c) (
                on_buffer-IsCache bh (λ b. record b { count = (b.count + 1) % 2 ^ 8 }) c (λ x. refl)
                  v) in
              elim (Bool-cases (is_block (d.buffers bh) dev block)) [
                | inl right ↦
                    subst (λ (r : Option ℕ × Cache). IsFound r.0 r.1)
                      (done-injective (rw (some_there, right, get_hash_table) at e))
                      (
                        w,
                        λ b q.
                            ap (λ (i : ℕ). is_block (d.buffers i) dev block)
                              (sym (some-injective q))
                            ∙ right,
                      )
                | inr wrong ↦
                    let (next, released, rest) =
                      after-eq-done (brelse others bh d) (get_hash_table rounds others dev block)
                        (rw (some_there, wrong, get_hash_table) at e) in
                    get_hash_table-IsFound rounds next found c'
                      (brelse-IsCache others fair bh d next w released) rest
              ]
        ]

  -- What the search of the free list comes back with.
  abbrev IsFree : Option ℕ → Cache → Type 0
  IsFree free c = IsCache c × ((bh : ℕ) → free ≡ some bh → (c.buffers bh).count ≡ 0)

  next_in-IsFree :
      (tmp : ℕ) (c : Cache) (free : Option ℕ) (c' : Cache) {next : ℕ → Run (Option ℕ × Cache)}
      → IsCache c
      → ((tmp' : ℕ) → next tmp' ≡ done (free, c') → IsFree free c')
      → next_in next tmp c ≡ done (free, c')
      → IsFree free c'
  next_in-IsFree tmp c free c' v go e =
      elim (Bool-cases ((c.buffers tmp).next_free == c.free_list)) [
        | inl round ↦
            subst (λ (r : Option ℕ × Cache). IsFree r.0 r.1)
              (done-injective (rw (round, next_in) at e)) (v, λ b q. absurd (not_some q))
        | inr more ↦ go (c.buffers tmp).next_free (rw (more, next_in) at e)
      ]

  find_free-IsFree :
      (rounds tmp : ℕ) (c : Cache) (free : Option ℕ) (c' : Cache)
      → IsCache c
      → find_free rounds others tmp c ≡ done (free, c')
      → IsFree free c'
  unfolding find_free
  find_free-IsFree zero tmp c free c' v e = cc
  find_free-IsFree (suc rounds) tmp c free c' v e =
      let d : Cache = wait_on_buffer others tmp c in
      let w : IsCache d = (wait_on_buffer-Keeps others fair tmp).sound c v in
      let go : (k : Cache)
          → IsCache k
          → next_in (λ next. find_free rounds others next k) tmp k ≡ done (free, c')
          → IsFree free c' =
        λ k u q.
          next_in-IsFree tmp k free c' u (λ next r. find_free-IsFree rounds next k free c' u r) q in
      elim (Bool-cases ((c.buffers tmp).count == 0)) [
        | inl unused ↦ elim (Bool-cases ((d.buffers tmp).count == 0)) [
          | inl still ↦
              subst (λ (r : Option ℕ × Cache). IsFree r.0 r.1)
                (done-injective (rw (unused, still, find_free) at e))
                (
                  w,
                  λ b q.
                      ap (λ (i : ℕ). (d.buffers i).count) (sym (some-injective q))
                      ∙ zero_of _ still,
                )
          | inr taken ↦ go d w (rw (unused, taken, find_free) at e)
        ]
        | inr used ↦ go c v (rw (used, find_free) at e)
      ]

  module _ (dev block : ℕ) (small_dev : dev < 2 ^ 16) (small_block : block < 2 ^ 16) where
    rename-key : (tmp : ℕ) (d : Cache) → key ((rename tmp dev block d).buffers tmp) ≡ (dev, block)
    rename-key tmp d =
        ap key (update_self d.buffers (renamed dev block (d.buffers tmp)) tmp)
        ∙ ap₂ (λ (a b : ℕ). (a, b)) short_dev short_block
      where
        short_dev : dev % 2 ^ 16 ≡ dev
        short_dev = omega arith

        short_block : block % 2 ^ 16 ≡ block
        short_block = omega arith

    -- Nobody else has brought the block in meanwhile.
    insert-IsGot :
        (tmp : ℕ) (c : Cache)
        → IsCache c
        → key (c.buffers tmp) ≡ (dev, block)
        → find_buffer dev block c ≡ none
        → IsGot dev block (tmp, insert_into_queues tmp c)
    insert-IsGot tmp c v k free =
        let k' : key ((insert_into_queues tmp c).buffers tmp) ≡ (dev, block) =
          insert-key tmp c ∙ k in
        (
          insert_into_queues-IsCache tmp c v
              (inl (ap (λ (p : ℕ × ℕ). find_buffer p.0 p.1 c) k ∙ free)),
          ap (λ (p : ℕ × ℕ). p.0) k',
          ap (λ (p : ℕ × ℕ). p.1) k',
        )

    give_back-IsCache :
        (tmp : ℕ) (c : Cache) → IsCache c → IsAside tmp c → IsCache (give_back tmp c)
    give_back-IsCache tmp c v a =
        insert_into_queues-IsCache tmp (on_buffer tmp cleared c) (aside-IsCache tmp cleared c a v)
          (inr (ap (λ (b : Buffer). b.dev) (update_self c.buffers (cleared (c.buffers tmp)) tmp)))
      where
        cleared : Buffer → Buffer
        cleared b = record b { dev = 0; blocknr = 0; count = 0 }

    take_over-IsGot :
        (again : Cache → Run (ℕ × Cache)) (tmp : ℕ) (c : Cache) (r : ℕ × Cache)
        → ((d : Cache) → IsCache d → again d ≡ done r → IsGot dev block r)
        → IsCache c
        → (c.buffers tmp).count ≡ 0
        → take_over others again dev block tmp c ≡ done r
        → IsGot dev block r
    unfolding take_over
    take_over-IsGot again tmp c r go v free e =
        let (c₁, removed, rest) = after-eq-done (remove_from_queues tmp (count_up tmp c)) _ e in
        let (v₁, a₁, n₁) =
          remove_from_queues-IsCache tmp (count_up tmp c) c₁
            (on_buffer-IsCache tmp (λ b. record b { count = (b.count + 1) % 2 ^ 8 }) c (λ x. refl)
              v)
            removed in
        let h₁ : IsHeld tmp c₁ = (omega (arith, n₁, counted tmp c free), a₁) in
        let v₂ : IsCache (rename tmp dev block (sync_old others tmp c₁)) =
          aside-IsCache tmp (renamed dev block) (sync_old others tmp c₁)
            ((sync_old-Keeps others fair tmp).held tmp c₁ h₁).1
            ((sync_old-Keeps others fair tmp).sound c₁ v₁) in
        elim (Option-cases
          (find_buffer dev block (rename tmp dev block (sync_old others tmp c₁)))) [
            | inl nobody ↦ subst (IsGot dev block) (done-injective (rw nobody at rest)) (
                insert-IsGot tmp (rename tmp dev block (sync_old others tmp c₁)) v₂
                  (rename-key tmp (sync_old others tmp c₁)) nobody)
            | inr (b, somebody) ↦
                go (give_back tmp (rename tmp dev block (sync_old others tmp c₁)))
                  (give_back-IsCache tmp _ v₂ ((sync_old-Keeps others fair tmp).held tmp c₁ h₁).1)
                  (rw somebody at rest)
          ]

    found-IsGot :
        (bh : ℕ) (c : Cache)
        → IsCache c
        → is_block (c.buffers bh) dev block ≡ true
        → IsGot dev block (bh, c)
    found-IsGot bh c v e = (v, ground arith, ground arith)

    -- However long the loops run, and whatever other tasks do to the cache while the task sleeps,
    -- short of breaking the hash table or taking a buffer that is held outside of it: when `getblk`
    -- comes back with a buffer, that is the buffer of the block, and no block has two buffers in
    -- the hash table.
    pub getblk-IsGot :
        (rounds : ℕ) (c : Cache) (r : ℕ × Cache)
        → IsCache c
        → getblk rounds others dev block c ≡ done r
        → IsGot dev block r
    unfolding getblk
    getblk-IsGot zero c r v e = cc
    getblk-IsGot (suc rounds) c r v e =
        let ((found, c₁), looked, rest) =
          after-eq-done (get_hash_table (suc rounds) others dev block c) _ e in
        looked_up (λ d w q. getblk-IsGot rounds d r w q) found c₁
          (get_hash_table-IsFound dev block (suc rounds) c found c₁ v looked) rest
      where
        search : Cache → Run (Option ℕ × Cache)
        search c₁ = find_free (suc rounds) others c₁.free_list c₁

        go_on : Option ℕ × Cache → Run (ℕ × Cache)
        go_on (free, c₂) = elim free [
          | none ↦ getblk rounds others dev block (others.sleep c₂)
          | some tmp ↦ take_over others (getblk rounds others dev block) dev block tmp c₂
        ]

        searched :
            ((d : Cache)
              → IsCache d
              → getblk rounds others dev block d ≡ done r
              → IsGot dev block r)
            → (free : Option ℕ) (c₂ : Cache) → IsFree free c₂
            → go_on (free, c₂) ≡ done r
            → IsGot dev block r
        searched again none c₂ (w, n) q = again (others.sleep c₂) (fair.sleep_keeps.sound c₂ w) q
        searched again (some tmp) c₂ (w, n) q =
            take_over-IsGot (getblk rounds others dev block) tmp c₂ r again w (n tmp refl) q

        looked_up :
            ((d : Cache)
              → IsCache d
              → getblk rounds others dev block d ≡ done r
              → IsGot dev block r)
            → (found : Option ℕ) (c₁ : Cache) → IsFound dev block found c₁
            → (elim found as (λ _. Run (ℕ × Cache)) [
              | some bh ↦ done (bh, c₁)
              | none ↦ after (search c₁) go_on
            ])
              ≡ done r
            → IsGot dev block r
        looked_up again (some bh) c₁ (w, n) q =
            subst (IsGot dev block) (done-injective q) (found-IsGot bh c₁ w (n bh refl))
        looked_up again none c₁ (w, n) q =
            let ((free, c₂), was, rest) = after-eq-done (search c₁) go_on q in
            searched again free c₂ (find_free-IsFree (suc rounds) c₁.free_list c₁ free c₂ w was)
              rest
