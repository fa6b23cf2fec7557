-- ===== src/Fs/Buffer.antt =====
-- fs/buffer.c. A pointer to a buffer head is a number, 0 being NULL: head number 1 is the first of
-- `start_buffer`, and `buffers 0` stands for the memory at address 0. The chains of the hash table,
-- which are doubly linked, are sequences; the free list has its pointers.
pub mod Unique
pub mod Insert
pub mod Fair
pub mod Lookup
pub mod Quiet
mod Tests
use linux.Prelude.{
  ℕ, zero, suc, ◌+◌, ◌-◌, ◌%◌, ◌^◌, Bool, true, false, not, ◌&&◌, ◌||◌, ◌==◌, if◌then◌else◌, update,
  Option, none, some, List, [], ◌∷◌,
}
use Prim.Native.Nat.{bit_xor}

-- `bytes` is `b_data`. The fields that are an `unsigned char` or `unsigned short` are below 2 ^ 8
-- or 2 ^ 16.
pub record Buffer : Type 0 where
  pub bytes : ℕ → ℕ
  pub dev : ℕ
  pub blocknr : ℕ
  pub uptodate : Bool
  pub dirt : Bool
  pub count : ℕ
  pub lock : Bool
  pub prev_free : ℕ
  pub next_free : ℕ

pub record Cache : Type 0 where
  pub buffers : ℕ → Buffer
  pub nr_buffers : ℕ
  pub hash_table : ℕ → List ℕ
  pub free_list : ℕ

-- What happens to the cache outside this file: while `wait_on_buffer` sleeps until the buffer is
-- unlocked, in `sleep_on(&buffer_wait)`, in `ll_rw_block`, and in `sync_inodes`.
pub record Others : Type 0 where
  pub wait : (bh : ℕ) → Cache → Cache
  pub sleep : Cache → Cache
  pub ll_rw_block : (write : Bool) → (bh : ℕ) → Cache → Cache
  pub sync_inodes : Cache → Cache

-- A routine comes back, panics, or is still in its loop when the rounds are used up.
pub data Run (A : Type 0) : Type 0 where
  done : A → Run A
  panics : Run A
  unfinished : Run A

abbrev pub after : {A B : Type 0} → Run A → (A → Run B) → Run B
after (done value) next = next value
after panics next = panics
after unfinished next = unfinished

abbrev pub on_buffer : (bh : ℕ) → (Buffer → Buffer) → Cache → Cache
on_buffer bh f c = record c { buffers = update c.buffers bh (f (c.buffers bh)) }

abbrev pub wait_on_buffer : Others → (bh : ℕ) → Cache → Cache
wait_on_buffer others bh c = if (c.buffers bh).lock then others.wait bh c else c

-- The body of the loops of `sys_sync` and `sync_dev`.
abbrev pub sync_buffer : Others → (bh : ℕ) → Cache → Cache
sync_buffer others bh c =
    let c' : Cache = wait_on_buffer others bh c in
    if (c'.buffers bh).dirt then others.ll_rw_block true bh c' else c'

-- The loops, over `n` buffers from number `bh` on.
unfoldable pub sync_all : Others → (n : ℕ) → (bh : ℕ) → Cache → Cache
sync_all others zero bh c = c
sync_all others (suc n) bh c = sync_all others n (suc bh) (sync_buffer others bh c)

unfoldable pub sync_some : Others → (dev : ℕ) → (n : ℕ) → (bh : ℕ) → Cache → Cache
sync_some others dev zero bh c = c
sync_some others dev (suc n) bh c =
    sync_some others dev n (suc bh)
      (if (c.buffers bh).dev == dev then sync_buffer others bh c else c)

unfoldable pub sys_sync : Others → Cache → Cache
sys_sync others c = let c' : Cache = others.sync_inodes c in sync_all others c'.nr_buffers 1 c'

unfoldable pub sync_dev : Others → (dev : ℕ) → Cache → Cache
sync_dev others dev c = sync_some others dev c.nr_buffers 1 c

abbrev pub nr_hash : ℕ
nr_hash = 307

abbrev pub hashfn : (dev : ℕ) → (block : ℕ) → ℕ
hashfn dev block = bit_xor dev block % nr_hash

-- A head taken out of its chain.
unfoldable pub remove : (bh : ℕ) → List ℕ → List ℕ
remove bh [] = []
remove bh (b ∷ bs) = let rest = remove bh bs in if b == bh then rest else b ∷ rest

abbrev pub unhash : (bh : ℕ) → Cache → Cache
unhash bh c =
    let h : ℕ = hashfn (c.buffers bh).dev (c.buffers bh).blocknr in
    record c { hash_table = update c.hash_table h (remove bh (c.hash_table h)) }

-- The two writes that take a head out of the free list.
abbrev pub unlink_free : (bh : ℕ) → Cache → Cache
unlink_free bh c =
    let next : ℕ = (c.buffers bh).next_free in
    let prev : ℕ = (c.buffers bh).prev_free in
    let c' : Cache =
      on_buffer next (λ b. record b { prev_free = prev })
        (on_buffer prev (λ b. record b { next_free = next }) c) in
    record c' { free_list = if c.free_list == bh then next else c.free_list }

unfoldable pub remove_from_queues : (bh : ℕ) → Cache → Run Cache
remove_from_queues bh c =
    let c' : Cache = unhash bh c in
    if (c'.buffers bh).prev_free == 0 || (c'.buffers bh).next_free == 0
    then panics
    else done (unlink_free bh c')

-- The four writes that put a head at the end of the free list.
abbrev pub link_free : (bh : ℕ) → Cache → Cache
link_free bh c =
    let last : ℕ = (c.buffers c.free_list).prev_free in
    let c' : Cache = on_buffer bh (λ b. record b { next_free = c.free_list; prev_free = last }) c in
    on_buffer c.free_list (λ b. record b { prev_free = bh })
      (on_buffer (c'.buffers c.free_list).prev_free (λ b. record b { next_free = bh }) c')

unfoldable pub insert_into_queues : (bh : ℕ) → Cache → Cache
insert_into_queues bh c =
    let c' : Cache = link_free bh c in
    let h : ℕ = hashfn (c'.buffers bh).dev (c'.buffers bh).blocknr in
    if (c'.buffers bh).dev == 0
    then c'
    else record c' { hash_table = update c'.hash_table h (bh ∷ c'.hash_table h) }

abbrev pub is_block : Buffer → (dev : ℕ) → (block : ℕ) → Bool
is_block b dev block = b.dev == dev && b.blocknr == block

-- The loop of `find_buffer`, over the rest of a chain.
unfoldable pub find_in : (dev : ℕ) → (block : ℕ) → (ℕ → Buffer) → List ℕ → Option ℕ
find_in dev block buffers [] = none
find_in dev block buffers (b ∷ bs) =
    let rest = find_in dev block buffers bs in
    if is_block (buffers b) dev block then some b else rest

abbrev pub find_buffer : (dev : ℕ) → (block : ℕ) → Cache → Option ℕ
find_buffer dev block c = find_in dev block c.buffers (c.hash_table (hashfn dev block))

abbrev pub count_up : (bh : ℕ) → Cache → Cache
count_up bh c = on_buffer bh (λ b. record b { count = (b.count + 1) % 2 ^ 8 }) c

unfoldable pub brelse : Others → (bh : ℕ) → Cache → Run Cache
brelse others bh c =
    if bh == 0
    then done c
    else (let c' : Cache = wait_on_buffer others bh c in
        if (c'.buffers bh).count == 0
        then panics
        else done (on_buffer bh (λ b. record b { count = b.count - 1 }) c'))

-- The loop of `get_hash_table`, for at most so many rounds.
unfoldable pub get_hash_table :
    (rounds : ℕ) → Others → (dev : ℕ) → (block : ℕ) → Cache → Run (Option ℕ × Cache)
get_hash_table zero others dev block c = unfinished
get_hash_table (suc rounds) others dev block c = elim (find_buffer dev block c) [
  | none ↦ done (none, c)
  | some bh ↦
      let c' : Cache = wait_on_buffer others bh (count_up bh c) in
      elim (is_block (c'.buffers bh) dev block) [
        | true ↦ done (some bh, c')
        | false ↦ after (brelse others bh c') (get_hash_table rounds others dev block)
      ]
]

-- `while (tmp != free_list || (tmp=NULL))`, with what the loop goes on with.
abbrev pub next_in :
    (next : ℕ → Run (Option ℕ × Cache)) → (tmp : ℕ) → Cache → Run (Option ℕ × Cache)
next_in next tmp c = elim ((c.buffers tmp).next_free == c.free_list) [
  | true ↦ done (none, c)
  | false ↦ next (c.buffers tmp).next_free
]

-- The loop of `getblk` over the free list.
unfoldable pub find_free : (rounds : ℕ) → Others → (tmp : ℕ) → Cache → Run (Option ℕ × Cache)
find_free zero others tmp c = unfinished
find_free (suc rounds) others tmp c = elim ((c.buffers tmp).count == 0) [
  | true ↦
      let c' : Cache = wait_on_buffer others tmp c in
      elim ((c'.buffers tmp).count == 0) [
        | true ↦ done (some tmp, c')
        | false ↦ next_in (λ next. find_free rounds others next c') tmp c'
      ]
  | false ↦ next_in (λ next. find_free rounds others next c) tmp c
]

-- The buffer found, once it is out of the queues and its old block is written.
abbrev pub renamed : (dev : ℕ) → (block : ℕ) → Buffer → Buffer
renamed dev block b = record b {
  dev = dev % 2 ^ 16;
  blocknr = block % 2 ^ 16;
  dirt = false;
  uptodate = false;
}

abbrev pub rename : (tmp : ℕ) → (dev : ℕ) → (block : ℕ) → Cache → Cache
rename tmp dev block c = on_buffer tmp (renamed dev block) c

abbrev pub give_back : (tmp : ℕ) → Cache → Cache
give_back tmp c =
    insert_into_queues tmp (on_buffer tmp (λ b. record b { dev = 0; blocknr = 0; count = 0 }) c)

abbrev pub sync_old : Others → (tmp : ℕ) → Cache → Cache
sync_old others tmp c = if (c.buffers tmp).dirt then sync_dev others (c.buffers tmp).dev c else c

-- `getblk` from `tmp->b_count++` on; `again` is `goto repeat`.
unfoldable pub take_over :
    Others
    → (again : Cache → Run (ℕ × Cache)) → (dev : ℕ) → (block : ℕ) → (tmp : ℕ) → Cache
    → Run (ℕ × Cache)
take_over others again dev block tmp c =
    after (remove_from_queues tmp (count_up tmp c)) (λ (c₁ : Cache).
      let c₂ : Cache = rename tmp dev block (sync_old others tmp c₁) in
      elim (find_buffer dev block c₂) [
        | some b ↦ again (give_back tmp c₂)
        | none ↦ done (tmp, insert_into_queues tmp c₂)
      ])

-- Each loop of `getblk` runs for at most so many rounds.
unfoldable pub getblk : (rounds : ℕ) → Others → (dev : ℕ) → (block : ℕ) → Cache → Run (ℕ × Cache)
getblk zero others dev block c = unfinished
getblk (suc rounds) others dev block c =
    after (get_hash_table (suc rounds) others dev block c) (λ (found, c₁). elim found [
      | some bh ↦ done (bh, c₁)
      | none ↦ after (find_free (suc rounds) others c₁.free_list c₁) (λ (free, c₂). elim free [
        | none ↦ getblk rounds others dev block (others.sleep c₂)
        | some tmp ↦ take_over others (getblk rounds others dev block) dev block tmp c₂
      ])
    ])

-- NULL is no buffer.
unfoldable pub bread : (rounds : ℕ) → Others → (dev : ℕ) → (block : ℕ) → Cache → Run (ℕ × Cache)
bread rounds others dev block c = after (getblk rounds others dev block c) (λ (bh, c₁).
    elim (bh == 0) [
      | true ↦ panics
      | false ↦ elim (c₁.buffers bh).uptodate [
        | true ↦ done (bh, c₁)
        | false ↦
            let c₂ : Cache = others.ll_rw_block false bh c₁ in
            elim (c₂.buffers bh).uptodate [
              | true ↦ done (bh, c₂)
              | false ↦ after (brelse others bh c₂) (λ c₃. done (0, c₃))
            ]
      ]
    ])
