-- ===== src/Fs/Buffer/Tests.antt =====
-- Runs of the buffer cache.
use linux.Prelude.{ℕ, ◌≡◌, ◌⊎◌, refl, arith, false, ◌==◌, if◌then◌else◌, [], none, some}
use linux.Fs.Buffer.{
  Cache, Others, Run, done, find_buffer, find_in, getblk, get_hash_table, find_free, take_over,
  remove_from_queues, remove, insert_into_queues,
}
use linux.Fs.Buffer.Unique.{IsCache}
use linux.Fs.Buffer.Fair.{IsFair}
use linux.Fs.Buffer.Lookup.{IsGot, getblk-IsGot}
use linux.Fs.Buffer.Quiet.{getblk_total}

-- Three buffers, the first in use, none in the hash table.
abbrev three : Cache
three = record {
  buffers = λ b. record {
    bytes = λ i. 0;
    dev = 0;
    blocknr = 0;
    uptodate = false;
    dirt = false;
    count = if b == 1 then 1 else 0;
    lock = false;
    prev_free = if b == 1 then 3 else (if b == 2 then 1 else 2);
    next_free = if b == 1 then 2 else (if b == 2 then 3 else 1);
  };
  nr_buffers = 3;
  hash_table = λ h. [];
  free_list = 1;
}

-- Nothing happens meanwhile.
abbrev alone : Others
alone = record {
  wait = λ bh c. c;
  sleep = λ c. c;
  ll_rw_block = λ write bh c. c;
  sync_inodes = λ c. c;
}

alone-IsFair : IsFair alone
alone-IsFair = record {
  wait_keeps = λ bh. record { sound = λ c v. v; held = λ b c h. h };
  sleep_keeps = record { sound = λ c v. v; held = λ b c h. h };
  block_keeps = λ write bh. record { sound = λ c v. v; held = λ b c h. h };
}

three-IsCache : IsCache three
three-IsCache = record { placed = λ h b m. cc; unique = λ h b d m n e. cc }

-- The second buffer gets block 7 of device 0x301, and goes to the end of the free list.
abbrev took : Run (ℕ × Cache) → ℕ × ℕ × ℕ
took (done (bh, c)) = (bh, (c.buffers bh).blocknr, (c.buffers c.free_list).prev_free)
took r = (0, 0, 0)

takes_second : took (getblk 2 alone 0x301 7 three) ≡ (2, 7, 2)
unfolding getblk get_hash_table find_in find_free take_over remove_from_queues remove
    insert_into_queues
takes_second = refl

getblk_total_example :
    (bh : ℕ) × (d : Cache) × (getblk 2 alone 0x301 7 three ≡ done (bh, d))
    × IsGot 0x301 7 (bh, d)
    × ((find_buffer 0x301 7 three ≡ some bh) ⊎ ((find_buffer 0x301 7 three ≡ none) × (bh ≡ 2)))
getblk_total_example =
    getblk_total alone alone-IsFair 0x301 7 three 2 1 2 (omega arith) (omega arith) three-IsCache
      (record {
        unlocked = λ b. refl;
        first_free = (omega arith, omega arith, (refl, refl));
        clean = refl;
        has_prev = omega arith;
        has_next = omega arith;
      })
      (omega arith)

abbrev got : Run (ℕ × Cache) → ℕ × Cache
got (done r) = r
got r = (0, three)

comes_back : getblk 2 alone 0x301 7 three ≡ done (got (getblk 2 alone 0x301 7 three))
unfolding getblk get_hash_table find_in find_free take_over remove_from_queues remove
    insert_into_queues
comes_back = refl

getblk-IsGot_example : IsGot 0x301 7 (got (getblk 2 alone 0x301 7 three))
getblk-IsGot_example =
    getblk-IsGot alone alone-IsFair 0x301 7 (omega arith) (omega arith) 2 three
      (got (getblk 2 alone 0x301 7 three)) three-IsCache comes_back
