-- ===== src/Fs/Table/Tests.antt =====
-- Runs of `iget` on a small table.
use linux.Prelude.{
  ℕ, ◌<◌, ◌≡◌, ◌≢◌, refl, ◌∙◌, sym, arith, false, ◌==◌, ◌&&◌, if◌then◌else◌, none, some, [], ap,
  update, update_ne, test_bit,
}
use native.Mathlib.Decide.{ℕ_discrete}
use linux.Fs.Buffer.{done}
use linux.Fs.Table.{Entry, Inodes, Waiting, Saved, blank_entry, iput, nr_inode, read_inode}
use linux.Fs.Table.Calls.{iget, find_inode, get_empty_inode, next_free, clean}
use linux.Fs.Table.Unique.{IsTable, IsFair, IsGot}
use linux.Fs.Table.Get.{iget-IsGot}
use linux.Fs.Table.Quiet.{iget_total}
use linux.Fs.Table.Last.{IsUnlinked, iput-unlinked}
use linux.Fs.Volume.{Volume}
use linux.Fs.Volume.Zones.{IsZone, is_used, map_used}
use linux.Fs.Volume.Tests.{small_volume, small_volume-IsVolume}
use linux.Fs.Inode.Tests.{short_file}
use linux.Fs.Truncate.Owned.{member, IsOwned}
use linux.Fs.Truncate.Whole.{blocks}
use linux.Fs.Truncate.Tests.{two_blocks, short_file-IsOwned}
use mathlib.Core.Path.{subst}

-- Nobody else runs.
abbrev alone_waiting : Waiting
alone_waiting held i s = s

alone_waiting-IsFair : IsFair alone_waiting
alone_waiting-IsFair = record {
  sound = λ held i s t. t;
  kept = λ held i s e m. (refl, refl);
  alone = λ held i s e m a. a;
}

abbrev on_disk : Saved
on_disk = record {
  mode = 33188;
  uid = 0;
  size = 5;
  time = 9;
  gid = 0;
  nlinks = 1;
  zone = λ k. if k == 0 then 77 else 0;
}

-- Entry 0 stands for the root directory.
abbrev root_only : Inodes
root_only = record {
  table =
      update (λ i. blank_entry) 0
        (record blank_entry { dev = 769; num = 1; count = 4; nlinks = 2 });
  last = 0;
  disk = λ dev num. if dev == 769 && num == 7 then some on_disk else none;
  volumes = λ dev. none;
  freed_pages = [];
}

root_only-IsTable : IsTable root_only
root_only-IsTable = record { unique = single; last_in = omega arith }
  where
    first : (i : ℕ) → (root_only.table i).dev ≢ 0 → i ≡ 0
    first i d = elim (ℕ_discrete 0 i) [
      | yes q ↦ sym q
      | no n ↦ absurd (d (ap (λ (e : Entry). e.dev) (update_ne (λ i. blank_entry) _ n)))
    ]

    single :
        (i j : ℕ)
        → i < nr_inode
        → j < nr_inode
        → (root_only.table i).dev ≢ 0
        → (root_only.table i).dev ≡ (root_only.table j).dev
        → (root_only.table i).num ≡ (root_only.table j).num
        → i ≡ j
    single i j l m d p q = first i d ∙ sym (first j (λ z. d (p ∙ z)))

seventh : (s : Inodes) × (iget alone_waiting 40 [] 5 769 7 root_only ≡ done (1, s))
unfolding iget find_inode get_empty_inode next_free clean read_inode
seventh = (_, refl)

root_again : (s : Inodes) × (iget alone_waiting 40 [] 5 769 1 root_only ≡ done (0, s))
unfolding iget find_inode get_empty_inode next_free clean read_inode
root_again = (_, refl)

iget-IsGot_example : IsGot 769 7 (1, seventh.0)
iget-IsGot_example =
    iget-IsGot alone_waiting 40 [] 5 769 7 root_only (1, seventh.0) alone_waiting-IsFair
      (omega arith) (omega arith) root_only-IsTable seventh.1

iget_total_example : (r : ℕ × Inodes) × (iget alone_waiting 33 [] 5 769 7 root_only ≡ done r)
iget_total_example =
    iget_total alone_waiting 0 1 [] 5 769 7 root_only on_disk (λ held i s. refl) (omega arith)
      (omega arith) (omega arith) (omega arith) (omega arith) refl tidy refl
  where
    tidy : (i : ℕ) → (root_only.table i).count ≡ 0 → (root_only.table i).core.dirt ≡ false
    tidy i z = elim (ℕ_discrete 0 i) [
      | yes q ↦ ap (λ (j : ℕ). (root_only.table j).core.dirt) (sym q)
      | no n ↦ ap (λ (e : Entry). e.core.dirt) (update_ne (λ i. blank_entry) _ n)
    ]

-- Inode 2 is that of a short file without a name.
abbrev nameless : Entry
nameless = record blank_entry { core = short_file; dev = 769; num = 2; count = 1 }

abbrev one_unlinked : Inodes
one_unlinked = record root_only { table = λ i. nameless; volumes = λ dev. some small_volume }

nameless-IsUnlinked : IsUnlinked nameless small_volume
unfolding test_bit
nameless-IsUnlinked = record {
  volume = small_volume-IsVolume;
  one = refl;
  no_pipe = refl;
  some_dev = omega arith;
  no_name = refl;
  kind = refl;
  owned = subst (IsOwned small_volume) (sym two_blocks) short_file-IsOwned;
  low = omega arith;
  high = omega arith;
  mapped = (_, refl);
  numbered = refl;
}

iput-unlinked_example :
    (s' : Inodes) × (v' : Volume) × (iput alone_waiting 1 [] 5 3 one_unlinked ≡ done s')
    × (s'.table 3 ≡ blank_entry)
    × (s'.volumes 769 ≡ some v')
    × ((b : ℕ)
        → IsZone small_volume b
        → is_used v' b
          ≡ (if member b (blocks short_file small_volume) then false else is_used small_volume b))
    × ((z : ℕ) → map_used v'.imap z ≡ (if 2 == z then false else map_used small_volume.imap z))
    × (v'.users ≡ small_volume.users)
iput-unlinked_example =
    iput-unlinked alone_waiting 0 [] 5 3 one_unlinked one_unlinked small_volume refl refl
      nameless-IsUnlinked
