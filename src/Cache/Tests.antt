-- ===== src/Cache/Tests.antt =====
-- Runs of the disk tier.
use r_search.Base.{◌≡◌, refl, [], ◌∷◌, arith}
use r_search.Cache.{DiskState, touch, forget, insert_entry, evicted, evict_loop, insert_block}
use r_search.Cache.Mirror.{IsMirror, touch-IsMirror, forget-IsMirror, insert_entry-IsMirror}
use r_search.Cache.Evict.{Settles, insert_block-Settles}

abbrev empty : DiskState
empty = record { entries = []; by_tick = []; total_bytes = 0; tick = 0 }

empty-IsMirror : IsMirror empty
empty-IsMirror = record {
  bound = 0;
  keys = tt;
  ticks = tt;
  forth = λ k s t h. absurd (grind arith);
  back = λ t k h. absurd (grind arith);
  total = refl;
}

-- Block 5 is the least recent, so it goes.
evicts :
    insert_block 70 6 40
      (record { entries = (5, (40, 1)) ∷ []; by_tick = (1, 5) ∷ []; total_bytes = 40; tick = 1 })
    ≡ evicted
        (record { entries = (6, (40, 2)) ∷ []; by_tick = (2, 6) ∷ []; total_bytes = 40; tick = 2 })
        (5 ∷ [])
unfolding insert_block insert_entry evict_loop
evicts = refl

-- Block 5, written to an empty tier.
abbrev one : DiskState
one = insert_entry 5 40 empty

one-IsMirror : IsMirror one
one-IsMirror = insert_entry-IsMirror empty empty-IsMirror 5 40

insert_block-Settles_example : Settles 70 6 (insert_block 70 6 40 one)
insert_block-Settles_example = insert_block-Settles 70 6 40 one one-IsMirror

touch-IsMirror_example : IsMirror (touch 5 one).0
touch-IsMirror_example = touch-IsMirror one one-IsMirror 5

forget-IsMirror_example : IsMirror (forget 5 one)
forget-IsMirror_example = forget-IsMirror one one-IsMirror 5
