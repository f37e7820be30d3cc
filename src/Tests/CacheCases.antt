-- ===== src/Tests/CacheCases.antt =====
-- A write cache with one segment, a write into the middle of it, and a queue with a copy.
use sstoraged.Common.{◌+◌, ◌≤◌, ◌<◌, ◌≡◌, ◌↔◌, ◌⊎◌, refl, [], ◌∷◌, select, arith}
use sstoraged.Cache.{WriteSegment, WriteCache, new_segment, copy_segment, search, push}
use sstoraged.Cache.Linear.{linear}
use sstoraged.Cache.Search.{overlaps, search-select}
use sstoraged.Cache.Serve.{source, Serves}
use sstoraged.Cache.Pending.{IsValid}
use sstoraged.Cache.Push.{IsWrite, Inside, AllReady, push-Serves, push-IsValid}

abbrev old : WriteSegment
old = new_segment 0 10 8

abbrev cached : WriteCache
cached = record { fifo = 0 ∷ []; index = old ∷ []; next_ptr = 2 }

abbrev incoming : WriteSegment
incoming = new_segment 1 12 2

abbrev cached_IsValid : IsValid cached
cached_IsValid = record {
  distinct = (tt, tt);
  below = (omega arith, tt);
  well = (record { fits = omega arith; within = omega arith }, tt);
}

abbrev incoming_IsWrite : IsWrite cached incoming
incoming_IsWrite = record {
  whole = (refl, refl);
  some_blocks = omega arith;
  no_wrap = omega arith;
  handed_out = omega arith;
  absent = (λ e. absurd (omega (arith, e)), tt);
}

abbrev cached_Ready : AllReady linear cached incoming
cached_Ready = (record { safe = λ _ _. (refl, refl); small = omega arith }, tt)

search-select_example : search linear (old ∷ []) 12 2 ≡ select (overlaps 12 2) (old ∷ [])
search-select_example =
    search-select linear (old ∷ []) 12 2 (omega arith) (tt, tt) (omega arith, tt)

push-Serves_example : Serves (push linear incoming cached).index 15 (source old 15) ↔ (
    (Inside incoming 15 × (source incoming 15 ≡ source old 15))
    ⊎ (((15 < 12) ⊎ (12 + 2 ≤ 15)) × Serves cached.index 15 (source old 15)))
push-Serves_example =
    push-Serves linear cached incoming cached_IsValid (tt, tt) incoming_IsWrite cached_Ready 15
      (source old 15)

push-IsValid_example : IsValid (push linear incoming cached)
push-IsValid_example =
    push-IsValid linear cached incoming cached_IsValid (tt, tt) incoming_IsWrite cached_Ready

-- A queue with a copy before an original.
abbrev queued : WriteCache
queued = record {
  fifo = 3 ∷ 0 ∷ 4 ∷ 1 ∷ [];
  index = old ∷ incoming ∷ copy_segment 3 old ∷ copy_segment 4 old ∷ [];
  next_ptr = 5;
}
