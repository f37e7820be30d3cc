-- ===== src/Read/Hits.antt =====
-- What a read of a range must deliver, block by block, and the view of it that is left when the
-- segments beside the range are dropped.
use sstoraged.Common.{
  ℕ, zero, suc, ◌+◌, ◌≤◌, ◌<◌, ◌≡◌, refl, ap, ◌∙◌, Bool, true, false, ◌&&◌, ltb, leb, if◌then◌else◌,
  List, [], ◌∷◌, ◌++◌, All, select, arith, Bool-cases, inl, inr,
}
use sstoraged.Cache.{WriteSegment}
use sstoraged.Session.{Task, task_send, task_sendfile, task_send_cache, task_cork, task_uncork}

pub data Block : Type 0 where
  from_disk : ℕ → Block
  from_cache : WriteSegment → ℕ → Block

abbrev pub disk_run : ℕ → ℕ → List Block
disk_run a zero = []
disk_run a (suc n) = from_disk a ∷ disk_run (a + 1) n

abbrev pub cache_run : WriteSegment → ℕ → ℕ → List Block
cache_run s a zero = []
cache_run s a (suc n) = from_cache s a ∷ cache_run s (a + 1) n

-- The blocks that a task sends.
abbrev pub blocks_of : Task → List Block
blocks_of (task_send p) = []
blocks_of (task_sendfile a n) = disk_run a n
blocks_of (task_send_cache s a n) = cache_run s a n
blocks_of task_cork = []
blocks_of task_uncork = []

abbrev pub blocks : List Task → List Block
blocks [] = []
blocks (t ∷ l) = blocks_of t ++ blocks l

-- A block comes from the first segment that covers it, or else from disk.
abbrev pub covers : WriteSegment → ℕ → Bool
covers s a = leb s.rlba a && ltb a (s.rlba + s.rlength)

abbrev pub served : List WriteSegment → ℕ → Block
served [] a = from_disk a
served (s ∷ l) a = if covers s a then from_cache s a else served l a

abbrev pub view : List WriteSegment → ℕ → ℕ → List Block
view l a zero = []
view l a (suc n) = served l a ∷ view l (a + 1) n

pub view-add :
    (l : List WriteSegment) (a m n : ℕ) → view l a (m + n) ≡ view l a m ++ view l (a + m) n
view-add l a zero n =
    let e : 0 + n ≡ n = omega arith in let f : a + 0 ≡ a = omega arith in rw (e, f)
view-add l a (suc m) n =
    let e : suc m + n ≡ suc (m + n) = omega arith in
    rw e (
      ap (λ r. served l a ∷ r)
        (view-add l (a + 1) m n ∙ ap (λ k. view l (a + 1) m ++ view l k n) (omega arith)))

pub view-beyond :
    (l : List WriteSegment) (a n : ℕ) → All (λ t. a + n ≤ t.rlba) l → view l a n ≡ disk_run a n
view-beyond l a zero h = refl
view-beyond l a (suc n) h = rw (here l h, view-beyond l (a + 1) n (later l h))
  where
    here : (l : List WriteSegment) → All (λ t. a + suc n ≤ t.rlba) l → served l a ≡ from_disk a
    here [] h = refl
    here (t ∷ l) h = let no : covers t a ≡ false = ground (arith, h.0) in rw no (here l h.1)

    later :
        (l : List WriteSegment) → All (λ t. a + suc n ≤ t.rlba) l → All (λ t. a + 1 + n ≤ t.rlba) l
    later [] h = tt
    later (t ∷ l) h = (omega (arith, h.0), later l h.1)

pub view-hit :
    (s : WriteSegment) (l : List WriteSegment) (a n : ℕ)
    → s.rlba ≤ a
    → a + n ≤ s.rlba + s.rlength
    → view (s ∷ l) a n ≡ cache_run s a n
view-hit s l a zero h k = refl
view-hit s l a (suc n) h k =
    let yes : covers s a ≡ true = ground arith in
    rw (yes, view-hit s l (a + 1) n (omega arith) (omega arith))

pub view-past :
    (s : WriteSegment) (l : List WriteSegment) (a n : ℕ)
    → s.rlba + s.rlength ≤ a
    → view (s ∷ l) a n ≡ view l a n
view-past s l a zero h = refl
view-past s l a (suc n) h =
    let no : covers s a ≡ false = ground arith in rw (no, view-past s l (a + 1) n (omega arith))

-- Dropping segments that cover nothing of the range leaves the view of it as it is.
pub view-select :
    (p : WriteSegment → Bool) (l : List WriteSegment) (a n : ℕ)
    → ((b : ℕ) → a ≤ b → b < a + n → All (λ s. covers s b ≡ true → p s ≡ true) l)
    → view (select p l) a n ≡ view l a n
view-select p l a zero h = refl
view-select p l a (suc n) h = rw (
  here l (h a (omega arith) (omega arith)),
  view-select p l (a + 1) n (λ b i j. h b (omega arith) (omega arith)),
)
  where
    here :
        (m : List WriteSegment)
        → All (λ s. covers s a ≡ true → p s ≡ true) m
        → served (select p m) a ≡ served m a
    here [] k = refl
    here (s ∷ m) k = elim (Bool-cases (p s)) [
      | inl e ↦ rw (e, select, here m k.1)
      | inr e ↦ elim (Bool-cases (covers s a)) [
        | inl c ↦ let yes = k.0 c in cc
        | inr c ↦ rw (e, c, select, here m k.1)
      ]
    ]
