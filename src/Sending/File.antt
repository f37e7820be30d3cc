-- ===== src/Sending/File.antt =====
-- SendfileTask::run puts a range of the volumes on the socket in order.
use sstoraged.Common.{
  ℕ, zero, suc, ◌+◌, ◌-◌, ◌^◌, ◌≤◌, ◌<◌, ◌≡◌, refl, sym, ◌∙◌, ap, min, inl, inr, ◌⊎◌, true, false,
  ◌==◌, Bool-cases, Option, none, some, List, [], ◌∷◌, ◌++◌, length, length-append, drop,
  drop-append_past, drop-append_within, All, arith, add64, sub64,
}
use mathlib.Core.List.{append_assoc}
use sstoraged.Volume.{PhysicalVolume, LowHandle, get_low_handles}
use sstoraged.Volume.Layout.{
  Place, run, run-length, drop-run, bytes, layout, layout-length, drop-layout, total,
  get_low_handles-layout,
}
use sstoraged.Sending.{SendfileTask, FileSent, send_handles, run_sendfile}

run-add : (path a m n : ℕ) → run path a (m + n) ≡ run path a m ++ run path (a + m) n
run-add path a zero n =
    let none_before : 0 + n ≡ n = omega arith in
    let same : a + 0 ≡ a = omega arith in rw (none_before, same)
run-add path a (suc m) n =
    let e : suc m + n ≡ suc (m + n) = omega arith in
    let f : a + 1 + m ≡ a + suc m = omega arith in
    rw e (
      ap (λ (r : List Place). some (path, a) ∷ r)
        (run-add path (a + 1) m n ∙ ap (λ (k : ℕ). run path (a + 1) m ++ run path k n) f))

abbrev lengths : List LowHandle → ℕ
lengths [] = 0
lengths (h ∷ l) = h.length + lengths l

bytes-length : (hs : List LowHandle) → length (bytes hs) ≡ lengths hs
bytes-length [] = refl
bytes-length (h ∷ l) = omega (
  arith,
  length-append {0} (run h.path h.offset h.length) (bytes l),
  run-length h.path h.offset h.length,
  bytes-length l,
)

-- The front of the bytes of the handles is on the socket, and the task has moved by as much.
record Moved (hs : List LowHandle) (t : SendfileTask) (r : FileSent) : Type 0 where
  sent : ℕ
  inside : sent ≤ lengths hs
  split : r.stream ++ drop sent (bytes hs) ≡ bytes hs
  at : r.task.offset ≡ t.offset + sent
  left : r.task.remain ≡ t.remain - sent
  told : ((r.ok ≡ true) × (sent ≡ lengths hs)) ⊎ (r.ok ≡ false)

still :
    (hs : List LowHandle) (t : SendfileTask)
    → Moved hs t (record { ok = false; stream = []; task = t })
still hs t = record {
  sent = 0;
  inside = omega arith;
  split = refl;
  at = omega arith;
  left = omega arith;
  told = inr refl;
}

send_handles-Moved :
    (rs : List (Option ℕ)) (hs : List LowHandle) (t : SendfileTask)
    → lengths hs ≤ t.remain
    → t.offset + t.remain < 2 ^ 63
    → Moved hs t (send_handles rs hs t)
unfolding send_handles
send_handles-Moved rs [] t h w = record {
  sent = 0;
  inside = omega arith;
  split = refl;
  at = omega arith;
  left = omega arith;
  told = inl (refl, refl);
}
send_handles-Moved [] (h ∷ l) t f w = still (h ∷ l) t
send_handles-Moved (none ∷ rs) (h ∷ l) t f w = still (h ∷ l) t
send_handles-Moved (some n ∷ rs) (h ∷ l) t f w =
    let size = min n h.length in
    let here = run h.path h.offset h.length in
    let whole = run-length h.path h.offset h.length in
    let at : add64 t.offset size ≡ t.offset + size = ground (arith, f, w) in
    let left : sub64 t.remain size ≡ t.remain - size = ground (arith, f, w) in
    elim (Bool-cases (h.length == size)) [
      | inl all ↦
          let same : h.length ≡ size = ground (arith, all) in
          let rest =
            send_handles-Moved rs l
              (record { offset = add64 t.offset size; remain = sub64 t.remain size })
              (omega (arith, left, same, f)) (omega (arith, at, left, w)) in
          rw all (record {
            sent = h.length + rest.sent;
            inside = omega (arith, rest.inside);
            split =
                ap
                  (λ (q : List Place).
                    (run h.path h.offset size
                      ++ (send_handles rs l (record {
                        offset = add64 t.offset size;
                        remain = sub64 t.remain size;
                      })).stream)
                    ++ q)
                  (drop-append_past (h.length + rest.sent) rest.sent here (bytes l)
                    (omega (arith, whole)))
                ∙ (append_assoc (run h.path h.offset size)
                      (send_handles rs l (record {
                        offset = add64 t.offset size;
                        remain = sub64 t.remain size;
                      })).stream
                      (drop rest.sent (bytes l))
                    ∙ (ap (λ (q : List Place). run h.path h.offset size ++ q) rest.split
                        ∙ ap (λ (k : ℕ). run h.path h.offset k ++ bytes l) (sym same)));
            at = omega (arith, rest.at, at, same);
            left = omega (arith, rest.left, left, same);
            told = elim rest.told [ inl e ↦ inl (e.0, omega (arith, e.1)) | inr e ↦ inr e ];
          })
      | inr part ↦ rw part (record {
        sent = size;
        inside = omega arith;
        split =
            ap (λ (q : List Place). run h.path h.offset size ++ q)
              (drop-append_within size here (bytes l) (omega (arith, whole))
                ∙ ap (λ (q : List Place). q ++ bytes l)
                    (drop-run h.path h.offset h.length size (omega arith)))
            ∙ (sym (
                  append_assoc (run h.path h.offset size)
                    (run h.path (h.offset + size) (h.length - size)) (bytes l))
                ∙ ap (λ (q : List Place). q ++ bytes l)
                    (sym (run-add h.path h.offset size (h.length - size))
                      ∙ ap (run h.path h.offset) (omega arith)));
        at = at;
        left = left;
        told = inr refl;
      })
    ]

-- SendfileTask::run on a range that is not empty and lies in the volumes, which all start at the head of
-- their files: what is on the socket, and the range that the task has left, are together the bytes of
-- the range in order; and the task is done only where nothing is left.
pub run_sendfile-layout :
    (volumes : List PhysicalVolume) (rs : List (Option ℕ)) (t : SendfileTask)
    → All (λ v. v.start ≡ 0) volumes
    → 0 < t.remain
    → t.offset + t.remain ≤ total volumes
    → total volumes < 2 ^ 63
    → let r = run_sendfile volumes rs t in
      (r.stream ++ layout volumes r.task.offset r.task.remain ≡ layout volumes t.offset t.remain)
      × (((r.ok ≡ true) × (r.task.remain ≡ 0)) ⊎ (r.ok ≡ false))
unfolding run_sendfile
run_sendfile-layout volumes rs t s p h w =
    let hs = get_low_handles volumes t.offset t.remain in
    let shown = get_low_handles-layout volumes t.offset t.remain s p h w in
    let sum : lengths hs ≡ t.remain =
      sym (bytes-length hs) ∙ (ap length shown ∙ layout-length volumes t.offset t.remain) in
    let m = send_handles-Moved rs hs t (omega (arith, sum)) (omega (arith, h, w)) in
    let more : (t.remain == 0) ≡ false = ground (arith, p) in
    let ahead =
      ap (drop m.sent) shown
      ∙ drop-layout volumes t.offset t.remain m.sent (omega (arith, m.inside, sum)) in
    rw (more, m.at, m.left)
      (
        ap (λ (q : List Place). (send_handles rs hs t).stream ++ q) (sym ahead) ∙ (m.split ∙ shown),
        elim m.told [ inl e ↦ inl (e.0, omega (arith, e.1, sum, m.left)) | inr e ↦ inr e ],
      )
