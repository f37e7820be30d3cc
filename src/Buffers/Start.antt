-- ===== src/Buffers/Start.antt =====
-- src/ioveccontainer.cpp: the buffers that `reserve` makes for a new connection.
use sstoraged.Common.{
  ℕ, zero, suc, ◌+◌, ◌*◌, ◌/◌, ◌≤◌, ◌<◌, ◌≡◌, refl, max, true, [], length, All, arith,
}
use sstoraged.Buffers.{IovecContainer, common_buf_size, new_bufs, reserve}
use sstoraged.Buffers.Space.{Packed, Blank, Unread, FrontOpen, unread, free}
use sstoraged.Buffers.Turning.{Ready}

new_bufs-Blank : (n k : ℕ) → All Blank (new_bufs n k)
new_bufs-Blank zero k = tt
new_bufs-Blank (suc n) k = (refl, new_bufs-Blank n (suc k))

new_bufs-Unread : (n k : ℕ) → All Unread (new_bufs n k)
new_bufs-Unread zero k = tt
new_bufs-Unread (suc n) k = (refl, new_bufs-Unread n (suc k))

new_bufs-Packed : (n k : ℕ) → Packed (new_bufs n k)
new_bufs-Packed zero k = tt
new_bufs-Packed (suc n) k = (
  (omega arith, (omega arith, refl)),
  ((λ h. new_bufs-Blank n (suc k)), ((λ h. new_bufs-Unread n (suc k)), new_bufs-Packed n (suc k))),
)

new_bufs-sizes :
    (n k : ℕ)
    → (length (new_bufs n k) ≡ n)
      × ((unread (new_bufs n k) ≡ 0) × (free (new_bufs n k) ≡ n * common_buf_size))
new_bufs-sizes zero k = (refl, (refl, omega arith))
new_bufs-sizes (suc n) k =
    let (a, (b, c)) = new_bufs-sizes n (suc k) in
    (omega (arith, a), (omega (arith, b), omega (arith, c)))

new_bufs-FrontOpen : (n k : ℕ) → 2 ≤ n → FrontOpen (new_bufs n k)
new_bufs-FrontOpen zero k le = absurd (omega (arith, le))
new_bufs-FrontOpen (suc n) k le = refl

-- The first `reserve` on a new container, which has no slot, no buffer and no overflow: it succeeds
-- with room for `total` bytes and for two buffers, all of it free, in the state that `push` and
-- `update` keep.
pub reserve-Ready :
    (total fresh : ℕ)
    → (let c : IovecContainer = record {
      vec = [];
      count = 0;
      cbufs = [];
      remain = 0;
      overflow = 0;
      fresh = fresh;
    } in
        let r = reserve total c in
        (r.0 ≡ true)
        × (Ready r.1
            × (FrontOpen r.1.cbufs
                × ((unread r.1.cbufs ≡ 0)
                    × ((total < free r.1.cbufs) × (2 * common_buf_size ≤ free r.1.cbufs))))))
unfolding reserve
reserve-Ready total fresh =
    let n = max (total / common_buf_size + 1) 2 in
    let (l, (u, f)) = new_bufs-sizes n fresh in
    (
      refl,
      (
        (new_bufs-Packed n fresh, (omega (arith, l), omega arith)),
        (new_bufs-FrontOpen n fresh (omega arith), (u, (omega (arith, f), omega (arith, f)))),
      ),
    )
