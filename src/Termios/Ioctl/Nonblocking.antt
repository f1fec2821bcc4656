-- ===== src/Termios/Ioctl/Nonblocking.antt =====
-- FIONBIO in shim/termios.c.
use rust_ape.Prelude.{
  ℕ, ◌^◌, ◌<◌, ◌≡◌, ◌≢◌, refl, ◌∙◌, ap, sym, inl, inr, Bool, true, false, not, ◌==◌, if◌then◌else◌,
  has, Apart, arith, has-bit_or, has-clear_bits, has-clear_bits_self, has_self, has_comm,
  Bool-cases, ==_self, ==_false_of_ne,
}
use rust_ape.Open.{returns}
use rust_ape.Termios.Calls.{Ttys}
use rust_ape.Termios.Ioctl.{Pointed, IoctlHost, wanted, fionbio, ioctl, lin_fionbio}

-- The descriptor's status flags after a store of the host.
abbrev pub put_status : ℕ → ℕ → Ttys → Ttys
put_status fd flags w = record w { status = λ j. if j == fd then flags else w.status j }

wanted-has :
    (h : IoctlHost) (number flags k : ℕ)
    → (h.nonblock == 0) ≡ false
    → h.nonblock < 2 ^ 32
    → k < 2 ^ 32
    → Apart k h.nonblock
    → (has (wanted h number flags) h.nonblock ≡ not (number == 0))
      × (has (wanted h number flags) k ≡ has flags k)
wanted-has h number flags k nz lt lk a = elim (Bool-cases (number == 0)) [
  | inl q ↦ (
    rw q (has-clear_bits_self flags h.nonblock lt),
    rw q (has-clear_bits flags h.nonblock k lt lk a),
  )
  | inr q ↦ (
    rw (q, has-bit_or, has_self h.nonblock nz) (ground arith),
    rw (q, has-bit_or, has_comm h.nonblock k, a) (ground arith),
  )
]

-- The state after FIONBIO, whether a call was needed or not.
fionbio_state :
    (h : IoctlHost) (fd j : ℕ) (w : Ttys) (p : Pointed)
    → ((flags : ℕ) → h.setfl fd flags w ≡ (returns 0, put_status fd flags w))
    → let d = fionbio h fd w p (returns (w.status fd)) in
      (d.reply ≡ returns 0)
      × (d.ttys.status j ≡ (if j == fd then wanted h p.number (w.status fd) else w.status j))
unfolding fionbio
fionbio_state h fd j w p s =
    let want = wanted h p.number (w.status fd) in
    elim (Bool-cases (want == w.status fd)) [
      | inl q ↦ rw q (refl, same_status (j == fd) (ground arith) (ground arith))
      | inr q ↦ rw (q, s want) (refl, refl)
    ]
  where
    same_status :
        (b : Bool)
        → (b ≡ true → w.status j ≡ w.status fd)
        → wanted h p.number (w.status fd) ≡ w.status fd
        → w.status j ≡ (if b then wanted h p.number (w.status fd) else w.status j)
    same_status true e q = e refl ∙ sym q
    same_status false e q = refl

ioctl-fionbio :
    (h : IoctlHost) (fd addr : ℕ) (w : Ttys) (p : Pointed)
    → ioctl h fd lin_fionbio addr w p ≡ fionbio h fd w p (h.getfl fd w)
unfolding ioctl
ioctl-fionbio h fd addr w p = refl

-- FIONBIO succeeds, and afterwards the descriptor is non-blocking exactly where the number that the
-- argument points to is not 0; no other of its status flags changes, and no other descriptor's. The host
-- reads and stores status flags, its O_NONBLOCK is a flag of 32 bits that is not 0, and `k` is any other.
pub ioctl_nonblocking :
    (h : IoctlHost) (fd j addr k : ℕ) (w : Ttys) (p : Pointed)
    → h.getfl fd w ≡ returns (w.status fd)
    → ((flags : ℕ) → h.setfl fd flags w ≡ (returns 0, put_status fd flags w))
    → (h.nonblock == 0) ≡ false
    → h.nonblock < 2 ^ 32
    → k < 2 ^ 32
    → Apart k h.nonblock
    → j ≢ fd
    → let d = ioctl h fd lin_fionbio addr w p in
      (d.reply ≡ returns 0)
      × (has (d.ttys.status fd) h.nonblock ≡ not (p.number == 0))
      × (has (d.ttys.status fd) k ≡ has (w.status fd) k)
      × (d.ttys.status j ≡ w.status j)
ioctl_nonblocking h fd j addr k w p g s nz lt lk a ne =
    let run : ioctl h fd lin_fionbio addr w p ≡ fionbio h fd w p (returns (w.status fd)) =
      ioctl-fionbio h fd addr w p ∙ ap (fionbio h fd w p) g in
    let own = fionbio_state h fd fd w p s in
    let others = fionbio_state h fd j w p s in
    let bits = wanted-has h p.number (w.status fd) k nz lt lk a in
    let mine : (ioctl h fd lin_fionbio addr w p).ttys.status fd ≡ wanted h p.number (w.status fd) =
      ap (λ d. d.ttys.status fd) run ∙ (own.1 ∙ rw (==_self fd)) in
    (
      ap (λ d. d.reply) run ∙ own.0,
      ap (λ x. has x h.nonblock) mine ∙ bits.0,
      ap (λ x. has x k) mine ∙ bits.1,
      ap (λ d. d.ttys.status j) run ∙ (others.1 ∙ rw (==_false_of_ne j fd ne)),
    )
