-- ===== src/Codes/Visits.antt =====
-- The copy of errno in shim/errno.c, over sequences of events.
use rust_ape.Prelude.{ℕ, ◌≡◌, ◌≢◌, List, [], ◌∷◌, arith, All, ◌∙◌, refl}
use rust_ape.Codes.{
  Errnos, Cells, sentinel, errno_to_linux, errno_location, ErrnoEvent, fails, reads, writes, happen,
  happen_all,
}

-- The errno that the Rust side would read now.
abbrev pub seen : Errnos → Cells → ℕ
seen c s = (errno_location c s).copy

-- One errno, as POSIX has it: the latest value, Linux-coded.
abbrev pub latest : Errnos → List ErrnoEvent → ℕ → ℕ
latest c [] v = v
latest c (fails e ∷ es) v = latest c es (errno_to_linux c e)
latest c (reads ∷ es) v = latest c es v
latest c (writes w ∷ es) v = latest c es w

-- The host sets no errno that is the sentinel.
abbrev pub IsReal : ErrnoEvent → Type 0
IsReal (fails e) = e ≢ sentinel
IsReal reads = Unit {0}
IsReal (writes w) = Unit {0}

seen-fails :
    (c : Errnos) (e : ℕ) (s : Cells)
    → e ≢ sentinel
    → seen c (happen c (fails e) s) ≡ errno_to_linux c e
unfolding happen errno_location
seen-fails c e s n = ground (arith, n)

seen-reads : (c : Errnos) (s : Cells) → seen c (happen c reads s) ≡ seen c s
unfolding happen errno_location
seen-reads c s = ground arith

seen-writes : (c : Errnos) (w : ℕ) (s : Cells) → seen c (happen c (writes w) s) ≡ w
unfolding happen errno_location
seen-writes c w s = ground arith

-- Whatever happens in whatever order, also the same errno set twice with a write between, the Rust
-- side reads the latest value, where the host never sets the sentinel itself.
pub happen_all_refines :
    (c : Errnos) (es : List ErrnoEvent) (s : Cells)
    → All IsReal es
    → seen c (happen_all c es s) ≡ latest c es (seen c s)
unfolding happen_all
happen_all_refines c [] s r = refl
happen_all_refines c (fails e ∷ es) s r =
    happen_all_refines c es (happen c (fails e) s) r.1 ∙ rw (seen-fails c e s r.0)
happen_all_refines c (reads ∷ es) s r =
    happen_all_refines c es (happen c reads s) r.1 ∙ rw (seen-reads c s)
happen_all_refines c (writes w ∷ es) s r =
    happen_all_refines c es (happen c (writes w) s) r.1 ∙ rw (seen-writes c w s)
