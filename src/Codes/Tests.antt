-- ===== src/Codes/Tests.antt =====
-- Runs of the functions of Codes, on the table of a host like XNU.
use rust_ape.Prelude.{◌≡◌, refl, List, [], ◌∷◌, arith}
use rust_ape.Codes.{
  host_of, lin_of, Errnos, Cells, ErrnoEvent, fails, reads, writes, happen_all, errno_to_linux,
  errno_to_host, errno_location,
}
use rust_ape.Codes.Tables.{errno_to_host-errno_to_linux}
use rust_ape.Codes.Visits.{seen, happen_all_refines}

-- EAGAIN and EDEADLK.
abbrev xnu : Errnos
xnu = record {
  rows = record { lin = 11; host = 35 } ∷ record { lin = 35; host = 11 } ∷ [];
  symlink_disabled = 1463;
}

symlink_refused : errno_to_linux xnu 1463 ≡ 13
unfolding errno_to_linux lin_of
symlink_refused = refl

named_errno_run : errno_to_host xnu (errno_to_linux xnu 35) ≡ 35
unfolding host_of lin_of
named_errno_run =
    errno_to_host-errno_to_linux xnu 35 11 (refl, (refl, tt)) refl (omega arith) (omega arith)

abbrev cells : Cells
cells = record { host = 0; copy = 0 }

-- The same errno twice, with a reset by the Rust side between.
abbrev twice : List ErrnoEvent
twice = fails 35 ∷ reads ∷ writes 0 ∷ fails 35 ∷ []

happen_all_refines_example : seen xnu (happen_all xnu twice cells) ≡ 11
unfolding errno_location errno_to_linux lin_of
happen_all_refines_example =
    happen_all_refines xnu twice cells (omega arith, (tt, (tt, (omega arith, tt))))
