-- ===== src/Rlimit/Tests.antt =====
-- Runs of shim/rlimit.c on a host where RLIMIT_NOFILE is 8.
use rust_ape.Prelude.{◌≡◌, refl, true, false, [], ◌∷◌, none, some}
use rust_ape.Codes.{Row}
use rust_ape.Rlimit.{
  Limit, Limits, LimitHost, unsupported, invalid, ended, getrlimit, setrlimit, prlimit,
}
use rust_ape.Rlimit.Laws.{exchange, prlimit-exchange}

abbrev bsd : LimitHost
bsd = record {
  rows = record { lin = 7; host = 8 } ∷ [];
  get_error = λ res. none;
  set_error = λ res x. none;
  own_pid = 41;
  is_linux = false;
}

abbrev all_same : Limits
all_same res = record { soft = 256; hard = 1024 }

abbrev larger : Limit
larger = record { soft = 512; hard = 1024 }

swap_run :
    let got = getrlimit bsd 7 all_same in
    let set = setrlimit bsd 7 larger all_same in
    prlimit bsd (ended invalid all_same) 41 7 (some larger) true all_same
    ≡ exchange got set got.shown
swap_run = prlimit-exchange bsd (ended invalid all_same) 41 7 larger all_same refl

-- Another process: ENOSYS.
other_run : (prlimit bsd (ended invalid all_same) 42 7 none true all_same).rc ≡ unsupported
unfolding prlimit rust_ape.Codes.host_of
other_run = refl
