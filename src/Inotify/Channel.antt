-- ===== src/Inotify/Channel.antt =====
-- The records that shim/inotify.c writes into its pipe: `struct shim_inotify_event`, and `emit`. A
-- name is the list of its bytes without the NUL, and empty where the source passes NULL; a `wd` is
-- the 32-bit pattern of an `int32_t`.
pub mod Wire
use rust_ape.Prelude.{
  ℕ, zero, suc, ◌+◌, ◌-◌, ◌*◌, ◌/◌, ◌%◌, ◌^◌, Bool, true, false, List, [], ◌∷◌, ◌++◌, ◌==◌,
  if◌then◌else◌, length, take, replicate, min,
}

-- One record, before it is put into bytes.
pub record Notice : Type 0 where
  pub wd : ℕ
  pub mask : ℕ
  pub name : List ℕ

-- Four bytes, the lowest first.
abbrev pub word_bytes : ℕ → List ℕ
word_bytes x = x % 256 ∷ x / 256 % 256 ∷ x / (256 * 256) % 256 ∷ x / (256 * 256 * 256) % 256 ∷ []

-- `(n + 1 + ALIGN - 1) & ~(ALIGN - 1)` for a name of `n` bytes, with `ALIGN` 16; 0 for no name.
abbrev pub padded_len : ℕ → ℕ
padded_len n = if n == 0 then 0 else n + 16 - (n + 16) % 16

-- The bytes of a record; `name_max` is the host's `NAME_MAX`.
unfoldable pub record_bytes : ℕ → Notice → List ℕ
record_bytes name_max ev =
    let n = min (length ev.name) name_max in
    word_bytes ev.wd
    ++ (word_bytes ev.mask
        ++ (word_bytes 0
            ++ (word_bytes (padded_len n) ++ (take n ev.name ++ replicate (padded_len n - n) 0))))

-- What `write` answers: everything written, EAGAIN, EINTR, or any other error.
pub data Written : Type 0 where
  accepted full interrupted broken : Written

-- The write end: whether the reader is gone, whether a record was dropped, and what has gone
-- through.
pub record Channel : Type 0 where
  pub dead : Bool
  pub overflow : Bool
  pub sent : List Notice

-- The host's side of a write: `NAME_MAX`, and the answer to the bytes after what has been sent.
pub record Pipe : Type 0 where
  pub name_max : ℕ
  pub write : List Notice → List ℕ → Written

-- `emit`
unfoldable pub emit : Pipe → Notice → Channel → Channel
unfolding record_bytes
emit h ev ch = if ch.dead then ch else elim (h.write ch.sent (record_bytes h.name_max ev)) [
  | accepted ↦ record ch { sent = ch.sent ++ (ev ∷ []) }
  | full ↦ record ch { overflow = true }
  | interrupted ↦ ch
  | broken ↦ record ch { dead = true }
]

-- One call of `emit` after the other.
unfoldable pub emit_all : Pipe → List Notice → Channel → Channel
emit_all h [] ch = ch
emit_all h (ev ∷ evs) ch = emit_all h evs (emit h ev ch)
