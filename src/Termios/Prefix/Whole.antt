-- ===== src/Termios/Prefix/Whole.antt =====
-- Terminal settings through `prefix_to_host` of shim/termios.c and back through `prefix_to_linux`.
use rust_ape.Prelude.{
  ℕ, ◌/◌, ◌^◌, ◌<◌, ◌≡◌, ◌∙◌, ap, sym, ◌⊎◌, inl, inr, false, List, [], ◌∷◌, some, ◌==◌, bit_and,
  bit_or, has, clear_bits, All, Apart, union-Apart, IsSpread, arith, bit_and-bit_or, bit_and_assoc,
  bit_and_comm, zero-bit_and, zero-bit_or, bit_or-zero, bit_and_step, Apart-zero, clear_bits_inside,
}
use rust_ape.Codes.{Row, host_of, lin_of}
use rust_ape.Termios.{
  lin_csize, lin_cs6, lin_cs7, lin_cs8, lin_cbaud, flags_to_linux, csize_to_host, csize_to_linux,
}
use rust_ape.Termios.Prefix.{
  HostTermios, LinTermios, TermHost, with_speed, to_host_flags, prefix_to_host, prefix_to_linux,
}
use rust_ape.Termios.Prefix.Flags.{
  sent, is_reported, reported, kept, flags_to_host-sent, flags_to_linux-reported,
  flags_to_linux-flags_to_host,
}

-- A row of the control flags: a flag apart from the two fields on both sides, or a value of the
-- size field on both.
abbrev pub IsFlagOrSize : ℕ → Row → Type 0
IsFlagOrSize csize r =
    ((Apart r.lin lin_csize) × (Apart r.lin lin_cbaud) × (Apart r.host csize))
    ⊎ ((bit_and lin_csize r.lin ≡ r.lin) × (bit_and csize r.host ≡ r.host))

-- What the round trip relies on in the host: its patterns of input and local flags do not overlap; its
-- character sizes are different values of its size field; no speed stands for two codes; and cfsetospeed
-- and cfsetispeed change what cfgetospeed returns, to the speed that they are given, and nothing else
-- of the settings.
pub record IsTerm (h : TermHost) : Type 0 where
  pub iflags : IsSpread (λ r. r.host) h.tables.iflags
  pub lflags : IsSpread (λ r. r.host) h.tables.lflags
  pub cflags : All (IsFlagOrSize h.tables.csize) h.tables.cflags
  pub csize_lt : h.tables.csize < 2 ^ 32
  pub cs_set :
      ((h.tables.cs6 == 0) ≡ false) × ((h.tables.cs7 == 0) ≡ false) × ((h.tables.cs8 == 0) ≡ false)
  pub cs_differ :
      ((h.tables.cs6 == h.tables.cs7) ≡ false)
      × ((h.tables.cs6 == h.tables.cs8) ≡ false)
      × ((h.tables.cs7 == h.tables.cs8) ≡ false)
  pub cs_inside :
      (bit_and h.tables.cs6 h.tables.csize ≡ h.tables.cs6)
      × (bit_and h.tables.cs7 h.tables.csize ≡ h.tables.cs7)
      × (bit_and h.tables.cs8 h.tables.csize ≡ h.tables.cs8)
  pub speeds :
      (code sp : ℕ) → host_of h.tables.bauds code ≡ some sp → lin_of h.tables.bauds sp ≡ some code
  pub set_get : (sp : ℕ) (t : HostTermios) → h.cfgetospeed (with_speed h (some sp) t) ≡ sp
  pub set_rest :
      (sp : ℕ) (t : HostTermios)
      → ((with_speed h (some sp) t).iflag ≡ t.iflag)
        × ((with_speed h (some sp) t).cflag ≡ t.cflag)
        × ((with_speed h (some sp) t).lflag ≡ t.lflag)
        × ((with_speed h (some sp) t).cc ≡ t.cc)

not_speed : (k : ℕ) → bit_and lin_csize k ≡ k → bit_and lin_cbaud k ≡ 0
not_speed k q =
    ap (λ y. bit_and lin_cbaud y) (sym q)
    ∙ (sym (bit_and_assoc lin_cbaud lin_csize k) ∙ zero-bit_and k)

-- The size field's values.
size_of :
    (x : ℕ)
    → let f = bit_and x lin_csize in (f ≡ 0) ⊎ ((f ≡ lin_cs6) ⊎ ((f ≡ lin_cs7) ⊎ (f ≡ lin_cs8)))
size_of x = ground (
  arith,
  bit_and_step x 48,
  bit_and_step (x / 2) 24,
  bit_and_step (x / 2 / 2) 12,
  bit_and_step (x / 2 / 2 / 2) 6,
  bit_and_step (x / 2 / 2 / 2 / 2) 3,
  bit_and_step (x / 2 / 2 / 2 / 2 / 2) 1,
  bit_and_comm (x / 2 / 2 / 2 / 2 / 2 / 2) 0,
  zero-bit_and (x / 2 / 2 / 2 / 2 / 2 / 2),
)

module _ (h : TermHost) (t : IsTerm h) where
  -- The flags that are sent leave the host's size field alone, and those that are reported Linux's
  -- fields.
  sent_rows :
      (lin : ℕ) (rs : List Row)
      → All (IsFlagOrSize h.tables.csize) rs
      → All
          (λ r.
            (has (clear_bits lin (bit_or lin_csize lin_cbaud)) r.lin ≡ false)
            ⊎ Apart r.host h.tables.csize)
          rs
  sent_rows lin [] d = tt
  sent_rows lin (r ∷ rs) (inl (_, _, a), ds) = (inr a, sent_rows lin rs ds)
  sent_rows lin (r ∷ rs) (inr (q, _), ds) =
      let inside : bit_and (bit_or lin_csize lin_cbaud) r.lin ≡ r.lin =
        bit_and-bit_or lin_csize lin_cbaud r.lin ∙ rw (not_speed r.lin q, bit_or-zero, q) in
      (
        inl (rw (clear_bits_inside lin (bit_or lin_csize lin_cbaud) r.lin (omega arith) inside)),
        sent_rows lin rs ds,
      )

  reported_rows :
      (w m : ℕ) (rs : List Row)
      → ((r : Row)
          → IsFlagOrSize h.tables.csize r
          → (Apart r.lin m) ⊎ (bit_and h.tables.csize r.host ≡ r.host))
      → All (IsFlagOrSize h.tables.csize) rs
      → All (λ r. (is_reported (clear_bits w h.tables.csize) r ≡ false) ⊎ Apart r.lin m) rs
  reported_rows w m [] f d = tt
  reported_rows w m (r ∷ rs) f (d, ds) = (
    elim (f r d) [
      | inl a ↦ inr a
      | inr q ↦ inl (rw (clear_bits_inside w h.tables.csize r.host t.csize_lt q) (ground arith))
    ],
    reported_rows w m rs f ds,
  )

  reported-Apart :
      (w : ℕ)
      → (Apart (reported h.tables.cflags (clear_bits w h.tables.csize)) lin_csize)
        × (Apart (reported h.tables.cflags (clear_bits w h.tables.csize)) lin_cbaud)
  reported-Apart w = (
    union-Apart (λ r. r.lin) _ lin_csize h.tables.cflags
        (reported_rows w lin_csize h.tables.cflags size t.cflags),
    union-Apart (λ r. r.lin) _ lin_cbaud h.tables.cflags
        (reported_rows w lin_cbaud h.tables.cflags speed t.cflags),
  )
    where
      size :
          (r : Row)
          → IsFlagOrSize h.tables.csize r
          → (Apart r.lin lin_csize) ⊎ (bit_and h.tables.csize r.host ≡ r.host)
      size r (inl (a, _, _)) = inl a
      size r (inr (_, q)) = inr q

      speed :
          (r : Row)
          → IsFlagOrSize h.tables.csize r
          → (Apart r.lin lin_cbaud) ⊎ (bit_and h.tables.csize r.host ≡ r.host)
      speed r (inl (_, a, _)) = inl a
      speed r (inr (_, q)) = inr q

  -- The host's size for a word is a value of its field, and names the word's size.
  csize_inside :
      (lin : ℕ) → bit_and (csize_to_host h.tables lin) h.tables.csize ≡ csize_to_host h.tables lin
  unfolding csize_to_host
  csize_inside lin = ground (arith, t.cs_inside, zero-bit_and h.tables.csize)

  csize_back :
      (b lin : ℕ)
      → Apart b h.tables.csize
      → csize_to_linux h.tables (bit_or b (csize_to_host h.tables lin)) ≡ bit_and lin lin_csize
  unfolding csize_to_linux csize_to_host
  csize_back b lin a =
      let field : bit_and (bit_or b (csize_to_host h.tables lin)) h.tables.csize
          ≡ csize_to_host h.tables lin =
        bit_and-bit_or b (csize_to_host h.tables lin) h.tables.csize
        ∙ rw (Apart-zero b h.tables.csize a, zero-bit_or, csize_inside lin) in
      rw field (ground (arith, size_of lin, t.cs_set, t.cs_differ))

  sent_flags : LinTermios → ℕ
  sent_flags l = sent h.tables.cflags (clear_bits l.cflag (bit_or lin_csize lin_cbaud))

  -- The control flags that come back, before the speed.
  cflag_back :
      (l : LinTermios) (n : ℕ)
      → let w = (to_host_flags h.tables l n).cflag in
        (w ≡ bit_or (sent_flags l) (csize_to_host h.tables l.cflag))
        × (csize_to_linux h.tables w ≡ bit_and l.cflag lin_csize)
  unfolding sent_flags
  cflag_back l n =
      let w : (to_host_flags h.tables l n).cflag
          ≡ bit_or (sent_flags l) (csize_to_host h.tables l.cflag) =
        ap (λ x. bit_or x (csize_to_host h.tables l.cflag))
          (flags_to_host-sent h.tables.cflags _ 0 ∙ zero-bit_or _) in
      (
        w,
        ap (λ x. csize_to_linux h.tables x) w
            ∙ csize_back (sent_flags l) l.cflag (
                union-Apart (λ r. r.host) _ h.tables.csize h.tables.cflags
                  (sent_rows l.cflag h.tables.cflags t.cflags)),
      )

  fields_of :
      (a lin : ℕ)
      → Apart a lin_csize
      → Apart a lin_cbaud
      → let x = bit_or (bit_or a (bit_and lin lin_csize)) (bit_and lin lin_cbaud) in
        (bit_and x lin_csize ≡ bit_and lin lin_csize)
        × (bit_and x lin_cbaud ≡ bit_and lin lin_cbaud)
  fields_of a lin p q = (
    rw (
      bit_and-bit_or,
      bit_and-bit_or,
      Apart-zero a lin_csize p,
      zero-bit_or,
      bit_and_assoc lin lin_csize lin_csize,
      bit_and_assoc lin lin_cbaud lin_csize,
      bit_and_comm lin 0,
      zero-bit_and,
      bit_or-zero,
    ),
    rw (
      bit_and-bit_or,
      bit_and-bit_or,
      Apart-zero a lin_cbaud q,
      zero-bit_or,
      bit_and_assoc lin lin_csize lin_cbaud,
      bit_and_assoc lin lin_cbaud lin_cbaud,
      bit_and_comm lin 0,
      zero-bit_and,
      zero-bit_or,
    ),
  )

  cflag_read :
      (s : HostTermios) (l : LinTermios) (n sp : ℕ)
      → s.cflag ≡ (to_host_flags h.tables l n).cflag
      → h.cfgetospeed s ≡ sp
      → host_of h.tables.bauds (bit_and l.cflag lin_cbaud) ≡ some sp
      → (prefix_to_linux h s n).cflag
        ≡ bit_or
            (bit_or
              (reported h.tables.cflags
                (clear_bits (to_host_flags h.tables l n).cflag h.tables.csize))
              (bit_and l.cflag lin_csize))
            (bit_and l.cflag lin_cbaud)
  unfolding prefix_to_linux
  cflag_read s l n sp q g e = rw (
    g,
    t.speeds (bit_and l.cflag lin_cbaud) sp e,
    q,
    flags_to_linux-reported h.tables.cflags,
    (cflag_back l n).1,
  )

  pub to_host-with_speed :
      (l : LinTermios) (n sp : ℕ)
      → host_of h.tables.bauds (bit_and l.cflag lin_cbaud) ≡ some sp
      → prefix_to_host h l n ≡ with_speed h (some sp) (to_host_flags h.tables l n)
  unfolding prefix_to_host
  to_host-with_speed l n sp e = ap (λ o. with_speed h o (to_host_flags h.tables l n)) e

  -- Settings that go to the host and come back: the input and local flags are those that were set and that
  -- the host has, the character size is what it was, and so is the speed.
  pub prefix_to_linux-prefix_to_host :
      (l : LinTermios) (n sp : ℕ)
      → host_of h.tables.bauds (bit_and l.cflag lin_cbaud) ≡ some sp
      → let l' = prefix_to_linux h (prefix_to_host h l n) n in
        (l'.iflag ≡ kept h.tables.iflags l.iflag)
        × (l'.lflag ≡ kept h.tables.lflags l.lflag)
        × (bit_and l'.cflag lin_csize ≡ bit_and l.cflag lin_csize)
        × (bit_and l'.cflag lin_cbaud ≡ bit_and l.cflag lin_cbaud)
  unfolding prefix_to_linux
  prefix_to_linux-prefix_to_host l n sp e =
      let hosted = to_host_flags h.tables l n in
      let given = with_speed h (some sp) hosted in
      let rest = t.set_rest sp hosted in
      let there : prefix_to_host h l n ≡ given = to_host-with_speed l n sp e in
      let flags = reported-Apart hosted.cflag in
      let fields = fields_of _ l.cflag flags.0 flags.1 in
      let control = cflag_read given l n sp rest.1 (t.set_get sp hosted) e in
      (
        ap (λ s. flags_to_linux h.tables.iflags s.iflag 0) there
            ∙ (ap (λ x. flags_to_linux h.tables.iflags x 0) rest.0
                ∙ flags_to_linux-flags_to_host h.tables.iflags l.iflag t.iflags),
        ap (λ s. flags_to_linux h.tables.lflags s.lflag 0) there
            ∙ (ap (λ x. flags_to_linux h.tables.lflags x 0) rest.2
                ∙ flags_to_linux-flags_to_host h.tables.lflags l.lflag t.lflags),
        ap (λ s. bit_and (prefix_to_linux h s n).cflag lin_csize) there
            ∙ (ap (λ x. bit_and x lin_csize) control ∙ fields.0),
        ap (λ s. bit_and (prefix_to_linux h s n).cflag lin_cbaud) there
            ∙ (ap (λ x. bit_and x lin_cbaud) control ∙ fields.1),
      )
